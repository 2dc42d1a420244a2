-- ===== src/MemoryCache/Serial.antt =====
-- The size limit of src/drift/server/memory_cache.py where admissions do not overlap.
use community_ai.Prelude.{
  ℕ, ◌≡◌, ◌≤◌, ◌<◌, ◌%◌, ◌+◌, Bool, true, false, ◌&&◌, Option, none, some, List, [], ◌∷◌, leb, ltb,
  if◌then◌else◌, if_true, arith, refl, sym, ◌∙◌, ap, subst, inl, inr, Bool-cases, Option-cases,
  leb→le, ltb→lt, ltb→ge, lookup, put, total, total-put_new, total-put_old,
}
use community_ai.MemoryCache.{
  word, half, sign, is_full, has_room, lose_lock, Phase, enqueued, locked, blocked, passed,
  admitted, abandoned, lost, allocated, finished, Task, Cache, init, move_to, dequeue, fail, unlock,
  enter, try_lock, from_enqueued, from_locked, from_blocked, from_admitted, free, advance_from,
  time_out_from, use_cache, Move, enters, advances, times_out, uses_cache, enter_new, advance,
  time_out, step, run,
}
use community_ai.MemoryCache.Accounting.{used_in, used, Inv, init-Inv, step-Inv, run-init-Accounted}
use community_ai.MemoryCache.Race.{flight_in, flight, flying, IsSerial, flight_none}

-- The sizes that are counted, or will be, are within the limit.
record Within (m : ℕ) (s : Cache) : Type 0 where
  limit : s.max_size ≡ m
  room : total used s.tasks + total flight s.tasks ≤ m

record Moved (s s' : Cache) (n : ℕ) (p q : Phase) : Type 0 where
  sizes : total flight s'.tasks + flight_in p n ≡ total flight s.tasks + flight_in q n
  counts : total used s'.tasks + used_in p n ≡ total used s.tasks + used_in q n
  tasks : total flying s'.tasks + flight_in p 1 ≡ total flying s.tasks + flight_in q 1

put-Moved :
    (i : ℕ) (t : Task) (p q : Phase) (s s' : Cache)
    → lookup i s.tasks ≡ some t
    → t.phase ≡ p
    → s'.tasks ≡ put i (record t { phase = q }) s.tasks
    → Moved s s' t.alloc_size p q
put-Moved i t p q s s' e f g = record {
  sizes = omega (
    arith,
    total-put_old flight i (record t { phase = q }) t s.tasks e,
    ap (λ x. flight_in x t.alloc_size) f,
    ap (λ x. total flight x) g,
  );
  counts = omega (
    arith,
    total-put_old used i (record t { phase = q }) t s.tasks e,
    ap (λ x. used_in x t.alloc_size) f,
    ap (λ x. total used x) g,
  );
  tasks = omega (
    arith,
    total-put_old flying i (record t { phase = q }) t s.tasks e,
    ap (λ x. flight_in x 1) f,
    ap (λ x. total flying x) g,
  );
}

-- A move that adds nothing to what is counted or in flight.
quiet-Within :
    (m i : ℕ) (t : Task) (p q : Phase) (s s' : Cache)
    → lookup i s.tasks ≡ some t
    → t.phase ≡ p
    → flight_in q t.alloc_size + used_in q t.alloc_size
      ≤ flight_in p t.alloc_size + used_in p t.alloc_size
    → s'.tasks ≡ put i (record t { phase = q }) s.tasks
    → s'.max_size ≡ s.max_size
    → Within m s
    → Within m s'
quiet-Within m i t p q s s' e f a g l inv =
    (let moved = put-Moved i t p q s s' e f g in
      record {
        limit = omega (arith, l, inv.limit);
        room = omega (arith, moved.sizes, moved.counts, inv.room, a);
      })

-- A sum within a limit below 2 ** 63 is what the counter says.
fits :
    (m : ℕ) (t : Task) (s : Cache)
    → m < half
    → Inv s
    → Within m s
    → has_room s t ≡ true
    → total used s.tasks + t.alloc_size ≤ m
unfolding has_room sign
fits m t s small counters inv b =
    (let exact : s.current_size ≡ total used s.tasks =
        omega (arith, counters.cache, small, inv.room) in
      let positive : ltb s.current_size half ≡ true = ground (arith, exact, small, inv.room) in
      let bounded : leb (s.current_size + t.alloc_size) (s.max_size + 0) ≡ true =
        sym (
          ap (λ c. leb (s.current_size + t.alloc_size) (s.max_size + (if c then 0 else word)))
            positive)
        ∙ b in
      let below = leb→le (s.current_size + t.alloc_size) (s.max_size + 0) bounded in
      omega (arith, below, exact, inv.limit))

-- The test under the lock, when no other task is in flight.
pass-Within :
    (m i : ℕ) (t : Task) (p : Phase) (s : Cache)
    → m < half
    → Inv s
    → lookup i s.tasks ≡ some t
    → t.phase ≡ p
    → flight_in p 1 ≡ 0
    → has_room s t ≡ true
    → used_in p t.alloc_size ≡ 0
    → total flying (move_to i t passed (unlock s)).tasks ≤ 1
    → Within m s
    → Within m (move_to i t passed (unlock s))
unfolding move_to unlock
pass-Within m i t p s small counters e f a b u c inv =
    (let moved = put-Moved i t p passed s (move_to i t passed (unlock s)) e f refl in
      let alone = flight_none s.tasks (omega (arith, moved.tasks, a, c)) in
      record {
        limit = inv.limit;
        room = omega (arith, moved.sizes, moved.counts, alone, u, fits m t s small counters inv b);
      })

try_lock-Within :
    (m i : ℕ) (t : Task) (s : Cache) (o : Option ℕ)
    → lookup i s.tasks ≡ some t
    → t.phase ≡ enqueued
    → Within m s
    → Within m (try_lock i t s o)
unfolding try_lock move_to
try_lock-Within m i t s none e f inv =
    quiet-Within m i t enqueued locked s (try_lock i t s none) e f (omega arith) refl refl inv
try_lock-Within m i t s (some holder) e f inv = inv

lose_lock-Within :
    (m i : ℕ) (t : Task) (s : Cache) (o : Option ℕ)
    → lookup i s.tasks ≡ some t
    → t.phase ≡ abandoned
    → Within m s
    → Within m (lose_lock i t s o)
unfolding lose_lock move_to
lose_lock-Within m i t s none e f inv =
    quiet-Within m i t abandoned lost s (lose_lock i t s none) e f (omega arith) refl refl inv
lose_lock-Within m i t s (some holder) e f inv = inv

blocked-Within :
    (m i : ℕ) (t : Task) (s : Cache) (b : Bool)
    → lookup i s.tasks ≡ some t
    → t.phase ≡ locked
    → Within m s
    → Within m (if b then fail i t (unlock s) else move_to i t blocked s)
unfolding fail dequeue move_to unlock
blocked-Within m i t s true e f inv =
    quiet-Within m i t locked finished s (fail i t (unlock s)) e f (omega arith) refl refl inv
blocked-Within m i t s false e f inv =
    quiet-Within m i t locked blocked s (move_to i t blocked s) e f (omega arith) refl refl inv

locked_case :
    (m i : ℕ) (t : Task) (s : Cache)
    → m < half
    → Inv s
    → lookup i s.tasks ≡ some t
    → t.phase ≡ locked
    → total flying (from_locked i t s).tasks ≤ 1
    → Within m s
    → Within m (from_locked i t s)
unfolding from_locked
locked_case m i t s small counters e f a inv = elim (Bool-cases (has_room s t)) [
  | inl room ↦
      (let same = if_true (move_to i t passed (unlock s)) _ room in
        subst (Within m) (sym same) (
          pass-Within m i t locked s small counters e f refl room refl
            (subst (λ x. total flying x.tasks ≤ 1) same a) inv))
  | inr full ↦ rw full (blocked-Within m i t s _ e f inv)
]

blocked_case :
    (m i : ℕ) (t : Task) (s : Cache)
    → m < half
    → Inv s
    → lookup i s.tasks ≡ some t
    → t.phase ≡ blocked
    → total flying (from_blocked i t s).tasks ≤ 1
    → Within m s
    → Within m (from_blocked i t s)
unfolding from_blocked
blocked_case m i t s small counters e f a inv = elim (Bool-cases (has_room s t)) [
  | inl room ↦
      (let same = if_true (move_to i t passed (unlock s)) _ room in
        subst (Within m) (sym same) (
          pass-Within m i t blocked s small counters e f refl room refl
            (subst (λ x. total flying x.tasks ≤ 1) same a) inv))
  | inr full ↦ rw full (record { limit = inv.limit; room = inv.room })
]

advance_from-Within :
    (m i : ℕ) (t : Task) (p : Phase) (s : Cache)
    → m < half
    → Inv s
    → lookup i s.tasks ≡ some t
    → t.phase ≡ p
    → total flying (advance_from i t p s).tasks ≤ 1
    → Within m s
    → Within m (advance_from i t p s)
unfolding advance_from from_enqueued from_locked from_blocked from_admitted free fail dequeue
    move_to unlock
advance_from-Within m i t enqueued s small counters e f a inv =
    elim (Bool-cases (t.immediate && is_full s)) [
      | inl full ↦
          rw full
            (quiet-Within m i t enqueued finished s (fail i t s) e f (omega arith) refl refl inv)
      | inr tried ↦ rw tried (try_lock-Within m i t s s.lock e f inv)
    ]
advance_from-Within m i t locked s small counters e f a inv =
    locked_case m i t s small counters e f a inv
advance_from-Within m i t blocked s small counters e f a inv =
    blocked_case m i t s small counters e f a inv
advance_from-Within m i t passed s small counters e f a inv =
    quiet-Within m i t passed admitted s (move_to i t admitted (dequeue t s)) e f (omega arith) refl
      refl inv
advance_from-Within m i t admitted s small counters e f a inv =
    quiet-Within m i t admitted (allocated _) s (from_admitted i t s) e f (omega arith) refl refl
      inv
advance_from-Within m i t (allocated handles) s small counters e f a inv =
    quiet-Within m i t (allocated handles) finished s (free i t handles s) e f (omega arith) refl
      refl inv
advance_from-Within m i t abandoned s small counters e f a inv =
    lose_lock-Within m i t s s.lock e f inv
advance_from-Within m i t lost s small counters e f a inv = inv
advance_from-Within m i t finished s small counters e f a inv = inv

time_out_from-Within :
    (leaves : Bool) (m i : ℕ) (t : Task) (p : Phase) (s : Cache)
    → lookup i s.tasks ≡ some t
    → t.phase ≡ p
    → Within m s
    → Within m (time_out_from leaves i t p s)
unfolding time_out_from fail dequeue move_to unlock
time_out_from-Within true m i t enqueued s e f inv =
    quiet-Within m i t enqueued abandoned s (move_to i t abandoned (dequeue t s)) e f (omega arith)
      refl refl inv
time_out_from-Within false m i t enqueued s e f inv =
    quiet-Within m i t enqueued finished s (fail i t s) e f (omega arith) refl refl inv
time_out_from-Within leaves m i t blocked s e f inv =
    quiet-Within m i t blocked finished s (fail i t (unlock s)) e f (omega arith) refl refl inv
time_out_from-Within leaves m i t _ s e f inv = inv

enter_new-Within :
    (m i : ℕ) (t : Task) (s : Cache) (o : Option Task)
    → lookup i s.tasks ≡ o
    → Within m s
    → Within m (enter_new i t o s)
unfolding enter_new enter
enter_new-Within m i t s (some u) e inv = inv
enter_new-Within m i t s none e inv =
    (let new = total-put_new flight i (record t { phase = enqueued }) s.tasks e in
      let none_used = total-put_new used i (record t { phase = enqueued }) s.tasks e in
      record { limit = inv.limit; room = omega (arith, new, none_used, inv.room) })

advance-Within :
    (m i : ℕ) (s : Cache) (o : Option Task)
    → m < half
    → Inv s
    → lookup i s.tasks ≡ o
    → total flying (advance i o s).tasks ≤ 1
    → Within m s
    → Within m (advance i o s)
unfolding advance
advance-Within m i s none small counters e a inv = inv
advance-Within m i s (some t) small counters e a inv =
    advance_from-Within m i t t.phase s small counters e refl a inv

step-Within :
    (m : ℕ) (move : Move) (s : Cache)
    → m < half
    → Inv s
    → total flying (step move s).tasks ≤ 1
    → Within m s
    → Within m (step move s)
unfolding step advance time_out use_cache
step-Within m (enters i t) s small counters a inv =
    enter_new-Within m i t s (lookup i s.tasks) refl inv
step-Within m (advances i) s small counters a inv =
    advance-Within m i s (lookup i s.tasks) small counters refl a inv
step-Within m (times_out leaves i) s small counters a inv = elim (Option-cases (lookup i s.tasks)) [
  | inl absent ↦ rw absent inv
  | inr (t, found) ↦ rw found (time_out_from-Within leaves m i t t.phase s found refl inv)
]
step-Within m uses_cache s small counters a inv = record { limit = inv.limit; room = inv.room }

IsSerial-head : (ms : List Move) (s : Cache) → IsSerial ms s → total flying s.tasks ≤ 1
IsSerial-head [] s h = h
IsSerial-head (m ∷ ms) s h = h.0

run-Within :
    (m : ℕ) (ms : List Move) (s : Cache)
    → m < half
    → IsSerial ms s
    → Inv s
    → Within m s
    → Inv (run ms s) × Within m (run ms s)
unfolding run
run-Within m [] s small h counters inv = (counters, inv)
run-Within m (move ∷ ms) s small h counters inv =
    run-Within m ms (step move s) small h.1 (step-Inv move s counters)
      (step-Within m move s small counters (IsSerial-head ms (step move s) h.1) inv)

small_bounded :
    (m : ℕ) (s : Cache) → m < half → Inv s × Within m s → s.current_size ≤ m + sign s.current_size
unfolding sign
small_bounded m s small h =
    (let exact : s.current_size ≡ total used s.tasks = omega (arith, h.0.cache, small, h.1.room) in
      omega (arith, exact, h.1.room))

large_bounded : (m c n : ℕ) → half ≤ m → c ≡ n % word → c ≤ m + sign c
unfolding sign
large_bounded m c n large e = elim (Bool-cases (ltb c half)) [
  | inl positive ↦ rw positive (ground (arith, positive, large))
  | inr negative ↦ rw negative (omega (arith, e, large))
]

-- In an interleaving in which never two tasks are between the test for room and the count of their
-- size, the counted size, read with its sign, stays within the maximal size.
pub serial_bounded :
    (max_size : ℕ) (ms : List Move)
    → IsSerial ms (init max_size)
    → (run ms (init max_size)).current_size ≤ max_size + sign (run ms (init max_size)).current_size
serial_bounded max_size ms h = elim (Bool-cases (ltb max_size half)) [
  | inl small ↦
      (let below = ltb→lt max_size half small in
        small_bounded max_size (run ms (init max_size)) below (
          run-Within max_size ms (init max_size) below h (init-Inv max_size)
            (unfold init in record { limit = refl; room = omega arith })))
  | inr large ↦
      large_bounded max_size _ (total used (run ms (init max_size)).tasks)
        (ltb→ge max_size half large) (run-init-Accounted max_size ms).cache
]
