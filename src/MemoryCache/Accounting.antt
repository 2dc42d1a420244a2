-- ===== src/MemoryCache/Accounting.antt =====
-- The counters of src/drift/server/memory_cache.py and the tasks that they count.
use community_ai.Prelude.{
  ℕ, ◌≡◌, ◌≤◌, ◌+◌, ◌&&◌, ◌||◌, Option, none, some, List, [], ◌∷◌, ltb, arith, refl, ap, sym, ◌∙◌,
  ◌-◌, ◌*◌, ◌/◌, ◌%◌, ◌<◌, Bool, true, false, inl, inr, Bool-cases, Option-cases, lookup, put,
  total, total-put_new, total-put_old, le-total_of_lookup,
}
use native.Mathlib.Nat.{mod-add-mod, div-add-mod', add-mul-mod_self_right}
use community_ai.MemoryCache.{
  word, add64, sub64, is_full, has_room, lose_lock, Phase, enqueued, locked, blocked, passed,
  admitted, abandoned, lost, allocated, finished, Task, Cache, init, move_to, dequeue, fail, unlock,
  enter, try_lock, from_enqueued, from_locked, from_blocked, from_admitted, free, advance_from,
  time_out_from, use_cache, Move, enters, advances, times_out, uses_cache, enter_new, advance,
  time_out, step, run,
}

abbrev pub pending_in : Phase → ℕ → ℕ
pending_in enqueued n = n
pending_in locked n = n
pending_in blocked n = n
pending_in passed n = n
pending_in _ n = 0

abbrev pub used_in : Phase → ℕ → ℕ
used_in (allocated handles) n = n
used_in _ n = 0

abbrev pub locks_in : Phase → ℕ
locks_in locked = 1
locks_in blocked = 1
locks_in lost = 1
locks_in _ = 0

-- What a task has in the queue and in the cache, and whether it has taken the lock.
abbrev pub pending : Task → ℕ
pending t = pending_in t.phase t.alloc_size

abbrev pub used : Task → ℕ
used t = used_in t.phase t.alloc_size

abbrev pub locks : Task → ℕ
locks t = locks_in t.phase

abbrev pub held : Option ℕ → ℕ
held none = 0
held (some i) = 1

pub record Inv (s : Cache) : Type 0 where
  pub queue : s.enqueued_size ≡ total pending s.tasks % word
  pub cache : s.current_size ≡ total used s.tasks % word
  pub lock : total locks s.tasks ≡ held s.lock

-- The counters modulo 2 ** 64.
kept64 : (c t t' : ℕ) → c ≡ t % word → t' ≡ t → c ≡ t' % word
kept64 c t t' e a = e ∙ ap (λ n. n % word) (sym a)

added64 : (c t t' a : ℕ) → c ≡ t % word → t' ≡ t + a → add64 c a ≡ t' % word
unfolding add64
added64 c t t' a e d =
    ap (λ n. (n + a) % word) e ∙ (mod-add-mod t word a ∙ ap (λ n. n % word) (sym d))

taken64 : (c t t' a : ℕ) → c ≡ t % word → t' + a ≡ t → sub64 c a ≡ t' % word
unfolding sub64
taken64 c t t' a e d =
    (let whole = div-add-mod' a word in
      let below : a % word < word = omega arith in
      let sum : t + (word - a % word) ≡ t' + (a / word + 1) * word =
        omega (arith, whole, below, d) in
      ap (λ n. (n + (word - a % word)) % word) e
      ∙ (mod-add-mod t word (word - a % word)
          ∙ (ap (λ n. n % word) sum ∙ add-mul-mod_self_right t' (a / word + 1) word)))

pub init-Inv : (n : ℕ) → Inv (init n)
unfolding init
init-Inv n = record { queue = omega arith; cache = omega arith; lock = refl }

held_le : (o : Option ℕ) → held o ≤ 1
held_le none = omega arith
held_le (some i) = omega arith

-- A task's move from a phase to another, and what the three sums become.
record Moved (s s' : Cache) (n : ℕ) (p q : Phase) : Type 0 where
  queue : total pending s'.tasks + pending_in p n ≡ total pending s.tasks + pending_in q n
  cache : total used s'.tasks + used_in p n ≡ total used s.tasks + used_in q n
  lock : total locks s'.tasks + locks_in p ≡ total locks s.tasks + locks_in q
  queued : pending_in p n ≤ total pending s.tasks
  cached : used_in p n ≤ total used s.tasks

put-Moved :
    (i : ℕ) (t : Task) (p q : Phase) (s s' : Cache)
    → lookup i s.tasks ≡ some t
    → t.phase ≡ p
    → s'.tasks ≡ put i (record t { phase = q }) s.tasks
    → Moved s s' t.alloc_size p q
put-Moved i t p q s s' e f g =
    (let queue = total-put_old pending i (record t { phase = q }) t s.tasks e in
      let cache = total-put_old used i (record t { phase = q }) t s.tasks e in
      let lock = total-put_old locks i (record t { phase = q }) t s.tasks e in
      let queued = le-total_of_lookup pending i t s.tasks e in
      let cached = le-total_of_lookup used i t s.tasks e in
      let in_queue = ap (λ x. pending_in x t.alloc_size) f in
      let in_cache = ap (λ x. used_in x t.alloc_size) f in
      let in_lock = ap locks_in f in
      record {
        queue = omega (arith, queue, in_queue, ap (λ x. total pending x) g);
        cache = omega (arith, cache, in_cache, ap (λ x. total used x) g);
        lock = omega (arith, lock, in_lock, ap (λ x. total locks x) g);
        queued = omega (arith, queued, in_queue);
        cached = omega (arith, cached, in_cache);
      })

fail-Inv :
    (i : ℕ) (t : Task) (s : Cache)
    → lookup i s.tasks ≡ some t
    → t.phase ≡ enqueued
    → Inv s
    → Inv (fail i t s)
unfolding fail dequeue move_to
fail-Inv i t s e f inv =
    (let m = put-Moved i t enqueued finished s (fail i t s) e f refl in
      record {
        queue = taken64 _ _ _ t.alloc_size inv.queue (omega (arith, m.queue));
        cache = kept64 _ _ _ inv.cache (omega (arith, m.cache));
        lock = omega (arith, m.lock, inv.lock);
      })

fail-unlock-Inv :
    (i : ℕ) (t : Task) (p : Phase) (s : Cache)
    → lookup i s.tasks ≡ some t
    → t.phase ≡ p
    → pending_in p t.alloc_size ≡ t.alloc_size
    → used_in p t.alloc_size ≡ 0
    → locks_in p ≡ 1
    → Inv s
    → Inv (fail i t (unlock s))
unfolding fail dequeue move_to unlock
fail-unlock-Inv i t p s e f a b c inv =
    (let m = put-Moved i t p finished s (fail i t (unlock s)) e f refl in
      record {
        queue = taken64 _ _ _ t.alloc_size inv.queue (omega (arith, m.queue, a));
        cache = kept64 _ _ _ inv.cache (omega (arith, m.cache, b));
        lock = omega (arith, m.lock, inv.lock, c, held_le s.lock);
      })

pass-Inv :
    (i : ℕ) (t : Task) (p : Phase) (s : Cache)
    → lookup i s.tasks ≡ some t
    → t.phase ≡ p
    → pending_in p t.alloc_size ≡ t.alloc_size
    → used_in p t.alloc_size ≡ 0
    → locks_in p ≡ 1
    → Inv s
    → Inv (move_to i t passed (unlock s))
unfolding move_to unlock
pass-Inv i t p s e f a b c inv =
    (let m = put-Moved i t p passed s (move_to i t passed (unlock s)) e f refl in
      record {
        queue = kept64 _ _ _ inv.queue (omega (arith, m.queue, a));
        cache = kept64 _ _ _ inv.cache (omega (arith, m.cache, b));
        lock = omega (arith, m.lock, inv.lock, c, held_le s.lock);
      })

block-Inv :
    (i : ℕ) (t : Task) (s : Cache)
    → lookup i s.tasks ≡ some t
    → t.phase ≡ locked
    → Inv s
    → Inv (move_to i t blocked s)
unfolding move_to
block-Inv i t s e f inv =
    (let m = put-Moved i t locked blocked s (move_to i t blocked s) e f refl in
      record {
        queue = kept64 _ _ _ inv.queue (omega (arith, m.queue));
        cache = kept64 _ _ _ inv.cache (omega (arith, m.cache));
        lock = omega (arith, m.lock, inv.lock);
      })

try_lock-Inv :
    (i : ℕ) (t : Task) (s : Cache) (o : Option ℕ)
    → lookup i s.tasks ≡ some t
    → t.phase ≡ enqueued
    → s.lock ≡ o
    → Inv s
    → Inv (try_lock i t s o)
unfolding try_lock move_to
try_lock-Inv i t s none e f l inv =
    (let m = put-Moved i t enqueued locked s (try_lock i t s none) e f refl in
      record {
        queue = kept64 _ _ _ inv.queue (omega (arith, m.queue));
        cache = kept64 _ _ _ inv.cache (omega (arith, m.cache));
        lock = omega (arith, m.lock, inv.lock, ap held l);
      })
try_lock-Inv i t s (some holder) e f l inv = inv

lose_lock-Inv :
    (i : ℕ) (t : Task) (s : Cache) (o : Option ℕ)
    → lookup i s.tasks ≡ some t
    → t.phase ≡ abandoned
    → s.lock ≡ o
    → Inv s
    → Inv (lose_lock i t s o)
unfolding lose_lock move_to
lose_lock-Inv i t s none e f l inv =
    (let m = put-Moved i t abandoned lost s (lose_lock i t s none) e f refl in
      record {
        queue = kept64 _ _ _ inv.queue (omega (arith, m.queue));
        cache = kept64 _ _ _ inv.cache (omega (arith, m.cache));
        lock = omega (arith, m.lock, inv.lock, ap held l);
      })
lose_lock-Inv i t s (some holder) e f l inv = inv

abandon-Inv :
    (i : ℕ) (t : Task) (s : Cache)
    → lookup i s.tasks ≡ some t
    → t.phase ≡ enqueued
    → Inv s
    → Inv (move_to i t abandoned (dequeue t s))
unfolding dequeue move_to
abandon-Inv i t s e f inv =
    (let m = put-Moved i t enqueued abandoned s (move_to i t abandoned (dequeue t s)) e f refl in
      record {
        queue = taken64 _ _ _ t.alloc_size inv.queue (omega (arith, m.queue));
        cache = kept64 _ _ _ inv.cache (omega (arith, m.cache));
        lock = omega (arith, m.lock, inv.lock);
      })

advance_from-Inv :
    (i : ℕ) (t : Task) (p : Phase) (s : Cache)
    → lookup i s.tasks ≡ some t
    → t.phase ≡ p
    → Inv s
    → Inv (advance_from i t p s)
unfolding advance_from from_enqueued from_locked from_blocked from_admitted free dequeue move_to
advance_from-Inv i t enqueued s e f inv = elim (Bool-cases (t.immediate && is_full s)) [
  | inl full ↦ rw full (fail-Inv i t s e f inv)
  | inr tried ↦ rw tried (try_lock-Inv i t s s.lock e f refl inv)
]
advance_from-Inv i t locked s e f inv = elim (Bool-cases (has_room s t)) [
  | inl room ↦ rw room (pass-Inv i t locked s e f refl refl refl inv)
  | inr full ↦ elim (Bool-cases (t.immediate || ltb s.max_size t.alloc_size)) [
    | inl gives_up ↦ rw full (rw gives_up (fail-unlock-Inv i t locked s e f refl refl refl inv))
    | inr waits ↦ rw full (rw waits (block-Inv i t s e f inv))
  ]
]
advance_from-Inv i t blocked s e f inv = elim (Bool-cases (has_room s t)) [
  | inl room ↦ rw room (pass-Inv i t blocked s e f refl refl refl inv)
  | inr full ↦ rw full (record { queue = inv.queue; cache = inv.cache; lock = inv.lock })
]
advance_from-Inv i t passed s e f inv =
    (let m = put-Moved i t passed admitted s (move_to i t admitted (dequeue t s)) e f refl in
      record {
        queue = taken64 _ _ _ t.alloc_size inv.queue (omega (arith, m.queue));
        cache = kept64 _ _ _ inv.cache (omega (arith, m.cache));
        lock = omega (arith, m.lock, inv.lock);
      })
advance_from-Inv i t admitted s e f inv =
    (let m = put-Moved i t admitted (allocated _) s (from_admitted i t s) e f refl in
      record {
        queue = kept64 _ _ _ inv.queue (omega (arith, m.queue));
        cache = added64 _ _ _ t.alloc_size inv.cache (omega (arith, m.cache));
        lock = omega (arith, m.lock, inv.lock);
      })
advance_from-Inv i t (allocated handles) s e f inv =
    (let m = put-Moved i t (allocated handles) finished s (free i t handles s) e f refl in
      record {
        queue = kept64 _ _ _ inv.queue (omega (arith, m.queue));
        cache = taken64 _ _ _ t.alloc_size inv.cache (omega (arith, m.cache));
        lock = omega (arith, m.lock, inv.lock);
      })
advance_from-Inv i t abandoned s e f inv = lose_lock-Inv i t s s.lock e f refl inv
advance_from-Inv i t lost s e f inv = inv
advance_from-Inv i t finished s e f inv = inv

time_out_from-Inv :
    (leaves : Bool) (i : ℕ) (t : Task) (p : Phase) (s : Cache)
    → lookup i s.tasks ≡ some t
    → t.phase ≡ p
    → Inv s
    → Inv (time_out_from leaves i t p s)
unfolding time_out_from
time_out_from-Inv true i t enqueued s e f inv = abandon-Inv i t s e f inv
time_out_from-Inv false i t enqueued s e f inv = fail-Inv i t s e f inv
time_out_from-Inv leaves i t blocked s e f inv =
    fail-unlock-Inv i t blocked s e f refl refl refl inv
time_out_from-Inv leaves i t _ s e f inv = inv

enter_new-Inv :
    (i : ℕ) (t : Task) (s : Cache) (o : Option Task)
    → lookup i s.tasks ≡ o
    → Inv s
    → Inv (enter_new i t o s)
unfolding enter_new enter
enter_new-Inv i t s (some u) e inv = inv
enter_new-Inv i t s none e inv =
    (let new : Task = record t { phase = enqueued } in
      let q = total-put_new pending i new s.tasks e in
      let c = total-put_new used i new s.tasks e in
      let l = total-put_new locks i new s.tasks e in
      record {
        queue = added64 _ _ _ t.alloc_size inv.queue (omega (arith, q));
        cache = kept64 _ _ _ inv.cache (omega (arith, c));
        lock = omega (arith, l, inv.lock);
      })

pub step-Inv : (m : Move) (s : Cache) → Inv s → Inv (step m s)
unfolding step advance time_out use_cache
step-Inv (enters i t) s inv = enter_new-Inv i t s (lookup i s.tasks) refl inv
step-Inv (advances i) s inv = elim (Option-cases (lookup i s.tasks)) [
  | inl absent ↦ rw absent inv
  | inr (t, found) ↦ rw found (advance_from-Inv i t t.phase s found refl inv)
]
step-Inv (times_out leaves i) s inv = elim (Option-cases (lookup i s.tasks)) [
  | inl absent ↦ rw absent inv
  | inr (t, found) ↦ rw found (time_out_from-Inv leaves i t t.phase s found refl inv)
]
step-Inv uses_cache s inv = record { queue = inv.queue; cache = inv.cache; lock = inv.lock }

run-Inv : (ms : List Move) (s : Cache) → Inv s → Inv (run ms s)
unfolding run
run-Inv [] s inv = inv
run-Inv (m ∷ ms) s inv = run-Inv ms (step m s) (step-Inv m s inv)

-- In every interleaving of allocations, timeouts and frees from an empty cache, the 64-bit counters
-- hold the sums modulo 2 ** 64: the current size that of the tasks that hold handles, the enqueued size
-- that of those that wait; and the lock is taken exactly if some task is inside it or lost it by a
-- timeout, which is never true of two tasks.
pub run-init-Accounted : (max_size : ℕ) (ms : List Move) → Inv (run ms (init max_size))
run-init-Accounted max_size ms = run-Inv ms (init max_size) (init-Inv max_size)
