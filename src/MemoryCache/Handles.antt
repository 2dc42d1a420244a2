-- ===== src/MemoryCache/Handles.antt =====
-- The runtime's tensors in src/drift/server/memory_cache.py beside the handles that tasks hold.
use community_ai.Prelude.{
  ℕ, zero, suc, ◌≡◌, ◌≤◌, ◌<◌, ◌%◌, le-total_of_lookup, ◌+◌, Bool, true, false, not, ◌&&◌, ◌||◌,
  Option, none, some, List, [], ◌∷◌, ◌++◌, leb, ltb, if◌then◌else◌, arith, refl, sym, ap, subst,
  ◌∙◌, inl, inr, Bool-cases, Option-cases, lookup, put, total, total-put_new, total-put_old, count,
}
use community_ai.MemoryCache.{
  word, half, add64, is_full, has_room, lose_lock, Phase, enqueued, locked, blocked, passed,
  admitted, abandoned, lost, allocated, finished, Task, Message, create, delete, Cache, init,
  new_handles, move_to, dequeue, fail, unlock, enter, try_lock, from_enqueued, from_locked,
  from_blocked, from_admitted, free, advance_from, time_out_from, elem, receive, drain, use_cache,
  Move, enters, advances, times_out, uses_cache, enter_new, advance, time_out, step, run,
}

abbrev pub handles_in : Phase → List ℕ
handles_in (allocated handles) = handles
handles_in _ = []

-- How often a task holds a handle.
abbrev pub holds : ℕ → Task → ℕ
holds h t = count h (handles_in t.phase)

abbrev pub as_count : Bool → ℕ
as_count true = 1
as_count false = 0

drain-snoc :
    (ms : List Message) (m : Message) (tensors : ℕ → Bool) (h : ℕ)
    → drain (ms ++ m ∷ []) tensors h ≡ receive m (drain ms tensors) h
unfolding drain
drain-snoc [] m tensors h = refl
drain-snoc (x ∷ xs) m tensors h = drain-snoc xs m (receive x tensors) h

elem-count : (h : ℕ) (xs : List ℕ) → elem h xs ≡ ltb 0 (count h xs)
unfolding elem
elem-count h [] = refl
elem-count h (x ∷ xs) = ground (arith, elem-count h xs)

count-new_handles :
    (h counter n : ℕ)
    → count h (new_handles counter n) ≡ (if leb counter h && ltb h (counter + n) then 1 else 0)
unfolding new_handles
count-new_handles h counter zero = ground arith
count-new_handles h counter (suc n) = ground (arith, count-new_handles h (counter + 1) n)

-- What the runtime has once it has read the pipe.
abbrev view : Cache → ℕ → Bool
view s = drain s.pipe s.allocated_tensors

-- The handles that a task may still take.
abbrev claims_in : Phase → ℕ → ℕ
claims_in enqueued n = n
claims_in locked n = n
claims_in blocked n = n
claims_in passed n = n
claims_in admitted n = n
claims_in _ n = 0

abbrev claims : Task → ℕ
claims t = claims_in t.phase t.num_descriptors

-- `rest` handles may be asked for by later tasks, and the counter does not come to 2 ** 63.
record Mirror (rest : ℕ) (s : Cache) : Type 0 where
  owned : (h : ℕ) → total (holds h) s.tasks ≡ as_count (view s h)
  fresh : (h : ℕ) → s.handle_counter + half ≤ h → view s h ≡ false
  room : s.handle_counter + total claims s.tasks + rest < half

init-Mirror : (rest n : ℕ) → rest < half → Mirror rest (init n)
unfolding init drain
init-Mirror rest n b = record { owned = λ h. refl; fresh = λ h a. refl; room = omega (arith, b) }

-- A move between phases without handles.
quiet-Mirror :
    (rest : ℕ) (i : ℕ) (t : Task) (p q : Phase) (s s' : Cache)
    → lookup i s.tasks ≡ some t
    → t.phase ≡ p
    → handles_in p ≡ []
    → handles_in q ≡ []
    → s'.tasks ≡ put i (record t { phase = q }) s.tasks
    → s'.handle_counter ≡ s.handle_counter
    → view s' ≡ view s
    → claims_in q t.num_descriptors ≤ claims_in p t.num_descriptors
    → Mirror rest s
    → Mirror rest s'
quiet-Mirror rest i t p q s s' e f a b g c v d inv = record {
  owned = λ h.
      (let moved = total-put_old (holds h) i (record t { phase = q }) t s.tasks e in
        let before : holds h t ≡ 0 = ap (λ x. count h (handles_in x)) f ∙ ap (count h) a in
        let after : count h (handles_in q) ≡ 0 = ap (count h) b in
        omega (
          arith,
          moved,
          before,
          after,
          ap (total (holds h)) g,
          inv.owned h,
          ap (λ w. as_count (w h)) v,
        ));
  fresh = λ h l. ap (λ w. w h) v ∙ inv.fresh h (subst (λ x. x + half ≤ h) c l);
  room =
      (let moved = total-put_old claims i (record t { phase = q }) t s.tasks e in
        let before = ap (λ x. claims_in x t.num_descriptors) f in
        omega (arith, moved, before, d, c, ap (total claims) g, inv.room));
}

neither : (a b : Bool) → a ≡ false → b ≡ false → (a || b) ≡ false
neither a b h k = ground arith

dropped : (a b : Bool) → b ≡ false → (not a && b) ≡ false
dropped a b h = ground arith

as_count-created :
    (before after new : ℕ) (seen made : Bool)
    → after ≡ before + new
    → before ≡ as_count seen
    → made ≡ ltb 0 new
    → new ≤ 1
    → (1 ≤ new → seen ≡ false)
    → after ≡ as_count (made || seen)
as_count-created before after new false false a b c d f = ground arith
as_count-created before after new false true a b c d f = ground arith
as_count-created before after new true false a b c d f = ground arith
as_count-created before after new true true a b c d f = ground (arith, f)

as_count-deleted :
    (before after old : ℕ) (seen gone : Bool)
    → after + old ≡ before
    → before ≡ as_count seen
    → gone ≡ ltb 0 old
    → after ≡ as_count (not gone && seen)
as_count-deleted before after old false false a b c = ground arith
as_count-deleted before after old false true a b c = ground arith
as_count-deleted before after old true false a b c = ground arith
as_count-deleted before after old true true a b c = ground arith

admit-Mirror :
    (rest : ℕ) (i : ℕ) (t : Task) (s : Cache)
    → lookup i s.tasks ≡ some t
    → t.phase ≡ admitted
    → Mirror rest s
    → Mirror rest (from_admitted i t s)
unfolding from_admitted move_to receive add64
admit-Mirror rest i t s e f inv =
    (let mine = le-total_of_lookup claims i t s.tasks e in
      let claimed = ap (λ x. claims_in x t.num_descriptors) f in
      let start : (s.handle_counter + half) % word ≡ s.handle_counter + half =
        omega (arith, inv.room) in
      let next : (s.handle_counter + t.num_descriptors) % word
          ≡ s.handle_counter + t.num_descriptors =
        omega (arith, inv.room, mine, claimed) in
      let handles = new_handles (s.handle_counter + half) t.num_descriptors in
      rw (start, next)
        (record {
          owned = λ h.
              (let moved =
                  total-put_old (holds h) i (record t { phase = allocated handles }) t s.tasks e in
                let before : holds h t ≡ 0 = ap (λ x. count h (handles_in x)) f in
                let seen = drain-snoc s.pipe (create handles) s.allocated_tensors h in
                let new = count-new_handles h (s.handle_counter + half) t.num_descriptors in
                let counted =
                  as_count-created (total (holds h) s.tasks) _ (count h handles) (view s h)
                    (elem h handles) (omega (arith, moved, before)) (inv.owned h)
                    (elem-count h handles) (ground (arith, new))
                    (λ a. inv.fresh h (ground (arith, new))) in
                counted ∙ ap as_count (sym seen));
          fresh = λ h l.
              (let new = count-new_handles h (s.handle_counter + half) t.num_descriptors in
                let old = inv.fresh h (omega (arith, l)) in
                let seen = drain-snoc s.pipe (create handles) s.allocated_tensors h in
                let listed = elem-count h handles in
                seen ∙ neither (elem h handles) (view s h) (ground (arith, listed, new, l)) old);
          room =
              (let moved =
                  total-put_old claims i (record t { phase = allocated handles }) t s.tasks e in
                omega (arith, moved, claimed, inv.room));
        }))

try_lock-Mirror :
    (rest : ℕ) (i : ℕ) (t : Task) (s : Cache) (o : Option ℕ)
    → lookup i s.tasks ≡ some t
    → t.phase ≡ enqueued
    → Mirror rest s
    → Mirror rest (try_lock i t s o)
unfolding try_lock move_to
try_lock-Mirror rest i t s none e f inv =
    quiet-Mirror rest i t enqueued locked s (try_lock i t s none) e f refl refl refl refl refl
      (omega arith) inv
try_lock-Mirror rest i t s (some holder) e f inv = inv

free-Mirror :
    (rest : ℕ) (i : ℕ) (t : Task) (handles : List ℕ) (s : Cache)
    → lookup i s.tasks ≡ some t
    → t.phase ≡ allocated handles
    → Mirror rest s
    → Mirror rest (free i t handles s)
unfolding free move_to receive
free-Mirror rest i t handles s e f inv = record {
  owned = λ h.
      (let moved = total-put_old (holds h) i (record t { phase = finished }) t s.tasks e in
        let before : holds h t ≡ count h handles = ap (λ x. count h (handles_in x)) f in
        let seen = drain-snoc s.pipe (delete handles) s.allocated_tensors h in
        let counted =
          as_count-deleted (total (holds h) s.tasks) _ (count h handles) (view s h) (elem h handles)
            (omega (arith, moved, before)) (inv.owned h) (elem-count h handles) in
        counted ∙ ap as_count (sym seen));
  fresh = λ h l.
      (drain-snoc s.pipe (delete handles) s.allocated_tensors h
        ∙ dropped (elem h handles) (view s h) (inv.fresh h l));
  room =
      (let moved = total-put_old claims i (record t { phase = finished }) t s.tasks e in
        let before = ap (λ x. claims_in x t.num_descriptors) f in
        omega (arith, moved, before, inv.room));
}

lose_lock-Mirror :
    (rest : ℕ) (i : ℕ) (t : Task) (s : Cache) (o : Option ℕ)
    → lookup i s.tasks ≡ some t
    → t.phase ≡ abandoned
    → Mirror rest s
    → Mirror rest (lose_lock i t s o)
unfolding lose_lock move_to
lose_lock-Mirror rest i t s none e f inv =
    quiet-Mirror rest i t abandoned lost s (lose_lock i t s none) e f refl refl refl refl refl
      (omega arith) inv
lose_lock-Mirror rest i t s (some holder) e f inv = inv

advance_from-Mirror :
    (rest : ℕ) (i : ℕ) (t : Task) (p : Phase) (s : Cache)
    → lookup i s.tasks ≡ some t
    → t.phase ≡ p
    → Mirror rest s
    → Mirror rest (advance_from i t p s)
unfolding advance_from from_enqueued from_locked from_blocked try_lock fail dequeue move_to unlock
advance_from-Mirror rest i t enqueued s e f inv = elim (Bool-cases (t.immediate && is_full s)) [
  | inl full ↦ rw full (
      quiet-Mirror rest i t enqueued finished s (fail i t s) e f refl refl refl refl refl
        (omega arith) inv)
  | inr tried ↦ rw tried (try_lock-Mirror rest i t s s.lock e f inv)
]
advance_from-Mirror rest i t locked s e f inv = elim (Bool-cases (has_room s t)) [
  | inl room ↦ rw room (
      quiet-Mirror rest i t locked passed s (move_to i t passed (unlock s)) e f refl refl refl refl
        refl (omega arith) inv)
  | inr full ↦ elim (Bool-cases (t.immediate || ltb s.max_size t.alloc_size)) [
    | inl gives_up ↦ rw full (
        rw gives_up (
          quiet-Mirror rest i t locked finished s (fail i t (unlock s)) e f refl refl refl refl refl
            (omega arith) inv))
    | inr waits ↦ rw full (
        rw waits (
          quiet-Mirror rest i t locked blocked s (move_to i t blocked s) e f refl refl refl refl
            refl (omega arith) inv))
  ]
]
advance_from-Mirror rest i t blocked s e f inv = elim (Bool-cases (has_room s t)) [
  | inl room ↦ rw room (
      quiet-Mirror rest i t blocked passed s (move_to i t passed (unlock s)) e f refl refl refl refl
        refl (omega arith) inv)
  | inr full ↦ rw full (record { owned = inv.owned; fresh = inv.fresh; room = inv.room })
]
advance_from-Mirror rest i t passed s e f inv =
    quiet-Mirror rest i t passed admitted s (move_to i t admitted (dequeue t s)) e f refl refl refl
      refl refl (omega arith) inv
advance_from-Mirror rest i t admitted s e f inv = admit-Mirror rest i t s e f inv
advance_from-Mirror rest i t (allocated handles) s e f inv = free-Mirror rest i t handles s e f inv
advance_from-Mirror rest i t abandoned s e f inv = lose_lock-Mirror rest i t s s.lock e f inv
advance_from-Mirror rest i t lost s e f inv = inv
advance_from-Mirror rest i t finished s e f inv = inv

time_out_from-Mirror :
    (rest : ℕ) (leaves : Bool) (i : ℕ) (t : Task) (p : Phase) (s : Cache)
    → lookup i s.tasks ≡ some t
    → t.phase ≡ p
    → Mirror rest s
    → Mirror rest (time_out_from leaves i t p s)
unfolding time_out_from fail dequeue move_to unlock
time_out_from-Mirror rest true i t enqueued s e f inv =
    quiet-Mirror rest i t enqueued abandoned s (move_to i t abandoned (dequeue t s)) e f refl refl
      refl refl refl (omega arith) inv
time_out_from-Mirror rest false i t enqueued s e f inv =
    quiet-Mirror rest i t enqueued finished s (fail i t s) e f refl refl refl refl refl
      (omega arith) inv
time_out_from-Mirror rest leaves i t blocked s e f inv =
    quiet-Mirror rest i t blocked finished s (fail i t (unlock s)) e f refl refl refl refl refl
      (omega arith) inv
time_out_from-Mirror rest leaves i t _ s e f inv = inv

enter_new-Mirror :
    (rest : ℕ) (i : ℕ) (t : Task) (s : Cache) (o : Option Task)
    → lookup i s.tasks ≡ o
    → Mirror (t.num_descriptors + rest) s
    → Mirror rest (enter_new i t o s)
unfolding enter_new enter
enter_new-Mirror rest i t s (some u) e inv = record {
  owned = inv.owned;
  fresh = inv.fresh;
  room = omega (arith, inv.room);
}
enter_new-Mirror rest i t s none e inv = record {
  owned = λ h.
      (let new = total-put_new (holds h) i (record t { phase = enqueued }) s.tasks e in
        omega (arith, new, inv.owned h));
  fresh = inv.fresh;
  room =
      (let new = total-put_new claims i (record t { phase = enqueued }) s.tasks e in
        omega (arith, new, inv.room));
}

-- The handles that the tasks of a run ask for.
abbrev asked_with : Move → ℕ → ℕ
asked_with (enters i t) rest = t.num_descriptors + rest
asked_with (advances i) rest = rest
asked_with (times_out leaves i) rest = rest
asked_with uses_cache rest = rest

abbrev pub asked : List Move → ℕ
asked [] = 0
asked (m ∷ ms) = asked_with m (asked ms)

step-Mirror :
    (rest : ℕ) (m : Move) (s : Cache) → Mirror (asked_with m rest) s → Mirror rest (step m s)
unfolding step advance time_out use_cache drain
step-Mirror rest (enters i t) s inv = enter_new-Mirror rest i t s (lookup i s.tasks) refl inv
step-Mirror rest (advances i) s inv = elim (Option-cases (lookup i s.tasks)) [
  | inl absent ↦ rw absent inv
  | inr (t, found) ↦ rw found (advance_from-Mirror rest i t t.phase s found refl inv)
]
step-Mirror rest (times_out leaves i) s inv = elim (Option-cases (lookup i s.tasks)) [
  | inl absent ↦ rw absent inv
  | inr (t, found) ↦ rw found (time_out_from-Mirror rest leaves i t t.phase s found refl inv)
]
step-Mirror rest uses_cache s inv = record { owned = inv.owned; fresh = inv.fresh; room = inv.room }

run-Mirror : (ms : List Move) (s : Cache) → Mirror (asked ms) s → Mirror 0 (run ms s)
unfolding run
run-Mirror [] s inv = inv
run-Mirror (m ∷ ms) s inv = run-Mirror ms (step m s) (step-Mirror (asked ms) m s inv)

-- After any interleaving of allocations, timeouts, frees and calls of the runtime from an empty
-- cache, in which fewer than 2 ** 63 handles are asked for, so that the 64-bit counter of handles does
-- not wrap, a call of `use_cache` leaves the runtime with a tensor for exactly the handles that a task
-- holds, and no handle is held twice.
pub use_cache_refines :
    (max_size : ℕ) (ms : List Move) (h : ℕ)
    → asked ms < half
    → total (holds h) (run ms (init max_size)).tasks
      ≡ as_count ((use_cache (run ms (init max_size))).allocated_tensors h)
unfolding use_cache
use_cache_refines max_size ms h few =
    (run-Mirror ms (init max_size) (init-Mirror (asked ms) max_size few)).owned h
