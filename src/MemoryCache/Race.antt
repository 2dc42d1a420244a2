-- ===== src/MemoryCache/Race.antt =====
-- The size limit of src/drift/server/memory_cache.py: `_wait_for_free_memory` leaves the lock before
-- `_schedule_alloc` counts the size.
use community_ai.Prelude.{
  ℕ, ◌%◌, ◌≡◌, ◌≤◌, ◌<◌, ◌+◌, true, false, List, [], ◌∷◌, leb, arith, refl, total,
}
use community_ai.MemoryCache.Accounting.{used, run-init-Accounted}
use community_ai.MemoryCache.{
  word, sign, has_room, Phase, enqueued, passed, admitted, Task, Cache, init, move_to, dequeue,
  unlock, enter, try_lock, from_enqueued, from_locked, from_admitted, advance_from, Move, enters,
  advances, enter_new, advance, step, run,
}

abbrev pub call : ℕ → Task
call size = record { alloc_size = size; num_descriptors = 1; immediate = false; phase = enqueued }

-- Two handlers in turn take the lock and pass the test, before either counts its size.
abbrev pub race : ℕ → ℕ → List Move
race a b =
    enters 0 (call a)
    ∷ enters 1 (call b)
    ∷ advances 0
    ∷ advances 0
    ∷ advances 1
    ∷ advances 1
    ∷ advances 0
    ∷ advances 0
    ∷ advances 1
    ∷ advances 1
    ∷ []

-- Two allocations that each fit in the cache, but not together, can both be granted: after some
-- interleaving of two handlers, the sizes of the tasks that hold handles exceed the maximal size, and
-- the counter holds their sum, modulo 2 ** 64.
pub overcommit :
    (max_size a b : ℕ)
    → a ≤ max_size
    → b ≤ max_size
    → max_size < a + b
    → (ms : List Move) × (max_size < total used (run ms (init max_size)).tasks)
      × ((run ms (init max_size)).current_size ≡ total used (run ms (init max_size)).tasks % word)
unfolding run step enter_new enter advance advance_from from_enqueued try_lock from_locked
    from_admitted dequeue move_to unlock init has_room sign
overcommit max_size a b h k l =
    (let first : leb (0 + a) (max_size + 0) ≡ true = ground arith in
      let second : leb (0 + b) (max_size + 0) ≡ true = ground arith in
      let counted = (run-init-Accounted max_size (race a b)).cache in
      (race a b, rw first (rw second (omega (arith, l))), counted))

-- A task between its test under the lock and the count of its size.
abbrev pub flight_in : Phase → ℕ → ℕ
flight_in passed n = n
flight_in admitted n = n
flight_in _ n = 0

abbrev pub flight : Task → ℕ
flight t = flight_in t.phase t.alloc_size

abbrev pub flying : Task → ℕ
flying t = flight_in t.phase 1

-- At no point of a run are two tasks there.
abbrev pub IsSerial : List Move → Cache → Type 0
IsSerial [] s = total flying s.tasks ≤ 1
IsSerial (m ∷ ms) s = (total flying s.tasks ≤ 1) × IsSerial ms (step m s)

pub flight_none : (tasks : List (ℕ × Task)) → total flying tasks ≡ 0 → total flight tasks ≡ 0
flight_none [] h = refl
flight_none ((i, t) ∷ tasks) h =
    omega (arith, grounded t.phase t.alloc_size (omega arith), flight_none tasks (omega arith))
  where
    grounded : (p : Phase) (n : ℕ) → flight_in p 1 ≡ 0 → flight_in p n ≡ 0
    grounded passed n e = absurd (omega arith)
    grounded admitted n e = absurd (omega arith)
    grounded _ n e = refl
