-- ===== src/MemoryCache/Tests.antt =====
-- Concrete runs of `MemoryCache` of src/drift/server/memory_cache.py.
use community_ai.Prelude.{◌≡◌, ◌≤◌, ◌<◌, ◌+◌, ◌%◌, refl, arith, List, [], ◌∷◌, total}
use community_ai.MemoryCache.{
  word, sign, add64, sub64, is_full, has_room, lose_lock, init, new_handles, move_to, dequeue,
  unlock, enter, try_lock, from_enqueued, from_locked, from_blocked, from_admitted, free,
  advance_from, use_cache, Move, enters, advances, enter_new, advance, step, run,
  get_allocation_size, size_by_device, add_size, max_size_of,
}
use community_ai.MemoryCache.Accounting.{used, Inv, run-init-Accounted}
use community_ai.MemoryCache.Handles.{holds, as_count, use_cache_refines}
use community_ai.MemoryCache.Race.{call, overcommit, IsSerial}
use community_ai.MemoryCache.Serial.{serial_bounded}

-- Two devices: 3 and 4 bytes on one, 5 on the other.
largest : get_allocation_size ((0, 3) ∷ (1, 5) ∷ (0, 4) ∷ []) ≡ 7
unfolding get_allocation_size size_by_device add_size max_size_of
largest = refl

-- One handler after another; the second waits for the first to free.
abbrev turns : List Move
turns =
    enters 0 (call 6)
    ∷ advances 0
    ∷ advances 0
    ∷ advances 0
    ∷ advances 0
    ∷ enters 1 (call 5)
    ∷ advances 1
    ∷ advances 1
    ∷ advances 0
    ∷ advances 1
    ∷ advances 1
    ∷ advances 1
    ∷ []

grants : (run turns (init 10)).current_size ≡ 5
unfolding run step init enter_new enter advance advance_from from_enqueued try_lock from_locked
    from_blocked from_admitted new_handles free move_to dequeue unlock add64 sub64 is_full has_room
    sign lose_lock
grants = refl

serial : IsSerial turns (init 10)
unfolding step init enter_new enter advance advance_from from_enqueued try_lock from_locked
    from_blocked from_admitted new_handles free move_to dequeue unlock add64 sub64 is_full has_room
    sign lose_lock
serial = (
  omega arith,
  (
    omega arith,
    (
      omega arith,
      (
        omega arith,
        (
          omega arith,
          (
            omega arith,
            (
              omega arith,
              (
                omega arith,
                (omega arith, (omega arith, (omega arith, (omega arith, omega arith)))),
              ),
            ),
          ),
        ),
      ),
    ),
  ),
)

run-init-Accounted_example : Inv (run turns (init 10))
run-init-Accounted_example = run-init-Accounted 10 turns

use_cache_refines_example :
    total (holds 1) (run turns (init 10)).tasks
    ≡ as_count ((use_cache (run turns (init 10))).allocated_tensors 1)
use_cache_refines_example = use_cache_refines 10 turns 1 (omega arith)

overcommit_example :
    (ms : List Move) × (10 < total used (run ms (init 10)).tasks)
    × ((run ms (init 10)).current_size ≡ total used (run ms (init 10)).tasks % word)
overcommit_example = overcommit 10 6 5 (omega arith) (omega arith) (omega arith)

serial_bounded_example :
    (run turns (init 10)).current_size ≤ 10 + sign (run turns (init 10)).current_size
serial_bounded_example = serial_bounded 10 turns serial
