-- ===== src/ModelManager/Tests.antt =====
-- Concrete interleavings of src/drift/node/model_manager.py.
use community_ai.Prelude.{ℕ, ◌≡◌, refl, true, some, List, [], ◌∷◌}
use community_ai.ModelManager.Residency.{
  new_record, is_moving, is_resident, resident_count, has_room, is_usable, is_idle, used_before,
  earlier, candidate,
}
use community_ai.ModelManager.Step.{
  move_to, set_record, leave, take_lock, lease, with_runtime, from_load_locked, evict,
  from_reserves, after_close, after_evict, from_evicts, loaded_record, from_loads, from_leased,
  unload_runtime, from_unload_locked, from_closes, with_record, advance_from, registered, init,
  Move, calls_load, calls_unload, advances, enter, resolved, advance, step, run,
}
use community_ai.ModelManager.Counts.{Inv}
use community_ai.ModelManager.Runs.{run-init-Counted}

-- One load of a model, up to its lease.
abbrev load_one : List Move
load_one =
    calls_load 0 5
    ∷ advances 0 true 10
    ∷ advances 0 true 11
    ∷ advances 0 true 12
    ∷ advances 0 true 13
    ∷ []

run-init-Counted_example : Inv (run load_one (init (some 2) (4 ∷ 5 ∷ [])))
run-init-Counted_example = run-init-Counted (some 2) (4 ∷ 5 ∷ []) load_one

-- A model's load, release and the threads' numbers.
abbrev load_and_release : ℕ → ℕ → List Move → List Move
load_and_release i m rest =
    calls_load i m
    ∷ advances i true i
    ∷ advances i true i
    ∷ advances i true i
    ∷ advances i true i
    ∷ advances i true i
    ∷ rest

-- Models 0 and 1 are loaded and released; a load of model 2 evicts model 0. While the runtime of
-- model 0 is closing, model 1 is unloaded and a new load of model 0 takes the free place. The end of
-- the close calls model 0 known, and models 2 and 1 are loaded beside it.
abbrev crowd : List Move
crowd = load_and_release 0 0 (
    load_and_release 1 1 (
      calls_load 2 2
      ∷ advances 2 true 2
      ∷ advances 2 true 2
      ∷ advances 2 true 2
      ∷ calls_unload 3 1
      ∷ advances 3 true 3
      ∷ advances 3 true 3
      ∷ advances 3 true 3
      ∷ calls_load 4 0
      ∷ advances 4 true 4
      ∷ advances 4 true 4
      ∷ advances 4 true 4
      ∷ advances 2 true 5
      ∷ advances 2 true 5
      ∷ advances 2 true 5
      ∷ calls_load 5 1
      ∷ advances 5 true 6
      ∷ advances 5 true 6
      ∷ advances 5 true 6
      ∷ advances 5 true 6
      ∷ advances 4 true 7
      ∷ []))

three_of_two : resident_count (run crowd (init (some 2) (0 ∷ 1 ∷ 2 ∷ []))).records ≡ 3
unfolding run step init registered enter resolved advance advance_from with_record take_lock
    from_load_locked with_runtime from_reserves evict candidate earlier used_before is_idle
    is_usable after_close after_evict from_evicts from_leased unload_runtime from_unload_locked
    from_closes has_room resident_count is_resident is_moving from_loads loaded_record lease leave
    move_to set_record new_record
three_of_two = refl
