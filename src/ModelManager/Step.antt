-- ===== src/ModelManager/Step.antt =====
-- The calls of src/drift/node/model_manager.py as threads. A thread stands at a point where another
-- one may run, and `advance` takes it to its next; `succeeds` is what the loader or the closer of a
-- runtime does, `now` the clock. A wait is a step that changes nothing.
use community_ai.Prelude.{
  ℕ, suc, ◌+◌, ◌-◌, Bool, true, false, Option, none, some, List, [], ◌∷◌, ltb, if◌then◌else◌,
  lookup, put,
}
use community_ai.ModelManager.Residency.{
  known, loading, ready, unavailable, unloading, stopping, ModelRecord, new_record, has_room,
  candidate, any_close_failed,
}

-- Where a thread stands in `load`, `unload` and `shutdown`.
pub data Phase : Type 0 where
  -- before and after `load_lock`, of a load or an unload
  load_asks load_locked unload_asks unload_locked : ℕ → Phase
  -- _reserve_runtime_slot for a model, and the close of the runtime of another
  reserves : ℕ → Phase
  evicts : ℕ → ℕ → ℕ → Phase
  -- in the loader
  loads : ℕ → Phase
  -- with a lease on a model and its runtime
  leased : ℕ → ℕ → Phase
  -- in the close of an unload
  closes : ℕ → ℕ → Phase
  shutdown_asks : Phase
  shuts : List ℕ → Phase
  ended : Phase

pub record Manager : Type 0 where
  pub records : List (ℕ × ModelRecord)
  pub max_loaded_models : Option ℕ
  pub closed : Bool
  pub next_runtime : ℕ
  pub threads : List (ℕ × Phase)

unfoldable pub move_to : ℕ → Phase → Manager → Manager
move_to i p s = record s { threads = put i p s.threads }

unfoldable pub set_record : ℕ → ModelRecord → Manager → Manager
set_record m r s = record s { records = put m r s.records }

-- The end of `with record.load_lock`, by a return or an exception.
unfoldable pub leave : ℕ → ℕ → ModelRecord → Manager → Manager
unfolding move_to set_record
leave i m r s = move_to i ended (set_record m (record r { load_lock = none }) s)

unfoldable pub take_lock : ℕ → ℕ → Phase → ModelRecord → Option ℕ → Manager → Manager
unfolding move_to set_record
take_lock i m next r none s = move_to i next (set_record m (record r { load_lock = some i }) s)
take_lock i m next r (some j) s = s

-- _lease_locked, and the return of `load`
unfoldable pub lease : ℕ → ℕ → ℕ → ModelRecord → ℕ → Manager → Manager
unfolding move_to set_record
lease i m now r runtime s = move_to i (leased m runtime) (
    set_record m
      (record r {
        active_requests = r.active_requests + 1;
        last_used_at = some now;
        load_lock = none;
      })
      s)

unfoldable pub with_runtime : ℕ → ℕ → ℕ → ModelRecord → Option ℕ → Manager → Manager
unfolding lease leave move_to
with_runtime i m now r none s = move_to i (reserves m) s
with_runtime i m now r (some runtime) s =
    if r.close_failed then leave i m r s else lease i m now r runtime s

unfoldable pub from_load_locked : ℕ → ℕ → ℕ → ModelRecord → Manager → Manager
unfolding with_runtime leave
from_load_locked i m now r s =
    if s.closed then leave i m r s else with_runtime i m now r r.runtime s

unfoldable pub evict : ℕ → ℕ → ModelRecord → Option (ℕ × ModelRecord) → Manager → Manager
unfolding move_to set_record leave
evict i m r (some (c, q)) s = elim q.runtime [
  | none ↦ s
  | some runtime ↦
      move_to i (evicts m c runtime)
        (set_record c (record q { runtime = none; state = unloading }) s)
]
evict i m r none s = if any_close_failed s.records then leave i m r s else s

-- One round of the loop in _reserve_runtime_slot.
unfoldable pub from_reserves : ℕ → ℕ → ModelRecord → Manager → Manager
unfolding leave evict move_to set_record
from_reserves i m r s =
    if s.closed
    then leave i m r s
    else if has_room s.max_loaded_models s.records
    then move_to i (loads m) (set_record m (record r { state = loading }) s)
    else evict i m r (candidate m s.records) s

-- What a close leaves of the record whose runtime it was.
unfoldable pub after_close : Bool → ℕ → ModelRecord → ModelRecord
after_close true runtime q = record q { state = known; loaded_at = none; close_failed = false }
after_close false runtime q = record q {
  runtime = some runtime;
  state = unavailable;
  close_failed = true;
}

-- The exception of a failed close leaves `load`; the target's record is read after the candidate's
-- was written.
unfoldable pub after_evict : ℕ → ℕ → Bool → Option ModelRecord → Manager → Manager
unfolding leave move_to
after_evict i m true target s = move_to i (reserves m) s
after_evict i m false none s = move_to i ended s
after_evict i m false (some r) s = leave i m r s

unfoldable pub from_evicts : ℕ → ℕ → ℕ → ℕ → Bool → ModelRecord → Manager → Manager
unfolding after_close after_evict set_record
from_evicts i m c runtime succeeds q s =
    let closed_one = set_record c (after_close succeeds runtime q) s in
    after_evict i m succeeds (lookup m closed_one.records) closed_one

-- The record of a runtime that was loaded.
unfoldable pub loaded_record : ℕ → ℕ → ModelRecord → ModelRecord
loaded_record runtime now r = record r {
  runtime = some runtime;
  state = ready;
  close_failed = false;
  loaded_at = some now;
}

unfoldable pub from_loads : ℕ → ℕ → Bool → ℕ → ModelRecord → Manager → Manager
unfolding leave lease loaded_record
from_loads i m false now r s =
    leave i m (record r { state = if s.closed then stopping else unavailable }) s
from_loads i m true now r s =
    if s.closed
    then leave i m (record r { state = stopping }) s
    else lease i m now (loaded_record s.next_runtime now r) s.next_runtime
        (record s { next_runtime = suc s.next_runtime })

-- _release_lease
unfoldable pub from_leased : ℕ → ℕ → ℕ → ModelRecord → Manager → Manager
unfolding move_to set_record
from_leased i m now r s = move_to i ended (
    if ltb 0 r.active_requests
    then set_record m
        (record r { active_requests = r.active_requests - 1; last_used_at = some now }) s
    else s)

unfoldable pub unload_runtime : ℕ → ℕ → ModelRecord → Option ℕ → Manager → Manager
unfolding leave move_to set_record
unload_runtime i m r none s = leave i m r s
unload_runtime i m r (some runtime) s =
    move_to i (closes m runtime) (set_record m (record r { runtime = none; state = unloading }) s)

unfoldable pub from_unload_locked : ℕ → ℕ → ModelRecord → Manager → Manager
unfolding leave unload_runtime
from_unload_locked i m r s =
    if s.closed
    then leave i m r s
    else if ltb 0 r.active_requests
    then leave i m r s
    else if r.close_failed
    then leave i m r s
    else unload_runtime i m r r.runtime s

unfoldable pub from_closes : ℕ → ℕ → ℕ → Bool → ModelRecord → Manager → Manager
unfolding leave after_close
from_closes i m runtime succeeds r s = leave i m (after_close succeeds runtime r) s

unfoldable pub all_stopping : List (ℕ × ModelRecord) → List (ℕ × ModelRecord)
all_stopping [] = []
all_stopping ((m, r) ∷ records) = (m, record r { state = stopping }) ∷ all_stopping records

unfoldable pub model_ids : List (ℕ × ModelRecord) → List ℕ
model_ids [] = []
model_ids ((m, r) ∷ records) = m ∷ model_ids records

unfoldable pub from_shutdown_asks : ℕ → Manager → Manager
unfolding move_to all_stopping model_ids
from_shutdown_asks i s =
    if s.closed
    then move_to i ended s
    else move_to i (shuts (model_ids s.records))
        (record s { closed = true; records = all_stopping s.records })

-- One record of the shutdown, under its lock.
unfoldable pub shut_one : ℕ → ℕ → List ℕ → ModelRecord → Option ℕ → Manager → Manager
unfolding move_to set_record
shut_one i m ms r none s = move_to i (shuts ms) (set_record m (record r { runtime = none }) s)
shut_one i m ms r (some j) s = s

-- self._records[model_id]; no record is ever taken away
unfoldable pub with_record : Option ModelRecord → Manager → (ModelRecord → Manager) → Manager
with_record none s f = s
with_record (some r) s f = f r

unfoldable pub advance_from : ℕ → Bool → ℕ → Phase → Manager → Manager
unfolding with_record take_lock from_load_locked from_reserves from_evicts from_loads from_leased
    from_unload_locked from_closes from_shutdown_asks shut_one move_to
advance_from i succeeds now (load_asks m) s =
    with_record (lookup m s.records) s (λ r. take_lock i m (load_locked m) r r.load_lock s)
advance_from i succeeds now (load_locked m) s =
    with_record (lookup m s.records) s (λ r. from_load_locked i m now r s)
advance_from i succeeds now (reserves m) s =
    with_record (lookup m s.records) s (λ r. from_reserves i m r s)
advance_from i succeeds now (evicts m c runtime) s =
    with_record (lookup c s.records) s (λ q. from_evicts i m c runtime succeeds q s)
advance_from i succeeds now (loads m) s =
    with_record (lookup m s.records) s (λ r. from_loads i m succeeds now r s)
advance_from i succeeds now (leased m runtime) s =
    with_record (lookup m s.records) s (λ r. from_leased i m now r s)
advance_from i succeeds now (unload_asks m) s =
    with_record (lookup m s.records) s (λ r. take_lock i m (unload_locked m) r r.load_lock s)
advance_from i succeeds now (unload_locked m) s =
    with_record (lookup m s.records) s (λ r. from_unload_locked i m r s)
advance_from i succeeds now (closes m runtime) s =
    with_record (lookup m s.records) s (λ r. from_closes i m runtime succeeds r s)
advance_from i succeeds now shutdown_asks s = from_shutdown_asks i s
advance_from i succeeds now (shuts []) s = move_to i ended s
advance_from i succeeds now (shuts (m ∷ ms)) s =
    with_record (lookup m s.records) s (λ r. shut_one i m ms r r.load_lock s)
advance_from i succeeds now ended s = s

unfoldable pub registered : List ℕ → List (ℕ × ModelRecord)
unfolding new_record
registered [] = []
registered (m ∷ ms) = put m new_record (registered ms)

-- A manager with registered models.
unfoldable pub init : Option ℕ → List ℕ → Manager
unfolding registered
init max_loaded_models models = record {
  records = registered models;
  max_loaded_models = max_loaded_models;
  closed = false;
  next_runtime = 0;
  threads = [];
}

-- A call enters, or a thread goes on.
pub data Move : Type 0 where
  calls_load calls_unload : ℕ → ℕ → Move
  calls_shutdown : ℕ → Move
  advances : ℕ → Bool → ℕ → Move

unfoldable pub enter : ℕ → Phase → Option Phase → Manager → Manager
unfolding move_to
enter i p none s = move_to i p s
enter i p (some q) s = s

-- _record_for: a call after the shutdown, or for no model, raises.
unfoldable pub resolved : Bool → Phase → Option ModelRecord → Phase
resolved closed p none = ended
resolved closed p (some r) = if closed then ended else p

unfoldable pub advance : ℕ → Bool → ℕ → Option Phase → Manager → Manager
unfolding advance_from
advance i succeeds now none s = s
advance i succeeds now (some p) s = advance_from i succeeds now p s

unfoldable pub step : Move → Manager → Manager
unfolding enter advance resolved
step (calls_load i m) s =
    enter i (resolved s.closed (load_asks m) (lookup m s.records)) (lookup i s.threads) s
step (calls_unload i m) s =
    enter i (resolved s.closed (unload_asks m) (lookup m s.records)) (lookup i s.threads) s
step (calls_shutdown i) s = enter i shutdown_asks (lookup i s.threads) s
step (advances i succeeds now) s = advance i succeeds now (lookup i s.threads) s

unfoldable pub run : List Move → Manager → Manager
unfolding step
run [] s = s
run (m ∷ ms) s = run ms (step m s)
