-- ===== src/Supervisor/Control.antt =====
-- What the operator and the reconciler call in src/drift/node/worker_supervisor.py.
use community_ai.Prelude.{
  ℕ, Bool, true, false, not, ◌&&◌, ◌||◌, Option, none, some, List, [], ◌∷◌, if◌then◌else◌, is_some,
  lookup, Float,
}
use community_ai.Supervisor.Launch.{WorkerLaunch}
use community_ai.Supervisor.State.{
  WorkerState, paused, starting, stopping, crashed, policy, stop_failed, World, WorkerRecord,
  Supervisor,
}
use community_ai.Supervisor.Spawn.{
  SpawnResult, not_spawned, refused, Outcome, spawn_locked, refresh_locked, finish_suspension,
}

-- How stopping a process goes: for `_terminate`, an exit code or an exception; for the thread that
-- suspends it, still alive after the wait, or ended so.
pub data Stop : Type 0 where
  exit_with : ℕ → Stop
  stop_error still_alive : Stop

pub data PauseResult : Type 0 where
  was_running was_stopped pause_failed : PauseResult

unfoldable pub exit_of : Stop → Option ℕ
exit_of (exit_with code) = some code
exit_of _ = none

unfoldable pub is_moving : WorkerState → Bool
is_moving starting = true
is_moving stopping = true
is_moving _ = false

pub data Reconfigured : Type 0 where
  applied closed_error worker_set_error busy_error persist_error : Reconfigured

unfoldable pub covers {ℓ κ} : {V : Type ℓ} {W : Type κ} → List (ℕ × V) → List (ℕ × W) → Bool
covers m [] = true
covers m ((k, _) ∷ rest) = is_some (lookup k m) && covers m rest

module _ (F : Float) where
  -- The flag tells whether the policy admits the launch.
  unfoldable pub start_policy : World F → ℕ → Supervisor F → WorkerRecord F → Bool → Outcome F
  start_policy w k s r false = (refused policy, s, record r { desired_running = false })
  start_policy w k s r true =
      spawn_locked F false false w k s
        (record r { operator_paused = false; desired_running = true })

  -- start_worker, of a worker that is there
  unfoldable pub start_worker : World F → ℕ → Supervisor F → WorkerRecord F → Outcome F
  start_worker w k s r = start_policy w k s r r.launch.policy_admitted

  -- The first part of `_pause_worker`, under the lock.
  unfoldable pub request_pause : Bool → WorkerRecord F → WorkerRecord F
  request_pause operator_action r = record r {
    operator_paused = operator_action || r.operator_paused;
    desired_running = false;
    schedule_suspended = false;
    resource_suspended = false;
  }

  -- The thread that was stopping the process is waited for.
  unfoldable pub join_suspension : Stop → WorkerRecord F → PauseResult × WorkerRecord F
  join_suspension still_alive r = (pause_failed, r)
  join_suspension stop r =
      let ended : WorkerRecord F = elim r.process [
        | none ↦ record r { suspending = false }
        | some pid ↦ finish_suspension F pid (exit_of stop) r
      ] in
      if is_some ended.process
      then (pause_failed, ended)
      else (was_running, record ended { state = paused })

  -- The pause is one step: no other thread acts on the record while its process ends, so that
  -- `record.process is process` afterwards.
  unfoldable pub stop_process : Stop → WorkerRecord F → PauseResult × WorkerRecord F
  stop_process (exit_with code) r =
      (was_running, record r { process = none; last_exit_code = some code; state = paused })
  stop_process _ r = (pause_failed, record r { state = crashed; last_error = some stop_failed })

  -- _pause_worker
  unfoldable pub pause_worker : Bool → Stop → WorkerRecord F → PauseResult × WorkerRecord F
  pause_worker operator_action stop r =
      let r' = request_pause operator_action r in
      if r.suspending then join_suspension stop r' else elim r.process [
        | none ↦ (was_stopped, record r' { state = paused })
        | some pid ↦ stop_process stop (record r' { state = stopping })
      ]

  -- restart_worker: an exception of the pause leaves the worker stopped
  unfoldable pub restart_worker : World F → Stop → ℕ → Supervisor F → WorkerRecord F → Outcome F
  restart_worker w stop k s r =
      let (result, r') = pause_worker true stop r in
      elim result [ pause_failed ↦ (not_spawned, s, r') | _ ↦ start_worker w k s r' ]

  unfoldable pub is_busy : WorkerRecord F → Bool
  is_busy r = r.desired_running || (is_some r.process || (r.suspending || is_moving r.state))

  unfoldable pub assign : WorkerLaunch F → WorkerRecord F → WorkerRecord F
  assign launch r = record r {
    launch = launch;
    schedule_suspended = false;
    resource_suspended = false;
    last_power_watts = none;
  }

  -- `none` is `WorkerReconfigurationBusyError`, or the error of a closed supervisor.
  unfoldable pub replace_refreshed :
      World F
      → WorkerLaunch F
      → Option Bool
      → ℕ
      → Supervisor F
      → WorkerRecord F
      → Option SpawnResult × Supervisor F × WorkerRecord F
  replace_refreshed w launch start k s r =
      let requested : Bool = elim start [ none ↦ launch.auto_start | some b ↦ b ] in
      let r' = record (assign launch r) {
        desired_running = (requested && not r.operator_paused) && launch.policy_admitted;
      } in
      let (result, s', r'') = spawn_locked F true true w k s r' in
      if is_busy r
      then (none, s, r)
      else if s.is_started && r'.desired_running
      then (some result, s', r'')
      else (some not_spawned, s, r')

  unfoldable pub replace_launch :
      World F
      → WorkerLaunch F
      → Option Bool
      → ℕ
      → Supervisor F
      → WorkerRecord F
      → Option SpawnResult × Supervisor F × WorkerRecord F
  replace_launch w launch start k s r =
      if s.is_closed
      then (none, s, r)
      else replace_refreshed w launch start k s (refresh_locked F w r)

  -- The loop that looks for a busy worker, refreshing the records up to it.
  unfoldable pub refresh_until_busy :
      World F → List (ℕ × WorkerRecord F) → Bool × List (ℕ × WorkerRecord F)
  refresh_until_busy w [] = (false, [])
  refresh_until_busy w ((k, r) ∷ rest) =
      let r' = refresh_locked F w r in
      let later = refresh_until_busy w rest in
      if is_busy r' then (true, (k, r') ∷ rest) else (later.0, (k, r') ∷ later.1)

  unfoldable pub assign_all :
      List (ℕ × WorkerLaunch F) → List (ℕ × WorkerRecord F) → List (ℕ × WorkerRecord F)
  assign_all launches [] = []
  assign_all launches ((k, r) ∷ rest) =
      (k, elim (lookup k launches) [ none ↦ r | some launch ↦ assign launch r ])
      ∷ assign_all launches rest

  -- reconfigure; `persisted` tells whether the callback returned
  unfoldable pub reconfigure :
      World F → List (ℕ × WorkerLaunch F) → Bool → Supervisor F → Reconfigured × Supervisor F
  reconfigure w launches persisted s =
      let (busy, refreshed) = refresh_until_busy w s.records in
      if s.is_closed
      then (closed_error, s)
      else if not (covers launches s.records && covers s.records launches)
      then (worker_set_error, s)
      else if busy
      then (busy_error, record s { records = refreshed })
      else if not persisted
      then (persist_error, record s { records = refreshed })
      else (
        applied,
        record s { records = assign_all launches refreshed; last_bandwidth_mbps = none },
      )
