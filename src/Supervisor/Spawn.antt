-- ===== src/Supervisor/Spawn.antt =====
-- `_spawn_locked`, `_refresh_locked`, `_suspend_locked` and `_finish_suspension` of
-- src/drift/node/worker_supervisor.py, on the record of worker `k`.
use community_ai.Prelude.{
  ℕ, ◌+◌, Bool, true, false, ◌&&◌, ◌||◌, Option, none, some, ◌==◌, if◌then◌else◌, Float,
}
use community_ai.Supervisor.State.{
  WorkerState, paused, running, stopping, crashed, Refusal, policy, exited, spawn_failed,
  stop_failed, schedule_status, World, WorkerRecord, Supervisor, lives, resource_status,
}

-- What `_spawn_locked` returns or raises.
pub data SpawnResult : Type 0 where
  spawned not_spawned supervisor_closed : SpawnResult
  refused : Refusal → SpawnResult

module _ (F : Float) where
  -- A call's result with the supervisor and the record after it.
  abbrev pub Outcome : Type 0
  Outcome = SpawnResult × Supervisor F × WorkerRecord F

  unfoldable pub start_process : World F → Supervisor F → WorkerRecord F → Outcome
  start_process w s r = elim w.spawn [
    | none ↦ (
      not_spawned,
      s,
      record r {
        process = none;
        state = crashed;
        last_error = some spawn_failed;
        next_restart_at = F.add w.now r.launch.restart_backoff;
      },
    )
    | some pid ↦ (
      spawned,
      s,
      record r {
        restart_count = elim r.started_at [ none ↦ r.restart_count | some _ ↦ r.restart_count + 1 ];
        process = some pid;
        state = running;
        schedule_suspended = false;
        resource_suspended = false;
        last_error = none;
        last_exit_code = none;
        started_at = some w.now;
      },
    )
  ]

  -- What is left once the policy, the schedule and the budgets admit.
  unfoldable pub spawn_admitted : World F → Supervisor F → WorkerRecord F → Outcome
  spawn_admitted w s r =
      if s.is_closed
      then (supervisor_closed, s, r)
      else if lives F w.poll r.process
      then (not_spawned, s, r)
      else start_process w s r

  unfoldable pub spawn_resources :
      Bool → World F → Option Refusal × Supervisor F × WorkerRecord F → Outcome
  spawn_resources defer w (none, s, r) = spawn_admitted w s r
  spawn_resources defer w (some reason, s, r) =
      let r' = record r { state = paused; resource_suspended = defer && r.desired_running } in
      if defer
      then (not_spawned, s, r')
      else (refused reason, s, record r' { desired_running = false })

  unfoldable pub spawn_scheduled :
      Bool → Bool → World F → ℕ → Supervisor F → WorkerRecord F → Option Refusal → Outcome
  spawn_scheduled defer_schedule defer_resources w k s r (some reason) =
      let r' = record r {
        state = paused;
        schedule_suspended = defer_schedule && r.desired_running;
      } in
      if defer_schedule
      then (not_spawned, s, r')
      else (refused reason, s, record r' { desired_running = false })
  spawn_scheduled defer_schedule defer_resources w k s r none =
      spawn_resources defer_resources w (resource_status F w k s r)

  -- The flag tells whether the policy admits the launch.
  unfoldable pub spawn_policy :
      Bool → Bool → World F → ℕ → Supervisor F → WorkerRecord F → Bool → Outcome
  spawn_policy defer_schedule defer_resources w k s r false =
      (refused policy, s, record r { desired_running = false })
  spawn_policy defer_schedule defer_resources w k s r true =
      spawn_scheduled defer_schedule defer_resources w k s r (schedule_status w.schedule_now)

  -- _spawn_locked(record, defer_outside_schedule, defer_unavailable_resources)
  unfoldable pub spawn_locked : Bool → Bool → World F → ℕ → Supervisor F → WorkerRecord F → Outcome
  spawn_locked defer_schedule defer_resources w k s r =
      spawn_policy defer_schedule defer_resources w k s r r.launch.policy_admitted

  -- The record of a process that has ended.
  unfoldable pub note_exit : World F → WorkerRecord F → Option ℕ → WorkerRecord F
  note_exit w r none = r
  note_exit w r (some code) =
      if r.desired_running
      then record r {
        process = none;
        last_exit_code = some code;
        state = crashed;
        last_error = some (exited code);
        next_restart_at = F.add w.now r.launch.restart_backoff;
      }
      else record r { process = none; last_exit_code = some code; state = paused }

  unfoldable pub is_stopping : WorkerState → Bool
  is_stopping stopping = true
  is_stopping _ = false

  -- _refresh_locked
  unfoldable pub refresh_locked : World F → WorkerRecord F → WorkerRecord F
  refresh_locked w r = elim r.process [
    | none ↦ r
    | some pid ↦ if is_stopping r.state then r else note_exit w r (w.poll pid)
  ]

  -- _finish_suspension: the thread that stops `pid` ends with an exit code or an exception
  unfoldable pub finish_suspension : ℕ → Option ℕ → WorkerRecord F → WorkerRecord F
  finish_suspension pid none r = record r {
    schedule_suspended = false;
    resource_suspended = false;
    state = crashed;
    last_error = some stop_failed;
    suspending = false;
  }
  finish_suspension pid (some code) r = record r {
    process = elim r.process [ none ↦ none | some q ↦ if q == pid then none else some q ];
    last_exit_code = some code;
    last_error = none;
    state = paused;
    suspending = false;
  }

  -- _suspend_locked
  unfoldable pub suspend_locked : Bool → Bool → WorkerRecord F → WorkerRecord F
  suspend_locked schedule resource r =
      let r' = record r {
        schedule_suspended = schedule || r.schedule_suspended;
        resource_suspended = resource || r.resource_suspended;
      } in
      if r.suspending then r' else elim r.process [
        | none ↦ record r' { state = paused }
        | some pid ↦ record r' { state = stopping; suspending = true }
      ]
