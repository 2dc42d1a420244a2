-- ===== src/Supervisor/Monitor.antt =====
-- The monitor loop of src/drift/node/worker_supervisor.py: one round over the workers.
use community_ai.Prelude.{
  ℕ, Bool, true, false, not, ◌&&◌, ◌||◌, Option, none, some, List, [], ◌∷◌, if◌then◌else◌, is_some,
  lookup, put, Float,
}
use community_ai.Supervisor.State.{
  WorkerState, paused, Refusal, schedule_status, blocked, World, WorkerRecord, Supervisor, lives,
  resource_status,
}
use community_ai.Supervisor.Spawn.{
  SpawnResult, not_spawned, refused, supervisor_closed, Outcome, spawn_locked, refresh_locked,
  suspend_locked,
}

unfoldable pub is_paused : WorkerState → Bool
is_paused paused = true
is_paused _ = false

module _ (F : Float) where
  -- `_spawn_locked` as the loop calls it, for a worker that is meant to run.
  unfoldable pub respawn : World F → ℕ → Supervisor F → WorkerRecord F → Outcome F
  respawn w k s r =
      if r.desired_running then spawn_locked F false true w k s r else (not_spawned, s, r)

  -- The schedule does not admit.
  unfoldable pub monitor_closed : Supervisor F → WorkerRecord F → Outcome F
  monitor_closed s r =
      if r.desired_running && (is_some r.process || is_paused r.state)
      then (not_spawned, s, suspend_locked F true false r)
      else (not_spawned, s, r)

  -- The worker was suspended for the schedule, which admits again.
  unfoldable pub monitor_scheduled : World F → ℕ → Supervisor F → WorkerRecord F → Outcome F
  monitor_scheduled w k s r =
      if r.suspending || is_some r.process
      then (not_spawned, s, r)
      else respawn w k s (record r { schedule_suspended = false })

  unfoldable pub due : World F → WorkerRecord F → Bool
  due w r =
      r.desired_running
      && (not (is_some r.process) && (r.launch.auto_restart && F.le r.next_restart_at w.now))

  -- The schedule admits; the argument is what `_resource_status_locked` returned.
  unfoldable pub monitor_resources :
      World F → ℕ → Option Refusal × Supervisor F × WorkerRecord F → Outcome F
  monitor_resources w k (reason, s, r) =
      if blocked reason && (r.desired_running && lives F w.poll r.process)
      then (not_spawned, s, suspend_locked F false true r)
      else if r.resource_suspended
      then (if r.suspending || (is_some r.process || blocked reason)
          then (not_spawned, s, r)
          else respawn w k s (record r { resource_suspended = false }))
      else if due w r
      then spawn_locked F false true w k s r
      else (not_spawned, s, r)

  unfoldable pub monitor_refreshed : World F → ℕ → Supervisor F → WorkerRecord F → Outcome F
  monitor_refreshed w k s r =
      if blocked (schedule_status w.schedule)
      then monitor_closed s r
      else if r.schedule_suspended
      then monitor_scheduled w k s r
      else monitor_resources w k (resource_status F w k s r)

  -- The body of the loop for one record.
  unfoldable pub monitor_record : World F → ℕ → Supervisor F → WorkerRecord F → Outcome F
  monitor_record w k s r = monitor_refreshed w k s (refresh_locked F w r)

  -- An exception of `_spawn_locked` is not caught: it ends the monitor thread.
  unfoldable pub ends_monitor : SpawnResult → Bool
  ends_monitor (refused _) = true
  ends_monitor supervisor_closed = true
  ends_monitor _ = false

  unfoldable pub store : ℕ → Outcome F → Supervisor F
  store k (_, s, r) = record s { records = put k r s.records }

  -- One round, over the workers `ks`: whether the thread goes on, and the supervisor.
  unfoldable pub monitor_round : World F → List ℕ → Supervisor F → Bool × Supervisor F
  monitor_round w [] s = (true, s)
  monitor_round w (k ∷ ks) s = elim (lookup k s.records) [
    | none ↦ monitor_round w ks s
    | some r ↦
        let o = monitor_record w k s r in
        elim (ends_monitor o.0) [
          | true ↦ (false, store k o)
          | false ↦ monitor_round w ks (store k o)
        ]
  ]

  -- Rounds of the monitor loop on one worker, while the rest of the supervisor changes freely.
  unfoldable pub rounds : ℕ → List (World F × Supervisor F) → WorkerRecord F → WorkerRecord F
  rounds k [] r = r
  rounds k ((w, s) ∷ rest) r = rounds k rest (monitor_record w k s r).2
