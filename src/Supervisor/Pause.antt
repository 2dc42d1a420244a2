-- ===== src/Supervisor/Pause.antt =====
-- Pausing in src/drift/node/worker_supervisor.py, and the monitor rounds after it.
use community_ai.Prelude.{
  ℕ, ◌≡◌, ◌≢◌, refl, ◌∙◌, inl, inr, Bool, false, Option, none, List, [], ◌∷◌, arith, Bool-cases,
  Float,
}
use community_ai.Supervisor.State.{
  Refusal, World, WorkerRecord, Supervisor, schedule_status, blocked, resource_status,
}
use community_ai.Supervisor.Spawn.{refresh_locked, finish_suspension}
use community_ai.Supervisor.Monitor.{
  respawn, monitor_closed, monitor_scheduled, due, monitor_resources, monitor_refreshed,
  monitor_record, rounds,
}
use community_ai.Supervisor.Control.{
  Stop, exit_with, stop_error, still_alive, pause_failed, exit_of, request_pause, join_suspension,
  stop_process, pause_worker,
}
use community_ai.Supervisor.Safety.{Measured, resource_status-Measured}

module _ (F : Float) where
  -- A worker that is not meant to run and has no process.
  pub record IsStopped (r : WorkerRecord F) : Type 0 where
    pub not_desired : r.desired_running ≡ false
    pub no_process : r.process ≡ none

  join_suspension-IsStopped :
      (stop : Stop) (r : WorkerRecord F)
      → r.desired_running ≡ false
      → (join_suspension F stop r).0 ≢ pause_failed
      → IsStopped (join_suspension F stop r).1
  unfolding join_suspension finish_suspension exit_of
  join_suspension-IsStopped (exit_with code) r d ok = ground arith
  join_suspension-IsStopped stop_error r d ok = ground arith
  join_suspension-IsStopped still_alive r d ok = absurd (ok refl)

  refresh-IsStopped :
      (w : World F) (r : WorkerRecord F) → IsStopped r → IsStopped (refresh_locked F w r)
  unfolding refresh_locked
  refresh-IsStopped w r h = ground arith

  monitor_closed-IsStopped :
      (s : Supervisor F) (r : WorkerRecord F) → IsStopped r → IsStopped (monitor_closed F s r).2
  unfolding monitor_closed
  monitor_closed-IsStopped s r h = ground arith

  monitor_scheduled-IsStopped :
      (w : World F) (k : ℕ) (s : Supervisor F) (r : WorkerRecord F)
      → IsStopped r
      → IsStopped (monitor_scheduled F w k s r).2
  unfolding monitor_scheduled respawn
  monitor_scheduled-IsStopped w k s r h = ground arith

  monitor_resources-IsStopped :
      (w : World F) (k : ℕ) (reason : Option Refusal) (s : Supervisor F) (r : WorkerRecord F)
      → IsStopped r
      → IsStopped (monitor_resources F w k (reason, s, r)).2
  unfolding monitor_resources respawn due
  monitor_resources-IsStopped w k reason s r h = ground arith

  Measured-IsStopped :
      (s : Supervisor F) (r : WorkerRecord F) (o : Option Refusal × Supervisor F × WorkerRecord F)
      → Measured F s r o
      → IsStopped r
      → IsStopped o.2
  Measured-IsStopped s r o m h = record {
    not_desired = m.worker.same_desired ∙ h.not_desired;
    no_process = m.worker.same_process ∙ h.no_process;
  }

  monitor_refreshed-IsStopped :
      (w : World F) (k : ℕ) (s : Supervisor F) (r : WorkerRecord F)
      → IsStopped r
      → IsStopped (monitor_refreshed F w k s r).2
  unfolding monitor_refreshed
  monitor_refreshed-IsStopped w k s r h = elim (Bool-cases (blocked (schedule_status w.schedule))) [
    | inl shut ↦ rw shut (monitor_closed-IsStopped s r h)
    | inr admitted ↦ simp admitted (elim (Bool-cases r.schedule_suspended) [
      | inl held ↦ simp held (monitor_scheduled-IsStopped w k s r h)
      | inr free ↦
          let o = resource_status F w k s r in
          simp free (
            monitor_resources-IsStopped w k o.0 o.1 o.2
              (Measured-IsStopped s r o (resource_status-Measured F w k s r) h))
    ])
  ]

  monitor_record-IsStopped :
      (w : World F) (k : ℕ) (s : Supervisor F) (r : WorkerRecord F)
      → IsStopped r
      → IsStopped (monitor_record F w k s r).2
  unfolding monitor_record
  monitor_record-IsStopped w k s r h = monitor_refreshed-IsStopped w k s _ (refresh-IsStopped w r h)

  rounds-IsStopped :
      (k : ℕ) (ws : List (World F × Supervisor F)) (r : WorkerRecord F)
      → IsStopped r
      → IsStopped (rounds F k ws r)
  unfolding rounds
  rounds-IsStopped k [] r h = h
  rounds-IsStopped k ((w, s) ∷ rest) r h =
      rounds-IsStopped k rest _ (monitor_record-IsStopped w k s r h)

  pause_worker-IsStopped :
      (operator_action : Bool) (stop : Stop) (r : WorkerRecord F)
      → (pause_worker F operator_action stop r).0 ≢ pause_failed
      → IsStopped (pause_worker F operator_action stop r).1
  unfolding pause_worker stop_process request_pause
  pause_worker-IsStopped operator_action (exit_with code) r ok =
      ground
        (arith, join_suspension-IsStopped (exit_with code) (request_pause F operator_action r) refl)
  pause_worker-IsStopped operator_action stop r ok =
      ground (arith, join_suspension-IsStopped stop (request_pause F operator_action r) refl)

  -- A worker whose pause did not raise has no process, and the monitor loop never starts it again,
  -- whatever the schedule, the telemetry and the other workers do.
  pub pause_holds :
      (operator_action : Bool) (stop : Stop) (r : WorkerRecord F) (k : ℕ)
      (ws : List (World F × Supervisor F))
      → (pause_worker F operator_action stop r).0 ≢ pause_failed
      → IsStopped (rounds F k ws (pause_worker F operator_action stop r).1)
  pause_holds operator_action stop r k ws ok =
      rounds-IsStopped k ws _ (pause_worker-IsStopped operator_action stop r ok)
