-- ===== src/Supervisor/Orphan.antt =====
-- `start_worker` on a worker that runs, and the monitor rounds after it, in
-- src/drift/node/worker_supervisor.py.
use community_ai.Prelude.{
  ℕ, ◌≡◌, refl, sym, subst, ◌∙◌, Bool, true, false, Option, none, some, List, [], ◌∷◌, arith, Float,
}
use community_ai.Supervisor.State.{
  paused, Refusal, World, WorkerRecord, Supervisor, schedule_status, resource_status,
}
use community_ai.Supervisor.Spawn.{
  refused, spawn_locked, spawn_policy, spawn_scheduled, refresh_locked, note_exit,
}
use community_ai.Supervisor.Monitor.{
  monitor_closed, monitor_scheduled, due, monitor_resources, monitor_refreshed, monitor_record,
  rounds,
}
use community_ai.Supervisor.Control.{start_policy, start_worker}
use community_ai.Supervisor.Safety.{Measured, resource_status-Measured}

module _ (F : Float) where
  -- A worker that the loop overlooks: its process runs, and it is not meant to run.
  pub record IsOrphan (pid : ℕ) (r : WorkerRecord F) : Type 0 where
    pub holds : r.process ≡ some pid
    pub shown_paused : r.state ≡ paused
    pub not_desired : r.desired_running ≡ false
    pub not_suspending : r.suspending ≡ false

  Measured-IsOrphan :
      (pid : ℕ) (s : Supervisor F) (r : WorkerRecord F)
      (o : Option Refusal × Supervisor F × WorkerRecord F)
      → Measured F s r o
      → IsOrphan pid r
      → IsOrphan pid o.2
  Measured-IsOrphan pid s r o m h = record {
    holds = m.worker.same_process ∙ h.holds;
    shown_paused = m.worker.same_state ∙ h.shown_paused;
    not_desired = m.worker.same_desired ∙ h.not_desired;
    not_suspending = m.worker.same_suspending ∙ h.not_suspending;
  }

  refresh-IsOrphan :
      (pid : ℕ) (w : World F) (r : WorkerRecord F)
      → w.poll pid ≡ none
      → IsOrphan pid r
      → IsOrphan pid (refresh_locked F w r)
  unfolding refresh_locked note_exit
  refresh-IsOrphan pid w r alive h = ground arith

  monitor_resources-IsOrphan :
      (pid : ℕ) (w : World F) (k : ℕ) (reason : Option Refusal) (s : Supervisor F)
      (r : WorkerRecord F)
      → IsOrphan pid r
      → IsOrphan pid (monitor_resources F w k (reason, s, r)).2
  unfolding monitor_resources due
  monitor_resources-IsOrphan pid w k reason s r h = ground arith

  monitor_closed-IsOrphan :
      (pid : ℕ) (s : Supervisor F) (r : WorkerRecord F)
      → IsOrphan pid r
      → IsOrphan pid (monitor_closed F s r).2
  unfolding monitor_closed
  monitor_closed-IsOrphan pid s r h = ground arith

  monitor_scheduled-IsOrphan :
      (pid : ℕ) (w : World F) (k : ℕ) (s : Supervisor F) (r : WorkerRecord F)
      → IsOrphan pid r
      → IsOrphan pid (monitor_scheduled F w k s r).2
  unfolding monitor_scheduled
  monitor_scheduled-IsOrphan pid w k s r h = ground arith

  monitor_record-IsOrphan :
      (pid : ℕ) (w : World F) (k : ℕ) (s : Supervisor F) (r : WorkerRecord F)
      → w.poll pid ≡ none
      → IsOrphan pid r
      → IsOrphan pid (monitor_record F w k s r).2
  unfolding monitor_record monitor_refreshed
  monitor_record-IsOrphan pid w k s r alive h =
      let r' = refresh_locked F w r in
      let h' = refresh-IsOrphan pid w r alive h in
      let o = resource_status F w k s r' in
      ground (
        arith,
        monitor_closed-IsOrphan pid s r' h',
        monitor_scheduled-IsOrphan pid w k s r' h',
        monitor_resources-IsOrphan pid w k o.0 o.1 o.2
            (Measured-IsOrphan pid s r' o (resource_status-Measured F w k s r') h'),
      )

  abbrev pub AllAlive : ℕ → List (World F × Supervisor F) → Type 0
  AllAlive pid [] = Unit {0}
  AllAlive pid ((w, s) ∷ rest) = (w.poll pid ≡ none) × AllAlive pid rest

  rounds-IsOrphan :
      (pid k : ℕ) (ws : List (World F × Supervisor F)) (r : WorkerRecord F)
      → AllAlive pid ws
      → IsOrphan pid r
      → IsOrphan pid (rounds F k ws r)
  unfolding rounds
  rounds-IsOrphan pid k [] r a h = h
  rounds-IsOrphan pid k ((w, s) ∷ rest) r a h =
      rounds-IsOrphan pid k rest _ a.1 (monitor_record-IsOrphan pid w k s r a.0 h)

  spawn_refused-IsOrphan :
      (pid : ℕ) (w : World F) (k : ℕ) (s : Supervisor F) (r : WorkerRecord F) (reason : Refusal)
      (admitted : Bool) (o : Option Refusal)
      → r.process ≡ some pid
      → r.suspending ≡ false
      → admitted ≡ true
      → o ≡ some reason
      → schedule_status w.schedule_now ≡ o
      → IsOrphan pid (spawn_policy F false false w k s r admitted).2
  unfolding spawn_policy
  spawn_refused-IsOrphan pid w k s r reason false o p q a e f = absurd (cc)
  spawn_refused-IsOrphan pid w k s r reason true o p q a e f =
      subst (λ x. IsOrphan pid (spawn_scheduled F false false w k s r x).2) (sym (f ∙ e))
        (unfold spawn_scheduled in
          record { holds = p; shown_paused = refl; not_desired = refl; not_suspending = q })

  start_policy-IsOrphan :
      (pid : ℕ) (w : World F) (k : ℕ) (s : Supervisor F) (r : WorkerRecord F) (reason : Refusal)
      (admitted : Bool)
      → r.process ≡ some pid
      → r.suspending ≡ false
      → r.launch.policy_admitted ≡ admitted
      → admitted ≡ true
      → schedule_status w.schedule_now ≡ some reason
      → IsOrphan pid (start_policy F w k s r admitted).2
  unfolding start_policy spawn_locked
  start_policy-IsOrphan pid w k s r reason false p q a b f = absurd (cc)
  start_policy-IsOrphan pid w k s r reason true p q a b f =
      spawn_refused-IsOrphan pid w k s _ reason r.launch.policy_admitted
        (schedule_status w.schedule_now) p q a f refl

  spawn_refused_result :
      (w : World F) (k : ℕ) (s : Supervisor F) (r : WorkerRecord F) (reason : Refusal)
      (admitted : Bool) (o : Option Refusal)
      → admitted ≡ true
      → o ≡ some reason
      → schedule_status w.schedule_now ≡ o
      → (spawn_policy F false false w k s r admitted).0 ≡ refused reason
  unfolding spawn_policy
  spawn_refused_result w k s r reason false o a e f = absurd (cc)
  spawn_refused_result w k s r reason true o a e f =
      subst (λ x. (spawn_scheduled F false false w k s r x).0 ≡ refused reason) (sym (f ∙ e))
        (unfold spawn_scheduled in refl)

  start_policy_result :
      (w : World F) (k : ℕ) (s : Supervisor F) (r : WorkerRecord F) (reason : Refusal)
      (admitted : Bool)
      → r.launch.policy_admitted ≡ admitted
      → admitted ≡ true
      → schedule_status w.schedule_now ≡ some reason
      → (start_policy F w k s r admitted).0 ≡ refused reason
  unfolding start_policy spawn_locked
  start_policy_result w k s r reason false a b f = absurd (cc)
  start_policy_result w k s r reason true a b f =
      spawn_refused_result w k s _ reason r.launch.policy_admitted (schedule_status w.schedule_now)
        a f refl

  -- A start that is asked of a running worker while the schedule does not admit loses the worker: it
  -- raises the schedule's refusal, and the worker is shown as paused and no longer meant to run, but
  -- its process is not stopped, then or in any later round of the monitor loop for as long as it lives.
  pub start_orphans :
      (pid : ℕ) (w : World F) (k : ℕ) (s : Supervisor F) (r : WorkerRecord F) (reason : Refusal)
      (ws : List (World F × Supervisor F))
      → r.process ≡ some pid
      → r.suspending ≡ false
      → r.launch.policy_admitted ≡ true
      → schedule_status w.schedule_now ≡ some reason
      → AllAlive pid ws
      → ((start_worker F w k s r).0 ≡ refused reason)
        × IsOrphan pid (rounds F k ws (start_worker F w k s r).2)
  unfolding start_worker
  start_orphans pid w k s r reason ws p q a f alive = (
    start_policy_result w k s r reason r.launch.policy_admitted refl a f,
    rounds-IsOrphan pid k ws _ alive
        (start_policy-IsOrphan pid w k s r reason r.launch.policy_admitted p q refl a f),
  )
