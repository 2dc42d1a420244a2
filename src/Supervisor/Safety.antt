-- ===== src/Supervisor/Safety.antt =====
-- The checks that `_spawn_locked` of src/drift/node/worker_supervisor.py makes before a start.
use community_ai.Prelude.{
  ℕ, ◌≡◌, refl, ap, sym, ◌∙◌, inl, inr, Bool, true, false, Option, none, some, arith, is_some,
  Bool-cases, Float,
}
use community_ai.Supervisor.State.{
  running, Refusal, schedule_status, World, WorkerRecord, Supervisor, lives, over_pool,
  power_status, budget_status, resource_status,
}
use community_ai.Supervisor.Spawn.{
  spawned, start_process, spawn_admitted, spawn_resources, spawn_scheduled, spawn_policy,
  spawn_locked,
}

module _ (F : Float) where
  -- Reading the budgets changes what was measured last and nothing else.
  pub record SameWorker (r r' : WorkerRecord F) : Type 0 where
    pub same_launch : r'.launch ≡ r.launch
    pub same_state : r'.state ≡ r.state
    pub same_process : r'.process ≡ r.process
    pub same_desired : r'.desired_running ≡ r.desired_running
    pub same_suspending : r'.suspending ≡ r.suspending
    pub same_schedule_suspended : r'.schedule_suspended ≡ r.schedule_suspended

  pub record Measured (s : Supervisor F) (r : WorkerRecord F)
      (o : Option Refusal × Supervisor F × WorkerRecord F) : Type 0 where
    pub closed : o.1.is_closed ≡ s.is_closed
    pub records : o.1.records ≡ s.records
    pub worker : SameWorker r o.2

  power_status-Measured :
      (w : World F) (s : Supervisor F) (r : WorkerRecord F) → Measured s r (power_status F w s r)
  unfolding power_status
  power_status-Measured w s r = ground arith

  budget_status-Measured :
      (w : World F) (s : Supervisor F) (r : WorkerRecord F) → Measured s r (budget_status F w s r)
  unfolding budget_status power_status
  budget_status-Measured w s r = ground arith

  pub resource_status-Measured :
      (w : World F) (k : ℕ) (s : Supervisor F) (r : WorkerRecord F)
      → Measured s r (resource_status F w k s r)
  unfolding resource_status
  resource_status-Measured w k s r =
      elim (Bool-cases (over_pool F w.poll k r.launch.vram s.records)) [
        | inl over ↦ rw over (ground arith)
        | inr fits ↦ rw fits (budget_status-Measured w s r)
      ]

  over_pool_of_none :
      (w : World F) (k : ℕ) (s : Supervisor F) (r : WorkerRecord F)
      → (resource_status F w k s r).0 ≡ none
      → over_pool F w.poll k r.launch.vram s.records ≡ false
  unfolding resource_status
  over_pool_of_none w k s r e = elim (Bool-cases (over_pool F w.poll k r.launch.vram s.records)) [
    | inl over ↦ absurd (ground arith)
    | inr fits ↦ fits
  ]

  -- What a start finds and leaves.
  pub record Started (w : World F) (k : ℕ) (s : Supervisor F) (r : WorkerRecord F)
      (r' : WorkerRecord F) : Type 0 where
    pub policy_admits : r.launch.policy_admitted ≡ true
    pub schedule_admits : schedule_status w.schedule_now ≡ none
    pub pool_fits : over_pool F w.poll k r.launch.vram s.records ≡ false
    pub open_supervisor : s.is_closed ≡ false
    pub no_process : lives F w.poll r.process ≡ false
    pub runs : r'.state ≡ running
    pub new_process : r'.process ≡ w.spawn
    pub has_process : is_some r'.process ≡ true

  spawn_admitted-Started :
      (w : World F) (s : Supervisor F) (r : WorkerRecord F)
      → (spawn_admitted F w s r).0 ≡ spawned
      → (s.is_closed ≡ false)
        × (lives F w.poll r.process ≡ false)
        × ((spawn_admitted F w s r).2.state ≡ running)
        × ((spawn_admitted F w s r).2.process ≡ w.spawn)
        × (is_some (spawn_admitted F w s r).2.process ≡ true)
  unfolding spawn_admitted start_process
  spawn_admitted-Started w s r e = ground arith

  spawn_resources-Started :
      (defer : Bool) (w : World F) (s : Supervisor F) (r : WorkerRecord F)
      (o : Option Refusal × Supervisor F × WorkerRecord F)
      → Measured s r o
      → (spawn_resources F defer w o).0 ≡ spawned
      → (o.0 ≡ none)
        × (s.is_closed ≡ false)
        × (lives F w.poll r.process ≡ false)
        × ((spawn_resources F defer w o).2.state ≡ running)
        × ((spawn_resources F defer w o).2.process ≡ w.spawn)
        × (is_some (spawn_resources F defer w o).2.process ≡ true)
  unfolding spawn_resources
  spawn_resources-Started defer w s r (none, s', r') m e =
      let (a, b, c, d, f) = spawn_admitted-Started w s' r' e in
      (refl, sym m.closed ∙ a, ap (lives F w.poll) (sym m.worker.same_process) ∙ b, c, d, f)
  spawn_resources-Started true w s r (some reason, s', r') m e = absurd (cc)
  spawn_resources-Started false w s r (some reason, s', r') m e = absurd (cc)

  spawn_scheduled-Started :
      (ds dr : Bool) (w : World F) (k : ℕ) (s : Supervisor F) (r : WorkerRecord F)
      (o : Option Refusal)
      → r.launch.policy_admitted ≡ true
      → schedule_status w.schedule_now ≡ o
      → (spawn_scheduled F ds dr w k s r o).0 ≡ spawned
      → Started w k s r (spawn_scheduled F ds dr w k s r o).2
  unfolding spawn_scheduled
  spawn_scheduled-Started true dr w k s r (some reason) p q e = absurd (cc)
  spawn_scheduled-Started false dr w k s r (some reason) p q e = absurd (cc)
  spawn_scheduled-Started ds dr w k s r none p q e =
      let (z, a, b, c, d, f) =
        spawn_resources-Started dr w s r _ (resource_status-Measured w k s r) e in
      record {
        policy_admits = p;
        schedule_admits = q;
        pool_fits = over_pool_of_none w k s r z;
        open_supervisor = a;
        no_process = b;
        runs = c;
        new_process = d;
        has_process = f;
      }

  spawn_policy-Started :
      (ds dr : Bool) (w : World F) (k : ℕ) (s : Supervisor F) (r : WorkerRecord F) (b : Bool)
      → r.launch.policy_admitted ≡ b
      → (spawn_policy F ds dr w k s r b).0 ≡ spawned
      → Started w k s r (spawn_policy F ds dr w k s r b).2
  unfolding spawn_policy
  spawn_policy-Started ds dr w k s r true p e =
      spawn_scheduled-Started ds dr w k s r (schedule_status w.schedule_now) p refl e
  spawn_policy-Started ds dr w k s r false p e = absurd (cc)

  -- `_spawn_locked` starts a process only if the policy and the schedule admit the worker, its VRAM
  -- reservation fits beside those of the other live workers, the supervisor is open and the worker
  -- has no live process; the record then holds the new process and is running.
  pub spawn_locked-Started :
      (ds dr : Bool) (w : World F) (k : ℕ) (s : Supervisor F) (r : WorkerRecord F)
      → (spawn_locked F ds dr w k s r).0 ≡ spawned
      → Started w k s r (spawn_locked F ds dr w k s r).2
  unfolding spawn_locked
  spawn_locked-Started ds dr w k s r e =
      spawn_policy-Started ds dr w k s r r.launch.policy_admitted refl e
