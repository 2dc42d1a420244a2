-- ===== src/Supervisor/State.antt =====
-- State of src/drift/node/worker_supervisor.py, and the checks that a start must pass. What a call
-- reads from outside (the schedule, the telemetry, the processes, the clock) is a `World`.
use community_ai.Prelude.{
  ℕ, ◌+◌, Bool, true, false, not, ◌&&◌, ◌||◌, Option, none, some, List, [], ◌∷◌, ltb, ◌==◌,
  if◌then◌else◌, Float,
}
use community_ai.Supervisor.Launch.{Reservation, WorkerLaunch}

pub data WorkerState : Type 0 where
  paused starting running stopping crashed : WorkerState

-- Why a worker may not run: the texts of the source, as constructors.
pub data Refusal : Type 0 where
  policy schedule_broken schedule_closed vram_reserved bandwidth_unavailable : Refusal
  bandwidth_exceeded power_unavailable power_exceeded : Refusal

-- The `last_error` of a record.
pub data Failure : Type 0 where
  exited : ℕ → Failure
  spawn_failed stop_failed : Failure

-- What evaluating the schedule does.
pub data Schedule : Type 0 where
  not_configured allowed denied broken : Schedule

pub data Verdict : Type 0 where
  within unmeasured exceeded : Verdict

unfoldable pub schedule_status : Schedule → Option Refusal
schedule_status not_configured = none
schedule_status allowed = none
schedule_status denied = some schedule_closed
schedule_status broken = some schedule_broken

unfoldable pub blocked : Option Refusal → Bool
blocked none = false
blocked (some _) = true

module _ (F : Float) where
  -- A process is its number. `poll` gives its exit code once it has ended, `spawn` the number of a
  -- new process unless starting it fails. `schedule` is what the monitor loop reads first, and
  -- `schedule_now` what the next evaluation gives.
  pub record World : Type 0 where
    pub schedule : Schedule
    pub schedule_now : Schedule
    pub bandwidth : Option F.Carrier
    pub power : Option F.Carrier
    pub poll : ℕ → Option ℕ
    pub spawn : Option ℕ
    pub now : F.Carrier

  pub record WorkerRecord : Type 0 where
    pub launch : WorkerLaunch F
    pub state : WorkerState
    pub desired_running : Bool
    pub operator_paused : Bool
    pub process : Option ℕ
    pub last_exit_code : Option ℕ
    pub last_error : Option Failure
    pub started_at : Option F.Carrier
    pub restart_count : ℕ
    pub next_restart_at : F.Carrier
    pub schedule_suspended : Bool
    pub resource_suspended : Bool
    pub last_power_watts : Option F.Carrier
    -- whether a thread is stopping the process
    pub suspending : Bool

  pub record Supervisor : Type 0 where
    pub records : List (ℕ × WorkerRecord)
    pub last_bandwidth_mbps : Option F.Carrier
    pub is_started : Bool
    pub is_closed : Bool

  -- the record that `__init__` makes
  unfoldable pub new_record : WorkerLaunch F → WorkerRecord
  new_record launch = record {
    launch = launch;
    state = paused;
    desired_running = launch.auto_start && launch.policy_admitted;
    operator_paused = false;
    process = none;
    last_exit_code = none;
    last_error = none;
    started_at = none;
    restart_count = 0;
    next_restart_at = F.of_ℕ 0;
    schedule_suspended = false;
    resource_suspended = false;
    last_power_watts = none;
    suspending = false;
  }

  -- process is not None and process.poll() is None
  unfoldable pub lives : (ℕ → Option ℕ) → Option ℕ → Bool
  lives poll none = false
  lives poll (some pid) = elim (poll pid) [ none ↦ true | some _ ↦ false ]

  unfoldable pub reserves : ℕ → Option Reservation → ℕ
  reserves device none = 0
  reserves device (some v) = if v.device == device then v.bytes else 0

  -- Bytes reserved on a device by live workers other than `k`.
  unfoldable pub reserved : (ℕ → Option ℕ) → ℕ → ℕ → List (ℕ × WorkerRecord) → ℕ
  reserved poll k device [] = 0
  reserved poll k device ((j, r) ∷ rest) =
      (if not (j == k) && lives poll r.process then reserves device r.launch.vram else 0)
      + reserved poll k device rest

  -- Whether the reservation of a launch goes over its pool.
  unfoldable pub over_pool :
      (ℕ → Option ℕ) → ℕ → Option Reservation → List (ℕ × WorkerRecord) → Bool
  over_pool poll k none records = false
  over_pool poll k (some v) records = ltb v.pool (reserved poll k v.device records + v.bytes)

  -- _measured_budget_status_locked: the verdict and the value to remember
  unfoldable pub measured_budget_status :
      Option F.Carrier → Option F.Carrier → Option F.Carrier → Verdict × Option F.Carrier
  measured_budget_status none reading last = (within, last)
  measured_budget_status (some limit) none last = (unmeasured, none)
  measured_budget_status (some limit) (some value) last =
      if not (F.is_finite value) || F.lt value (F.of_ℕ 0)
      then (unmeasured, none)
      else if F.lt limit value
      then (exceeded, some value)
      else (within, some value)

  unfoldable pub power_status :
      World → Supervisor → WorkerRecord → Option Refusal × Supervisor × WorkerRecord
  power_status w s r =
      let (verdict, last) =
        measured_budget_status r.launch.max_power_watts w.power r.last_power_watts in
      let r' = record r { last_power_watts = last } in
      elim verdict [
        | within ↦ (none, s, r')
        | unmeasured ↦ (some power_unavailable, s, r')
        | exceeded ↦ (some power_exceeded, s, r')
      ]

  unfoldable pub budget_status :
      World → Supervisor → WorkerRecord → Option Refusal × Supervisor × WorkerRecord
  budget_status w s r =
      let (verdict, last) =
        measured_budget_status r.launch.max_bandwidth_mbps w.bandwidth s.last_bandwidth_mbps in
      let s' = record s { last_bandwidth_mbps = last } in
      elim verdict [
        | within ↦ power_status w s' r
        | unmeasured ↦ (some bandwidth_unavailable, s', r)
        | exceeded ↦ (some bandwidth_exceeded, s', r)
      ]

  -- _resource_status_locked, of the record of worker `k`
  unfoldable pub resource_status :
      World → ℕ → Supervisor → WorkerRecord → Option Refusal × Supervisor × WorkerRecord
  resource_status w k s r =
      if over_pool w.poll k r.launch.vram s.records
      then (some vram_reserved, s, r)
      else budget_status w s r
