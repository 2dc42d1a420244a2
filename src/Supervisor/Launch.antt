-- ===== src/Supervisor/Launch.antt =====
-- `WorkerLaunch` of src/drift/node/worker_supervisor.py and its `__post_init__`. The three VRAM
-- fields, which are given together or not at all, are one field of a launch that was constructed.
use Prim.Native.String.{String}
use community_ai.Prelude.{
  ℕ, Bool, true, false, not, ◌&&◌, ◌||◌, Option, none, some, leb, ltb, if◌then◌else◌, is_some,
  Float, Checked, valid, value_error, ◌>>=◌, ◌>>◌, require,
}

pub record Reservation : Type 0 where
  pub bytes : ℕ
  pub device : ℕ
  pub pool : ℕ

module _ (F : Float) where
  -- The arguments, by the types that their checks ask for; a device is the number of its name.
  pub record LaunchArgs : Type 0 where
    pub worker_id : ℕ
    pub id_length : ℕ
    pub command_length : ℕ
    pub auto_start : Bool
    pub auto_restart : Bool
    pub restart_backoff : F.Carrier
    pub policy_admitted : Bool
    pub policy_reason : Option String
    pub automatic : Bool
    pub block_indices : Option String
    pub placement_reason : Option String
    pub max_disk_bytes : Option ℕ
    pub max_vram_bytes : Option ℕ
    pub vram_device : Option ℕ
    pub vram_pool_bytes : Option ℕ
    pub max_bandwidth_mbps : Option F.Carrier
    pub max_power_watts : Option F.Carrier

  pub record WorkerLaunch : Type 0 where
    pub worker_id : ℕ
    pub auto_start : Bool
    pub auto_restart : Bool
    pub restart_backoff : F.Carrier
    pub policy_admitted : Bool
    pub vram : Option Reservation
    pub max_bandwidth_mbps : Option F.Carrier
    pub max_power_watts : Option F.Carrier

  -- A reason that is a text and not empty.
  unfoldable pub is_reason : Option String → Bool
  is_reason none = false
  is_reason (some String.[]) = false
  is_reason (some _) = true

  unfoldable pub positive_bytes : Option ℕ → Bool
  positive_bytes none = true
  positive_bytes (some n) = leb 1 n

  unfoldable pub positive_number : Option F.Carrier → Bool
  positive_number none = true
  positive_number (some x) = F.is_finite x && F.lt (F.of_ℕ 0) x

  unfoldable pub reservation : Option ℕ → Option ℕ → Option ℕ → Checked (Option Reservation)
  reservation none none none = valid none
  reservation (some bytes) (some device) (some pool) =
      if ltb pool bytes
      then value_error "vram_pool_bytes"
      else valid (some (record { bytes = bytes; device = device; pool = pool }))
  reservation _ _ _ = value_error "vram_fields"

  -- WorkerLaunch(...), in the order of the checks
  unfoldable pub post_init : LaunchArgs → Checked WorkerLaunch
  post_init args = do
    require (leb 1 args.id_length && leb 1 args.command_length) "command"
    require (F.lt (F.of_ℕ 0) args.restart_backoff) "restart_backoff"
    require (not (args.policy_admitted && is_some args.policy_reason)) "policy_reason"
    require (args.policy_admitted || is_reason args.policy_reason) "policy_reason"
    require (not args.automatic || (is_some args.block_indices && is_some args.placement_reason))
        "automatic"
    require (args.automatic || not (is_some args.block_indices || is_some args.placement_reason))
        "manual"
    require (positive_bytes args.max_disk_bytes) "max_disk_bytes"
    require (positive_bytes args.max_vram_bytes) "max_vram_bytes"
    vram ← reservation args.max_vram_bytes args.vram_device args.vram_pool_bytes
    require (positive_number args.max_bandwidth_mbps) "max_bandwidth_mbps"
    require (positive_number args.max_power_watts) "max_power_watts"
    valid (record {
      worker_id = args.worker_id;
      auto_start = args.auto_start;
      auto_restart = args.auto_restart;
      restart_backoff = args.restart_backoff;
      policy_admitted = args.policy_admitted;
      vram = vram;
      max_bandwidth_mbps = args.max_bandwidth_mbps;
      max_power_watts = args.max_power_watts;
    })
