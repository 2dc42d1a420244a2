-- ===== src/RouteMetrics/Observation.antt =====
-- `RouteUtilityObservation`, `_floor_bucket` and `validate_route_observation` of
-- src/drift/node/route_metrics.py.
use Prim.Native.String.{String}
use community_ai.Prelude.{
  ℕ, ◌%◌, Bool, true, false, not, ◌&&◌, ◌||◌, Option, some, List, [], ◌∷◌, leb, ltb, ◌==◌,
  if◌then◌else◌, is_some, Float, Value, boolean, int, float, Checked, valid, value_error, ◌>>=◌,
  ◌>>◌, require,
}

abbrev pub demand_buckets : List ℕ
demand_buckets = 0 ∷ 1 ∷ 2 ∷ 4 ∷ 8 ∷ 16 ∷ 32 ∷ 64 ∷ []

abbrev pub throughput_milli_tps_buckets : List ℕ
throughput_milli_tps_buckets =
    0 ∷ 250 ∷ 500 ∷ 1000 ∷ 2000 ∷ 4000 ∷ 8000 ∷ 16000 ∷ 32000 ∷ 64000 ∷ []

pub record RouteUtilityObservation : Type 0 where
  pub manifest_digest : ℕ
  pub window_seconds : ℕ
  pub attempts_bucket : ℕ
  pub successes_bucket : ℕ
  pub useful_tokens_per_second_milli : ℕ
  pub reliability_milli : ℕ
  pub age_seconds_bucket : ℕ

-- value in buckets
unfoldable pub elem : ℕ → List ℕ → Bool
elem v [] = false
elem v (b ∷ bs) = v == b || elem v bs

-- max(bucket for bucket in buckets if bucket <= value), where 0 is a bucket
unfoldable pub floor_bucket : ℕ → List ℕ → ℕ
floor_bucket v [] = 0
floor_bucket v (b ∷ bs) = let rest = floor_bucket v bs in if leb b v && ltb rest b then b else rest

module _ (F : Float) where
  -- What stands at a key of the mapping: a string, or a value that is none.
  pub data Entry : Type 0 where
    string : ℕ → Entry
    value : Value F → Entry

  -- A mapping: what it has at the eight fields, and whether it has other keys.
  pub record Source : Type 0 where
    pub schema_version : Option Entry
    pub manifest_digest : Option Entry
    pub window_seconds : Option Entry
    pub attempts_bucket : Option Entry
    pub successes_bucket : Option Entry
    pub useful_tokens_per_second_milli : Option Entry
    pub reliability_milli : Option Entry
    pub age_seconds_bucket : Option Entry
    pub has_unknown : Bool

  -- set(source) == _OBSERVATION_FIELDS
  unfoldable pub has_fields : Source → Bool
  has_fields s =
      not s.has_unknown
      && is_some s.schema_version
      && is_some s.manifest_digest
      && is_some s.window_seconds
      && is_some s.attempts_bucket
      && is_some s.successes_bucket
      && is_some s.useful_tokens_per_second_milli
      && is_some s.reliability_milli
      && is_some s.age_seconds_bucket

  -- entry == n as Python compares them: True is 1, and a float is compared by its value
  unfoldable pub equals : ℕ → Option Entry → Bool
  equals n (some (value (int m))) = m == n
  equals n (some (value (boolean b))) = (if b then 1 else 0) == n
  equals n (some (value (float x))) = F.eq x (F.of_ℕ n)
  equals n _ = false

  unfoldable pub require_int : String → ℕ → ℕ → Option Entry → Checked ℕ
  require_int name minimum maximum (some (value (int n))) =
      if leb minimum n && leb n maximum then valid n else value_error name
  require_int name minimum maximum _ = value_error name

  unfoldable pub require_digest : (ℕ → Bool) → ℕ → Option Entry → Checked ℕ
  require_digest is_digest expected (some (string d)) =
      if is_digest d && d == expected then valid d else value_error "manifest_digest"
  require_digest is_digest expected _ = value_error "manifest_digest"

  -- maximum_age_seconds is finite and positive
  unfoldable pub is_age_limit : Value F → Bool
  is_age_limit (int n) = ltb 0 n
  is_age_limit (float x) = F.is_finite x && F.lt (F.of_ℕ 0) x
  is_age_limit _ = false

  -- age > maximum_age_seconds
  unfoldable pub is_over : ℕ → Value F → Bool
  is_over age (int n) = ltb n age
  is_over age (float x) = F.lt x (F.of_ℕ age)
  is_over age _ = true

  unfoldable pub validate_route_observation :
      (ℕ → Bool) → Source → ℕ → Value F → Checked RouteUtilityObservation
  unfolding has_fields
  validate_route_observation is_digest source expected maximum_age = do
    require (has_fields source) "fields"
    require (equals 1 source.schema_version) "schema_version"
    digest ← require_digest is_digest expected source.manifest_digest
    require (is_age_limit maximum_age) "maximum_age_seconds"
    window ← require_int "window_seconds" 60 3600 source.window_seconds
    attempts ← require_int "attempts_bucket" 1 64 source.attempts_bucket
    successes ← require_int "successes_bucket" 0 64 source.successes_bucket
    require
        (elem attempts demand_buckets && elem successes demand_buckets && leb successes attempts)
        "count buckets"
    throughput ←
        require_int "useful_tokens_per_second_milli" 0 64000 source.useful_tokens_per_second_milli
    require (elem throughput throughput_milli_tps_buckets) "throughput bucket"
    reliability ← require_int "reliability_milli" 0 1000 source.reliability_milli
    require ((reliability % 100) == 0) "reliability"
    age ← require_int "age_seconds_bucket" 0 window source.age_seconds_bucket
    require (not (is_over age maximum_age)) "stale"
    valid (record {
      manifest_digest = digest;
      window_seconds = window;
      attempts_bucket = attempts;
      successes_bucket = successes;
      useful_tokens_per_second_milli = throughput;
      reliability_milli = reliability;
      age_seconds_bucket = age;
    })

  unfoldable pub to_dict : RouteUtilityObservation → Source
  to_dict o = record {
    schema_version = some (value (int 1));
    manifest_digest = some (string o.manifest_digest);
    window_seconds = some (value (int o.window_seconds));
    attempts_bucket = some (value (int o.attempts_bucket));
    successes_bucket = some (value (int o.successes_bucket));
    useful_tokens_per_second_milli = some (value (int o.useful_tokens_per_second_milli));
    reliability_milli = some (value (int o.reliability_milli));
    age_seconds_bucket = some (value (int o.age_seconds_bucket));
    has_unknown = false;
  }
