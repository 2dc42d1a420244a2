-- ===== src/RouteMetrics/Tracker.antt =====
-- `_RouteWindow` and `RouteOutcomeTracker` of src/drift/node/route_metrics.py. `Rounding` is
-- Python's conversion of a float to an integer, and `//` on floats.
use Prim.Native.Nat.{min}
use community_ai.Prelude.{
  ℕ, ◌+◌, ◌*◌, ◌/◌, Bool, not, ◌&&◌, Option, none, some, List, [], leb, ltb, ◌==◌, if◌then◌else◌,
  lookup, put, remove, Float, float_min, Value, int, float, Checked, valid, value_error,
}
use community_ai.RouteMetrics.Observation.{
  RouteUtilityObservation, demand_buckets, throughput_milli_tps_buckets, floor_bucket,
}

module _ (F : Float) where
  pub record Rounding : Type 0 where
    -- int(x // n) of a time since the clock's start, and max(0, int(x))
    pub floor_div : F.Carrier → ℕ → ℕ
    pub truncate : F.Carrier → ℕ

  pub record RouteWindow : Type 0 where
    pub window_number : ℕ
    pub attempts : ℕ
    pub successes : ℕ
    pub useful_tokens : ℕ
    pub useful_duration_seconds : F.Carrier
    pub last_observed_at : F.Carrier

  -- A model has at most two windows: the current one first, which is the deque's right end.
  pub data Windows : Type 0 where
    one : RouteWindow → Windows
    two : RouteWindow → RouteWindow → Windows

  pub record RouteOutcomeTracker : Type 0 where
    pub window_seconds : ℕ
    pub maximum_events : ℕ
    pub windows : List (ℕ × Windows)

  -- RouteOutcomeTracker(...)
  unfoldable pub new_tracker : Value F → Value F → Checked RouteOutcomeTracker
  new_tracker (int window) (int events) =
      if not (leb 60 window && leb window 3600)
      then value_error "window_seconds"
      else if leb 64 events
      then valid (record { window_seconds = window; maximum_events = events; windows = [] })
      else value_error "maximum_events_per_model"
  new_tracker (int window) _ =
      if leb 60 window && leb window 3600
      then value_error "maximum_events_per_model"
      else value_error "window_seconds"
  new_tracker _ _ = value_error "window_seconds"

  unfoldable pub open_window : ℕ → RouteWindow
  open_window number = record {
    window_number = number;
    attempts = 0;
    successes = 0;
    useful_tokens = 0;
    useful_duration_seconds = F.of_ℕ 0;
    last_observed_at = F.of_ℕ 0;
  }

  -- windows.append on a deque of two, if the last window is not the one of this time
  unfoldable pub rotate : ℕ → Option Windows → Windows
  rotate number none = one (open_window number)
  rotate number (some (one w)) =
      if w.window_number == number then one w else two (open_window number) w
  rotate number (some (two w old)) =
      if w.window_number == number then two w old else two (open_window number) w

  unfoldable pub on_current : (RouteWindow → RouteWindow) → Windows → Windows
  on_current f (one w) = one (f w)
  on_current f (two w old) = two (f w) old

  unfoldable pub current : Windows → RouteWindow
  current (one w) = w
  current (two w old) = w

  -- min((1 << 63) - 1, n)
  unfoldable pub saturate : ℕ → ℕ
  saturate n = min 9223372036854775807 n

  -- What one outcome adds to its window.
  unfoldable pub add_outcome :
      RouteOutcomeTracker → F.Carrier → Bool → ℕ → F.Carrier → RouteWindow → RouteWindow
  add_outcome t now succeeded tokens duration w =
      if leb t.maximum_events w.attempts
      then record w { last_observed_at = now }
      else if succeeded
      then record w {
        last_observed_at = now;
        attempts = w.attempts + 1;
        successes = w.successes + 1;
        useful_tokens = saturate (w.useful_tokens + tokens);
        useful_duration_seconds =
            float_min F (F.of_ℕ (t.window_seconds * t.maximum_events))
              (F.add w.useful_duration_seconds duration);
      }
      else record w { last_observed_at = now; attempts = w.attempts + 1 }

  -- duration_seconds is finite and positive, and its float
  unfoldable pub check_duration : Value F → Option F.Carrier
  check_duration (int n) = if ltb 0 n then some (F.of_ℕ n) else none
  check_duration (float x) = if F.is_finite x && F.lt (F.of_ℕ 0) x then some x else none
  check_duration _ = none

  unfoldable pub check_tokens : Value F → Option ℕ
  check_tokens (int n) = some n
  check_tokens _ = none

  unfoldable pub record_valid :
      Rounding → F.Carrier → ℕ → Bool → ℕ → F.Carrier → RouteOutcomeTracker → RouteOutcomeTracker
  record_valid R now digest succeeded tokens duration t = record t {
    windows =
        put digest
          (on_current (add_outcome t now succeeded tokens duration)
            (rotate (R.floor_div now t.window_seconds) (lookup digest t.windows)))
          t.windows;
  }

  unfoldable pub record_checked :
      Rounding
      → F.Carrier
      → ℕ
      → Bool
      → Option ℕ
      → Option F.Carrier
      → RouteOutcomeTracker
      → Checked RouteOutcomeTracker
  record_checked R now digest succeeded none duration t = value_error "completion_tokens"
  record_checked R now digest succeeded (some n) none t = value_error "duration_seconds"
  record_checked R now digest succeeded (some n) (some d) t =
      valid (record_valid R now digest succeeded n d t)

  -- record; `now` is the clock's reading, and a call that raises changes nothing
  unfoldable pub record_outcome :
      (ℕ → Bool)
      → Rounding
      → F.Carrier
      → ℕ
      → Bool
      → Value F
      → Value F
      → RouteOutcomeTracker
      → Checked RouteOutcomeTracker
  record_outcome is_digest R now digest succeeded tokens duration t =
      if is_digest digest
      then record_checked R now digest succeeded (check_tokens tokens) (check_duration duration) t
      else value_error "manifest_digest"

  unfoldable pub throughput_milli : Rounding → RouteWindow → ℕ
  throughput_milli R w =
      if F.le w.useful_duration_seconds (F.of_ℕ 0)
      then 0
      else min 64000
          (R.truncate (F.div (F.of_ℕ (1000 * w.useful_tokens)) w.useful_duration_seconds))

  -- The float quotient of two counts has the floor of the integers' below 2^40 events.
  unfoldable pub reliability_milli_of : RouteWindow → ℕ
  reliability_milli_of w = 1000 * w.successes / w.attempts / 100 * 100

  unfoldable pub observe : Rounding → F.Carrier → ℕ → ℕ → RouteWindow → RouteUtilityObservation
  observe R now digest window_seconds w = record {
    manifest_digest = digest;
    window_seconds = window_seconds;
    attempts_bucket = floor_bucket w.attempts demand_buckets;
    successes_bucket = floor_bucket w.successes demand_buckets;
    useful_tokens_per_second_milli =
        floor_bucket (throughput_milli R w) throughput_milli_tps_buckets;
    reliability_milli = reliability_milli_of w;
    age_seconds_bucket =
        min window_seconds ((R.truncate (F.sub now w.last_observed_at) + 14) / 15 * 15);
  }

  -- An aggregate with too few attempts is not published.
  unfoldable pub publish :
      Rounding → F.Carrier → ℕ → ℕ → ℕ → RouteWindow → Option RouteUtilityObservation
  publish R now minimum digest window_seconds w =
      if ltb w.attempts minimum then none else some (observe R now digest window_seconds w)

  -- now - aggregate.last_observed_at > self.window_seconds
  unfoldable pub is_stale : F.Carrier → ℕ → RouteWindow → Bool
  is_stale now window_seconds w = F.lt (F.of_ℕ window_seconds) (F.sub now w.last_observed_at)

  unfoldable pub snapshot_at :
      Rounding
      → F.Carrier
      → ℕ
      → RouteOutcomeTracker
      → Option Windows
      → Option RouteUtilityObservation × RouteOutcomeTracker
  snapshot_at R now digest t none = (none, t)
  snapshot_at R now digest t (some ws) =
      if is_stale now t.window_seconds (current ws)
      then (none, record t { windows = remove digest t.windows })
      else (publish R now 1 digest t.window_seconds (current ws), t)

  -- snapshot
  unfoldable pub snapshot :
      (ℕ → Bool)
      → Rounding
      → F.Carrier
      → ℕ
      → RouteOutcomeTracker
      → Option RouteUtilityObservation × RouteOutcomeTracker
  snapshot is_digest R now digest t =
      if is_digest digest then snapshot_at R now digest t (lookup digest t.windows) else (none, t)

  -- The newest window that is closed at this time.
  unfoldable pub closed_window : ℕ → Windows → Option RouteWindow
  closed_window number (one w) = if ltb w.window_number number then some w else none
  closed_window number (two w old) = if ltb w.window_number number then some w else some old

  unfoldable pub closed_at :
      Rounding → F.Carrier → ℕ → ℕ → ℕ → Option RouteWindow → Option RouteUtilityObservation
  closed_at R now minimum digest window_seconds none = none
  closed_at R now minimum digest window_seconds (some w) =
      if is_stale now window_seconds w then none else publish R now minimum digest window_seconds w

  unfoldable pub closed_of : ℕ → Option Windows → Option RouteWindow
  closed_of number none = none
  closed_of number (some ws) = closed_window number ws

  -- closed_snapshot
  unfoldable pub closed_snapshot :
      (ℕ → Bool)
      → Rounding
      → F.Carrier
      → ℕ
      → ℕ
      → RouteOutcomeTracker
      → Checked (Option RouteUtilityObservation)
  closed_snapshot is_digest R now digest minimum t =
      if not (is_digest digest)
      then valid none
      else if ltb minimum 4
      then value_error "minimum_attempts"
      else valid (
          closed_at R now minimum digest t.window_seconds
            (closed_of (R.floor_div now t.window_seconds) (lookup digest t.windows)))
