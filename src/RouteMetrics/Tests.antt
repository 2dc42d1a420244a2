-- ===== src/RouteMetrics/Tests.antt =====
-- Concrete runs of src/drift/node/route_metrics.py, with whole numbers for the floats.
use community_ai.Prelude.{
  ℕ, ◌≡◌, arith, ◌*◌, ◌/◌, ◌==◌, refl, Bool, true, false, some, [], ◌∷◌, whole, int, valid,
}
use community_ai.RouteMetrics.Observation.{
  has_fields, equals, require_int, require_digest, elem, RouteUtilityObservation, floor_bucket,
  is_age_limit, is_over, validate_route_observation, to_dict,
}
use community_ai.RouteMetrics.Tracker.{
  Rounding, RouteWindow, one, RouteOutcomeTracker, new_tracker, open_window, rotate, on_current,
  current, saturate, add_outcome, check_duration, check_tokens, record_valid, record_checked,
  record_outcome, throughput_milli, reliability_milli_of, observe, publish, is_stale, snapshot_at,
  snapshot, closed_window, closed_at, closed_of, closed_snapshot,
}
use community_ai.RouteMetrics.Windows.{Reachable, constructed, recorded}
use community_ai.RouteMetrics.Aggregate.{
  insert_sorted, sorted, or_zero, median_low, maximum, keep_valid, validated, combine,
  combine_enough, aggregate_route_observations,
}
use community_ai.RouteMetrics.Consensus.{aggregate-validate}
use community_ai.RouteMetrics.Published.{snapshot-validate, closed_snapshot-validate}

abbrev rounding : Rounding whole
rounding = record { floor_div = λ x n. x / n; truncate = λ x. x }

abbrev is_seven : ℕ → Bool
is_seven d = d == 7

abbrev empty : RouteOutcomeTracker whole
empty = record { window_seconds = 60; maximum_events = 64; windows = [] }

-- Four outcomes of model 7 at 130 seconds, three of them good, 5 tokens in 2 seconds each.
abbrev window : ℕ → ℕ → RouteWindow whole
window attempts successes = record {
  window_number = 2;
  attempts = attempts;
  successes = successes;
  useful_tokens = 5 * successes;
  useful_duration_seconds = 2 * successes;
  last_observed_at = 130;
}

abbrev tracker : ℕ → ℕ → RouteOutcomeTracker whole
tracker attempts successes = record empty { windows = (7, one (window attempts successes)) ∷ [] }

empty_reached : Reachable whole is_seven rounding empty
unfolding new_tracker
empty_reached = constructed (int 60) (int 64) refl

reached : Reachable whole is_seven rounding (tracker 4 3)
unfolding record_outcome record_checked record_valid check_tokens check_duration rotate open_window
    on_current add_outcome saturate
reached =
    recorded 130 7 true (int 5) (int 2)
      (recorded 130 7 true (int 5) (int 2)
        (recorded 130 7 false (int 5) (int 2)
          (recorded {t' = tracker 1 1} 130 7 true (int 5) (int 2) empty_reached refl) refl)
        refl)
      refl

abbrev seen : RouteUtilityObservation
seen = record {
  manifest_digest = 7;
  window_seconds = 60;
  attempts_bucket = 4;
  successes_bucket = 2;
  useful_tokens_per_second_milli = 2000;
  reliability_milli = 700;
  age_seconds_bucket = 15;
}

sees : (snapshot whole is_seven rounding 140 7 (tracker 4 3)).0 ≡ some seen
unfolding snapshot snapshot_at is_stale current publish observe floor_bucket throughput_milli
    reliability_milli_of
sees = refl

closes :
    closed_snapshot whole is_seven rounding 185 7 4 (tracker 4 3)
    ≡ valid (some (record seen { age_seconds_bucket = 60 }))
unfolding closed_snapshot closed_at closed_of closed_window is_stale current publish observe
    floor_bucket throughput_milli reliability_milli_of
closes = refl

limited : is_age_limit whole (int 90) ≡ true
unfolding is_age_limit
limited = refl

young : is_over whole 15 (int 90) ≡ false
unfolding is_over
young = refl

older : is_over whole 60 (int 90) ≡ false
unfolding is_over
older = refl

snapshot-validate_example :
    validate_route_observation whole is_seven (to_dict whole seen) 7 (int 90) ≡ valid seen
snapshot-validate_example =
    snapshot-validate whole is_seven rounding (tracker 4 3) 140 7 seen (int 90) reached sees limited
      young

closed_snapshot-validate_example :
    validate_route_observation whole is_seven
      (to_dict whole (record seen { age_seconds_bucket = 60 }))
      7
      (int 90)
    ≡ valid (record seen { age_seconds_bucket = 60 })
closed_snapshot-validate_example =
    closed_snapshot-validate whole is_seven rounding (tracker 4 3) 185 7 4
      (record seen { age_seconds_bucket = 60 }) (int 90) reached closes limited older

abbrev busier : RouteUtilityObservation
busier = record seen { attempts_bucket = 8; successes_bucket = 8; reliability_milli = 1000 }

aggregates :
    aggregate_route_observations whole is_seven
      (to_dict whole busier ∷ to_dict whole seen ∷ [])
      7
      (int 90)
      (int 2)
      (int 32)
    ≡ valid (some (record seen { window_seconds = 300 }))
unfolding aggregate_route_observations combine_enough combine validated keep_valid median_low sorted
    insert_sorted or_zero maximum validate_route_observation to_dict has_fields equals require_int
    require_digest is_age_limit is_over elem
aggregates = refl

aggregate-validate_example :
    validate_route_observation whole is_seven
      (to_dict whole (record seen { window_seconds = 300 }))
      7
      (int 90)
    ≡ valid (record seen { window_seconds = 300 })
aggregate-validate_example =
    aggregate-validate whole is_seven (to_dict whole busier ∷ to_dict whole seen ∷ []) 7 90 2 32
      (record seen { window_seconds = 300 }) refl (omega arith) (omega arith) aggregates
