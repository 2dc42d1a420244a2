-- ===== src/RouteMetrics/Aggregate.antt =====
-- `aggregate_route_observations` of src/drift/node/route_metrics.py. A bound is a number or
-- refused, and `median_low(sorted(...))` is the documented one of Python's `statistics`.
use community_ai.Prelude.{
  ℕ, ◌-◌, ◌/◌, Bool, ◌||◌, Option, none, some, List, [], ◌∷◌, map, leb, ltb, if◌then◌else◌, length,
  get_elem?, take, Float, Value, int, Checked, valid, value_error,
}
use community_ai.RouteMetrics.Observation.{
  RouteUtilityObservation, Source, validate_route_observation,
}

unfoldable pub insert_sorted : ℕ → List ℕ → List ℕ
insert_sorted a [] = a ∷ []
insert_sorted a (x ∷ xs) = let rest = insert_sorted a xs in if leb a x then a ∷ x ∷ xs else x ∷ rest

unfoldable pub sorted : List ℕ → List ℕ
unfolding insert_sorted
sorted [] = []
sorted (x ∷ xs) = insert_sorted x (sorted xs)

unfoldable pub or_zero : Option ℕ → ℕ
or_zero none = 0
or_zero (some n) = n

-- The lower of the two middle values; the list is not empty where it is called.
unfoldable pub median_low : List ℕ → ℕ
unfolding or_zero
median_low xs = or_zero (get_elem? xs ((length xs - 1) / 2))

-- max(...)
unfoldable pub maximum : List ℕ → ℕ
maximum [] = 0
maximum (x ∷ xs) = let rest = maximum xs in if ltb rest x then x else rest

module _ (F : Float) where
  unfoldable pub keep_valid :
      Checked RouteUtilityObservation → List RouteUtilityObservation → List RouteUtilityObservation
  keep_valid (valid o) os = o ∷ os
  keep_valid (value_error e) os = os

  unfoldable pub validated :
      (ℕ → Bool) → List (Source F) → ℕ → Value F → List RouteUtilityObservation
  unfolding keep_valid
  validated is_digest [] expected maximum_age = []
  validated is_digest (s ∷ ss) expected maximum_age =
      keep_valid (validate_route_observation F is_digest s expected maximum_age)
        (validated is_digest ss expected maximum_age)

  unfoldable pub combine : ℕ → List RouteUtilityObservation → RouteUtilityObservation
  unfolding median_low sorted maximum
  combine expected os = record {
    manifest_digest = expected;
    window_seconds = 300;
    attempts_bucket = median_low (sorted (map (λ o. o.attempts_bucket) os));
    successes_bucket = median_low (sorted (map (λ o. o.successes_bucket) os));
    useful_tokens_per_second_milli =
        median_low (sorted (map (λ o. o.useful_tokens_per_second_milli) os));
    reliability_milli = median_low (sorted (map (λ o. o.reliability_milli) os));
    age_seconds_bucket = maximum (map (λ o. o.age_seconds_bucket) os);
  }

  unfoldable pub combine_enough :
      ℕ → ℕ → List RouteUtilityObservation → Option RouteUtilityObservation
  combine_enough expected minimum os =
      if ltb (length os) minimum then none else some (combine expected os)

  unfoldable pub aggregate_route_observations :
      (ℕ → Bool)
      → List (Source F)
      → ℕ
      → Value F
      → Value F
      → Value F
      → Checked (Option RouteUtilityObservation)
  unfolding combine_enough
  aggregate_route_observations is_digest sources expected maximum_age (int fewest) (int most) =
      if ltb fewest 2 || ltb most fewest || ltb 32 most
      then value_error "signer bounds"
      else valid (
          combine_enough expected fewest
            (validated is_digest (take most sources) expected maximum_age))
  aggregate_route_observations is_digest sources expected maximum_age _ _ =
      value_error "signer bounds"
