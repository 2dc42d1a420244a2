-- ===== src/RouteMetrics/Consensus.antt =====
-- What `aggregate_route_observations` of src/drift/node/route_metrics.py returns, read back by the
-- validator.
use community_ai.Prelude.{
  ℕ, suc, ◌≡◌, ◌≤◌, ◌%◌, Bool, true, false, not, ◌&&◌, Option, some, List, [], ◌∷◌, map, leb, ◌==◌,
  arith, refl, subst, ap, ltb→ge, All, All-map, length, take, Float, Value, int, Checked, valid,
  value_error, >>=-eq-valid, >>-eq-valid,
}
use community_ai.RouteMetrics.Observation.{
  RouteUtilityObservation, Entry, value, Source, elem, demand_buckets, throughput_milli_tps_buckets,
  has_fields, equals, require_int, require_digest, is_age_limit, is_over,
  validate_route_observation, to_dict,
}
use community_ai.RouteMetrics.Roundtrip.{IsWellFormed, validate-to_dict}
use community_ai.RouteMetrics.Aggregate.{
  median_low, sorted, maximum, keep_valid, validated, combine, combine_enough,
  aggregate_route_observations,
}
use community_ai.RouteMetrics.Median.{All-median_low, maximum_bound, Below, median_low_mono}

module _ (F : Float) where
  require_int_bounds :
      (name : _) (low high : ℕ) (e : Option (Entry F)) (n : ℕ)
      → require_int F name low high e ≡ valid n
      → (low ≤ n) × (n ≤ high)
  unfolding require_int
  require_int_bounds name low high (some (value (int m))) n h = ground arith
  require_int_bounds name low high _ n h = absurd cc

  -- What an accepted observation is, and its age.
  abbrev IsAccepted : Value F → RouteUtilityObservation → Type 0
  IsAccepted maximum_age o = IsWellFormed o × (is_over F o.age_seconds_bucket maximum_age ≡ false)

  counts_of :
      (a s : ℕ)
      → (elem a demand_buckets && elem s demand_buckets && leb s a) ≡ true
      → (elem a demand_buckets ≡ true) × (elem s demand_buckets ≡ true) × (s ≤ a)
  counts_of a s h = ground arith

  valid_injective : (a b : RouteUtilityObservation) → valid a ≡ valid b → a ≡ b
  valid_injective a b h = cc

  false_of_negation : (b : Bool) → not b ≡ true → b ≡ false
  false_of_negation b h = ground arith

  keep_valid-IsAccepted :
      (maximum_age : Value F) (c : Checked RouteUtilityObservation)
      (os : List RouteUtilityObservation)
      → ((o : RouteUtilityObservation) → c ≡ valid o → IsAccepted maximum_age o)
      → All (IsAccepted maximum_age) os
      → All (IsAccepted maximum_age) (keep_valid F c os)
  unfolding keep_valid
  keep_valid-IsAccepted maximum_age (valid o) os f h = (f o refl, h)
  keep_valid-IsAccepted maximum_age (value_error e) os f h = h

  All-mapped :
      (f : RouteUtilityObservation → ℕ) (P : ℕ → Type 0) (os : List RouteUtilityObservation)
      → All (λ o. P (f o)) os
      → All P (map f os)
  All-mapped f P [] h = tt
  All-mapped f P (o ∷ os) h = (h.0, All-mapped f P os h.1)

  length-mapped :
      (f : RouteUtilityObservation → ℕ) (os : List RouteUtilityObservation)
      → length (map f os) ≡ length os
  length-mapped f [] = refl
  length-mapped f (o ∷ os) = ap suc (length-mapped f os)

  Below-mapped :
      (m : ℕ) (os : List RouteUtilityObservation)
      → All (IsAccepted (int m)) os
      → Below (map (λ o. o.successes_bucket) os) (map (λ o. o.attempts_bucket) os)
  Below-mapped m [] h = tt
  Below-mapped m (o ∷ os) h = (h.0.0.successes_le, Below-mapped m os h.1)

  -- A field's median has what the field of every well-formed observation has.
  median :
      (f : RouteUtilityObservation → ℕ) (P : ℕ → Type 0) (m : ℕ) (os : List RouteUtilityObservation)
      → 1 ≤ length os
      → ((o : RouteUtilityObservation) → IsWellFormed o → P (f o))
      → All (IsAccepted (int m)) os
      → P (median_low (sorted (map f os)))
  median f P m os a g h =
      All-median_low P (map f os) (omega (arith, length-mapped f os))
        (All-mapped f P os (All-map (IsAccepted (int m)) (λ o. P (f o)) os (λ o w. g o w.0) h))

  validate-IsAccepted :
      (is_digest : ℕ → Bool) (source : Source F) (expected : ℕ) (maximum_age : Value F)
      (o : RouteUtilityObservation)
      → validate_route_observation F is_digest source expected maximum_age ≡ valid o
      → IsAccepted maximum_age o
  unfolding validate_route_observation
  validate-IsAccepted is_digest source expected maximum_age o h =
      let (_, r1) = >>-eq-valid (has_fields F source) "fields" _ h in
      let (_, r2) = >>-eq-valid (equals F 1 source.schema_version) "schema_version" _ r1 in
      let (digest, h3, r3) =
        >>=-eq-valid (require_digest F is_digest expected source.manifest_digest) _ r2 in
      let (limit, r4) = >>-eq-valid (is_age_limit F maximum_age) "maximum_age_seconds" _ r3 in
      let (window, h5, r5) =
        >>=-eq-valid (require_int F "window_seconds" 60 3600 source.window_seconds) _ r4 in
      let (attempts, h6, r6) =
        >>=-eq-valid (require_int F "attempts_bucket" 1 64 source.attempts_bucket) _ r5 in
      let (successes, h7, r7) =
        >>=-eq-valid (require_int F "successes_bucket" 0 64 source.successes_bucket) _ r6 in
      let (counts, r8) =
        >>-eq-valid
          (elem attempts demand_buckets && elem successes demand_buckets && leb successes attempts)
          "count buckets" _ r7 in
      let (tps, h9, r9) =
        >>=-eq-valid
          (require_int F "useful_tokens_per_second_milli" 0 64000
            source.useful_tokens_per_second_milli)
          _ r8 in
      let (bucket, r10) =
        >>-eq-valid (elem tps throughput_milli_tps_buckets) "throughput bucket" _ r9 in
      let (reliability, h11, r11) =
        >>=-eq-valid (require_int F "reliability_milli" 0 1000 source.reliability_milli) _ r10 in
      let (round, r12) = >>-eq-valid ((reliability % 100) == 0) "reliability" _ r11 in
      let (age, h13, r13) =
        >>=-eq-valid (require_int F "age_seconds_bucket" 0 window source.age_seconds_bucket) _
          r12 in
      let (young, r14) = >>-eq-valid (not (is_over F age maximum_age)) "stale" _ r13 in
      let found : RouteUtilityObservation = record {
        manifest_digest = digest;
        window_seconds = window;
        attempts_bucket = attempts;
        successes_bucket = successes;
        useful_tokens_per_second_milli = tps;
        reliability_milli = reliability;
        age_seconds_bucket = age;
      } in
      let same : found ≡ o = valid_injective found o r14 in
      let windows = require_int_bounds "window_seconds" 60 3600 source.window_seconds window h5 in
      let some_attempt =
        require_int_bounds "attempts_bucket" 1 64 source.attempts_bucket attempts h6 in
      let share =
        require_int_bounds "reliability_milli" 0 1000 source.reliability_milli reliability h11 in
      let aged =
        require_int_bounds "age_seconds_bucket" 0 window source.age_seconds_bucket age h13 in
      let buckets = counts_of attempts successes counts in
      subst (IsAccepted maximum_age) same (
        record {
          window_low = windows.0;
          window_high = windows.1;
          attempts_pos = some_attempt.0;
          attempts_bucket = buckets.0;
          successes_bucket = buckets.1;
          successes_le = buckets.2;
          throughput_bucket = bucket;
          reliability_le = share.1;
          reliability_round = round;
          age_le = aged.1;
        },
        false_of_negation (is_over F age maximum_age) young,
      )

  validated-IsAccepted :
      (is_digest : ℕ → Bool) (sources : List (Source F)) (expected : ℕ) (maximum_age : Value F)
      → All (IsAccepted maximum_age) (validated F is_digest sources expected maximum_age)
  unfolding validated
  validated-IsAccepted is_digest [] expected maximum_age = tt
  validated-IsAccepted is_digest (s ∷ ss) expected maximum_age =
      keep_valid-IsAccepted maximum_age
        (validate_route_observation F is_digest s expected maximum_age) _
        (validate-IsAccepted is_digest s expected maximum_age)
        (validated-IsAccepted is_digest ss expected maximum_age)

  -- The fields of the medians and of the maximum.
  combine-IsWellFormed :
      (expected m : ℕ) (os : List RouteUtilityObservation)
      → 1 ≤ length os
      → m ≤ 300
      → All (IsAccepted (int m)) os
      → IsWellFormed (combine F expected os) × ((combine F expected os).age_seconds_bucket ≤ m)
  unfolding combine is_over
  combine-IsWellFormed expected m os a b h =
      let oldest : maximum (map (λ o. o.age_seconds_bucket) os) ≤ m = maximum_bound m _ (
        All-mapped (λ o. o.age_seconds_bucket) (λ x. x ≤ m) os
          (All-map _ _ os (λ o w. ltb→ge m o.age_seconds_bucket w.1) h)) in
      (
        record {
          window_low = omega arith;
          window_high = omega arith;
          attempts_pos =
              median (λ o. o.attempts_bucket) (λ x. 1 ≤ x) m os a (λ o w. w.attempts_pos) h;
          attempts_bucket =
              median (λ o. o.attempts_bucket) (λ x. elem x demand_buckets ≡ true) m os a
                (λ o w. w.attempts_bucket) h;
          successes_bucket =
              median (λ o. o.successes_bucket) (λ x. elem x demand_buckets ≡ true) m os a
                (λ o w. w.successes_bucket) h;
          successes_le = median_low_mono _ _ (Below-mapped m os h);
          throughput_bucket =
              median (λ o. o.useful_tokens_per_second_milli)
                (λ x. elem x throughput_milli_tps_buckets ≡ true) m os a
                (λ o w. w.throughput_bucket) h;
          reliability_le =
              median (λ o. o.reliability_milli) (λ x. x ≤ 1000) m os a (λ o w. w.reliability_le) h;
          reliability_round =
              median (λ o. o.reliability_milli) (λ x. (x % 100 == 0) ≡ true) m os a
                (λ o w. w.reliability_round) h;
          age_le = omega (arith, oldest);
        },
        oldest,
      )

  combine_enough-validate :
      (is_digest : ℕ → Bool) (digest m fewest : ℕ) (os : List RouteUtilityObservation)
      (o : RouteUtilityObservation)
      → is_digest digest ≡ true
      → 1 ≤ m
      → m ≤ 300
      → 1 ≤ fewest
      → All (IsAccepted (int m)) os
      → combine_enough F digest fewest os ≡ some o
      → validate_route_observation F is_digest (to_dict F o) digest (int m) ≡ valid o
  unfolding combine_enough combine is_age_limit is_over
  combine_enough-validate is_digest digest m fewest os o d low high a h e =
      (let enough : 1 ≤ length os = ground arith in
        let same : combine F digest os ≡ o = ground arith in
        let w = combine-IsWellFormed digest m os enough high h in
        subst (λ x. validate_route_observation F is_digest (to_dict F x) digest (int m) ≡ valid x)
          same
          (validate-to_dict F is_digest (combine F digest os) (int m) w.0 d (ground arith)
            (ground (arith, w.1))))

  -- An aggregate for a digest, under an age limit of 1 to 300 whole seconds, passes the validator
  -- with the same digest and limit, and comes back unchanged: its medians are buckets, its successes
  -- are at most its attempts and its age is within its window of 300 seconds.
  pub aggregate-validate :
      (is_digest : ℕ → Bool) (sources : List (Source F)) (digest m fewest most : ℕ)
      (o : RouteUtilityObservation)
      → is_digest digest ≡ true
      → 1 ≤ m
      → m ≤ 300
      → aggregate_route_observations F is_digest sources digest (int m) (int fewest) (int most)
        ≡ valid (some o)
      → validate_route_observation F is_digest (to_dict F o) digest (int m) ≡ valid o
  unfolding aggregate_route_observations
  aggregate-validate is_digest sources digest m fewest most o d low high h =
      (let os = validated F is_digest (take most sources) digest (int m) in
        let bound : 2 ≤ fewest = ground arith in
        let e : combine_enough F digest fewest os ≡ some o = ground arith in
        combine_enough-validate is_digest digest m fewest os o d low high (omega arith)
          (validated-IsAccepted is_digest (take most sources) digest (int m)) e)
