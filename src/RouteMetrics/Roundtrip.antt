-- ===== src/RouteMetrics/Roundtrip.antt =====
-- The observations that `snapshot` and `closed_snapshot` of src/drift/node/route_metrics.py hand
-- out, read back by `validate_route_observation`.
use community_ai.Prelude.{
  ℕ, ◌≡◌, ◌≤◌, ◌%◌, Bool, true, false, some, leb, ◌==◌, arith, refl, Float, Value, int, valid,
}
use community_ai.RouteMetrics.Observation.{
  RouteUtilityObservation, Entry, elem, demand_buckets, throughput_milli_tps_buckets, has_fields,
  equals, require_int, require_digest, is_age_limit, is_over, validate_route_observation, to_dict,
}
use community_ai.RouteMetrics.Buckets.{elem_demand_bound, elem_throughput_bound}

-- What `validate_route_observation` asks of an observation, apart from its age limit.
pub record IsWellFormed (o : RouteUtilityObservation) : Type 0 where
  pub window_low : 60 ≤ o.window_seconds
  pub window_high : o.window_seconds ≤ 3600
  pub attempts_pos : 1 ≤ o.attempts_bucket
  pub attempts_bucket : elem o.attempts_bucket demand_buckets ≡ true
  pub successes_bucket : elem o.successes_bucket demand_buckets ≡ true
  pub successes_le : o.successes_bucket ≤ o.attempts_bucket
  pub throughput_bucket : elem o.useful_tokens_per_second_milli throughput_milli_tps_buckets ≡ true
  pub reliability_le : o.reliability_milli ≤ 1000
  pub reliability_round : (o.reliability_milli % 100 == 0) ≡ true
  pub age_le : o.age_seconds_bucket ≤ o.window_seconds

le→leb : (a b : ℕ) → a ≤ b → leb a b ≡ true
le→leb a b h = ground arith

module _ (F : Float) where
  require_int_ok :
      (name : _) (low high n : ℕ)
      → low ≤ n
      → n ≤ high
      → require_int F name low high (some (Entry.value (int n))) ≡ valid n
  unfolding require_int
  require_int_ok name low high n h k = ground arith

  require_digest_ok :
      (is_digest : ℕ → Bool) (d : ℕ)
      → is_digest d ≡ true
      → require_digest F is_digest d (some (Entry.string d)) ≡ valid d
  unfolding require_digest
  require_digest_ok is_digest d h = ground (arith, h)

  pub validate-to_dict :
      (is_digest : ℕ → Bool) (o : RouteUtilityObservation) (maximum_age : Value F)
      → IsWellFormed o
      → is_digest o.manifest_digest ≡ true
      → is_age_limit F maximum_age ≡ true
      → is_over F o.age_seconds_bucket maximum_age ≡ false
      → validate_route_observation F is_digest (to_dict F o) o.manifest_digest maximum_age ≡ valid o
  unfolding validate_route_observation to_dict has_fields equals
  validate-to_dict is_digest o maximum_age w d l a =
      rw (require_digest_ok is_digest o.manifest_digest d) (
        rw l (
          rw (require_int_ok "window_seconds" 60 3600 o.window_seconds w.window_low w.window_high) (
            rw
              (require_int_ok "attempts_bucket" 1 64 o.attempts_bucket w.attempts_pos
                (elem_demand_bound o.attempts_bucket w.attempts_bucket))
              (rw
                (require_int_ok "successes_bucket" 0 64 o.successes_bucket (omega arith)
                  (elem_demand_bound o.successes_bucket w.successes_bucket))
                (rw w.attempts_bucket (
                  rw w.successes_bucket (
                    rw (le→leb o.successes_bucket o.attempts_bucket w.successes_le) (
                      rw
                        (require_int_ok "useful_tokens_per_second_milli" 0 64000
                          o.useful_tokens_per_second_milli (omega arith)
                          (elem_throughput_bound o.useful_tokens_per_second_milli
                            w.throughput_bucket))
                        (rw w.throughput_bucket (
                          rw
                            (require_int_ok "reliability_milli" 0 1000 o.reliability_milli
                              (omega arith) w.reliability_le)
                            (rw w.reliability_round (
                              rw
                                (require_int_ok "age_seconds_bucket" 0 o.window_seconds
                                  o.age_seconds_bucket (omega arith) w.age_le)
                                (rw a refl)))))))))))))
