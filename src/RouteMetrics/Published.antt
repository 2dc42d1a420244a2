-- ===== src/RouteMetrics/Published.antt =====
-- What `snapshot` and `closed_snapshot` of src/drift/node/route_metrics.py publish, as the node that
-- reads it validates it.
use community_ai.Prelude.{
  ℕ, ◌≡◌, ◌≤◌, ◌*◌, ◌/◌, Bool, true, false, Option, none, some, ltb, arith, refl, subst, sym, inl,
  inr, Bool-cases, Every-lookup, Float, Value, valid, lookup,
}
use community_ai.RouteMetrics.Observation.{
  RouteUtilityObservation, is_age_limit, is_over, validate_route_observation, to_dict,
  demand_buckets,
}
use community_ai.RouteMetrics.Tracker.{
  Rounding, RouteWindow, Windows, one, two, RouteOutcomeTracker, current, reliability_milli_of,
  observe, publish, snapshot, snapshot_at, closed_window, closed_of, closed_at, closed_snapshot,
  throughput_milli,
}
use community_ai.RouteMetrics.Buckets.{
  floor_bucket_mono, floor_bucket_pos, elem_demand, elem_throughput, share_bound, share_round,
}
use community_ai.RouteMetrics.Roundtrip.{IsWellFormed, validate-to_dict}
use community_ai.RouteMetrics.Windows.{IsCounted, AreCounted, Inv, Reachable, Reachable-Inv}

module _ (F : Float) where
  observe-IsWellFormed :
      (R : Rounding F) (now : F.Carrier) (digest : ℕ) (t : RouteOutcomeTracker F)
      (w : RouteWindow F)
      → Inv F t
      → IsCounted F t.maximum_events w
      → 1 ≤ w.attempts
      → IsWellFormed (observe F R now digest t.window_seconds w)
  unfolding observe reliability_milli_of
  observe-IsWellFormed R now digest t w inv counted some_attempt = record {
    window_low = inv.window_low;
    window_high = inv.window_high;
    attempts_pos = floor_bucket_pos w.attempts some_attempt;
    attempts_bucket = elem_demand w.attempts;
    successes_bucket = elem_demand w.successes;
    successes_le = floor_bucket_mono w.successes w.attempts demand_buckets counted.0;
    throughput_bucket = elem_throughput (throughput_milli F R w);
    reliability_le = share_bound w.attempts w.successes counted.0;
    reliability_round = share_round (1000 * w.successes / w.attempts);
    age_le = omega arith;
  }

  -- What an observation that is handed out under a digest is.
  abbrev pub IsPublished : ℕ → RouteUtilityObservation → Type 0
  IsPublished digest o = IsWellFormed o × (o.manifest_digest ≡ digest)

  publish-IsPublished :
      (R : Rounding F) (now : F.Carrier) (minimum digest : ℕ) (t : RouteOutcomeTracker F)
      (w : RouteWindow F) (o : RouteUtilityObservation)
      → 1 ≤ minimum
      → Inv F t
      → IsCounted F t.maximum_events w
      → publish F R now minimum digest t.window_seconds w ≡ some o
      → IsPublished digest o
  unfolding publish observe
  publish-IsPublished R now minimum digest t w o low inv counted h =
      (let enough : minimum ≤ w.attempts = ground arith in
        let same : observe F R now digest t.window_seconds w ≡ o = ground arith in
        subst (IsPublished digest) same
          (observe-IsWellFormed R now digest t w inv counted (omega arith), refl))

  current-IsCounted :
      (limit : ℕ) (ws : Windows F) → AreCounted F limit ws → IsCounted F limit (current F ws)
  unfolding current
  current-IsCounted limit (one w) h = h
  current-IsCounted limit (two w old) h = h.0

  snapshot_at-IsPublished :
      (R : Rounding F) (now : F.Carrier) (digest : ℕ) (t : RouteOutcomeTracker F)
      (found : Option (Windows F)) (o : RouteUtilityObservation)
      → Inv F t
      → lookup digest t.windows ≡ found
      → (snapshot_at F R now digest t found).0 ≡ some o
      → IsPublished digest o
  unfolding snapshot_at
  snapshot_at-IsPublished R now digest t none o inv e h = absurd cc
  snapshot_at-IsPublished R now digest t (some ws) o inv e h =
      publish-IsPublished R now 1 digest t (current F ws) o (omega arith) inv
        (current-IsCounted t.maximum_events ws
          (Every-lookup (AreCounted F t.maximum_events) digest ws t.windows inv.counted e))
        (ground arith)

  snapshot-IsPublished :
      (is_digest : ℕ → Bool) (R : Rounding F) (now : F.Carrier) (digest : ℕ)
      (t : RouteOutcomeTracker F) (o : RouteUtilityObservation)
      → Inv F t
      → (snapshot F is_digest R now digest t).0 ≡ some o
      → (is_digest digest ≡ true) × IsPublished digest o
  unfolding snapshot
  snapshot-IsPublished is_digest R now digest t o inv h = elim (Bool-cases (is_digest digest)) [
    | inl digits ↦ (
      digits,
      snapshot_at-IsPublished R now digest t (lookup digest t.windows) o inv refl (ground arith),
    )
    | inr none_such ↦ absurd (ground arith)
  ]

  revalidate :
      (is_digest : ℕ → Bool) (digest : ℕ) (o : RouteUtilityObservation) (maximum_age : Value F)
      → is_digest digest ≡ true
      → IsPublished digest o
      → is_age_limit F maximum_age ≡ true
      → is_over F o.age_seconds_bucket maximum_age ≡ false
      → validate_route_observation F is_digest (to_dict F o) digest maximum_age ≡ valid o
  revalidate is_digest digest o maximum_age d p limit age =
      subst (λ k. validate_route_observation F is_digest (to_dict F o) k maximum_age ≡ valid o) p.1
        (validate-to_dict F is_digest o maximum_age p.0
          (subst (λ k. is_digest k ≡ true) (sym p.1) d) limit age)

  -- What `snapshot` of a tracker that calls have reached returns, validates under its digest and
  -- any age limit that covers its age, and comes back unchanged.
  pub snapshot-validate :
      (is_digest : ℕ → Bool) (R : Rounding F) (t : RouteOutcomeTracker F) (now : F.Carrier)
      (digest : ℕ) (o : RouteUtilityObservation) (maximum_age : Value F)
      → Reachable F is_digest R t
      → (snapshot F is_digest R now digest t).0 ≡ some o
      → is_age_limit F maximum_age ≡ true
      → is_over F o.age_seconds_bucket maximum_age ≡ false
      → validate_route_observation F is_digest (to_dict F o) digest maximum_age ≡ valid o
  snapshot-validate is_digest R t now digest o maximum_age reachable h limit age =
      (let p =
          snapshot-IsPublished is_digest R now digest t o (Reachable-Inv F is_digest R t reachable)
            h in
        revalidate is_digest digest o maximum_age p.0 p.1 limit age)

  closed_window-IsCounted :
      (limit number : ℕ) (ws : Windows F) (w : RouteWindow F)
      → AreCounted F limit ws
      → closed_window F number ws ≡ some w
      → IsCounted F limit w
  unfolding closed_window
  closed_window-IsCounted limit number (one v) w h e =
      (let same : v ≡ w = ground arith in subst (IsCounted F limit) same h)
  closed_window-IsCounted limit number (two v old) w h e =
      elim (Bool-cases (ltb v.window_number number)) [
        | inl closed ↦ (let same : v ≡ w = ground arith in subst (IsCounted F limit) same h.0)
        | inr still_open ↦ (let same : old ≡ w = ground arith in subst (IsCounted F limit) same h.1)
      ]

  closed_of-IsCounted :
      (limit number : ℕ) (found : Option (Windows F)) (w : RouteWindow F)
      → ((ws : Windows F) → found ≡ some ws → AreCounted F limit ws)
      → closed_of F number found ≡ some w
      → IsCounted F limit w
  unfolding closed_of
  closed_of-IsCounted limit number none w h e = absurd cc
  closed_of-IsCounted limit number (some ws) w h e =
      closed_window-IsCounted limit number ws w (h ws refl) e

  closed_at-IsPublished :
      (R : Rounding F) (now : F.Carrier) (minimum digest : ℕ) (t : RouteOutcomeTracker F)
      (found : Option (RouteWindow F)) (o : RouteUtilityObservation)
      → 1 ≤ minimum
      → Inv F t
      → ((w : RouteWindow F) → found ≡ some w → IsCounted F t.maximum_events w)
      → closed_at F R now minimum digest t.window_seconds found ≡ some o
      → IsPublished digest o
  unfolding closed_at
  closed_at-IsPublished R now minimum digest t none o low inv counted h = absurd cc
  closed_at-IsPublished R now minimum digest t (some w) o low inv counted h =
      publish-IsPublished R now minimum digest t w o low inv (counted w refl) (ground arith)

  closed_snapshot-IsPublished :
      (is_digest : ℕ → Bool) (R : Rounding F) (now : F.Carrier) (digest minimum : ℕ)
      (t : RouteOutcomeTracker F) (o : RouteUtilityObservation)
      → Inv F t
      → closed_snapshot F is_digest R now digest minimum t ≡ valid (some o)
      → (is_digest digest ≡ true) × IsPublished digest o
  unfolding closed_snapshot
  closed_snapshot-IsPublished is_digest R now digest minimum t o inv h =
      (let digits : is_digest digest ≡ true = ground arith in
        let enough : 4 ≤ minimum = ground arith in
        let closed = closed_of F (R.floor_div now t.window_seconds) (lookup digest t.windows) in
        (
          digits,
          closed_at-IsPublished R now minimum digest t closed o (omega arith) inv
              (λ w e.
                closed_of-IsCounted t.maximum_events _ (lookup digest t.windows) w
                  (λ ws found.
                    Every-lookup (AreCounted F t.maximum_events) digest ws t.windows inv.counted
                      found)
                  e)
              (ground arith),
        ))

  -- What `closed_snapshot` of a tracker that calls have reached returns, validates under its digest
  -- and any age limit that covers its age, and comes back unchanged.
  pub closed_snapshot-validate :
      (is_digest : ℕ → Bool) (R : Rounding F) (t : RouteOutcomeTracker F) (now : F.Carrier)
      (digest minimum : ℕ) (o : RouteUtilityObservation) (maximum_age : Value F)
      → Reachable F is_digest R t
      → closed_snapshot F is_digest R now digest minimum t ≡ valid (some o)
      → is_age_limit F maximum_age ≡ true
      → is_over F o.age_seconds_bucket maximum_age ≡ false
      → validate_route_observation F is_digest (to_dict F o) digest maximum_age ≡ valid o
  closed_snapshot-validate is_digest R t now digest minimum o maximum_age reachable h limit age =
      (let inv = Reachable-Inv F is_digest R t reachable in
        let p = closed_snapshot-IsPublished is_digest R now digest minimum t o inv h in
        revalidate is_digest digest o maximum_age p.0 p.1 limit age)
