-- ===== src/Placement/Planner.antt =====
-- `PlacementCandidate` and `AutomaticContributionPlanner` of
-- src/drift/node/contribution_planner.py. A message that is only shown is a constructor.
use community_ai.Prelude.{
  ℕ, ◌+◌, ◌-◌, Bool, true, false, not, ◌&&◌, ◌||◌, Option, none, some, List, [], ◌∷◌, ltb, ◌==◌,
  if◌then◌else◌, length, take, drop, Float, float_min, Value, int, float, Checked, valid,
  value_error,
}
use community_ai.RouteMetrics.Observation.{
  RouteUtilityObservation, Source, validate_route_observation,
}
use community_ai.Placement.Window.{count_at, least_covered}

pub data CoverageStatus : Type 0 where
  complete incomplete other_status : CoverageStatus

-- Why a candidate or a plan has no assignment; `by_policy` carries the policy's own message.
pub data Reason : Type 0 where
  by_policy : ℕ → Reason
  too_few_blocks coverage_unavailable coverage_stale invalid_counts : Reason
  sharing_disabled too_many_candidates none_eligible selected : Reason

module _ (F : Float) where
  -- What the planner computes with hashes and logarithms, and the match of the digest pattern.
  pub record Scoring : Type 0 where
    pub is_digest : ℕ → Bool
    pub jitter : ℕ → F.Carrier
    pub range_jitter : ℕ → ℕ → ℕ → ℕ
    pub log2 : F.Carrier → F.Carrier

  -- `last_updated_age` is `other` and `replica_counts` is none where they are no number, no list.
  pub record Health : Type 0 where
    pub status : CoverageStatus
    pub last_updated_age : Value F
    pub replica_counts : Option (List (Value F))

  pub record PlacementCandidate : Type 0 where
    pub model_id : ℕ
    pub manifest_digest : ℕ
    pub priority : ℕ
    pub preferred : Bool
    pub artifact_bytes : ℕ
    pub total_blocks : ℕ
    pub health : Health
    pub route_observation : Option (Source F)
    pub remote_route_observation : Option (Source F)
    pub policy_reason : Option ℕ

  pub record PlacementDecision : Type 0 where
    pub model_id : ℕ
    pub manifest_digest : ℕ
    pub block_start : ℕ
    pub block_end : ℕ
    pub artifact_bytes : ℕ
    pub replica_counts : List ℕ
    pub score : F.Carrier

  pub record PlacementPlan : Type 0 where
    pub decision : Option PlacementDecision
    pub reason : Reason
    pub evaluated_models : ℕ

  pub record Planner : Type 0 where
    pub num_blocks : ℕ
    pub minimum_residency : F.Carrier
    pub cooldown : F.Carrier
    pub switch_margin : F.Carrier
    pub maximum_observation_age : F.Carrier
    pub current : Option PlacementDecision
    pub assigned_at : Option F.Carrier
    pub last_switch_at : Option F.Carrier

  -- AutomaticContributionPlanner(...)
  unfoldable pub new_planner :
      ℕ → Bool → F.Carrier → F.Carrier → F.Carrier → F.Carrier → Option Planner
  new_planner num_blocks has_seed residency cooldown margin age =
      if ltb num_blocks 1
        || ltb 512 num_blocks
        || not has_seed
        || F.lt residency (F.of_ℕ 0)
        || F.lt cooldown (F.of_ℕ 0)
        || F.lt margin (F.of_ℕ 0)
        || F.le age (F.of_ℕ 0)
      then none
      else some (record {
        num_blocks = num_blocks;
        minimum_residency = residency;
        cooldown = cooldown;
        switch_margin = margin;
        maximum_observation_age = age;
        current = none;
        assigned_at = none;
        last_switch_at = none;
      })

  -- cap * demand * useful_throughput * reliability of a valid observation
  unfoldable pub utility : Scoring → ℕ → RouteUtilityObservation → F.Carrier
  utility S cap o =
      let log65 = S.log2 (F.of_ℕ 65) in
      let demand = F.div (S.log2 (F.of_ℕ (1 + o.attempts_bucket))) log65 in
      let tps = F.div (F.of_ℕ o.useful_tokens_per_second_milli) (F.of_ℕ 1000) in
      let useful = float_min F (F.of_ℕ 1) (F.div (S.log2 (F.add (F.of_ℕ 1) tps)) log65) in
      let reliability = F.div (F.of_ℕ o.reliability_milli) (F.of_ℕ 1000) in
      F.mul (F.mul (F.mul (F.of_ℕ cap) demand) useful) reliability

  unfoldable pub signal_of : Scoring → ℕ → Checked RouteUtilityObservation → F.Carrier
  signal_of S cap (valid o) = utility S cap o
  signal_of S cap (value_error e) = F.of_ℕ 0

  -- _route_signal
  unfoldable pub route_signal :
      Scoring → Planner → Option (Source F) → PlacementCandidate → ℕ → F.Carrier
  route_signal S p none c cap = F.of_ℕ 0
  route_signal S p (some source) c cap = signal_of S cap (
      validate_route_observation F S.is_digest source c.manifest_digest
        (float p.maximum_observation_age))

  -- The age is a finite number between 0 and the planner's limit.
  unfoldable pub is_fresh : Planner → Value F → Bool
  is_fresh p (int n) = not (F.lt p.maximum_observation_age (F.of_ℕ n))
  is_fresh p (float x) =
      F.is_finite x && not (F.lt x (F.of_ℕ 0)) && not (F.lt p.maximum_observation_age x)
  is_fresh p _ = false

  unfoldable pub cons_count : Value F → Option (List ℕ) → Option (List ℕ)
  cons_count (int n) (some ns) = some (n ∷ ns)
  cons_count _ _ = none

  unfoldable pub natural_counts : List (Value F) → Option (List ℕ)
  unfolding cons_count
  natural_counts [] = some []
  natural_counts (v ∷ vs) = cons_count v (natural_counts vs)

  unfoldable pub valid_counts : ℕ → Option (List (Value F)) → Option (List ℕ)
  valid_counts total none = none
  valid_counts total (some vs) = if length vs == total then natural_counts vs else none

  -- min(window) of a window that is not empty
  unfoldable pub minimum : List ℕ → ℕ
  minimum [] = 0
  minimum (n ∷ []) = n
  minimum (n ∷ m ∷ ns) = let rest = minimum (m ∷ ns) in if ltb rest n then rest else n

  unfoldable pub score_of : Scoring → Planner → PlacementCandidate → List ℕ → F.Carrier
  unfolding minimum
  score_of S p c window =
      let pressure = F.mul (F.of_ℕ (2 - minimum window)) (F.of_ℕ 100) in
      let preference = if c.preferred then F.of_ℕ 20 else F.of_ℕ 0 in
      let priority = F.div (F.of_ℕ 10) (F.of_ℕ (c.priority + 1)) in
      let local = route_signal S p c.route_observation c 6 in
      let remote = route_signal S p c.remote_route_observation c 2 in
      F.add (F.add (F.add (F.add (F.add pressure preference) priority) local) remote)
        (S.jitter c.manifest_digest)

  unfoldable pub place : Scoring → Planner → PlacementCandidate → List ℕ → PlacementDecision
  place S p c counts =
      let start =
        least_covered (count_at counts) (S.range_jitter c.manifest_digest) p.num_blocks
          (length counts) in
      let window = take p.num_blocks (drop start counts) in
      record {
        model_id = c.model_id;
        manifest_digest = c.manifest_digest;
        block_start = start;
        block_end = start + p.num_blocks;
        artifact_bytes = c.artifact_bytes;
        replica_counts = window;
        score = score_of S p c window;
      }

  pub data Evaluation : Type 0 where
    eligible : PlacementDecision → Evaluation
    ineligible : Reason → Evaluation

  unfoldable pub place_counted :
      Scoring → Planner → PlacementCandidate → Option (List ℕ) → Evaluation
  place_counted S p c none = ineligible invalid_counts
  place_counted S p c (some counts) = eligible (place S p c counts)

  unfoldable pub is_observed : CoverageStatus → Bool
  is_observed other_status = false
  is_observed _ = true

  unfoldable pub evaluate_at : Scoring → Planner → PlacementCandidate → Option ℕ → Evaluation
  unfolding is_observed
  evaluate_at S p c (some message) = ineligible (by_policy message)
  evaluate_at S p c none =
      if ltb c.total_blocks p.num_blocks
      then ineligible too_few_blocks
      else if not (is_observed c.health.status)
      then ineligible coverage_unavailable
      else if not (is_fresh p c.health.last_updated_age)
      then ineligible coverage_stale
      else place_counted S p c (valid_counts c.total_blocks c.health.replica_counts)

  -- _evaluate
  unfoldable pub evaluate : Scoring → Planner → PlacementCandidate → Evaluation
  unfolding evaluate_at
  evaluate S p c = evaluate_at S p c c.policy_reason

  unfoldable pub keep_eligible : Evaluation → List PlacementDecision → List PlacementDecision
  keep_eligible (eligible d) ds = d ∷ ds
  keep_eligible (ineligible r) ds = ds

  unfoldable pub eligible_of : Scoring → Planner → List PlacementCandidate → List PlacementDecision
  unfolding keep_eligible
  eligible_of S p [] = []
  eligible_of S p (c ∷ cs) = keep_eligible (evaluate S p c) (eligible_of S p cs)
