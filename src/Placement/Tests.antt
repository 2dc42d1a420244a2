-- ===== src/Placement/Tests.antt =====
-- Concrete runs of src/drift/node/contribution_planner.py, with whole numbers for the floats.
use community_ai.Prelude.{
  ℕ, ◌≡◌, ◌+◌, refl, true, false, none, some, List, [], ◌∷◌, arith, whole, int,
}
use community_ai.Placement.Window.{
  or_zero, key_lt, count_at, pop_covered, front, pop_left, drop_outgoing, better_at, better, slide,
  candidate_key, scan_step, scan_from, least_covered,
}
use community_ai.Placement.Planner.{
  complete, Scoring, PlacementCandidate, PlacementDecision, Planner, route_signal, is_fresh,
  cons_count, natural_counts, valid_counts, minimum, score_of, place, place_counted, is_observed,
  evaluate_at, evaluate, keep_eligible, eligible_of,
}
use community_ai.Placement.Propose.{
  outranks, best_of, for_model, is_cooling, is_held, settle, settle_at, choose, propose_from,
  propose, commit, plan,
}
use community_ai.Placement.Hysteresis.{plan_keeps, plan_moves}
use community_ai.Placement.LeastCovered.{IsLeast, least_covered-IsLeast}

abbrev counts : List ℕ
counts = 3 ∷ 1 ∷ 2 ∷ 0 ∷ 1 ∷ 4 ∷ []

abbrev rank : ℕ → ℕ → ℕ
rank start end = start + end

finds : least_covered (count_at counts) rank 2 6 ≡ 3
unfolding least_covered scan_from scan_step slide better better_at candidate_key key_lt count_at
    or_zero pop_covered front pop_left drop_outgoing
finds = refl

least_covered-IsLeast_example :
    IsLeast (count_at counts) rank 2 6 (least_covered (count_at counts) rank 2 6)
least_covered-IsLeast_example =
    least_covered-IsLeast (count_at counts) rank 2 6 (omega arith) (omega arith)

abbrev scoring : Scoring whole
scoring = record {
  is_digest = λ d. true;
  jitter = λ d. d;
  range_jitter = λ d start end. start;
  log2 = λ x. x;
}

abbrev candidate : ℕ → ℕ → PlacementCandidate whole
candidate model replicas = record {
  model_id = model;
  manifest_digest = model;
  priority = 0;
  preferred = false;
  artifact_bytes = 100;
  total_blocks = 2;
  health = record {
    status = complete;
    last_updated_age = int 5;
    replica_counts = some (int replicas ∷ int replicas ∷ []);
  };
  route_observation = none;
  remote_route_observation = none;
  policy_reason = none;
}

abbrev decision : ℕ → ℕ → ℕ → PlacementDecision whole
decision model replicas score = record {
  model_id = model;
  manifest_digest = model;
  block_start = 0;
  block_end = 1;
  artifact_bytes = 100;
  replica_counts = replicas ∷ [];
  score = score;
}

-- Model 1 has been assigned at 100 seconds; model 2 is the one that lacks replicas.
abbrev planner : Planner whole
planner = record {
  num_blocks = 1;
  minimum_residency = 900;
  cooldown = 300;
  switch_margin = 10;
  maximum_observation_age = 90;
  current = some (decision 1 0 211);
  assigned_at = some 100;
  last_switch_at = none;
}

abbrev candidates : List (PlacementCandidate whole)
candidates = candidate 1 2 ∷ candidate 2 0 ∷ []

still_eligible :
    for_model whole 1 (eligible_of whole scoring planner candidates) ≡ some (decision 1 2 11)
unfolding for_model eligible_of keep_eligible evaluate evaluate_at is_observed is_fresh
    place_counted valid_counts natural_counts cons_count place score_of route_signal minimum
    least_covered scan_from scan_step slide better better_at candidate_key key_lt count_at or_zero
    pop_covered front pop_left drop_outgoing
still_eligible = refl

held : is_held whole planner 500 100 ≡ true
unfolding is_held is_cooling
held = refl

moves : (plan whole scoring candidates true 2000 planner).0.decision ≡ some (decision 2 0 212)
unfolding plan commit propose propose_from choose settle_at settle is_held is_cooling best_of
    outranks for_model eligible_of keep_eligible evaluate evaluate_at is_observed is_fresh
    place_counted valid_counts natural_counts cons_count place score_of route_signal minimum
    least_covered scan_from scan_step slide better better_at candidate_key key_lt count_at or_zero
    pop_covered front pop_left drop_outgoing
moves = refl

plan_keeps_example :
    ((plan whole scoring candidates true 500 planner).0.decision ≡ some (decision 1 0 211))
    × ((plan whole scoring candidates true 500 planner).1 ≡ planner)
plan_keeps_example =
    plan_keeps whole scoring candidates 500 100 planner (decision 1 0 211) (decision 1 2 11)
      (omega arith) refl refl still_eligible held

plan_moves_example :
    (is_held whole planner 2000 100 ≡ false) × (whole.lt 212 (whole.add 11 10) ≡ false)
plan_moves_example =
    plan_moves whole scoring candidates 2000 100 planner (decision 1 0 211) (decision 1 2 11)
      (decision 2 0 212) (omega arith) refl refl still_eligible moves (λ e. omega (arith, e))
