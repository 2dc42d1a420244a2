-- ===== src/Placement/Propose.antt =====
-- `propose`, `commit` and `plan` of src/drift/node/contribution_planner.py; `now` is the clock's
-- reading.
use community_ai.Prelude.{
  ℕ, Bool, false, not, ◌&&◌, ◌||◌, Option, none, some, List, [], ◌∷◌, ltb, ◌==◌, if◌then◌else◌,
  length, Float,
}
use community_ai.Placement.Planner.{
  sharing_disabled, too_many_candidates, none_eligible, selected, Scoring, PlacementCandidate,
  PlacementDecision, PlacementPlan, Planner, eligible_of,
}

module _ (F : Float) where
  -- (a.score, a.manifest_digest) > (b.score, b.manifest_digest)
  unfoldable pub outranks : PlacementDecision F → PlacementDecision F → Bool
  outranks a b =
      if F.eq a.score b.score then ltb b.manifest_digest a.manifest_digest else F.lt b.score a.score

  -- max(eligible, ...), which keeps the first of equals
  unfoldable pub best_of : PlacementDecision F → List (PlacementDecision F) → PlacementDecision F
  best_of best [] = best
  best_of best (d ∷ ds) = best_of (if outranks d best then d else best) ds

  -- The eligible decision for a model.
  unfoldable pub for_model : ℕ → List (PlacementDecision F) → Option (PlacementDecision F)
  for_model digest [] = none
  for_model digest (d ∷ ds) = if d.manifest_digest == digest then some d else for_model digest ds

  -- cooldown_elapsed < self._cooldown, where no switch is infinitely long ago
  unfoldable pub is_cooling : Planner F → F.Carrier → Option F.Carrier → Bool
  is_cooling p now none = false
  is_cooling p now (some last) = F.lt (F.sub now last) p.cooldown

  unfoldable pub is_held : Planner F → F.Carrier → F.Carrier → Bool
  is_held p now at = F.lt (F.sub now at) p.minimum_residency || is_cooling p now p.last_switch_at

  -- The choice between the best decision and the held one; `fresh` is the held model's decision now.
  unfoldable pub settle :
      Planner F
      → F.Carrier
      → PlacementDecision F
      → PlacementDecision F
      → PlacementDecision F
      → F.Carrier
      → PlacementDecision F
  settle p now best held fresh at =
      if is_held p now at
      then held
      else if not (best.manifest_digest == fresh.manifest_digest)
          && F.lt best.score (F.add fresh.score p.switch_margin)
      then held
      else best

  unfoldable pub settle_at :
      Planner F
      → F.Carrier
      → PlacementDecision F
      → PlacementDecision F
      → Option (PlacementDecision F)
      → Option F.Carrier
      → PlacementDecision F
  settle_at p now best held (some fresh) (some at) = settle p now best held fresh at
  settle_at p now best held _ _ = best

  unfoldable pub choose :
      Planner F
      → F.Carrier
      → List (PlacementDecision F)
      → PlacementDecision F
      → Option (PlacementDecision F)
      → PlacementDecision F
  unfolding settle_at
  choose p now eligible best none = best
  choose p now eligible best (some held) =
      settle_at p now best held (for_model held.manifest_digest eligible) p.assigned_at

  unfoldable pub propose_from :
      Planner F → F.Carrier → ℕ → List (PlacementDecision F) → PlacementPlan F
  unfolding choose best_of
  propose_from p now evaluated [] = record {
    decision = none;
    reason = none_eligible;
    evaluated_models = evaluated;
  }
  propose_from p now evaluated (d ∷ ds) = record {
    decision = some (choose p now (d ∷ ds) (best_of d ds) p.current);
    reason = selected;
    evaluated_models = evaluated;
  }

  unfoldable pub propose :
      Scoring F → List (PlacementCandidate F) → Bool → F.Carrier → Planner F → PlacementPlan F
  unfolding propose_from
  propose S candidates sharing_enabled now p =
      if not sharing_enabled
      then record {
        decision = none;
        reason = sharing_disabled;
        evaluated_models = length candidates;
      }
      else if ltb 32 (length candidates)
      then record {
        decision = none;
        reason = too_many_candidates;
        evaluated_models = length candidates;
      }
      else propose_from p now (length candidates) (eligible_of F S p candidates)

  -- block_indices of both are the same text
  unfoldable pub same_blocks : PlacementDecision F → PlacementDecision F → Bool
  same_blocks a b = a.block_start == b.block_start && a.block_end == b.block_end

  unfoldable pub switch_to : F.Carrier → PlacementDecision F → Planner F → Planner F
  switch_to now d p = record p {
    current = some d;
    assigned_at = some now;
    last_switch_at = some now;
  }

  unfoldable pub commit_over :
      F.Carrier → PlacementDecision F → Option (PlacementDecision F) → Planner F → Planner F
  unfolding same_blocks switch_to
  commit_over now d none p = record p { current = some d; assigned_at = some now }
  commit_over now d (some held) p =
      if not (d.manifest_digest == held.manifest_digest)
      then switch_to now d p
      else if not (same_blocks d held)
      then switch_to now d p
      else record p { current = some d }

  unfoldable pub commit_decision : F.Carrier → Option (PlacementDecision F) → Planner F → Planner F
  unfolding commit_over
  commit_decision now none p = p
  commit_decision now (some d) p = commit_over now d p.current p

  -- commit returns its plan
  unfoldable pub commit : F.Carrier → PlacementPlan F → Planner F → PlacementPlan F × Planner F
  unfolding commit_decision
  commit now plan p = (plan, commit_decision now plan.decision p)

  unfoldable pub plan :
      Scoring F
      → List (PlacementCandidate F)
      → Bool
      → F.Carrier
      → Planner F
      → PlacementPlan F × Planner F
  plan S candidates sharing_enabled now p =
      commit now (propose S candidates sharing_enabled now p) p
