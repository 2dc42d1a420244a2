-- ===== src/Placement/Hysteresis.antt =====
-- When `plan` of src/drift/node/contribution_planner.py keeps an assignment, and when it moves.
use community_ai.Prelude.{
  ℕ, ◌≡◌, ◌≢◌, ◌≤◌, ◌⊎◌, true, false, some, List, [], ◌∷◌, ◌==◌, length, Float, arith, refl, sym,
  ap, ◌∙◌, inl, inr, Bool-cases, subst, ==_iff,
}
use community_ai.Placement.Planner.{
  Scoring, PlacementCandidate, PlacementDecision, Planner, eligible_of,
}
use community_ai.Placement.Propose.{
  is_held, settle, settle_at, choose, for_model, best_of, propose_from, propose, same_blocks,
  commit_over, commit_decision, commit, plan,
}

module _ (F : Float) where
  test_self : (n : ℕ) → (n == n) ≡ true
  test_self n = ground arith

  commit_over_self :
      (now : F.Carrier) (d : PlacementDecision F) (p : Planner F)
      → commit_over F now d (some d) p ≡ record p { current = some d }
  unfolding commit_over same_blocks
  commit_over_self now d p =
      rw (test_self d.manifest_digest)
        (rw (test_self d.block_start) (rw (test_self d.block_end) refl))

  -- A commit of what is already assigned changes nothing.
  commit_decision_same :
      (now : F.Carrier) (d : PlacementDecision F) (p : Planner F)
      → p.current ≡ some d
      → commit_decision F now (some d) p ≡ p
  unfolding commit_decision
  commit_decision_same now d p h =
      ap (λ held. commit_over F now d held p) h
      ∙ commit_over_self now d p
      ∙ ap (λ held. record p { current = held }) (sym h)

  settle_held :
      (p : Planner F) (now at : F.Carrier) (best held fresh : PlacementDecision F)
      → is_held F p now at ≡ true
      → settle F p now best held fresh at ≡ held
  unfolding settle
  settle_held p now at best held fresh h = rw h refl

  choose_held :
      (p : Planner F) (now at : F.Carrier) (eligible : List (PlacementDecision F))
      (best held fresh : PlacementDecision F)
      → p.current ≡ some held
      → p.assigned_at ≡ some at
      → for_model F held.manifest_digest eligible ≡ some fresh
      → choose F p now eligible best p.current ≡ settle F p now best held fresh at
  unfolding choose settle_at
  choose_held p now at eligible best held fresh c a f =
      ap (choose F p now eligible best) c
      ∙ ap (settle_at F p now best held (for_model F held.manifest_digest eligible)) a
      ∙ ap (λ found. settle_at F p now best held found (some at)) f

  -- A proposal from a model that is still eligible.
  propose_from_held :
      (p : Planner F) (now at : F.Carrier) (n : ℕ) (eligible : List (PlacementDecision F))
      (held fresh : PlacementDecision F)
      → p.current ≡ some held
      → p.assigned_at ≡ some at
      → for_model F held.manifest_digest eligible ≡ some fresh
      → (best : PlacementDecision F) × ((propose_from F p now n eligible).decision
          ≡ some (settle F p now best held fresh at))
  unfolding propose_from for_model
  propose_from_held p now at n [] held fresh c a f = absurd cc
  propose_from_held p now at n (d ∷ ds) held fresh c a f =
      (best_of F d ds, ap some (choose_held p now at (d ∷ ds) (best_of F d ds) held fresh c a f))

  plan_admitted :
      (S : Scoring F) (cs : List (PlacementCandidate F)) (now : F.Carrier) (p : Planner F)
      → length cs ≤ 32
      → propose F S cs true now p ≡ propose_from F p now (length cs) (eligible_of F S p cs)
  unfolding propose
  plan_admitted S cs now p h = ground arith

  -- While residency or cooldown runs and the assigned model is still eligible, a plan over at most
  -- 32 candidates with sharing enabled decides for the assignment as it stands and changes nothing.
  pub plan_keeps :
      (S : Scoring F) (cs : List (PlacementCandidate F)) (now at : F.Carrier) (p : Planner F)
      (held fresh : PlacementDecision F)
      → length cs ≤ 32
      → p.current ≡ some held
      → p.assigned_at ≡ some at
      → for_model F held.manifest_digest (eligible_of F S p cs) ≡ some fresh
      → is_held F p now at ≡ true
      → ((plan F S cs true now p).0.decision ≡ some held) × ((plan F S cs true now p).1 ≡ p)
  unfolding plan commit
  plan_keeps S cs now at p held fresh few c a f h =
      (let kept = propose_from_held p now at (length cs) (eligible_of F S p cs) held fresh c a f in
        let decided : (propose F S cs true now p).decision ≡ some held =
          ap (λ q. q.decision) (plan_admitted S cs now p few)
          ∙ kept.1
          ∙ ap some (settle_held p now at kept.0 held fresh h) in
        (decided, ap (λ d. commit_decision F now d p) decided ∙ commit_decision_same now held p c))

  settle_cases :
      (p : Planner F) (now at : F.Carrier) (best held fresh : PlacementDecision F)
      → (settle F p now best held fresh at ≡ held)
        ⊎ ((settle F p now best held fresh at ≡ best)
            × (is_held F p now at ≡ false)
            × ((best.manifest_digest ≡ fresh.manifest_digest)
                ⊎ (F.lt best.score (F.add fresh.score p.switch_margin) ≡ false)))
  unfolding settle
  settle_cases p now at best held fresh = elim (Bool-cases (is_held F p now at)) [
    | inl runs ↦ inl (rw runs refl)
    | inr over ↦ elim (Bool-cases (best.manifest_digest == fresh.manifest_digest)) [
      | inl same ↦ inr (rw over (rw same refl), over, inl (ground arith))
      | inr other ↦ elim (Bool-cases (F.lt best.score (F.add fresh.score p.switch_margin))) [
        | inl less ↦ inl (rw over (rw other (rw less refl)))
        | inr more ↦ inr (rw over (rw other (rw more refl)), over, inr more)
      ]
    ]
  ]

  settle_moves :
      (p : Planner F) (now at : F.Carrier) (best held fresh d : PlacementDecision F)
      → fresh.manifest_digest ≡ held.manifest_digest
      → settle F p now best held fresh at ≡ d
      → d.manifest_digest ≢ held.manifest_digest
      → (is_held F p now at ≡ false) × (F.lt d.score (F.add fresh.score p.switch_margin) ≡ false)
  settle_moves p now at best held fresh d same e differs =
      elim (settle_cases p now at best held fresh) [
        | inl kept ↦ absurd (differs (ap (λ x. x.manifest_digest) (sym e ∙ kept)))
        | inr (moved, over, inl alike) ↦
            absurd (differs (ap (λ x. x.manifest_digest) (sym e ∙ moved) ∙ alike ∙ same))
        | inr (moved, over, inr more) ↦ (
          over,
          subst (λ x. F.lt x.score (F.add fresh.score p.switch_margin) ≡ false) (sym moved ∙ e)
              more,
        )
      ]

  for_model_digest :
      (digest : ℕ) (ds : List (PlacementDecision F)) (d : PlacementDecision F)
      → for_model F digest ds ≡ some d
      → d.manifest_digest ≡ digest
  unfolding for_model
  for_model_digest digest [] d h = absurd cc
  for_model_digest digest (e ∷ ds) d h = elim (Bool-cases (e.manifest_digest == digest)) [
    | inl runs ↦
        (let same : e ≡ d = ground arith in
          ap (λ x. x.manifest_digest) (sym same) ∙ (==_iff e.manifest_digest digest).0 runs)
    | inr over ↦ for_model_digest digest ds d (ground arith)
  ]

  -- If a plan over at most 32 candidates with sharing enabled decides for another model than the
  -- assigned one, and that one is still eligible, then its residency and cooldown are over and the
  -- other's score is not below its own by the margin.
  pub plan_moves :
      (S : Scoring F) (cs : List (PlacementCandidate F)) (now at : F.Carrier) (p : Planner F)
      (held fresh d : PlacementDecision F)
      → length cs ≤ 32
      → p.current ≡ some held
      → p.assigned_at ≡ some at
      → for_model F held.manifest_digest (eligible_of F S p cs) ≡ some fresh
      → (plan F S cs true now p).0.decision ≡ some d
      → d.manifest_digest ≢ held.manifest_digest
      → (is_held F p now at ≡ false) × (F.lt d.score (F.add fresh.score p.switch_margin) ≡ false)
  unfolding plan commit
  plan_moves S cs now at p held fresh d few c a f e differs =
      (let settled =
          propose_from_held p now at (length cs) (eligible_of F S p cs) held fresh c a f in
        let same : some (settle F p now settled.0 held fresh at) ≡ some d =
          sym settled.1 ∙ ap (λ q. q.decision) (sym (plan_admitted S cs now p few)) ∙ e in
        let decided : settle F p now settled.0 held fresh at ≡ d = cc in
        settle_moves p now at settled.0 held fresh d
          (for_model_digest held.manifest_digest (eligible_of F S p cs) fresh f) decided differs)
