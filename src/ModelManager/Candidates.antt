-- ===== src/ModelManager/Candidates.antt =====
-- The candidates for eviction of src/drift/node/model_manager.py.
use community_ai.Prelude.{
  ℕ, ◌≡◌, inl, inr, Option, none, some, List, [], ◌∷◌, ◌==◌, ==_iff, if_true, if_false, lookup,
  Distinct, IsFresh, lookup-IsFresh, Bool-cases, arith, refl, sym, subst, ◌∙◌,
}
use community_ai.ModelManager.Residency.{ModelRecord, is_idle, used_before, earlier, candidate}

-- A candidate for eviction is a record that no lease holds.
abbrev pub IsUnused : List (ℕ × ModelRecord) → Option (ℕ × ModelRecord) → Type 0
IsUnused records none = Unit
IsUnused records (some (c, q)) = (q.active_requests ≡ 0) × (lookup c records ≡ some q)

IsUnused-cons :
    (m : ℕ) (r : ModelRecord) (records : List (ℕ × ModelRecord)) (o : Option (ℕ × ModelRecord))
    → IsFresh m records
    → IsUnused records o
    → IsUnused ((m, r) ∷ records) o
IsUnused-cons m r records none f h = tt
IsUnused-cons m r records (some (c, q)) f h = elim (Bool-cases (m == c)) [
  | inl same ↦
      (let gone = lookup-IsFresh m records f in
        let there = subst (λ x. lookup x records ≡ some q) (sym ((==_iff m c).0 same)) h.1 in
        absurd (not_both (lookup m records) gone there))
  | inr other ↦ (h.0, if_false _ _ other ∙ h.1)
]
  where
    not_both : (o : Option ModelRecord) → o ≡ none → o ≡ some q → ⊥
    not_both o a b = absurd cc

earlier-IsUnused :
    (records : List (ℕ × ModelRecord)) (m : ℕ) (r : ModelRecord) (o : Option (ℕ × ModelRecord))
    → IsUnused records (some (m, r))
    → IsUnused records o
    → IsUnused records (earlier m r o)
unfolding earlier
earlier-IsUnused records m r none a h = a
earlier-IsUnused records m r (some (n, q)) a h =
    elim (Bool-cases (used_before q.last_used_at n r.last_used_at m)) [
      | inl first ↦ rw first h
      | inr later ↦ rw later a
    ]

pub candidate-IsUnused :
    (target : ℕ) (records : List (ℕ × ModelRecord))
    → Distinct records
    → IsUnused records (candidate target records)
unfolding candidate is_idle
candidate-IsUnused target [] d = tt
candidate-IsUnused target ((m, r) ∷ records) d =
    (let rest =
        IsUnused-cons m r records (candidate target records) d.0
          (candidate-IsUnused target records d.1) in
      elim (Bool-cases (is_idle target m r)) [
        | inl idle ↦ rw idle (
            earlier-IsUnused ((m, r) ∷ records) m r (candidate target records)
              (ground arith, if_true _ _ ((==_iff m m).1 refl)) rest)
        | inr busy ↦ rw busy rest
      ])
