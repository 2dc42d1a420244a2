-- ===== src/Placement/Sliding.antt =====
-- The deque and the sum that `_evaluate` in src/drift/node/contribution_planner.py carries from one
-- index to the next.
use community_ai.Prelude.{
  ℕ, suc, ◌≡◌, ◌≤◌, ◌<◌, ◌+◌, ◌-◌, ◌∷◌, leb, arith, refl, ap, inl, inr, Bool-cases, subst, leb→le,
  leb→gt,
}
use community_ai.Placement.Window.{Scan, pop_covered, drop_outgoing, slide}
use community_ai.Placement.Maxima.{
  sum_of, sum_of-snoc, Dominates, push-Dominates, drop_outgoing-Dominates,
}

module _ (count : ℕ → ℕ) (rank : ℕ → ℕ → ℕ) (num_blocks : ℕ) where
  pub record Slides (k : ℕ) (s : Scan) : Type 0 where
    pub deque : Dominates count (k - num_blocks) k s.maxima
    pub covered : s.window_sum ≡ sum_of count (k - num_blocks) (k - (k - num_blocks))

  -- One count in at the right end and one out at the left.
  sum_of-shift :
      (lo n : ℕ) → sum_of count lo n + count (lo + n) - count lo ≡ sum_of count (suc lo) n
  unfolding sum_of
  sum_of-shift lo n = omega (arith, sum_of-snoc count lo n)

  -- The window before and after an index that fills it, and while it is filling.
  full_window :
      (k : ℕ)
      → num_blocks ≤ k
      → sum_of count (k - num_blocks) (k - (k - num_blocks)) + count k - count (k - num_blocks)
        ≡ sum_of count (suc k - num_blocks) (suc k - (suc k - num_blocks))
  full_window k a =
      (let size : k - (k - num_blocks) ≡ num_blocks = omega arith in
        let right : k ≡ k - num_blocks + num_blocks = omega arith in
        let left : suc k - num_blocks ≡ suc (k - num_blocks) = omega arith in
        let size' : suc k - suc (k - num_blocks) ≡ num_blocks = omega arith in
        omega (
          arith,
          ap (sum_of count (k - num_blocks)) size,
          ap count right,
          ap (λ lo. sum_of count lo (suc k - lo)) left,
          ap (sum_of count (suc (k - num_blocks))) size',
          sum_of-shift (k - num_blocks) num_blocks,
        ))

  filling_window :
      (k : ℕ)
      → k < num_blocks
      → sum_of count (k - num_blocks) (k - (k - num_blocks)) + count k
        ≡ sum_of count (suc k - num_blocks) (suc k - (suc k - num_blocks))
  filling_window k a =
      (let before : k - num_blocks ≡ 0 = omega arith in
        let after : suc k - num_blocks ≡ 0 = omega arith in
        let right : 0 + k ≡ k = omega arith in
        let whole : k - 0 ≡ k = omega arith in
        let whole' : suc k - 0 ≡ suc k = omega arith in
        omega (
          arith,
          ap (sum_of count 0) whole,
          ap (sum_of count 0) whole',
          ap (λ lo. sum_of count lo (k - lo)) before,
          ap (λ lo. sum_of count lo (suc k - lo)) after,
          ap count right,
          sum_of-snoc count 0 k,
        ))

  -- The deque and the sum after one index.
  pub slide-Slides :
      (k : ℕ) (s : Scan) → Slides k s → Slides (suc k) (slide count rank num_blocks k s)
  unfolding slide
  slide-Slides k s inv =
      (let pushed = push-Dominates count (k - num_blocks) k s.maxima (omega arith) inv.deque in
        let grown = k ∷ pop_covered count (count k) s.maxima in
        elim (Bool-cases (leb num_blocks k)) [
          | inl full ↦
              (let left : suc (k - num_blocks) ≡ suc k - num_blocks = ground arith in
                rw full (record {
                  deque =
                      subst
                        (λ lo.
                          Dominates count lo (suc k) (drop_outgoing count (k - num_blocks) grown))
                        left (drop_outgoing-Dominates count (k - num_blocks) (suc k) grown pushed);
                  covered = omega (arith, inv.covered, full_window k (leb→le num_blocks k full));
                }))
          | inr filling ↦
              (let left : k - num_blocks ≡ suc k - num_blocks = ground arith in
                rw filling (record {
                  deque = subst (λ lo. Dominates count lo (suc k) grown) left pushed;
                  covered =
                      omega (arith, inv.covered, filling_window k (leb→gt num_blocks k filling));
                }))
        ])

  -- The best window is not looked at.
  pub slide_best :
      (k : ℕ) (s : Scan)
      → ((slide count rank num_blocks k s).best_key ≡ s.best_key)
        × ((slide count rank num_blocks k s).best_start ≡ s.best_start)
  unfolding slide
  slide_best k s = elim (Bool-cases (leb num_blocks k)) [
    | inl full ↦ rw full (refl, refl)
    | inr filling ↦ rw filling (refl, refl)
  ]
