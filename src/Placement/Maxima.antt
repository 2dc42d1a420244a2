-- ===== src/Placement/Maxima.antt =====
-- The deque of `_evaluate` in src/drift/node/contribution_planner.py: which counts its indices
-- dominate.
use community_ai.Prelude.{
  ℕ, zero, suc, ◌≡◌, ◌≢◌, ◌≤◌, ◌<◌, ◌+◌, List, [], ◌∷◌, leb, ltb, ◌==◌, if◌then◌else◌, arith, refl,
  ap, inl, inr, Bool-cases, leb→gt, ==_iff,
}
use community_ai.Placement.Window.{pop_covered, front, pop_left, drop_outgoing}

module _ (count : ℕ → ℕ) where
  -- A count that every count of `n` indices from `lo` on stays under, and their sum.
  unfoldable pub peak_of : ℕ → ℕ → ℕ
  peak_of lo zero = 0
  peak_of lo (suc n) =
      let rest = peak_of (suc lo) n in if ltb rest (count lo) then count lo else rest

  unfoldable pub sum_of : ℕ → ℕ → ℕ
  sum_of lo zero = 0
  sum_of lo (suc n) = count lo + sum_of (suc lo) n

  pub sum_of-snoc : (lo n : ℕ) → sum_of lo n + count (lo + n) ≡ sum_of lo (suc n)
  unfolding sum_of
  sum_of-snoc lo zero = (let same : lo + 0 ≡ lo = omega arith in omega (arith, ap count same))
  sum_of-snoc lo (suc n) =
      (let same : lo + suc n ≡ suc lo + n = omega arith in
        omega (arith, ap count same, sum_of-snoc (suc lo) n))

  peak_of_bound : (m lo n : ℕ) → ((j : ℕ) → lo ≤ j → j < lo + n → count j ≤ m) → peak_of lo n ≤ m
  unfolding peak_of
  peak_of_bound m lo zero h = omega arith
  peak_of_bound m lo (suc n) h = ground (
    arith,
    h lo (omega arith) (omega arith),
    peak_of_bound m (suc lo) n (λ j a b. h j (omega arith) (omega arith)),
  )

  le-peak_of : (lo n j : ℕ) → lo ≤ j → j < lo + n → count j ≤ peak_of lo n
  unfolding peak_of
  le-peak_of lo zero j a b = omega arith
  le-peak_of lo (suc n) j a b = elim (Bool-cases (j == lo)) [
    | inl same ↦ (let e : count j ≡ count lo = ap count ((==_iff j lo).0 same) in ground (arith, e))
    | inr other ↦
        (let later : suc lo ≤ j = ground arith in
          ground (arith, le-peak_of (suc lo) n j later (omega arith)))
  ]

  abbrev Above : ℕ → List ℕ → Type 0
  Above c [] = Unit {0}
  Above c (i ∷ is) = c < count i

  -- No count of `a` up to `b` is over `c`.
  abbrev Under : ℕ → ℕ → ℕ → Type 0
  Under a b c = (j : ℕ) → a ≤ j → j < b → count j ≤ c

  -- Each index of the deque dominates those since the one before it, and the counts fall.
  abbrev pub Dominates : ℕ → ℕ → List ℕ → Type 0
  Dominates lo h [] = h ≤ lo
  Dominates lo h (i ∷ is) =
      (p : ℕ) × (suc i ≡ h)
      × (lo ≤ i)
      × (p ≤ i)
      × Under p h (count i)
      × Above (count i) is
      × Dominates lo p is

  pop_covered-Dominates :
      (lo h c p : ℕ) (is : List ℕ)
      → Dominates lo p is
      → p ≤ h
      → Under p h c
      → (q : ℕ) × (q ≤ h)
        × Under q h c
        × Above c (pop_covered count c is)
        × Dominates lo q (pop_covered count c is)
  unfolding pop_covered
  pop_covered-Dominates lo h c p [] d a u = (p, a, u, tt, d)
  pop_covered-Dominates lo h c p (i ∷ is) (q, last, low, first, under, falls, d) a u =
      elim (Bool-cases (leb (count i) c)) [
        | inl covered ↦ rw covered (
            pop_covered-Dominates lo h c q is d (omega arith) (λ j x y.
              elim (Bool-cases (ltb j p)) [
                | inl inside ↦
                    (let z : count j ≤ count i = under j x (ground arith) in ground arith)
                | inr outside ↦ u j (ground arith) y
              ]))
        | inr over ↦
            rw over (p, a, u, leb→gt (count i) c over, (q, last, low, first, under, falls, d))
      ]

  Under-snoc : (a h : ℕ) → Under a h (count h) → Under a (suc h) (count h)
  Under-snoc a h u j x y = elim (Bool-cases (j == h)) [
    | inl same ↦ (let e : count j ≡ count h = ap count ((==_iff j h).0 same) in omega (arith, e))
    | inr other ↦ u j x (ground arith)
  ]

  pub push-Dominates :
      (lo h : ℕ) (is : List ℕ)
      → lo ≤ h
      → Dominates lo h is
      → Dominates lo (suc h) (h ∷ pop_covered count (count h) is)
  push-Dominates lo h is a d =
      (let r = pop_covered-Dominates lo h (count h) h is d (omega arith) (λ j x y. omega arith) in
        (r.0, refl, a, r.1, Under-snoc r.0 h r.2, r.3, r.4))

  front_lem :
      (lo h : ℕ) (is : List ℕ)
      → Dominates lo h is
      → lo < h
      → Under lo h (count (front count is)) × (lo ≤ front count is) × (front count is < h)
  unfolding front
  front_lem lo h [] d a = absurd (omega arith)
  front_lem lo h (i ∷ []) (p, last, low, first, under, falls, d) a =
      (λ j x y. under j (omega arith) y, low, omega arith)
  front_lem lo h (i ∷ k ∷ ks) (p, last, low, first, under, falls, d) a =
      (let r = front_lem lo p (k ∷ ks) d (omega (arith, d.1, d.2)) in
        (
          λ j x y. elim (Bool-cases (ltb j p)) [
            | inl inside ↦ r.0 j x (ground arith)
            | inr outside ↦
                (let low_j : count j ≤ count i = under j (ground arith) y in
                  let top : count k ≤ count (front count (k ∷ ks)) =
                    r.0 k d.2 (omega (arith, d.1)) in
                  omega arith)
          ],
          r.1,
          omega (arith, r.2),
        ))

  Above-pop_left : (c : ℕ) (is : List ℕ) → Above c is → Above c (pop_left count is)
  unfolding pop_left
  Above-pop_left c [] h = tt
  Above-pop_left c (i ∷ []) h = tt
  Above-pop_left c (i ∷ j ∷ is) h = h

  pop_left-Dominates :
      (lo h : ℕ) (is : List ℕ)
      → Dominates lo h is
      → front count is ≡ lo
      → Dominates (suc lo) h (pop_left count is)
  unfolding pop_left front
  pop_left-Dominates lo h [] d e = omega arith
  pop_left-Dominates lo h (i ∷ []) d e = omega (arith, d.1)
  pop_left-Dominates lo h (i ∷ k ∷ ks) (p, last, low, first, under, falls, d) e = (
    p,
    last,
    omega (arith, d.1, d.2),
    first,
    under,
    Above-pop_left (count i) (k ∷ ks) falls,
    pop_left-Dominates lo p (k ∷ ks) d e,
  )

  keep-Dominates :
      (lo h : ℕ) (is : List ℕ) → Dominates lo h is → front count is ≢ lo → Dominates (suc lo) h is
  unfolding front
  keep-Dominates lo h [] d e = omega arith
  keep-Dominates lo h (i ∷ []) (p, last, low, first, under, falls, d) e =
      (p, last, omega arith, first, under, falls, omega arith)
  keep-Dominates lo h (i ∷ k ∷ ks) (p, last, low, first, under, falls, d) e =
      (p, last, omega (arith, d.1, d.2), first, under, falls, keep-Dominates lo p (k ∷ ks) d e)

  pub drop_outgoing-Dominates :
      (lo h : ℕ) (is : List ℕ)
      → Dominates lo h is
      → Dominates (suc lo) h (drop_outgoing count lo is)
  unfolding drop_outgoing
  drop_outgoing-Dominates lo h is d = elim (Bool-cases (front count is == lo)) [
    | inl same ↦ rw same (pop_left-Dominates lo h is d ((==_iff (front count is) lo).0 same))
    | inr other ↦ rw other (keep-Dominates lo h is d (ground arith))
  ]

  -- The front of the deque has the largest count of the window.
  pub front-peak_of :
      (lo n : ℕ) (is : List ℕ)
      → 1 ≤ n
      → Dominates lo (lo + n) is
      → count (front count is) ≡ peak_of lo n
  front-peak_of lo n is a d =
      (let r = front_lem lo (lo + n) is d (omega arith) in
        omega (
          arith,
          peak_of_bound (count (front count is)) lo n r.0,
          le-peak_of lo n (front count is) r.1 r.2,
        ))
