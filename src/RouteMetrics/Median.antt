-- ===== src/RouteMetrics/Median.antt =====
-- The median and the maximum of `aggregate_route_observations` in src/drift/node/route_metrics.py.
use community_ai.Prelude.{
  ℕ, zero, suc, ◌≡◌, ◌≤◌, ◌<◌, ◌-◌, ◌/◌, List, [], ◌∷◌, leb, arith, refl, inl, inr, Bool-cases, All,
  length, get_elem?, leb→le, leb→gt, ap, ◌∙◌,
}
use community_ai.RouteMetrics.Aggregate.{insert_sorted, sorted, or_zero, median_low, maximum}

module _ {κ} (P : ℕ → Type κ) where
  All-insert_sorted : (a : ℕ) (xs : List ℕ) → P a → All P xs → All P (insert_sorted a xs)
  unfolding insert_sorted
  All-insert_sorted a [] p h = (p, tt)
  All-insert_sorted a (x ∷ xs) p h = elim (Bool-cases (leb a x)) [
    | inl low ↦ rw low (p, h)
    | inr high ↦ rw high (h.0, All-insert_sorted a xs p h.1)
  ]

  All-sorted : (xs : List ℕ) → All P xs → All P (sorted xs)
  unfolding sorted
  All-sorted [] h = tt
  All-sorted (x ∷ xs) h = All-insert_sorted x (sorted xs) h.0 (All-sorted xs h.1)

  All-get_elem : (xs : List ℕ) (i : ℕ) → All P xs → i < length xs → P (or_zero (get_elem? xs i))
  unfolding or_zero
  All-get_elem [] i h a = absurd (omega arith)
  All-get_elem (x ∷ xs) zero h a = h.0
  All-get_elem (x ∷ xs) (suc i) h a = All-get_elem xs i h.1 (omega arith)

length-insert_sorted : (a : ℕ) (xs : List ℕ) → length (insert_sorted a xs) ≡ suc (length xs)
unfolding insert_sorted
length-insert_sorted a [] = refl
length-insert_sorted a (x ∷ xs) = ground (arith, length-insert_sorted a xs)

length-sorted : (xs : List ℕ) → length (sorted xs) ≡ length xs
unfolding sorted
length-sorted [] = refl
length-sorted (x ∷ xs) = length-insert_sorted x (sorted xs) ∙ ap suc (length-sorted xs)

-- What holds of every value holds of the median.
pub All-median_low {κ} :
    (P : ℕ → Type κ) (xs : List ℕ) → 1 ≤ length xs → All P xs → P (median_low (sorted xs))
unfolding median_low
All-median_low P xs a h =
    All-get_elem P (sorted xs) ((length (sorted xs) - 1) / 2) (All-sorted P xs h)
      (omega (arith, length-sorted xs))

pub maximum_bound : (b : ℕ) (xs : List ℕ) → All (λ x. x ≤ b) xs → maximum xs ≤ b
unfolding maximum
maximum_bound b [] h = omega arith
maximum_bound b (x ∷ xs) h = ground (arith, maximum_bound b xs h.1, h.0)

-- Two lists of one length, the first below the second.
abbrev pub Below : List ℕ → List ℕ → Type 0
Below [] [] = Unit
Below (x ∷ xs) (y ∷ ys) = (x ≤ y) × Below xs ys
Below _ _ = ⊥

abbrev IsHead : ℕ → List ℕ → Type 0
IsHead x [] = Unit
IsHead x (y ∷ ys) = x ≤ y

abbrev IsSorted : List ℕ → Type 0
IsSorted [] = Unit
IsSorted (x ∷ xs) = IsHead x xs × IsSorted xs

IsHead-insert_sorted : (x a : ℕ) (xs : List ℕ) → x ≤ a → IsHead x xs → IsHead x (insert_sorted a xs)
unfolding insert_sorted
IsHead-insert_sorted x a [] p h = p
IsHead-insert_sorted x a (y ∷ ys) p h = elim (Bool-cases (leb a y)) [
  | inl low ↦ rw low p
  | inr high ↦ rw high h
]

insert_sorted-IsSorted : (a : ℕ) (xs : List ℕ) → IsSorted xs → IsSorted (insert_sorted a xs)
unfolding insert_sorted
insert_sorted-IsSorted a [] h = (tt, tt)
insert_sorted-IsSorted a (x ∷ xs) h = elim (Bool-cases (leb a x)) [
  | inl low ↦ rw low (leb→le a x low, h)
  | inr high ↦
      (let above : x ≤ a = ground arith in
        rw high (IsHead-insert_sorted x a xs above h.0, insert_sorted-IsSorted a xs h.1))
]

sorted-IsSorted : (xs : List ℕ) → IsSorted (sorted xs)
unfolding sorted
sorted-IsSorted [] = tt
sorted-IsSorted (x ∷ xs) = insert_sorted-IsSorted x (sorted xs) (sorted-IsSorted xs)

Below-insert_right :
    (x b : ℕ) (xs ys : List ℕ)
    → x ≤ b
    → IsSorted (x ∷ xs)
    → Below xs ys
    → Below (x ∷ xs) (insert_sorted b ys)
unfolding insert_sorted
Below-insert_right x b [] [] p s h = (p, tt)
Below-insert_right x b (z ∷ zs) (y ∷ ys) p s h = elim (Bool-cases (leb b y)) [
  | inl low ↦ rw low (p, h)
  | inr high ↦
      (let under : z ≤ b = omega (arith, h.0, leb→gt b y high) in
        rw high (omega (arith, s.0, h.0), Below-insert_right z b zs ys under s.1 h.1))
]
Below-insert_right x b [] (y ∷ ys) p s h = absurd h
Below-insert_right x b (z ∷ zs) [] p s h = absurd h

Below-insert_left :
    (a y : ℕ) (xs ys : List ℕ)
    → a ≤ y
    → IsSorted (y ∷ ys)
    → Below xs ys
    → Below (insert_sorted a xs) (y ∷ ys)
unfolding insert_sorted
Below-insert_left a y [] [] p s h = (p, tt)
Below-insert_left a y (x ∷ xs) (z ∷ zs) p s h = elim (Bool-cases (leb a x)) [
  | inl low ↦ rw low (p, h)
  | inr high ↦
      (let under : x ≤ y = omega (arith, leb→gt a x high) in
        rw high (under, Below-insert_left a z xs zs (omega (arith, s.0)) s.1 h.1))
]
Below-insert_left a y [] (z ∷ zs) p s h = absurd h
Below-insert_left a y (x ∷ xs) [] p s h = absurd h

Below-insert_sorted :
    (a b : ℕ) (xs ys : List ℕ)
    → a ≤ b
    → IsSorted xs
    → IsSorted ys
    → Below xs ys
    → Below (insert_sorted a xs) (insert_sorted b ys)
unfolding insert_sorted
Below-insert_sorted a b [] [] p s t h = (p, tt)
Below-insert_sorted a b (x ∷ xs) (y ∷ ys) p s t h = elim (Bool-cases (leb a x)) [
  | inl low ↦ elim (Bool-cases (leb b y)) [
    | inl low' ↦ rw low (rw low' (p, h))
    | inr high' ↦
        (let q : x ≤ b = omega (arith, h.0, leb→gt b y high') in
          let q' : a ≤ y = omega (arith, h.0, leb→le a x low) in
          rw low (rw high' (q', Below-insert_right x b xs ys q s h.1)))
  ]
  | inr high ↦ elim (Bool-cases (leb b y)) [
    | inl low' ↦
        (let q : x ≤ b = omega (arith, leb→gt a x high) in
          let q' : a ≤ y = omega (arith, leb→le b y low') in
          rw high (rw low' (q, Below-insert_left a y xs ys q' t h.1)))
    | inr high' ↦ rw high (rw high' (h.0, Below-insert_sorted a b xs ys p s.1 t.1 h.1))
  ]
]
Below-insert_sorted a b [] (y ∷ ys) p s t h = absurd h
Below-insert_sorted a b (x ∷ xs) [] p s t h = absurd h

Below-sorted : (xs ys : List ℕ) → Below xs ys → Below (sorted xs) (sorted ys)
unfolding sorted
Below-sorted [] [] h = tt
Below-sorted (x ∷ xs) (y ∷ ys) h =
    Below-insert_sorted x y (sorted xs) (sorted ys) h.0 (sorted-IsSorted xs) (sorted-IsSorted ys)
      (Below-sorted xs ys h.1)
Below-sorted [] (y ∷ ys) h = absurd h
Below-sorted (x ∷ xs) [] h = absurd h

Below-get_elem :
    (xs ys : List ℕ) (i : ℕ) → Below xs ys → or_zero (get_elem? xs i) ≤ or_zero (get_elem? ys i)
unfolding or_zero
Below-get_elem [] [] i h = omega arith
Below-get_elem (x ∷ xs) (y ∷ ys) zero h = h.0
Below-get_elem (x ∷ xs) (y ∷ ys) (suc i) h = Below-get_elem xs ys i h.1
Below-get_elem [] (y ∷ ys) i h = absurd h
Below-get_elem (x ∷ xs) [] i h = absurd h

length-Below : (xs ys : List ℕ) → Below xs ys → length xs ≡ length ys
length-Below [] [] h = refl
length-Below (x ∷ xs) (y ∷ ys) h = ap suc (length-Below xs ys h.1)
length-Below [] (y ∷ ys) h = absurd h
length-Below (x ∷ xs) [] h = absurd h

-- The median keeps an order that holds element by element.
pub median_low_mono :
    (xs ys : List ℕ) → Below xs ys → median_low (sorted xs) ≤ median_low (sorted ys)
unfolding median_low
median_low_mono xs ys h =
    (let b = Below-sorted xs ys h in
      let same = length-Below (sorted xs) (sorted ys) b in
      let r = Below-get_elem (sorted xs) (sorted ys) ((length (sorted xs) - 1) / 2) b in
      omega (arith, r, ap (λ n. or_zero (get_elem? (sorted ys) ((n - 1) / 2))) same))
