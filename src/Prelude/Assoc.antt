-- ===== src/Prelude/Assoc.antt =====
-- Python's `dict` with keys read as numbers: an association list in insertion order. A new key goes
-- to the end, and a write to a present key keeps its place, as `dict` does.
use Prim.Native.Nat.{ℕ, ◌+◌, ◌≤◌}
use mathlib.Core.Path.{◌≡◌, refl, subst}
use mathlib.Core.Logic.{◌≢◌, inl, inr}
use mathlib.Core.List.{List, [], ◌∷◌}
use mathlib.Core.Option.{Option, none, some}
use native.Mathlib.Omega.{arith}
use community_ai.Prelude.Tests.{if◌then◌else◌, ◌==◌, Bool-cases}
use community_ai.Prelude.Lists.{length}

module _ {ℓ} {V : Type ℓ} where
  -- d.get(k)
  abbrev pub lookup : ℕ → List (ℕ × V) → Option V
  lookup k [] = none
  lookup k ((j, v) ∷ m) = if j == k then some v else lookup k m

  -- d[k] = v
  abbrev pub put : ℕ → V → List (ℕ × V) → List (ℕ × V)
  put k v [] = (k, v) ∷ []
  put k v ((j, w) ∷ m) = if j == k then (j, v) ∷ m else (j, w) ∷ put k v m

  -- d.pop(k, None)
  abbrev pub remove : ℕ → List (ℕ × V) → List (ℕ × V)
  remove k [] = []
  remove k ((j, v) ∷ m) = if j == k then m else (j, v) ∷ remove k m

  -- The sum of a measure over the values.
  abbrev pub total : (V → ℕ) → List (ℕ × V) → ℕ
  total f [] = 0
  total f ((j, v) ∷ m) = f v + total f m

  -- A predicate of every value.
  abbrev pub Every {κ} : (V → Type κ) → List (ℕ × V) → Type κ
  Every P [] = Unit
  Every P ((j, v) ∷ m) = P v × Every P m

  abbrev pub IsFresh : ℕ → List (ℕ × V) → Type 0
  IsFresh k [] = Unit {0}
  IsFresh k ((j, v) ∷ m) = (j ≢ k) × IsFresh k m

  -- Every key stands once, as in a `dict`.
  abbrev pub Distinct : List (ℕ × V) → Type 0
  Distinct [] = Unit {0}
  Distinct ((j, v) ∷ m) = IsFresh j m × Distinct m

  pub lookup-IsFresh : (k : ℕ) (m : List (ℕ × V)) → IsFresh k m → lookup k m ≡ none
  lookup-IsFresh k [] h = refl
  lookup-IsFresh k ((j, v) ∷ m) h = ground (arith, lookup-IsFresh k m h.1)

  pub IsFresh-of_lookup : (k : ℕ) (m : List (ℕ × V)) → lookup k m ≡ none → IsFresh k m
  IsFresh-of_lookup k [] h = tt
  IsFresh-of_lookup k ((j, v) ∷ m) h = (ground arith, IsFresh-of_lookup k m (ground arith))

  pub lookup-put :
      (k j : ℕ) (v : V) (m : List (ℕ × V))
      → lookup j (put k v m) ≡ (if k == j then some v else lookup j m)
  lookup-put k j v [] = refl
  lookup-put k j v ((i, w) ∷ m) = ground (arith, lookup-put k j v m)

  pub lookup-remove_ne : (k j : ℕ) (m : List (ℕ × V)) → k ≢ j → lookup j (remove k m) ≡ lookup j m
  lookup-remove_ne k j [] h = refl
  lookup-remove_ne k j ((i, w) ∷ m) h = ground (arith, lookup-remove_ne k j m)

  pub lookup-remove_self : (k : ℕ) (m : List (ℕ × V)) → Distinct m → lookup k (remove k m) ≡ none
  lookup-remove_self k [] h = refl
  lookup-remove_self k ((i, w) ∷ m) h =
      ground (arith, lookup-remove_self k m h.1, lookup-IsFresh i m h.0)

  pub IsFresh-put :
      (i k : ℕ) (v : V) (m : List (ℕ × V)) → k ≢ i → IsFresh i m → IsFresh i (put k v m)
  IsFresh-put i k v [] h f = (h, tt)
  IsFresh-put i k v ((j, w) ∷ m) h f = ground (arith, IsFresh-put i k v m h f.1)

  pub IsFresh-remove : (i k : ℕ) (m : List (ℕ × V)) → IsFresh i m → IsFresh i (remove k m)
  IsFresh-remove i k [] f = tt
  IsFresh-remove i k ((j, w) ∷ m) f = ground (arith, IsFresh-remove i k m f.1)

  pub Distinct-put : (k : ℕ) (v : V) (m : List (ℕ × V)) → Distinct m → Distinct (put k v m)
  Distinct-put k v [] d = (tt, tt)
  Distinct-put k v ((j, w) ∷ m) d = ground (arith, Distinct-put k v m d.1, IsFresh-put j k v m)

  pub Distinct-remove : (k : ℕ) (m : List (ℕ × V)) → Distinct m → Distinct (remove k m)
  Distinct-remove k [] d = tt
  Distinct-remove k ((j, w) ∷ m) d =
      ground (arith, Distinct-remove k m d.1, IsFresh-remove j k m d.0)

  pub length-put_new :
      (k : ℕ) (v : V) (m : List (ℕ × V)) → lookup k m ≡ none → length (put k v m) ≡ length m + 1
  length-put_new k v [] h = omega arith
  length-put_new k v ((j, w) ∷ m) h = ground (arith, length-put_new k v m)

  pub length-put_old :
      (k : ℕ) (v w : V) (m : List (ℕ × V)) → lookup k m ≡ some w → length (put k v m) ≡ length m
  length-put_old k v w [] h = cc
  length-put_old k v w ((j, u) ∷ m) h = ground (arith, length-put_old k v w m)

  pub length-remove_old :
      (k : ℕ) (w : V) (m : List (ℕ × V)) → lookup k m ≡ some w → length (remove k m) + 1 ≡ length m
  length-remove_old k w [] h = cc
  length-remove_old k w ((j, u) ∷ m) h = ground (arith, length-remove_old k w m)

  pub length-remove-le : (k : ℕ) (m : List (ℕ × V)) → length (remove k m) ≤ length m
  length-remove-le k [] = omega arith
  length-remove-le k ((j, u) ∷ m) = ground (arith, length-remove-le k m)

  pub total-put_new :
      (f : V → ℕ) (k : ℕ) (v : V) (m : List (ℕ × V))
      → lookup k m ≡ none
      → total f (put k v m) ≡ total f m + f v
  total-put_new f k v [] h = omega arith
  total-put_new f k v ((j, w) ∷ m) h = ground (arith, total-put_new f k v m)

  pub total-put_old :
      (f : V → ℕ) (k : ℕ) (v w : V) (m : List (ℕ × V))
      → lookup k m ≡ some w
      → total f (put k v m) + f w ≡ total f m + f v
  total-put_old f k v w [] h = cc
  total-put_old f k v w ((j, u) ∷ m) h = ground (arith, total-put_old f k v w m)

  pub total-remove_old :
      (f : V → ℕ) (k : ℕ) (w : V) (m : List (ℕ × V))
      → lookup k m ≡ some w
      → total f (remove k m) + f w ≡ total f m
  total-remove_old f k w [] h = cc
  total-remove_old f k w ((j, u) ∷ m) h = ground (arith, total-remove_old f k w m)

  pub le-total_of_lookup :
      (f : V → ℕ) (k : ℕ) (w : V) (m : List (ℕ × V)) → lookup k m ≡ some w → f w ≤ total f m
  le-total_of_lookup f k w [] h = cc
  le-total_of_lookup f k w ((j, u) ∷ m) h = ground (arith, le-total_of_lookup f k w m)

  pub Every-put {κ} :
      (P : V → Type κ) (k : ℕ) (v : V) (m : List (ℕ × V)) → P v → Every P m → Every P (put k v m)
  Every-put P k v [] p h = (p, tt)
  Every-put P k v ((j, w) ∷ m) p h = elim (Bool-cases (j == k)) [
    | inl same ↦ rw same (p, h.1)
    | inr other ↦ rw other (h.0, Every-put P k v m p h.1)
  ]

  pub Every-remove {κ} :
      (P : V → Type κ) (k : ℕ) (m : List (ℕ × V)) → Every P m → Every P (remove k m)
  Every-remove P k [] h = tt
  Every-remove P k ((j, w) ∷ m) h = elim (Bool-cases (j == k)) [
    | inl same ↦ rw same h.1
    | inr other ↦ rw other (h.0, Every-remove P k m h.1)
  ]

  pub Every-lookup {κ} :
      (P : V → Type κ) (k : ℕ) (w : V) (m : List (ℕ × V)) → Every P m → lookup k m ≡ some w → P w
  Every-lookup P k w [] h e = absurd (cc)
  Every-lookup P k w ((j, u) ∷ m) h e = elim (Bool-cases (j == k)) [
    | inl same ↦ (let e' : u ≡ w = ground arith in subst P e' h.0)
    | inr other ↦ Every-lookup P k w m h.1 (ground arith)
  ]

  -- The measure of the value at a key, 0 if there is none.
  abbrev pub at_key : (V → ℕ) → ℕ → List (ℕ × V) → ℕ
  at_key f k m = elim (lookup k m) [ none ↦ 0 | some v ↦ f v ]

  pub total-remove :
      (f : V → ℕ) (k : ℕ) (m : List (ℕ × V)) → total f (remove k m) + at_key f k m ≡ total f m
  total-remove f k [] = omega arith
  total-remove f k ((j, u) ∷ m) = ground (arith, total-remove f k m)

  pub at_key-remove :
      (f : V → ℕ) (k j : ℕ) (m : List (ℕ × V)) → Distinct m → at_key f j (remove k m) ≤ at_key f j m
  at_key-remove f k j m d = elim (Bool-cases (k == j)) [
    | inl same ↦ ground (arith, lookup-remove_self k m d)
    | inr other ↦ ground (arith, lookup-remove_ne k j m)
  ]

  pub remove-put_new :
      (k : ℕ) (v : V) (m : List (ℕ × V)) → lookup k m ≡ none → remove k (put k v m) ≡ m
  remove-put_new k v [] h = ground arith
  remove-put_new k v ((j, u) ∷ m) h = ground (arith, remove-put_new k v m)

  pub lookup-put_self : (k : ℕ) (v : V) (m : List (ℕ × V)) → lookup k (put k v m) ≡ some v
  lookup-put_self k v m = ground (arith, lookup-put k k v m)
