-- ===== src/Sequential/Gradients.antt =====
-- What a backward pass of src/drift/client/sequential_autograd.py has in hand and what it returns.
use community_ai.Prelude.{
  ℕ, zero, suc, ◌≡◌, ◌≤◌, ◌<◌, ◌+◌, ◌-◌, List, [], ◌∷◌, arith, refl, sym, ap, subst, ◌∙◌, Float,
}
use community_ai.Routing.Spans.{RemoteSpanInfo}
use community_ai.Sequential.Backward.{
  extend, BackwardOutcome, gradient, backward_raised, backward_unfinished,
}
use community_ai.Sequential.Trace.{through, through_between, IsTrace}

module _ {T : Type 0} {G : Type 0} (blocks : ℕ → T → T) (back : ℕ → T → G → G) where
  -- The gradient before `count` blocks from `block` on, of the value before and the gradient after.
  abbrev pub back_through : ℕ → ℕ → T → G → G
  back_through zero block x g = g
  back_through (suc count) block x g =
      back block x (back_through count (suc block) (blocks block x) g)

  back_through_add :
      (m n block : ℕ) (x : T) (g : G)
      → back_through (m + n) block x g
        ≡ back_through m block x (back_through n (block + m) (through blocks m block x) g)
  back_through_add zero n block x g =
      (let none_first : 0 + n ≡ n = omega arith in
        let here : block ≡ block + 0 = omega arith in
        ap (λ k. back_through k block x g) none_first ∙ ap (λ b. back_through n b x g) here)
  back_through_add (suc m) n block x g =
      (let one_first : suc m + n ≡ suc (m + n) = omega arith in
        let later : suc block + m ≡ block + suc m = omega arith in
        let y = blocks block x in
        ap (λ k. back_through k block x g) one_first
        ∙ ap (back block x) (
            back_through_add m n (suc block) y g
            ∙ ap
                (λ b.
                  back_through m (suc block) y
                    (back_through n b (through blocks m (suc block) y) g))
                later))

  pub back_between :
      (a b c : ℕ) (x : T) (g : G)
      → a ≤ b
      → b ≤ c
      → back_through (c - a) a x g
        ≡ back_through (b - a) a x (back_through (c - b) b (through blocks (b - a) a x) g)
  back_between a b c x g p q =
      (let whole_way : (b - a) + (c - b) ≡ c - a = omega arith in
        let middle : a + (b - a) ≡ b = omega arith in
        ap (λ n. back_through n a x g) (sym whole_way)
        ∙ (back_through_add (b - a) (c - b) a x g
            ∙ ap
                (λ n.
                  back_through (b - a) a x (back_through (c - b) n (through blocks (b - a) a x) g))
                middle))

module _ (F : Float) {T : Type 0} {G : Type 0} (blocks : ℕ → T → T) (back : ℕ → T → G → G) (x : T)
    (start end : ℕ) (g₀ : G) where
  -- Spans on a stack from `current` down to the start, with their inputs.
  abbrev pub IsStack : ℕ → List (RemoteSpanInfo F) → List T → Type 0
  IsStack current [] [] = current ≡ start
  IsStack current (s ∷ ss) (y ∷ ys) =
      (s.end ≡ current)
      × (s.start < s.end)
      × (start ≤ s.start)
      × (y ≡ through blocks (s.start - start) start x)
      × IsStack s.start ss ys
  IsStack current _ _ = ⊥

  -- The gradient of the loss before a block.
  abbrev pub IsGradient : ℕ → G → Type 0
  IsGradient current g =
      g
      ≡ back_through blocks back (end - current) current (through blocks (current - start) start x)
          g₀

  abbrev pub IsReversed : BackwardOutcome F T G → Type 0
  IsReversed (gradient g) = g ≡ back_through blocks back (end - start) start x g₀
  IsReversed backward_raised = Unit
  IsReversed backward_unfinished = ⊥

  -- The spans of a forward pass on top of a stack.
  pub extend-IsStack :
      (from : T) (origin current top : ℕ) (ss below : List (RemoteSpanInfo F)) (ys lower : List T)
      → start ≤ origin
      → origin ≤ current
      → from ≡ through blocks (origin - start) start x
      → IsStack current below lower
      → IsTrace F blocks from origin current top ss ys
      → IsStack top (extend below ss) (extend lower ys)
  unfolding extend
  extend-IsStack from origin current top [] below [] lower a b v k t =
      subst (λ c. IsStack c below lower) t k
  extend-IsStack from origin current top [] below (y ∷ ys) lower a b v k t = absurd t
  extend-IsStack from origin current top (s ∷ ss) below [] lower a b v k t = absurd t
  extend-IsStack from origin current top (s ∷ ss) below (y ∷ ys) lower a b v k t =
      (let value =
          t.2
          ∙ (ap (through blocks (current - origin) origin) v
              ∙ (through_between blocks start origin current x a b
                  ∙ ap (λ c. through blocks (c - start) start x) (sym t.0))) in
        extend-IsStack from origin s.end top ss (s ∷ below) ys (y ∷ lower) a (omega (arith, b, t.1))
          v
          (
            refl,
            omega (arith, t.0, t.1),
            omega (arith, a, b, t.0),
            value,
            subst (λ c. IsStack c below lower) (sym t.0) k,
          )
          t.3)
