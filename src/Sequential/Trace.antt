-- ===== src/Sequential/Trace.antt =====
-- What a forward pass of src/drift/client/sequential_autograd.py returns: the value after all blocks,
-- and the spans and inputs it went through.
use Prim.Native.Nat.{min}
use native.Mathlib.Nat.{mul-le-mul_right}
use community_ai.Prelude.{
  ℕ, zero, suc, ◌≡◌, ◌≤◌, ◌<◌, ◌+◌, ◌-◌, ◌*◌, ◌⊎◌, inl, inr, false, some, List, [], ◌∷◌, ◌++◌, ◌==◌,
  arith, refl, sym, ap, ◌∙◌, Bool-cases, Float,
}
use community_ai.Routing.Spans.{RemoteSpanInfo}
use community_ai.Routing.Coverage.{Covers}
use community_ai.Sequential.Forward.{
  Forward, Tried, continues, raises, Outcome, returned, raised, unfinished, clip_last, needs_route,
  on_exception, complete,
}

-- The value after `count` blocks from `block` on.
abbrev pub through : {T : Type 0} → (ℕ → T → T) → ℕ → ℕ → T → T
through blocks zero block x = x
through blocks (suc count) block x = through blocks count (suc block) (blocks block x)

through_add :
    {T : Type 0} (blocks : ℕ → T → T) (m n block : ℕ) (x : T)
    → through blocks (m + n) block x ≡ through blocks n (block + m) (through blocks m block x)
through_add blocks zero n block x =
    (let none_first : 0 + n ≡ n = omega arith in
      let here : block ≡ block + 0 = omega arith in
      ap (λ k. through blocks k block x) none_first ∙ ap (λ b. through blocks n b x) here)
through_add blocks (suc m) n block x =
    (let one_first : suc m + n ≡ suc (m + n) = omega arith in
      let later : suc block + m ≡ block + suc m = omega arith in
      ap (λ k. through blocks k block x) one_first
      ∙ (through_add blocks m n (suc block) (blocks block x)
          ∙ ap (λ b. through blocks n b (through blocks m (suc block) (blocks block x))) later))

pub through_between :
    {T : Type 0} (blocks : ℕ → T → T) (a b c : ℕ) (x : T)
    → a ≤ b
    → b ≤ c
    → through blocks (c - b) b (through blocks (b - a) a x) ≡ through blocks (c - a) a x
through_between blocks a b c x p q =
    (let whole_way : (b - a) + (c - b) ≡ c - a = omega arith in
      let middle : a + (b - a) ≡ b = omega arith in
      sym (
        ap (λ n. through blocks n a x) (sym whole_way)
        ∙ through_add blocks (b - a) (c - b) a x
        ∙ ap (λ n. through blocks (c - b) n (through blocks (b - a) a x)) middle))

-- One more span takes the place of `r` attempts.
pub budget_step : (r left left' : ℕ) → left' < left → left' * r + r ≤ left * r
budget_step r left left' p =
    (let e : suc left' * r ≤ left * r = mul-le-mul_right r p in omega (arith, e))

module _ (F : Float) where
  -- Hops that follow each other from `current` to just `end`, none of them empty.
  abbrev pub Exactly : ℕ → ℕ → List (RemoteSpanInfo F) → Type 0
  Exactly current end [] = current ≡ end
  Exactly current end (h ∷ hs) = (h.start ≡ current) × (h.start < h.end) × Exactly h.end end hs

  pub Exactly-le :
      (current end : ℕ) (hs : List (RemoteSpanInfo F)) → Exactly current end hs → current ≤ end
  Exactly-le current end [] h = omega (arith, h)
  Exactly-le current end (g ∷ gs) h =
      (let rest = Exactly-le g.end end gs h.2 in omega (arith, h.0, h.1))

  pub clip_last-Exactly :
      (current end : ℕ) (hs : List (RemoteSpanInfo F))
      → current < end
      → Covers F current end hs
      → Exactly current end (clip_last F end hs)
  unfolding clip_last
  clip_last-Exactly current end [] p c = absurd (omega (arith, p, c))
  clip_last-Exactly current end (h ∷ []) p c =
      (let cut : min h.end end ≡ end = omega (arith, c.3) in (c.0, omega (arith, c.0, cut, p), cut))
  clip_last-Exactly current end (h ∷ g ∷ gs) p c = (
    c.0,
    omega (arith, c.0, c.2),
    clip_last-Exactly h.end end (g ∷ gs) (omega (arith, c.3.1)) c.3,
  )

  pub kept-Exactly :
      (current end : ℕ) (ss : List (RemoteSpanInfo F)) (n : ℕ)
      → needs_route F ss n ≡ false
      → (n ≡ 0 → (ss ≡ []) ⊎ Exactly current end ss)
      → Exactly current end ss
  unfolding needs_route
  kept-Exactly current end [] n e ready = absurd cc
  kept-Exactly current end (s ∷ ss) zero e ready = elim (ready refl) [
    | inl empty ↦ absurd cc
    | inr exact ↦ exact
  ]
  kept-Exactly current end (s ∷ ss) (suc n) e ready = absurd (ground arith)

  module _ {T : Type 0} (blocks : ℕ → T → T) (x : T) (start : ℕ) where
    -- Spans that follow each other from `current` to `end`, with what each was given.
    abbrev pub IsTrace : ℕ → ℕ → List (RemoteSpanInfo F) → List T → Type 0
    IsTrace current end [] [] = current ≡ end
    IsTrace current end (s ∷ ss) (y ∷ ys) =
        (s.start ≡ current)
        × (current < s.end)
        × (y ≡ through blocks (current - start) start x)
        × IsTrace s.end end ss ys
    IsTrace current end _ _ = ⊥

    IsTrace-append :
        (current end : ℕ) (ss : List (RemoteSpanInfo F)) (ys : List T) (s : RemoteSpanInfo F)
        (y : T)
        → IsTrace current end ss ys
        → s.start ≡ end
        → end < s.end
        → y ≡ through blocks (end - start) start x
        → IsTrace current s.end (ss ++ (s ∷ [])) (ys ++ (y ∷ []))
    IsTrace-append current end [] [] s y t a b v = (
      a ∙ sym t,
      omega (arith, t, b),
      v ∙ ap (λ k. through blocks (k - start) start x) (sym t),
      refl,
    )
    IsTrace-append current end [] (z ∷ zs) s y t a b v = absurd t
    IsTrace-append current end (r ∷ rs) [] s y t a b v = absurd t
    IsTrace-append current end (r ∷ rs) (z ∷ zs) s y t a b v =
        (t.0, t.1, t.2, IsTrace-append r.end end rs zs s y t.3 a b v)

    -- How far a pass has come.
    abbrev pub Progress : ℕ → Forward F T → Type 0
    Progress end st =
        (start ≤ st.block_idx)
        × (st.block_idx ≤ end)
        × (st.inputs ≡ through blocks (st.block_idx - start) start x)
        × IsTrace start st.block_idx st.done_sequences st.intermediate_inputs

    -- A route in use goes on from the next block.
    abbrev pub IsReady : ℕ → Forward F T → Type 0
    IsReady end st = st.attempt_no ≡ 0 → (st.sequences ≡ []) ⊎ Exactly st.block_idx end st.sequences

    -- What an attempt leaves, with at most `r` attempts for a span: the attempts that may still
    -- follow are fewer.
    abbrev pub Leaves : ℕ → ℕ → Forward F T → Tried F T → Type 0
    Leaves r end st raises = Unit
    Leaves r end st (continues next) =
        Progress end next
        × IsReady end next
        × (next.attempt_no < r)
        × ((end - next.block_idx) * r + suc st.attempt_no
            ≤ (end - st.block_idx) * r + next.attempt_no)

    abbrev pub IsPass : ℕ → Outcome F T → Type 0
    IsPass end (returned y ys ss) =
        (y ≡ through blocks (end - start) start x) × IsTrace start end ss ys
    IsPass end raised = Unit
    IsPass end unfinished = ⊥

    pub on_exception-Leaves :
        (r end : ℕ) (st : Forward F T) (rest : List (RemoteSpanInfo F))
        → Progress end st
        → st.attempt_no < r
        → Leaves r end st (on_exception F T (some r) (record st { sequences = rest }))
    unfolding on_exception
    on_exception-Leaves r end st rest p a = elim (Bool-cases (st.attempt_no + 1 == r)) [
      | inl last ↦ rw last tt
      | inr again ↦ rw again (p, λ e. absurd (omega (arith, e)), ground (arith, again), omega arith)
    ]

    pub complete-Leaves :
        (r end : ℕ) (st : Forward F T) (s : RemoteSpanInfo F) (rest : List (RemoteSpanInfo F))
        (y : T)
        → Progress end st
        → st.attempt_no < r
        → Exactly st.block_idx end (s ∷ rest)
        → y ≡ through blocks (s.end - s.start) s.start st.inputs
        → Leaves r end st (continues (complete F T s rest y st))
    unfolding complete
    complete-Leaves r end st s rest y p a e v =
        (let last = Exactly-le s.end end rest e.2 in
          let grows : st.block_idx < s.end = omega (arith, e.0, e.1) in
          let same : y ≡ through blocks (s.end - st.block_idx) st.block_idx st.inputs =
            v ∙ ap (λ b. through blocks (s.end - b) b st.inputs) e.0 in
          let value =
            same
            ∙ (ap (through blocks (s.end - st.block_idx) st.block_idx) p.2
                ∙ through_between blocks start st.block_idx s.end x p.0 (omega arith)) in
          let fewer = budget_step r (end - st.block_idx) (end - s.end) (omega arith) in
          (
            (
              omega (arith, p.0),
              last,
              value,
              IsTrace-append start st.block_idx st.done_sequences st.intermediate_inputs s st.inputs
                  p.3 e.0 grows p.2,
            ),
            λ u. inr e.2,
            omega arith,
            omega (arith, fewer),
          ))
