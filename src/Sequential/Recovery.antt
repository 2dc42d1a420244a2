-- ===== src/Sequential/Recovery.antt =====
-- The loops of `sequential_backward` of src/drift/client/sequential_autograd.py, with the recovery of
-- a span by a forward pass.
use community_ai.Prelude.{
  ℕ, suc, ◌≡◌, ◌≤◌, ◌<◌, ◌+◌, ◌-◌, ◌*◌, ◌==◌, inl, inr, Option, none, some, List, [], ◌∷◌, arith,
  refl, sym, ap, subst, ◌∙◌, Bool-cases, Float,
}
use community_ai.Routing.Spans.{RemoteSpanInfo}
use community_ai.Sequential.Forward.{Outcome, returned, raised, unfinished}
use community_ai.Sequential.Trace.{through, through_between, IsPass}
use community_ai.Sequential.Returns.{AnswersRightly}
use community_ai.Sequential.Backward.{
  extend, Remote, Backward, BackwardTried, succeeds, retries, gives_up, stuck,
  on_backward_exception, fits, take_top, on_gradient, request, on_recovery,
}
use community_ai.Sequential.Gradients.{
  back_through, back_between, IsStack, IsGradient, extend-IsStack,
}

module _ (F : Float) {T : Type 0} {G : Type 0} (blocks : ℕ → T → T) (back : ℕ → T → G → G) where
  -- What is asked of the remote: servers answer with the gradient before the blocks of their span, its
  -- forward passes run as in `AnswersRightly`, and every span may be tried `r` times.
  pub record AnswersBackward (r : ℕ) (remote : Remote F T G) : Type 0 where
    pub positive : 0 < r
    pub bounded : remote.max_retries ≡ some r
    pub backward :
        (tick : ℕ) (s : RemoteSpanInfo F) (x : T) (g h : G)
        → remote.run_remote_backward tick s x g ≡ some h
        → h ≡ back_through blocks back (s.end - s.start) s.start x g
    pub forward_bounded : (tick : ℕ) → (remote.swarm tick).max_retries ≡ some r
    pub forward : (tick : ℕ) → AnswersRightly F blocks (remote.swarm tick)

  module _ (r : ℕ) (remote : Remote F T G) (answers : AnswersBackward r remote) (x : T)
      (start end : ℕ) (fuelled : (end - start) * r ≤ remote.forward_fuel) (g₀ : G) where
    -- A pass with a span in hand.
    abbrev pub Sound : Backward F T G → Type 0
    Sound st =
        (st.attempt_no < r)
        × (st.span.end ≤ end)
        × IsGradient F blocks back x start end g₀ st.span.end st.grad_outputs
        × IsStack F blocks back x start end g₀ st.span.end (st.span ∷ st.forward_sequences)
            (st.inputs ∷ st.intermediate_inputs)

    -- What an attempt leaves, for a span in hand that ends at `top`, after `n` attempts.
    abbrev pub Leaves : ℕ → ℕ → BackwardTried F T G → Type 0
    Leaves top n (succeeds g xs ss) =
        (current : ℕ) × (current < top)
        × (top ≤ end)
        × IsGradient F blocks back x start end g₀ current g
        × IsStack F blocks back x start end g₀ current ss xs
    Leaves top n (retries next) = (next.span.end ≡ top) × (next.attempt_no ≡ suc n) × Sound next
    Leaves top n gives_up = Unit
    Leaves top n stuck = ⊥

    retried-Leaves :
        (st : Backward F T G)
        → Sound st
        → Leaves st.span.end st.attempt_no (on_backward_exception F T G remote.max_retries st)
    unfolding on_backward_exception
    retried-Leaves st h =
        subst (λ o. Leaves st.span.end st.attempt_no (on_backward_exception F T G o st))
          (sym answers.bounded)
          (elim (Bool-cases (st.attempt_no + 1 == r)) [
            | inl last ↦ rw last tt
            | inr again ↦ rw again (refl, omega arith, (ground (arith, again, h.0), h.1, h.2, h.3))
          ])

    IsGradient-before :
        (st : Backward F T G) (g : G)
        → Sound st
        → g
          ≡ back_through blocks back
              (st.span.end - st.span.start)
              st.span.start
              st.inputs
              st.grad_outputs
        → IsGradient F blocks back x start end g₀ st.span.start g
    IsGradient-before st g h e =
        (let a = st.span.start in
          let b = st.span.end in
          let y = through blocks (a - start) start x in
          let low : a ≤ b = omega (arith, h.3.1) in
          e
          ∙ (ap (λ i. back_through blocks back (b - a) a i st.grad_outputs) h.3.3
              ∙ (ap (back_through blocks back (b - a) a y) (
                    h.2
                    ∙ ap (λ z. back_through blocks back (end - b) b z g₀)
                        (sym (through_between blocks start a b x h.3.2 low)))
                  ∙ sym (back_between blocks back a b end y g₀ low h.1))))

    on_gradient-Leaves :
        (st : Backward F T G) (o : Option G)
        → Sound st
        → ((g : G)
            → o ≡ some g
            → g
              ≡ back_through blocks back
                  (st.span.end - st.span.start)
                  st.span.start
                  st.inputs
                  st.grad_outputs)
        → Leaves st.span.end st.attempt_no (on_gradient F T G remote st o)
    unfolding on_gradient
    on_gradient-Leaves st none h k = retried-Leaves st h
    on_gradient-Leaves st (some g) h k =
        (st.span.start, h.3.1, h.1, IsGradient-before st g h (k g refl), h.3.4)

    pub request-Leaves :
        (tick : ℕ) (st : Backward F T G)
        → Sound st
        → Leaves st.span.end st.attempt_no (request F T G remote tick st)
    unfolding request
    request-Leaves tick st h =
        on_gradient-Leaves st _ h (λ g. answers.backward tick st.span st.inputs st.grad_outputs g)

    -- The top of a stack that reaches the end of the span in hand.
    take_top-Sound :
        (st : Backward F T G) (top : ℕ) (ys : List T) (ss : List (RemoteSpanInfo F))
        → Sound st
        → st.span.end ≡ top
        → IsStack F blocks back x start end g₀ top ss ys
        → (Sound (take_top F T G st ys ss))
          × ((take_top F T G st ys ss).span.end ≡ top)
          × ((take_top F T G st ys ss).attempt_no ≡ st.attempt_no)
    unfolding take_top
    take_top-Sound st top [] [] h e k = absurd (omega (arith, h.3.1, h.3.2, e, k))
    take_top-Sound st top (y ∷ ys) [] h e k = absurd k
    take_top-Sound st top [] (s ∷ ss) h e k = absurd k
    take_top-Sound st top (y ∷ ys) (s ∷ ss) h e k =
        (let same : st.span.end ≡ s.end = e ∙ sym k.0 in
          (
            (
              h.0,
              omega (arith, h.1, same),
              subst (λ c. IsGradient F blocks back x start end g₀ c st.grad_outputs) same h.2,
              (refl, k.1, k.2, k.3, k.4),
            ),
            k.0,
            refl,
          ))

    pub on_recovery-Leaves :
        (tick : ℕ) (st : Backward F T G) (o : Outcome F T)
        → Sound st
        → IsPass F blocks st.inputs st.span.start st.span.end o
        → Leaves st.span.end st.attempt_no (on_recovery F T G remote tick st o)
    unfolding on_recovery
    on_recovery-Leaves tick st raised h p = retried-Leaves st h
    on_recovery-Leaves tick st unfinished h p = absurd p
    on_recovery-Leaves tick st (returned y ys ss) h p =
        elim (Bool-cases (fits F T G st.span.start st.span.end ys ss)) [
          | inr unfit ↦ rw unfit (retried-Leaves st h)
          | inl fit ↦
              (let stack =
                  extend-IsStack F blocks back x start end g₀ st.inputs st.span.start st.span.start
                    st.span.end ss st.forward_sequences ys st.intermediate_inputs h.3.2
                    (omega arith) h.3.3 h.3.4 p.1 in
                let next =
                  take_top F T G st (extend st.intermediate_inputs ys)
                    (extend st.forward_sequences ss) in
                let top = take_top-Sound st st.span.end _ _ h refl stack in
                rw fit (
                  subst (λ c. Leaves c st.attempt_no (request F T G remote tick next)) top.1
                    (subst (λ n. Leaves next.span.end n (request F T G remote tick next)) top.2
                      (request-Leaves tick next top.0))))
        ]
