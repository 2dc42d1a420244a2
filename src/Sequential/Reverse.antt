-- ===== src/Sequential/Reverse.antt =====
-- What `sequential_backward` of src/drift/client/sequential_autograd.py ends with after a
-- `sequential_forward` that returned.
use native.Mathlib.Nat.{mul-le-mul_right}
use community_ai.Prelude.{
  ℕ, zero, suc, ◌≡◌, ◌≤◌, ◌+◌, ◌-◌, ◌*◌, ◌==◌, inl, inr, some, List, [], ◌∷◌, leb, length, arith,
  refl, sym, ap, subst, ◌∙◌, Bool-cases, Float,
}
use community_ai.Routing.Spans.{RemoteSpanInfo}
use community_ai.Sequential.Forward.{Swarm, returned, sequential_forward, end_or_all}
use community_ai.Sequential.Trace.{through, budget_step, IsTrace, IsPass}
use community_ai.Sequential.Returns.{AnswersRightly, forward-IsPass}
use community_ai.Sequential.Backward.{
  extend, Remote, Backward, BackwardTried, succeeds, retries, gives_up, stuck, BackwardOutcome,
  backward_attempt, next_span, after_attempt, backward_from, sequential_backward,
}
use community_ai.Sequential.Gradients.{
  back_through, IsStack, IsGradient, IsReversed, extend-IsStack,
}
use community_ai.Sequential.Recovery.{
  AnswersBackward, Sound, Leaves, request-Leaves, on_recovery-Leaves,
}

module _ (F : Float) {T : Type 0} {G : Type 0} (blocks : ℕ → T → T) (back : ℕ → T → G → G) where
  module _ (r : ℕ) (remote : Remote F T G) (answers : AnswersBackward F blocks back r remote)
      (x : T) (start end : ℕ) (fuelled : (end - start) * r ≤ remote.forward_fuel) (g₀ : G) where
    abbrev InHand : Backward F T G → Type 0
    InHand st = Sound F blocks back r remote answers x start end fuelled g₀ st

    abbrev AfterIt : Backward F T G → BackwardTried F T G → Type 0
    AfterIt st t =
        Leaves F blocks back r remote answers x start end fuelled g₀ st.span.end st.attempt_no t

    abbrev Right : BackwardOutcome F T G → Type 0
    Right o = IsReversed F blocks back x start end g₀ o

    backward_attempt-AfterIt :
        (tick : ℕ) (st : Backward F T G)
        → InHand st
        → AfterIt st (backward_attempt F T G remote tick st)
    unfolding backward_attempt end_or_all
    backward_attempt-AfterIt tick st h = elim (Bool-cases (leb 1 st.attempt_no)) [
      | inr first ↦
          rw first (request-Leaves F blocks back r remote answers x start end fuelled g₀ tick st h)
      | inl again ↦
          (let part : st.span.end - st.span.start ≤ end - start = omega (arith, h.3.2, h.1) in
            let enough = mul-le-mul_right r part in
            rw again (
              on_recovery-Leaves F blocks back r remote answers x start end fuelled g₀ tick st _ h (
                forward-IsPass F blocks (remote.swarm tick) r remote.forward_fuel st.inputs
                  st.span.start (some st.span.end) (answers.forward_bounded tick) answers.positive
                  (answers.forward tick) (omega (arith, h.3.1)) (omega (arith, enough, fuelled)))))
    ]

    next_span-Right :
        (rest : Backward F T G → BackwardOutcome F T G) (current : ℕ) (g : G) (xs : List T)
        (ss : List (RemoteSpanInfo F))
        → IsStack F blocks back x start end g₀ current ss xs
        → IsGradient F blocks back x start end g₀ current g
        → current ≤ end
        → ((st : Backward F T G)
            → InHand st
            → st.span.end ≡ current
            → st.attempt_no ≡ 0
            → Right (rest st))
        → Right (next_span F T G remote rest g xs ss)
    unfolding next_span
    next_span-Right rest current g [] [] k v a go =
        (let at_start : start - start ≡ 0 = omega arith in
          subst (λ c. IsGradient F blocks back x start end g₀ c g) k v
          ∙ ap (λ n. back_through blocks back (end - start) start (through blocks n start x) g₀)
              at_start)
    next_span-Right rest current g (y ∷ ys) [] k v a go = absurd k
    next_span-Right rest current g [] (s ∷ ss) k v a go = absurd k
    next_span-Right rest current g (y ∷ ys) (s ∷ ss) k v a go =
        (let here = sym k.0 in
          go _
            (
              answers.positive,
              omega (arith, a, k.0),
              subst (λ c. IsGradient F blocks back x start end g₀ c g) here v,
              (refl, k.1, k.2, k.3, k.4),
            )
            k.0 refl)

    after_attempt-Right :
        (rest : Backward F T G → BackwardOutcome F T G) (st : Backward F T G)
        (t : BackwardTried F T G) (fuel : ℕ)
        → InHand st
        → AfterIt st t
        → (st.span.end - start) * r ≤ suc fuel + st.attempt_no
        → ((next : Backward F T G)
            → InHand next
            → (next.span.end - start) * r ≤ fuel + next.attempt_no
            → Right (rest next))
        → Right (after_attempt F T G remote rest t)
    unfolding after_attempt
    after_attempt-Right rest st gives_up fuel h l b go = tt
    after_attempt-Right rest st stuck fuel h l b go = absurd l
    after_attempt-Right rest st (retries next) fuel h l b go =
        go next l.2
          (let same = sym (ap (λ e. (e - start) * r) (l.0)) in omega (arith, same, l.1, b))
    after_attempt-Right rest st (succeeds g xs ss) fuel h l b go =
        next_span-Right rest l.0 g xs ss l.4 l.3 (omega (arith, l.1, l.2)) (λ next sound ends fresh.
          go next sound (
            let start_low = stack_low l.0 ss xs l.4 in
            let fewer =
              budget_step r (st.span.end - start) (l.0 - start) (omega (arith, l.1, start_low)) in
            let same = ap (λ e. (e - start) * r) ends in omega (arith, same, fewer, b, fresh, h.0)))
      where
        stack_low :
            (current : ℕ) (ss : List (RemoteSpanInfo F)) (ys : List T)
            → IsStack F blocks back x start end g₀ current ss ys
            → start ≤ current
        stack_low current [] [] k = omega (arith, k)
        stack_low current [] (y ∷ ys) k = absurd k
        stack_low current (s ∷ ss) [] k = absurd k
        stack_low current (s ∷ ss) (y ∷ ys) k = omega (arith, k.0, k.1, k.2)

    backward_from-Right :
        (fuel tick : ℕ) (st : Backward F T G)
        → InHand st
        → (st.span.end - start) * r ≤ fuel + st.attempt_no
        → Right (backward_from F T G remote fuel tick st)
    unfolding backward_from
    backward_from-Right zero tick st h b =
        (let one = budget_step r (st.span.end - start) 0 (omega (arith, h.3.1, h.3.2)) in
          absurd (omega (arith, one, b, h.0)))
    backward_from-Right (suc fuel) tick st h b =
        after_attempt-Right _ st (backward_attempt F T G remote tick st) fuel h
          (backward_attempt-AfterIt tick st h) b
          (λ next k c. backward_from-Right fuel (suc tick) next k c)

    backward_of_trace :
        (fuel : ℕ) (ss : List (RemoteSpanInfo F)) (ys : List T)
        → start ≤ end
        → (end - start) * r ≤ fuel
        → IsTrace F blocks x start start end ss ys
        → Right (sequential_backward F T G remote fuel g₀ ys ss)
    unfolding sequential_backward
    backward_of_trace fuel ss ys a b t = elim (Bool-cases (length ys == length ss)) [
      | inr uneven ↦ rw uneven tt
      | inl even ↦
          (let at_start : start - start ≡ 0 = omega arith in
            let at_end : end - end ≡ 0 = omega arith in
            let value : x ≡ through blocks (start - start) start x =
              sym (ap (λ n. through blocks n start x) at_start) in
            let stack =
              extend-IsStack F blocks back x start end g₀ x start start end ss [] ys []
                (omega arith) (omega arith) value refl t in
            let whole : IsGradient F blocks back x start end g₀ end g₀ = sym (
              ap (λ n. back_through blocks back n end (through blocks (end - start) start x) g₀)
                at_end) in
            rw even (
              next_span-Right _ end g₀ (extend [] ys) (extend [] ss) stack whole (omega arith)
                (λ st sound ends fresh.
                  backward_from-Right fuel 0 st sound
                    (let same = ap (λ e. (e - start) * r) ends in omega (arith, same, b)))))
    ]

  -- Let a forward pass with right answers have returned. If servers answer with the gradient before the
  -- blocks of their span, recoveries have enough attempts, and each span may be tried a positive number
  -- of times, then the backward pass over what the forward pass returned ends within that many attempts
  -- for each block: it raises, or it returns the gradient of the whole range at the pass's inputs,
  -- through whatever recoveries by forward passes over other spans.
  pub backward-IsReversed :
      (r : ℕ) (swarm : Swarm F T) (remote : Remote F T G) (forward_fuel fuel : ℕ) (x y : T) (g : G)
      (start end : ℕ) (ys : List T) (ss : List (RemoteSpanInfo F))
      → AnswersBackward F blocks back r remote
      → AnswersRightly F blocks swarm
      → swarm.max_retries ≡ some r
      → start ≤ end
      → (end - start) * r ≤ forward_fuel
      → (end - start) * r ≤ remote.forward_fuel
      → (end - start) * r ≤ fuel
      → sequential_forward F T swarm forward_fuel x start (some end) ≡ returned y ys ss
      → IsReversed F blocks back x start end g (sequential_backward F T G remote fuel g ys ss)
  unfolding end_or_all
  backward-IsReversed r swarm remote forward_fuel fuel x y g start end ys ss answers rightly bounded
        a b c d e =
      (let passed = subst (IsPass F blocks x start end) e (
          forward-IsPass F blocks swarm r forward_fuel x start (some end) bounded answers.positive
            rightly a b) in
        backward_of_trace r remote answers x start end c g fuel ss ys a d passed.1)
