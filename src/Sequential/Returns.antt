-- ===== src/Sequential/Returns.antt =====
-- What the loops of `sequential_forward` of src/drift/client/sequential_autograd.py end with, for a
-- finite `max_retries`.
use community_ai.Prelude.{
  ℕ, zero, suc, ◌≡◌, ◌≤◌, ◌<◌, ◌+◌, ◌-◌, ◌*◌, inl, inr, Option, none, some, List, [], ◌∷◌, leb,
  arith, refl, sym, ap, subst, ◌∙◌, Bool-cases, leb→le, leb→gt, Float,
}
use community_ai.Routing.Spans.{RemoteSpanInfo}
use community_ai.Routing.Throughput.{Found, found, missing_block, out_of_fuel}
use community_ai.Routing.Coverage.{IsRoute, max_throughput-IsRoute}
use community_ai.Sequential.Forward.{
  Swarm, Forward, Tried, continues, raises, Outcome, clipped, needs_route, on_exception, route,
  on_answer, along, attempt, after, result, forward_from, end_or_all, begin, sequential_forward,
}
use community_ai.Sequential.Trace.{
  through, budget_step, kept-Exactly, Exactly, clip_last-Exactly, IsTrace, Progress, IsReady,
  Leaves, IsPass, on_exception-Leaves, complete-Leaves,
}

module _ (F : Float) {T : Type 0} (blocks : ℕ → T → T) where
  -- A remote server that answers has applied the blocks of its span.
  abbrev pub AnswersRightly : Swarm F T → Type 0
  AnswersRightly swarm =
      (tick : ℕ) (s : RemoteSpanInfo F) (x y : T)
      → swarm.run_remote_forward tick s x ≡ some y
      → y ≡ through blocks (s.end - s.start) s.start x

  -- What a route may be, for a next attempt from `current`.
  abbrev IsPlan : ℕ → ℕ → Found (List (RemoteSpanInfo F)) → Type 0
  IsPlan current end (found ss) = Exactly F current end ss
  IsPlan current end _ = Unit

  clipped-IsPlan :
      (current end : ℕ) (spans : List (RemoteSpanInfo F)) (o : Found (List (RemoteSpanInfo F)))
      → current < end
      → IsRoute F current end spans o
      → IsPlan current end (clipped F end o)
  unfolding clipped
  clipped-IsPlan current end spans (found ss) a h = clip_last-Exactly F current end ss a h.0
  clipped-IsPlan current end spans (missing_block b) a h = tt
  clipped-IsPlan current end spans out_of_fuel a h = tt

  module _ (swarm : Swarm F T) (r : ℕ) (bounded : swarm.max_retries ≡ some r)
      (rightly : AnswersRightly swarm) (x : T) (start end : ℕ) where
    abbrev Sound : Forward F T → Type 0
    Sound st =
        Progress F blocks x start end st × IsReady F blocks x start end st × (st.attempt_no < r)

    retried-Leaves :
        (st : Forward F T) (rest : List (RemoteSpanInfo F))
        → Sound st
        → Leaves F blocks x start r end st
            (on_exception F T swarm.max_retries (record st { sequences = rest }))
    retried-Leaves st rest h =
        subst
          (λ m.
            Leaves F blocks x start r end st (on_exception F T m (record st { sequences = rest })))
          (sym bounded) (on_exception-Leaves F blocks x start r end st rest h.0 h.2)

    on_answer-Leaves :
        (st : Forward F T) (s : RemoteSpanInfo F) (rest : List (RemoteSpanInfo F)) (o : Option T)
        → Sound st
        → Exactly F st.block_idx end (s ∷ rest)
        → ((y : T) → o ≡ some y → y ≡ through blocks (s.end - s.start) s.start st.inputs)
        → Leaves F blocks x start r end st (on_answer F T swarm s rest st o)
    unfolding on_answer
    on_answer-Leaves st s rest none h e v = retried-Leaves st rest h
    on_answer-Leaves st s rest (some y) h e v = elim (Bool-cases (swarm.same_shape st.inputs y)) [
      | inl fits ↦ rw fits (complete-Leaves F blocks x start r end st s rest y h.0 h.2 e (v y refl))
      | inr misfits ↦ rw misfits (retried-Leaves st rest h)
    ]

    route-IsPlan :
        (tick : ℕ) (st : Forward F T)
        → Sound st
        → st.block_idx < end
        → IsPlan st.block_idx end (route F T swarm tick end st)
    unfolding route
    route-IsPlan tick st h a = elim (Bool-cases (needs_route F st.sequences st.attempt_no)) [
      | inl anew ↦ rw anew (
          clipped-IsPlan st.block_idx end (swarm.spans tick) _ a
            (max_throughput-IsRoute F (swarm.picks tick) (swarm.spans tick) st.block_idx end))
      | inr kept ↦ rw kept (kept-Exactly F st.block_idx end st.sequences st.attempt_no kept h.1)
    ]

    along-Leaves :
        (tick : ℕ) (st : Forward F T) (plan : Found (List (RemoteSpanInfo F)))
        → Sound st
        → IsPlan st.block_idx end plan
        → Leaves F blocks x start r end st (along F T swarm tick st plan)
    unfolding along
    along-Leaves tick st (found []) h e = retried-Leaves st [] h
    along-Leaves tick st (found (s ∷ rest)) h e =
        on_answer-Leaves st s rest _ h e (λ y. rightly tick s st.inputs y)
    along-Leaves tick st (missing_block b) h e = retried-Leaves st st.sequences h
    along-Leaves tick st out_of_fuel h e = retried-Leaves st st.sequences h

    result-IsPass :
        (st : Forward F T)
        → Sound st
        → end ≤ st.block_idx
        → IsPass F blocks x start end (result F T swarm st)
    unfolding result
    result-IsPass st h a =
        (let there : st.block_idx ≡ end = omega (arith, h.0.1) in
          (
            h.0.2 ∙ ap (λ b. through blocks (b - start) start x) there,
            subst (λ b. IsTrace F blocks x start start b st.done_sequences st.intermediate_inputs)
                there h.0.3,
          ))

    after-IsPass :
        (st : Forward F T) (rest : Forward F T → Outcome F T) (t : Tried F T)
        → Leaves F blocks x start r end st t
        → ((next : Forward F T)
            → Leaves F blocks x start r end st (continues next)
            → IsPass F blocks x start end (rest next))
        → IsPass F blocks x start end (after F T swarm rest t)
    unfolding after
    after-IsPass st rest (continues next) l k = k next l
    after-IsPass st rest raises l k = tt

    forward_from-IsPass :
        (fuel tick : ℕ) (st : Forward F T)
        → Sound st
        → (end - st.block_idx) * r ≤ fuel + st.attempt_no
        → IsPass F blocks x start end (forward_from F T swarm fuel tick end st)
    unfolding forward_from
    forward_from-IsPass zero tick st h a = elim (Bool-cases (leb end st.block_idx)) [
      | inl there ↦ rw there (result-IsPass st h (leb→le end st.block_idx there))
      | inr before ↦
          (let one = budget_step r (end - st.block_idx) 0 (ground arith) in
            absurd (omega (arith, one, a, h.2)))
    ]
    forward_from-IsPass (suc fuel) tick st h a = elim (Bool-cases (leb end st.block_idx)) [
      | inl there ↦ rw there (result-IsPass st h (leb→le end st.block_idx there))
      | inr before ↦ rw before (
          after-IsPass st _ (attempt F T swarm tick end st)
            (along-Leaves tick st (route F T swarm tick end st) h
              (route-IsPlan tick st h (leb→gt end st.block_idx before)))
            (λ next l.
              forward_from-IsPass fuel (suc tick) next (l.0, l.1, l.2) (omega (arith, l.3, a))))
    ]

  -- If a server that answers has applied the blocks of its span, each span may be tried a positive
  -- number of times, and the first block is not past the last, then for any routes, failures and
  -- shapes the pass ends within that many attempts for each block: it raises, or it returns the value
  -- after all the blocks in order, with spans that follow each other from the first block to exactly
  -- the last, each with the value it was given.
  pub forward-IsPass :
      (swarm : Swarm F T) (r fuel : ℕ) (x : T) (start : ℕ) (end_index : Option ℕ)
      → swarm.max_retries ≡ some r
      → 0 < r
      → AnswersRightly swarm
      → start ≤ end_or_all F T swarm end_index
      → (end_or_all F T swarm end_index - start) * r ≤ fuel
      → IsPass F blocks x start
          (end_or_all F T swarm end_index)
          (sequential_forward F T swarm fuel x start end_index)
  unfolding sequential_forward begin
  forward-IsPass swarm r fuel x start end_index bounded p rightly a b =
      (let end = end_or_all F T swarm end_index in
        let nothing_yet : start - start ≡ 0 = omega arith in
        elim (Bool-cases (leb end swarm.num_blocks)) [
          | inl known ↦ rw known (
              forward_from-IsPass swarm r bounded rightly x start end fuel 0 _
                (
                  (omega arith, a, sym (ap (λ n. through blocks n start x) nothing_yet), refl),
                  λ u. inl refl,
                  p,
                )
                (omega (arith, b)))
          | inr unknown ↦ rw unknown tt
        ])
