-- ===== src/Sequential/Complete.antt =====
-- When `sequential_forward` of src/drift/client/sequential_autograd.py returns.
use community_ai.Prelude.{
  ℕ, zero, suc, ◌≡◌, ◌≢◌, ◌≤◌, ◌<◌, ◌+◌, ◌⊎◌, inl, inr, true, Option, some, List, [], ◌∷◌, leb,
  arith, refl, Bool-cases, leb→gt, Float,
}
use community_ai.Routing.Spans.{RemoteSpanInfo, containing}
use community_ai.Routing.Throughput.{Found, found, missing_block, out_of_fuel}
use community_ai.Routing.Coverage.{IsRoute, max_throughput-IsRoute}
use community_ai.Sequential.Forward.{
  Swarm, Forward, Tried, continues, raises, Outcome, returned, raised, unfinished, clipped,
  needs_route, complete, route, on_answer, along, attempt, after, result, forward_from, begin,
  end_or_all, sequential_forward,
}
use community_ai.Sequential.Trace.{Exactly, kept-Exactly, clip_last-Exactly}

module _ (F : Float) where
  -- A route that leads to the end.
  abbrev IsWhole : ℕ → ℕ → Found (List (RemoteSpanInfo F)) → Type 0
  IsWhole current end (found ss) = Exactly F current end ss
  IsWhole current end _ = ⊥

  clipped-IsWhole :
      (current end : ℕ) (spans : List (RemoteSpanInfo F)) (o : Found (List (RemoteSpanInfo F)))
      → current < end
      → ((b : ℕ) → current ≤ b → b < end → containing F b spans ≢ [])
      → IsRoute F current end spans o
      → IsWhole current end (clipped F end o)
  unfolding clipped
  clipped-IsWhole current end spans (found ss) a held h = clip_last-Exactly F current end ss a h.0
  clipped-IsWhole current end spans (missing_block b) a held h = absurd (held b h.0 h.1 h.2)
  clipped-IsWhole current end spans out_of_fuel a held h = absurd h

module _ (F : Float) {T : Type 0} where
  abbrev pub HasReturned : Outcome F T → Type 0
  HasReturned (returned y ys ss) = Unit
  HasReturned raised = ⊥
  HasReturned unfinished = ⊥

  -- Every request is answered with outputs of the inputs' shape.
  abbrev pub AlwaysAnswers : Swarm F T → Type 0
  AlwaysAnswers swarm =
      (tick : ℕ) (s : RemoteSpanInfo F) (x : T)
      → (y : T) × (swarm.run_remote_forward tick s x ≡ some y) × (swarm.same_shape x y ≡ true)

  -- At every attempt some span holds each block of a range.
  abbrev pub AlwaysHeld : Swarm F T → ℕ → ℕ → Type 0
  AlwaysHeld swarm start end =
      (tick b : ℕ) → start ≤ b → b < end → containing F b (swarm.spans tick) ≢ []

  module _ (swarm : Swarm F T) (answers : AlwaysAnswers swarm) (start end : ℕ)
      (held : AlwaysHeld swarm start end) where
    -- No attempt has failed.
    abbrev Smooth : Forward F T → Type 0
    Smooth st =
        (start ≤ st.block_idx)
        × (st.attempt_no ≡ 0)
        × ((st.sequences ≡ []) ⊎ Exactly F st.block_idx end st.sequences)

    route-IsWhole :
        (tick : ℕ) (st : Forward F T)
        → Smooth st
        → st.block_idx < end
        → IsWhole F st.block_idx end (route F T swarm tick end st)
    unfolding route
    route-IsWhole tick st h a = elim (Bool-cases (needs_route F st.sequences st.attempt_no)) [
      | inl anew ↦ rw anew (
          clipped-IsWhole F st.block_idx end (swarm.spans tick) _ a
            (λ b p q. held tick b (omega (arith, h.0)) q)
            (max_throughput-IsRoute F (swarm.picks tick) (swarm.spans tick) st.block_idx end))
      | inr kept ↦
          rw kept (kept-Exactly F st.block_idx end st.sequences st.attempt_no kept (λ u. h.2))
    ]

    -- An attempt goes on, past some block.
    abbrev Advances : Forward F T → Tried F T → Type 0
    Advances st (continues next) = Smooth next × (st.block_idx < next.block_idx)
    Advances st raises = ⊥

    along-Advances :
        (tick : ℕ) (st : Forward F T) (plan : Found (List (RemoteSpanInfo F)))
        → Smooth st
        → st.block_idx < end
        → IsWhole F st.block_idx end plan
        → Advances st (along F T swarm tick st plan)
    unfolding along on_answer complete
    along-Advances tick st (found []) h a e = absurd (omega (arith, a, e))
    along-Advances tick st (found (s ∷ rest)) h a e =
        (let answer = answers tick s st.inputs in
          rw (answer.1) (
            rw (answer.2) ((omega (arith, h.0, e.0, e.1), refl, inr e.2), omega (arith, e.0, e.1))))
    along-Advances tick st (missing_block b) h a e = absurd e
    along-Advances tick st out_of_fuel h a e = absurd e

    after-HasReturned :
        (st : Forward F T) (rest : Forward F T → Outcome F T) (t : Tried F T)
        → Advances st t
        → ((next : Forward F T)
            → Smooth next
            → st.block_idx < next.block_idx
            → HasReturned (rest next))
        → HasReturned (after F T swarm rest t)
    unfolding after
    after-HasReturned st rest (continues next) l k = k next l.0 l.1
    after-HasReturned st rest raises l k = absurd l

    forward_from-HasReturned :
        (fuel tick : ℕ) (st : Forward F T)
        → Smooth st
        → end ≤ fuel + st.block_idx
        → HasReturned (forward_from F T swarm fuel tick end st)
    unfolding forward_from result
    forward_from-HasReturned zero tick st h a =
        (let there : leb end st.block_idx ≡ true = ground arith in rw there tt)
    forward_from-HasReturned (suc fuel) tick st h a = elim (Bool-cases (leb end st.block_idx)) [
      | inl there ↦ rw there tt
      | inr before ↦
          (let on = leb→gt end st.block_idx before in
            rw before (
              after-HasReturned st _ (attempt F T swarm tick end st)
                (along-Advances tick st (route F T swarm tick end st) h on
                  (route-IsWhole tick st h on))
                (λ next l m.
                  forward_from-HasReturned fuel (suc tick) next l (omega (arith, a, m)))))
    ]

  -- If every request is answered with outputs of the right shape, at every attempt some span holds
  -- each block of the range, and the range ends within the model, then the pass returns after at most
  -- as many attempts as the range has blocks, whatever `max_retries` is.
  pub forward-HasReturned :
      (swarm : Swarm F T) (fuel : ℕ) (x : T) (start : ℕ) (end_index : Option ℕ)
      → AlwaysAnswers swarm
      → AlwaysHeld swarm start (end_or_all F T swarm end_index)
      → end_or_all F T swarm end_index ≤ swarm.num_blocks
      → end_or_all F T swarm end_index ≤ fuel + start
      → HasReturned (sequential_forward F T swarm fuel x start end_index)
  unfolding sequential_forward begin
  forward-HasReturned swarm fuel x start end_index answers held a b =
      (let known : leb (end_or_all F T swarm end_index) swarm.num_blocks ≡ true = ground arith in
        rw known (
          forward_from-HasReturned swarm answers start (end_or_all F T swarm end_index) held fuel 0
            _ (omega arith, refl, inl refl) b))
