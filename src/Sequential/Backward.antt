-- ===== src/Sequential/Backward.antt =====
-- `sequential_backward` of src/drift/client/sequential_autograd.py, without prompts. The two lists
-- that the source pops from their ends are stacks here, their heads the ends. The pass has its own
-- swarm at each tick for the forward pass that recovers a span.
use community_ai.Prelude.{
  ℕ, zero, suc, ◌+◌, Bool, false, ◌&&◌, Option, none, some, List, [], ◌∷◌, leb, ◌==◌, if◌then◌else◌,
  length, Float,
}
use community_ai.Routing.Spans.{RemoteSpanInfo}
use community_ai.Sequential.Forward.{
  Swarm, Outcome, returned, raised, unfinished, sequential_forward,
}

-- Both lists as they grow by `extend`.
unfoldable pub extend {ℓ} : {A : Type ℓ} → List A → List A → List A
extend stack [] = stack
extend stack (x ∷ xs) = extend (x ∷ stack) xs

-- What the pass meets at each attempt: a swarm for its forward passes, and the answer to
-- `run_remote_backward`.
pub record Remote (F : Float) (T : Type 0) (G : Type 0) : Type 0 where
  pub swarm : ℕ → Swarm F T
  pub run_remote_backward : ℕ → RemoteSpanInfo F → T → G → Option G
  pub max_retries : Option ℕ
  -- a bound on the attempts of a forward pass
  pub forward_fuel : ℕ

module _ (F : Float) (T : Type 0) (G : Type 0) where
  pub record Backward : Type 0 where
    pub grad_outputs : G
    pub intermediate_inputs : List T
    pub forward_sequences : List (RemoteSpanInfo F)
    -- the span in hand and its inputs
    pub inputs : T
    pub span : RemoteSpanInfo F
    pub attempt_no : ℕ

  pub data BackwardTried : Type 0 where
    succeeds : G → List T → List (RemoteSpanInfo F) → BackwardTried
    retries : Backward → BackwardTried
    gives_up : BackwardTried
    stuck : BackwardTried

  pub data BackwardOutcome : Type 0 where
    gradient : G → BackwardOutcome
    backward_raised : BackwardOutcome
    backward_unfinished : BackwardOutcome

  -- The except clause.
  unfoldable pub on_backward_exception : Option ℕ → Backward → BackwardTried
  on_backward_exception none st = retries (record st { attempt_no = st.attempt_no + 1 })
  on_backward_exception (some limit) st =
      if st.attempt_no + 1 == limit
      then gives_up
      else retries (record st { attempt_no = st.attempt_no + 1 })

  -- backup_sequences[-1].end == end
  unfoldable pub ends_at : ℕ → List (RemoteSpanInfo F) → Bool
  ends_at end [] = false
  ends_at end (s ∷ []) = s.end == end
  ends_at end (s ∷ t ∷ ts) = ends_at end (t ∷ ts)

  unfoldable pub starts_at : ℕ → List (RemoteSpanInfo F) → Bool
  starts_at start [] = false
  starts_at start (s ∷ ss) = s.start == start

  -- The assertions on the spans of a recovery.
  unfoldable pub fits : ℕ → ℕ → List T → List (RemoteSpanInfo F) → Bool
  unfolding ends_at starts_at
  fits start end xs ss = (length xs == length ss) && (starts_at start ss && ends_at end ss)

  unfoldable pub take_top : Backward → List T → List (RemoteSpanInfo F) → Backward
  take_top st (x ∷ xs) (s ∷ ss) = record st {
    inputs = x;
    span = s;
    intermediate_inputs = xs;
    forward_sequences = ss;
  }
  take_top st _ _ = st

  module _ (remote : Remote F T G) where
    unfoldable pub on_gradient : Backward → Option G → BackwardTried
    unfolding on_backward_exception
    on_gradient st (some g) = succeeds g st.intermediate_inputs st.forward_sequences
    on_gradient st none = on_backward_exception remote.max_retries st

    unfoldable pub request : ℕ → Backward → BackwardTried
    unfolding on_gradient
    request tick st =
        on_gradient st (remote.run_remote_backward tick st.span st.inputs st.grad_outputs)

    -- What a forward pass over the span in hand brings.
    unfoldable pub on_recovery : ℕ → Backward → Outcome F T → BackwardTried
    unfolding request on_backward_exception fits take_top extend
    on_recovery tick st (returned y xs ss) =
        if fits st.span.start st.span.end xs ss
        then request tick
            (take_top st (extend st.intermediate_inputs xs) (extend st.forward_sequences ss))
        else on_backward_exception remote.max_retries st
    on_recovery tick st raised = on_backward_exception remote.max_retries st
    on_recovery tick st unfinished = stuck

    unfoldable pub backward_attempt : ℕ → Backward → BackwardTried
    unfolding request on_recovery sequential_forward
    backward_attempt tick st =
        if leb 1 st.attempt_no
        then on_recovery tick st (
            sequential_forward F T (remote.swarm tick) remote.forward_fuel st.inputs st.span.start
              (some st.span.end))
        else request tick st

    -- The condition of the outer loop, and the two pops.
    unfoldable pub next_span :
        (Backward → BackwardOutcome) → G → List T → List (RemoteSpanInfo F) → BackwardOutcome
    next_span rest g (x ∷ xs) (s ∷ ss) = rest (record {
      grad_outputs = g;
      intermediate_inputs = xs;
      forward_sequences = ss;
      inputs = x;
      span = s;
      attempt_no = 0;
    })
    next_span rest g _ _ = gradient g

    unfoldable pub after_attempt : (Backward → BackwardOutcome) → BackwardTried → BackwardOutcome
    unfolding next_span
    after_attempt rest (succeeds g xs ss) = next_span rest g xs ss
    after_attempt rest (retries st) = rest st
    after_attempt rest gives_up = backward_raised
    after_attempt rest stuck = backward_unfinished

    unfoldable pub backward_from : ℕ → ℕ → Backward → BackwardOutcome
    unfolding after_attempt backward_attempt
    backward_from zero tick st = backward_unfinished
    backward_from (suc fuel) tick st =
        after_attempt (backward_from fuel (suc tick)) (backward_attempt tick st)

    -- sequential_backward of the inputs and spans that a forward pass returned
    unfoldable pub sequential_backward : ℕ → G → List T → List (RemoteSpanInfo F) → BackwardOutcome
    unfolding backward_from next_span extend
    sequential_backward fuel g xs ss =
        if length xs == length ss
        then next_span (backward_from fuel 0) g (extend [] xs) (extend [] ss)
        else backward_raised
