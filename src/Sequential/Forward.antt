-- ===== src/Sequential/Forward.antt =====
-- `sequential_forward` of src/drift/client/sequential_autograd.py. What the rest of the swarm does
-- at each attempt is a parameter: the spans known to the sequence manager, its random choices, the
-- answer to `run_remote_forward`, and the comparison of shapes. Prompts and devices are left out.
use Prim.Native.Nat.{min}
use community_ai.Prelude.{
  ℕ, zero, suc, ◌+◌, Bool, true, Option, none, some, List, [], ◌∷◌, ◌++◌, leb, ◌==◌, if◌then◌else◌,
  Float,
}
use community_ai.Routing.Spans.{RemoteSpanInfo}
use community_ai.Routing.Throughput.{
  Found, found, missing_block, out_of_fuel, make_sequence_with_max_throughput,
}

-- What a tensor meets on its way.
pub record Swarm (F : Float) (T : Type 0) : Type 0 where
  -- len(sequence_manager.block_uids)
  pub num_blocks : ℕ
  pub spans : ℕ → List (RemoteSpanInfo F)
  pub picks : ℕ → ℕ → ℕ
  -- An exception, or the outputs.
  pub run_remote_forward : ℕ → RemoteSpanInfo F → T → Option T
  pub same_shape : T → T → Bool
  pub max_retries : Option ℕ

module _ (F : Float) where
  -- sequences[-1].end = min(sequences[-1].end, end_index)
  unfoldable pub clip_last : ℕ → List (RemoteSpanInfo F) → List (RemoteSpanInfo F)
  clip_last end [] = []
  clip_last end (s ∷ []) = record s { end = min s.end end } ∷ []
  clip_last end (s ∷ t ∷ ts) = s ∷ clip_last end (t ∷ ts)

  unfoldable pub clipped : ℕ → Found (List (RemoteSpanInfo F)) → Found (List (RemoteSpanInfo F))
  unfolding clip_last
  clipped end (found ss) = found (clip_last end ss)
  clipped end (missing_block b) = missing_block b
  clipped end out_of_fuel = out_of_fuel

  -- not sequences or attempt_no >= 1
  unfoldable pub needs_route : List (RemoteSpanInfo F) → ℕ → Bool
  needs_route [] attempt_no = true
  needs_route (s ∷ ss) attempt_no = leb 1 attempt_no

module _ (F : Float) (T : Type 0) where
  pub record Forward : Type 0 where
    pub inputs : T
    pub block_idx : ℕ
    pub attempt_no : ℕ
    pub sequences : List (RemoteSpanInfo F)
    pub intermediate_inputs : List T
    pub done_sequences : List (RemoteSpanInfo F)

  -- What an attempt leaves.
  pub data Tried : Type 0 where
    continues : Forward → Tried
    raises : Tried

  pub data Outcome : Type 0 where
    returned : T → List T → List (RemoteSpanInfo F) → Outcome
    raised : Outcome
    unfinished : Outcome

  -- The except clause: the last attempt raises.
  unfoldable pub on_exception : Option ℕ → Forward → Tried
  on_exception none st = continues (record st { attempt_no = st.attempt_no + 1 })
  on_exception (some retries) st =
      if st.attempt_no + 1 == retries
      then raises
      else continues (record st { attempt_no = st.attempt_no + 1 })

  unfoldable pub complete : RemoteSpanInfo F → List (RemoteSpanInfo F) → T → Forward → Forward
  complete span rest outputs st = record {
    inputs = outputs;
    block_idx = span.end;
    attempt_no = 0;
    sequences = rest;
    intermediate_inputs = st.intermediate_inputs ++ (st.inputs ∷ []);
    done_sequences = st.done_sequences ++ (span ∷ []);
  }

  module _ (swarm : Swarm F T) where
    -- The route in use, or a new one.
    unfoldable pub route : ℕ → ℕ → Forward → Found (List (RemoteSpanInfo F))
    unfolding clipped needs_route make_sequence_with_max_throughput
    route tick end st =
        if needs_route F st.sequences st.attempt_no
        then clipped F end (
            make_sequence_with_max_throughput F (swarm.picks tick) (swarm.spans tick) st.block_idx
              end)
        else found st.sequences

    unfoldable pub on_answer :
        RemoteSpanInfo F → List (RemoteSpanInfo F) → Forward → Option T → Tried
    unfolding on_exception complete
    on_answer span rest st none = on_exception swarm.max_retries (record st { sequences = rest })
    on_answer span rest st (some outputs) =
        if swarm.same_shape st.inputs outputs
        then continues (complete span rest outputs st)
        else on_exception swarm.max_retries (record st { sequences = rest })

    unfoldable pub along : ℕ → Forward → Found (List (RemoteSpanInfo F)) → Tried
    unfolding on_answer
    along tick st (found (span ∷ rest)) =
        on_answer span rest st (swarm.run_remote_forward tick span st.inputs)
    along tick st (found []) = on_exception swarm.max_retries (record st { sequences = [] })
    along tick st _ = on_exception swarm.max_retries st

    -- One turn of the inner loop.
    unfoldable pub attempt : ℕ → ℕ → Forward → Tried
    unfolding along route
    attempt tick end st = along tick st (route tick end st)

    unfoldable pub after : (Forward → Outcome) → Tried → Outcome
    after rest (continues st) = rest st
    after rest raises = raised

    unfoldable pub result : Forward → Outcome
    result st = returned st.inputs st.intermediate_inputs st.done_sequences

    -- Both loops; a tick is an attempt.
    unfoldable pub forward_from : ℕ → ℕ → ℕ → Forward → Outcome
    unfolding after attempt result
    forward_from zero tick end st = if leb end st.block_idx then result st else unfinished
    forward_from (suc fuel) tick end st =
        if leb end st.block_idx
        then result st
        else after (forward_from fuel (suc tick) end) (attempt tick end st)

    unfoldable pub end_or_all : Option ℕ → ℕ
    end_or_all none = swarm.num_blocks
    end_or_all (some end) = end

    unfoldable pub begin : T → ℕ → Forward
    begin inputs start = record {
      inputs = inputs;
      block_idx = start;
      attempt_no = 0;
      sequences = [];
      intermediate_inputs = [];
      done_sequences = [];
    }

    -- sequential_forward, with a bound on the attempts that are looked at
    unfoldable pub sequential_forward : ℕ → T → ℕ → Option ℕ → Outcome
    unfolding forward_from end_or_all begin
    sequential_forward fuel inputs start end_index =
        if leb (end_or_all end_index) swarm.num_blocks
        then forward_from fuel 0 (end_or_all end_index) (begin inputs start)
        else raised
