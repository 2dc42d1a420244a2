-- ===== src/Sequential/Tests.antt =====
-- Concrete passes of src/drift/client/sequential_autograd.py: two peers, of which the first fails at
-- the first attempt.
use community_ai.Prelude.{
  ℕ, zero, suc, ◌≡◌, ◌≢◌, ◌<◌, ◌+◌, ◌-◌, inl, inr, refl, arith, true, Option, none, some, List, [],
  ◌∷◌, ltb, Bool-cases, ◌*◌, whole,
}
use community_ai.Routing.Spans.{ServerInfo, RemoteSpanInfo, containing}
use community_ai.Routing.Throughput.{
  before_route, or_first, choice, take_hop, next_hop, max_throughput_from,
  make_sequence_with_max_throughput,
}
use community_ai.Sequential.Forward.{
  Swarm, returned, clip_last, clipped, needs_route, on_exception, complete, route, on_answer, along,
  attempt, after, result, forward_from, end_or_all, begin, sequential_forward,
}
use community_ai.Sequential.Trace.{through, IsPass}
use community_ai.Sequential.Returns.{AnswersRightly, forward-IsPass}
use community_ai.Sequential.Backward.{
  extend, Remote, gradient, on_backward_exception, ends_at, starts_at, fits, take_top, on_gradient,
  request, on_recovery, backward_attempt, next_span, after_attempt, backward_from,
  sequential_backward,
}
use community_ai.Sequential.Gradients.{back_through, IsReversed}
use community_ai.Sequential.Recovery.{AnswersBackward}
use community_ai.Sequential.Reverse.{backward-IsReversed}
use community_ai.Sequential.Complete.{AlwaysAnswers, AlwaysHeld, HasReturned, forward-HasReturned}

abbrev info : ServerInfo whole
info = record {
  state = 2;
  throughput = 1;
  start_block = none;
  end_block = none;
  inference_rps = none;
  cache_tokens_left = none;
  next_pings = none;
}

abbrev peers : List (RemoteSpanInfo whole)
peers =
    record { peer_id = 0; start = 0; end = 2; server_info = info }
    ∷ record { peer_id = 1; start = 1; end = 4; server_info = info }
    ∷ []

abbrev blocks : ℕ → ℕ → ℕ
blocks b x = 2 * x + b

abbrev apply_blocks : RemoteSpanInfo whole → ℕ → ℕ
apply_blocks s x = through blocks (s.end - s.start) s.start x

abbrev late_answer : ℕ → ℕ → Option ℕ
late_answer zero y = none
late_answer (suc tick) y = some y

abbrev swarm : Swarm whole ℕ
swarm = record {
  num_blocks = 4;
  spans = λ tick. peers;
  picks = λ tick hop. 1;
  run_remote_forward = λ tick s x. late_answer tick (apply_blocks s x);
  same_shape = λ x y. true;
  max_retries = some 3;
}

abbrev steady : Swarm whole ℕ
steady = record swarm { run_remote_forward = λ tick s x. some (apply_blocks s x) }

forwards :
    sequential_forward whole ℕ swarm 9 5 0 (some 3)
    ≡ returned 44 (5 ∷ 21 ∷ []) (
        record { peer_id = 0; start = 0; end = 2; server_info = info }
        ∷ record { peer_id = 1; start = 2; end = 3; server_info = info }
        ∷ [])
unfolding sequential_forward forward_from end_or_all begin attempt along route on_answer
    on_exception complete after result needs_route clipped clip_last
    make_sequence_with_max_throughput max_throughput_from next_hop take_hop choice or_first
    before_route containing
forwards = refl

late_answer_rightly : (tick y z : ℕ) → late_answer tick y ≡ some z → z ≡ y
late_answer_rightly zero y z e = absurd cc
late_answer_rightly (suc tick) y z e = cc

swarm_rightly : AnswersRightly whole blocks swarm
swarm_rightly tick s x y e = late_answer_rightly tick (apply_blocks s x) y e

forward-IsPass_example : IsPass whole blocks 5 0 3 (sequential_forward whole ℕ swarm 9 5 0 (some 3))
unfolding end_or_all
forward-IsPass_example =
    forward-IsPass whole blocks swarm 3 9 5 0 (some 3) refl (omega arith) swarm_rightly
      (omega arith) (omega arith)

steady_answers : AlwaysAnswers whole steady
steady_answers tick s x = (apply_blocks s x, refl, refl)

some_peer : (b : ℕ) → b < 4 → containing whole b peers ≢ []
unfolding containing
some_peer b h e = elim (Bool-cases (ltb b 1)) [ inl low ↦ ground arith | inr high ↦ ground arith ]

steady_holds : AlwaysHeld whole steady 0 4
steady_holds tick b p q = some_peer b q

forward-HasReturned_example : HasReturned whole (sequential_forward whole ℕ steady 4 5 0 none)
unfolding end_or_all
forward-HasReturned_example =
    forward-HasReturned whole steady 4 5 0 none steady_answers steady_holds (omega arith)
      (omega arith)

abbrev back : ℕ → ℕ → ℕ → ℕ
back b x g = 3 * g + (x + b)

abbrev back_blocks : RemoteSpanInfo whole → ℕ → ℕ → ℕ
back_blocks s x g = back_through blocks back (s.end - s.start) s.start x g

-- The first request of the backward pass fails, so that a forward pass finds another way.
abbrev remote : Remote whole ℕ ℕ
remote = record {
  swarm = λ tick. swarm;
  run_remote_backward = λ tick s x g. late_answer tick (back_blocks s x g);
  max_retries = some 3;
  forward_fuel = 9;
}

abbrev spans_done : List (RemoteSpanInfo whole)
spans_done =
    record { peer_id = 0; start = 0; end = 2; server_info = info }
    ∷ record { peer_id = 1; start = 2; end = 3; server_info = info }
    ∷ []

backwards :
    sequential_backward whole ℕ ℕ remote 9 1 (5 ∷ 21 ∷ []) spans_done
    ≡ gradient (back_through blocks back 3 0 5 1)
unfolding sequential_backward backward_from after_attempt next_span backward_attempt on_recovery
    request on_gradient take_top fits starts_at ends_at on_backward_exception extend
    sequential_forward forward_from end_or_all begin attempt along route on_answer on_exception
    complete after result needs_route clipped clip_last make_sequence_with_max_throughput
    max_throughput_from next_hop take_hop choice or_first before_route containing
backwards = refl

remote_answers : AnswersBackward whole blocks back 3 remote
remote_answers = record {
  positive = omega arith;
  bounded = refl;
  backward = λ tick s x g h e. late_answer_rightly tick (back_blocks s x g) h e;
  forward_bounded = λ tick. refl;
  forward = λ tick. swarm_rightly;
}

backward-IsReversed_example :
    IsReversed whole blocks back 5 0 3 1
      (sequential_backward whole ℕ ℕ remote 9 1 (5 ∷ 21 ∷ []) spans_done)
backward-IsReversed_example =
    backward-IsReversed whole blocks back 3 swarm remote 9 9 5 44 1 0 3 (5 ∷ 21 ∷ []) spans_done
      remote_answers swarm_rightly refl (omega arith) (omega arith) (omega arith) (omega arith)
      forwards
