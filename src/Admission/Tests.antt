-- ===== src/Admission/Tests.antt =====
-- Concrete runs of src/drift/server/admission.py, with whole numbers for the floats.
use community_ai.Prelude.{
  ℕ, ◌≡◌, refl, true, false, none, some, List, [], ◌∷◌, arith, length, lookup, replicate, Distinct,
  whole, whole-Ordered, int, boolean,
}
use community_ai.Admission.Policy.{
  PolicyArgs, AdmissionPolicy, IsBounded, post_init, post_init-IsBounded, check_integer,
  check_number, check_boolean, check_policy,
}
use community_ai.Admission.State.{
  ok, rejected, unavailable, Route, Env, reading, PeerRecord, State, init, is_healthy_locked,
  mark_unhealthy,
}
use community_ai.Admission.Quota.{
  AdmissionLease, leave, acquire, acquire_locked, admit_peer, admit, grant, refill, fresh_peer,
  release, prune_inactive_peers, candidates, sorted, drop_candidates,
}
use community_ai.Admission.Routes.{
  text, register_session, register_key, register_at, session_key, is_route_token, resolve_session,
  unregister_session, reserve_outbound_push,
}
use community_ai.Admission.Prune.{sessions_of, prune_keeps}
use community_ai.Admission.Invariant.{Inv}
use community_ai.Admission.Steps.{
  Call, acquires, releases, registers, reserves_outbound, marks_unhealthy, run, run-init-Inv,
}
use community_ai.Admission.FailClosed.{poisoned_for_good}
use community_ai.Admission.Lease.{Effect, acquire-Effect, acquire-release}
use community_ai.Admission.Registration.{register-resolve}

abbrev args : PolicyArgs whole
args = record {
  max_active_sessions = int 8;
  max_active_sessions_per_peer = int 1;
  global_session_rate = int 2;
  global_session_burst = int 4;
  peer_session_rate = int 1;
  peer_session_burst = int 1;
  max_tracked_peers = int 8;
  tracked_peer_ttl = int 300;
  max_pending_pushes = int 4;
  allow_training_rpcs = boolean false;
}

abbrev policy : AdmissionPolicy whole
policy = record {
  max_active_sessions = 8;
  max_active_sessions_per_peer = 1;
  global_session_rate = 2;
  global_session_burst = 4;
  peer_session_rate = 1;
  peer_session_burst = 1;
  max_tracked_peers = 8;
  tracked_peer_ttl = 300;
  max_pending_pushes = 4;
  allow_training_rpcs = false;
}

post_init-IsBounded_example : IsBounded whole policy
unfolding post_init check_integer check_number check_boolean check_policy
post_init-IsBounded_example = post_init-IsBounded whole args policy refl

abbrev env : Env whole
env = record { clock = reading 5; locked = true; unlocked = true; relocked = true }

abbrev digest : List ℕ → ℕ
digest bytes = length bytes

abbrev route : Route whole
route = record { owner = 3; token = replicate 32 b'a' }

abbrev history : List (Call whole)
history =
    acquires env 7
    ∷ registers true (text (b's' ∷ [])) route
    ∷ reserves_outbound true
    ∷ acquires env 9
    ∷ releases env 7
    ∷ marks_unhealthy false
    ∷ []

run-init-Inv_example :
    Inv whole whole-Ordered policy (run whole digest policy history (init whole policy 0))
run-init-Inv_example = run-init-Inv whole digest policy whole-Ordered 0 history

abbrev start : State whole
start = init whole policy 0

start-Distinct : Distinct start.peers
unfolding init
start-Distinct = tt

program : Unit {0}
unfolding init acquire leave acquire_locked admit_peer admit grant refill fresh_peer
    is_healthy_locked prune_inactive_peers sorted candidates drop_candidates
program = tt

acquire-Effect_example : Effect whole policy true 7 start (acquire whole policy env 7 start)
acquire-Effect_example = acquire-Effect whole policy env 7 start start-Distinct

abbrev lease : AdmissionLease
lease = record { peer_key = 7; released = false }

acquired : (acquire whole policy env 7 start).0 ≡ ok lease
unfolding program
acquired = refl

acquire-release_example :
    let back = release whole env lease (acquire whole policy env 7 start).1 in
    ((j : ℕ) → sessions_of whole j back.1.peers ≡ sessions_of whole j start.peers)
    × (release whole env back.0 back.1 ≡ back)
acquire-release_example =
    acquire-release whole policy env 7 start lease 5 true env start-Distinct acquired

poisoned_for_good_example :
    let later = run whole digest policy history (mark_unhealthy whole false start) in
    ((acquire whole policy env 7 later).0 ≡ rejected unavailable)
    × ((reserve_outbound_push whole policy true later).0 ≡ rejected unavailable)
poisoned_for_good_example = poisoned_for_good whole policy digest false start history env 7 true

registered :
    (register_session whole digest policy true (text (b's' ∷ [])) route start).0 ≡ ok (1, route)
unfolding init register_session register_key register_at session_key is_route_token
    is_healthy_locked
registered = refl

register-resolve_example :
    let t = (register_session whole digest policy true (text (b's' ∷ [])) route start).1 in
    ((resolve_session whole digest true (text (b's' ∷ [])) t).0 ≡ ok (some 3))
    × (unregister_session whole true true 1 route t ≡ start)
register-resolve_example =
    register-resolve whole policy digest true true (text (b's' ∷ [])) route start 1 route registered

-- A peer that is in use, beside one that is idle and was not seen for long.
abbrev busy : PeerRecord whole
busy = record { active = 1; tokens = 0; updated = 0; last_seen = 0 }

abbrev two_peers : State whole
two_peers = record {
  health = true;
  global = none;
  pending = some 0;
  peers = (4, record busy { active = 0 }) ∷ (7, busy) ∷ [];
  sessions = [];
}

prune_keeps_example : lookup 7 (prune_inactive_peers whole policy 1000 two_peers).peers ≡ some busy
prune_keeps_example =
    prune_keeps whole policy 1000 two_peers 7 busy ((omega arith, tt), (tt, tt)) refl refl
