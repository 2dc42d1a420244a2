-- ===== src/Admission/Steps.antt =====
-- Every call that changes the admission state of src/drift/server/admission.py, as a step, and
-- histories of such calls.
use community_ai.Prelude.{
  ℕ, ◌≡◌, Bool, true, false, List, [], ◌∷◌, Float, Ordered, arith, leb, ltb, ◌==◌, ap, length,
  lookup, put, remove, ◌≤◌, ◌+◌, ◌-◌, none, some, Option, refl, Bool-cases, inl, inr, ◌&&◌,
  length-put_new, length-remove-le,
}
use community_ai.Admission.Policy.{AdmissionPolicy}
use community_ai.Admission.State.{
  Reply, ok, rejected, Env, GlobalRecord, Route, State, init, mark_unhealthy, mark_unhealthy_locked,
  is_healthy_locked,
}
use community_ai.Admission.Quota.{acquire, release_state}
use community_ai.Admission.Routes.{
  SessionId, session_key, register_session, register_at, register_key, unregister_session,
  unregister_at, register_key, resolve_session, resolve_at, resolve_key, is_route_token, same_token,
  reserve_outbound_push, reserve_push_locked, reserve_push, push_at, push_key, returning,
  reserve_pending, release_pending, release_push, snapshot, snapshot_of,
}
use community_ai.Admission.Invariant.{
  Inv, pending_of, init-Inv, acquire-Inv, release_state-Inv, mark_unhealthy-Inv,
  mark_unhealthy_locked-Inv,
}

module _ (F : Float) where
  pub data Call : Type 0 where
    acquires : Env F → ℕ → Call
    releases : Env F → ℕ → Call
    registers : Bool → SessionId → Route F → Call
    unregisters : Bool → Bool → ℕ → Route F → Call
    resolves : Bool → SessionId → Call
    reserves_outbound : Bool → Call
    reserves : Bool → SessionId → Call
    releases_push : Bool → Bool → Call
    snapshots : Bool → Bool → Call
    marks_unhealthy : Bool → Call

  module _ (digest : List ℕ → ℕ) (policy : AdmissionPolicy F) where
    unfoldable pub step : Call → State F → State F
    step (acquires env key) s = (acquire F policy env key s).1
    step (releases env key) s = release_state F env key s
    step (registers locked session_id route) s =
        (register_session F digest policy locked session_id route s).1
    step (unregisters locked relocked key route) s =
        unregister_session F locked relocked key route s
    step (resolves locked session_id) s = (resolve_session F digest locked session_id s).1
    step (reserves_outbound locked) s = (reserve_outbound_push F policy locked s).1
    step (reserves locked session_id) s = (reserve_push F digest policy locked session_id s).1
    step (releases_push locked relocked) s = release_push F locked relocked s
    step (snapshots locked relocked) s = (snapshot F locked relocked s).1
    step (marks_unhealthy relocked) s = mark_unhealthy F relocked s

    unfoldable pub run : List Call → State F → State F
    unfolding step
    run [] s = s
    run (c ∷ cs) s = run cs (step c s)

    module _ (laws : Ordered F) where
      abbrev Kept : State F → Type 0
      Kept = Inv F laws policy

      poisoned : (s : State F) → Kept s → Kept (mark_unhealthy_locked F s)
      poisoned = mark_unhealthy_locked-Inv F laws policy

      pending-Kept :
          (s : State F) (n : ℕ)
          → n ≤ policy.max_pending_pushes
          → Kept s
          → Kept (record s { pending = some n })
      pending-Kept s n h v = record {
        conserved = v.conserved;
        active_bound = v.active_bound;
        global_tokens = v.global_tokens;
        each_peer = v.each_peer;
        tracked_bound = v.tracked_bound;
        routes_bound = v.routes_bound;
        pending_bound = h;
        distinct = v.distinct;
      }

      sessions-Kept :
          (s : State F) (table : List (ℕ × Route F))
          → length table ≤ policy.max_active_sessions
          → Kept s
          → Kept (record s { sessions = table })
      sessions-Kept s table h v = record {
        conserved = v.conserved;
        active_bound = v.active_bound;
        global_tokens = v.global_tokens;
        each_peer = v.each_peer;
        tracked_bound = v.tracked_bound;
        routes_bound = h;
        pending_bound = v.pending_bound;
        distinct = v.distinct;
      }

      reserve_pending-Kept :
          (s : State F) (o : Option ℕ) → Kept s → Kept (reserve_pending F policy s o).1
      unfolding reserve_pending
      reserve_pending-Kept s none v = poisoned s v
      reserve_pending-Kept s (some n) v = elim (Bool-cases (leb policy.max_pending_pushes n)) [
        | inl full ↦ rw full v
        | inr room ↦ rw room (pending-Kept s (n + 1) (ground arith) v)
      ]

      reserve_push_locked-Kept : (s : State F) → Kept s → Kept (reserve_push_locked F policy s).1
      unfolding reserve_push_locked
      reserve_push_locked-Kept s v = reserve_pending-Kept s s.pending v

      release_pending-Kept :
          (s : State F) (o : Option ℕ) → s.pending ≡ o → Kept s → Kept (release_pending F s o)
      unfolding release_pending
      release_pending-Kept s none e v = poisoned s v
      release_pending-Kept s (some n) e v = elim (Bool-cases (ltb n 1)) [
        | inl less ↦ rw less (poisoned s v)
        | inr enough ↦ rw enough (
            pending-Kept s (n - 1) (omega (arith, v.pending_bound, ap (pending_of F laws policy) e))
              v)
      ]

      register_at-Kept :
          (key : ℕ) (r : Route F) (s : State F) (o : Option (Route F))
          → lookup key s.sessions ≡ o
          → Kept s
          → Kept (register_at F policy key r s o).1
      unfolding register_at
      register_at-Kept key r s (some x) e v = v
      register_at-Kept key r s none e v =
          elim (Bool-cases (leb policy.max_active_sessions (length s.sessions))) [
            | inl full ↦ rw full v
            | inr room ↦ rw room (
                sessions-Kept s (put key r s.sessions)
                  (ground (arith, length-put_new key r s.sessions)) v)
          ]

      register_key-Kept :
          (locked : Bool) (k : Reply ℕ) (r : Route F) (s : State F)
          → Kept s
          → Kept (register_key F policy locked k r s).1
      unfolding register_key
      register_key-Kept locked (rejected reason) r s v = v
      register_key-Kept locked (ok key) r s v =
          elim (Bool-cases (is_route_token r.token && locked && is_healthy_locked F s)) [
            | inl well ↦ rw well (register_at-Kept key r s _ refl v)
            | inr ill ↦ rw ill v
          ]

      unregister_at-Kept :
          (key : ℕ) (r : Route F) (s : State F) (o : Option (Route F))
          → Kept s
          → Kept (unregister_at F key r s o)
      unfolding unregister_at
      unregister_at-Kept key r s none v = poisoned s v
      unregister_at-Kept key r s (some x) v =
          elim (Bool-cases (x.owner == r.owner && same_token x.token r.token)) [
            | inl same ↦ rw same (
                sessions-Kept s (remove key s.sessions)
                  (omega (arith, v.routes_bound, length-remove-le key s.sessions)) v)
            | inr other ↦ rw other (poisoned s v)
          ]

      resolve_at-Kept : (s : State F) (o : Option (Route F)) → Kept s → Kept (resolve_at F s o).1
      unfolding resolve_at
      resolve_at-Kept s none v = v
      resolve_at-Kept s (some x) v = elim (Bool-cases (is_route_token x.token)) [
        | inl good ↦ rw good v
        | inr bad ↦ rw bad (poisoned s v)
      ]

      resolve_key-Kept :
          (locked : Bool) (k : Reply ℕ) (s : State F) → Kept s → Kept (resolve_key F locked k s).1
      unfolding resolve_key
      resolve_key-Kept locked (rejected reason) s v = v
      resolve_key-Kept locked (ok key) s v = elim (Bool-cases (locked && is_healthy_locked F s)) [
        | inl well ↦ rw well (resolve_at-Kept s (lookup key s.sessions) v)
        | inr ill ↦ rw ill v
      ]

      returning-Kept :
          (r : Route F) (o : Reply (Unit {0}) × State F) → Kept o.1 → Kept (returning F r o).1
      unfolding returning
      returning-Kept r (ok _, s) v = v
      returning-Kept r (rejected _, s) v = v

      push_at-Kept : (s : State F) (o : Option (Route F)) → Kept s → Kept (push_at F policy s o).1
      unfolding push_at
      push_at-Kept s none v = v
      push_at-Kept s (some x) v = elim (Bool-cases (is_route_token x.token)) [
        | inl good ↦ rw good (returning-Kept x _ (reserve_push_locked-Kept s v))
        | inr bad ↦ rw bad (poisoned s v)
      ]

      push_key-Kept :
          (locked : Bool) (k : Reply ℕ) (s : State F)
          → Kept s
          → Kept (push_key F policy locked k s).1
      unfolding push_key
      push_key-Kept locked (rejected reason) s v = v
      push_key-Kept locked (ok key) s v = elim (Bool-cases (locked && is_healthy_locked F s)) [
        | inl well ↦ rw well (push_at-Kept s (lookup key s.sessions) v)
        | inr ill ↦ rw ill v
      ]

      snapshot_of-Kept :
          (relocked : Bool) (s : State F) (g : Option (GlobalRecord F)) (o : Option ℕ)
          → Kept s
          → Kept (snapshot_of F relocked s g o).1
      unfolding snapshot_of
      snapshot_of-Kept relocked s none o v = mark_unhealthy-Inv F laws policy relocked s v
      snapshot_of-Kept relocked s (some g) none v = poisoned s v
      snapshot_of-Kept relocked s (some g) (some n) v = v

      reserve_outbound_push-Kept :
          (locked : Bool) (s : State F) → Kept s → Kept (reserve_outbound_push F policy locked s).1
      unfolding reserve_outbound_push
      reserve_outbound_push-Kept locked s v = elim (Bool-cases (locked && is_healthy_locked F s)) [
        | inl well ↦ rw well (reserve_push_locked-Kept s v)
        | inr ill ↦ rw ill v
      ]

      -- Every call keeps the limits and the count of sessions.
      step-Inv : (c : Call) (s : State F) → Kept s → Kept (step c s)
      unfolding step register_session unregister_session resolve_session reserve_push release_push
          snapshot
      step-Inv (acquires env key) s v = acquire-Inv F laws policy env key s v
      step-Inv (releases env key) s v = release_state-Inv F laws policy env key s v
      step-Inv (registers locked i r) s v = register_key-Kept locked (session_key digest i) r s v
      step-Inv (unregisters true relocked key r) s v =
          unregister_at-Kept key r s (lookup key s.sessions) v
      step-Inv (unregisters false relocked key r) s v =
          mark_unhealthy-Inv F laws policy relocked s v
      step-Inv (resolves locked i) s v = resolve_key-Kept locked (session_key digest i) s v
      step-Inv (reserves_outbound locked) s v = reserve_outbound_push-Kept locked s v
      step-Inv (reserves locked i) s v = push_key-Kept locked (session_key digest i) s v
      step-Inv (releases_push true relocked) s v = release_pending-Kept s s.pending refl v
      step-Inv (releases_push false relocked) s v = mark_unhealthy-Inv F laws policy relocked s v
      step-Inv (snapshots true relocked) s v = snapshot_of-Kept relocked s s.global s.pending v
      step-Inv (snapshots false relocked) s v = v
      step-Inv (marks_unhealthy relocked) s v = mark_unhealthy-Inv F laws policy relocked s v

      run-Inv : (cs : List Call) (s : State F) → Kept s → Kept (run cs s)
      unfolding run
      run-Inv [] s v = v
      run-Inv (c ∷ cs) s v = run-Inv cs (step c s) (step-Inv c s v)

      -- After any calls on a new state, with any clock readings and failures of the lock, the count of
      -- active sessions is the sum over the peers, it and each peer's count are within the policy, so
      -- are the tracked peers, the session routes and the pending pushes, and no token bucket holds
      -- more than its burst.
      pub run-init-Inv :
          (now : F.Carrier) (cs : List Call) → Inv F laws policy (run cs (init F policy now))
      run-init-Inv now cs = run-Inv cs _ (init-Inv F laws policy now)
