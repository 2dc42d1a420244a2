-- ===== src/Admission/FailClosed.antt =====
-- Admission of src/drift/server/admission.py that has lost its health.
use community_ai.Prelude.{
  ℕ, ◌≡◌, refl, ap, sym, subst, inl, inr, Bool, true, false, ◌&&◌, Option, none, some, List, [],
  ◌∷◌, arith, ltb, ◌==◌, Bool-cases, lookup, Float,
}
use community_ai.Admission.Policy.{AdmissionPolicy}
use community_ai.Admission.State.{
  Reply, ok, rejected, unavailable, Env, GlobalRecord, PeerRecord, Route, State, is_healthy_locked,
  mark_unhealthy, mark_unhealthy_locked,
}
use community_ai.Admission.Quota.{acquire, release_state}
use community_ai.Admission.Routes.{
  session_key, register_session, register_key, unregister_session, unregister_at, resolve_session,
  resolve_key, is_route_token, same_token, reserve_outbound_push, reserve_push, push_key,
  release_pending, release_push, snapshot, snapshot_of,
}
use community_ai.Admission.Cases.{acquire_cases, release_cases}
use community_ai.Admission.Steps.{
  Call, acquires, releases, registers, unregisters, resolves, reserves_outbound, reserves,
  releases_push, snapshots, marks_unhealthy, step, run,
}

module _ (F : Float) where
  abbrev pub IsClosed : State F → Type 0
  IsClosed s = is_healthy_locked F s ≡ false

  IsClosed-health : (s : State F) → s.health ≡ false → IsClosed s
  unfolding is_healthy_locked
  IsClosed-health s h = ground arith

  mark_unhealthy_locked-IsClosed : (s : State F) → IsClosed (mark_unhealthy_locked F s)
  unfolding mark_unhealthy_locked is_healthy_locked
  mark_unhealthy_locked-IsClosed s = refl

  mark_unhealthy-IsClosed : (relocked : Bool) (s : State F) → IsClosed (mark_unhealthy F relocked s)
  unfolding mark_unhealthy
  mark_unhealthy-IsClosed true s = mark_unhealthy_locked-IsClosed (record s { health = false })
  mark_unhealthy-IsClosed false s = IsClosed-health _ refl

  pending_same : (s : State F) (o : Option ℕ) → IsClosed s → IsClosed (record s { pending = o })
  unfolding is_healthy_locked
  pending_same s o c = c

  sessions_same :
      (s : State F) (t : List (ℕ × Route F)) → IsClosed s → IsClosed (record s { sessions = t })
  unfolding is_healthy_locked
  sessions_same s t c = c

  returned-IsClosed :
      (s : State F) (g : GlobalRecord F) (n : ℕ) (t : List (ℕ × PeerRecord F))
      → s.global ≡ some g
      → IsClosed s
      → IsClosed (record s { global = some (record g { active = n }); peers = t })
  unfolding is_healthy_locked
  returned-IsClosed s g n t e c = ground arith

  underflow-IsClosed :
      (s : State F) (g : GlobalRecord F)
      → IsClosed (record s { global = some (record g { healthy = false }) })
  unfolding is_healthy_locked
  underflow-IsClosed s g = ground arith

  module _ (policy : AdmissionPolicy F) where
    acquire-IsClosed :
        (env : Env F) (key : ℕ) (s : State F) → IsClosed s → IsClosed (acquire F policy env key s).1
    acquire-IsClosed env key s c =
        acquire_cases F policy env key s (λ o. IsClosed o.1) c
          (mark_unhealthy-IsClosed env.relocked s) (λ out o w. w)
          λ now g tokens present healthy e. absurd (cc)

    -- A closed state admits nobody, whoever asks and whatever the clock says.
    acquire_closed :
        (env : Env F) (key : ℕ) (s : State F)
        → IsClosed s
        → (acquire F policy env key s).0 ≡ rejected unavailable
    acquire_closed env key s c =
        acquire_cases F policy env key s (λ o. o.0 ≡ rejected unavailable) refl refl
          (λ out o w. refl) λ now g tokens present healthy e. absurd (cc)

    release-IsClosed :
        (env : Env F) (key : ℕ) (s : State F) → IsClosed s → IsClosed (release_state F env key s)
    release-IsClosed env key s c =
        release_cases F policy env.relocked key s IsClosed (mark_unhealthy-IsClosed env.relocked s)
          (λ t w. mark_unhealthy-IsClosed env.relocked t) (λ g e. underflow-IsClosed s g)
          (λ now g peer e f p q. returned-IsClosed s g _ _ e c) env.clock env.locked env.unlocked

    module _ (digest : List ℕ → ℕ) where
      register_closed :
          (locked : Bool) (k : Reply ℕ) (r : Route F) (s : State F)
          → IsClosed s
          → (register_key F policy locked k r s).1 ≡ s
      unfolding register_key
      register_closed locked (rejected reason) r s c = refl
      register_closed locked (ok key) r s c =
          let shut : (is_route_token r.token && locked && is_healthy_locked F s) ≡ false =
            ground arith in
          rw shut

      unregister_at-IsClosed :
          (key : ℕ) (r : Route F) (s : State F) (o : Option (Route F))
          → IsClosed s
          → IsClosed (unregister_at F key r s o)
      unfolding unregister_at
      unregister_at-IsClosed key r s none c = mark_unhealthy_locked-IsClosed s
      unregister_at-IsClosed key r s (some x) c =
          elim (Bool-cases (x.owner == r.owner && same_token x.token r.token)) [
            | inl same ↦ rw same (sessions_same s _ c)
            | inr other ↦ rw other (mark_unhealthy_locked-IsClosed s)
          ]

      resolve_closed :
          (locked : Bool) (k : Reply ℕ) (s : State F)
          → IsClosed s
          → (resolve_key F locked k s).1 ≡ s
      unfolding resolve_key
      resolve_closed locked (rejected reason) s c = refl
      resolve_closed locked (ok key) s c =
          let shut : (locked && is_healthy_locked F s) ≡ false = ground arith in rw shut

      push_closed :
          (locked : Bool) (k : Reply ℕ) (s : State F)
          → IsClosed s
          → (push_key F policy locked k s).1 ≡ s
      unfolding push_key
      push_closed locked (rejected reason) s c = refl
      push_closed locked (ok key) s c =
          let shut : (locked && is_healthy_locked F s) ≡ false = ground arith in rw shut

      outbound_closed :
          (locked : Bool) (s : State F)
          → IsClosed s
          → reserve_outbound_push F policy locked s ≡ (rejected unavailable, s)
      unfolding reserve_outbound_push
      outbound_closed locked s c =
          let shut : (locked && is_healthy_locked F s) ≡ false = ground arith in rw shut

      release_pending-IsClosed :
          (s : State F) (o : Option ℕ) → IsClosed s → IsClosed (release_pending F s o)
      unfolding release_pending
      release_pending-IsClosed s none c = mark_unhealthy_locked-IsClosed s
      release_pending-IsClosed s (some n) c = elim (Bool-cases (ltb n 1)) [
        | inl less ↦ rw less (mark_unhealthy_locked-IsClosed s)
        | inr enough ↦ rw enough (pending_same s _ c)
      ]

      snapshot_of-IsClosed :
          (relocked : Bool) (s : State F) (g : Option (GlobalRecord F)) (o : Option ℕ)
          → IsClosed s
          → IsClosed (snapshot_of F relocked s g o).1
      unfolding snapshot_of
      snapshot_of-IsClosed relocked s none o c = mark_unhealthy-IsClosed relocked s
      snapshot_of-IsClosed relocked s (some g) none c = mark_unhealthy_locked-IsClosed s
      snapshot_of-IsClosed relocked s (some g) (some n) c = c

      step-IsClosed : (c : Call F) (s : State F) → IsClosed s → IsClosed (step F digest policy c s)
      unfolding step register_session unregister_session resolve_session reserve_push release_push
          snapshot
      step-IsClosed (acquires env key) s c = acquire-IsClosed env key s c
      step-IsClosed (releases env key) s c = release-IsClosed env key s c
      step-IsClosed (registers locked i r) s c =
          rw (register_closed locked (session_key digest i) r s c) c
      step-IsClosed (unregisters true relocked key r) s c =
          unregister_at-IsClosed key r s (lookup key s.sessions) c
      step-IsClosed (unregisters false relocked key r) s c = mark_unhealthy-IsClosed relocked s
      step-IsClosed (resolves locked i) s c =
          rw (resolve_closed locked (session_key digest i) s c) c
      step-IsClosed (reserves_outbound locked) s c =
          subst IsClosed (ap (λ o. o.1) (sym (outbound_closed locked s c))) c
      step-IsClosed (reserves locked i) s c = rw (push_closed locked (session_key digest i) s c) c
      step-IsClosed (releases_push true relocked) s c = release_pending-IsClosed s s.pending c
      step-IsClosed (releases_push false relocked) s c = mark_unhealthy-IsClosed relocked s
      step-IsClosed (snapshots true relocked) s c =
          snapshot_of-IsClosed relocked s s.global s.pending c
      step-IsClosed (snapshots false relocked) s c = c
      step-IsClosed (marks_unhealthy relocked) s c = mark_unhealthy-IsClosed relocked s

      pub run-IsClosed :
          (cs : List (Call F)) (s : State F) → IsClosed s → IsClosed (run F digest policy cs s)
      unfolding run
      run-IsClosed [] s c = c
      run-IsClosed (x ∷ cs) s c = run-IsClosed cs _ (step-IsClosed x s c)

      -- Once `mark_unhealthy` was called, with or without the lock, no later call reopens admission:
      -- after any calls `acquire` and the reservation of a push are rejected as unavailable.
      pub poisoned_for_good :
          (relocked : Bool) (s : State F) (cs : List (Call F)) (env : Env F) (key : ℕ)
          (locked : Bool)
          → let later = run F digest policy cs (mark_unhealthy F relocked s) in
            ((acquire F policy env key later).0 ≡ rejected unavailable)
            × ((reserve_outbound_push F policy locked later).0 ≡ rejected unavailable)
      poisoned_for_good relocked s cs env key locked =
          let closed = run-IsClosed cs _ (mark_unhealthy-IsClosed relocked s) in
          (acquire_closed env key _ closed, ap (λ o. o.0) (outbound_closed locked _ closed))
