-- ===== src/Admission/Lease.antt =====
-- What `acquire` and `release` of src/drift/server/admission.py do to the count of each peer.
use community_ai.Prelude.{
  ℕ, ◌+◌, ◌-◌, ◌≤◌, ◌<◌, ◌≡◌, refl, ◌⊎◌, inl, inr, Bool, true, false, Option, none, some, arith,
  ◌==◌, if◌then◌else◌, lookup, lookup-put, Distinct, Float,
}
use community_ai.Admission.Policy.{AdmissionPolicy}
use community_ai.Admission.State.{
  Reply, ok, rejected, unavailable, reading, Env, GlobalRecord, PeerRecord, State, mark_unhealthy,
  mark_unhealthy_locked,
}
use community_ai.Admission.Quota.{
  reject, AdmissionLease, grant, admit, fresh_peer, acquire, release_state, release_from, release,
}
use community_ai.Admission.Prune.{sessions_of, sessions_of-prune}
use community_ai.Admission.Cases.{admit_cases, admit_peer_cases, acquire_cases}

module _ (F : Float) (policy : AdmissionPolicy F) where
  -- The peer had fewer sessions than its limit and has one more, every other peer as many as before.
  abbrev pub IsCounted : ℕ → State F → State F → Type 0
  IsCounted key s t =
      (sessions_of F key s.peers < policy.max_active_sessions_per_peer)
      × ((j : ℕ)
          → sessions_of F j t.peers
            ≡ (if key == j then sessions_of F key s.peers + 1 else sessions_of F j s.peers))

  -- An admitted peer is counted; a rejected call changes nobody's count, unless the lock was not let
  -- go (`unlocked` is false), where the rejection is for unavailability and the peer may be counted.
  abbrev pub Effect : Bool → ℕ → State F → Reply AdmissionLease × State F → Type 0
  Effect unlocked key s (ok lease, s') =
      (lease ≡ record { peer_key = key; released = false })
      × IsCounted key s s'
      × (g : GlobalRecord F) × (s'.global ≡ some g)
      × (1 ≤ g.active)
  Effect unlocked key s (rejected reason, s') =
      ((j : ℕ) → sessions_of F j s'.peers ≡ sessions_of F j s.peers)
      ⊎ ((unlocked ≡ false) × (reason ≡ unavailable) × IsCounted key s s')

  mark_unhealthy-peers :
      (relocked : Bool) (s : State F) → (mark_unhealthy F relocked s).peers ≡ s.peers
  unfolding mark_unhealthy mark_unhealthy_locked
  mark_unhealthy-peers true s = refl
  mark_unhealthy-peers false s = refl

  reject-peers :
      (g : GlobalRecord F) (now : F.Carrier) (s : State F) → (reject F g now s).peers ≡ s.peers
  unfolding reject
  reject-peers g now s = refl

  -- `s` is the state of the call, `t` the one after pruning.
  admit-Effect :
      (unlocked : Bool) (now : F.Carrier) (key : ℕ) (g : GlobalRecord F) (peer : PeerRecord F)
      (s t : State F)
      → ((j : ℕ) → sessions_of F j t.peers ≡ sessions_of F j s.peers)
      → sessions_of F key s.peers ≡ peer.active
      → Effect unlocked key s (admit F policy now key g peer t)
  unfolding grant
  admit-Effect unlocked now key g peer s t same own =
      admit_cases F policy now key g peer t (Effect unlocked key s) (inl same)
        (inl λ j. rw reject-peers (same j))
        λ tokens e room peer_room _ _. (
          refl,
          (
            omega arith,
            λ j. ground (
              arith,
              lookup-put key j
                  (record {
                    active = peer.active + 1;
                    tokens = F.sub tokens (F.of_ℕ 1);
                    updated = now;
                    last_seen = now;
                  })
                  t.peers,
              same j,
            ),
          ),
          _,
          refl,
          omega arith,
        )

  lost-Effect :
      (unlocked : Bool) (key : ℕ) (s : State F)
      → unlocked ≡ false
      → (o : Reply AdmissionLease × State F) → Effect unlocked key s o
      → Effect unlocked key s (rejected unavailable, o.1)
  lost-Effect unlocked key s e (ok lease, t) (own, counted, g, present, positive) =
      inr (e, refl, counted)
  lost-Effect unlocked key s e (rejected reason, t) (inl same) = inl same
  lost-Effect unlocked key s e (rejected reason, t) (inr (f, r, counted)) = inr (e, refl, counted)

  -- The effect of `acquire` on every peer's count of sessions, whatever it answers: an admitted
  -- caller had fewer than the limit for one peer and has one session more, and no other count changes.
  -- A rejection changes none, unless letting the lock go raised: then it is for unavailability, and
  -- may have counted the caller as an admission does.
  pub acquire-Effect :
      (env : Env F) (key : ℕ) (s : State F)
      → Distinct s.peers
      → Effect env.unlocked key s (acquire F policy env key s)
  unfolding fresh_peer
  acquire-Effect env key s d =
      acquire_cases F policy env key s (Effect env.unlocked key s) (inl λ j. refl)
        (inl λ j. rw mark_unhealthy-peers refl) (lost-Effect env.unlocked key s)
        λ now g tokens present healthy e.
          admit_peer_cases F policy now key _ s (Effect env.unlocked key s)
            (λ peer found. admit-Effect env.unlocked now key _ peer s s (λ j. refl) (ground arith))
            (λ absent. inl λ j. rw reject-peers (sessions_of-prune F policy now s j d))
            λ absent room.
              admit-Effect env.unlocked now key _ _ s _ (λ j. sessions_of-prune F policy now s j d)
                (ground arith)

  release_from-Effect :
      (now : F.Carrier) (relocked : Bool) (key : ℕ) (s : State F) (g : GlobalRecord F) (j : ℕ)
      (global : Option (GlobalRecord F)) (found : Option (PeerRecord F))
      → lookup key s.peers ≡ found
      → global ≡ some g
      → 1 ≤ g.active
      → 1 ≤ sessions_of F key s.peers
      → sessions_of F j (release_from F now relocked key s global found).peers
        ≡ (if key == j then sessions_of F key s.peers - 1 else sessions_of F j s.peers)
  unfolding release_from
  release_from-Effect now relocked key s g j none found f e p q = absurd (cc)
  release_from-Effect now relocked key s g j (some g') none f e p q = absurd (ground arith)
  release_from-Effect now relocked key s g j (some g') (some peer) f e p q =
      ground (
        arith,
        lookup-put key j (record peer { active = peer.active - 1; last_seen = now }) s.peers,
      )

  -- A release with the clock and the lock at hand takes one session off its peer, and nothing else.
  release_state-Effect :
      (now : F.Carrier) (relocked : Bool) (key : ℕ) (s : State F) (g : GlobalRecord F) (j : ℕ)
      → s.global ≡ some g
      → 1 ≤ g.active
      → 1 ≤ sessions_of F key s.peers
      → sessions_of F j
          (release_state F
            (record { clock = reading now; locked = true; unlocked = true; relocked = relocked })
            key
            s).peers
        ≡ (if key == j then sessions_of F key s.peers - 1 else sessions_of F j s.peers)
  unfolding release_state
  release_state-Effect now relocked key s g j e p q =
      release_from-Effect now relocked key s g j s.global (lookup key s.peers) refl e p q

  release_twice :
      (env again : Env F) (lease : AdmissionLease) (s : State F)
      → let back = release F env lease s in release F again back.0 back.1 ≡ back
  unfolding release
  release_twice env again lease s = ground arith

  undone :
      (unlocked : Bool) (now : F.Carrier) (relocked : Bool) (key : ℕ) (s : State F)
      (o : Reply AdmissionLease × State F) (lease : AdmissionLease)
      → Effect unlocked key s o
      → o.0 ≡ ok lease
      → (j : ℕ)
      → sessions_of F j
          (release F
            (record { clock = reading now; locked = true; unlocked = true; relocked = relocked })
            lease
            o.1).1.peers
        ≡ sessions_of F j s.peers
  unfolding release
  undone unlocked now relocked key s (rejected r, s') lease effect e j = absurd (cc)
  undone unlocked now relocked key s (ok l, s') lease effect e j =
      let (own, (below, counts), g, present, some_active) = effect in
      let lease_eq : lease ≡ record { peer_key = key; released = false } = cc in
      rw lease_eq (
        ground (
          arith,
          counts key,
          counts j,
          release_state-Effect now relocked key s' g j present some_active,
        ))

  -- Releasing a lease undoes its acquisition: if `acquire` returned the lease, then after its release,
  -- with the clock and the lock at hand, each peer has the sessions that it had before, and a second
  -- release of the returned lease changes nothing.
  pub acquire-release :
      (env : Env F) (key : ℕ) (s : State F) (lease : AdmissionLease) (now : F.Carrier)
      (relocked : Bool) (again : Env F)
      → Distinct s.peers
      → (acquire F policy env key s).0 ≡ ok lease
      → let back =
          release F
            (record { clock = reading now; locked = true; unlocked = true; relocked = relocked })
            lease
            (acquire F policy env key s).1 in
        ((j : ℕ) → sessions_of F j back.1.peers ≡ sessions_of F j s.peers)
        × (release F again back.0 back.1 ≡ back)
  acquire-release env key s lease now relocked again d e = (
    undone env.unlocked now relocked key s (acquire F policy env key s) lease
        (acquire-Effect env key s d) e,
    release_twice _ again lease _,
  )
