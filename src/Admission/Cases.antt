-- ===== src/Admission/Cases.antt =====
-- Case rules for `acquire` and `release` of src/drift/server/admission.py: a property of every way
-- in which a call can end.
use community_ai.Prelude.{
  ℕ, ◌-◌, ◌≤◌, ◌<◌, ◌≡◌, refl, inl, inr, Bool, true, false, not, ◌||◌, Option, none, some, arith,
  ltb, leb, if◌then◌else◌, Bool-cases, Option-cases, subst, length, lookup, put, Float,
}
use community_ai.Admission.Policy.{AdmissionPolicy}
use community_ai.Admission.State.{
  Clock-cases, Reply, rejected, unavailable, overload, Clock, reading, not_finite, fault, Env,
  GlobalRecord, PeerRecord, State, is_healthy_locked, mark_unhealthy,
}
use community_ai.Admission.Quota.{
  refill, reject, prune_inactive_peers, AdmissionLease, grant, admit, fresh_peer, admit_peer, leave,
  acquire_locked, acquire, release_from, release_state,
}

module _ (F : Float) (policy : AdmissionPolicy F) where
  pub admit_cases {ℓ} :
      (now : F.Carrier) (key : ℕ) (g : GlobalRecord F) (peer : PeerRecord F) (s : State F)
      (P : Reply AdmissionLease × State F → Type ℓ)
      → P (rejected unavailable, s)
      → P (rejected overload, reject F g now s)
      → ((t : F.Carrier)
          → refill F peer.tokens peer.updated now policy.peer_session_rate policy.peer_session_burst
            ≡ some t
          → g.active < policy.max_active_sessions
          → peer.active < policy.max_active_sessions_per_peer
          → F.lt g.tokens (F.of_ℕ 1) ≡ false
          → F.lt t (F.of_ℕ 1) ≡ false
          → P (grant F now key g peer t s))
      → P (admit F policy now key g peer s)
  unfolding admit
  admit_cases now key g peer s P refused over granted =
      elim (Option-cases (
        refill F peer.tokens peer.updated now policy.peer_session_rate policy.peer_session_burst)) [
          | inl e ↦ rw (e, admit) refused
          | inr (t, e) ↦ rw (e, admit) (limits t e)
        ]
    where
      limits :
          (t : F.Carrier)
          → refill F peer.tokens peer.updated now policy.peer_session_rate policy.peer_session_burst
            ≡ some t
          → P (
              if leb policy.max_active_sessions g.active
              then (rejected overload, reject F g now s)
              else if leb policy.max_active_sessions_per_peer peer.active
              then (rejected overload, reject F g now s)
              else if F.lt g.tokens (F.of_ℕ 1) || F.lt t (F.of_ℕ 1)
              then (rejected overload, reject F g now s)
              else grant F now key g peer t s)
      limits t e = elim (Bool-cases (leb policy.max_active_sessions g.active)) [
        | inl full ↦ rw full over
        | inr room ↦
            rw room (elim (Bool-cases (leb policy.max_active_sessions_per_peer peer.active)) [
              | inl busy ↦ rw busy over
              | inr free ↦
                  rw free (elim (Bool-cases (F.lt g.tokens (F.of_ℕ 1) || F.lt t (F.of_ℕ 1))) [
                    | inl dry ↦ rw dry over
                    | inr wet ↦
                        rw wet
                          (granted t e (ground arith) (ground arith) (ground arith) (ground arith))
                  ])
            ])
      ]

  pub admit_peer_cases {ℓ} :
      (now : F.Carrier) (key : ℕ) (g : GlobalRecord F) (s : State F)
      (P : Reply AdmissionLease × State F → Type ℓ)
      → ((peer : PeerRecord F)
          → lookup key s.peers ≡ some peer
          → P (admit F policy now key g peer s))
      → (lookup key s.peers ≡ none
          → P (rejected overload, reject F g now (prune_inactive_peers F policy now s)))
      → (lookup key s.peers ≡ none
          → length (prune_inactive_peers F policy now s).peers < policy.max_tracked_peers
          → P (
              admit F policy now key g
                (fresh_peer F policy now)
                (prune_inactive_peers F policy now s)))
      → P (admit_peer F policy now key g s)
  unfolding admit_peer
  admit_peer_cases now key g s P found full fresh = elim (Option-cases (lookup key s.peers)) [
    | inr (peer, e) ↦ rw (e, admit_peer) (found peer e)
    | inl e ↦
        let pruned = prune_inactive_peers F policy now s in
        rw (e, admit_peer)
          (elim (Bool-cases (leb policy.max_tracked_peers (length pruned.peers))) [
            | inl over ↦ rw over (full e)
            | inr room ↦ rw room (fresh e (ground arith))
          ])
  ]

  locked_cases {ℓ} :
      (now : F.Carrier) (unlocked relocked : Bool) (key : ℕ) (s : State F)
      (P : Reply AdmissionLease × State F → Type ℓ)
      → P (rejected unavailable, s)
      → P (rejected unavailable, mark_unhealthy F relocked s)
      → ((g : GlobalRecord F) (tokens : F.Carrier)
          → s.global ≡ some g
          → is_healthy_locked F s ≡ true
          → refill F g.tokens g.updated now policy.global_session_rate policy.global_session_burst
            ≡ some tokens
          → P (admit_peer F policy now key (record g { tokens = tokens; updated = now }) s))
      → P (acquire_locked F policy now unlocked relocked key s)
  unfolding acquire_locked
  locked_cases now unlocked relocked key s P refused poisoned admitted =
      elim (Option-cases s.global) [
        | inr (g, present) ↦ rw (present, acquire_locked) (healthy g present)
        | inl missing ↦
            rw (missing, acquire_locked)
              (elim (Bool-cases unlocked) [
                | inl gone ↦ rw gone poisoned
                | inr kept ↦ rw kept refused
              ])
      ]
    where
      tail : GlobalRecord F → Option F.Carrier → Reply AdmissionLease × State F
      tail g o = elim o [
        | none ↦ (rejected unavailable, s)
        | some tokens ↦ admit_peer F policy now key (record g { tokens = tokens; updated = now }) s
      ]

      healthy :
          (g : GlobalRecord F)
          → s.global ≡ some g
          → P (
              if not (is_healthy_locked F s)
              then (rejected unavailable, s)
              else tail g (
                  refill F g.tokens g.updated now policy.global_session_rate
                    policy.global_session_burst))
      healthy g present = elim (Bool-cases (is_healthy_locked F s)) [
        | inr ill ↦ rw ill refused
        | inl well ↦
            rw well
              (elim (Option-cases (
                refill F g.tokens g.updated now policy.global_session_rate
                  policy.global_session_burst)) [
                    | inl back ↦ rw back refused
                    | inr (t, e) ↦ rw e (admitted g t present well e)
                  ])
      ]

  -- The rule `lost` is for a lock that is not let go: the answer is lost, the change stays.
  pub acquire_cases {ℓ} :
      (env : Env F) (key : ℕ) (s : State F) (P : Reply AdmissionLease × State F → Type ℓ)
      → P (rejected unavailable, s)
      → P (rejected unavailable, mark_unhealthy F env.relocked s)
      → (env.unlocked ≡ false
          → (o : Reply AdmissionLease × State F) → P o
          → P (rejected unavailable, o.1))
      → ((now : F.Carrier) (g : GlobalRecord F) (tokens : F.Carrier)
          → s.global ≡ some g
          → is_healthy_locked F s ≡ true
          → refill F g.tokens g.updated now policy.global_session_rate policy.global_session_burst
            ≡ some tokens
          → P (admit_peer F policy now key (record g { tokens = tokens; updated = now }) s))
      → P (acquire F policy env key s)
  unfolding acquire leave
  acquire_cases env key s P refused poisoned lost admitted = elim (Clock-cases F env.clock) [
    | inl e ↦ rw (e, acquire) refused
    | inr (inl e) ↦ rw (e, acquire) poisoned
    | inr (inr (now, e)) ↦
        let body =
          locked_cases now env.unlocked env.relocked key s P refused poisoned (admitted now) in
        rw (e, acquire)
          (elim (Bool-cases env.locked) [
            | inr out ↦ rw out refused
            | inl got ↦ rw got (elim (Bool-cases env.unlocked) [
              | inl gone ↦
                  rw (gone, leave)
                    (subst (λ u. P (acquire_locked F policy now u env.relocked key s)) gone body)
              | inr kept ↦
                  rw (kept, leave)
                    (subst
                      (λ u. P (
                        rejected unavailable,
                        (acquire_locked F policy now u env.relocked key s).1,
                      ))
                      kept (lost kept _ body))
            ])
          ])
  ]

  module _ {ℓ} (relocked : Bool) (key : ℕ) (s : State F) (P : State F → Type ℓ)
      (poisoned : P (mark_unhealthy F relocked s))
      (kept : (t : State F) → P t → P (mark_unhealthy F relocked t))
      (underflow : (g : GlobalRecord F)
        → s.global ≡ some g
        → P (record s { global = some (record g { healthy = false }) }))
      (returned : (now : F.Carrier) (g : GlobalRecord F) (peer : PeerRecord F)
        → s.global ≡ some g
        → lookup key s.peers ≡ some peer
        → 1 ≤ g.active
        → 1 ≤ peer.active
        → P (record s {
          global = some (record g { active = g.active - 1 });
          peers = put key (record peer { active = peer.active - 1; last_seen = now }) s.peers;
        })) where
    release_from_cases :
        (now : F.Carrier) (global : Option (GlobalRecord F)) (found : Option (PeerRecord F))
        → s.global ≡ global
        → lookup key s.peers ≡ found
        → P (release_from F now relocked key s global found)
    unfolding release_from
    release_from_cases now none found e f = poisoned
    release_from_cases now (some g) none e f = underflow g e
    release_from_cases now (some g) (some peer) e f =
        elim (Bool-cases (ltb g.active 1 || ltb peer.active 1)) [
          | inl less ↦ rw less (underflow g e)
          | inr enough ↦ rw enough (returned now g peer e f (ground arith) (ground arith))
        ]

    pub release_cases :
        (clock : Clock F) (locked unlocked : Bool)
        → P (
            release_state F
              (record { clock = clock; locked = locked; unlocked = unlocked; relocked = relocked })
              key
              s)
    unfolding release_state
    release_cases (reading now) true true =
        release_from_cases now s.global (lookup key s.peers) refl refl
    release_cases (reading now) true false =
        kept _ (release_from_cases now s.global (lookup key s.peers) refl refl)
    release_cases (reading now) false unlocked = poisoned
    release_cases not_finite locked unlocked = poisoned
    release_cases fault locked unlocked = poisoned
