-- ===== src/Admission/Invariant.antt =====
-- The invariant of the admission state of src/drift/server/admission.py, over its operations.
use community_ai.Prelude.{
  ℕ, ◌+◌, ◌-◌, ◌≤◌, ◌<◌, ◌≡◌, refl, ap, subst, ◌∙◌, inl, inr, ◌⊎◌, Bool, true, false, Option, none,
  some, arith, length, lookup, put, Every, Distinct, Distinct-put, Every-put, Every-lookup,
  length-put_new, length-put_old, total-put_new, total-put_old, Float, Ordered, float_min_bound,
}
use community_ai.Admission.Policy.{AdmissionPolicy}
use community_ai.Admission.State.{
  Env, GlobalRecord, PeerRecord, State, init, mark_unhealthy, mark_unhealthy_locked,
}
use community_ai.Admission.Quota.{
  refill, reject, prune_inactive_peers, admit, grant, fresh_peer, admit_peer, acquire,
  release_state,
}
use community_ai.Admission.Cases.{admit_cases, admit_peer_cases, acquire_cases, release_cases}
use community_ai.Admission.Prune.{
  all_sessions, prune-Every, prune-Distinct, length-prune-le, all_sessions-prune,
  lookup-prune_absent,
}

module _ (F : Float) (laws : Ordered F) (policy : AdmissionPolicy F) where
  abbrev pub active_of : Option (GlobalRecord F) → ℕ
  active_of none = 0
  active_of (some g) = g.active

  abbrev pub WithinBurst : ℕ → F.Carrier → Type 0
  WithinBurst burst tokens = F.lt (F.of_ℕ burst) tokens ≡ false

  abbrev pub GlobalTokens : Option (GlobalRecord F) → Type 0
  GlobalTokens none = Unit {0}
  GlobalTokens (some g) = WithinBurst policy.global_session_burst g.tokens

  abbrev pub pending_of : Option ℕ → ℕ
  pending_of none = 0
  pending_of (some n) = n

  abbrev pub PeerWithin : PeerRecord F → Type 0
  PeerWithin r =
      (r.active ≤ policy.max_active_sessions_per_peer)
      × WithinBurst policy.peer_session_burst r.tokens

  pub record Inv (s : State F) : Type 0 where
    -- The global count is the sum of the peers' counts.
    pub conserved : all_sessions F s.peers ≡ active_of s.global
    pub active_bound : active_of s.global ≤ policy.max_active_sessions
    pub global_tokens : GlobalTokens s.global
    pub each_peer : Every PeerWithin s.peers
    pub tracked_bound : length s.peers ≤ policy.max_tracked_peers
    pub routes_bound : length s.sessions ≤ policy.max_active_sessions
    pub pending_bound : pending_of s.pending ≤ policy.max_pending_pushes
    pub distinct : Distinct s.peers

  pub init-Inv : (now : F.Carrier) → Inv (init F policy now)
  unfolding init
  init-Inv now = ground (arith, laws.lt_irrefl (F.of_ℕ policy.global_session_burst))

  refill_bound :
      (tokens updated now rate : F.Carrier) (burst : ℕ) (t : F.Carrier)
      → refill F tokens updated now rate burst ≡ some t
      → WithinBurst burst t
  unfolding refill
  refill_bound tokens updated now rate burst t e =
      ground (
        arith,
        float_min_bound F laws (F.of_ℕ burst) (F.add tokens (F.mul (F.sub now updated) rate)),
      )

  pub mark_unhealthy_locked-Inv : (s : State F) → Inv s → Inv (mark_unhealthy_locked F s)
  unfolding mark_unhealthy_locked
  mark_unhealthy_locked-Inv s v = ground (arith, laws.of_ℕ_bound 0 policy.global_session_burst)

  poison-Inv : (s : State F) → Inv s → Inv (record s { health = false })
  poison-Inv s v = record {
    conserved = v.conserved;
    active_bound = v.active_bound;
    global_tokens = v.global_tokens;
    each_peer = v.each_peer;
    tracked_bound = v.tracked_bound;
    routes_bound = v.routes_bound;
    pending_bound = v.pending_bound;
    distinct = v.distinct;
  }

  pub mark_unhealthy-Inv :
      (relocked : Bool) (s : State F) → Inv s → Inv (mark_unhealthy F relocked s)
  unfolding mark_unhealthy
  mark_unhealthy-Inv true s v = mark_unhealthy_locked-Inv _ (poison-Inv s v)
  mark_unhealthy-Inv false s v = poison-Inv s v

  -- What `acquire` knows of the global record that it refilled.
  record Refilled (g : GlobalRecord F) (s : State F) : Type 0 where
    counted : all_sessions F s.peers ≡ g.active
    bounded : g.active ≤ policy.max_active_sessions
    filled : WithinBurst policy.global_session_burst g.tokens

  -- A new global record, over the same tables.
  global-Inv :
      (g : GlobalRecord F) (s : State F) → Refilled g s → Inv s → Inv (record s { global = some g })
  global-Inv g s r v = record {
    conserved = r.counted;
    active_bound = r.bounded;
    global_tokens = r.filled;
    each_peer = v.each_peer;
    tracked_bound = v.tracked_bound;
    routes_bound = v.routes_bound;
    pending_bound = v.pending_bound;
    distinct = v.distinct;
  }

  reject-Inv :
      (g : GlobalRecord F) (now : F.Carrier) (s : State F)
      → Refilled g s
      → Inv s
      → Inv (reject F g now s)
  unfolding reject
  reject-Inv g now s r v =
      global-Inv _ s (record { counted = r.counted; bounded = r.bounded; filled = r.filled }) v

  -- The peer's record stands in the table, or is new and has room.
  abbrev HasSlot : ℕ → PeerRecord F → State F → Type 0
  HasSlot key peer s =
      (lookup key s.peers ≡ some peer)
      ⊎ ((lookup key s.peers ≡ none)
          × (peer.active ≡ 0)
          × (length s.peers < policy.max_tracked_peers))

  grant-Inv :
      (now : F.Carrier) (key : ℕ) (g : GlobalRecord F) (peer : PeerRecord F) (t : F.Carrier)
      (s : State F)
      → Refilled g s
      → HasSlot key peer s
      → Inv s
      → g.active < policy.max_active_sessions
      → peer.active < policy.max_active_sessions_per_peer
      → WithinBurst policy.peer_session_burst t
      → Inv (grant F now key g peer t s).1
  unfolding grant
  grant-Inv now key g peer t s r slot v room peer_room filled =
      let new : PeerRecord F = record {
        active = peer.active + 1;
        tokens = F.sub t (F.of_ℕ 1);
        updated = now;
        last_seen = now;
      } in
      record {
        conserved = ground (
          arith,
          r.counted,
          total-put_old (λ (x : PeerRecord F). x.active) key new peer s.peers,
          total-put_new (λ (x : PeerRecord F). x.active) key new s.peers,
        );
        active_bound = omega arith;
        global_tokens = laws.sub_one_bound _ _ r.filled;
        each_peer =
            Every-put PeerWithin key new s.peers (omega arith, laws.sub_one_bound _ _ filled)
              v.each_peer;
        tracked_bound =
            ground (arith, length-put_old key new peer s.peers, length-put_new key new s.peers);
        routes_bound = v.routes_bound;
        pending_bound = v.pending_bound;
        distinct = Distinct-put key new s.peers v.distinct;
      }

  admit-Inv :
      (now : F.Carrier) (key : ℕ) (g : GlobalRecord F) (peer : PeerRecord F) (s : State F)
      → Refilled g s
      → HasSlot key peer s
      → Inv s
      → Inv (admit F policy now key g peer s).1
  admit-Inv now key g peer s r slot v =
      admit_cases F policy now key g peer s (λ o. Inv o.1) v (reject-Inv g now s r v)
        λ t e room peer_room _ _.
          grant-Inv now key g peer t s r slot v room peer_room (refill_bound _ _ _ _ _ t e)

  prune-Inv : (now : F.Carrier) (s : State F) → Inv s → Inv (prune_inactive_peers F policy now s)
  unfolding prune_inactive_peers
  prune-Inv now s v = record {
    conserved = all_sessions-prune F policy now s v.distinct ∙ v.conserved;
    active_bound = v.active_bound;
    global_tokens = v.global_tokens;
    each_peer = prune-Every F policy now s PeerWithin v.each_peer;
    tracked_bound = omega (arith, length-prune-le F policy now s);
    routes_bound = v.routes_bound;
    pending_bound = v.pending_bound;
    distinct = prune-Distinct F policy now s v.distinct;
  }

  admit_peer-Inv :
      (now : F.Carrier) (key : ℕ) (g : GlobalRecord F) (s : State F)
      → Refilled g s
      → Inv s
      → Inv (admit_peer F policy now key g s).1
  admit_peer-Inv now key g s r v =
      let pruned = prune_inactive_peers F policy now s in
      let v' = prune-Inv now s v in
      let r' : Refilled g pruned = record {
        counted = all_sessions-prune F policy now s v.distinct ∙ r.counted;
        bounded = r.bounded;
        filled = r.filled;
      } in
      admit_peer_cases F policy now key g s (λ o. Inv o.1)
        (λ peer e. admit-Inv now key g peer s r (inl e) v) (λ absent. reject-Inv g now pruned r' v')
        λ absent room.
          admit-Inv now key g (fresh_peer F policy now) pruned r'
            (inr (lookup-prune_absent F policy now s key absent, unfold fresh_peer in refl, room))
            v'

  -- Whatever the clock and the lock do, `acquire` keeps the invariant.
  pub acquire-Inv :
      (env : Env F) (key : ℕ) (s : State F) → Inv s → Inv (acquire F policy env key s).1
  acquire-Inv env key s v =
      acquire_cases F policy env key s (λ o. Inv o.1) v (mark_unhealthy-Inv env.relocked s v)
        (λ out o w. w)
        λ now g tokens present healthy e.
          admit_peer-Inv now key _ s
            (record {
              counted = v.conserved ∙ ap active_of present;
              bounded = ground arith;
              filled = refill_bound _ _ _ _ _ tokens e;
            })
            v

  returned-Inv :
      (now : F.Carrier) (key : ℕ) (s : State F) (g : GlobalRecord F) (peer : PeerRecord F)
      → Inv s
      → s.global ≡ some g
      → lookup key s.peers ≡ some peer
      → 1 ≤ g.active
      → 1 ≤ peer.active
      → Inv (record s {
        global = some (record g { active = g.active - 1 });
        peers = put key (record peer { active = peer.active - 1; last_seen = now }) s.peers;
      })
  returned-Inv now key s g peer v e f p q =
      let back : PeerRecord F = record peer { active = peer.active - 1; last_seen = now } in
      let fine = Every-lookup PeerWithin key peer s.peers v.each_peer f in
      record {
        conserved = omega (
          arith,
          v.conserved ∙ ap active_of e,
          total-put_old (λ (x : PeerRecord F). x.active) key back peer s.peers f,
        );
        active_bound = omega (arith, ap active_of e);
        global_tokens = subst GlobalTokens e v.global_tokens;
        each_peer =
            Every-put PeerWithin key back s.peers (omega (arith, fine.0), fine.1) v.each_peer;
        tracked_bound = omega (arith, length-put_old key back peer s.peers f);
        routes_bound = v.routes_bound;
        pending_bound = v.pending_bound;
        distinct = Distinct-put key back s.peers v.distinct;
      }

  pub release_state-Inv :
      (env : Env F) (key : ℕ) (s : State F) → Inv s → Inv (release_state F env key s)
  release_state-Inv env key s v =
      release_cases F policy env.relocked key s Inv (mark_unhealthy-Inv env.relocked s v)
        (λ t w. mark_unhealthy-Inv env.relocked t w)
        (λ g e.
          global-Inv _ s
            (record {
              counted = v.conserved ∙ ap active_of e;
              bounded = omega (arith, ap active_of e);
              filled = subst GlobalTokens e v.global_tokens;
            })
            v)
        (λ now g peer e f p q. returned-Inv now key s g peer v e f p q) env.clock env.locked
        env.unlocked
