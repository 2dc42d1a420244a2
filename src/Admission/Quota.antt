-- ===== src/Admission/Quota.antt =====
-- Token buckets, the peer table, `acquire` and `release` of src/drift/server/admission.py.
use community_ai.Prelude.{
  ℕ, ◌+◌, ◌-◌, Bool, true, false, not, ◌&&◌, ◌||◌, Option, none, some, List, [], ◌∷◌, ltb, leb,
  ◌==◌, if◌then◌else◌, length, lookup, put, remove, Float, float_min,
}
use community_ai.Admission.Policy.{AdmissionPolicy}
use community_ai.Admission.State.{
  Reply, ok, rejected, unavailable, overload, reading, not_finite, fault, Env, GlobalRecord,
  PeerRecord, State, is_healthy_locked, mark_unhealthy,
}

pub record AdmissionLease : Type 0 where
  pub peer_key : ℕ
  pub released : Bool

module _ (F : Float) where
  -- `none` is the exception of a clock that went back.
  unfoldable pub refill : F.Carrier → F.Carrier → F.Carrier → F.Carrier → ℕ → Option F.Carrier
  refill tokens updated now rate burst =
      if F.lt now updated
      then none
      else some (float_min F (F.of_ℕ burst) (F.add tokens (F.mul (F.sub now updated) rate)))

  unfoldable pub reject : GlobalRecord F → F.Carrier → State F → State F
  reject g now s = record s { global = some (record g { updated = now; refused = g.refused + 1 }) }

  -- The tuples (last_seen, key) in Python's order.
  unfoldable pub before : F.Carrier × ℕ → F.Carrier × ℕ → Bool
  before (a, j) (b, k) = if F.eq a b then ltb j k else F.lt a b

  unfoldable pub insert_sorted : F.Carrier × ℕ → List (F.Carrier × ℕ) → List (F.Carrier × ℕ)
  insert_sorted x [] = x ∷ []
  insert_sorted x (y ∷ ys) = if before x y then x ∷ y ∷ ys else y ∷ insert_sorted x ys

  unfoldable pub sorted : List (F.Carrier × ℕ) → List (F.Carrier × ℕ)
  sorted [] = []
  sorted (x ∷ xs) = insert_sorted x (sorted xs)

  unfoldable pub candidates : F.Carrier → F.Carrier → List (ℕ × PeerRecord F) → List (F.Carrier × ℕ)
  candidates ttl now [] = []
  candidates ttl now ((key, r) ∷ rest) =
      if r.active == 0 && F.le ttl (F.sub now r.last_seen)
      then (r.last_seen, key) ∷ candidates ttl now rest
      else candidates ttl now rest

  unfoldable pub drop_candidates :
      ℕ → List (F.Carrier × ℕ) → List (ℕ × PeerRecord F) → List (ℕ × PeerRecord F)
  drop_candidates limit [] peers = peers
  drop_candidates limit ((_, key) ∷ rest) peers =
      let dropped = drop_candidates limit rest (remove key peers) in
      if ltb (length peers) limit then peers else dropped

  -- _prune_inactive_peers; `tracked_peer_count` is the length of `peers`
  unfoldable pub prune_inactive_peers : AdmissionPolicy F → F.Carrier → State F → State F
  unfolding sorted insert_sorted before candidates drop_candidates
  prune_inactive_peers policy now s = record s {
    peers =
        drop_candidates policy.max_tracked_peers
          (sorted (candidates policy.tracked_peer_ttl now s.peers)) s.peers;
  }

  -- The branch of `acquire` that admits; the token counts are the refilled ones.
  unfoldable pub grant :
      F.Carrier
      → ℕ
      → GlobalRecord F
      → PeerRecord F
      → F.Carrier
      → State F
      → Reply AdmissionLease × State F
  grant now key g peer peer_tokens s = (
    ok (record { peer_key = key; released = false }),
    record s {
      global = some (record {
        active = g.active + 1;
        tokens = F.sub g.tokens (F.of_ℕ 1);
        updated = now;
        accepted = g.accepted + 1;
        refused = g.refused;
        healthy = true;
      });
      peers =
          put key
            (record {
              active = peer.active + 1;
              tokens = F.sub peer_tokens (F.of_ℕ 1);
              updated = now;
              last_seen = now;
            })
            s.peers;
    },
  )

  -- From the limits on: `g` is the refilled global record, `peer` the record of the peer.
  unfoldable pub admit :
      AdmissionPolicy F
      → F.Carrier
      → ℕ
      → GlobalRecord F
      → PeerRecord F
      → State F
      → Reply AdmissionLease × State F
  admit policy now key g peer s =
      elim (refill peer.tokens peer.updated now policy.peer_session_rate
        policy.peer_session_burst) [
          | none ↦ (rejected unavailable, s)
          | some peer_tokens ↦
              if leb policy.max_active_sessions g.active
              then (rejected overload, reject g now s)
              else if leb policy.max_active_sessions_per_peer peer.active
              then (rejected overload, reject g now s)
              else if F.lt g.tokens (F.of_ℕ 1) || F.lt peer_tokens (F.of_ℕ 1)
              then (rejected overload, reject g now s)
              else grant now key g peer peer_tokens s
        ]

  unfoldable pub fresh_peer : AdmissionPolicy F → F.Carrier → PeerRecord F
  fresh_peer policy now = record {
    active = 0;
    tokens = F.of_ℕ policy.peer_session_burst;
    updated = now;
    last_seen = now;
  }

  -- The peer's record, made anew if there is room.
  unfoldable pub admit_peer :
      AdmissionPolicy F → F.Carrier → ℕ → GlobalRecord F → State F → Reply AdmissionLease × State F
  admit_peer policy now key g s = elim (lookup key s.peers) [
    | some peer ↦ admit policy now key g peer s
    | none ↦
        let pruned = prune_inactive_peers policy now s in
        if leb policy.max_tracked_peers (length pruned.peers)
        then (rejected overload, reject g now pruned)
        else admit policy now key g (fresh_peer policy now) pruned
  ]

  -- The end of `_locked`: an exception of `self._lock.release()` takes the place of the answer.
  unfoldable pub leave : Bool → Reply AdmissionLease × State F → Reply AdmissionLease × State F
  leave true o = o
  leave false o = (rejected unavailable, o.1)

  -- The body under the lock, and what follows its KeyError: a failed end of `_locked` replaces it.
  unfoldable pub acquire_locked :
      AdmissionPolicy F → F.Carrier → Bool → Bool → ℕ → State F → Reply AdmissionLease × State F
  acquire_locked policy now unlocked relocked key s = elim s.global [
    | none ↦ (rejected unavailable, if unlocked then mark_unhealthy F relocked s else s)
    | some g ↦
        if not (is_healthy_locked F s)
        then (rejected unavailable, s)
        else elim (refill g.tokens g.updated now policy.global_session_rate
            policy.global_session_burst) [
              | none ↦ (rejected unavailable, s)
              | some tokens ↦
                  admit_peer policy now key (record g { tokens = tokens; updated = now }) s
            ]
  ]

  -- acquire, with the digest of the peer's identity
  unfoldable pub acquire : AdmissionPolicy F → Env F → ℕ → State F → Reply AdmissionLease × State F
  acquire policy env key s = elim env.clock [
    | reading now ↦
        if env.locked
        then leave env.unlocked (acquire_locked policy now env.unlocked env.relocked key s)
        else (rejected unavailable, s)
    | not_finite ↦ (rejected unavailable, s)
    | fault ↦ (rejected unavailable, mark_unhealthy F env.relocked s)
  ]

  -- `_release` with what it reads: the global record and the peer's.
  unfoldable pub release_from :
      F.Carrier → Bool → ℕ → State F → Option (GlobalRecord F) → Option (PeerRecord F) → State F
  release_from now relocked key s none found = mark_unhealthy F relocked s
  release_from now relocked key s (some g) none = record s {
    global = some (record g { healthy = false });
  }
  release_from now relocked key s (some g) (some peer) =
      if ltb g.active 1 || ltb peer.active 1
      then record s { global = some (record g { healthy = false }) }
      else record s {
        global = some (record g { active = g.active - 1 });
        peers = put key (record peer { active = peer.active - 1; last_seen = now }) s.peers;
      }

  -- An exception of the lock that is let go poisons what `_release` wrote.
  unfoldable pub unlock : Bool → Bool → State F → State F
  unlock unlocked relocked s = if unlocked then s else mark_unhealthy F relocked s

  -- AdmissionState._release
  unfoldable pub release_state : Env F → ℕ → State F → State F
  unfolding unlock
  release_state env key s = elim env.clock [
    | reading now ↦
        if env.locked
        then unlock env.unlocked env.relocked
            (release_from now env.relocked key s s.global (lookup key s.peers))
        else mark_unhealthy F env.relocked s
    | not_finite ↦ mark_unhealthy F env.relocked s
    | fault ↦ mark_unhealthy F env.relocked s
  ]

  -- AdmissionLease.release
  unfoldable pub release : Env F → AdmissionLease → State F → AdmissionLease × State F
  release env lease s =
      if lease.released
      then (lease, s)
      else (record lease { released = true }, release_state env lease.peer_key s)
