-- ===== src/Admission/Prune.antt =====
-- Pruning of the peer table in src/drift/server/admission.py.
use community_ai.Prelude.{
  ℕ, ◌≤◌, ◌≡◌, ◌≢◌, refl, ◌∙◌, subst, inl, inr, true, false, ◌&&◌, none, some, List, [], ◌∷◌, arith,
  ltb, ◌==◌, Bool-cases, length, All, All-map, lookup, remove, total, Every, Distinct, at_key,
  total-remove, at_key-remove, Distinct-remove, Every-remove, length-remove-le, lookup-remove_ne,
  lookup-remove_self, lookup-IsFresh, IsFresh, IsFresh-of_lookup, Float,
}
use community_ai.Admission.Policy.{AdmissionPolicy}
use community_ai.Admission.State.{PeerRecord, State}
use community_ai.Admission.Quota.{
  before, insert_sorted, sorted, candidates, drop_candidates, prune_inactive_peers,
}

module _ (F : Float) where
  abbrev pub sessions_of : ℕ → List (ℕ × PeerRecord F) → ℕ
  sessions_of = at_key (λ r. r.active)

  abbrev pub all_sessions : List (ℕ × PeerRecord F) → ℕ
  all_sessions = total (λ r. r.active)

  insert_sorted-All {κ} :
      (P : F.Carrier × ℕ → Type κ) (x : F.Carrier × ℕ) (ys : List (F.Carrier × ℕ))
      → P x
      → All P ys
      → All P (insert_sorted F x ys)
  unfolding insert_sorted
  insert_sorted-All P x [] p h = (p, tt)
  insert_sorted-All P x (y ∷ ys) p h = elim (Bool-cases (before F x y)) [
    | inl first ↦ rw first (p, h)
    | inr later ↦ rw later (h.0, insert_sorted-All P x ys p h.1)
  ]

  sorted-All {κ} :
      (P : F.Carrier × ℕ → Type κ) (xs : List (F.Carrier × ℕ)) → All P xs → All P (sorted F xs)
  unfolding sorted
  sorted-All P [] h = tt
  sorted-All P (x ∷ xs) h = insert_sorted-All P x (sorted F xs) h.0 (sorted-All P xs h.1)

  -- A record that may not be dropped: in use, or seen within the time to live.
  abbrev pub IsKept : F.Carrier → F.Carrier → PeerRecord F → Type 0
  IsKept ttl now r = (r.active == 0 && F.le ttl (F.sub now r.last_seen)) ≡ false

  module _ (ttl now : F.Carrier) where
    candidates-idle :
        (table m : List (ℕ × PeerRecord F))
        → ((k : ℕ) (r : PeerRecord F) → lookup k m ≡ some r → lookup k table ≡ some r)
        → Distinct m
        → All (λ c. sessions_of c.1 table ≡ 0) (candidates F ttl now m)
    unfolding candidates
    candidates-idle table [] within d = tt
    candidates-idle table ((k, r) ∷ m) within d =
        let rest =
          candidates-idle table m (λ j x e. within j x (ground (arith, lookup-IsFresh k m d.0)))
            d.1 in
        elim (Bool-cases (r.active == 0 && F.le ttl (F.sub now r.last_seen))) [
          | inl idle ↦ rw idle (ground (arith, within k r), rest)
          | inr busy ↦ rw busy rest
        ]

    candidates-fresh :
        (j : ℕ) (m : List (ℕ × PeerRecord F))
        → IsFresh j m
        → All (λ c. c.1 ≢ j) (candidates F ttl now m)
    unfolding candidates
    candidates-fresh j [] f = tt
    candidates-fresh j ((k, x) ∷ m) f =
        elim (Bool-cases (x.active == 0 && F.le ttl (F.sub now x.last_seen))) [
          | inl idle ↦ rw idle (f.0, candidates-fresh j m f.1)
          | inr busy ↦ rw busy (candidates-fresh j m f.1)
        ]

    candidates-kept :
        (j : ℕ) (r : PeerRecord F) (m : List (ℕ × PeerRecord F))
        → Distinct m
        → IsKept ttl now r
        → lookup j m ≡ some r
        → All (λ c. c.1 ≢ j) (candidates F ttl now m)
    unfolding candidates
    candidates-kept j r [] d kept e = tt
    candidates-kept j r ((k, x) ∷ m) d kept e = elim (Bool-cases (k == j)) [
      | inl same ↦ hit same
      | inr other ↦ miss other (candidates-kept j r m d.1 kept (ground arith))
    ]
      where
        hit : (k == j) ≡ true → All (λ c. c.1 ≢ j) (candidates F ttl now ((k, x) ∷ m))
        hit same =
            let same_record : x ≡ r = ground arith in
            let same_key : k ≡ j = ground arith in
            rw (same_record, kept) (candidates-fresh j m (subst (λ i. IsFresh i m) same_key d.0))

        miss :
            (k == j) ≡ false
            → All (λ c. c.1 ≢ j) (candidates F ttl now m)
            → All (λ c. c.1 ≢ j) (candidates F ttl now ((k, x) ∷ m))
        miss other rest = elim (Bool-cases (x.active == 0 && F.le ttl (F.sub now x.last_seen))) [
          | inl idle ↦ rw idle (ground arith, rest)
          | inr busy ↦ rw busy rest
        ]

  module _ (limit : ℕ) where
    drop-Every {κ} :
        (P : PeerRecord F → Type κ) (cs : List (F.Carrier × ℕ)) (m : List (ℕ × PeerRecord F))
        → Every P m
        → Every P (drop_candidates F limit cs m)
    unfolding drop_candidates
    drop-Every P [] m h = h
    drop-Every P ((x, k) ∷ cs) m h = elim (Bool-cases (ltb (length m) limit)) [
      | inl room ↦ rw room h
      | inr full ↦ rw full (drop-Every P cs (remove k m) (Every-remove P k m h))
    ]

    drop-Distinct :
        (cs : List (F.Carrier × ℕ)) (m : List (ℕ × PeerRecord F))
        → Distinct m
        → Distinct (drop_candidates F limit cs m)
    unfolding drop_candidates
    drop-Distinct [] m h = h
    drop-Distinct ((x, k) ∷ cs) m h =
        ground (arith, drop-Distinct cs (remove k m) (Distinct-remove k m h))

    length-drop-le :
        (cs : List (F.Carrier × ℕ)) (m : List (ℕ × PeerRecord F))
        → length (drop_candidates F limit cs m) ≤ length m
    unfolding drop_candidates
    length-drop-le [] m = omega arith
    length-drop-le ((x, k) ∷ cs) m =
        ground (arith, length-drop-le cs (remove k m), length-remove-le k m)

    lookup-drop :
        (j : ℕ) (cs : List (F.Carrier × ℕ)) (m : List (ℕ × PeerRecord F))
        → All (λ c. c.1 ≢ j) cs
        → lookup j (drop_candidates F limit cs m) ≡ lookup j m
    unfolding drop_candidates
    lookup-drop j [] m h = refl
    lookup-drop j ((x, k) ∷ cs) m h =
        ground (arith, lookup-drop j cs (remove k m) h.1, lookup-remove_ne k j m h.0)

    all_sessions-drop :
        (cs : List (F.Carrier × ℕ)) (m : List (ℕ × PeerRecord F))
        → Distinct m
        → All (λ c. sessions_of c.1 m ≡ 0) cs
        → all_sessions (drop_candidates F limit cs m) ≡ all_sessions m
    unfolding drop_candidates
    all_sessions-drop [] m d h = refl
    all_sessions-drop ((x, k) ∷ cs) m d h = ground (
      arith,
      total-remove (λ (r : PeerRecord F). r.active) k m,
      all_sessions-drop cs (remove k m) (Distinct-remove k m d) still,
    )
      where
        still : All (λ c. sessions_of c.1 (remove k m) ≡ 0) cs
        still =
            All-map _ _ cs
              (λ c e. omega (arith, at_key-remove (λ (r : PeerRecord F). r.active) k c.1 m d)) h.1

    sessions_of-drop :
        (j : ℕ) (cs : List (F.Carrier × ℕ)) (m : List (ℕ × PeerRecord F))
        → Distinct m
        → All (λ c. sessions_of c.1 m ≡ 0) cs
        → sessions_of j (drop_candidates F limit cs m) ≡ sessions_of j m
    unfolding drop_candidates
    sessions_of-drop j [] m d h = refl
    sessions_of-drop j ((x, k) ∷ cs) m d h = ground (
      arith,
      sessions_of-drop j cs (remove k m) (Distinct-remove k m d) still,
      lookup-remove_self k m d,
      lookup-remove_ne k j m,
    )
      where
        still : All (λ c. sessions_of c.1 (remove k m) ≡ 0) cs
        still =
            All-map _ _ cs
              (λ c e. omega (arith, at_key-remove (λ (r : PeerRecord F). r.active) k c.1 m d)) h.1

  module _ (policy : AdmissionPolicy F) (now : F.Carrier) (s : State F) where
    pub prune-Every {κ} :
        (P : PeerRecord F → Type κ)
        → Every P s.peers
        → Every P (prune_inactive_peers F policy now s).peers
    unfolding prune_inactive_peers
    prune-Every P h = drop-Every policy.max_tracked_peers P _ s.peers h

    pub prune-Distinct : Distinct s.peers → Distinct (prune_inactive_peers F policy now s).peers
    unfolding prune_inactive_peers
    prune-Distinct d = drop-Distinct policy.max_tracked_peers _ s.peers d

    pub length-prune-le : length (prune_inactive_peers F policy now s).peers ≤ length s.peers
    unfolding prune_inactive_peers
    length-prune-le = length-drop-le policy.max_tracked_peers _ s.peers

    pub all_sessions-prune :
        Distinct s.peers
        → all_sessions (prune_inactive_peers F policy now s).peers ≡ all_sessions s.peers
    unfolding prune_inactive_peers
    all_sessions-prune d = all_sessions-drop policy.max_tracked_peers _ s.peers d (
        sorted-All _ _ (candidates-idle policy.tracked_peer_ttl now s.peers s.peers (λ k r e. e) d))

    pub sessions_of-prune :
        (j : ℕ)
        → Distinct s.peers
        → sessions_of j (prune_inactive_peers F policy now s).peers ≡ sessions_of j s.peers
    unfolding prune_inactive_peers
    sessions_of-prune j d = sessions_of-drop policy.max_tracked_peers j _ s.peers d (
        sorted-All _ _ (candidates-idle policy.tracked_peer_ttl now s.peers s.peers (λ k r e. e) d))

    -- Pruning for a new peer drops no record of a peer that has a session, and none that was seen
    -- within the time to live: it is found as before.
    pub prune_keeps :
        (j : ℕ) (r : PeerRecord F)
        → Distinct s.peers
        → lookup j s.peers ≡ some r
        → IsKept policy.tracked_peer_ttl now r
        → lookup j (prune_inactive_peers F policy now s).peers ≡ some r
    unfolding prune_inactive_peers
    prune_keeps j r d e kept =
        lookup-drop policy.max_tracked_peers j _ s.peers
          (sorted-All _ _ (candidates-kept policy.tracked_peer_ttl now j r s.peers d kept e))
        ∙ e

    pub lookup-prune_absent :
        (j : ℕ)
        → lookup j s.peers ≡ none
        → lookup j (prune_inactive_peers F policy now s).peers ≡ none
    unfolding prune_inactive_peers
    lookup-prune_absent j e =
        lookup-drop policy.max_tracked_peers j _ s.peers (
          sorted-All _ _ (
            candidates-fresh policy.tracked_peer_ttl now j s.peers (IsFresh-of_lookup j s.peers e)))
        ∙ e
