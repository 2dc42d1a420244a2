-- ===== src/Routing/Removal.antt =====
-- A failed peer after `remove_peer_` of src/drift/client/routing/sequence_info.py.
use community_ai.Prelude.{
  ℕ, suc, ◌≡◌, ◌≢◌, inl, inr, false, none, List, [], ◌∷◌, leb, ltb, ◌==◌, if_false, lookup, remove,
  lookup-put, lookup-remove_self, Distinct, IsFresh, IsFresh-of_lookup, All, Bool-cases, arith,
  refl, ◌∙◌, Float,
}
use community_ai.Routing.Spans.{
  ServerInfo, RemoteSpanInfo, BlockInfos, insert_server, sorted_servers, add_servers, add_blocks,
  compute_spans, remove_everywhere, remove_peer,
}

module _ (F : Float) where
  insert_server-IsFresh :
      (p q : ℕ) (info : ServerInfo F) (servers : List (ℕ × ServerInfo F))
      → q ≢ p
      → IsFresh p servers
      → IsFresh p (insert_server F (q, info) servers)
  unfolding insert_server
  insert_server-IsFresh p q info [] d f = (d, tt)
  insert_server-IsFresh p q info ((r, j) ∷ servers) d f = elim (Bool-cases (leb q r)) [
    | inl first ↦ rw first (d, f)
    | inr later ↦ rw later (f.0, insert_server-IsFresh p q info servers d f.1)
  ]

  sorted_servers-IsFresh :
      (p : ℕ) (servers : List (ℕ × ServerInfo F))
      → IsFresh p servers
      → IsFresh p (sorted_servers F servers)
  unfolding sorted_servers
  sorted_servers-IsFresh p [] f = tt
  sorted_servers-IsFresh p ((q, info) ∷ servers) f =
      insert_server-IsFresh p q info _ f.0 (sorted_servers-IsFresh p servers f.1)

  lookup-add_servers :
      (offset num_blocks min_state block p : ℕ) (servers : List (ℕ × ServerInfo F))
      (spans : List (ℕ × RemoteSpanInfo F))
      → IsFresh p servers
      → lookup p spans ≡ none
      → lookup p (add_servers F offset num_blocks min_state block servers spans) ≡ none
  unfolding add_servers
  lookup-add_servers offset num_blocks min_state block p [] spans f h = h
  lookup-add_servers offset num_blocks min_state block p ((q, info) ∷ servers) spans f h =
      lookup-add_servers offset num_blocks min_state block p servers _ f.1
        (elim (Bool-cases (ltb info.state min_state)) [
          | inl skipped ↦ rw skipped h
          | inr added ↦ rw added (
              let other : (q == p) ≡ false = ground (arith, f.0) in
              lookup-put q p _ spans ∙ (if_false _ _ other ∙ h))
        ])

  lookup-add_blocks :
      (offset num_blocks min_state block p : ℕ) (blocks : BlockInfos F)
      (spans : List (ℕ × RemoteSpanInfo F))
      → All (IsFresh p) blocks
      → lookup p spans ≡ none
      → lookup p (add_blocks F offset num_blocks min_state block blocks spans) ≡ none
  unfolding add_blocks
  lookup-add_blocks offset num_blocks min_state block p [] spans f h = h
  lookup-add_blocks offset num_blocks min_state block p (servers ∷ blocks) spans f h =
      lookup-add_blocks offset num_blocks min_state (suc block) p blocks _ f.1 (
        lookup-add_servers offset num_blocks min_state block p (sorted_servers F servers) spans
          (sorted_servers-IsFresh p servers f.0) h)

  remove_everywhere-IsFresh :
      (p : ℕ) (blocks : BlockInfos F)
      → All Distinct blocks
      → All (IsFresh p) (remove_everywhere F p blocks)
  unfolding remove_everywhere
  remove_everywhere-IsFresh p [] d = tt
  remove_everywhere-IsFresh p (servers ∷ blocks) d = (
    IsFresh-of_lookup p (remove p servers) (lookup-remove_self p servers d.0),
    remove_everywhere-IsFresh p blocks d.1,
  )

  -- Once a peer was removed from the servers of every block, each a dictionary with distinct keys, no
  -- span computed from them, for any least state, is that peer's.
  pub compute_spans-remove_peer :
      (offset min_state p : ℕ) (blocks : BlockInfos F)
      → All Distinct blocks
      → lookup p (compute_spans F offset min_state ((remove_peer F p blocks).1)) ≡ none
  unfolding compute_spans remove_peer
  compute_spans-remove_peer offset min_state p blocks d =
      lookup-add_blocks offset _ min_state 0 p (remove_everywhere F p blocks) []
        (remove_everywhere-IsFresh p blocks d) refl
