-- ===== src/Routing/Graph.antt =====
-- The inference graph of src/drift/client/routing/sequence_manager.py: between which nodes its edges
-- are, and the paths through it.
use community_ai.Prelude.{
  ℕ, zero, suc, ◌≡◌, ◌≤◌, ◌<◌, ◌+◌, ◌-◌, ◌⊎◌, inl, inr, Bool, true, false, Option, List, [], ◌∷◌,
  ◌++◌, ◌==◌, if◌then◌else◌, arith, refl, subst, All, Float,
}
use community_ai.Routing.Spans.{RemoteSpanInfo, containing}
use community_ai.Routing.Latency.{
  Node, start_node, end_node, at, Edge, entry_edges, exit_edges, edges_to, switch_edges,
  all_switch_edges, blocks_of, compute_edges, build_inference_graph,
}

module _ (F : Float) where
  -- A peer has a span with the block.
  abbrev pub IsHeld : List (RemoteSpanInfo F) → ℕ → ℕ → Type 0
  IsHeld [] peer block = ⊥
  IsHeld (s ∷ ss) peer block =
      ((s.peer_id ≡ peer) × (s.start ≤ block) × (block < s.end)) ⊎ IsHeld ss peer block

  -- An edge between two nodes is in the graph.
  abbrev pub IsEdge : List (Edge F) → Node → Node → Type 0
  IsEdge [] a b = ⊥
  IsEdge (e ∷ es) a b = ((e.source ≡ a) × (e.target ≡ b)) ⊎ IsEdge es a b

  -- The documented result of a path search: nodes from the start to the end along edges.
  abbrev pub IsWalk : List (Edge F) → Node → List Node → Type 0
  IsWalk es a [] = a ≡ end_node
  IsWalk es a (b ∷ bs) = IsEdge es a b × IsWalk es b bs

  abbrev pub IsPath : List (Edge F) → List Node → Type 0
  IsPath es [] = ⊥
  IsPath es (a ∷ rest) = (a ≡ start_node) × IsWalk es a rest

  module _ (spans : List (RemoteSpanInfo F)) (start end : ℕ) where
    -- What an edge of the graph goes between.
    abbrev pub Allowed : Node → Node → Type 0
    Allowed start_node (at p b) = b ≡ start
    Allowed (at p b) end_node = b ≡ end
    Allowed (at p b) (at q c) = (b ≡ c) ⊎ ((p ≡ q) × (c ≡ suc b) × IsHeld spans p b)
    Allowed _ _ = ⊥

    abbrev pub AreAllowed : List (Edge F) → Type 0
    AreAllowed = All (λ e. Allowed e.source e.target)

    AreAllowed-append :
        (es fs : List (Edge F)) → AreAllowed es → AreAllowed fs → AreAllowed (es ++ fs)
    AreAllowed-append [] fs h k = k
    AreAllowed-append (e ∷ es) fs h k = (h.0, AreAllowed-append es fs h.1 k)

    pub Allowed-of_edge :
        (es : List (Edge F)) (a b : Node) → AreAllowed es → IsEdge es a b → Allowed a b
    Allowed-of_edge [] a b h k = absurd k
    Allowed-of_edge (e ∷ es) a b h (inl same) =
        subst (λ x. Allowed x b) same.0 (subst (λ y. Allowed e.source y) same.1 h.0)
    Allowed-of_edge (e ∷ es) a b h (inr later) = Allowed-of_edge es a b h.1 later

    entry_edges-AreAllowed :
        (rtts : List (ℕ × F.Carrier)) (needed : Option ℕ) (ss : List (RemoteSpanInfo F))
        → AreAllowed (entry_edges F rtts needed start ss)
    unfolding entry_edges
    entry_edges-AreAllowed rtts needed [] = tt
    entry_edges-AreAllowed rtts needed (s ∷ ss) = (refl, entry_edges-AreAllowed rtts needed ss)

    exit_edges-AreAllowed :
        (rtts : List (ℕ × F.Carrier)) (ss : List (RemoteSpanInfo F))
        → AreAllowed (exit_edges F rtts end ss)
    unfolding exit_edges
    exit_edges-AreAllowed rtts [] = tt
    exit_edges-AreAllowed rtts (s ∷ ss) = (refl, exit_edges-AreAllowed rtts ss)

    edges_to-AreAllowed :
        (needed : Option ℕ) (block : ℕ) (s : RemoteSpanInfo F) (ts : List (RemoteSpanInfo F))
        → AreAllowed (edges_to F needed block s ts)
    unfolding edges_to
    edges_to-AreAllowed needed block s [] = tt
    edges_to-AreAllowed needed block s (t ∷ ts) = (inl refl, edges_to-AreAllowed needed block s ts)

    if-AreAllowed :
        (b : Bool) (es : List (Edge F)) → AreAllowed es → AreAllowed (if b then es else [])
    if-AreAllowed true es h = h
    if-AreAllowed false es h = tt

    switch_edges-AreAllowed :
        (needed : Option ℕ) (block : ℕ) (ss ts : List (RemoteSpanInfo F))
        → AreAllowed (switch_edges F needed block ss ts)
    unfolding switch_edges
    switch_edges-AreAllowed needed block [] ts = tt
    switch_edges-AreAllowed needed block (s ∷ ss) ts =
        AreAllowed-append _ _
          (if-AreAllowed (s.end == block) _ (edges_to-AreAllowed needed block s ts))
          (switch_edges-AreAllowed needed block ss ts)

    all_switch_edges-AreAllowed :
        (needed : Option ℕ) (count block : ℕ)
        → AreAllowed (all_switch_edges F needed spans count block)
    unfolding all_switch_edges
    all_switch_edges-AreAllowed needed zero block = tt
    all_switch_edges-AreAllowed needed (suc count) block =
        AreAllowed-append _ _ (switch_edges-AreAllowed needed block _ _)
          (all_switch_edges-AreAllowed needed count (suc block))

    blocks_of-AreAllowed :
        (s : RemoteSpanInfo F) (count block : ℕ)
        → ((k : ℕ) → block ≤ k → k < block + count → IsHeld spans s.peer_id k)
        → AreAllowed (blocks_of F s count block)
    unfolding blocks_of
    blocks_of-AreAllowed s zero block h = tt
    blocks_of-AreAllowed s (suc count) block h = (
      inr (refl, refl, h block (omega arith) (omega arith)),
      blocks_of-AreAllowed s count (suc block) (λ k a b. h k (omega arith) (omega arith)),
    )

    compute_edges-AreAllowed :
        (ss : List (RemoteSpanInfo F))
        → ((p k : ℕ) → IsHeld ss p k → IsHeld spans p k)
        → AreAllowed (compute_edges F start end ss)
    unfolding compute_edges
    compute_edges-AreAllowed [] h = tt
    compute_edges-AreAllowed (s ∷ ss) h =
        AreAllowed-append _ _
          (blocks_of-AreAllowed s _ _
            (λ k a b. h s.peer_id k (inl (refl, omega arith, omega arith))))
          (compute_edges-AreAllowed ss (λ p k x. h p k (inr x)))

    pub graph-AreAllowed :
        (rtts : List (ℕ × F.Carrier)) (needed : Option ℕ)
        → AreAllowed (build_inference_graph F rtts needed spans start end)
    unfolding build_inference_graph
    graph-AreAllowed rtts needed =
        (let entries = containing F start spans in
          let exits = containing F (end - 1) spans in
          let switches = all_switch_edges F needed spans (end - suc start) (suc start) in
          let computes = compute_edges F start end spans in
          AreAllowed-append (entry_edges F rtts needed start entries)
            (exit_edges F rtts end exits ++ (switches ++ computes))
            (entry_edges-AreAllowed rtts needed entries)
            (AreAllowed-append (exit_edges F rtts end exits) (switches ++ computes)
              (exit_edges-AreAllowed rtts exits)
              (AreAllowed-append switches computes
                (all_switch_edges-AreAllowed needed (end - suc start) (suc start))
                (compute_edges-AreAllowed spans (λ p k x. x)))))
