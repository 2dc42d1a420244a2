-- ===== src/Routing/Paths.antt =====
-- The routes of `_make_sequence_with_min_latency` in src/drift/client/routing/sequence_manager.py, for
-- any path through its graph.
use community_ai.Prelude.{
  ℕ, zero, suc, ◌≡◌, ◌≤◌, ◌<◌, ◌+◌, ◌-◌, ◌⊎◌, inl, inr, true, Option, none, some, List, [], ◌∷◌,
  ltb, ◌==◌, ==_iff, arith, refl, sym, subst, ◌∙◌, Bool-cases, Float,
}
use community_ai.Routing.Spans.{RemoteSpanInfo, containing}
use community_ai.Routing.Throughput.{Found, found, missing_block, out_of_fuel}
use community_ai.Routing.Latency.{
  Node, start_node, end_node, at, Hop, Edge, build_inference_graph, extend_hops, hops_of,
  nonempty_onto, inner_nodes, span_sequence, first_missing, missing_at, min_latency_at,
  make_sequence_with_min_latency,
}
use community_ai.Routing.Graph.{
  IsHeld, IsEdge, IsWalk, IsPath, AreAllowed, Allowed-of_edge, graph-AreAllowed,
}

client_ends : start_node ≡ end_node → ⊥
client_ends h = cc

module _ (F : Float) where
  module _ (spans : List (RemoteSpanInfo F)) (start end : ℕ) where
    -- A peer has every block of a hop.
    abbrev pub IsHeldHop : Hop → Type 0
    IsHeldHop h = (k : ℕ) → h.start ≤ k → k < h.end → IsHeld F spans h.peer_id k

    -- Hops that follow each other from the start to `block`, the last one first.
    abbrev Trail : ℕ → List Hop → Type 0
    Trail block [] = block ≡ start
    Trail block (h ∷ hs) = (h.end ≡ block) × (h.start ≤ h.end) × IsHeldHop h × Trail h.start hs

    abbrev IsLast : ℕ → List Hop → Type 0
    IsLast peer [] = ⊥
    IsLast peer (h ∷ hs) = h.peer_id ≡ peer

    stay :
        (p b : ℕ) (hs : List Hop)
        → Trail b hs
        → Trail b (extend_hops p b hs) × IsLast p (extend_hops p b hs)
    unfolding extend_hops
    stay p b [] t = ((refl, omega arith, λ k x y. absurd (omega arith), t), refl)
    stay p b (h ∷ hs) t = elim (Bool-cases (h.peer_id == p)) [
      | inl same ↦ rw same (
        (refl, omega (arith, t.0, t.1), λ k x y. t.2 k x (omega (arith, t.0)), t.3),
        (==_iff h.peer_id p).0 same,
      )
      | inr other ↦ rw other ((refl, omega arith, λ k x y. absurd (omega arith), t), refl)
    ]

    go_on :
        (p b : ℕ) (hs : List Hop)
        → Trail b hs
        → IsLast p hs
        → IsHeld F spans p b
        → Trail (suc b) (extend_hops p (suc b) hs) × IsLast p (extend_hops p (suc b) hs)
    unfolding extend_hops
    go_on p b [] t l held = absurd l
    go_on p b (h ∷ hs) t l held =
        (let same : (h.peer_id == p) ≡ true = ground (arith, l) in
          rw same (
            (
              refl,
              omega (arith, t.0, t.1),
              λ k x y. elim (Bool-cases (ltb k b)) [
                | inl before ↦ t.2 k x (ground (arith, t.0))
                | inr last ↦
                    (let here : b ≡ k = ground arith in
                      subst (λ j. IsHeld F spans h.peer_id j) here
                        (subst (λ q. IsHeld F spans q b) (sym l) held))
              ],
              t.3,
            ),
            l,
          ))

    walk-Trail :
        (es : List (Edge F)) (p b : ℕ) (ns : List Node) (hs : List Hop)
        → AreAllowed F spans start end es
        → IsWalk F es (at p b) ns
        → Trail b hs
        → IsLast p hs
        → Trail end (hops_of ns hs)
    unfolding hops_of
    walk-Trail es p b [] hs a w t l = absurd cc
    walk-Trail es p b (start_node ∷ ns) hs a w t l =
        absurd (Allowed-of_edge F spans start end es (at p b) start_node a w.0)
    walk-Trail es p b (end_node ∷ ns) hs a w t l =
        subst (λ c. Trail c hs) (Allowed-of_edge F spans start end es (at p b) end_node a w.0) t
    walk-Trail es p b (at q c ∷ ns) hs a w t l =
        elim (Allowed-of_edge F spans start end es (at p b) (at q c) a w.0) [
          | inl same ↦
              (let stayed = stay q c hs (subst (λ x. Trail x hs) same t) in
                walk-Trail es q c ns (extend_hops q c hs) a w.1 stayed.0 stayed.1)
          | inr (peer, next, held) ↦
              (let gone = go_on p b hs t l held in
                let trail = subst (λ x. Trail x (extend_hops p x hs)) (sym next) gone.0 in
                let last = subst (λ x. IsLast p (extend_hops p x hs)) (sym next) gone.1 in
                walk-Trail es q c ns (extend_hops q c hs) a w.1
                  (subst (λ x. Trail c (extend_hops x c hs)) peer trail)
                  (subst (λ x. IsLast x (extend_hops x c hs)) peer last))
        ]

    -- Hops that follow each other from `block` to the end, none of them empty, each of blocks that
    -- its peer has.
    abbrev pub AreHops : ℕ → List Hop → Type 0
    AreHops block [] = block ≡ end
    AreHops block (h ∷ hs) = (h.start ≡ block) × (h.start < h.end) × IsHeldHop h × AreHops h.end hs

    nonempty_onto-AreHops :
        (block : ℕ) (hs result : List Hop)
        → Trail block hs
        → AreHops block result
        → AreHops start (nonempty_onto hs result)
    unfolding nonempty_onto
    nonempty_onto-AreHops block [] result t r = subst (λ b. AreHops b result) t r
    nonempty_onto-AreHops block (h ∷ hs) result t r =
        (let from_end = subst (λ b. AreHops b result) (sym t.0) r in
          elim (Bool-cases (ltb 0 (h.end - h.start))) [
            | inl some_blocks ↦ rw some_blocks (
                nonempty_onto-AreHops h.start hs (h ∷ result) t.3
                  (refl, ground arith, t.2, from_end))
            | inr empty ↦
                (let point : h.end ≡ h.start = ground (arith, t.1) in
                  rw empty (
                    nonempty_onto-AreHops h.start hs result t.3
                      (subst (λ b. AreHops b result) point from_end)))
          ])

    path-AreHops :
        (es : List (Edge F)) (ns : List Node)
        → AreAllowed F spans start end es
        → IsPath F es ns
        → AreHops start (span_sequence ns)
    unfolding span_sequence inner_nodes hops_of
    path-AreHops es [] a h = absurd h
    path-AreHops es (n ∷ []) a h = absurd (client_ends (sym h.0 ∙ h.1))
    path-AreHops es (n ∷ at p b ∷ ns) a h =
        (let first : b ≡ start =
            Allowed-of_edge F spans start end es start_node (at p b) a
              (subst (λ x. IsEdge F es x (at p b)) h.0 h.1.0) in
          let stayed = stay p b [] first in
          nonempty_onto-AreHops end (hops_of ns (extend_hops p b [])) []
            (walk-Trail es p b ns (extend_hops p b []) a h.1.1 stayed.0 stayed.1) refl)
    path-AreHops es (n ∷ start_node ∷ ns) a h = absurd (
        Allowed-of_edge F spans start end es start_node start_node a
          (subst (λ x. IsEdge F es x start_node) h.0 h.1.0))
    path-AreHops es (n ∷ end_node ∷ ns) a h = absurd (
        Allowed-of_edge F spans start end es start_node end_node a
          (subst (λ x. IsEdge F es x end_node) h.0 h.1.0))

  missing_at-some :
      (block b : ℕ) (held : List (RemoteSpanInfo F)) (rest : Option ℕ)
      → missing_at F block held rest ≡ some b
      → ((block ≡ b) × (held ≡ [])) ⊎ (rest ≡ some b)
  unfolding missing_at
  missing_at-some block b [] rest h = inl (cc, refl)
  missing_at-some block b (s ∷ ss) rest h = inr h

  first_missing-some :
      (spans : List (RemoteSpanInfo F)) (count block b : ℕ)
      → first_missing F spans count block ≡ some b
      → (block ≤ b) × (b < block + count) × (containing F b spans ≡ [])
  unfolding first_missing
  first_missing-some spans zero block b h = absurd cc
  first_missing-some spans (suc count) block b h =
      elim (missing_at-some block b (containing F block spans) _ h) [
        | inl (same, none_held) ↦ (
          omega (arith, same),
          omega (arith, same),
          subst (λ x. containing F x spans ≡ []) same none_held,
        )
        | inr later ↦
            (let r = first_missing-some spans count (suc block) b later in
              (omega (arith, r.0), omega (arith, r.1), r.2))
      ]

  -- What the search may end with: hops from the first block to the last, or a block of the range that
  -- no span holds.
  abbrev pub IsRouteOfHops : List (RemoteSpanInfo F) → ℕ → ℕ → Found (List Hop) → Type 0
  IsRouteOfHops spans start end (found hs) = AreHops spans start end start hs
  IsRouteOfHops spans start end (missing_block b) =
      (start ≤ b) × (b < end) × (containing F b spans ≡ [])
  IsRouteOfHops spans start end out_of_fuel = ⊥

  min_latency_at-IsRoute :
      (find_path : List (Edge F) → List Node) (es : List (Edge F)) (spans : List (RemoteSpanInfo F))
      (start end : ℕ) (o : Option ℕ)
      → AreAllowed F spans start end es
      → (o ≡ none → IsPath F es (find_path es))
      → ((b : ℕ) → o ≡ some b → (start ≤ b) × (b < end) × (containing F b spans ≡ []))
      → IsRouteOfHops spans start end (min_latency_at F find_path es o)
  unfolding min_latency_at
  min_latency_at-IsRoute find_path es spans start end none a p m =
      path-AreHops spans start end es (find_path es) a (p refl)
  min_latency_at-IsRoute find_path es spans start end (some b) a p m = m b refl

  -- If the path search returns a path of the graph when no block is missing, the route consists of
  -- non-empty hops that follow each other from the first block to the last, each over blocks that its
  -- peer has; otherwise the search names a block of the range that no span holds.
  pub min_latency-IsRoute :
      (find_path : List (Edge F) → List Node) (rtts : List (ℕ × F.Carrier)) (needed : Option ℕ)
      (spans : List (RemoteSpanInfo F)) (start end : ℕ)
      → start ≤ end
      → (first_missing F spans (end - start) start ≡ none
          → IsPath F
              (build_inference_graph F rtts needed spans start end)
              (find_path (build_inference_graph F rtts needed spans start end)))
      → IsRouteOfHops spans start end
          (make_sequence_with_min_latency F find_path rtts needed spans start end)
  unfolding make_sequence_with_min_latency
  min_latency-IsRoute find_path rtts needed spans start end a path =
      elim (Bool-cases (start == end)) [
        | inl same ↦ rw same ((==_iff start end).0 same)
        | inr other ↦ rw other (
            min_latency_at-IsRoute find_path _ spans start end _
              (graph-AreAllowed F spans start end rtts needed) path
              (λ b h.
                (let r = first_missing-some spans (end - start) start b h in
                  (r.0, omega (arith, r.1), r.2))))
      ]
