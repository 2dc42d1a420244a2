-- ===== src/Routing/Latency.antt =====
-- `_build_inference_graph` and `_make_sequence_with_min_latency` of
-- src/drift/client/routing/sequence_manager.py. `dijkstar.find_path` is a parameter: from the edges
-- in the order of `add_edge` to the nodes of a path. The server info of a hop is its peer's.
use Prim.Native.Nat.{min, max}
use community_ai.Prelude.{
  ℕ, zero, suc, ◌-◌, ◌*◌, Bool, true, Option, none, some, List, [], ◌∷◌, ◌++◌, leb, ltb, ◌==◌,
  if◌then◌else◌, lookup, Float, float_min,
}
use community_ai.Routing.Spans.{RemoteSpanInfo, span_length, containing}
use community_ai.Routing.Throughput.{Found, found, missing_block}

pub data Node : Type 0 where
  start_node end_node : Node
  -- a peer before a block
  at : ℕ → ℕ → Node

-- A part of a route: a peer and its blocks.
pub record Hop : Type 0 where
  pub peer_id : ℕ
  pub start : ℕ
  pub end : ℕ

module _ (F : Float) where
  pub record Edge : Type 0 where
    pub source : Node
    pub target : Node
    pub delay : F.Carrier

  -- overhead_delay, default_delay and max_delay
  abbrev overhead_delay : F.Carrier
  overhead_delay = F.div (F.of_ℕ 18) (F.of_ℕ 1000)

  abbrev default_delay : F.Carrier
  default_delay = F.div (F.of_ℕ 15) (F.of_ℕ 100)

  unfoldable pub rtt_to_delay : Option F.Carrier → F.Carrier
  rtt_to_delay none = default_delay
  rtt_to_delay (some rtt) = float_min F (F.div rtt (F.of_ℕ 2)) (F.of_ℕ 5)

  unfoldable pub has_room : RemoteSpanInfo F → Option ℕ → Option ℕ → Bool
  unfolding span_length
  has_room s (some needed) (some left) = leb (needed * 2 * span_length F s) left
  has_room s _ _ = true

  -- _has_cache_for
  unfoldable pub has_cache_for : RemoteSpanInfo F → Option ℕ → Bool
  unfolding has_room
  has_cache_for s needed = has_room s needed s.server_info.cache_tokens_left

  -- The delay to a server that begins its part of the route.
  unfoldable pub entry_delay : Option F.Carrier → RemoteSpanInfo F → Option ℕ → F.Carrier
  unfolding rtt_to_delay has_cache_for
  entry_delay rtt s needed =
      let delay = F.add (rtt_to_delay rtt) overhead_delay in
      if has_cache_for s needed then delay else F.add delay (F.of_ℕ 10)

  -- Client -> server
  unfoldable pub entry_edges :
      List (ℕ × F.Carrier) → Option ℕ → ℕ → List (RemoteSpanInfo F) → List Edge
  unfolding entry_delay
  entry_edges rtts needed start [] = []
  entry_edges rtts needed start (s ∷ ss) =
      record {
        source = start_node;
        target = at s.peer_id start;
        delay = entry_delay (lookup s.peer_id rtts) s needed;
      }
      ∷ entry_edges rtts needed start ss

  -- Server -> client
  unfoldable pub exit_edges : List (ℕ × F.Carrier) → ℕ → List (RemoteSpanInfo F) → List Edge
  unfolding rtt_to_delay
  exit_edges rtts end [] = []
  exit_edges rtts end (s ∷ ss) =
      record {
        source = at s.peer_id end;
        target = end_node;
        delay = rtt_to_delay (lookup s.peer_id rtts);
      }
      ∷ exit_edges rtts end ss

  unfoldable pub ping_to : ℕ → Option (List (ℕ × F.Carrier)) → Option F.Carrier
  ping_to peer none = none
  ping_to peer (some pings) = lookup peer pings

  unfoldable pub edges_to : Option ℕ → ℕ → RemoteSpanInfo F → List (RemoteSpanInfo F) → List Edge
  unfolding entry_delay ping_to
  edges_to needed block s [] = []
  edges_to needed block s (t ∷ ts) =
      record {
        source = at s.peer_id block;
        target = at t.peer_id block;
        delay = entry_delay (ping_to t.peer_id s.server_info.next_pings) t needed;
      }
      ∷ edges_to needed block s ts

  -- Server -> server, from the spans that end before the block
  unfoldable pub switch_edges :
      Option ℕ → ℕ → List (RemoteSpanInfo F) → List (RemoteSpanInfo F) → List Edge
  unfolding edges_to
  switch_edges needed block [] nexts = []
  switch_edges needed block (s ∷ ss) nexts =
      (if s.end == block then edges_to needed block s nexts else [])
      ++ switch_edges needed block ss nexts

  -- for block_idx in range(start_index + 1, end_index), `count` of them from `block`
  unfoldable pub all_switch_edges : Option ℕ → List (RemoteSpanInfo F) → ℕ → ℕ → List Edge
  unfolding switch_edges
  all_switch_edges needed spans zero block = []
  all_switch_edges needed spans (suc count) block =
      switch_edges needed block (containing F (block - 1) spans) (containing F block spans)
      ++ all_switch_edges needed spans count (suc block)

  -- 1.0 / inference_rps
  unfoldable pub compute_delay : Option F.Carrier → F.Carrier
  compute_delay none = F.div (F.of_ℕ 1) (F.of_ℕ 300)
  compute_delay (some rps) = F.div (F.of_ℕ 1) rps

  unfoldable pub blocks_of : RemoteSpanInfo F → ℕ → ℕ → List Edge
  unfolding compute_delay
  blocks_of s zero block = []
  blocks_of s (suc count) block =
      record {
        source = at s.peer_id block;
        target = at s.peer_id (suc block);
        delay = compute_delay s.server_info.inference_rps;
      }
      ∷ blocks_of s count (suc block)

  unfoldable pub compute_edges : ℕ → ℕ → List (RemoteSpanInfo F) → List Edge
  unfolding blocks_of
  compute_edges start end [] = []
  compute_edges start end (s ∷ ss) =
      blocks_of s (min s.end end - max s.start start) (max s.start start)
      ++ compute_edges start end ss

  -- _build_inference_graph
  unfoldable pub build_inference_graph :
      List (ℕ × F.Carrier) → Option ℕ → List (RemoteSpanInfo F) → ℕ → ℕ → List Edge
  unfolding entry_edges exit_edges all_switch_edges compute_edges
  build_inference_graph rtts needed spans start end =
      entry_edges rtts needed start (containing F start spans)
      ++ (exit_edges rtts end (containing F (end - 1) spans)
          ++ (all_switch_edges needed spans (end - suc start) (suc start)
              ++ compute_edges start end spans))

  unfoldable pub missing_at : ℕ → List (RemoteSpanInfo F) → Option ℕ → Option ℕ
  missing_at block [] rest = some block
  missing_at block (s ∷ ss) rest = rest

  -- The first of `count` blocks from `block` on that no span holds.
  unfoldable pub first_missing : List (RemoteSpanInfo F) → ℕ → ℕ → Option ℕ
  unfolding missing_at
  first_missing spans zero block = none
  first_missing spans (suc count) block =
      missing_at block (containing F block spans) (first_missing spans count (suc block))

-- One node of the path; the head of the hops is the last.
unfoldable pub extend_hops : ℕ → ℕ → List Hop → List Hop
extend_hops peer block [] = record { peer_id = peer; start = block; end = block } ∷ []
extend_hops peer block (h ∷ hs) =
    if h.peer_id == peer
    then record h { end = block } ∷ hs
    else record { peer_id = peer; start = block; end = block } ∷ h ∷ hs

-- The nodes between the first and the last one of the path, which is the client's.
unfoldable pub hops_of : List Node → List Hop → List Hop
unfolding extend_hops
hops_of (at peer block ∷ nodes) hops = hops_of nodes (extend_hops peer block hops)
hops_of _ hops = hops

-- The hops in order, without the empty ones.
unfoldable pub nonempty_onto : List Hop → List Hop → List Hop
nonempty_onto [] result = result
nonempty_onto (h ∷ hs) result =
    nonempty_onto hs (if ltb 0 (h.end - h.start) then h ∷ result else result)

unfoldable pub inner_nodes : List Node → List Node
inner_nodes [] = []
inner_nodes (n ∷ ns) = ns

-- path.nodes[1:-1] grouped by peer
unfoldable pub span_sequence : List Node → List Hop
unfolding hops_of nonempty_onto inner_nodes
span_sequence nodes = nonempty_onto (hops_of (inner_nodes nodes) []) []

module _ (F : Float) (find_path : List (Edge F) → List Node) where
  unfoldable pub min_latency_at : List (Edge F) → Option ℕ → Found (List Hop)
  unfolding span_sequence
  min_latency_at edges (some block) = missing_block block
  min_latency_at edges none = found (span_sequence (find_path edges))

  -- _make_sequence_with_min_latency
  unfoldable pub make_sequence_with_min_latency :
      List (ℕ × F.Carrier) → Option ℕ → List (RemoteSpanInfo F) → ℕ → ℕ → Found (List Hop)
  unfolding min_latency_at first_missing build_inference_graph
  make_sequence_with_min_latency rtts needed spans start end =
      if start == end
      then found []
      else min_latency_at (build_inference_graph F rtts needed spans start end)
          (first_missing F spans (end - start) start)
