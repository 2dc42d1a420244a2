-- ===== src/Routing/Tests.antt =====
-- Concrete routes of src/drift/client/routing/sequence_manager.py through two peers.
use community_ai.Prelude.{
  ◌↔◌, ℕ, ◌==◌, Bool, ◌≡◌, inl, inr, refl, arith, none, some, All, Distinct, lookup, List, [], ◌∷◌,
  whole,
}
use community_ai.Routing.Spans.{
  ServerInfo, BlockInfos, remove_peer, RemoteSpanInfo, span_length, insert_server, sorted_servers,
  announced, new_span, update_span, add_servers, add_blocks, compute_spans, values, insert_span,
  sort_by_length, spans_by_priority, containing,
}
use community_ai.Routing.Throughput.{found, make_sequence_with_max_throughput}
use community_ai.Routing.Coverage.{IsRoute, max_throughput-IsRoute}
use community_ai.Routing.Latency.{
  Node, start_node, end_node, at, rtt_to_delay, has_room, has_cache_for, entry_delay, entry_edges,
  exit_edges, ping_to, edges_to, switch_edges, all_switch_edges, compute_delay, blocks_of,
  compute_edges, build_inference_graph, missing_at, first_missing, extend_hops, hops_of,
  nonempty_onto, inner_nodes, span_sequence, min_latency_at, make_sequence_with_min_latency,
}
use community_ai.Routing.Update.{
  is_listed, is_allowed, is_blocked, servers_of, or_all, without_banned, screen_servers,
}
use community_ai.Routing.Screening.{IsIn, IsMeant, IsSpared, screen_servers_iff}
use community_ai.Routing.Removal.{compute_spans-remove_peer}
use community_ai.Routing.Graph.{IsPath}
use community_ai.Routing.Paths.{IsRouteOfHops, min_latency-IsRoute}

abbrev server : ℕ → ℕ → ServerInfo whole
server first last = record {
  state = 2;
  throughput = 1;
  start_block = some first;
  end_block = some last;
  inference_rps = none;
  cache_tokens_left = none;
  next_pings = none;
}

abbrev short : RemoteSpanInfo whole
short = record { peer_id = 0; start = 0; end = 2; server_info = server 0 2 }

abbrev long : RemoteSpanInfo whole
long = record { peer_id = 1; start = 1; end = 4; server_info = server 1 4 }

-- Spans of the servers of four blocks, the longer first.
computed :
    spans_by_priority whole 0 (
      ((0, server 0 2) ∷ [])
      ∷ ((1, server 1 4) ∷ (0, server 0 2) ∷ [])
      ∷ ((1, server 1 4) ∷ [])
      ∷ ((1, server 1 4) ∷ [])
      ∷ [])
    ≡ long ∷ short ∷ []
unfolding spans_by_priority sort_by_length insert_span values compute_spans add_blocks add_servers
    update_span new_span announced sorted_servers insert_server span_length
computed = refl

abbrev spans : List (RemoteSpanInfo whole)
spans = long ∷ short ∷ []

max_throughput-IsRoute_example :
    IsRoute whole 0 4 spans (make_sequence_with_max_throughput whole (λ hop. hop) spans 0 4)
max_throughput-IsRoute_example = max_throughput-IsRoute whole (λ hop. hop) spans 0 4

-- A path that stays with the first peer for two blocks.
abbrev path : List Node
path = start_node ∷ at 0 0 ∷ at 0 1 ∷ at 0 2 ∷ at 1 2 ∷ at 1 3 ∷ at 1 4 ∷ end_node ∷ []

path_of_graph : IsPath whole (build_inference_graph whole [] none spans 0 4) path
unfolding build_inference_graph entry_edges exit_edges edges_to switch_edges all_switch_edges
    compute_edges blocks_of containing entry_delay rtt_to_delay has_cache_for has_room compute_delay
    ping_to
path_of_graph = (
  refl,
  (
    inl (refl, refl),
    (
      inr (inr (inr (inr (inr (inr (inl (refl, refl))))))),
      (
        inr (inr (inr (inr (inr (inr (inr (inl (refl, refl)))))))),
        (
          inr (inr (inl (refl, refl))),
          (
            inr (inr (inr (inr (inl (refl, refl))))),
            (inr (inr (inr (inr (inr (inl (refl, refl)))))), (inr (inl (refl, refl)), refl)),
          ),
        ),
      ),
    ),
  ),
)

hops :
    make_sequence_with_min_latency whole (λ es. path) [] none spans 0 4
    ≡ found (
        record { peer_id = 0; start = 0; end = 2 }
        ∷ record { peer_id = 1; start = 2; end = 4 }
        ∷ [])
unfolding make_sequence_with_min_latency min_latency_at first_missing missing_at containing
    span_sequence hops_of nonempty_onto inner_nodes extend_hops
hops = refl

min_latency-IsRoute_example :
    IsRouteOfHops whole spans 0 4
      (make_sequence_with_min_latency whole (λ es. path) [] none spans 0 4)
min_latency-IsRoute_example =
    min_latency-IsRoute whole (λ es. path) [] none spans 0 4 (omega arith) (λ u. path_of_graph)

abbrev is_first : ℕ → Bool
is_first p = p == 1

-- Peer 3 is on the block list, and peer 1 is banned.
abbrev seen : List (ℕ × ServerInfo whole)
seen = (1, server 0 2) ∷ (2, server 0 2) ∷ (3, server 0 2) ∷ []

screened : screen_servers whole none (some (3 ∷ [])) is_first seen ≡ (2, server 0 2) ∷ []
unfolding screen_servers without_banned or_all servers_of is_allowed is_blocked is_listed
screened = refl

screen_servers_iff_example :
    IsIn whole (1, server 0 2) (screen_servers whole none (some (3 ∷ [])) is_first seen) ↔ (
      IsMeant whole none (some (3 ∷ [])) seen (1, server 0 2)
      × IsSpared whole is_first (IsMeant whole none (some (3 ∷ [])) seen) (1, server 0 2))
screen_servers_iff_example =
    screen_servers_iff whole none (some (3 ∷ [])) is_first seen (1, server 0 2)

abbrev served : BlockInfos whole
served = ((0, server 0 2) ∷ []) ∷ ((1, server 1 4) ∷ (0, server 0 2) ∷ []) ∷ []

served-Distinct : All Distinct served
served-Distinct = ((tt, tt), (((omega arith, tt), (tt, tt)), tt))

compute_spans-remove_peer_example :
    lookup 0 (compute_spans whole 0 1 ((remove_peer whole 0 served).1)) ≡ none
compute_spans-remove_peer_example = compute_spans-remove_peer whole 0 1 0 served served-Distinct
