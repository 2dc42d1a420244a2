-- ===== src/Routing/Spans.antt =====
-- `ServerInfo`, `RemoteSpanInfo` of src/drift/data_structures.py, `compute_spans` of
-- src/drift/utils/dht.py and `RemoteSequenceInfo` of src/drift/client/routing/sequence_info.py. A span
-- that is announced backwards has length 0 here; it holds no block, and only its place among other
-- empty spans could differ.
use Prim.Native.Nat.{min, max}
use community_ai.Prelude.{
  ℕ, suc, ◌+◌, ◌-◌, Bool, true, false, ◌&&◌, Option, none, some, List, [], ◌∷◌, leb, ltb, ◌==◌,
  if◌then◌else◌, length, lookup, put, remove, Float,
}

module _ (F : Float) where
  -- The state is its value: 0 is offline, 1 joining, 2 online.
  pub record ServerInfo : Type 0 where
    pub state : ℕ
    pub throughput : F.Carrier
    pub start_block : Option ℕ
    pub end_block : Option ℕ
    pub inference_rps : Option F.Carrier
    pub cache_tokens_left : Option ℕ
    pub next_pings : Option (List (ℕ × F.Carrier))

  pub record RemoteSpanInfo : Type 0 where
    pub peer_id : ℕ
    pub start : ℕ
    pub end : ℕ
    pub server_info : ServerInfo

  -- The servers of each block.
  abbrev pub BlockInfos : Type 0
  BlockInfos = List (List (ℕ × ServerInfo))

  unfoldable pub span_length : RemoteSpanInfo → ℕ
  span_length s = s.end - s.start

  -- sorted(servers.items()); the peers of a dictionary differ
  unfoldable pub insert_server : ℕ × ServerInfo → List (ℕ × ServerInfo) → List (ℕ × ServerInfo)
  insert_server (p, i) [] = (p, i) ∷ []
  insert_server (p, i) ((q, j) ∷ rest) =
      let later = insert_server (p, i) rest in
      if leb p q then (p, i) ∷ (q, j) ∷ rest else (q, j) ∷ later

  unfoldable pub sorted_servers : List (ℕ × ServerInfo) → List (ℕ × ServerInfo)
  unfolding insert_server
  sorted_servers [] = []
  sorted_servers (s ∷ ss) = insert_server s (sorted_servers ss)

  -- The range that the server announces, if it announces both ends.
  unfoldable pub announced : ℕ → ℕ → Option ℕ → Option ℕ → RemoteSpanInfo → RemoteSpanInfo
  announced offset num_blocks (some first) (some last) s = record s {
    start = first - offset;
    end = min (last - offset) num_blocks;
  }
  announced offset num_blocks _ _ s = s

  unfoldable pub new_span : ℕ → ℕ → ℕ → ℕ → ServerInfo → RemoteSpanInfo
  unfolding announced
  new_span offset num_blocks block peer info =
      announced offset num_blocks info.start_block info.end_block
        (record { peer_id = peer; start = block; end = block + 1; server_info = info })

  -- What a server of a block makes of its peer's span.
  unfoldable pub update_span : ℕ → ℕ → ℕ → ℕ → ServerInfo → Option RemoteSpanInfo → RemoteSpanInfo
  unfolding new_span
  update_span offset num_blocks block peer info none = new_span offset num_blocks block peer info
  update_span offset num_blocks block peer info (some s) =
      if ltb s.server_info.state info.state
      then new_span offset num_blocks block peer info
      else if s.server_info.state == info.state
      then record s { end = max s.end (block + 1) }
      else s

  unfoldable pub add_servers :
      ℕ → ℕ → ℕ → ℕ → List (ℕ × ServerInfo) → List (ℕ × RemoteSpanInfo) → List (ℕ × RemoteSpanInfo)
  unfolding update_span
  add_servers offset num_blocks min_state block [] spans = spans
  add_servers offset num_blocks min_state block ((peer, info) ∷ servers) spans =
      let updated = update_span offset num_blocks block peer info (lookup peer spans) in
      add_servers offset num_blocks min_state block servers
        (if ltb info.state min_state then spans else put peer updated spans)

  unfoldable pub add_blocks :
      ℕ → ℕ → ℕ → ℕ → BlockInfos → List (ℕ × RemoteSpanInfo) → List (ℕ × RemoteSpanInfo)
  unfolding add_servers sorted_servers
  add_blocks offset num_blocks min_state block [] spans = spans
  add_blocks offset num_blocks min_state block (servers ∷ blocks) spans =
      add_blocks offset num_blocks min_state (suc block) blocks
        (add_servers offset num_blocks min_state block (sorted_servers servers) spans)

  -- compute_spans; `offset` is the index of the first block's uid
  unfoldable pub compute_spans : ℕ → ℕ → BlockInfos → List (ℕ × RemoteSpanInfo)
  unfolding add_blocks
  compute_spans offset min_state blocks = add_blocks offset (length blocks) min_state 0 blocks []

  unfoldable pub values : List (ℕ × RemoteSpanInfo) → List RemoteSpanInfo
  values [] = []
  values ((p, s) ∷ spans) = s ∷ values spans

  -- sort(key=length, reverse=True) keeps the order of equals
  unfoldable pub insert_span : RemoteSpanInfo → List RemoteSpanInfo → List RemoteSpanInfo
  unfolding span_length
  insert_span s [] = s ∷ []
  insert_span s (t ∷ ts) =
      let later = insert_span s ts in
      if leb (span_length t) (span_length s) then s ∷ t ∷ ts else t ∷ later

  unfoldable pub sort_by_length : List RemoteSpanInfo → List RemoteSpanInfo
  unfolding insert_span
  sort_by_length [] = []
  sort_by_length (s ∷ ss) = insert_span s (sort_by_length ss)

  -- spans_by_priority, of the servers that are online
  unfoldable pub spans_by_priority : ℕ → BlockInfos → List RemoteSpanInfo
  unfolding sort_by_length values compute_spans
  spans_by_priority offset blocks = sort_by_length (values (compute_spans offset 2 blocks))

  -- spans_containing_block[block]
  unfoldable pub containing : ℕ → List RemoteSpanInfo → List RemoteSpanInfo
  containing block [] = []
  containing block (s ∷ ss) =
      let rest = containing block ss in
      if leb s.start block && ltb block s.end then s ∷ rest else rest

  unfoldable pub remove_everywhere : ℕ → BlockInfos → BlockInfos
  remove_everywhere peer [] = []
  remove_everywhere peer (servers ∷ blocks) = remove peer servers ∷ remove_everywhere peer blocks

  unfoldable pub any_empty : BlockInfos → Bool
  any_empty [] = false
  any_empty ([] ∷ blocks) = true
  any_empty ((server ∷ servers) ∷ blocks) = any_empty blocks

  -- remove_peer_: whether some block has no server left, and the servers
  unfoldable pub remove_peer : ℕ → BlockInfos → Bool × BlockInfos
  unfolding remove_everywhere any_empty
  remove_peer peer blocks =
      (any_empty (remove_everywhere peer blocks), remove_everywhere peer blocks)
