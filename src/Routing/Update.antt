-- ===== src/Routing/Update.antt =====
-- What `_update` of src/drift/client/routing/sequence_manager.py makes of the servers of a block, and
-- `get_retry_delay`. The bans are hivemind's `Blacklist`, a parameter.
use community_ai.Prelude.{
  ℕ, Bool, true, false, not, ◌&&◌, ◌||◌, Option, none, some, List, [], ◌∷◌, ltb, ◌==◌,
  if◌then◌else◌, length, Float,
}
use community_ai.Routing.Spans.{ServerInfo, BlockInfos}

unfoldable pub is_listed : ℕ → List ℕ → Bool
is_listed p [] = false
is_listed p (q ∷ qs) = (p == q) || is_listed p qs

-- allowed_servers is None or peer_id in allowed_servers
unfoldable pub is_allowed : Option (List ℕ) → ℕ → Bool
unfolding is_listed
is_allowed none p = true
is_allowed (some ps) p = is_listed p ps

unfoldable pub is_blocked : Option (List ℕ) → ℕ → Bool
unfolding is_listed
is_blocked none p = false
is_blocked (some ps) p = is_listed p ps

module _ (F : Float) where
  -- The servers whose peers pass a test.
  unfoldable pub servers_of : (ℕ → Bool) → List (ℕ × ServerInfo F) → List (ℕ × ServerInfo F)
  servers_of test [] = []
  servers_of test ((p, info) ∷ servers) =
      let rest = servers_of test servers in if test p then (p, info) ∷ rest else rest

  -- valid_servers, unless there are none
  unfoldable pub or_all :
      List (ℕ × ServerInfo F) → List (ℕ × ServerInfo F) → List (ℕ × ServerInfo F)
  or_all [] servers = servers
  or_all (s ∷ valid) servers = s ∷ valid

  unfoldable pub without_banned : (ℕ → Bool) → List (ℕ × ServerInfo F) → List (ℕ × ServerInfo F)
  unfolding servers_of or_all
  without_banned banned servers =
      if ltb (length (servers_of (λ p. not (banned p)) servers)) (length servers)
      then or_all (servers_of (λ p. not (banned p)) servers) servers
      else servers

  unfoldable pub screen_servers :
      Option (List ℕ)
      → Option (List ℕ)
      → (ℕ → Bool)
      → List (ℕ × ServerInfo F)
      → List (ℕ × ServerInfo F)
  unfolding without_banned is_allowed is_blocked
  screen_servers allowed blocked banned servers =
      without_banned banned
        (servers_of (λ p. is_allowed allowed p && not (is_blocked blocked p)) servers)

  unfoldable pub screen_blocks :
      Option (List ℕ) → Option (List ℕ) → (ℕ → Bool) → BlockInfos F → BlockInfos F
  unfolding screen_servers
  screen_blocks allowed blocked banned [] = []
  screen_blocks allowed blocked banned (servers ∷ blocks) =
      screen_servers allowed blocked banned servers ∷ screen_blocks allowed blocked banned blocks
