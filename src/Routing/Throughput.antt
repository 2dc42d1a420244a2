-- ===== src/Routing/Throughput.antt =====
-- `_make_sequence_with_max_throughput` of src/drift/client/routing/sequence_manager.py. Which of the
-- candidates `np.random.choice` returns is read from `picks`, one number for each hop.
use community_ai.Prelude.{
  ℕ, zero, suc, ◌-◌, ◌%◌, Option, none, some, List, [], ◌∷◌, leb, if◌then◌else◌, length, get_elem?,
  Float,
}
use community_ai.Routing.Spans.{RemoteSpanInfo, containing}

-- What a search for a route ends with.
pub data Found {ℓ} (A : Type ℓ) : Type ℓ where
  found : A → Found A
  missing_block : ℕ → Found A
  out_of_fuel : Found A

unfoldable pub before_route {ℓ} : {A : Type ℓ} → A → Found (List A) → Found (List A)
before_route a (found rest) = found (a ∷ rest)
before_route a (missing_block b) = missing_block b
before_route a out_of_fuel = out_of_fuel

module _ (F : Float) where
  unfoldable pub or_first : RemoteSpanInfo F → Option (RemoteSpanInfo F) → RemoteSpanInfo F
  or_first s none = s
  or_first s (some t) = t

  -- np.random.choice of candidates that are not none
  unfoldable pub choice : RemoteSpanInfo F → List (RemoteSpanInfo F) → ℕ → RemoteSpanInfo F
  unfolding or_first
  choice c cs pick = or_first c (get_elem? (c ∷ cs) (pick % suc (length cs)))

  unfoldable pub take_hop :
      ℕ → RemoteSpanInfo F → Found (List (RemoteSpanInfo F)) → Found (List (RemoteSpanInfo F))
  unfolding before_route
  take_hop current chosen rest = before_route (record chosen { start = current }) rest

  -- One hop from the block `current`, and the rest of the route from the end of the chosen span.
  unfoldable pub next_hop :
      (RemoteSpanInfo F → Found (List (RemoteSpanInfo F)))
      → ℕ
      → ℕ
      → List (RemoteSpanInfo F)
      → Found (List (RemoteSpanInfo F))
  unfolding choice take_hop
  next_hop rest current pick [] = missing_block current
  next_hop rest current pick (c ∷ cs) =
      take_hop current (choice c cs pick) (rest (choice c cs pick))

  -- The loop, from the block `current` on.
  unfoldable pub max_throughput_from :
      ℕ → (ℕ → ℕ) → List (RemoteSpanInfo F) → ℕ → ℕ → Found (List (RemoteSpanInfo F))
  unfolding next_hop
  max_throughput_from zero picks spans end current =
      if leb end current
      then found []
      else next_hop (λ s. out_of_fuel) current (picks 0) (containing F current spans)
  max_throughput_from (suc fuel) picks spans end current =
      if leb end current
      then found []
      else next_hop (λ s. max_throughput_from fuel (λ n. picks (suc n)) spans end s.end) current
          (picks 0) (containing F current spans)

  -- Each hop passes a block, so that as many hops as there are blocks are enough.
  unfoldable pub make_sequence_with_max_throughput :
      (ℕ → ℕ) → List (RemoteSpanInfo F) → ℕ → ℕ → Found (List (RemoteSpanInfo F))
  unfolding max_throughput_from
  make_sequence_with_max_throughput picks spans start end =
      max_throughput_from (end - start) picks spans end start
