-- ===== src/Routing/Coverage.antt =====
-- The routes of `_make_sequence_with_max_throughput` in
-- src/drift/client/routing/sequence_manager.py.
use community_ai.Prelude.{
  ℕ, zero, suc, ◌≡◌, ◌≤◌, ◌<◌, ◌+◌, ◌-◌, ◌%◌, ◌⊎◌, inl, inr, true, ◌&&◌, List, [], ◌∷◌, leb, ltb,
  arith, refl, Bool-cases, leb→le, leb→gt, All, All-map, length, get_elem?, Float,
}
use community_ai.Routing.Spans.{RemoteSpanInfo, containing}
use community_ai.Routing.Throughput.{
  Found, found, missing_block, out_of_fuel, before_route, or_first, choice, take_hop, next_hop,
  max_throughput_from, make_sequence_with_max_throughput,
}

module _ (F : Float) where
  -- Hops that follow each other from `current` to `end` or past it, none of them empty.
  abbrev pub Covers : ℕ → ℕ → List (RemoteSpanInfo F) → Type 0
  Covers current end [] = end ≤ current
  Covers current end (h ∷ hs) =
      (h.start ≡ current) × (current < end) × (current < h.end) × Covers h.end end hs

  -- A hop is the rest of a span that its peer serves.
  abbrev pub IsServed : List (RemoteSpanInfo F) → RemoteSpanInfo F → Type 0
  IsServed [] h = ⊥
  IsServed (s ∷ ss) h =
      ((s.peer_id ≡ h.peer_id) × (s.start ≤ h.start) × (s.end ≡ h.end)) ⊎ IsServed ss h

  -- What a search may end with: a route, or a block that no span holds.
  abbrev pub IsRoute : ℕ → ℕ → List (RemoteSpanInfo F) → Found (List (RemoteSpanInfo F)) → Type 0
  IsRoute current end spans (found hs) = Covers current end hs × All (IsServed spans) hs
  IsRoute current end spans (missing_block b) =
      (current ≤ b) × (b < end) × (containing F b spans ≡ [])
  IsRoute current end spans out_of_fuel = ⊥

  -- A span of the list that holds a block.
  abbrev Holds : ℕ → List (RemoteSpanInfo F) → RemoteSpanInfo F → Type 0
  Holds b spans s = (s.start ≤ b) × (b < s.end) × IsServed spans (record s { start = b })

  containing-Holds :
      (b : ℕ) (spans : List (RemoteSpanInfo F)) → All (Holds b spans) (containing F b spans)
  unfolding containing
  containing-Holds b [] = tt
  containing-Holds b (s ∷ ss) = elim (Bool-cases (leb s.start b && ltb b s.end)) [
    | inl here ↦
        (let low : s.start ≤ b = ground arith in
          let high : b < s.end = ground arith in
          rw here (
            (low, high, inl (refl, low, refl)),
            All-map (Holds b ss) (Holds b (s ∷ ss)) _ (λ t h. (h.0, h.1, inr h.2))
                (containing-Holds b ss),
          ))
    | inr elsewhere ↦ rw elsewhere (
        All-map (Holds b ss) (Holds b (s ∷ ss)) _ (λ t h. (h.0, h.1, inr h.2))
          (containing-Holds b ss))
  ]

  All-get_elem :
      (P : RemoteSpanInfo F → Type 0) (xs : List (RemoteSpanInfo F)) (i : ℕ) (d : RemoteSpanInfo F)
      → P d
      → All P xs
      → P (or_first F d (get_elem? xs i))
  unfolding or_first
  All-get_elem P [] i d p h = p
  All-get_elem P (x ∷ xs) zero d p h = h.0
  All-get_elem P (x ∷ xs) (suc i) d p h = All-get_elem P xs i d p h.1

  take_hop-IsRoute :
      (current end : ℕ) (spans : List (RemoteSpanInfo F)) (s : RemoteSpanInfo F)
      (rest : Found (List (RemoteSpanInfo F)))
      → current < end
      → Holds current spans s
      → IsRoute s.end end spans rest
      → IsRoute current end spans (take_hop F current s rest)
  unfolding take_hop before_route
  take_hop-IsRoute current end spans s (found hs) a h r = ((refl, a, h.1, r.0), (h.2, r.1))
  take_hop-IsRoute current end spans s (missing_block b) a h r = (omega (arith, h.1, r.0), r.1, r.2)
  take_hop-IsRoute current end spans s out_of_fuel a h r = r

  next_hop-IsRoute :
      (current end pick : ℕ) (spans candidates : List (RemoteSpanInfo F))
      (rest : RemoteSpanInfo F → Found (List (RemoteSpanInfo F)))
      → containing F current spans ≡ candidates
      → current < end
      → All (Holds current spans) candidates
      → ((s : RemoteSpanInfo F) → current < s.end → IsRoute s.end end spans (rest s))
      → IsRoute current end spans (next_hop F rest current pick candidates)
  unfolding next_hop choice
  next_hop-IsRoute current end pick spans [] rest e a h r = (omega arith, a, e)
  next_hop-IsRoute current end pick spans (c ∷ cs) rest e a h r =
      (let chosen = All-get_elem (Holds current spans) (c ∷ cs) (pick % suc (length cs)) c h.0 h in
        take_hop-IsRoute current end spans _ _ a chosen (r _ chosen.1))

  max_throughput_from-IsRoute :
      (fuel : ℕ) (picks : ℕ → ℕ) (spans : List (RemoteSpanInfo F)) (end current : ℕ)
      → end ≤ fuel + current
      → IsRoute current end spans (max_throughput_from F fuel picks spans end current)
  unfolding max_throughput_from
  max_throughput_from-IsRoute zero picks spans end current a =
      (let at_end : leb end current ≡ true = ground arith in rw at_end (omega arith, tt))
  max_throughput_from-IsRoute (suc fuel) picks spans end current a =
      elim (Bool-cases (leb end current)) [
        | inl at_end ↦ rw at_end (leb→le end current at_end, tt)
        | inr before ↦ rw before (
            next_hop-IsRoute current end (picks 0) spans _ _ refl (leb→gt end current before)
              (containing-Holds current spans)
              (λ s h.
                max_throughput_from-IsRoute fuel (λ n. picks (suc n)) spans end s.end
                  (omega arith)))
      ]

  -- For any random choices the search ends: with a route whose hops follow each other from the first
  -- block to the last or past it, each the rest of a span of its peer, or with a block of the range
  -- that no span holds.
  pub max_throughput-IsRoute :
      (picks : ℕ → ℕ) (spans : List (RemoteSpanInfo F)) (start end : ℕ)
      → IsRoute start end spans (make_sequence_with_max_throughput F picks spans start end)
  unfolding make_sequence_with_max_throughput
  max_throughput-IsRoute picks spans start end =
      max_throughput_from-IsRoute (end - start) picks spans end start (omega arith)
