-- ===== src/Placement/Window.antt =====
-- The search for the least-covered window in `_evaluate` of src/drift/node/contribution_planner.py.
-- The head of `maxima` is the right end of the deque; `rank` is `_range_jitter` of one model.
use community_ai.Prelude.{
  ℕ, zero, suc, ◌+◌, ◌-◌, Bool, true, false, Option, none, some, List, [], ◌∷◌, leb, ltb, ◌==◌,
  if◌then◌else◌, get_elem?,
}

pub record Key : Type 0 where
  pub peak : ℕ
  pub window_sum : ℕ
  pub jitter : ℕ
  pub start : ℕ

-- key < best_key, as Python compares tuples
unfoldable pub key_lt : Key → Key → Bool
key_lt a b =
    if ltb a.peak b.peak
    then true
    else if ltb b.peak a.peak
    then false
    else if ltb a.window_sum b.window_sum
    then true
    else if ltb b.window_sum a.window_sum
    then false
    else if ltb a.jitter b.jitter
    then true
    else if ltb b.jitter a.jitter
    then false
    else ltb a.start b.start

pub record Scan : Type 0 where
  pub maxima : List ℕ
  pub window_sum : ℕ
  pub best_key : Option Key
  pub best_start : ℕ

unfoldable pub or_zero : Option ℕ → ℕ
or_zero none = 0
or_zero (some n) = n

-- counts[i] of an index that is in range
unfoldable pub count_at : List ℕ → ℕ → ℕ
unfolding or_zero
count_at counts i = or_zero (get_elem? counts i)

module _ (count : ℕ → ℕ) where
  -- while maxima and counts[maxima[-1]] <= count: maxima.pop()
  unfoldable pub pop_covered : ℕ → List ℕ → List ℕ
  pop_covered c [] = []
  pop_covered c (i ∷ is) = let rest = pop_covered c is in if leb (count i) c then rest else i ∷ is

  -- maxima[0] of a deque that is not empty
  unfoldable pub front : List ℕ → ℕ
  front [] = 0
  front (i ∷ []) = i
  front (i ∷ j ∷ is) = front (j ∷ is)

  -- maxima.popleft()
  unfoldable pub pop_left : List ℕ → List ℕ
  pop_left [] = []
  pop_left (i ∷ []) = []
  pop_left (i ∷ j ∷ is) = i ∷ pop_left (j ∷ is)

  unfoldable pub drop_outgoing : ℕ → List ℕ → List ℕ
  drop_outgoing outgoing maxima = if front maxima == outgoing then pop_left maxima else maxima

  unfoldable pub better_at : Key → Scan → Option Key → Scan
  better_at key s none = record s { best_key = some key; best_start = key.start }
  better_at key s (some best) =
      if key_lt key best then record s { best_key = some key; best_start = key.start } else s

  unfoldable pub better : Key → Scan → Scan
  unfolding better_at
  better key s = better_at key s s.best_key

  module _ (rank : ℕ → ℕ → ℕ) (num_blocks : ℕ) where
    -- maxima and window_sum after one index
    unfoldable pub slide : ℕ → Scan → Scan
    slide index s =
        let maxima = index ∷ pop_covered (count index) s.maxima in
        if leb num_blocks index
        then record s {
          maxima = drop_outgoing (index - num_blocks) maxima;
          window_sum = s.window_sum + count index - count (index - num_blocks);
        }
        else record s { maxima = maxima; window_sum = s.window_sum + count index }

    unfoldable pub candidate_key : ℕ → Scan → Key
    candidate_key start s = record {
      peak = count (front s.maxima);
      window_sum = s.window_sum;
      jitter = rank start (start + num_blocks);
      start = start;
    }

    -- The body of the loop: a window that is not full yet is not a candidate.
    unfoldable pub scan_step : ℕ → Scan → Scan
    unfolding slide
    scan_step index s =
        let s' = slide index s in
        if ltb (suc index) num_blocks
        then s'
        else better (candidate_key (suc index - num_blocks) s') s'

    -- for index, count in enumerate(counts), from `index` on
    unfoldable pub scan_from : ℕ → ℕ → Scan → Scan
    scan_from zero index s = s
    scan_from (suc remaining) index s = scan_from remaining (suc index) (scan_step index s)

    unfoldable pub least_covered : ℕ → ℕ
    unfolding scan_from
    least_covered total =
        (scan_from total 0
          (record { maxima = []; window_sum = 0; best_key = none; best_start = 0 })).best_start
