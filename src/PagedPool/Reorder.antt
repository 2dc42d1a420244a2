-- ===== src/PagedPool/Reorder.antt =====
-- `PagedKVPool.reorder` of src/drift/server/memory_cache.py.
use community_ai.Prelude.{
  ℕ, suc, ◌+◌, ◌-◌, ltb, length, Bool, true, false, not, Option, none, some, List, [], ◌∷◌, ◌++◌,
  ◌==◌, if◌then◌else◌, get_elem?, lookup, put,
}
use community_ai.PagedPool.{
  Status, done, allocation_failed, no_such_row, no_such_slot, Rows, Pool, extend_rows,
}

module _ {ℓ} {A : Type ℓ} where
  -- copied, the pages and cells left, and whether there were pages enough
  unfoldable pub copy_row : List ℕ → List ℕ → (ℕ → ℕ → A) → List ℕ × List ℕ × (ℕ → ℕ → A) × Bool
  copy_row [] free cells = ([], free, cells, true)
  copy_row (page ∷ pages) [] cells = ([], [], cells, false)
  copy_row (page ∷ pages) (new ∷ free) cells =
      let (copied, free', cells', finished) =
        copy_row pages free (λ q offset. if q == new then cells page offset else cells q offset) in
      (new ∷ copied, free', cells', finished)

-- The entries of `hypo_ids`, which Python's lists also take from their ends.
pub data ℤ : Type 0 where
  pos negsuc : ℕ → ℤ

unfoldable pub same_index : ℤ → ℤ → Bool
same_index (pos m) (pos n) = m == n
same_index (negsuc m) (negsuc n) = m == n
same_index _ _ = false

-- block_table[src]
unfoldable pub row_at : Rows → ℤ → Option (List ℕ)
row_at table (pos n) = get_elem? table n
row_at table (negsuc n) =
    if ltb n (length table) then get_elem? table (length table - suc n) else none

unfoldable pub mem : ℤ → List ℤ → Bool
unfolding same_index
mem a [] = false
mem a (x ∷ xs) = if same_index x a then true else mem a xs

-- Rows whose index, from `i` on, was never a source.
unfoldable pub unclaimed : ℕ → List ℤ → Rows → Rows
unfolding mem
unclaimed i claimed [] = []
unclaimed i claimed (row ∷ rows) =
    let rest = unclaimed (i + 1) claimed rows in if mem (pos i) claimed then rest else row ∷ rest

module _ {ℓ} (A : Type ℓ) where
  -- What the loop over `hypo_ids` carries.
  pub record Reordering : Type ℓ where
    pub status : Status
    pub result : Rows
    pub claimed : List ℤ
    pub free : List ℕ
    pub contents : ℕ → ℕ → A

module _ {ℓ} {A : Type ℓ} where
  unfoldable pub reorder_source : Rows → ℤ → Reordering A → Option (List ℕ) → Reordering A
  reorder_source table src r none = record r { status = no_such_row }
  reorder_source table src r (some row) =
      let (copied, free', cells', finished) = copy_row row r.free r.contents in
      if not (mem src r.claimed)
      then record r { claimed = src ∷ r.claimed; result = r.result ++ row ∷ [] }
      else if finished
      then record r { result = r.result ++ copied ∷ []; free = free'; contents = cells' }
      else record r { status = allocation_failed; free = free'; contents = cells' }

  -- An exception in the body leaves the loop.
  unfoldable pub choose : Status → Reordering A → Reordering A → Reordering A
  choose done next rest = rest
  choose _ next rest = next

  unfoldable pub reorder_loop : Rows → List ℤ → Reordering A → Reordering A
  reorder_loop table [] r = r
  reorder_loop table (src ∷ srcs) r =
      let next = reorder_source table src r (row_at table src) in
      let rest = reorder_loop table srcs next in choose next.status next rest

  -- The end of `reorder`: after an exception only the free list and the cells have changed.
  unfoldable pub finish : Status → ℕ → Rows → Pool A → Reordering A → Status × Pool A
  finish done slot table p r = (
    done,
    record p {
      free_pages = extend_rows (unclaimed 0 r.claimed table) r.free;
      cells = r.contents;
      block_tables = put slot r.result p.block_tables;
    },
  )
  finish e slot table p r = (e, record p { free_pages = r.free; cells = r.contents })

  unfoldable pub reorder_at : ℕ → List ℤ → Pool A → Option Rows → Status × Pool A
  reorder_at slot hypo_ids p none = (no_such_slot, p)
  reorder_at slot hypo_ids p (some table) =
      let start : Reordering A = record {
        status = done;
        result = [];
        claimed = [];
        free = p.free_pages;
        contents = p.cells;
      } in
      let r = reorder_loop table hypo_ids start in finish r.status slot table p r

  unfoldable pub reorder : ℕ → List ℤ → Pool A → Status × Pool A
  unfolding reorder_at
  reorder slot hypo_ids p = reorder_at slot hypo_ids p (lookup slot p.block_tables)
