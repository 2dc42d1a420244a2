-- ===== src/PagedPool.antt =====
-- `PagedKVPool` of src/drift/server/memory_cache.py. The key and the value of one token, over all
-- heads, are one element of `A`, and the two pool tensors are a function from a page and an offset.
-- The head of `free` is the end of Python's `_free_pages`.
pub mod Ownership
pub mod Reorder
pub mod Leak
pub mod History
pub mod Tests
use Prim.Native.Nat.{min, max}
use community_ai.Prelude.{
  ℕ, zero, suc, ◌+◌, ◌-◌, ◌*◌, ◌/◌, ◌%◌, Bool, true, false, not, ◌&&◌, Option, none, some, List, [],
  ◌∷◌, ◌++◌, leb, ltb, ◌==◌, if◌then◌else◌, length, get_elem?, take, replicate, lookup, put, remove,
}

-- A call that raises `AllocationFailed` or an `IndexError` keeps what it has changed by then.
pub data Status : Type 0 where
  done allocation_failed no_such_row no_such_slot : Status

abbrev pub Rows : Type 0
Rows = List (List ℕ)

module _ {ℓ} (A : Type ℓ) where
  pub record Pool : Type ℓ where
    pub num_pages : ℕ
    pub page_size : ℕ
    pub free_pages : List ℕ
    pub block_tables : List (ℕ × Rows)
    pub cells : ℕ → ℕ → A

-- list(range(n)), its end first
unfoldable pub range_down : ℕ → List ℕ
range_down zero = []
range_down (suc n) = n ∷ range_down n

-- free_pages.extend(pages)
unfoldable pub extend : List ℕ → List ℕ → List ℕ
extend [] free = free
extend (p ∷ pages) free = extend pages (p ∷ free)

unfoldable pub extend_rows : Rows → List ℕ → List ℕ
unfolding extend
extend_rows [] free = free
extend_rows (row ∷ rows) free = extend_rows rows (extend row free)

-- while len(row_pages) < num_logical_pages: row_pages.append(self._acquire_page())
unfoldable pub grow_row : ℕ → List ℕ → List ℕ → List ℕ × List ℕ × Bool
grow_row zero row free = (row, free, true)
grow_row (suc n) row [] = (row, [], false)
grow_row (suc n) row (p ∷ free) = grow_row n (row ++ p ∷ []) free

unfoldable pub grow_rows : ℕ → Rows → List ℕ → Rows × List ℕ × Bool
unfolding grow_row
grow_rows pages [] free = ([], free, true)
grow_rows pages (row ∷ rows) free =
    let (row', free', grown) = grow_row (pages - length row) row free in
    let rest = grow_rows pages rows free' in
    if grown then (row' ∷ rest.0, rest.1, rest.2) else (row' ∷ rows, free', false)

-- math.ceil(a / b)
unfoldable pub ceil_div : ℕ → ℕ → ℕ
ceil_div a b = (a + (b - 1)) / b

module _ {ℓ} {A : Type ℓ} where
  -- __init__
  unfoldable pub init : ℕ → ℕ → A → Pool A
  unfolding range_down
  init num_pages page_size zeros = record {
    num_pages = num_pages;
    page_size = page_size;
    free_pages = range_down num_pages;
    block_tables = [];
    cells = λ page offset. zeros;
  }

  pub num_free_pages : Pool A → ℕ
  num_free_pages p = length p.free_pages

  pub num_used_pages : Pool A → ℕ
  num_used_pages p = p.num_pages - length p.free_pages

  unfoldable pub register_at : ℕ → ℕ → Pool A → Option Rows → Pool A
  register_at slot batch p (some _) = p
  register_at slot batch p none = record p {
    block_tables = put slot (replicate batch []) p.block_tables;
  }

  unfoldable pub register_slot : ℕ → ℕ → Pool A → Pool A
  register_slot slot batch p = register_at slot batch p (lookup slot p.block_tables)

  unfoldable pub free_at : ℕ → Pool A → Option Rows → Pool A
  free_at slot p none = p
  free_at slot p (some rows) = record p {
    block_tables = remove slot p.block_tables;
    free_pages = extend_rows rows p.free_pages;
  }

  unfoldable pub free_slot : ℕ → Pool A → Pool A
  free_slot slot p = free_at slot p (lookup slot p.block_tables)

  -- The token at a position of a row: the cell of its page and offset.
  pub read : Pool A → List ℕ → ℕ → Option A
  read p row token = elim (get_elem? row (token / p.page_size)) [
    | none ↦ none
    | some page ↦ some (p.cells page (token % p.page_size))
  ]

  read_range : Pool A → List ℕ → ℕ → ℕ → List (Option A)
  unfolding read
  read_range p row token zero = []
  read_range p row token (suc n) = read p row token ∷ read_range p row (token + 1) n

  gather_rows : Pool A → Rows → ℕ → List (List (Option A))
  unfolding read_range
  gather_rows p [] prefix = []
  gather_rows p (row ∷ rows) prefix = read_range p row 0 prefix ∷ gather_rows p rows prefix

  -- gather: the first `prefix` tokens of each row; a page that is not there is `none`
  pub gather : ℕ → ℕ → Pool A → Option (List (List (Option A)))
  unfolding gather_rows
  gather slot prefix p = elim (lookup slot p.block_tables) [
    | none ↦ none
    | some rows ↦ some (gather_rows p rows prefix)
  ]

  -- cells[page, start:end] = new[first:first + (end - start)]
  pub write_slice : (ℕ → ℕ → A) → ℕ → ℕ → ℕ → ℕ → (ℕ → A) → ℕ → ℕ → A
  write_slice cells page start end first new page' offset =
      if page' == page && leb start offset && ltb offset end
      then new (first + (offset - start))
      else cells page' offset

  -- The slice of logical page `lp` in one row; `new` gives the row's tokens.
  pub write_page : ℕ → ℕ → ℕ → ℕ → List ℕ → (ℕ → A) → (ℕ → ℕ → A) → ℕ → ℕ → A
  unfolding write_slice
  write_page page_size prefix new_length lp row new cells =
      let tok_start = max prefix (lp * page_size) in
      let tok_end = min new_length ((lp + 1) * page_size) in
      elim (get_elem? row lp) [
        | none ↦ cells
        | some page ↦
            write_slice cells page (tok_start - lp * page_size) (tok_end - lp * page_size) tok_start
              new
      ]

  -- One logical page in every row of the batch.
  pub write_pages : ℕ → ℕ → ℕ → ℕ → Rows → List (ℕ → A) → (ℕ → ℕ → A) → ℕ → ℕ → A
  unfolding write_page
  write_pages page_size prefix new_length lp (row ∷ rows) (new ∷ news) cells =
      write_pages page_size prefix new_length lp rows news
        (write_page page_size prefix new_length lp row new cells)
  write_pages page_size prefix new_length lp _ _ cells = cells

  -- for lp in range(first_page, num_logical_pages), `count` of them from `lp`
  pub write_from : ℕ → ℕ → ℕ → ℕ → ℕ → Rows → List (ℕ → A) → (ℕ → ℕ → A) → ℕ → ℕ → A
  unfolding write_pages
  write_from page_size prefix new_length zero lp rows news cells = cells
  write_from page_size prefix new_length (suc count) lp rows news cells =
      write_from page_size prefix new_length count (lp + 1) rows news
        (write_pages page_size prefix new_length lp rows news cells)

  unfoldable pub scatter_at : ℕ → ℕ → List (ℕ → A) → ℕ → Pool A → Option Rows → Status × Pool A
  scatter_at slot new_length news prefix p none = (no_such_slot, p)
  scatter_at slot new_length news prefix p (some rows) =
      let pages = ceil_div new_length p.page_size in
      let first = prefix / p.page_size in
      let grown = grow_rows pages rows p.free_pages in
      let p' = record p { block_tables = put slot grown.0 p.block_tables; free_pages = grown.1 } in
      if leb new_length prefix
      then (done, p)
      else if grown.2
      then (
        done,
        record p' {
          cells =
              write_from p.page_size prefix new_length (pages - first) first grown.0 news p.cells;
        },
      )
      else (allocation_failed, p')

  -- scatter; `news` gives each row's tokens by position
  unfoldable pub scatter : ℕ → ℕ → List (ℕ → A) → ℕ → Pool A → Status × Pool A
  scatter slot new_length news prefix p =
      scatter_at slot new_length news prefix p (lookup slot p.block_tables)
