-- ===== src/PagedPool/Ownership.antt =====
-- Who owns a page of the `PagedKVPool` of src/drift/server/memory_cache.py: the free list, or a row
-- of a block table.
use community_ai.Prelude.{
  ℕ, zero, suc, ◌+◌, ◌-◌, ◌≡◌, refl, inl, inr, Option, none, some, List, [], ◌∷◌, ◌++◌, arith, leb,
  ltb, if◌then◌else◌, Bool-cases, length, replicate, count, count-append, lookup, put, total,
  total-put_new, total-put_old, total-remove_old,
}
use community_ai.PagedPool.{
  Rows, Pool, extend, extend_rows, grow_row, grow_rows, range_down, init, register_at,
  register_slot, free_at, free_slot, scatter_at, scatter, ceil_div,
}

abbrev pub count_rows : ℕ → Rows → ℕ
count_rows a [] = 0
count_rows a (row ∷ rows) = count a row + count_rows a rows

-- How often a page is owned.
abbrev pub owned {ℓ} : {A : Type ℓ} → ℕ → Pool A → ℕ
owned a p = count a p.free_pages + total (count_rows a) p.block_tables

pub count_rows-append :
    (a : ℕ) (xs ys : Rows) → count_rows a (xs ++ ys) ≡ count_rows a xs + count_rows a ys
count_rows-append a [] ys = omega arith
count_rows-append a (x ∷ xs) ys = omega (arith, count_rows-append a xs ys)

count-extend :
    (a : ℕ) (pages free : List ℕ) → count a (extend pages free) ≡ count a pages + count a free
unfolding extend
count-extend a [] free = omega arith
count-extend a (p ∷ pages) free = omega (arith, count-extend a pages (p ∷ free))

pub count-extend_rows :
    (a : ℕ) (rows : Rows) (free : List ℕ)
    → count a (extend_rows rows free) ≡ count_rows a rows + count a free
unfolding extend_rows
count-extend_rows a [] free = omega arith
count-extend_rows a (row ∷ rows) free =
    omega (arith, count-extend_rows a rows (extend row free), count-extend a row free)

count-grow_row :
    (a n : ℕ) (row free : List ℕ)
    → count a (grow_row n row free).0 + count a (grow_row n row free).1 ≡ count a row + count a free
unfolding grow_row
count-grow_row a zero row free = refl
count-grow_row a (suc n) row [] = refl
count-grow_row a (suc n) row (p ∷ free) =
    omega (arith, count-grow_row a n (row ++ p ∷ []) free, count-append a row (p ∷ []))

count-grow_rows :
    (a pages : ℕ) (rows : Rows) (free : List ℕ)
    → count_rows a (grow_rows pages rows free).0 + count a (grow_rows pages rows free).1
      ≡ count_rows a rows + count a free
unfolding grow_rows
count-grow_rows a pages [] free = refl
count-grow_rows a pages (row ∷ rows) free =
    let grown = grow_row (pages - length row) row free in
    elim (Bool-cases grown.2) [
      | inl full ↦ rw full (
          omega (
            arith,
            count-grow_rows a pages rows grown.1,
            count-grow_row a (pages - length row) row free,
          ))
      | inr short ↦ rw short (omega (arith, count-grow_row a (pages - length row) row free))
    ]

count-replicate_nil : (a n : ℕ) → count_rows a (replicate n []) ≡ 0
count-replicate_nil a zero = refl
count-replicate_nil a (suc n) = omega (arith, count-replicate_nil a n)

count-range_down : (a n : ℕ) → count a (range_down n) ≡ (if ltb a n then 1 else 0)
unfolding range_down
count-range_down a zero = ground arith
count-range_down a (suc n) = ground (arith, count-range_down a n)

module _ {ℓ} {A : Type ℓ} where
  -- A new pool owns each page number below `num_pages` once, and no other number.
  pub owned-init :
      (num_pages page_size : ℕ) (zeros : A) (a : ℕ)
      → owned a (init num_pages page_size zeros) ≡ (if ltb a num_pages then 1 else 0)
  unfolding init
  owned-init num_pages page_size zeros a = omega (arith, count-range_down a num_pages)

  register_at-owned :
      (slot batch : ℕ) (p : Pool A) (o : Option Rows) (a : ℕ)
      → lookup slot p.block_tables ≡ o
      → owned a (register_at slot batch p o) ≡ owned a p
  unfolding register_at
  register_at-owned slot batch p (some rows) a e = refl
  register_at-owned slot batch p none a e = omega (
    arith,
    total-put_new (count_rows a) slot (replicate batch []) p.block_tables e,
    count-replicate_nil a batch,
  )

  pub owned-register_slot :
      (slot batch : ℕ) (p : Pool A) (a : ℕ) → owned a (register_slot slot batch p) ≡ owned a p
  unfolding register_slot
  owned-register_slot slot batch p a = register_at-owned slot batch p _ a refl

  free_at-owned :
      (slot : ℕ) (p : Pool A) (o : Option Rows) (a : ℕ)
      → lookup slot p.block_tables ≡ o
      → owned a (free_at slot p o) ≡ owned a p
  unfolding free_at
  free_at-owned slot p none a e = refl
  free_at-owned slot p (some rows) a e = omega (
    arith,
    total-remove_old (count_rows a) slot rows p.block_tables e,
    count-extend_rows a rows p.free_pages,
  )

  pub owned-free_slot : (slot : ℕ) (p : Pool A) (a : ℕ) → owned a (free_slot slot p) ≡ owned a p
  unfolding free_slot
  owned-free_slot slot p a = free_at-owned slot p _ a refl

  scatter_at-owned :
      (slot new_length : ℕ) (news : List (ℕ → A)) (prefix : ℕ) (p : Pool A) (o : Option Rows)
      (a : ℕ)
      → lookup slot p.block_tables ≡ o
      → owned a (scatter_at slot new_length news prefix p o).1 ≡ owned a p
  unfolding scatter_at
  scatter_at-owned slot new_length news prefix p none a e = refl
  scatter_at-owned slot new_length news prefix p (some rows) a e =
      let pages = ceil_div new_length p.page_size in
      let grown = grow_rows pages rows p.free_pages in
      let kept : count a grown.1 + total (count_rows a) (put slot grown.0 p.block_tables)
          ≡ owned a p =
        omega (
          arith,
          total-put_old (count_rows a) slot grown.0 rows p.block_tables e,
          count-grow_rows a pages rows p.free_pages,
        ) in
      elim (Bool-cases (leb new_length prefix)) [
        | inl nothing ↦ rw nothing
        | inr more ↦
            rw more
              (elim (Bool-cases grown.2) [ inl full ↦ rw full kept | inr short ↦ rw short kept ])
      ]

  pub owned-scatter :
      (slot new_length : ℕ) (news : List (ℕ → A)) (prefix : ℕ) (p : Pool A) (a : ℕ)
      → owned a (scatter slot new_length news prefix p).1 ≡ owned a p
  unfolding scatter
  owned-scatter slot new_length news prefix p a =
      scatter_at-owned slot new_length news prefix p _ a refl
