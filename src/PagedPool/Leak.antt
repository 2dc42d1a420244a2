-- ===== src/PagedPool/Leak.antt =====
-- Who owns a page after `PagedKVPool.reorder` of src/drift/server/memory_cache.py.
use community_ai.Prelude.{
  ℕ, zero, suc, ◌+◌, ◌<◌, ◌≡◌, ◌≢◌, refl, ap, sym, subst, ◌∙◌, inl, inr, true, false, Option, none,
  some, List, [], ◌∷◌, arith, ◌==◌, Bool-cases, get_elem?, All, count, lookup, total, total-put_old,
}
use community_ai.PagedPool.{Status, done, allocation_failed, no_such_row, no_such_slot, Rows, Pool}
use community_ai.PagedPool.Reorder.{
  ℤ, pos, negsuc, same_index, row_at, Reordering, mem, unclaimed, copy_row, choose, reorder_source,
  reorder_loop, finish, reorder_at, reorder,
}
use community_ai.PagedPool.Ownership.{count_rows, count_rows-append, count-extend_rows, owned}

-- An index that is not negative.
abbrev pub IsRow : ℤ → Type 0
IsRow (pos n) = Unit
IsRow (negsuc n) = ⊥

abbrev pub AreRows : List ℤ → Type 0
AreRows = All IsRow

unclaimed_below :
    (a src i : ℕ) (claimed : List ℤ) (rows : Rows)
    → src < i
    → count_rows a (unclaimed i (pos src ∷ claimed) rows) ≡ count_rows a (unclaimed i claimed rows)
unfolding unclaimed mem same_index
unclaimed_below a src i claimed [] h = refl
unclaimed_below a src i claimed (row ∷ rows) h =
    ground (arith, unclaimed_below a src (i + 1) claimed rows)

-- Claiming a row takes exactly that row off the unclaimed ones.
unclaimed_claim :
    (a src i k : ℕ) (claimed : List ℤ) (rows : Rows) (row : List ℕ)
    → src ≡ i + k
    → get_elem? rows k ≡ some row
    → mem (pos src) claimed ≡ false
    → count_rows a (unclaimed i (pos src ∷ claimed) rows) + count a row
      ≡ count_rows a (unclaimed i claimed rows)
unfolding unclaimed mem same_index
unclaimed_claim a src i k claimed [] row q e m = absurd (cc)
unclaimed_claim a src i zero claimed (x ∷ rows) row q e m =
    let src_eq : src ≡ i = omega arith in
    let absent : mem (pos i) claimed ≡ false = subst (λ j. mem (pos j) claimed ≡ false) src_eq m in
    ground (arith, unclaimed_below a src (i + 1) claimed rows)
unclaimed_claim a src i (suc k) claimed (x ∷ rows) row q e m =
    let rest = unclaimed_claim a src (i + 1) k claimed rows row (omega arith) e m in
    let apart : (src == i) ≡ false = ground arith in
    rw apart (elim (Bool-cases (mem (pos i) claimed)) [
      | inl old ↦ rw old rest
      | inr new ↦ rw new (omega arith)
    ])

unclaimed_all : (i a : ℕ) (rows : Rows) → count_rows a (unclaimed i [] rows) ≡ count_rows a rows
unfolding unclaimed mem same_index
unclaimed_all i a [] = refl
unclaimed_all i a (row ∷ rows) = omega (arith, unclaimed_all (i + 1) a rows)

module _ {ℓ} {A : Type ℓ} where
  count-copy_row :
      (a : ℕ) (row free : List ℕ) (cells : ℕ → ℕ → A)
      → (copy_row row free cells).3 ≡ true
      → count a (copy_row row free cells).0 + count a (copy_row row free cells).1 ≡ count a free
  unfolding copy_row
  count-copy_row a [] free cells f = omega arith
  count-copy_row a (p ∷ row) [] cells f = absurd (cc)
  count-copy_row a (p ∷ row) (new ∷ free) cells f = omega (arith, count-copy_row a row free _ f)

  copy_row_short :
      (row free : List ℕ) (cells : ℕ → ℕ → A)
      → (copy_row row free cells).3 ≡ false
      → (copy_row row free cells).1 ≡ []
  unfolding copy_row
  copy_row_short [] free cells f = absurd (cc)
  copy_row_short (p ∷ row) [] cells f = refl
  copy_row_short (p ∷ row) (new ∷ free) cells f = copy_row_short row free _ f

  -- What the loop holds of a page: in its result, in the free list, or in a row not yet claimed.
  measure : ℕ → Rows → Reordering A → ℕ
  measure a table r =
      count_rows a r.result + count a r.free + count_rows a (unclaimed 0 r.claimed table)

  reorder_source-measure :
      (a src : ℕ) (table : Rows) (r : Reordering A) (o : Option (List ℕ))
      → get_elem? table src ≡ o
      → (reorder_source table (pos src) r o).status ≡ done
      → measure a table (reorder_source table (pos src) r o) ≡ measure a table r
  unfolding reorder_source measure
  reorder_source-measure a src table r none e d = absurd (cc)
  reorder_source-measure a src table r (some row) e d =
      elim (Bool-cases (mem (pos src) r.claimed)) [
        | inr new ↦ rw new (
            omega (
              arith,
              count_rows-append a r.result (row ∷ []),
              unclaimed_claim a src 0 src r.claimed table row (omega arith) e new,
            ))
        | inl again ↦ elim (Bool-cases (copy_row row r.free r.contents).3) [
          | inl full ↦
              rw (again, full)
                (omega (
                  arith,
                  count_rows-append a r.result ((copy_row row r.free r.contents).0 ∷ []),
                  count-copy_row a row r.free r.contents full,
                ))
          | inr short ↦ absurd (ground arith)
        ]
      ]

  choose_cases {κ} :
      (P : Reordering A → Type κ) (st : Status) (next rest : Reordering A)
      → (st ≡ done → P rest)
      → (st ≢ done → P next)
      → P (choose st next rest)
  unfolding choose
  choose_cases P done next rest f g = f refl
  choose_cases P allocation_failed next rest f g = g (λ e. cc)
  choose_cases P no_such_row next rest f g = g (λ e. cc)
  choose_cases P no_such_slot next rest f g = g (λ e. cc)

  reorder_loop-measure :
      (a : ℕ) (table : Rows) (srcs : List ℤ) (r : Reordering A)
      → AreRows srcs
      → (reorder_loop table srcs r).status ≡ done
      → measure a table (reorder_loop table srcs r) ≡ measure a table r
  unfolding reorder_loop row_at
  reorder_loop-measure a table [] r rows = λ d. refl
  reorder_loop-measure a table (negsuc n ∷ srcs) r rows = absurd (rows.0)
  reorder_loop-measure a table (pos src ∷ srcs) r rows =
      choose_cases (λ x. x.status ≡ done → measure a table x ≡ measure a table r) _ _ _
        (λ ok d.
          reorder_loop-measure a table srcs _ rows.1 d
          ∙ reorder_source-measure a src table r (get_elem? table src) refl ok)
        (λ bad d. absurd (bad d))

  reorder_source_short :
      (src : ℤ) (table : Rows) (r : Reordering A) (o : Option (List ℕ))
      → r.status ≡ done
      → (reorder_source table src r o).status ≡ allocation_failed
      → (reorder_source table src r o).free ≡ []
  unfolding reorder_source
  reorder_source_short src table r none d f = absurd (cc)
  reorder_source_short src table r (some row) d f =
      ground (arith, copy_row_short row r.free r.contents)

  -- A loop that ran out of pages has taken them all.
  reorder_loop_short :
      (table : Rows) (srcs : List ℤ) (r : Reordering A)
      → r.status ≡ done
      → (reorder_loop table srcs r).status ≡ allocation_failed
      → (reorder_loop table srcs r).free ≡ []
  unfolding reorder_loop
  reorder_loop_short table [] r d = λ f. absurd (cc)
  reorder_loop_short table (src ∷ srcs) r d =
      choose_cases (λ x. x.status ≡ allocation_failed → x.free ≡ []) _ _ _
        (λ ok f. reorder_loop_short table srcs _ ok f)
        (λ bad f. reorder_source_short src table r (row_at table src) d f)

  finish_done :
      (a slot : ℕ) (table : Rows) (p : Pool A) (st : Status) (r : Reordering A)
      → st ≡ done
      → lookup slot p.block_tables ≡ some table
      → owned a (finish st slot table p r).1 + count_rows a table
        ≡ measure a table r + total (count_rows a) p.block_tables
  unfolding finish measure
  finish_done a slot table p done r e l = omega (
    arith,
    count-extend_rows a (unclaimed 0 r.claimed table) r.free,
    total-put_old (count_rows a) slot r.result table p.block_tables l,
  )
  finish_done a slot table p _ r e l = absurd (cc)

  finish_failed :
      (a slot : ℕ) (table : Rows) (p : Pool A) (st : Status) (r : Reordering A)
      → st ≡ allocation_failed
      → owned a (finish st slot table p r).1 ≡ count a r.free + total (count_rows a) p.block_tables
  unfolding finish
  finish_failed a slot table p done r e = absurd (cc)
  finish_failed a slot table p _ r e = refl

  finish_status :
      (slot : ℕ) (table : Rows) (p : Pool A) (st : Status) (r : Reordering A)
      → (finish st slot table p r).0 ≡ st
  unfolding finish
  finish_status slot table p done r = refl
  finish_status slot table p _ r = refl

  reorder_at-owned :
      (slot : ℕ) (hypo_ids : List ℤ) (p : Pool A) (o : Option Rows) (a : ℕ)
      → lookup slot p.block_tables ≡ o
      → AreRows hypo_ids
      → (reorder_at slot hypo_ids p o).0 ≡ done
      → owned a (reorder_at slot hypo_ids p o).1 ≡ owned a p
  unfolding reorder_at measure
  reorder_at-owned slot hypo_ids p none a l rows d = absurd (cc)
  reorder_at-owned slot hypo_ids p (some table) a l rows d =
      let start : Reordering A = record {
        status = done;
        result = [];
        claimed = [];
        free = p.free_pages;
        contents = p.cells;
      } in
      let r = reorder_loop table hypo_ids start in
      let ok : r.status ≡ done = sym (finish_status slot table p r.status r) ∙ d in
      omega (
        arith,
        finish_done a slot table p r.status r ok l,
        reorder_loop-measure a table hypo_ids start rows ok,
        unclaimed_all 0 a table,
      )

  -- A `reorder` that returns, of hypotheses none of which is negative, moves pages between rows and the
  -- free list and changes no page's number of owners, for beams that are repeated, dropped or permuted.
  pub owned-reorder :
      (slot : ℕ) (hypo_ids : List ℤ) (p : Pool A) (a : ℕ)
      → AreRows hypo_ids
      → (reorder slot hypo_ids p).0 ≡ done
      → owned a (reorder slot hypo_ids p).1 ≡ owned a p
  unfolding reorder
  owned-reorder slot hypo_ids p a rows d =
      reorder_at-owned slot hypo_ids p (lookup slot p.block_tables) a refl rows d

  reorder_at_leak :
      (slot : ℕ) (hypo_ids : List ℤ) (p : Pool A) (o : Option Rows) (a : ℕ)
      → (reorder_at slot hypo_ids p o).0 ≡ allocation_failed
      → owned a (reorder_at slot hypo_ids p o).1 + count a p.free_pages ≡ owned a p
  unfolding reorder_at
  reorder_at_leak slot hypo_ids p none a f = absurd (cc)
  reorder_at_leak slot hypo_ids p (some table) a f =
      let start : Reordering A = record {
        status = done;
        result = [];
        claimed = [];
        free = p.free_pages;
        contents = p.cells;
      } in
      let r = reorder_loop table hypo_ids start in
      let short : r.status ≡ allocation_failed = sym (finish_status slot table p r.status r) ∙ f in
      omega (
        arith,
        finish_failed a slot table p r.status r short,
        ap (count a) (reorder_loop_short table hypo_ids start refl short),
      )

  -- A `reorder` that runs out of pages leaks every page that was free: afterwards the tables own
  -- what they owned, and none of those pages is owned by anybody.
  pub reorder_leak :
      (slot : ℕ) (hypo_ids : List ℤ) (p : Pool A) (a : ℕ)
      → (reorder slot hypo_ids p).0 ≡ allocation_failed
      → owned a (reorder slot hypo_ids p).1 + count a p.free_pages ≡ owned a p
  unfolding reorder
  reorder_leak slot hypo_ids p a f =
      reorder_at_leak slot hypo_ids p (lookup slot p.block_tables) a f

  -- In a slot with two rows, the hypotheses -1 and 0 return, and every page of the second row has one
  -- owner more than before: the row keeps them, and they are also in the free list.
  pub reorder_negative :
      (slot : ℕ) (p : Pool A) (first second : List ℕ) (a : ℕ)
      → lookup slot p.block_tables ≡ some (first ∷ second ∷ [])
      → let o = reorder slot (negsuc 0 ∷ pos 0 ∷ []) p in
        (o.0 ≡ done) × (owned a o.1 ≡ owned a p + count a second)
  unfolding reorder reorder_at reorder_loop reorder_source choose finish mem same_index row_at
      unclaimed
  reorder_negative slot p first second a e = rw e (
    refl,
    omega (
      arith,
      count-extend_rows a (second ∷ []) p.free_pages,
      total-put_old (count_rows a) slot (second ∷ first ∷ []) (first ∷ second ∷ []) p.block_tables
          e,
    ),
  )
