-- ===== src/PagedPool/Tests.antt =====
-- Concrete runs of the `PagedKVPool` of src/drift/server/memory_cache.py.
use community_ai.Prelude.{ℕ, ◌+◌, ◌*◌, ◌≡◌, refl, [], ◌∷◌, count}
use community_ai.PagedPool.{Pool, done, allocation_failed, init, register_slot, scatter, free_slot}
use community_ai.PagedPool.Reorder.{
  reorder, reorder_at, reorder_loop, reorder_source, choose, finish, copy_row, mem, pos, negsuc,
  same_index, row_at,
}
use community_ai.PagedPool.Ownership.{owned}
use community_ai.PagedPool.Leak.{owned-reorder, reorder_leak, reorder_negative}
use community_ai.PagedPool.History.{here, next, registers, scatters, frees, owned_once}

-- Two beams that fill a page each; of three pages one is free.
abbrev pool : Pool ℕ
pool = record {
  num_pages = 3;
  page_size = 2;
  free_pages = 0 ∷ [];
  block_tables = (5, (2 ∷ []) ∷ (1 ∷ []) ∷ []) ∷ [];
  cells = λ page offset. page * 10 + offset;
}

reorders_run : (reorder 5 (pos 1 ∷ pos 1 ∷ []) pool).0 ≡ done
unfolding reorder reorder_at reorder_loop reorder_source choose finish copy_row mem same_index
    row_at
reorders_run = refl

owned-reorder_example : owned 2 (reorder 5 (pos 1 ∷ pos 1 ∷ []) pool).1 ≡ owned 2 pool
owned-reorder_example = owned-reorder 5 (pos 1 ∷ pos 1 ∷ []) pool 2 (tt, (tt, tt)) reorders_run

reorder_fails : (reorder 5 (pos 1 ∷ pos 1 ∷ pos 1 ∷ []) pool).0 ≡ allocation_failed
unfolding reorder reorder_at reorder_loop reorder_source choose finish copy_row mem same_index
    row_at
reorder_fails = refl

reorder_leak_example :
    owned 0 (reorder 5 (pos 1 ∷ pos 1 ∷ pos 1 ∷ []) pool).1 + count 0 pool.free_pages ≡ owned 0 pool
reorder_leak_example = reorder_leak 5 (pos 1 ∷ pos 1 ∷ pos 1 ∷ []) pool 0 reorder_fails

abbrev served : Pool ℕ
served = free_slot 9 (scatter 5 3 ((λ t. t) ∷ []) 0 (register_slot 5 1 (init 3 2 0))).1

owned_once_example : owned 1 served ≡ 1
owned_once_example =
    owned_once 3 2 0 served 1
      (next (next (next here (registers 5 1)) (scatters 5 3 ((λ t. t) ∷ []) 0)) (frees 9))

reorder_negative_example :
    ((reorder 5 (negsuc 0 ∷ pos 0 ∷ []) pool).0 ≡ done)
    × (owned 1 (reorder 5 (negsuc 0 ∷ pos 0 ∷ []) pool).1 ≡ 2)
reorder_negative_example = reorder_negative 5 pool (2 ∷ []) (1 ∷ []) 1 refl
