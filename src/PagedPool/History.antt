-- ===== src/PagedPool/History.antt =====
-- Histories of calls on the `PagedKVPool` of src/drift/server/memory_cache.py.
use community_ai.Prelude.{ℕ, ◌≡◌, refl, ◌∙◌, List, ltb, if◌then◌else◌}
use community_ai.PagedPool.{done, Pool, init, register_slot, free_slot, scatter}
use community_ai.PagedPool.Reorder.{ℤ, reorder}
use community_ai.PagedPool.Ownership.{
  owned, owned-init, owned-register_slot, owned-free_slot, owned-scatter,
}
use community_ai.PagedPool.Leak.{AreRows, owned-reorder}

-- A step of the runtime: a call, where a `reorder` is one that returns, of indices that are not negative.
pub data Step {ℓ} {A : Type ℓ} (p : Pool A) : Pool A → Type ℓ where
  registers : (slot batch : ℕ) → Step p (register_slot slot batch p)
  frees : (slot : ℕ) → Step p (free_slot slot p)
  scatters :
      (slot new_length : ℕ) (news : List (ℕ → A)) (prefix : ℕ)
      → Step p (scatter slot new_length news prefix p).1
  reorders :
      (slot : ℕ) (hypo_ids : List ℤ)
      → AreRows hypo_ids
      → (reorder slot hypo_ids p).0 ≡ done
      → Step p (reorder slot hypo_ids p).1

pub data Reach {ℓ} {A : Type ℓ} (p : Pool A) : Pool A → Type ℓ where
  here : Reach p p
  next : {q r : Pool A} → Reach p q → Step q r → Reach p r

module _ {ℓ} {A : Type ℓ} where
  Step-owned : {p q : Pool A} (a : ℕ) → Step p q → owned a q ≡ owned a p
  Step-owned {p} a (registers slot batch) = owned-register_slot slot batch p a
  Step-owned {p} a (frees slot) = owned-free_slot slot p a
  Step-owned {p} a (scatters slot n news prefix) = owned-scatter slot n news prefix p a
  Step-owned {p} a (reorders slot hypo_ids rows d) = owned-reorder slot hypo_ids p a rows d

  Reach-owned : {p q : Pool A} (a : ℕ) → Reach p q → owned a q ≡ owned a p
  Reach-owned a here = refl
  Reach-owned a (next r s) = Step-owned a s ∙ Reach-owned a r

  -- In any pool that a new one can become by registering, freeing, scattering (also when it fails)
  -- and reordering without an exception and without negative indices, each page below `num_pages` stands exactly once in the free
  -- list or in one row of one table, and no other number does.
  pub owned_once :
      (num_pages page_size : ℕ) (zeros : A) (q : Pool A) (a : ℕ)
      → Reach (init num_pages page_size zeros) q
      → owned a q ≡ (if ltb a num_pages then 1 else 0)
  owned_once num_pages page_size zeros q a r =
      Reach-owned a r ∙ owned-init num_pages page_size zeros a
