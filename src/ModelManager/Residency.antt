-- ===== src/ModelManager/Residency.antt =====
-- The records of src/drift/node/model_manager.py and the choice of a runtime to evict. Models are
-- named by numbers in the order of their case-folded ids, clock readings by numbers in their order,
-- and runtimes by numbers in the order of their creation. The texts of errors are left out.
use community_ai.Prelude.{
  ℕ, suc, Bool, true, false, not, ◌&&◌, ◌||◌, Option, none, some, List, [], ◌∷◌, ltb, ◌==◌,
  if◌then◌else◌, is_some,
}

pub data ModelState : Type 0 where
  known downloading loading ready degraded unavailable unloading stopping : ModelState

-- _ModelRecord; the lock is held by a thread
pub record ModelRecord : Type 0 where
  pub state : ModelState
  pub runtime : Option ℕ
  pub loaded_at : Option ℕ
  pub last_used_at : Option ℕ
  pub active_requests : ℕ
  pub close_failed : Bool
  pub load_lock : Option ℕ

unfoldable pub new_record : ModelRecord
new_record = record {
  state = known;
  runtime = none;
  loaded_at = none;
  last_used_at = none;
  active_requests = 0;
  close_failed = false;
  load_lock = none;
}

unfoldable pub is_moving : ModelState → Bool
is_moving loading = true
is_moving unloading = true
is_moving _ = false

unfoldable pub is_resident : ModelRecord → Bool
unfolding is_moving
is_resident r = is_some r.runtime || is_moving r.state

-- _resident_count_locked
unfoldable pub resident_count : List (ℕ × ModelRecord) → ℕ
unfolding is_resident
resident_count [] = 0
resident_count ((m, r) ∷ records) =
    let rest = resident_count records in if is_resident r then suc rest else rest

unfoldable pub has_room : Option ℕ → List (ℕ × ModelRecord) → Bool
unfolding resident_count
has_room none records = true
has_room (some limit) records = ltb (resident_count records) limit

unfoldable pub is_usable : ModelState → Bool
is_usable ready = true
is_usable degraded = true
is_usable _ = false

unfoldable pub is_idle : ℕ → ℕ → ModelRecord → Bool
unfolding is_usable
is_idle target m r =
    not (m == target) && (is_some r.runtime && ((r.active_requests == 0) && is_usable r.state))

-- Which of two keys (last_used_at or -inf, model_id.casefold()) comes first.
unfoldable pub used_before : Option ℕ → ℕ → Option ℕ → ℕ → Bool
used_before none m none n = ltb m n
used_before none m (some b) n = true
used_before (some a) m none n = false
used_before (some a) m (some b) n = ltb a b || ((a == b) && ltb m n)

unfoldable pub earlier : ℕ → ModelRecord → Option (ℕ × ModelRecord) → Option (ℕ × ModelRecord)
unfolding used_before
earlier m r none = some (m, r)
earlier m r (some (n, q)) =
    if used_before q.last_used_at n r.last_used_at m then some (n, q) else some (m, r)

-- The least recently used idle record, the first of equals.
unfoldable pub candidate : ℕ → List (ℕ × ModelRecord) → Option (ℕ × ModelRecord)
unfolding is_idle earlier
candidate target [] = none
candidate target ((m, r) ∷ records) =
    let rest = candidate target records in if is_idle target m r then earlier m r rest else rest

unfoldable pub any_close_failed : List (ℕ × ModelRecord) → Bool
any_close_failed [] = false
any_close_failed ((m, r) ∷ records) = r.close_failed || any_close_failed records
