-- ===== src/ModelManager/Runs.antt =====
-- What every interleaving of the calls of src/drift/node/model_manager.py keeps.
use community_ai.Prelude.{
  ℕ, ◌≡◌, Option, List, [], ◌∷◌, at_key, Every, Every-put, Distinct, Distinct-put, arith, refl, sym,
  ◌∙◌,
}
use community_ai.ModelManager.Residency.{ModelRecord, new_record}
use community_ai.ModelManager.Step.{Manager, registered, init, Move, step, run}
use community_ai.ModelManager.Counts.{locked, IsKept, Inv, at_key-put}
use community_ai.ModelManager.Leases.{step-Inv}

at_key-registered :
    (g : ModelRecord → ℕ) (k : ℕ) (ms : List ℕ) → g new_record ≡ 0 → at_key g k (registered ms) ≡ 0
unfolding registered
at_key-registered g k [] e = refl
at_key-registered g k (m ∷ ms) e =
    at_key-put g k m new_record (registered ms) ∙ ground (arith, at_key-registered g k ms e)

Distinct-registered : (ms : List ℕ) → Distinct (registered ms)
unfolding registered
Distinct-registered [] = tt
Distinct-registered (m ∷ ms) = Distinct-put m new_record (registered ms) (Distinct-registered ms)

Every-registered : (ms : List ℕ) → Every IsKept (registered ms)
unfolding registered new_record
Every-registered [] = tt
Every-registered (m ∷ ms) =
    Every-put IsKept m new_record (registered ms) (λ u. absurd (omega (arith, u)))
      (Every-registered ms)

init-Inv : (limit : Option ℕ) (models : List ℕ) → Inv (init limit models)
unfolding init new_record
init-Inv limit models = record {
  leases = λ k. sym (at_key-registered (λ x. x.active_requests) k models refl);
  locks = λ k. sym (at_key-registered locked k models refl);
  distinct = Distinct-registered models;
  quiet = λ e. refl;
  kept = λ e. Every-registered models;
}

run-Inv : (ms : List Move) (s : Manager) → Inv s → Inv (run ms s)
unfolding run
run-Inv [] s inv = inv
run-Inv (m ∷ ms) s inv = run-Inv ms (step m s) (step-Inv m s inv)

-- In every interleaving of loads, evictions, releases, unloads and shutdowns, a model's active
-- requests are exactly the leases on it, the threads inside its load lock, of which there are none or
-- one, are those that the lock counts, and before the shutdown a model in use has its runtime.
pub run-init-Counted :
    (limit : Option ℕ) (models : List ℕ) (ms : List Move) → Inv (run ms (init limit models))
run-init-Counted limit models ms = run-Inv ms (init limit models) (init-Inv limit models)
