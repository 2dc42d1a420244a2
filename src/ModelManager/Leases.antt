-- ===== src/ModelManager/Leases.antt =====
-- Interleavings of loads, unloads, evictions, releases and shutdowns of
-- src/drift/node/model_manager.py.
use community_ai.Prelude.{
  ℕ, ◌≡◌, inl, inr, Bool, true, false, Option, none, some, List, [], ◌∷◌, ◌==◌, lookup,
  total-put_new, le-total_of_lookup, at_key, Distinct, IsFresh, Bool-cases, arith, refl, sym, ◌∙◌,
}
use community_ai.ModelManager.Residency.{stopping, ModelRecord}
use community_ai.ModelManager.Step.{
  Phase, load_asks, load_locked, unload_asks, unload_locked, reserves, evicts, loads, leased,
  closes, shutdown_asks, shuts, ended, Manager, move_to, all_stopping, model_ids,
  from_shutdown_asks, advance_from, Move, calls_load, calls_unload, calls_shutdown, advances, enter,
  resolved, advance, step,
}
use community_ai.ModelManager.Counts.{leases_on, locks_on, locked, shutting, Inv, Counts-move}
use community_ai.ModelManager.Invariant.{move_to-Inv, take_lock-Inv}
use community_ai.ModelManager.Steps.{
  if-Inv, with_record-Inv, from_load_locked-Inv, from_reserves-Inv, from_loads-Inv,
  from_unload_locked-Inv, from_leased-Inv, from_closes-Inv, shut_one-Inv, from_evicts-Inv,
}

IsFresh-all_stopping :
    (k : ℕ) (records : List (ℕ × ModelRecord))
    → IsFresh k records
    → IsFresh k (all_stopping records)
unfolding all_stopping
IsFresh-all_stopping k [] f = tt
IsFresh-all_stopping k ((m, r) ∷ records) f = (f.0, IsFresh-all_stopping k records f.1)

Distinct-all_stopping :
    (records : List (ℕ × ModelRecord)) → Distinct records → Distinct (all_stopping records)
unfolding all_stopping
Distinct-all_stopping [] d = tt
Distinct-all_stopping ((m, r) ∷ records) d =
    (IsFresh-all_stopping m records d.0, Distinct-all_stopping records d.1)

at_key-all_stopping :
    (g : ModelRecord → ℕ) (k : ℕ) (records : List (ℕ × ModelRecord))
    → ((r : ModelRecord) → g (record r { state = stopping }) ≡ g r)
    → at_key g k (all_stopping records) ≡ at_key g k records
unfolding all_stopping
at_key-all_stopping g k [] same = refl
at_key-all_stopping g k ((m, r) ∷ records) same = elim (Bool-cases (m == k)) [
  | inl here ↦ rw (at_key, here) (same r)
  | inr later ↦ rw (at_key, later) (at_key-all_stopping g k records same)
]

-- A thread in a shutdown finds the manager closed.
closed_in_shutdown :
    (i : ℕ) (ms : List ℕ) (s : Manager)
    → Inv s
    → lookup i s.threads ≡ some (shuts ms)
    → s.closed ≡ true
closed_in_shutdown i ms s inv h = elim (Bool-cases s.closed) [
  | inl off ↦ off
  | inr on ↦
      (let none_yet = inv.quiet on in
        let mine = le-total_of_lookup shutting i (shuts ms) s.threads h in
        absurd (omega (arith, none_yet, mine)))
]

from_shutdown_asks-Inv :
    (i : ℕ) (s : Manager)
    → Inv s
    → lookup i s.threads ≡ some shutdown_asks
    → Inv (from_shutdown_asks i s)
unfolding from_shutdown_asks move_to
from_shutdown_asks-Inv i s inv h =
    if-Inv s.closed _ _
      (λ off. move_to-Inv i shutdown_asks ended s inv h (omega arith) (λ k. (refl, refl)))
      (λ on. record {
        leases = λ k.
            Counts-move leases_on (λ x. x.active_requests) i shutdown_asks
              (shuts (model_ids s.records)) s h (λ j. refl) inv.leases k
            ∙ sym (at_key-all_stopping (λ x. x.active_requests) k s.records (λ r. refl));
        locks = λ k.
            Counts-move locks_on locked i shutdown_asks (shuts (model_ids s.records)) s h
              (λ j. refl) inv.locks k
            ∙ sym (at_key-all_stopping locked k s.records (λ r. refl));
        distinct = Distinct-all_stopping s.records inv.distinct;
        quiet = λ e. absurd cc;
        kept = λ e. absurd cc;
      })

advance_from-Inv :
    (i : ℕ) (succeeds : Bool) (now : ℕ) (p : Phase) (s : Manager)
    → Inv s
    → lookup i s.threads ≡ some p
    → Inv (advance_from i succeeds now p s)
unfolding advance_from
advance_from-Inv i succeeds now (load_asks m) s inv h = with_record-Inv i m s inv _ _ (λ r e.
    take_lock-Inv i m (load_asks m) (load_locked m) r r.load_lock s inv h e refl (λ k. (refl, refl))
      (λ k. (refl, refl)) (omega arith))
advance_from-Inv i succeeds now (load_locked m) s inv h =
    with_record-Inv i m s inv _ _ (λ r e. from_load_locked-Inv i m s inv now r h e)
advance_from-Inv i succeeds now (reserves m) s inv h =
    with_record-Inv i m s inv _ _ (λ r e. from_reserves-Inv i m s inv r h e)
advance_from-Inv i succeeds now (evicts m c runtime) s inv h =
    with_record-Inv i m s inv _ _ (λ q e. from_evicts-Inv i m c runtime succeeds q s inv h e)
advance_from-Inv i succeeds now (loads m) s inv h =
    with_record-Inv i m s inv _ _ (λ r e. from_loads-Inv i m s inv succeeds now r h e)
advance_from-Inv i succeeds now (leased m runtime) s inv h =
    with_record-Inv i m s inv _ _ (λ r e. from_leased-Inv i m s inv now runtime r h e)
advance_from-Inv i succeeds now (unload_asks m) s inv h = with_record-Inv i m s inv _ _ (λ r e.
    take_lock-Inv i m (unload_asks m) (unload_locked m) r r.load_lock s inv h e refl
      (λ k. (refl, refl)) (λ k. (refl, refl)) (omega arith))
advance_from-Inv i succeeds now (unload_locked m) s inv h =
    with_record-Inv i m s inv _ _ (λ r e. from_unload_locked-Inv i m s inv r h e)
advance_from-Inv i succeeds now (closes m runtime) s inv h =
    with_record-Inv i m s inv _ _ (λ r e. from_closes-Inv i m s inv runtime succeeds r h e)
advance_from-Inv i succeeds now shutdown_asks s inv h = from_shutdown_asks-Inv i s inv h
advance_from-Inv i succeeds now (shuts []) s inv h =
    move_to-Inv i (shuts []) ended s inv h (omega arith) (λ k. (refl, refl))
advance_from-Inv i succeeds now (shuts (m ∷ ms)) s inv h =
    with_record-Inv i m s inv _ _
      (λ r e. shut_one-Inv i m s inv ms r r.load_lock (closed_in_shutdown i (m ∷ ms) s inv h) h e)
advance_from-Inv i succeeds now ended s inv h = inv

-- A phase with no lease and no lock.
abbrev IsBefore : Phase → Type 0
IsBefore p = (shutting p ≡ 0) × ((k : ℕ) → (leases_on k p ≡ 0) × (locks_on k p ≡ 0))

enter-Inv :
    (i : ℕ) (p : Phase) (o : Option Phase) (s : Manager)
    → Inv s
    → lookup i s.threads ≡ o
    → IsBefore p
    → Inv (enter i p o s)
unfolding enter move_to
enter-Inv i p (some q) s inv h b = inv
enter-Inv i p none s inv h b = record {
  leases = λ k.
      (let added = total-put_new (leases_on k) i p s.threads h in
        let before = inv.leases k in
        let nothing = (b.1 k).0 in omega (arith, added, before, nothing));
  locks = λ k.
      (let added = total-put_new (locks_on k) i p s.threads h in
        let before = inv.locks k in
        let nothing = (b.1 k).1 in omega (arith, added, before, nothing));
  distinct = inv.distinct;
  quiet = λ e.
      (let added = total-put_new shutting i p s.threads h in
        let before = inv.quiet e in let nothing = b.0 in omega (arith, added, before, nothing));
  kept = inv.kept;
}

resolved-IsBefore :
    (off : Bool) (p : Phase) (o : Option ModelRecord) → IsBefore p → IsBefore (resolved off p o)
unfolding resolved
resolved-IsBefore off p none b = (refl, λ k. (refl, refl))
resolved-IsBefore true p (some r) b = (refl, λ k. (refl, refl))
resolved-IsBefore false p (some r) b = b

advance-Inv :
    (i : ℕ) (succeeds : Bool) (now : ℕ) (o : Option Phase) (s : Manager)
    → Inv s
    → lookup i s.threads ≡ o
    → Inv (advance i succeeds now o s)
unfolding advance
advance-Inv i succeeds now none s inv h = inv
advance-Inv i succeeds now (some p) s inv h = advance_from-Inv i succeeds now p s inv h

pub step-Inv : (m : Move) (s : Manager) → Inv s → Inv (step m s)
unfolding step
step-Inv (calls_load i m) s inv =
    enter-Inv i _ _ s inv refl
      (resolved-IsBefore s.closed (load_asks m) _ (refl, λ k. (refl, refl)))
step-Inv (calls_unload i m) s inv =
    enter-Inv i _ _ s inv refl
      (resolved-IsBefore s.closed (unload_asks m) _ (refl, λ k. (refl, refl)))
step-Inv (calls_shutdown i) s inv = enter-Inv i shutdown_asks _ s inv refl (refl, λ k. (refl, refl))
step-Inv (advances i succeeds now) s inv = advance-Inv i succeeds now _ s inv refl
