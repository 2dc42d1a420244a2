-- ===== src/ModelManager/Steps.antt =====
-- The steps of a thread of src/drift/node/model_manager.py, each with the leases and locks.
use community_ai.Prelude.{
  ℕ, suc, ◌≡◌, ◌≤◌, ◌-◌, inl, inr, Bool, true, false, Option, none, some, List, ◌∷◌, ltb, ==_iff,
  if◌then◌else◌, if_true, if_false, lookup, le-total_of_lookup, Every-put, Distinct-put, is_some,
  Bool-cases, Option-cases, arith, refl, sym, subst, ◌∙◌, ltb→ge,
}
use community_ai.ModelManager.Residency.{
  loading, unavailable, unloading, stopping, ModelRecord, has_room, candidate, any_close_failed,
}
use community_ai.ModelManager.Step.{
  Phase, load_locked, unload_locked, reserves, evicts, loads, leased, closes, shuts, ended, Manager,
  move_to, set_record, leave, with_runtime, from_load_locked, evict, from_reserves, after_close,
  after_evict, from_evicts, loaded_record, from_loads, from_leased, unload_runtime,
  from_unload_locked, from_closes, shut_one, with_record,
}
use community_ai.ModelManager.Counts.{
  one, leases_on, locks_on, locked, IsKept, Inv, at_key-some, at_key-none, IsQuiet-put, Counts-both,
  Locks,
}
use community_ai.ModelManager.Invariant.{
  set_record-Inv, move_to-Inv, leave-Inv, lease-Inv, lookup-IsKept, after_close-Replaces,
}
use community_ai.ModelManager.Candidates.{IsUnused, candidate-IsUnused}

pub if-Inv :
    (b : Bool) (x y : Manager) → (b ≡ true → Inv x) → (b ≡ false → Inv y) → Inv (if b then x else y)
if-Inv true x y h k = h refl
if-Inv false x y h k = k refl

on_and_off : {b : Bool} → b ≡ true → b ≡ false → ⊥
on_and_off h k = cc

module _ (i m : ℕ) (s : Manager) (inv : Inv s) where
  pub with_record-Inv :
      (f : ModelRecord → Manager) (o : Option ModelRecord)
      → ((r : ModelRecord) → o ≡ some r → Inv (f r))
      → Inv (with_record o s f)
  unfolding with_record
  with_record-Inv f none k = inv
  with_record-Inv f (some r) k = k r refl

  -- A call in the lock of its model ends without a change of the record.
  left-Inv :
      (p : Phase) (r : ModelRecord)
      → lookup i s.threads ≡ some p
      → lookup m s.records ≡ some r
      → Locks m p
      → Inv (leave i m r s)
  left-Inv p r hi hm l = leave-Inv i m p r r s inv hi hm l refl (lookup-IsKept m r s inv hm)

  with_runtime-Inv :
      (now : ℕ) (r : ModelRecord) (o : Option ℕ)
      → lookup i s.threads ≡ some (load_locked m)
      → lookup m s.records ≡ some r
      → r.runtime ≡ o
      → Inv (with_runtime i m now r o s)
  unfolding with_runtime
  with_runtime-Inv now r none hi hm e =
      move_to-Inv i (load_locked m) (reserves m) s inv hi (omega arith) (λ k. (refl, refl))
  with_runtime-Inv now r (some runtime) hi hm e =
      if-Inv r.close_failed _ _ (λ h. left-Inv (load_locked m) r hi hm (λ k. (refl, refl)))
        (λ h.
          lease-Inv i m (load_locked m) r r s inv hi hm now runtime (λ k. (refl, refl)) refl
            (subst (λ x. is_some x ≡ true) (sym e) refl))

  pub from_load_locked-Inv :
      (now : ℕ) (r : ModelRecord)
      → lookup i s.threads ≡ some (load_locked m)
      → lookup m s.records ≡ some r
      → Inv (from_load_locked i m now r s)
  unfolding from_load_locked
  from_load_locked-Inv now r hi hm =
      if-Inv s.closed _ _ (λ h. left-Inv (load_locked m) r hi hm (λ k. (refl, refl)))
        (λ h. with_runtime-Inv now r r.runtime hi hm refl)

  evict-Inv :
      (r : ModelRecord) (o : Option (ℕ × ModelRecord))
      → lookup i s.threads ≡ some (reserves m)
      → lookup m s.records ≡ some r
      → IsUnused s.records o
      → Inv (evict i m r o s)
  unfolding evict
  evict-Inv r none hi hm u = elim (Bool-cases (any_close_failed s.records)) [
    | inl stuck ↦ rw stuck (left-Inv (reserves m) r hi hm (λ k. (refl, refl)))
    | inr waits ↦ rw waits inv
  ]
  evict-Inv r (some (c, q)) hi hm u = elim (Option-cases q.runtime) [
    | inl gone ↦ rw gone inv
    | inr (runtime, there) ↦ rw there (
        move_to-Inv i (reserves m) (evicts m c runtime) _
          (set_record-Inv c q (record q { runtime = none; state = unloading }) s inv u.1
            (refl, refl, λ h used. absurd (omega (arith, used, u.0))))
          hi (omega arith) (λ k. (refl, refl)))
  ]

  pub from_reserves-Inv :
      (r : ModelRecord)
      → lookup i s.threads ≡ some (reserves m)
      → lookup m s.records ≡ some r
      → Inv (from_reserves i m r s)
  unfolding from_reserves
  from_reserves-Inv r hi hm =
      if-Inv s.closed _ _ (λ h. left-Inv (reserves m) r hi hm (λ k. (refl, refl)))
        (λ h.
          if-Inv (has_room s.max_loaded_models s.records) _ _
            (λ room.
              move_to-Inv i (reserves m) (loads m) _
                (set_record-Inv m r (record r { state = loading }) s inv hm
                  (refl, refl, lookup-IsKept m r s inv hm))
                hi (omega arith) (λ k. (refl, refl)))
            (λ full.
              evict-Inv r (candidate m s.records) hi hm
                (candidate-IsUnused m s.records inv.distinct)))

  pub from_loads-Inv :
      (succeeds : Bool) (now : ℕ) (r : ModelRecord)
      → lookup i s.threads ≡ some (loads m)
      → lookup m s.records ≡ some r
      → Inv (from_loads i m succeeds now r s)
  unfolding from_loads loaded_record
  from_loads-Inv false now r hi hm =
      leave-Inv i m (loads m) r (record r { state = if s.closed then stopping else unavailable }) s
        inv hi hm (λ k. (refl, refl)) refl (lookup-IsKept m r s inv hm)
  from_loads-Inv true now r hi hm =
      if-Inv s.closed _ _
        (λ h.
          leave-Inv i m (loads m) r (record r { state = stopping }) s inv hi hm (λ k. (refl, refl))
            refl (lookup-IsKept m r s inv hm))
        (λ h.
          lease-Inv i m (loads m) r (loaded_record s.next_runtime now r)
            (record s { next_runtime = suc s.next_runtime })
            (record {
              leases = inv.leases;
              locks = inv.locks;
              distinct = inv.distinct;
              quiet = inv.quiet;
              kept = inv.kept;
            })
            hi hm now s.next_runtime (λ k. (refl, refl)) refl refl)

  unload_runtime-Inv :
      (r : ModelRecord) (o : Option ℕ)
      → lookup i s.threads ≡ some (unload_locked m)
      → lookup m s.records ≡ some r
      → r.active_requests ≤ 0
      → Inv (unload_runtime i m r o s)
  unfolding unload_runtime
  unload_runtime-Inv r none hi hm a = left-Inv (unload_locked m) r hi hm (λ k. (refl, refl))
  unload_runtime-Inv r (some runtime) hi hm a =
      move_to-Inv i (unload_locked m) (closes m runtime) _
        (set_record-Inv m r (record r { runtime = none; state = unloading }) s inv hm
          (refl, refl, λ h used. absurd (omega (arith, used, a))))
        hi (omega arith) (λ k. (refl, refl))

  pub from_unload_locked-Inv :
      (r : ModelRecord)
      → lookup i s.threads ≡ some (unload_locked m)
      → lookup m s.records ≡ some r
      → Inv (from_unload_locked i m r s)
  unfolding from_unload_locked
  from_unload_locked-Inv r hi hm =
      (let out = left-Inv (unload_locked m) r hi hm (λ k. (refl, refl)) in
        if-Inv s.closed _ _ (λ h. out)
          (λ h.
            if-Inv (ltb 0 r.active_requests) _ _ (λ used. out)
              (λ unused.
                if-Inv r.close_failed _ _ (λ failed. out)
                  (λ usable.
                    unload_runtime-Inv r r.runtime hi hm (ltb→ge 0 r.active_requests unused)))))

  pub from_leased-Inv :
      (now runtime : ℕ) (r : ModelRecord)
      → lookup i s.threads ≡ some (leased m runtime)
      → lookup m s.records ≡ some r
      → Inv (from_leased i m now r s)
  unfolding from_leased set_record move_to
  from_leased-Inv now runtime r hi hm =
      (let own : one m m ≡ 1 = if_true 1 0 ((==_iff m m).1 refl) in
        let mine = le-total_of_lookup (leases_on m) i (leased m runtime) s.threads hi in
        let counted = inv.leases m ∙ at_key-some (λ x. x.active_requests) m r s.records hm in
        let used : ltb 0 r.active_requests ≡ true = ground (arith, own, mine, counted) in
        let next = record r { active_requests = r.active_requests - 1; last_used_at = some now } in
        rw used (record {
          leases =
              Counts-both leases_on (λ x. x.active_requests) i m (leased m runtime) ended r next s
                hi hm (λ j o. if_false 1 0 o) (omega (arith, own, mine, counted)) inv.leases;
          locks =
              Counts-both locks_on locked i m (leased m runtime) ended r next s hi hm (λ j o. refl)
                refl inv.locks;
          distinct = Distinct-put m next s.records inv.distinct;
          quiet = IsQuiet-put i (leased m runtime) ended s hi (omega arith) inv.quiet;
          kept = λ h.
              Every-put IsKept m next s.records
                (λ u. lookup-IsKept m r s inv hm h (omega (arith, u))) (inv.kept h);
        }))

  pub from_closes-Inv :
      (runtime : ℕ) (succeeds : Bool) (r : ModelRecord)
      → lookup i s.threads ≡ some (closes m runtime)
      → lookup m s.records ≡ some r
      → Inv (from_closes i m runtime succeeds r s)
  unfolding from_closes
  from_closes-Inv runtime succeeds r hi hm =
      (let a = after_close-Replaces succeeds runtime r s (lookup-IsKept m r s inv hm) in
        leave-Inv i m (closes m runtime) r (after_close succeeds runtime r) s inv hi hm
          (λ k. (refl, refl)) a.0 a.2)

  pub shut_one-Inv :
      (ms : List ℕ) (r : ModelRecord) (o : Option ℕ)
      → s.closed ≡ true
      → lookup i s.threads ≡ some (shuts (m ∷ ms))
      → lookup m s.records ≡ some r
      → Inv (shut_one i m ms r o s)
  unfolding shut_one
  shut_one-Inv ms r none off hi hm =
      move_to-Inv i (shuts (m ∷ ms)) (shuts ms) _
        (set_record-Inv m r (record r { runtime = none }) s inv hm
          (refl, refl, λ h. absurd (on_and_off off h)))
        hi (omega arith) (λ k. (refl, refl))
  shut_one-Inv ms r (some j) off hi hm = inv

after_evict-Inv :
    (i m c runtime : ℕ) (succeeds : Bool) (o : Option ModelRecord) (s : Manager)
    → Inv s
    → lookup i s.threads ≡ some (evicts m c runtime)
    → lookup m s.records ≡ o
    → Inv (after_evict i m succeeds o s)
unfolding after_evict
after_evict-Inv i m c runtime true o s inv hi hm =
    move_to-Inv i (evicts m c runtime) (reserves m) s inv hi (omega arith) (λ k. (refl, refl))
after_evict-Inv i m c runtime false (some r) s inv hi hm =
    left-Inv i m s inv (evicts m c runtime) r hi hm (λ k. (refl, refl))
after_evict-Inv i m c runtime false none s inv hi hm =
    (let own : one m m ≡ 1 = if_true 1 0 ((==_iff m m).1 refl) in
      let mine = le-total_of_lookup (locks_on m) i (evicts m c runtime) s.threads hi in
      let counted = inv.locks m ∙ at_key-none locked m s.records hm in
      absurd (omega (arith, own, mine, counted)))

pub from_evicts-Inv :
    (i m c runtime : ℕ) (succeeds : Bool) (q : ModelRecord) (s : Manager)
    → Inv s
    → lookup i s.threads ≡ some (evicts m c runtime)
    → lookup c s.records ≡ some q
    → Inv (from_evicts i m c runtime succeeds q s)
unfolding from_evicts set_record
from_evicts-Inv i m c runtime succeeds q s inv hi hc =
    after_evict-Inv i m c runtime succeeds _ (set_record c (after_close succeeds runtime q) s)
      (set_record-Inv c q _ s inv hc
        (after_close-Replaces succeeds runtime q s (lookup-IsKept c q s inv hc)))
      hi refl
