-- ===== src/ModelManager/Invariant.antt =====
-- Leases and locks of src/drift/node/model_manager.py in the steps of its threads.
use community_ai.Prelude.{
  ℕ, ◌≡◌, ◌≤◌, ◌+◌, Bool, true, false, Option, none, some, ==_iff, if_true, if_false, lookup,
  Every-put, Every-lookup, Distinct-put, is_some, arith, refl, sym, subst, ◌∙◌,
}
use community_ai.ModelManager.Residency.{ModelRecord}
use community_ai.ModelManager.Step.{
  Phase, leased, ended, Manager, move_to, set_record, leave, take_lock, lease, after_close,
}
use community_ai.ModelManager.Counts.{
  one, leases_on, locks_on, held, locked, IsKept, shutting, IsQuiet-put, Inv, Counts-move,
  Counts-set, Counts-both, Locks, Locks-locked,
}

-- A record that may replace another: with its lease count, lock and runtime in use.
abbrev pub Replaces : Manager → ModelRecord → ModelRecord → Type 0
Replaces s r q =
    (r.active_requests ≡ q.active_requests) × (locked r ≡ locked q) × (s.closed ≡ false → IsKept q)

pub set_record-Inv :
    (m : ℕ) (r q : ModelRecord) (s : Manager)
    → Inv s
    → lookup m s.records ≡ some r
    → Replaces s r q
    → Inv (set_record m q s)
unfolding set_record
set_record-Inv m r q s inv hm a = record {
  leases = Counts-set leases_on (λ x. x.active_requests) m r q s hm a.0 inv.leases;
  locks = Counts-set locks_on locked m r q s hm a.1 inv.locks;
  distinct = Distinct-put m q s.records inv.distinct;
  quiet = inv.quiet;
  kept = λ h. Every-put IsKept m q s.records (a.2 h) (inv.kept h);
}

-- A thread goes on with the same leases and locks.
pub move_to-Inv :
    (i : ℕ) (p q : Phase) (s : Manager)
    → Inv s
    → lookup i s.threads ≡ some p
    → shutting q ≤ shutting p
    → ((k : ℕ) → (leases_on k p ≡ leases_on k q) × (locks_on k p ≡ locks_on k q))
    → Inv (move_to i q s)
unfolding move_to
move_to-Inv i p q s inv hi quiet a = record {
  leases = Counts-move leases_on (λ x. x.active_requests) i p q s hi (λ k. (a k).0) inv.leases;
  locks = Counts-move locks_on locked i p q s hi (λ k. (a k).1) inv.locks;
  distinct = inv.distinct;
  quiet = IsQuiet-put i p q s hi quiet inv.quiet;
  kept = inv.kept;
}

module _ (i m : ℕ) (p : Phase) (r q : ModelRecord) (s : Manager) (inv : Inv s)
    (hi : lookup i s.threads ≡ some p) (hm : lookup m s.records ≡ some r) where
  -- The end of a call that holds the lock of a model.
  pub leave-Inv :
      Locks m p
      → r.active_requests ≡ q.active_requests
      → (s.closed ≡ false → IsKept q)
      → Inv (leave i m q s)
  unfolding leave move_to set_record
  leave-Inv l a k =
      (let mine = (l m).1 ∙ if_true 1 0 ((==_iff m m).1 refl) in
        let no_lease = (l m).0 in
        let taken = Locks-locked i m p r s hi hm l inv.locks in
        record {
          leases =
              Counts-both leases_on (λ x. x.active_requests) i m p ended r
                (record q { load_lock = none }) s hi hm (λ j o. (l j).0)
                (omega (arith, no_lease, a)) inv.leases;
          locks =
              Counts-both locks_on locked i m p ended r (record q { load_lock = none }) s hi hm
                (λ j o. (l j).1 ∙ if_false 1 0 o) (omega (arith, mine, taken)) inv.locks;
          quiet = IsQuiet-put i p ended s hi (omega arith) inv.quiet;
          distinct = Distinct-put m (record q { load_lock = none }) s.records inv.distinct;
          kept =
              λ h. Every-put IsKept m (record q { load_lock = none }) s.records (k h) (inv.kept h);
        })

  pub lease-Inv :
      (now runtime : ℕ)
      → Locks m p
      → r.active_requests ≡ q.active_requests
      → is_some q.runtime ≡ true
      → Inv (lease i m now q runtime s)
  unfolding lease move_to set_record
  lease-Inv now runtime l a there =
      (let mine = (l m).1 ∙ if_true 1 0 ((==_iff m m).1 refl) in
        let no_lease = (l m).0 in
        let taken = Locks-locked i m p r s hi hm l inv.locks in
        let own : one m m ≡ 1 = if_true 1 0 ((==_iff m m).1 refl) in
        let next = record q {
          active_requests = q.active_requests + 1;
          last_used_at = some now;
          load_lock = none;
        } in
        record {
          leases =
              Counts-both leases_on (λ x. x.active_requests) i m p (leased m runtime) r next s hi hm
                (λ j o. (l j).0 ∙ sym (if_false 1 0 o)) (omega (arith, no_lease, a, own))
                inv.leases;
          locks =
              Counts-both locks_on locked i m p (leased m runtime) r next s hi hm
                (λ j o. (l j).1 ∙ if_false 1 0 o) (omega (arith, mine, taken)) inv.locks;
          quiet = IsQuiet-put i p (leased m runtime) s hi (omega arith) inv.quiet;
          distinct = Distinct-put m next s.records inv.distinct;
          kept = λ h. Every-put IsKept m next s.records (λ u. there) (inv.kept h);
        })

pub take_lock-Inv :
    (i m : ℕ) (p q : Phase) (r : ModelRecord) (o : Option ℕ) (s : Manager)
    → Inv s
    → lookup i s.threads ≡ some p
    → lookup m s.records ≡ some r
    → r.load_lock ≡ o
    → ((k : ℕ) → (leases_on k p ≡ 0) × (locks_on k p ≡ 0))
    → Locks m q
    → shutting q ≤ shutting p
    → Inv (take_lock i m q r o s)
unfolding take_lock move_to set_record
take_lock-Inv i m p q r (some j) s inv hi hm e a l quiet = inv
take_lock-Inv i m p q r none s inv hi hm e a l quiet =
    (let own = (l m).1 ∙ if_true 1 0 ((==_iff m m).1 refl) in
      let own_lease = (l m).0 in
      let before = a m in
      let is_free : locked r ≡ 0 = subst (λ x. held x ≡ 0) (sym e) refl in
      let next = record r { load_lock = some i } in
      record {
        leases =
            Counts-both leases_on (λ x. x.active_requests) i m p q r next s hi hm
              (λ j o. (a j).0 ∙ sym ((l j).0)) (omega (arith, own_lease, before.0)) inv.leases;
        locks =
            Counts-both locks_on locked i m p q r next s hi hm
              (λ j o. (a j).1 ∙ sym ((l j).1 ∙ if_false 1 0 o))
              (omega (arith, own, before.1, is_free)) inv.locks;
        quiet = IsQuiet-put i p q s hi quiet inv.quiet;
        distinct = Distinct-put m next s.records inv.distinct;
        kept = λ h.
            Every-put IsKept m next s.records (Every-lookup IsKept m r s.records (inv.kept h) hm)
              (inv.kept h);
      })

pub lookup-IsKept :
    (m : ℕ) (r : ModelRecord) (s : Manager)
    → Inv s
    → lookup m s.records ≡ some r
    → s.closed ≡ false
    → IsKept r
lookup-IsKept m r s inv hm open_ = Every-lookup IsKept m r s.records (inv.kept open_) hm

-- The record whose runtime is closed is not in use, whatever the close does.
pub after_close-Replaces :
    (succeeds : Bool) (runtime : ℕ) (q : ModelRecord) (s : Manager)
    → (s.closed ≡ false → IsKept q)
    → Replaces s q (after_close succeeds runtime q)
unfolding after_close
after_close-Replaces true runtime q s k = (refl, refl, k)
after_close-Replaces false runtime q s k = (refl, refl, λ h u. refl)
