-- ===== src/ModelManager/Counts.antt =====
-- What the threads of src/drift/node/model_manager.py hold against what the records say.
use community_ai.Prelude.{
  ℕ, ◌≡◌, ◌≤◌, ◌<◌, ◌+◌, inl, inr, true, false, Option, none, some, List, ◌==◌, ==_iff,
  if◌then◌else◌, if_true, if_false, lookup, put, total, total-put_old, le-total_of_lookup, at_key,
  lookup-put, lookup-put_self, Every, Distinct, is_some, Bool-cases, arith, refl, sym, subst, ◌∙◌,
}
use community_ai.ModelManager.Residency.{ModelRecord}
use community_ai.ModelManager.Step.{
  Phase, load_locked, unload_locked, reserves, evicts, loads, leased, closes, shuts, Manager,
  move_to, set_record,
}

-- 1 for equal models.
abbrev pub one : ℕ → ℕ → ℕ
one k m = if m == k then 1 else 0

-- Whether a thread has a lease on a model.
abbrev pub leases_on : ℕ → Phase → ℕ
leases_on k (leased m runtime) = one k m
leases_on k _ = 0

-- Whether a thread is inside the load lock of a model.
abbrev pub locks_on : ℕ → Phase → ℕ
locks_on k (load_locked m) = one k m
locks_on k (unload_locked m) = one k m
locks_on k (reserves m) = one k m
locks_on k (evicts m c runtime) = one k m
locks_on k (loads m) = one k m
locks_on k (closes m runtime) = one k m
locks_on k _ = 0

abbrev pub held : Option ℕ → ℕ
held none = 0
held (some i) = 1

abbrev pub locked : ModelRecord → ℕ
locked r = held r.load_lock

held_once : (o : Option ℕ) → 1 ≤ held o → held o ≡ 1
held_once none h = absurd (omega (arith, h))
held_once (some i) h = refl

-- A runtime that is in use is there.
abbrev pub IsKept : ModelRecord → Type 0
IsKept r = 0 < r.active_requests → is_some r.runtime ≡ true

abbrev pub Counts : (ℕ → Phase → ℕ) → (ModelRecord → ℕ) → Manager → Type 0
Counts f g s = (k : ℕ) → total (f k) s.threads ≡ at_key g k s.records

-- Whether a thread is in a shutdown.
abbrev pub shutting : Phase → ℕ
shutting (shuts ms) = 1
shutting _ = 0

-- No thread is in a shutdown before the manager is closed.
abbrev pub IsQuiet : Manager → Type 0
IsQuiet s = s.closed ≡ false → total shutting s.threads ≡ 0

pub record Inv (s : Manager) : Type 0 where
  pub leases : Counts leases_on (λ r. r.active_requests) s
  pub locks : Counts locks_on locked s
  pub distinct : Distinct s.records
  pub quiet : IsQuiet s
  pub kept : s.closed ≡ false → Every IsKept s.records

pub at_key-some :
    (g : ModelRecord → ℕ) (m : ℕ) (r : ModelRecord) (records : List (ℕ × ModelRecord))
    → lookup m records ≡ some r
    → at_key g m records ≡ g r
at_key-some g m r records h = rw (at_key, h) refl

pub at_key-none :
    (g : ModelRecord → ℕ) (m : ℕ) (records : List (ℕ × ModelRecord))
    → lookup m records ≡ none
    → at_key g m records ≡ 0
at_key-none g m records h = rw (at_key, h) refl

pub at_key-put :
    (g : ModelRecord → ℕ) (k m : ℕ) (r : ModelRecord) (records : List (ℕ × ModelRecord))
    → at_key g k (put m r records) ≡ (if m == k then g r else at_key g k records)
at_key-put g k m r records = elim (Bool-cases (m == k)) [
  | inl same ↦ rw (at_key, lookup-put m k r records, same) refl
  | inr other ↦ rw (at_key, lookup-put m k r records, other) refl
]

pub IsQuiet-put :
    (i : ℕ) (p q : Phase) (s : Manager)
    → lookup i s.threads ≡ some p
    → shutting q ≤ shutting p
    → IsQuiet s
    → s.closed ≡ false
    → total shutting (put i q s.threads) ≡ 0
IsQuiet-put i p q s h a quiet on =
    (let moved = total-put_old shutting i q p s.threads h in
      let none_yet = quiet on in omega (arith, moved, none_yet, a))

pub Counts-move :
    (f : ℕ → Phase → ℕ) (g : ModelRecord → ℕ) (i : ℕ) (p q : Phase) (s : Manager)
    → lookup i s.threads ≡ some p
    → ((k : ℕ) → f k p ≡ f k q)
    → Counts f g s
    → Counts f g (move_to i q s)
unfolding move_to
Counts-move f g i p q s h e c k =
    (let moved = total-put_old (f k) i q p s.threads h in
      let before = c k in let same = e k in omega (arith, moved, before, same))

pub Counts-set :
    (f : ℕ → Phase → ℕ) (g : ModelRecord → ℕ) (m : ℕ) (r q : ModelRecord) (s : Manager)
    → lookup m s.records ≡ some r
    → g r ≡ g q
    → Counts f g s
    → Counts f g (set_record m q s)
unfolding set_record
Counts-set f g m r q s h e c k = c k ∙ (elim (Bool-cases (m == k)) [
  | inl same ↦
      (let here : m ≡ k = (==_iff m k).0 same in
        at_key-some g k r s.records (subst (λ x. lookup x s.records ≡ some r) here h)
        ∙ (e ∙ sym (at_key-put g k m q s.records ∙ if_true _ _ same)))
  | inr other ↦ sym (at_key-put g k m q s.records ∙ if_false _ _ other)
])

-- A thread and a record that change together.
pub Counts-both :
    (f : ℕ → Phase → ℕ) (g : ModelRecord → ℕ) (i m : ℕ) (p p' : Phase) (r r' : ModelRecord)
    (s : Manager)
    → lookup i s.threads ≡ some p
    → lookup m s.records ≡ some r
    → ((k : ℕ) → (m == k) ≡ false → f k p ≡ f k p')
    → g r' + f m p ≡ g r + f m p'
    → Counts f g s
    → Counts f g (move_to i p' (set_record m r' s))
unfolding move_to set_record
Counts-both f g i m p p' r r' s hi hm others here c k = elim (Bool-cases (m == k)) [
  | inl same ↦
      (let e : m ≡ k = (==_iff m k).0 same in
        subst (λ x. total (f x) (put i p' s.threads) ≡ at_key g x (put m r' s.records)) e
          (let moved = total-put_old (f m) i p' p s.threads hi in
            let before = c m ∙ at_key-some g m r s.records hm in
            let after = at_key-some g m r' (put m r' s.records) (lookup-put_self m r' s.records) in
            omega (arith, moved, before, after, here)))
  | inr other ↦
      (let moved = total-put_old (f k) i p' p s.threads hi in
        let before = c k in
        let after : at_key g k (put m r' s.records) ≡ at_key g k s.records =
          at_key-put g k m r' s.records ∙ if_false _ _ other in
        let same = others k other in omega (arith, moved, before, after, same))
]

-- A thread inside the lock of a model, which has no lease.
abbrev pub Locks : ℕ → Phase → Type 0
Locks m p = (k : ℕ) → (leases_on k p ≡ 0) × (locks_on k p ≡ one k m)

pub Locks-locked :
    (i m : ℕ) (p : Phase) (r : ModelRecord) (s : Manager)
    → lookup i s.threads ≡ some p
    → lookup m s.records ≡ some r
    → Locks m p
    → Counts locks_on locked s
    → locked r ≡ 1
Locks-locked i m p r s hi hm l c =
    (let mine : locks_on m p ≡ 1 = (l m).1 ∙ if_true 1 0 ((==_iff m m).1 refl) in
      let some_lock = le-total_of_lookup (locks_on m) i p s.threads hi in
      let counted = c m ∙ at_key-some locked m r s.records hm in
      held_once r.load_lock (omega (arith, mine, some_lock, counted)))
