-- ===== src/RejectionLog/Conserved.antt =====
-- Counting what src/drift/server/rejection_logging.py drops and reports.
use Prim.Native.Nat.{min}
use community_ai.Prelude.{
  ℕ, ◌≡◌, ◌≤◌, ◌<◌, ◌+◌, Bool, false, Option, none, some, List, [], ◌∷◌, ◌==◌, if◌then◌else◌, arith,
  refl, sym, ap, subst, ◌∙◌, inl, inr, Bool-cases, ==_iff, if_true, if_false, lookup, put,
  lookup-put, length, Float, int, valid,
}
use community_ai.RejectionLog.{
  Category, key, LogRecord, Verdict, kept, dropped, coalesced, routine, LogFilter, Window,
  open_window, filter_state, filter_at, filter, filter_all, new_filter,
}

-- A record that is dropped, and the number that a line reports, for one category.
abbrev pub drops_as : Verdict → ℕ
drops_as dropped = 1
drops_as _ = 0

abbrev pub reports_as : Verdict → ℕ
reports_as (coalesced n) = n
reports_as _ = 0

abbrev pub is_of : ℕ → Option Category → Bool
is_of k none = false
is_of k (some c) = key c == k

module _ (F : Float) where
  -- The records dropped of a category, and those that its lines report.
  pub dropped_of : ℕ → List (Option F.Carrier × LogRecord) → LogFilter F → ℕ
  dropped_of k [] f = 0
  dropped_of k ((clock, r) ∷ rs) f =
      (if is_of k (routine r) then drops_as (filter F clock r f).0 else 0)
      + dropped_of k rs (filter F clock r f).1

  pub reported_of : ℕ → List (Option F.Carrier × LogRecord) → LogFilter F → ℕ
  reported_of k [] f = 0
  reported_of k ((clock, r) ∷ rs) f =
      (if is_of k (routine r) then reports_as (filter F clock r f).0 else 0)
      + reported_of k rs (filter F clock r f).1

  abbrev pub suppressed_in : Option (Window F) → ℕ
  suppressed_in none = 0
  suppressed_in (some w) = w.suppressed

  -- What a category's window has suppressed and not reported yet.
  abbrev pub waiting : ℕ → LogFilter F → ℕ
  waiting k f = suppressed_in (lookup k f.categories)

  -- A window that is written for a category, as every category sees it.
  put_conserved :
      (k j : ℕ) (f : LogFilter F) (o : Option (Window F)) (w : Window F) (gone told : ℕ)
      → lookup k f.categories ≡ o
      → gone + suppressed_in o ≡ told + w.suppressed
      → w.suppressed ≤ suppressed_in o + 1
      → ((if k == j then gone else 0) + waiting j f
          ≡ (if k == j then told else 0)
            + waiting j (record f { categories = put k w f.categories }))
        × (waiting j (record f { categories = put k w f.categories }) ≤ waiting j f + 1)
  put_conserved k j f o w gone told e a b =
      (let after = ap suppressed_in (lookup-put k j w f.categories) in
        elim (Bool-cases (k == j)) [
          | inl same ↦
              (let here : waiting j f ≡ suppressed_in o =
                  ap (λ i. waiting i f) (sym ((==_iff k j).0 same)) ∙ ap suppressed_in e in
                let put_here : waiting j (record f { categories = put k w f.categories })
                    ≡ w.suppressed =
                  after ∙ ap suppressed_in (if_true (some w) (lookup j f.categories) same) in
                rw same (omega (arith, here, put_here, a), omega (arith, here, put_here, b)))
          | inr other ↦
              (let put_there : waiting j (record f { categories = put k w f.categories })
                    ≡ waiting j f =
                  after ∙ ap suppressed_in (if_false (some w) (lookup j f.categories) other) in
                rw other (omega (arith, put_there), omega (arith, put_there)))
        ])

  record Conserved (k j : ℕ) (f f' : LogFilter F) (v : Verdict) : Type 0 where
    balance :
        (if k == j then drops_as v else 0) + waiting j f
        ≡ (if k == j then reports_as v else 0) + waiting j f'
    slow : waiting j f' ≤ waiting j f + 1
    same_bound : f'.max_suppressed ≡ f.max_suppressed

  unchanged : (k j : ℕ) (f : LogFilter F) → Conserved k j f f kept
  unchanged k j f = record { balance = ground arith; slow = omega arith; same_bound = refl }

  -- One record: what it drops is reported or waits.
  filter_state-Conserved :
      (now : F.Carrier) (k j : ℕ) (o : Option (Window F)) (f : LogFilter F)
      → lookup k f.categories ≡ o
      → suppressed_in o < f.max_suppressed
      → Conserved k j f (filter_state F now k o f).1 (filter_state F now k o f).0
  unfolding filter_state open_window
  filter_state-Conserved now k j none f e small =
      (let c =
          put_conserved k j f none (record { start = now; suppressed = 0 }) 0
            (min f.max_suppressed 0) e (omega arith) (omega arith) in
        record { balance = c.0; slow = c.1; same_bound = refl })
  filter_state-Conserved now k j (some w) f e small = elim (Bool-cases (F.lt now w.start)) [
    | inl back ↦ rw back (unchanged k j f)
    | inr onward ↦ elim (Bool-cases (F.le f.window_seconds (F.sub now w.start))) [
      | inl over ↦
          (let c =
              put_conserved k j f (some w) (record { start = now; suppressed = 0 }) 0
                (min f.max_suppressed w.suppressed) e (omega arith) (omega arith) in
            rw onward (rw over (record { balance = c.0; slow = c.1; same_bound = refl })))
      | inr within ↦
          (let c =
              put_conserved k j f (some w)
                (record w { suppressed = min f.max_suppressed (w.suppressed + 1) }) 1 0 e
                (omega arith) (omega arith) in
            rw onward (rw within (record { balance = c.0; slow = c.1; same_bound = refl })))
    ]
  ]

  filter_at-Conserved :
      (clock : Option F.Carrier) (c : Option Category) (j : ℕ) (f : LogFilter F)
      → ((k : ℕ) → waiting k f < f.max_suppressed)
      → ((if is_of j c then drops_as (filter_at F clock c f).0 else 0) + waiting j f
          ≡ (if is_of j c then reports_as (filter_at F clock c f).0 else 0)
            + waiting j (filter_at F clock c f).1)
        × ((k : ℕ) → waiting k (filter_at F clock c f).1 ≤ waiting k f + 1)
        × ((filter_at F clock c f).1.max_suppressed ≡ f.max_suppressed)
  unfolding filter_at
  filter_at-Conserved clock none j f small = (refl, λ k. omega arith, refl)
  filter_at-Conserved none (some c) j f small =
      (let same = unchanged (key c) j f in (same.balance, λ k. omega arith, refl))
  filter_at-Conserved (some now) (some c) j f small =
      (let at : (i : ℕ) → Conserved (key c) i f _ _ = λ i.
          filter_state-Conserved now (key c) i (lookup (key c) f.categories) f refl
            (small (key c)) in
        elim (Bool-cases (F.is_finite now)) [
          | inl finite ↦ rw finite ((at j).balance, λ i. (at i).slow, (at j).same_bound)
          | inr lost ↦ rw lost ((unchanged (key c) j f).balance, λ k. omega arith, refl)
        ])

  filter_all-conserved :
      (j : ℕ) (rs : List (Option F.Carrier × LogRecord)) (f : LogFilter F)
      → ((k : ℕ) → waiting k f + length rs ≤ f.max_suppressed)
      → dropped_of j rs f + waiting j f ≡ reported_of j rs f + waiting j (filter_all F rs f)
  unfolding filter_all dropped_of reported_of filter
  filter_all-conserved j [] f room = refl
  filter_all-conserved j ((clock, r) ∷ rs) f room =
      (let one = filter_at-Conserved clock (routine r) j f (λ k. omega (arith, room k)) in
        let next = (filter F clock r f).1 in
        let rest = filter_all-conserved j rs next (λ k. omega (arith, room k, one.1 k, one.2)) in
        omega (arith, one.0, rest))

  fresh : F.Carrier → ℕ → LogFilter F
  fresh window bound = record { window_seconds = window; max_suppressed = bound; categories = [] }

  fresh_of_new :
      (window : F.Carrier) (bound : ℕ) (f : LogFilter F)
      → new_filter F window (int bound) ≡ valid f
      → fresh window bound ≡ f
  unfolding new_filter fresh
  fresh_of_new window bound f h = ground arith

  -- A filter as it is constructed loses no rejection of a log with at most as many records as its
  -- bound: of each category, what it has dropped is what its lines have reported and what waits.
  pub rejections_accounted :
      (window : F.Carrier) (bound j : ℕ) (rs : List (Option F.Carrier × LogRecord))
      (f : LogFilter F)
      → new_filter F window (int bound) ≡ valid f
      → length rs ≤ bound
      → dropped_of j rs f ≡ reported_of j rs f + waiting j (filter_all F rs f)
  unfolding fresh
  rejections_accounted window bound j rs f new few =
      subst (λ g. dropped_of j rs g ≡ reported_of j rs g + waiting j (filter_all F rs g))
        (fresh_of_new window bound f new)
        (omega (arith, filter_all-conserved j rs (fresh window bound) (λ k. omega arith)))
