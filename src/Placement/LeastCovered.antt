-- ===== src/Placement/LeastCovered.antt =====
-- The one-pass search of `_evaluate` in src/drift/node/contribution_planner.py beside a comparison of
-- all windows.
use community_ai.Prelude.{
  ℕ, zero, suc, ◌≡◌, ◌≤◌, ◌<◌, ◌+◌, ◌-◌, true, false, Option, none, some, [], leb, ltb, arith, refl,
  sym, ap, ◌∙◌, inl, inr, Bool-cases, subst, leb→le, ltb→lt, ltb→ge,
}
use community_ai.Placement.Window.{
  Key, key_lt, Scan, better_at, better, slide, candidate_key, scan_step, scan_from, least_covered,
}
use community_ai.Placement.Maxima.{peak_of, sum_of, Dominates, front-peak_of}
use community_ai.Placement.Sliding.{Slides, slide-Slides, slide_best}

key_lt_trans : (a b c : Key) → key_lt a b ≡ false → key_lt c b ≡ true → key_lt a c ≡ false
unfolding key_lt
key_lt_trans a b c h k = ground arith

key_lt_self : (a : Key) → key_lt a a ≡ false
unfolding key_lt
key_lt_self a = ground arith

none_such : (s : Scan) (key : Key) → s.best_key ≡ none → s.best_key ≡ some key → ⊥
none_such s key a b = cc

module _ (count : ℕ → ℕ) (rank : ℕ → ℕ → ℕ) (num_blocks : ℕ) where
  -- A window's key, read off the counts.
  unfoldable pub key_of : ℕ → Key
  unfolding peak_of sum_of
  key_of start = record {
    peak = peak_of count start num_blocks;
    window_sum = sum_of count start num_blocks;
    jitter = rank start (start + num_blocks);
    start = start;
  }

  -- The window at `best` is one of the first `k` indices, and none of those is before it.
  pub record IsLeast (k best : ℕ) : Type 0 where
    pub fits : best + num_blocks ≤ k
    pub least : (start : ℕ) → start + num_blocks ≤ k → key_lt (key_of start) (key_of best) ≡ false

  record Best (k : ℕ) (s : Scan) : Type 0 where
    early : k < num_blocks → s.best_key ≡ none
    best : num_blocks ≤ k → s.best_key ≡ some (key_of s.best_start)
    is_least : num_blocks ≤ k → IsLeast k s.best_start

  record Inv (k : ℕ) (s : Scan) : Type 0 where
    slides : Slides count rank num_blocks k s
    best : Best k s

  -- A window that fits is one of those before, or the new one.
  extend-IsLeast :
      (k start best : ℕ)
      → start + num_blocks ≡ suc k
      → best + num_blocks ≤ suc k
      → ((st : ℕ) → st + num_blocks ≤ k → key_lt (key_of st) (key_of best) ≡ false)
      → key_lt (key_of start) (key_of best) ≡ false
      → IsLeast (suc k) best
  extend-IsLeast k start best e fits old new = record {
    fits = fits;
    least = λ st h. elim (Bool-cases (leb (st + num_blocks) k)) [
      | inl before ↦ old st (leb→le (st + num_blocks) k before)
      | inr last ↦
          (let same : start ≡ st = ground arith in
            subst (λ x. key_lt (key_of x) (key_of best) ≡ false) same new)
    ];
  }

  better_at-Best :
      (k start : ℕ) (s : Scan) (o : Option Key)
      → start + num_blocks ≡ suc k
      → s.best_key ≡ o
      → Best k s
      → Best (suc k) (better_at count (key_of start) s o)
  unfolding better_at key_of
  better_at-Best k start s none e o b = record {
    early = λ h. absurd (omega arith);
    best = λ h. refl;
    is_least = λ h.
        extend-IsLeast k start start e (omega arith)
          (λ st a. absurd (none_such s (key_of s.best_start) o (b.best (omega arith))))
          (key_lt_self (key_of start));
  }
  better_at-Best k start s (some best) e o b =
      (let full : num_blocks ≤ k = elim (Bool-cases (ltb k num_blocks)) [
        | inl short ↦ absurd (none_such s best (b.early (ltb→lt k num_blocks short)) o)
        | inr long ↦ ltb→ge k num_blocks long
      ] in
        let found = b.best full in
        let same : best ≡ key_of s.best_start = cc in
        elim (Bool-cases (key_lt (key_of start) best)) [
          | inl less ↦ rw less (record {
            early = λ h. absurd (omega arith);
            best = λ h. refl;
            is_least = λ h.
                extend-IsLeast k start start e (omega arith)
                  (λ st a.
                    key_lt_trans (key_of st) best (key_of start)
                      (subst (λ x. key_lt (key_of st) x ≡ false) (sym same)
                        ((b.is_least full).least st a))
                      less)
                  (key_lt_self (key_of start));
          })
          | inr more ↦ rw more (record {
            early = λ h. absurd (omega arith);
            best = λ h. b.best full;
            is_least = λ h.
                extend-IsLeast k start s.best_start e (omega (arith, (b.is_least full).fits))
                  (b.is_least full).least (subst (λ x. key_lt (key_of start) x ≡ false) same more);
          })
        ])

  better_at-deque :
      (key : Key) (s : Scan) (o : Option Key)
      → ((better_at count key s o).maxima ≡ s.maxima)
        × ((better_at count key s o).window_sum ≡ s.window_sum)
  unfolding better_at
  better_at-deque key s none = (refl, refl)
  better_at-deque key s (some best) = elim (Bool-cases (key_lt key best)) [
    | inl less ↦ rw less (refl, refl)
    | inr more ↦ rw more (refl, refl)
  ]

  Best-same :
      (k : ℕ) (s s' : Scan)
      → s'.best_key ≡ s.best_key
      → s'.best_start ≡ s.best_start
      → Best k s
      → Best k s'
  Best-same k s s' key start b = record {
    early = λ h. key ∙ b.early h;
    best = λ h. key ∙ b.best h ∙ ap (λ x. some (key_of x)) (sym start);
    is_least = λ h. subst (IsLeast k) (sym start) (b.is_least h);
  }

  -- The key that the pass computes is the key that the counts have.
  candidate_key-key_of :
      (k start : ℕ) (s : Scan)
      → 1 ≤ num_blocks
      → start + num_blocks ≡ k
      → Dominates count start k s.maxima
      → s.window_sum ≡ sum_of count start (k - start)
      → candidate_key count rank num_blocks start s ≡ key_of start
  unfolding candidate_key key_of
  candidate_key-key_of k start s a e d w =
      (let size : k - start ≡ num_blocks = omega arith in
        let peak =
          front-peak_of count start num_blocks s.maxima a
            (subst (λ h. Dominates count start h s.maxima) (sym e) d) in
        ap
          (λ x. record {
            peak = x;
            window_sum = s.window_sum;
            jitter = rank start (start + num_blocks);
            start = start;
          })
          peak
        ∙ ap
            (λ x. record {
              peak = peak_of count start num_blocks;
              window_sum = x;
              jitter = rank start (start + num_blocks);
              start = start;
            })
            (w ∙ ap (sum_of count start) size))

  scan_step-Inv :
      (k : ℕ) (s : Scan)
      → 1 ≤ num_blocks
      → Inv k s
      → Inv (suc k) (scan_step count rank num_blocks k s)
  unfolding scan_step better
  scan_step-Inv k s a inv =
      (let s' = slide count rank num_blocks k s in
        let slid = slide-Slides count rank num_blocks k s inv.slides in
        let kept = slide_best count rank num_blocks k s in
        let best = Best-same k s s' kept.0 kept.1 inv.best in
        let start = suc k - num_blocks in
        elim (Bool-cases (ltb (suc k) num_blocks)) [
          | inl short ↦ rw short (record {
            slides = slid;
            best = record {
              early = λ h. best.early (omega arith);
              best = λ h. absurd (omega (arith, ltb→lt (suc k) num_blocks short));
              is_least = λ h. absurd (omega (arith, ltb→lt (suc k) num_blocks short));
            };
          })
          | inr long ↦
              (let fits : start + num_blocks ≡ suc k =
                  omega (arith, ltb→ge (suc k) num_blocks long) in
                let key = candidate_key-key_of (suc k) start s' a fits slid.deque slid.covered in
                let same = better_at-deque (key_of start) s' s'.best_key in
                rw long (
                  subst (λ x. Inv (suc k) (better_at count x s' s'.best_key)) (sym key)
                    (record {
                      slides = record {
                        deque = subst (Dominates count start (suc k)) (sym same.0) slid.deque;
                        covered = same.1 ∙ slid.covered;
                      };
                      best = better_at-Best k start s' s'.best_key fits refl best;
                    })))
        ])

  scan_from-Inv :
      (remaining k : ℕ) (s : Scan)
      → 1 ≤ num_blocks
      → Inv k s
      → Inv (k + remaining) (scan_from count rank num_blocks remaining k s)
  unfolding scan_from
  scan_from-Inv zero k s a inv = subst (λ n. Inv n s) (omega arith) inv
  scan_from-Inv (suc remaining) k s a inv =
      subst (λ n. Inv n (scan_from count rank num_blocks (suc remaining) k s)) (omega arith)
        (scan_from-Inv remaining (suc k) (scan_step count rank num_blocks k s) a
          (scan_step-Inv k s a inv))

  -- In counts with room for a window, the search returns a window that fits and that no other one
  -- is before: in its largest count, then its sum, then its rank, then its start.
  pub least_covered-IsLeast :
      (total : ℕ)
      → 1 ≤ num_blocks
      → num_blocks ≤ total
      → IsLeast total (least_covered count rank num_blocks total)
  unfolding least_covered sum_of
  least_covered-IsLeast total a b =
      (let start : Scan = record { maxima = []; window_sum = 0; best_key = none; best_start = 0 } in
        let nothing : 0 ≡ 0 - (0 - num_blocks) = omega arith in
        let empty : Inv 0 start = record {
          slides = record {
            deque = omega arith;
            covered = ap (sum_of count (0 - num_blocks)) nothing;
          };
          best = record {
            early = λ h. refl;
            best = λ h. absurd (omega arith);
            is_least = λ h. absurd (omega arith);
          };
        } in
        let done = scan_from-Inv total 0 start a empty in
        let all : 0 + total ≡ total = omega arith in
        let end = (scan_from count rank num_blocks total 0 start).best_start in
        subst (λ n. IsLeast n end) all (done.best.is_least (omega arith)))
