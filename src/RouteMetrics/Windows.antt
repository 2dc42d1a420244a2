-- ===== src/RouteMetrics/Windows.antt =====
-- The trackers of src/drift/node/route_metrics.py that calls can reach, and their counts.
use community_ai.Prelude.{
  ℕ, ◌≡◌, ◌≤◌, Bool, Option, none, some, [], ◌==◌, arith, refl, subst, inl, inr, Bool-cases, Every,
  Every-put, Every-remove, Every-lookup, Float, Value, int, valid, lookup,
}
use community_ai.RouteMetrics.Tracker.{
  Rounding, RouteWindow, Windows, one, two, RouteOutcomeTracker, new_tracker, open_window, rotate,
  on_current, current, add_outcome, record_valid, record_checked, record_outcome, check_tokens,
  check_duration, snapshot, snapshot_at, is_stale,
}

module _ (F : Float) where
  abbrev pub IsCounted : ℕ → RouteWindow F → Type 0
  IsCounted limit w = (w.successes ≤ w.attempts) × (w.attempts ≤ limit)

  abbrev pub AreCounted : ℕ → Windows F → Type 0
  AreCounted limit (one w) = IsCounted limit w
  AreCounted limit (two w old) = IsCounted limit w × IsCounted limit old

  pub record Inv (t : RouteOutcomeTracker F) : Type 0 where
    pub window_low : 60 ≤ t.window_seconds
    pub window_high : t.window_seconds ≤ 3600
    pub counted : Every (AreCounted t.maximum_events) t.windows

  -- What the tracker's callers can make of it.
  pub data Reachable (is_digest : ℕ → Bool) (R : Rounding F) : RouteOutcomeTracker F → Type 0 where
    constructed :
        {t : RouteOutcomeTracker F} (window events : Value F)
        → new_tracker F window events ≡ valid t
        → Reachable is_digest R t
    recorded :
        {t t' : RouteOutcomeTracker F} (now : F.Carrier) (digest : ℕ) (succeeded : Bool)
        (tokens duration : Value F)
        → Reachable is_digest R t
        → record_outcome F is_digest R now digest succeeded tokens duration t ≡ valid t'
        → Reachable is_digest R t'
    read :
        {t t' : RouteOutcomeTracker F} (now : F.Carrier) (digest : ℕ)
        → Reachable is_digest R t
        → (snapshot F is_digest R now digest t).1 ≡ t'
        → Reachable is_digest R t'

  abbrev fresh : ℕ → ℕ → RouteOutcomeTracker F
  fresh window events = record { window_seconds = window; maximum_events = events; windows = [] }

  fresh_of_new :
      (window events : ℕ) {t : RouteOutcomeTracker F}
      → new_tracker F (int window) (int events) ≡ valid t
      → ((60 ≤ window) × (window ≤ 3600)) × (fresh window events ≡ t)
  unfolding new_tracker
  fresh_of_new window events h = ground arith

  new_tracker-Inv :
      (window events : Value F) {t : RouteOutcomeTracker F}
      → new_tracker F window events ≡ valid t
      → Inv t
  unfolding new_tracker
  new_tracker-Inv (int window) (int events) h =
      (let e = fresh_of_new window events h in
        subst Inv e.1 (record { window_low = e.0.0; window_high = e.0.1; counted = tt }))
  new_tracker-Inv _ _ h = absurd (ground arith)

  add_outcome-IsCounted :
      (t : RouteOutcomeTracker F) (now : F.Carrier) (succeeded : Bool) (n : ℕ) (d : F.Carrier)
      (w : RouteWindow F)
      → IsCounted t.maximum_events w
      → IsCounted t.maximum_events (add_outcome F t now succeeded n d w)
  unfolding add_outcome
  add_outcome-IsCounted t now succeeded n d w h = ground (arith, h.0, h.1)

  rotate-AreCounted :
      (limit number : ℕ) (o : Option (Windows F))
      → ((ws : Windows F) → o ≡ some ws → AreCounted limit ws)
      → AreCounted limit (rotate F number o)
  unfolding rotate open_window
  rotate-AreCounted limit number none h = (omega arith, omega arith)
  rotate-AreCounted limit number (some (one w)) h = elim (Bool-cases (w.window_number == number)) [
    | inl same ↦ rw same (h (one w) refl)
    | inr other ↦ rw other ((omega arith, omega arith), h (one w) refl)
  ]
  rotate-AreCounted limit number (some (two w old)) h =
      elim (Bool-cases (w.window_number == number)) [
        | inl same ↦ rw same (h (two w old) refl)
        | inr other ↦ rw other ((omega arith, omega arith), (h (two w old) refl).0)
      ]

  on_current-AreCounted :
      (limit : ℕ) (f : RouteWindow F → RouteWindow F) (ws : Windows F)
      → ((w : RouteWindow F) → IsCounted limit w → IsCounted limit (f w))
      → AreCounted limit ws
      → AreCounted limit (on_current F f ws)
  unfolding on_current
  on_current-AreCounted limit f (one w) g h = g w h
  on_current-AreCounted limit f (two w old) g h = (g w h.0, h.1)

  record_valid-Inv :
      (R : Rounding F) (now : F.Carrier) (digest : ℕ) (succeeded : Bool) (n : ℕ) (d : F.Carrier)
      (t : RouteOutcomeTracker F)
      → Inv t
      → Inv (record_valid F R now digest succeeded n d t)
  unfolding record_valid
  record_valid-Inv R now digest succeeded n d t h = record {
    window_low = h.window_low;
    window_high = h.window_high;
    counted =
        Every-put (AreCounted t.maximum_events) digest _ t.windows
          (on_current-AreCounted t.maximum_events _ _ (add_outcome-IsCounted t now succeeded n d) (
            rotate-AreCounted t.maximum_events _ (lookup digest t.windows)
              (λ ws e. Every-lookup (AreCounted t.maximum_events) digest ws t.windows h.counted e)))
          h.counted;
  }

  record_checked-Inv :
      (R : Rounding F) (now : F.Carrier) (digest : ℕ) (succeeded : Bool) (n : Option ℕ)
      (d : Option F.Carrier) (t : RouteOutcomeTracker F) {t' : RouteOutcomeTracker F}
      → Inv t
      → record_checked F R now digest succeeded n d t ≡ valid t'
      → Inv t'
  unfolding record_checked
  record_checked-Inv R now digest succeeded none d t h e = absurd cc
  record_checked-Inv R now digest succeeded (some n) none t h e = absurd cc
  record_checked-Inv R now digest succeeded (some n) (some d) t h e =
      (let same : record_valid F R now digest succeeded n d t ≡ _ = cc in
        subst Inv same (record_valid-Inv R now digest succeeded n d t h))

  record_outcome-Inv :
      (is_digest : ℕ → Bool) (R : Rounding F) (now : F.Carrier) (digest : ℕ) (succeeded : Bool)
      (n d : Value F) (t : RouteOutcomeTracker F) {t' : RouteOutcomeTracker F}
      → Inv t
      → record_outcome F is_digest R now digest succeeded n d t ≡ valid t'
      → Inv t'
  unfolding record_outcome
  record_outcome-Inv is_digest R now digest succeeded n d t h e =
      record_checked-Inv R now digest succeeded (check_tokens F n) (check_duration F d) t h
        (ground arith)

  snapshot_at-Inv :
      (R : Rounding F) (now : F.Carrier) (digest : ℕ) (t : RouteOutcomeTracker F)
      (o : Option (Windows F))
      → Inv t
      → Inv (snapshot_at F R now digest t o).1
  unfolding snapshot_at
  snapshot_at-Inv R now digest t none h = h
  snapshot_at-Inv R now digest t (some ws) h =
      elim (Bool-cases (is_stale F now t.window_seconds (current F ws))) [
        | inl stale ↦ rw stale (record {
          window_low = h.window_low;
          window_high = h.window_high;
          counted = Every-remove (AreCounted t.maximum_events) digest t.windows h.counted;
        })
        | inr kept ↦ rw kept h
      ]

  snapshot-Inv :
      (is_digest : ℕ → Bool) (R : Rounding F) (now : F.Carrier) (digest : ℕ)
      (t : RouteOutcomeTracker F)
      → Inv t
      → Inv (snapshot F is_digest R now digest t).1
  unfolding snapshot
  snapshot-Inv is_digest R now digest t h = elim (Bool-cases (is_digest digest)) [
    | inl digits ↦ rw digits (snapshot_at-Inv R now digest t (lookup digest t.windows) h)
    | inr none_such ↦ rw none_such h
  ]

  pub Reachable-Inv :
      (is_digest : ℕ → Bool) (R : Rounding F) (t : RouteOutcomeTracker F)
      → Reachable is_digest R t
      → Inv t
  Reachable-Inv is_digest R t (constructed window events h) = new_tracker-Inv window events h
  Reachable-Inv is_digest R t (recorded {t = t0} now digest succeeded n d before h) =
      record_outcome-Inv is_digest R now digest succeeded n d t0
        (Reachable-Inv is_digest R t0 before) h
  Reachable-Inv is_digest R t (read {t = t0} now digest before h) =
      subst Inv h (snapshot-Inv is_digest R now digest t0 (Reachable-Inv is_digest R t0 before))
