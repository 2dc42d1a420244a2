-- ===== src/Admission/Policy.antt =====
-- `AdmissionPolicy` of src/drift/server/admission.py and its `__post_init__`.
use Prim.Native.String.{String}
use community_ai.Prelude.{
  ℕ, ◌≡◌, ◌≤◌, ◌⊎◌, inl, inr, subst, Bool-cases, Bool, true, false, ◌&&◌, not, leb, ltb,
  if◌then◌else◌, arith, Float, Value, int, boolean, float, Checked, valid, value_error, ◌>>=◌, ◌>>◌,
  require, >>=-eq-valid,
}

abbrev pub max_active_sessions_limit : ℕ
max_active_sessions_limit = 128

abbrev pub max_session_burst_limit : ℕ
max_session_burst_limit = 1024

abbrev pub max_session_rate_limit : ℕ
max_session_rate_limit = 1024

abbrev pub max_tracked_peers_limit : ℕ
max_tracked_peers_limit = 65536

abbrev pub max_tracked_peer_ttl_limit : ℕ
max_tracked_peer_ttl_limit = 86400

abbrev pub max_pending_pushes_limit : ℕ
max_pending_pushes_limit = 64

module _ (F : Float) where
  -- The fields as a caller passes them.
  pub record PolicyArgs : Type 0 where
    pub max_active_sessions : Value F
    pub max_active_sessions_per_peer : Value F
    pub global_session_rate : Value F
    pub global_session_burst : Value F
    pub peer_session_rate : Value F
    pub peer_session_burst : Value F
    pub max_tracked_peers : Value F
    pub tracked_peer_ttl : Value F
    pub max_pending_pushes : Value F
    pub allow_training_rpcs : Value F

  -- The fields of a policy that was constructed. A rate that was passed as an `int` is read as the
  -- float that the arithmetic on it uses.
  pub record AdmissionPolicy : Type 0 where
    pub max_active_sessions : ℕ
    pub max_active_sessions_per_peer : ℕ
    pub global_session_rate : F.Carrier
    pub global_session_burst : ℕ
    pub peer_session_rate : F.Carrier
    pub peer_session_burst : ℕ
    pub max_tracked_peers : ℕ
    pub tracked_peer_ttl : F.Carrier
    pub max_pending_pushes : ℕ
    pub allow_training_rpcs : Bool

  unfoldable pub check_integer : String → ℕ → Value F → Checked ℕ
  check_integer name upper (int n) = if leb 1 n && leb n upper then valid n else value_error name
  check_integer name upper _ = value_error name

  unfoldable pub check_number : String → ℕ → Value F → Checked F.Carrier
  check_number name upper (int n) =
      if ltb 0 n && leb n upper then valid (F.of_ℕ n) else value_error name
  check_number name upper (float x) =
      if F.is_finite x && (F.lt (F.of_ℕ 0) x && F.le x (F.of_ℕ upper))
      then valid x
      else value_error name
  check_number name upper _ = value_error name

  unfoldable pub check_boolean : String → Value F → Checked Bool
  check_boolean name (boolean b) = valid b
  check_boolean name _ = value_error name

  -- The checks between fields, after those of each field.
  unfoldable pub check_policy : AdmissionPolicy → Checked AdmissionPolicy
  check_policy p = do
    require (leb p.max_active_sessions_per_peer p.max_active_sessions)
        "max_active_sessions_per_peer"
    require (leb p.max_active_sessions p.max_tracked_peers) "max_tracked_peers"
    require
        (not (F.lt p.tracked_peer_ttl (F.div (F.of_ℕ p.peer_session_burst) p.peer_session_rate)))
        "tracked_peer_ttl"
    valid p

  -- AdmissionPolicy(...), in the order of the checks in `__post_init__`
  unfoldable pub post_init : PolicyArgs → Checked AdmissionPolicy
  post_init args = do
    sessions ←
        check_integer "max_active_sessions" max_active_sessions_limit args.max_active_sessions
    per_peer ←
        check_integer "max_active_sessions_per_peer" max_active_sessions_limit
          args.max_active_sessions_per_peer
    burst ← check_integer "global_session_burst" max_session_burst_limit args.global_session_burst
    peer_burst ← check_integer "peer_session_burst" max_session_burst_limit args.peer_session_burst
    tracked ← check_integer "max_tracked_peers" max_tracked_peers_limit args.max_tracked_peers
    pushes ← check_integer "max_pending_pushes" max_pending_pushes_limit args.max_pending_pushes
    rate ← check_number "global_session_rate" max_session_rate_limit args.global_session_rate
    peer_rate ← check_number "peer_session_rate" max_session_rate_limit args.peer_session_rate
    ttl ← check_number "tracked_peer_ttl" max_tracked_peer_ttl_limit args.tracked_peer_ttl
    training ← check_boolean "allow_training_rpcs" args.allow_training_rpcs
    check_policy (record {
      max_active_sessions = sessions;
      max_active_sessions_per_peer = per_peer;
      global_session_rate = rate;
      global_session_burst = burst;
      peer_session_rate = peer_rate;
      peer_session_burst = peer_burst;
      max_tracked_peers = tracked;
      tracked_peer_ttl = ttl;
      max_pending_pushes = pushes;
      allow_training_rpcs = training;
    })

  -- push_queue_capacity
  pub push_queue_capacity : AdmissionPolicy → ℕ
  push_queue_capacity p = p.max_pending_pushes

  -- A number above 0 and not above a maximum: a finite float, or the float of an `int`.
  abbrev pub IsNumber : ℕ → F.Carrier → Type 0
  IsNumber upper x =
      ((F.is_finite x ≡ true) × (F.lt (F.of_ℕ 0) x ≡ true) × (F.le x (F.of_ℕ upper) ≡ true))
      ⊎ ((n : ℕ) × (x ≡ F.of_ℕ n) × (1 ≤ n) × (n ≤ upper))

  -- What a constructed policy guarantees.
  pub record IsBounded (p : AdmissionPolicy) : Type 0 where
    pub sessions_pos : 1 ≤ p.max_active_sessions
    pub sessions_bound : p.max_active_sessions ≤ max_active_sessions_limit
    pub per_peer_pos : 1 ≤ p.max_active_sessions_per_peer
    pub per_peer_bound : p.max_active_sessions_per_peer ≤ p.max_active_sessions
    pub burst_pos : 1 ≤ p.global_session_burst
    pub burst_bound : p.global_session_burst ≤ max_session_burst_limit
    pub peer_burst_pos : 1 ≤ p.peer_session_burst
    pub peer_burst_bound : p.peer_session_burst ≤ max_session_burst_limit
    pub tracked_bound : p.max_tracked_peers ≤ max_tracked_peers_limit
    pub tracked_room : p.max_active_sessions ≤ p.max_tracked_peers
    pub pushes_pos : 1 ≤ p.max_pending_pushes
    pub pushes_bound : p.max_pending_pushes ≤ max_pending_pushes_limit
    pub global_rate_range : IsNumber max_session_rate_limit p.global_session_rate
    pub peer_rate_range : IsNumber max_session_rate_limit p.peer_session_rate
    pub ttl_range : IsNumber max_tracked_peer_ttl_limit p.tracked_peer_ttl
    pub ttl_covers :
        F.lt p.tracked_peer_ttl (F.div (F.of_ℕ p.peer_session_burst) p.peer_session_rate) ≡ false

  check_integer_bounds :
      (name : String) (upper : ℕ) (v : Value F) (n : ℕ)
      → check_integer name upper v ≡ valid n
      → (1 ≤ n) × (n ≤ upper)
  unfolding check_integer
  check_integer_bounds name upper (int n) m h = ground arith
  check_integer_bounds name upper _ m h = absurd (cc)

  check_number_range :
      (name : String) (upper : ℕ) (v : Value F) (x : F.Carrier)
      → check_number name upper v ≡ valid x
      → IsNumber upper x
  unfolding check_number
  check_number_range name upper (int n) x h = elim (Bool-cases (ltb 0 n && leb n upper)) [
    | inl fits ↦ inr (n, ground arith, ground arith, ground arith)
    | inr unfit ↦ absurd (ground arith)
  ]
  check_number_range name upper (float y) x h =
      elim (Bool-cases (F.is_finite y && (F.lt (F.of_ℕ 0) y && F.le y (F.of_ℕ upper)))) [
        | inl fits ↦
            (let same : y ≡ x = ground arith in
              subst (IsNumber upper) same (inl (ground arith, ground arith, ground arith)))
        | inr unfit ↦ absurd (ground arith)
      ]
  check_number_range name upper _ x h = absurd (cc)

  check_policy-IsBounded :
      (p q : AdmissionPolicy)
      → (1 ≤ p.max_active_sessions) × (p.max_active_sessions ≤ max_active_sessions_limit)
      → (1 ≤ p.max_active_sessions_per_peer)
        × (p.max_active_sessions_per_peer ≤ max_active_sessions_limit)
      → (1 ≤ p.global_session_burst) × (p.global_session_burst ≤ max_session_burst_limit)
      → (1 ≤ p.peer_session_burst) × (p.peer_session_burst ≤ max_session_burst_limit)
      → (1 ≤ p.max_tracked_peers) × (p.max_tracked_peers ≤ max_tracked_peers_limit)
      → (1 ≤ p.max_pending_pushes) × (p.max_pending_pushes ≤ max_pending_pushes_limit)
      → IsNumber max_session_rate_limit p.global_session_rate
      → IsNumber max_session_rate_limit p.peer_session_rate
      → IsNumber max_tracked_peer_ttl_limit p.tracked_peer_ttl
      → check_policy p ≡ valid q
      → IsBounded q
  unfolding check_policy
  check_policy-IsBounded p q a b c d e f rate peer_rate ttl h = ground arith

  -- A policy that passes the checks of `__post_init__` has every count between 1 and its
  -- maximum, both rates and the time to live above 0, finite and not above theirs, no more sessions for
  -- one peer than for all, room for a record of each active session's peer, and keeps an idle peer's
  -- record at least as long as its token bucket takes to fill.
  pub post_init-IsBounded :
      (args : PolicyArgs) (p : AdmissionPolicy) → post_init args ≡ valid p → IsBounded p
  unfolding post_init
  post_init-IsBounded args p h =
      let (sessions, h1, r1) = >>=-eq-valid _ _ h in
      let (per_peer, h2, r2) = >>=-eq-valid _ _ r1 in
      let (burst, h3, r3) = >>=-eq-valid _ _ r2 in
      let (peer_burst, h4, r4) = >>=-eq-valid _ _ r3 in
      let (tracked, h5, r5) = >>=-eq-valid _ _ r4 in
      let (pushes, h6, r6) = >>=-eq-valid _ _ r5 in
      let (rate, h7, r7) =
        >>=-eq-valid
          (check_number "global_session_rate" max_session_rate_limit args.global_session_rate) _
          r6 in
      let (peer_rate, h8, r8) =
        >>=-eq-valid
          (check_number "peer_session_rate" max_session_rate_limit args.peer_session_rate) _ r7 in
      let (ttl, h9, r9) =
        >>=-eq-valid
          (check_number "tracked_peer_ttl" max_tracked_peer_ttl_limit args.tracked_peer_ttl) _ r8 in
      let (training, h10, r10) =
        >>=-eq-valid (check_boolean "allow_training_rpcs" args.allow_training_rpcs) _ r9 in
      check_policy-IsBounded _ p (check_integer_bounds _ _ _ _ h1) (check_integer_bounds _ _ _ _ h2)
        (check_integer_bounds _ _ _ _ h3) (check_integer_bounds _ _ _ _ h4)
        (check_integer_bounds _ _ _ _ h5) (check_integer_bounds _ _ _ _ h6)
        (check_number_range _ _ _ _ h7) (check_number_range _ _ _ _ h8)
        (check_number_range _ _ _ _ h9) r10
