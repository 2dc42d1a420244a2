-- ===== src/Admission/Routes.antt =====
-- Session routes, push slots, health and the snapshot of src/drift/server/admission.py.
-- SHA-256 is the parameter `digest`, from the bytes of an identity.
use community_ai.Prelude.{
  ℕ, ◌+◌, ◌-◌, Bool, true, false, not, ◌&&◌, ◌||◌, Option, none, some, List, [], ◌∷◌, ltb, leb,
  ◌==◌, if◌then◌else◌, length, lookup, put, remove, Float,
}
use community_ai.Admission.Policy.{AdmissionPolicy}
use community_ai.Admission.State.{
  Reply, ok, rejected, unavailable, overload, session_invalid, session_active, push_target,
  training_disabled, Route, GlobalRecord, State, is_healthy_locked, mark_unhealthy,
  mark_unhealthy_locked,
}

abbrev pub max_session_id_bytes : ℕ
max_session_id_bytes = 256

is_hex_digit : ℕ → Bool
is_hex_digit c = (leb b'0' c && leb c b'9') || (leb b'a' c && leb c b'f')

all_hex : List ℕ → Bool
unfolding is_hex_digit
all_hex [] = true
all_hex (c ∷ cs) = is_hex_digit c && all_hex cs

-- The shape that `_validated_route` asks of a token: 32 lower-case hexadecimal digits.
unfoldable pub is_route_token : List ℕ → Bool
unfolding all_hex
is_route_token token = length token == 32 && all_hex token

unfoldable pub same_token : List ℕ → List ℕ → Bool
same_token [] [] = true
same_token (a ∷ as') (b ∷ bs) = a == b && same_token as' bs
same_token _ _ = false

-- An identity as it arrives: the UTF-8 bytes of a string, or a value that has none.
pub data SessionId : Type 0 where
  text : List ℕ → SessionId
  not_text : SessionId

unfoldable pub session_key : (List ℕ → ℕ) → SessionId → Reply ℕ
session_key digest (text bytes) =
    if leb 1 (length bytes) && leb (length bytes) max_session_id_bytes
    then ok (digest bytes)
    else rejected session_invalid
session_key digest not_text = rejected session_invalid

pub record Snapshot : Type 0 where
  pub active_sessions : ℕ
  pub tracked_peers : ℕ
  pub active_session_routes : ℕ
  pub pending_pushes : ℕ
  pub accepted_sessions : ℕ
  pub rejected_sessions : ℕ
  pub is_healthy : Bool

module _ (F : Float) where
  -- Each operation on the table is written over what it reads from the table.
  unfoldable pub register_at :
      AdmissionPolicy F → ℕ → Route F → State F → Option (Route F) → Reply (ℕ × Route F) × State F
  register_at policy key route s (some _) = (rejected session_active, s)
  register_at policy key route s none =
      if leb policy.max_active_sessions (length s.sessions)
      then (rejected overload, s)
      else (ok (key, route), record s { sessions = put key route s.sessions })

  unfoldable pub register_key :
      AdmissionPolicy F → Bool → Reply ℕ → Route F → State F → Reply (ℕ × Route F) × State F
  register_key policy locked (rejected reason) route s = (rejected reason, s)
  register_key policy locked (ok key) route s =
      if not (is_route_token route.token && locked && is_healthy_locked F s)
      then (rejected unavailable, s)
      else register_at policy key route s (lookup key s.sessions)

  -- register_session; `route` holds the handler's index and the given or the created token
  unfoldable pub register_session :
      (List ℕ → ℕ)
      → AdmissionPolicy F
      → Bool
      → SessionId
      → Route F
      → State F
      → Reply (ℕ × Route F) × State F
  register_session digest policy locked session_id route s =
      register_key policy locked (session_key digest session_id) route s

  unfoldable pub unregister_at : ℕ → Route F → State F → Option (Route F) → State F
  unregister_at key route s none = mark_unhealthy_locked F s
  unregister_at key route s (some found) =
      if found.owner == route.owner && same_token found.token route.token
      then record s { sessions = remove key s.sessions }
      else mark_unhealthy_locked F s

  unfoldable pub unregister_session : Bool → Bool → ℕ → Route F → State F → State F
  unregister_session locked relocked key route s =
      if locked
      then unregister_at key route s (lookup key s.sessions)
      else mark_unhealthy F relocked s

  unfoldable pub resolve_at : State F → Option (Route F) → Reply (Option ℕ) × State F
  resolve_at s none = (ok none, s)
  resolve_at s (some route) =
      if is_route_token route.token
      then (ok (some route.owner), s)
      else (rejected unavailable, mark_unhealthy_locked F s)

  unfoldable pub resolve_key : Bool → Reply ℕ → State F → Reply (Option ℕ) × State F
  resolve_key locked (rejected reason) s = (rejected reason, s)
  resolve_key locked (ok key) s =
      if not (locked && is_healthy_locked F s)
      then (rejected unavailable, s)
      else resolve_at s (lookup key s.sessions)

  unfoldable pub resolve_session :
      (List ℕ → ℕ) → Bool → SessionId → State F → Reply (Option ℕ) × State F
  resolve_session digest locked session_id s = resolve_key locked (session_key digest session_id) s

  unfoldable pub reserve_pending :
      AdmissionPolicy F → State F → Option ℕ → Reply (Unit {0}) × State F
  reserve_pending policy s none = (rejected unavailable, mark_unhealthy_locked F s)
  reserve_pending policy s (some pending) =
      if leb policy.max_pending_pushes pending
      then (rejected overload, s)
      else (ok tt, record s { pending = some (pending + 1) })

  -- _reserve_push_locked
  unfoldable pub reserve_push_locked : AdmissionPolicy F → State F → Reply (Unit {0}) × State F
  reserve_push_locked policy s = reserve_pending policy s s.pending

  unfoldable pub reserve_outbound_push :
      AdmissionPolicy F → Bool → State F → Reply (Unit {0}) × State F
  reserve_outbound_push policy locked s =
      if not (locked && is_healthy_locked F s)
      then (rejected unavailable, s)
      else reserve_push_locked policy s

  -- The reservation, with the route as its value.
  unfoldable pub returning : Route F → Reply (Unit {0}) × State F → Reply (Route F) × State F
  returning route (ok _, s) = (ok route, s)
  returning route (rejected reason, s) = (rejected reason, s)

  unfoldable pub push_at :
      AdmissionPolicy F → State F → Option (Route F) → Reply (Route F) × State F
  push_at policy s none = (rejected push_target, s)
  push_at policy s (some route) =
      if is_route_token route.token
      then returning route (reserve_push_locked policy s)
      else (rejected unavailable, mark_unhealthy_locked F s)

  unfoldable pub push_key : AdmissionPolicy F → Bool → Reply ℕ → State F → Reply (Route F) × State F
  push_key policy locked (rejected reason) s = (rejected reason, s)
  push_key policy locked (ok key) s =
      if not (locked && is_healthy_locked F s)
      then (rejected unavailable, s)
      else push_at policy s (lookup key s.sessions)

  unfoldable pub reserve_push :
      (List ℕ → ℕ) → AdmissionPolicy F → Bool → SessionId → State F → Reply (Route F) × State F
  reserve_push digest policy locked session_id s =
      push_key policy locked (session_key digest session_id) s

  unfoldable pub release_pending : State F → Option ℕ → State F
  release_pending s none = mark_unhealthy_locked F s
  release_pending s (some pending) =
      if ltb pending 1 then mark_unhealthy_locked F s else record s { pending = some (pending - 1) }

  unfoldable pub release_push : Bool → Bool → State F → State F
  release_push locked relocked s =
      if locked then release_pending s s.pending else mark_unhealthy F relocked s

  unfoldable pub require_training_allowed : AdmissionPolicy F → Reply (Unit {0})
  require_training_allowed policy =
      if policy.allow_training_rpcs then ok tt else rejected training_disabled

  unfoldable pub require_healthy : Bool → State F → Reply (Unit {0})
  require_healthy locked s =
      if not s.health
      then rejected unavailable
      else if locked
      then (if is_healthy_locked F s then ok tt else rejected unavailable)
      else rejected unavailable

  unfoldable pub snapshot_of :
      Bool → State F → Option (GlobalRecord F) → Option ℕ → Reply Snapshot × State F
  snapshot_of relocked s none pending = (rejected unavailable, mark_unhealthy F relocked s)
  snapshot_of relocked s (some g) none = (rejected unavailable, mark_unhealthy_locked F s)
  snapshot_of relocked s (some g) (some pending) = (
    ok (record {
      active_sessions = g.active;
      tracked_peers = length s.peers;
      active_session_routes = length s.sessions;
      pending_pushes = pending;
      accepted_sessions = g.accepted;
      rejected_sessions = g.refused;
      is_healthy = is_healthy_locked F s;
    }),
    s,
  )

  unfoldable pub snapshot : Bool → Bool → State F → Reply Snapshot × State F
  snapshot locked relocked s =
      if locked then snapshot_of relocked s s.global s.pending else (rejected unavailable, s)
