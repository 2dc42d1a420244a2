-- ===== src/Admission/Registration.antt =====
-- Registering, resolving and unregistering a session route of src/drift/server/admission.py.
use community_ai.Prelude.{
  ℕ, ◌<◌, ◌≡◌, refl, inl, inr, Bool, true, ◌&&◌, Option, none, some, List, [], ◌∷◌, arith, leb,
  Bool-cases, length, lookup, put, lookup-put_self, remove-put_new, Float,
}
use community_ai.Admission.Policy.{AdmissionPolicy}
use community_ai.Admission.State.{Reply, ok, rejected, Route, State, is_healthy_locked}
use community_ai.Admission.Routes.{
  SessionId, session_key, is_route_token, same_token, register_at, register_key, register_session,
  unregister_at, unregister_session, resolve_at, resolve_key, resolve_session,
}

same_token_refl : (t : List ℕ) → same_token t t ≡ true
unfolding same_token
same_token_refl [] = refl
same_token_refl (c ∷ t) = ground (arith, same_token_refl t)

module _ (F : Float) (policy : AdmissionPolicy F) where
  -- The state in which the route stands, and what stood in its way.
  record Registered (k : Reply ℕ) (route : Route F) (s t : State F) (key : ℕ) : Type 0 where
    at_key : k ≡ ok key
    token : is_route_token route.token ≡ true
    healthy : is_healthy_locked F s ≡ true
    absent : lookup key s.sessions ≡ none
    room : length s.sessions < policy.max_active_sessions
    after : t ≡ record s { sessions = put key route s.sessions }

  register_at-Registered :
      (key : ℕ) (route : Route F) (s : State F) (o : Option (Route F)) (key' : ℕ) (route' : Route F)
      → lookup key s.sessions ≡ o
      → is_route_token route.token ≡ true
      → is_healthy_locked F s ≡ true
      → (register_at F policy key route s o).0 ≡ ok (key', route')
      → Registered (ok key) route s (register_at F policy key route s o).1 key'
  unfolding register_at
  register_at-Registered key route s (some x) key' route' e t h g = absurd (cc)
  register_at-Registered key route s none key' route' e t h g =
      elim (Bool-cases (leb policy.max_active_sessions (length s.sessions))) [
        | inl full ↦ absurd (ground arith)
        | inr room ↦ ground arith
      ]

  register_key-Registered :
      (locked : Bool) (k : Reply ℕ) (route : Route F) (s : State F) (key : ℕ) (route' : Route F)
      → (register_key F policy locked k route s).0 ≡ ok (key, route')
      → Registered k route s (register_key F policy locked k route s).1 key
  unfolding register_key
  register_key-Registered locked (rejected r) route s key route' g = absurd (cc)
  register_key-Registered locked (ok key') route s key route' g =
      elim (Bool-cases (is_route_token route.token && locked && is_healthy_locked F s)) [
        | inr ill ↦ absurd (ground arith)
        | inl well ↦ rw well (
            register_at-Registered key' route s (lookup key' s.sessions) key route' refl
              (ground arith) (ground arith) (ground arith))
      ]

  healthy-sessions :
      (s : State F) (t : List (ℕ × Route F))
      → is_healthy_locked F (record s { sessions = t }) ≡ is_healthy_locked F s
  unfolding is_healthy_locked
  healthy-sessions s t = refl

  resolve_registered :
      (key : ℕ) (route : Route F) (s : State F)
      → is_route_token route.token ≡ true
      → is_healthy_locked F s ≡ true
      → (resolve_key F true (ok key) (record s { sessions = put key route s.sessions })).0
        ≡ ok (some route.owner)
  unfolding resolve_key resolve_at
  resolve_registered key route s t h =
      rw (healthy-sessions, h, lookup-put_self key route s.sessions, resolve_at, t)

  unregister_registered :
      (relocked : Bool) (key : ℕ) (route : Route F) (s : State F)
      → lookup key s.sessions ≡ none
      → unregister_session F true relocked key route
          (record s { sessions = put key route s.sessions })
        ≡ s
  unfolding unregister_session unregister_at
  unregister_registered relocked key route s e =
      rw (lookup-put_self key route s.sessions, unregister_at)
        (ground (arith, same_token_refl route.token, remove-put_new key route s.sessions e))

  -- If `register_session` returns a route, then the same identity resolves to the handler that
  -- registered it, and unregistering that exact route brings back the state from before.
  pub register-resolve :
      (digest : List ℕ → ℕ) (locked relocked : Bool) (i : SessionId) (route : Route F) (s : State F)
      (key : ℕ) (route' : Route F)
      → (register_session F digest policy locked i route s).0 ≡ ok (key, route')
      → let t = (register_session F digest policy locked i route s).1 in
        ((resolve_session F digest true i t).0 ≡ ok (some route.owner))
        × (unregister_session F true relocked key route t ≡ s)
  unfolding register_session resolve_session
  register-resolve digest locked relocked i route s key route' g =
      let r = register_key-Registered locked (session_key digest i) route s key route' g in
      rw (r.after, r.at_key)
        (
          resolve_registered key route s r.token r.healthy,
          unregister_registered relocked key route s r.absent,
        )
