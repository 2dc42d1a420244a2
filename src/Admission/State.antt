-- ===== src/Admission/State.antt =====
-- State of src/drift/server/admission.py: what the workers share, and its health.
-- The two kinds of dictionary keys with a prefix are two dictionaries here; a SHA-256 digest is the
-- number that it writes in hexadecimal, so that the order of keys is the order of numbers.
-- A call takes what it reads from outside: the clock and whether the lock was got in time.
-- `acquire` and `release` also take whether the lock was let go without an exception.
use community_ai.Prelude.{
  ◌≡◌, refl, ◌⊎◌, inl, inr, ℕ, Bool, true, false, ◌&&◌, Option, none, some, List, [], if◌then◌else◌,
  Float,
}
use community_ai.Admission.Policy.{AdmissionPolicy}

pub data Reason : Type 0 where
  unavailable overload session_invalid session_active push_target training_disabled : Reason

-- The value that a call returns, or the `AdmissionRejected` that it raises.
pub data Reply {ℓ} (A : Type ℓ) : Type ℓ where
  ok : A → Reply A
  rejected : Reason → Reply A

module _ (F : Float) where
  -- What the call of `self._clock()` does: a finite number, another value, or an exception.
  pub data Clock : Type 0 where
    reading : F.Carrier → Clock
    not_finite fault : Clock

  -- `locked` and `relocked` tell whether the first and the second wait for the lock succeed,
  -- `unlocked` whether the first lock is let go without an exception.
  pub record Env : Type 0 where
    pub clock : Clock
    pub locked : Bool
    pub unlocked : Bool
    pub relocked : Bool

  pub record GlobalRecord : Type 0 where
    pub active : ℕ
    pub tokens : F.Carrier
    pub updated : F.Carrier
    pub accepted : ℕ
    pub refused : ℕ
    pub healthy : Bool

  pub record PeerRecord : Type 0 where
    pub active : ℕ
    pub tokens : F.Carrier
    pub updated : F.Carrier
    pub last_seen : F.Carrier

  -- A handler's index and the 32 hexadecimal digits of a route token, as code points.
  pub record Route : Type 0 where
    pub owner : ℕ
    pub token : List ℕ

  -- `none` is a missing or a damaged entry.
  pub record State : Type 0 where
    pub health : Bool
    pub global : Option GlobalRecord
    pub pending : Option ℕ
    pub peers : List (ℕ × PeerRecord)
    pub sessions : List (ℕ × Route)

  -- __init__ on an empty dictionary
  unfoldable pub init : AdmissionPolicy F → F.Carrier → State
  init policy now = record {
    health = true;
    global = some (record {
      active = 0;
      tokens = F.of_ℕ policy.global_session_burst;
      updated = now;
      accepted = 0;
      refused = 0;
      healthy = true;
    });
    pending = some 0;
    peers = [];
    sessions = [];
  }

  unfoldable pub is_healthy_locked : State → Bool
  is_healthy_locked s = elim s.global [ none ↦ false | some g ↦ s.health && g.healthy ]

  damaged : Option GlobalRecord → GlobalRecord
  damaged (some g) = record g { healthy = false }
  damaged none = record {
    active = 0;
    tokens = F.of_ℕ 0;
    updated = F.of_ℕ 0;
    accepted = 0;
    refused = 0;
    healthy = false;
  }

  unfoldable pub mark_unhealthy_locked : State → State
  unfolding damaged
  mark_unhealthy_locked s = record s { health = false; global = some (damaged s.global) }

  -- The health key is written before the lock is waited for.
  unfoldable pub mark_unhealthy : Bool → State → State
  unfolding mark_unhealthy_locked
  mark_unhealthy relocked s =
      let poisoned = record s { health = false } in
      if relocked then mark_unhealthy_locked poisoned else poisoned

  pub Clock-cases :
      (c : Clock) → (c ≡ not_finite) ⊎ (c ≡ fault) ⊎ ((now : F.Carrier) × (c ≡ reading now))
  Clock-cases (reading now) = inr (inr (now, refl))
  Clock-cases not_finite = inl refl
  Clock-cases fault = inr (inl refl)
