-- ===== src/Prelude/Validation.antt =====
-- Validation that raises `ValueError`: the value, or the name of the field that was refused.
use Prim.Native.String.{String}
use mathlib.Core.Path.{◌≡◌, refl}
use mathlib.Core.Bool.{Bool, true, false}

pub data Checked {ℓ} (A : Type ℓ) : Type ℓ where
  valid : A → Checked A
  value_error : String → Checked A

infixl 5 ◌>>=◌ ◌>>◌
abbrev pub ◌>>=◌ {ℓ κ} : {A : Type ℓ} {B : Type κ} → Checked A → (A → Checked B) → Checked B
valid a >>= f = f a
value_error e >>= f = value_error e

abbrev pub ◌>>◌ {ℓ} : {B : Type ℓ} → Checked (Unit {0}) → Checked B → Checked B
m >> k = m >>= λ _. k

-- `if not b: raise ValueError`
abbrev pub require : Bool → String → Checked (Unit {0})
require true e = valid tt
require false e = value_error e

pub >>=-eq-valid {ℓ κ} :
    {A : Type ℓ} {B : Type κ} (m : Checked A) (f : A → Checked B) {b : B}
    → (m >>= f) ≡ valid b
    → (a : A) × (m ≡ valid a) × (f a ≡ valid b)
>>=-eq-valid (valid a) f h = (a, refl, h)
>>=-eq-valid (value_error e) f h = cc

pub >>-eq-valid {ℓ} :
    {B : Type ℓ} (t : Bool) (e : String) (k : Checked B) {b : B}
    → (require t e >> k) ≡ valid b
    → (t ≡ true) × (k ≡ valid b)
>>-eq-valid true e k h = (refl, h)
>>-eq-valid false e k h = cc
