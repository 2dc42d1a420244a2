-- ===== src/Prelude/Floats.antt =====
-- Python's `float`, which the sources compute with and do not define: its operations are a
-- parameter. `Ordered` is what the code relies on, and holds of every IEEE 754 double, NaN included.
use Prim.Native.Nat.{ℕ, ◌+◌, ◌-◌, ◌*◌, ◌/◌, ◌≤◌}
use mathlib.Core.Path.{◌≡◌}
use mathlib.Core.Bool.{Bool, true, false}
use native.Mathlib.Omega.{arith}
use community_ai.Prelude.Tests.{ltb, leb, ◌==◌, if◌then◌else◌}

pub record Float : Type 1 where
  pub Carrier : Type 0
  -- float(n)
  pub of_ℕ : ℕ → Carrier
  pub add : Carrier → Carrier → Carrier
  pub sub : Carrier → Carrier → Carrier
  pub mul : Carrier → Carrier → Carrier
  pub div : Carrier → Carrier → Carrier
  -- x < y, x <= y, x == y, math.isfinite(x)
  pub lt : Carrier → Carrier → Bool
  pub le : Carrier → Carrier → Bool
  pub eq : Carrier → Carrier → Bool
  pub is_finite : Carrier → Bool

-- Documented facts of IEEE 754 comparison and subtraction, true of NaN and the infinities too.
pub record Ordered (F : Float) : Type 0 where
  pub lt_irrefl : (x : F.Carrier) → F.lt x x ≡ false
  pub lt_asymm : (x y : F.Carrier) → F.lt x y ≡ true → F.lt y x ≡ false
  -- Taking a non-negative amount off does not raise a number over a bound.
  pub sub_one_bound : (b x : F.Carrier) → F.lt b x ≡ false → F.lt b (F.sub x (F.of_ℕ 1)) ≡ false
  pub of_ℕ_bound : (m n : ℕ) → m ≤ n → F.lt (F.of_ℕ n) (F.of_ℕ m) ≡ false

-- min(a, b) is `b` only if it is smaller.
abbrev pub float_min : (F : Float) → F.Carrier → F.Carrier → F.Carrier
float_min F a b = if F.lt b a then b else a

pub float_min_bound :
    (F : Float) (laws : Ordered F) (b x : F.Carrier) → F.lt b (float_min F b x) ≡ false
float_min_bound F laws b x = ground (arith, laws.lt_irrefl b, laws.lt_asymm x b)

-- Whole numbers as floats: a concrete instance in which the facts hold.
abbrev pub whole : Float
whole = record {
  Carrier = ℕ;
  of_ℕ = λ n. n;
  add = λ a b. a + b;
  sub = λ a b. a - b;
  mul = λ a b. a * b;
  div = λ a b. a / b;
  lt = ltb;
  le = leb;
  eq = λ a b. a == b;
  is_finite = λ a. true;
}

pub whole-Ordered : Ordered whole
whole-Ordered = record {
  lt_irrefl = λ x. ground arith;
  lt_asymm = λ x y h. ground arith;
  sub_one_bound = λ b x h. ground arith;
  of_ℕ_bound = λ m n h. ground arith;
}
