-- ===== src/Prelude/Values.antt =====
-- A value of Python as a validator meets it: `bool` is told from `int`, and what is neither a
-- number nor a truth value is `other`.
use Prim.Native.Nat.{ℕ}
use mathlib.Core.Bool.{Bool}
use community_ai.Prelude.Floats.{Float}

pub data Value (F : Float) : Type 0 where
  boolean : Bool → Value F
  int : ℕ → Value F
  -- `negative n` is -(n + 1)
  negative : ℕ → Value F
  float : F.Carrier → Value F
  other : Value F
