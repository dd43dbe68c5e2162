-- ===== src/Prelude/Int.antt =====
-- Python's `int` and `float` as exact values. `negsuc n` is -(n + 1). A finite `float` is a
-- dyadic fraction, so it is an integer over a power of two; Python compares the two kinds of number
-- by their exact values, and every comparison with a NaN is false.
use Prim.Native.Nat.{ℕ, suc, ◌-◌, ◌*◌, ◌^◌}
use mathlib.Core.Bool.{Bool, true, false}
use kelvin_assistant.Prelude.Tests.{ltb}

pub data ℤ : Type 0 where
  pos : ℕ → ℤ
  negsuc : ℕ → ℤ

-- a < b
unfoldable pub ltb_ℤ : ℤ → ℤ → Bool
ltb_ℤ (pos m) (pos n) = ltb m n
ltb_ℤ (pos m) (negsuc n) = false
ltb_ℤ (negsuc m) (pos n) = true
ltb_ℤ (negsuc m) (negsuc n) = ltb n m

-- a * 2 ^ k
unfoldable pub scale : ℤ → ℕ → ℤ
scale (pos m) k = pos (m * 2 ^ k)
scale (negsuc m) k = negsuc (suc m * 2 ^ k - 1)

pub data Float : Type 0 where
  nan : Float
  inf neg_inf : Float
  -- `dyadic m k` is m / 2 ^ k
  dyadic : ℤ → ℕ → Float

-- An `int` or a `float`, as a number.
pub data Number : Type 0 where
  int : ℤ → Number
  float : Float → Number

unfoldable pub to_float : Number → Float
to_float (int m) = dyadic m 0
to_float (float x) = x

unfoldable pub ltb_float : Float → Float → Bool
unfolding ltb_ℤ scale
ltb_float nan y = false
ltb_float x nan = false
ltb_float inf y = false
ltb_float neg_inf neg_inf = false
ltb_float neg_inf y = true
ltb_float (dyadic m k) inf = true
ltb_float (dyadic m k) neg_inf = false
ltb_float (dyadic m k) (dyadic n l) = ltb_ℤ (scale m l) (scale n k)

-- `a < b`
unfoldable pub ltb_number : Number → Number → Bool
unfolding ltb_float to_float
ltb_number a b = ltb_float (to_float a) (to_float b)
