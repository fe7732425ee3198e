-- ===== src/Common/Float.antt =====
-- What the program does with a Go `float64`, as an interface: the constants, the arithmetic and the
-- comparison of the order code, the value of an `int`, and the value that comes back from a column
-- of type DECIMAL(12,2). IEEE arithmetic is not implemented by the repository, so it is a parameter.
use service_oriented_hw.Common.Int.{ℤ}
use mathlib.Core.Path.{◌≡◌}
use mathlib.Core.Bool.{Bool, true, false}

pub record Float64 (V : Type 0) : Type 0 where
  pub zero : V
  pub hundred : V
  pub seven_tenths : V
  pub add : V → V → V
  pub mul : V → V → V
  pub div : V → V → V
  pub lt : V → V → Bool
  pub of_int : ℤ → V
  pub decimal_12_2 : V → V

-- The laws of IEEE 754 that the theorems use. They hold with NaN and infinities included, since a
-- comparison with NaN is false. `shrinks`: a value that is not below zero is not raised by a factor
-- of 0.7, so what lies above it lies above the product.
pub record IsIeee {V : Type 0} (f : Float64 V) : Type 0 where
  pub irrefl : (x : V) → f.lt x x ≡ false
  pub shrinks :
      (x y : V) → f.lt x f.zero ≡ false → f.lt x y ≡ true → f.lt (f.mul x f.seven_tenths) y ≡ true
