-- ===== src/Common/Int.antt =====
-- Python's integers: a sign and a native number. `negsuc n` is -(n + 1).
use Prim.Native.Nat.{ℕ}
use mathlib.Core.Path.{◌≡◌}
use mathlib.Core.Bool.{Bool, true, false}
use mathlib.Core.Option.{Option, none, some}
use native.Mathlib.Omega.{arith}
use second_brain_art.Common.Tests.{◌==◌, ltb, if◌then◌else◌}

pub data ℤ : Type 0 where
  pos : ℕ → ℤ
  negsuc : ℕ → ℤ

abbrev pub int_eq : ℤ → ℤ → Bool
int_eq (pos a) (pos b) = a == b
int_eq (negsuc a) (negsuc b) = a == b
int_eq _ _ = false

-- The test `0 <= i < n`, with the index it lets through.
abbrev pub in_range : ℤ → ℕ → Option ℕ
in_range (pos i) n = if ltb i n then some i else none
in_range (negsuc i) n = none

pub int_eq_refl : (z : ℤ) → int_eq z z ≡ true
int_eq_refl (pos n) = ground arith
int_eq_refl (negsuc n) = ground arith
