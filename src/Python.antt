-- ===== src/Python.antt =====
-- The dynamic values that the program stores and tests: what `Any` ranges over in the payloads of
-- canvas/action.py, with Python's truth test, `==`, `isinstance(_, int)` and `int(_)`; and dicts.
pub mod Numerals
pub mod Dict
pub mod Sets
pub mod Worklist
use second_brain_art.Common.{
  ℕ, ◌≡◌, refl, Bool, true, false, not, ◌&&◌, Option, none, some, String, ℤ, pos, negsuc, int_eq,
  int_eq_refl, str_eq, eq_iff, ◌==◌, if◌then◌else◌, arith,
}
use Numerals.{int_of_text}

-- An object of any other class (a float, a list, a dict), as the program can observe it: which
-- value it is up to `==`, the integer it equals if it equals one, and what `bool` and `int` give.
pub data Conversion : Type 0 where
  converted : ℤ → Conversion
  refused overflowed : Conversion

pub record Obj : Type 0 where
  pub ident : ℕ
  pub integral : Option ℤ
  pub truth : Bool
  pub as_int : Conversion

pub data Value : Type 0 where
  null : Value
  bool : Bool → Value
  int : ℤ → Value
  text : String → Value
  other : Obj → Value

-- `bool(v)`
abbrev pub truthy : Value → Bool
truthy null = false
truthy (bool b) = b
truthy (int z) = not (int_eq z (pos 0))
truthy (text s) = not (str_eq s "")
truthy (other o) = o.truth

abbrev pub bit : Bool → ℤ
bit true = pos 1
bit false = pos 0

-- `v if isinstance(v, int)`: a `bool` is an `int`.
abbrev pub as_index : Value → Option ℤ
as_index (bool b) = some (bit b)
as_index (int z) = some z
as_index _ = none

-- `int(v)`: `refused` is a TypeError or a ValueError, `overflowed` an OverflowError.
unfoldable pub int_of : Value → Conversion
unfolding int_of_text
int_of null = refused
int_of (bool b) = converted (bit b)
int_of (int z) = converted z
int_of (text s) = elim (int_of_text s) [ none ↦ refused | some z ↦ converted z ]
int_of (other o) = o.as_int

-- The integer that a value equals, if there is one.
abbrev numeric : Value → Option ℤ
numeric (bool b) = some (bit b)
numeric (int z) = some z
numeric (other o) = o.integral
numeric _ = none

abbrev same_object : Value → Value → Bool
same_object null null = true
same_object (text s) (text t) = str_eq s t
same_object (other o) (other p) = o.ident == p.ident
same_object _ _ = false

abbrev compare_numeric : Option ℤ → Option ℤ → Bool → Bool
compare_numeric (some a) (some b) r = int_eq a b
compare_numeric none none r = r
compare_numeric _ _ r = false

-- `v == w`: numbers compare by value across `bool`, `int` and integral objects.
unfoldable pub value_eq : Value → Value → Bool
value_eq v w = compare_numeric (numeric v) (numeric w) (same_object v w)

compare_numeric_refl : (o : Option ℤ) (r : Bool) → r ≡ true → compare_numeric o o r ≡ true
compare_numeric_refl none r h = h
compare_numeric_refl (some z) r h = int_eq_refl z

same_object_refl : (o : Obj) → same_object (other o) (other o) ≡ true
same_object_refl o = ground arith

pub value_eq_refl : (v : Value) → value_eq v v ≡ true
unfolding value_eq
value_eq_refl null = refl
value_eq_refl (bool b) = int_eq_refl (bit b)
value_eq_refl (int z) = int_eq_refl z
value_eq_refl (text s) = (eq_iff s s).1 refl
value_eq_refl (other o) = compare_numeric_refl o.integral _ (same_object_refl o)

-- `int` accepts spaces around, a sign, and underscores between digits.
int_of-examples :
    (int_of (text " -12 ") ≡ converted (negsuc 11))
    × (int_of (text "1_0") ≡ converted (pos 10))
    × (int_of (text "1__0") ≡ refused)
    × (int_of (text "") ≡ refused)
unfolding int_of
int_of-examples = (refl, refl, refl, refl)
