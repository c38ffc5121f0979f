-- ===== src/Python/Numerals.antt =====
-- `int(s)` on a text: the decimal numerals over ASCII that Python accepts.
use Prim.Native.Char.{code}
use mathlib.Core.List.{reverse}
use second_brain_art.Common.{
  ℕ, zero, suc, ◌+◌, ◌-◌, ◌*◌, Bool, true, false, ◌&&◌, ◌||◌, Option, none, some, List, [], ◌∷◌,
  String, ℤ, pos, negsuc, leb, ◌==◌, if◌then◌else◌,
}

abbrev pub codes : String → List ℕ
codes String.[] = []
codes (String.◌∷◌ c s) = code c ∷ codes s

abbrev is_space : ℕ → Bool
is_space c = c == 32 || (leb 9 c && leb c 13) || (leb 28 c && leb c 31)

abbrev is_digit : ℕ → Bool
is_digit c = leb 48 c && leb c 57

abbrev skip_spaces : List ℕ → List ℕ
skip_spaces [] = []
skip_spaces (c ∷ cs) = let rest = skip_spaces cs in if is_space c then rest else c ∷ cs

abbrev pub strip : List ℕ → List ℕ
strip cs = reverse (skip_spaces (reverse (skip_spaces cs)))

-- `s.lower()` over ASCII.
abbrev pub lower : List ℕ → List ℕ
lower [] = []
lower (c ∷ cs) = (if leb 65 c && leb c 90 then c + 32 else c) ∷ lower cs

-- `after` says that the last character read was a digit, so that an underscore may follow.
abbrev number : Bool → ℕ → List ℕ → Option ℕ
number after n [] = if after then some n else none
number after n (c ∷ cs) =
    let digit = number true (n * 10 + (c - 48)) cs in
    let underscore = number false n cs in
    if is_digit c then digit else if c == 95 && after then underscore else none

abbrev negate : ℕ → ℤ
negate zero = pos zero
negate (suc n) = negsuc n

abbrev signed : List ℕ → Option ℤ
signed [] = none
signed (c ∷ cs) =
    if c == 45
    then elim (number false 0 cs) [ none ↦ none | some n ↦ some (negate n) ]
    else if c == 43
    then elim (number false 0 cs) [ none ↦ none | some n ↦ some (pos n) ]
    else elim (number false 0 (c ∷ cs)) [ none ↦ none | some n ↦ some (pos n) ]

unfoldable pub int_of_text : String → Option ℤ
int_of_text s = signed (strip (codes s))
