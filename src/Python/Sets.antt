-- ===== src/Python/Sets.antt =====
-- Python's sets and lists of texts, as far as the program tests, adds and removes members.
use second_brain_art.Common.{
  ◌≡◌, refl, Bool, true, false, ◌||◌, List, [], ◌∷◌, ◌++◌, String, str_eq, eq_iff, if◌then◌else◌,
  arith,
}

-- `key in keys`
unfoldable pub is_in : String → List String → Bool
is_in key [] = false
is_in key (k ∷ keys) = let rest = is_in key keys in if str_eq k key then true else rest

-- `keys.discard(key)`
unfoldable pub discard : String → List String → List String
discard key [] = []
discard key (k ∷ keys) = let rest = discard key keys in if str_eq k key then rest else k ∷ rest

-- `keys.add(key)`
unfoldable pub add : String → List String → List String
add key keys = if is_in key keys then keys else keys ++ (key ∷ [])

pub is_in-append :
    (key : String) (xs ys : List String) → is_in key (xs ++ ys) ≡ (is_in key xs || is_in key ys)
unfolding is_in
is_in-append key [] ys = refl
is_in-append key (x ∷ xs) ys = ground (arith, is_in-append key xs ys)

pub is_in-add :
    (k key : String) (keys : List String)
    → is_in key (add k keys) ≡ (if str_eq k key then true else is_in key keys)
unfolding add is_in
is_in-add k key keys = ground (arith, eq_iff k key, is_in-append key keys (k ∷ []))
