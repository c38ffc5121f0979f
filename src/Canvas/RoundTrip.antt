-- ===== src/Canvas/RoundTrip.antt =====
-- `Canvas.from_dict` after `Canvas.to_dict`, of canvas/canvas.py.
use second_brain_art.Common.{ℕ, zero, suc, ◌≡◌, refl, some, List, [], ◌∷◌, String, All, arith}
use second_brain_art.Canvas.Chain.{default_size, Layer, Canvas}
use second_brain_art.Canvas.Restore.{
  to_dict, from_dict, backfill, number_or, text_or, list_or, default_palette_id,
}
use second_brain_art.Canvas.Wellformed.{IsSoundLayer, IsSoundCanvas, IsFilled, IsSize}

number_or-filled : (n d : ℕ) → IsSize n → number_or (some n) d ≡ n
number_or-filled n d h = ground arith

text_or-filled : (s d : String) → IsFilled s → text_or (some s) d ≡ s
text_or-filled s d h = rw h

list_or_self {ℓ} : {A : Type ℓ} (xs : List A) → list_or (some xs) [] ≡ xs
list_or_self [] = refl
list_or_self (x ∷ xs) = refl

id-kept :
    (n i : ℕ) (fresh : ℕ → String) (l : Layer)
    → IsSoundLayer n l
    → some (text_or l.id (fresh i)) ≡ l.id
id-kept n i fresh l h = ground arith

backfill_sound :
    (n i : ℕ) (fresh : ℕ → String) (ls : List Layer)
    → All (IsSoundLayer n) ls
    → backfill fresh i ls ≡ ls
unfolding backfill
backfill_sound n i fresh [] h = refl
backfill_sound n i fresh (l ∷ ls) h =
    λ j. record l { id = id-kept n i fresh l h.0 j } ∷ backfill_sound n (suc i) fresh ls h.1 j

-- Reading back what a sound canvas was written as gives that canvas, whatever ids are minted.
pub from_dict-to_dict :
    (fresh : ℕ → String) (n : ℕ) (c : Canvas)
    → IsSoundCanvas n c
    → from_dict fresh (some (to_dict c)) ≡ c
unfolding from_dict to_dict
from_dict-to_dict fresh n c s = λ j. record {
  width = number_or-filled c.width default_size s.width j;
  height = number_or-filled c.height default_size s.height j;
  palette_id = text_or-filled c.palette_id default_palette_id s.palette j;
  layers = layers j;
}
  where
    layers : backfill fresh zero (list_or (some c.layers) []) ≡ c.layers
    layers = rw list_or_self (backfill_sound n zero fresh c.layers s.layers)
