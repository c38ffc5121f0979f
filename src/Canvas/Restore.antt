-- ===== src/Canvas/Restore.antt =====
-- `Canvas.to_dict` and `Canvas.from_dict` of canvas/canvas.py.
use second_brain_art.Common.{
  ℕ, zero, suc, Option, none, some, List, [], ◌∷◌, String, str_eq, ◌==◌, if◌then◌else◌,
}
use second_brain_art.Canvas.Chain.{Canvas, Layer, default_size}

-- The keys that `from_dict` reads; `size` and `last_chain` are legacy.
pub record CanvasData : Type 0 where
  pub width : Option ℕ
  pub height : Option ℕ
  pub size : Option ℕ
  pub palette_id : Option String
  pub layers : Option (List Layer)
  pub last_chain : Option (List Layer)

unfoldable pub to_dict : Canvas → CanvasData
to_dict c = record {
  width = some c.width;
  height = some c.height;
  size = none;
  palette_id = some c.palette_id;
  layers = some c.layers;
  last_chain = none;
}

-- `o or d`, on a number, a text and a list.
abbrev pub number_or : Option ℕ → ℕ → ℕ
number_or none d = d
number_or (some n) d = if n == 0 then d else n

abbrev pub text_or : Option String → String → String
text_or none d = d
text_or (some s) d = if str_eq s "" then d else s

abbrev pub list_or {ℓ} : {A : Type ℓ} → Option (List A) → List A → List A
list_or none d = d
list_or (some []) d = d
list_or (some (x ∷ xs)) d = x ∷ xs

-- The loop that gives an id to each layer without one; `fresh i` is the id minted for the i-th.
unfoldable pub backfill : (ℕ → String) → ℕ → List Layer → List Layer
backfill fresh i [] = []
backfill fresh i (l ∷ ls) =
    record l { id = some (text_or l.id (fresh i)) } ∷ backfill fresh (suc i) ls

abbrev pub default_palette_id : String
default_palette_id = "bauhaus"

abbrev blank : Canvas
blank = record {
  width = default_size;
  height = default_size;
  palette_id = default_palette_id;
  layers = [];
}

abbrev restore : (ℕ → String) → CanvasData → Canvas
restore fresh d =
    let legacy = number_or d.size default_size in
    record {
      width = number_or d.width legacy;
      height = number_or d.height legacy;
      palette_id = text_or d.palette_id default_palette_id;
      layers = backfill fresh zero (list_or d.layers (list_or d.last_chain []));
    }

-- `none` is a missing or empty dict.
unfoldable pub from_dict : (ℕ → String) → Option CanvasData → Canvas
from_dict fresh none = blank
from_dict fresh (some d) = restore fresh d
