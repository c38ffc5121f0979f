-- ===== src/Canvas/Chain.antt =====
-- canvas/canvas.py: the layers, the canvas, and its mutations.
-- A layer's `controls` is a dict object that several layer lists may share (a snapshot copies the
-- list of layers, not the layers), and `apply_palette` writes into that object. So the objects
-- live on a heap, a layer holds a reference, and a mutation returns the heap too.
use second_brain_art.Common.{
  ℕ, zero, suc, Bool, true, false, not, ◌&&◌, ◌||◌, Option, none, some, List, [], ◌∷◌, ◌++◌, String,
  ℤ, pos, negsuc, in_range, int_eq, str_eq, ◌==◌, if◌then◌else◌, length, get_elem?, set, get_or,
  min, max,
}
use second_brain_art.Python.{Value, text}
use second_brain_art.Python.Dict.{Dict, insert, has_key}

abbrev pub default_size : ℕ
default_size = 1024

abbrev pub min_size : ℕ
min_size = 256

abbrev pub max_size : ℕ
max_size = 2048

abbrev pub max_chain_length : ℕ
max_chain_length = 6

abbrev pub Controls : Type 0
Controls = Dict Value

-- The dict objects that were allocated, the oldest first.
abbrev pub Heap : Type 0
Heap = List Controls

abbrev pub deref : Heap → ℕ → Controls
deref h r = get_or h r []

abbrev pub alloc : Heap → Controls → Heap
alloc h d = h ++ d ∷ []

pub record Layer : Type 0 where
  pub id : Option String
  pub slug : Value
  pub kind : Value
  pub controls : Option ℕ

pub record Canvas : Type 0 where
  pub width : ℕ
  pub height : ℕ
  pub palette_id : String
  pub layers : List Layer

-- What the mutations raise.
pub data Exn : Type 0 where
  chain_index_out_of_range : ℤ → ℕ → Exn
  index_out_of_range : ℕ → Exn
  layer_zero_must_be_background : Exn
  unknown_kind : Value → Exn
  unroundable overflow_error : Exn

pub data Outcome {ℓ} (A : Type ℓ) : Type ℓ where
  ok : A → Outcome A
  raised : Exn → Outcome A

-- `size`: the long edge.
unfoldable pub size : Canvas → ℕ
size c = max c.width c.height

-- `step.get("controls") or {}`
abbrev pub controls_of : Heap → Layer → Controls
controls_of h l = elim l.controls [ none ↦ [] | some r ↦ deref h r ]

-- Writes the palette into a dict object that has a `palette`.
unfoldable pub recolour_object : String → Heap → ℕ → Heap
recolour_object palette_id h r =
    if has_key "palette" (deref h r)
    then set h r (insert "palette" (text palette_id) (deref h r))
    else h

-- The body of the loop of `apply_palette`, which writes into the layer's own dict object.
unfoldable pub recolour : String → Heap → Option ℕ → Heap
recolour palette_id h none = h
recolour palette_id h (some r) = recolour_object palette_id h r

unfoldable pub recolour_all : String → Heap → List Layer → Heap
recolour_all palette_id h [] = h
recolour_all palette_id h (l ∷ ls) = recolour_all palette_id (recolour palette_id h l.controls) ls

unfoldable pub apply_palette : String → Heap → Canvas → Heap × Canvas
apply_palette palette_id h c =
    (recolour_all palette_id h c.layers, record c { palette_id = palette_id })

-- `apply_control` copies the layer and its controls.
abbrev pub write_control : ℕ → String → Value → Heap → Canvas → Layer → Heap × Canvas
write_control i name value h c step = (
  alloc h (insert name value (controls_of h step)),
  record c { layers = set c.layers i (record step { controls = some (length h) }) },
)

abbrev pub control_of :
    ℤ → ℕ → String → Value → Heap → Canvas → Option Layer → Outcome (Heap × Canvas)
control_of z i name value h c none = raised (chain_index_out_of_range z (length c.layers))
control_of z i name value h c (some step) = ok (write_control i name value h c step)

abbrev pub control_at : ℤ → String → Value → Heap → Canvas → Option ℕ → Outcome (Heap × Canvas)
control_at z name value h c none = raised (chain_index_out_of_range z (length c.layers))
control_at z name value h c (some i) = control_of z i name value h c (get_elem? c.layers i)

unfoldable pub apply_control : ℤ → String → Value → Heap → Canvas → Outcome (Heap × Canvas)
apply_control chain_index name value h c =
    control_at chain_index name value h c (in_range chain_index (length c.layers))

-- `del layers[i]`
abbrev pub delete_at {ℓ} : {A : Type ℓ} → List A → ℕ → List A
delete_at [] i = []
delete_at (x ∷ xs) zero = xs
delete_at (x ∷ xs) (suc i) = x ∷ delete_at xs i

-- `layers.insert(i, x)`: past the end it appends.
abbrev pub insert_at {ℓ} : {A : Type ℓ} → List A → ℕ → A → List A
insert_at xs zero y = y ∷ xs
insert_at [] (suc i) y = y ∷ []
insert_at (x ∷ xs) (suc i) y = x ∷ insert_at xs i y

-- `z == 0`
abbrev pub is_zero : ℤ → Bool
is_zero z = int_eq z (pos 0)

abbrev pub delete_in : ℤ → Canvas → Option ℕ → Outcome Canvas
delete_in z c none = raised (chain_index_out_of_range z (length c.layers))
delete_in z c (some i) = ok (record c { layers = delete_at c.layers i })

unfoldable pub delete_entry : ℤ → Canvas → Outcome Canvas
delete_entry chain_index c = delete_in chain_index c (in_range chain_index (length c.layers))

-- `layers.insert(to, layers.pop(from))`
abbrev pub place : List Layer → ℕ → ℕ → Option Layer → List Layer
place ls i j none = ls
place ls i j (some step) = insert_at (delete_at ls i) j step

unfoldable pub relocate : List Layer → ℕ → ℕ → List Layer
relocate ls i j = place ls i j (get_elem? ls i)

-- The move takes a layer off position 0, or puts one there.
abbrev pub displaces_lead : ℕ → ℕ → Bool
displaces_lead i j = not (i == j) && (i == 0 || j == 0)

abbrev pub move_between : Canvas → Option ℕ → Option ℕ → Outcome Canvas
move_between c (some i) (some j) =
    if displaces_lead i j
    then raised layer_zero_must_be_background
    else ok (record c { layers = relocate c.layers i j })
move_between c _ _ = raised (index_out_of_range (length c.layers))

unfoldable pub move_entry : ℤ → ℤ → Canvas → Outcome Canvas
move_entry from_index to_index c =
    move_between c (in_range from_index (length c.layers)) (in_range to_index (length c.layers))

abbrev pub is_background : Value → Bool
is_background (text k) = str_eq k "background"
is_background _ = false

-- `kind in ("filter", "object")`
abbrev pub is_transform : Value → Bool
is_transform (text k) = if str_eq k "filter" then true else str_eq k "object"
is_transform _ = false

abbrev pub replace_first : List Layer → Layer → List Layer
replace_first [] entry = entry ∷ []
replace_first (l ∷ ls) entry = entry ∷ ls

unfoldable pub push_chain_entry : Layer → Canvas → Outcome Canvas
push_chain_entry entry c =
    if is_background entry.kind
    then ok (record c { layers = replace_first c.layers entry })
    else if is_transform entry.kind
    then ok (record c { layers = c.layers ++ entry ∷ [] })
    else raised (unknown_kind entry.kind)

-- `max(MIN_SIZE, min(MAX_SIZE, n))`
unfoldable pub clamp : ℤ → ℕ
clamp (pos n) = max min_size (min max_size n)
clamp (negsuc n) = min_size

unfoldable pub set_size : ℤ → Canvas → Canvas
set_size z c = record c { width = clamp z; height = clamp z }

unfoldable pub set_dimensions : ℤ → ℤ → Canvas → Canvas
set_dimensions width height c = record c { width = clamp width; height = clamp height }

unfoldable pub reset : Canvas → Canvas
reset c = record c { layers = [] }
