-- ===== src/Canvas/Wellformed.antt =====
-- Well-formed canvases of canvas/canvas.py.
use mathlib.Core.Path.{subst}
use second_brain_art.Common.{
  ℕ, zero, suc, ◌≤◌, ◌<◌, ◌≡◌, refl, Bool, true, false, Option, none, some, List, [], ◌∷◌, String,
  ℤ, pos, negsuc, str_eq, if◌then◌else◌, length, get_elem?, length-append, length-set, All, All-map,
  arith,
}
use second_brain_art.Canvas.Chain.{
  Heap, Controls, Layer, Canvas, alloc, min_size, max_size, recolour, recolour_all, recolour_object,
  apply_palette, delete_at, insert_at, clamp,
}

abbrev pub IsFilled : String → Type 0
IsFilled s = str_eq s "" ≡ false

abbrev pub HasId : Option String → Type 0
HasId none = ⊥
HasId (some s) = IsFilled s

abbrev pub IsBelow : ℕ → Option ℕ → Type 0
IsBelow n none = Unit
IsBelow n (some r) = r < n

-- The layer has an id, and its controls are among the first `n` dict objects.
abbrev pub IsSoundLayer : ℕ → Layer → Type 0
IsSoundLayer n l = HasId l.id × IsBelow n l.controls

abbrev pub IsSize : ℕ → Type 0
IsSize n = (min_size ≤ n) × (n ≤ max_size)

pub record IsSoundCanvas (n : ℕ) (c : Canvas) : Type 0 where
  pub width : IsSize c.width
  pub height : IsSize c.height
  pub palette : IsFilled c.palette_id
  pub layers : All (IsSoundLayer n) c.layers

IsBelow-mono : (n m : ℕ) (o : Option ℕ) → n ≤ m → IsBelow n o → IsBelow m o
IsBelow-mono n m none h k = tt
IsBelow-mono n m (some r) h k = omega arith

pub layers_mono :
    (n m : ℕ) (ls : List Layer) → n ≤ m → All (IsSoundLayer n) ls → All (IsSoundLayer m) ls
layers_mono n m ls h =
    All-map (IsSoundLayer n) (IsSoundLayer m) ls λ l k. (k.0, IsBelow-mono n m l.controls h k.1)

pub IsSoundCanvas-mono : (n m : ℕ) (c : Canvas) → n ≤ m → IsSoundCanvas n c → IsSoundCanvas m c
IsSoundCanvas-mono n m c h k = record {
  width = k.width;
  height = k.height;
  palette = k.palette;
  layers = layers_mono n m c.layers h k.layers;
}

pub clamp-IsSize : (z : ℤ) → IsSize (clamp z)
unfolding clamp
clamp-IsSize (pos n) = omega arith
clamp-IsSize (negsuc n) = omega arith

pub length-alloc : (h : Heap) (d : Controls) → length (alloc h d) ≡ suc (length h)
length-alloc h d = omega (arith, length-append {0} h (d ∷ []))

length-if :
    (b : Bool) (h h' : Heap) → length h' ≡ length h → length (if b then h' else h) ≡ length h
length-if true h h' e = e
length-if false h h' e = refl

pub length-recolour : (p : String) (h : Heap) (o : Option ℕ) → length (recolour p h o) ≡ length h
unfolding recolour recolour_object
length-recolour p h none = refl
length-recolour p h (some r) = length-if _ h _ (length-set h r _)

pub length-recolour_all :
    (p : String) (h : Heap) (ls : List Layer) → length (recolour_all p h ls) ≡ length h
unfolding recolour_all
length-recolour_all p h [] = refl
length-recolour_all p h (l ∷ ls) =
    omega
      (arith, length-recolour_all p (recolour p h l.controls) ls, length-recolour p h l.controls)

module _ {ℓ} {A : Type ℓ} (P : A → Type 0) where
  pub All-delete_at : (xs : List A) (i : ℕ) → All P xs → All P (delete_at xs i)
  All-delete_at [] i h = tt
  All-delete_at (x ∷ xs) zero h = h.1
  All-delete_at (x ∷ xs) (suc i) h = (h.0, All-delete_at xs i h.1)

  pub All-insert_at : (xs : List A) (i : ℕ) (y : A) → All P xs → P y → All P (insert_at xs i y)
  All-insert_at xs zero y h k = (k, h)
  All-insert_at [] (suc i) y h k = (k, tt)
  All-insert_at (x ∷ xs) (suc i) y h k = (h.0, All-insert_at xs i y h.1 k)

  pub All-get_elem? : (xs : List A) (i : ℕ) (x : A) → All P xs → get_elem? xs i ≡ some x → P x
  All-get_elem? [] i x h e = cc
  All-get_elem? (y ∷ ys) zero x h e = let q : y ≡ x = cc in subst P q h.0
  All-get_elem? (y ∷ ys) (suc i) x h e = All-get_elem? ys i x h.1 e

pub apply_palette_sound :
    (n : ℕ) (p : String) (h : Heap) (c : Canvas)
    → IsFilled p
    → IsSoundCanvas n c
    → IsSoundCanvas n (apply_palette p h c).1
unfolding apply_palette
apply_palette_sound n p h c f s = record {
  width = s.width;
  height = s.height;
  palette = f;
  layers = s.layers;
}
