-- ===== src/Canvas/Palette.antt =====
-- What `Canvas.apply_palette` of canvas/canvas.py writes into the dict objects of the layers' controls.
use mathlib.Core.Path.{subst}
use second_brain_art.Common.{
  ℕ, ◌<◌, ◌≡◌, ◌≢◌, refl, sym, Bool, true, false, ◌&&◌, ◌||◌, Option, none, some, List, [], ◌∷◌,
  String, str_eq, ◌==◌, if◌then◌else◌, length, get_or-set_self, get_or-set_ne, Bool-cases, inl, inr,
  arith,
}
use second_brain_art.Python.{Value, text}
use second_brain_art.Python.Dict.{lookup, insert, has_key, lookup-insert}
use second_brain_art.Canvas.Chain.{
  Heap, Controls, Layer, Canvas, deref, recolour_object, recolour, recolour_all, apply_palette,
}
use second_brain_art.Canvas.Wellformed.{length-recolour}

-- One of the layers refers to the object `r`.
abbrev refers : ℕ → Option ℕ → Bool
refers r none = false
refers r (some q) = q == r

unfoldable pub is_referred : ℕ → List Layer → Bool
is_referred r [] = false
is_referred r (l ∷ ls) = refers r l.controls || is_referred r ls

-- The value at `k` of a dict object with the controls `d`, after the palette was applied to it or
-- was not.
abbrev pub painted : Bool → String → String → Controls → Option Value
painted hit p k d =
    if hit && has_key "palette" d && str_eq "palette" k then some (text p) else lookup k d

recolour_object_self :
    (p k : String) (h : Heap) (r : ℕ)
    → r < length h
    → lookup k (deref (recolour_object p h r) r) ≡ painted true p k (deref h r)
unfolding recolour_object
recolour_object_self p k h r lt = elim (Bool-cases (has_key "palette" (deref h r))) [
  | inl e ↦
      rw e
        (rw (get_or-set_self h r (insert "palette" (text p) (deref h r)) [] lt) (rw lookup-insert))
  | inr e ↦ rw e refl
]

recolour_object-ne :
    (p : String) (h : Heap) (q r : ℕ) → q ≢ r → deref (recolour_object p h q) r ≡ deref h r
unfolding recolour_object
recolour_object-ne p h q r n = elim (Bool-cases (has_key "palette" (deref h q))) [
  | inl e ↦ rw e (get_or-set_ne h q r _ [] n)
  | inr e ↦ rw e refl
]

recolour_lem :
    (p k : String) (h : Heap) (o : Option ℕ) (r : ℕ)
    → r < length h
    → lookup k (deref (recolour p h o) r) ≡ painted (refers r o) p k (deref h r)
unfolding recolour
recolour_lem p k h none r lt = refl
recolour_lem p k h (some q) r lt = elim (Bool-cases (q == r)) [
  | inl e ↦
      let same : q ≡ r = ground arith in
      rw e (
        subst (λ x. lookup k (deref (recolour_object p h x) r) ≡ painted true p k (deref h r))
          (sym same) (recolour_object_self p k h r lt))
  | inr e ↦ rw (recolour_object-ne p h q r (ground arith), e)
]

has_key-recolour :
    (p : String) (h : Heap) (o : Option ℕ) (r : ℕ)
    → r < length h
    → has_key "palette" (deref (recolour p h o) r) ≡ has_key "palette" (deref h r)
has_key-recolour p h o r lt = ground (arith, recolour_lem p "palette" h o r)

recolour_all_lem :
    (p k : String) (h : Heap) (ls : List Layer) (r : ℕ)
    → r < length h
    → lookup k (deref (recolour_all p h ls) r) ≡ painted (is_referred r ls) p k (deref h r)
unfolding recolour_all is_referred
recolour_all_lem p k h [] r lt = refl
recolour_all_lem p k h (l ∷ ls) r lt = ground (
  arith,
  recolour_all_lem p k (recolour p h l.controls) ls r,
  recolour_lem p k h l.controls r,
  has_key-recolour p h l.controls r,
  length-recolour p h l.controls,
)

-- After `apply_palette` the canvas has the palette and its layers, and the controls of every layer
-- object hold, at each key, what they held, except that an object that a layer of the canvas
-- refers to and that has a "palette" now has `p` there.
pub apply_palette-controls :
    (p k : String) (h : Heap) (c : Canvas) (r : ℕ)
    → r < length h
    → (lookup k (deref (apply_palette p h c).0 r)
        ≡ painted (is_referred r c.layers) p k (deref h r))
      × ((apply_palette p h c).1 ≡ record c { palette_id = p })
unfolding apply_palette
apply_palette-controls p k h c r lt = (recolour_all_lem p k h c.layers r lt, refl)
