-- ===== src/Canvas/Same.antt =====
-- The comparison of snapshots in `CanvasState.enact` of canvas/state.py.
use second_brain_art.Common.{
  ℕ, ◌≡◌, refl, Bool, true, Option, none, some, List, [], ◌∷◌, String, int_eq, int_eq_refl, str_eq,
  eq_iff, length, arith,
}
use second_brain_art.Python.{value_eq, value_eq_refl}
use second_brain_art.Python.Dict.{lookup}
use second_brain_art.Canvas.Chain.{Heap, Controls, Layer, controls_of}
use second_brain_art.Canvas.State.{
  Snapshot, option_eq, list_eq, nat_eq, agree_on, controls_eq, layer_eq, snapshot_eq,
}

module _ {ℓ} {A : Type ℓ} (eq : A → A → Bool) (eq-refl : (a : A) → eq a a ≡ true) where
  option_eq_refl : (o : Option A) → option_eq eq o o ≡ true
  option_eq_refl none = refl
  option_eq_refl (some a) = eq-refl a

  list_eq_refl : (xs : List A) → list_eq eq xs xs ≡ true
  list_eq_refl [] = refl
  list_eq_refl (x ∷ xs) = rw (eq-refl x) (list_eq_refl xs)

str_eq_refl : (s : String) → str_eq s s ≡ true
str_eq_refl s = (eq_iff s s).1 refl

nat_eq_refl : (n : ℕ) → nat_eq n n ≡ true
nat_eq_refl n = ground arith

agree_on_refl : (keys d : Controls) → agree_on keys d d ≡ true
unfolding agree_on
agree_on_refl [] d = refl
agree_on_refl ((k, v) ∷ keys) d =
    rw (option_eq_refl value_eq value_eq_refl (lookup k d)) (agree_on_refl keys d)

controls_eq_refl : (d : Controls) → controls_eq d d ≡ true
unfolding controls_eq
controls_eq_refl d = rw (nat_eq_refl (length d)) (agree_on_refl d d)

layer_eq_refl : (h : Heap) (l : Layer) → layer_eq h l l ≡ true
unfolding layer_eq
layer_eq_refl h l =
    rw (option_eq_refl str_eq str_eq_refl l.id)
      (rw (value_eq_refl l.slug) (rw (value_eq_refl l.kind) (controls_eq_refl (controls_of h l))))

pub snapshot_eq_refl : (h : Heap) (s : Snapshot) → snapshot_eq h s s ≡ true
unfolding snapshot_eq
snapshot_eq_refl h s = rw (option_eq_refl nat_eq nat_eq_refl s.canvas.width) (
    rw (option_eq_refl nat_eq nat_eq_refl s.canvas.height) (
      rw (option_eq_refl str_eq str_eq_refl s.canvas.palette_id) (
        rw
          (option_eq_refl (list_eq (layer_eq h)) (list_eq_refl (layer_eq h) (layer_eq_refl h))
            s.canvas.layers)
          (option_eq_refl int_eq int_eq_refl s.render_seed))))
