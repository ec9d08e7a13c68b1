-- ===== src/Layout/Tiled/Narrow.antt =====
-- A tree of src/layout.rs that its own `split` builds, in an area that became narrow: the `clamp`
-- of `place` is called with an empty range, and panics.
use native.Mathlib.Nat.{pow-suc}
use vvmux.Prelude.{
  ℕ, zero, suc, ◌+◌, ◌-◌, ◌*◌, ◌^◌, ◌≤◌, ◌≡◌, refl, inl, inr, none, some, arith, Option-cases,
}
use vvmux.Prelude.Word.{u16_max}
use mathlib.Core.List.{[]}
use vvmux.Layout.Rect.{Rect, vertical}
use vvmux.Layout.Tiled.Places.{PlaceMap}
use vvmux.Layout.Tiled.{TiledNode, leaf, split_node, first_size, place, geometry, second_part}

-- Each vertical split made in the newest pane: `k` splits, from the pane `p`.
abbrev pub comb : ℕ → ℕ → TiledNode
comb p zero = leaf p
comb p (suc k) = split_node vertical (leaf p) (comb (suc p) k) 1 1

half_left : (size s : ℕ) → size ≤ 65535 → first_size size 1 1 ≡ some s → 2 * (size - s) ≤ size + 1
unfolding first_size
half_left size s h e = ground arith

too_narrow : (size : ℕ) → size ≤ 1 → first_size size 1 1 ≡ none
unfolding first_size
too_narrow size h = ground arith

place-comb :
    (k p : ℕ) (area : Rect) (m : PlaceMap)
    → area.width ≤ 65535
    → area.width ≤ 2 ^ k
    → place (comb p (suc k)) area m ≡ none
unfolding place
place-comb zero p area m fits h = rw (too_narrow area.width h) refl
place-comb (suc k) p area m fits h = elim (Option-cases (first_size area.width 1 1)) [
  | inl e ↦ rw e refl
  | inr (s, e) ↦ rw e (
      place-comb k (suc p) (second_part vertical area s) _ (omega arith)
        (omega (arith, half_left area.width s fits e, pow-suc 2 k)))
]

-- After `k + 1` vertical splits, each in the newest pane, the layout panics in every area of at
-- most 2 to the `k` columns.
pub geometry-comb_panics :
    (k p : ℕ) (area : Rect)
    → area.width ≤ u16_max
    → area.width ≤ 2 ^ k
    → geometry (comb p (suc k)) area ≡ none
unfolding geometry
geometry-comb_panics k p area fits h = place-comb k p area [] fits h
