-- ===== src/Layout/Tiled/Places.antt =====
-- `BTreeMap<PaneId, Rect>` of src/layout.rs as an association list in the order of the keys.
use vvmux.Prelude.{
  ℕ, ◌+◌, ◌≡◌, refl, Option, none, some, List, [], ◌∷◌, arith, ltb, ◌==◌, if◌then◌else◌,
}
use vvmux.Layout.Rect.{Rect}

abbrev pub PlaceMap : Type 0
PlaceMap = List (ℕ × Rect)

unfoldable pub insert : ℕ → Rect → PlaceMap → PlaceMap
insert k r [] = (k, r) ∷ []
insert k r ((j, s) ∷ m) =
    if k == j then (k, r) ∷ m else if ltb k j then (k, r) ∷ (j, s) ∷ m else (j, s) ∷ insert k r m

unfoldable pub lookup : ℕ → PlaceMap → Option Rect
lookup k [] = none
lookup k ((j, s) ∷ m) = if j == k then some s else lookup k m

-- A sum over the entries.
abbrev pub total : (Rect → ℕ) → PlaceMap → ℕ
total f [] = 0
total f ((j, s) ∷ m) = f s + total f m

-- A new key adds its entry to a sum.
pub total-insert :
    (f : Rect → ℕ) (k : ℕ) (r : Rect) (m : PlaceMap)
    → lookup k m ≡ none
    → total f (insert k r m) ≡ f r + total f m
unfolding insert lookup
total-insert f k r [] h = refl
total-insert f k r ((j, s) ∷ m) h = ground (arith, total-insert f k r m)

-- A map returns what was put under a key last, and leaves the other keys alone.
pub lookup-insert :
    (k j : ℕ) (r : Rect) (m : PlaceMap)
    → lookup j (insert k r m) ≡ (if k == j then some r else lookup j m)
unfolding insert lookup
lookup-insert k j r [] = refl
lookup-insert k j r ((i, s) ∷ m) = ground (arith, lookup-insert k j r m)
