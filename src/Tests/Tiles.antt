-- ===== src/Tests/Tiles.antt =====
-- Two panes side by side, for the theorems on `TiledNode` and the focus of src/layout.rs.
use vvmux.Prelude.{ℕ, ◌≡◌, ◌≢◌, refl, ◌⊎◌, ◌↔◌, Bool, true, false, none, some, List, [], ◌∷◌, arith}
use vvmux.Layout.Rect.{Rect, vertical, horizontal, right}
use vvmux.Layout.Tiled.{
  TiledNode, leaf, split_node, contains, geometry, place, first_size, split, close, resize,
  resize_inner, split_areas, finish_resize, next_size, boundary_delta, minimum, compatible,
}
use vvmux.Layout.Tiled.Places.{PlaceMap, insert, lookup, total}
use vvmux.Layout.Tiled.Panes.{panes, without, panes-close, panes-resize}
use vvmux.Layout.Tiled.Split.{SplitSound, split-SplitSound}
use vvmux.Layout.Tiled.Tiling.{Distinct, covers, geometry_tiles}
use vvmux.Layout.Tiled.Resize.{OneMoved, resize-OneMoved}
use vvmux.Layout.Tiled.Narrow.{comb, geometry-comb_panics}
use vvmux.Layout.Focus.{PaneProjection, tiled, find_projection, directional_focus}
use vvmux.Layout.Focus.Best.{FocusOk, directional_focus-FocusOk}

abbrev area : Rect
area = record { x = 0; y = 0; width = 40; height = 10 }

abbrev pair : TiledNode
pair = split_node vertical (leaf 1) (leaf 2) 1 1

abbrev left_half : Rect
left_half = record { x = 0; y = 0; width = 20; height = 10 }

abbrev right_half : Rect
right_half = record { x = 20; y = 0; width = 20; height = 10 }

abbrev halves : PlaceMap
halves = (1, left_half) ∷ (2, right_half) ∷ []

geometry_run : geometry pair area ≡ some halves
unfolding geometry place first_size insert
geometry_run = refl

pair-Distinct : Distinct pair
unfolding contains
pair-Distinct = ground arith

geometry_tiles_example :
    ((x y : ℕ) → total (covers x y) halves ≡ covers x y area)
    × ((p : ℕ) → (contains pair p ≡ true) ↔ (lookup p halves ≢ none))
geometry_tiles_example = geometry_tiles pair area halves pair-Distinct (ground arith) geometry_run

split-SplitSound_example : SplitSound 2 3 horizontal pair area (split pair 2 3 horizontal area)
split-SplitSound_example = split-SplitSound 2 3 horizontal pair area

panes-close_example :
    without 1 (panes pair) ≡ elim (close pair 1) [ none ↦ [] | some rest ↦ panes rest ]
panes-close_example = panes-close pair 1

abbrev wider : TiledNode
wider = split_node vertical (leaf 1) (leaf 2) 21 19

resize_run : resize pair 1 right area ≡ some (wider, true)
unfolding resize resize_inner split_areas first_size contains finish_resize next_size boundary_delta
    minimum compatible
resize_run = refl

resize-OneMoved_example :
    ((true ≡ false) × (wider ≡ pair)) ⊎ ((true ≡ true) × OneMoved right area pair wider)
resize-OneMoved_example = resize-OneMoved pair 1 right area wider true (ground arith) resize_run

panes-resize_example : panes wider ≡ panes pair
panes-resize_example = panes-resize pair 1 right area wider true resize_run

geometry-comb_panics_example :
    geometry (comb 1 5) (record { x = 0; y = 0; width = 10; height = 10 }) ≡ none
geometry-comb_panics_example =
    geometry-comb_panics 4 1 (record { x = 0; y = 0; width = 10; height = 10 }) (omega arith)
      (omega arith)

abbrev shown : ℕ → Rect → Bool → PaneProjection
shown pane outer focused = record {
  pane_id = pane;
  outer = outer;
  content = outer;
  layer = tiled;
  focused = focused;
}

abbrev both_shown : List PaneProjection
both_shown = shown 1 left_half true ∷ shown 2 right_half false ∷ []

find_run : find_projection 1 both_shown ≡ some (shown 1 left_half true)
unfolding find_projection
find_run = refl

directional_focus-FocusOk_example :
    FocusOk both_shown 1 right left_half (directional_focus both_shown 1 right)
directional_focus-FocusOk_example =
    directional_focus-FocusOk both_shown 1 right (shown 1 left_half true) find_run
      (ground arith, (ground arith, tt))
