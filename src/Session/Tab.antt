-- ===== src/Session/Tab.antt =====
-- `Tab` of src/session.rs: its two kinds of panes, its focus and what of it is visible.
pub mod Priority
use vvmux.Prelude.{
  ℕ, Bool, true, false, ◌||◌, ◌&&◌, not, Option, none, some, List, [], ◌∷◌, ◌++◌, map, leb, ◌==◌,
  if◌then◌else◌, ◌>>=◌,
}
use vvmux.Layout.Rect.{Rect, content}
use vvmux.Layout.Layer.{FloatingPane, FloatingLayer}
use vvmux.Layout.Layer
use vvmux.Layout.Tiled.{TiledNode, geometry}
use vvmux.Layout.Tiled
use vvmux.Layout.Tiled.Places.{PlaceMap}
use vvmux.Layout.Focus.{PaneLayer, tiled, floating, pinned, PaneProjection}

pub record Tab : Type 0 where
  pub id : ℕ
  pub tree : Option TiledNode
  pub floating : FloatingLayer
  pub focused : ℕ
  pub last_focused_tiled : Option ℕ
  pub zoomed : Option ℕ

unfoldable pub tree_contains : Option TiledNode → ℕ → Bool
tree_contains none pane = false
tree_contains (some tree) pane = Tiled.contains tree pane

unfoldable pub contains : Tab → ℕ → Bool
contains tab pane = tree_contains tab.tree pane || Layer.contains tab.floating pane

unfoldable pub is_empty : Tab → Bool
is_empty tab = elim tab.tree [ none ↦ Layer.is_empty tab.floating | some t ↦ false ]

-- `Option::or`
unfoldable pub or_else : Option ℕ → Option ℕ → Option ℕ
or_else none other = other
or_else (some a) other = some a

unfoldable pub first : List ℕ → Option ℕ
first [] = none
first (p ∷ ps) = some p

unfoldable pub fallback_focus : Tab → Option ℕ
fallback_focus tab = or_else (Layer.focus_candidate tab.floating) (
    or_else
      (do pane ← tab.last_focused_tiled; if tree_contains tab.tree pane then some pane else none)
      (do tree ← tab.tree; first (Tiled.pane_ids tree)))

unfoldable pub set_focus : Tab → ℕ → Tab
set_focus tab pane =
    if tree_contains tab.tree pane
    then record tab { focused = pane; last_focused_tiled = some pane }
    else record tab { focused = pane; floating = (Layer.raise tab.floating pane).0 }

unfoldable pub layer_of : FloatingPane → PaneLayer
layer_of float = if float.pinned then pinned else floating

unfoldable pub project_tiled : ℕ → ℕ × Rect → PaneProjection
project_tiled focused (pane, outer) = record {
  pane_id = pane;
  outer = outer;
  content = content outer;
  layer = tiled;
  focused = focused == pane;
}

unfoldable pub project_float : ℕ → FloatingPane → PaneProjection
project_float focused float = record {
  pane_id = float.pane_id;
  outer = float.rect;
  content = content float.rect;
  layer = layer_of float;
  focused = focused == float.pane_id;
}

unfoldable pub tiled_projections : ℕ → Option TiledNode → Rect → Option (List PaneProjection)
tiled_projections focused none area = some []
tiled_projections focused (some tree) area = do
  places ← geometry tree area
  some (map (project_tiled focused) places)

-- `none` is the panic of `geometry`.
unfoldable pub visible_projections : Tab → Rect → Option (List PaneProjection)
visible_projections tab area = elim tab.zoomed [
  | some zoomed ↦ some (
      record {
        pane_id = zoomed;
        outer = area;
        content = content area;
        layer = elim (Layer.get tab.floating zoomed) [ none ↦ tiled | some f ↦ layer_of f ];
        focused = tab.focused == zoomed;
      }
      ∷ [])
  | none ↦ do
    tiles ← tiled_projections tab.focused tab.tree area
    some (tiles ++ map (project_float tab.focused) (Layer.visible tab.floating))
]

unfoldable pub member : ℕ → List ℕ → Bool
member pane [] = false
member pane (p ∷ ps) = (p == pane) || member pane ps

-- The closure `push`; `seen` holds the panes pushed so far.
unfoldable pub push : ℕ → List ℕ → List ℕ
push pane panes = if member pane panes then panes else panes ++ (pane ∷ [])

unfoldable pub push_each : List ℕ → List ℕ → List ℕ
push_each [] panes = panes
push_each (p ∷ ps) panes = push_each ps (push p panes)

unfoldable pub same_layer : PaneLayer → PaneLayer → Bool
same_layer tiled l = elim l [ tiled ↦ true | floating ↦ false | pinned ↦ false ]
same_layer floating l = elim l [ tiled ↦ false | floating ↦ true | pinned ↦ false ]
same_layer pinned l = elim l [ tiled ↦ false | floating ↦ false | pinned ↦ true ]

-- The panes of one layer, bottom to top.
unfoldable pub layer_ids : PaneLayer → List PaneProjection → List ℕ
layer_ids layer [] = []
layer_ids layer (p ∷ ps) =
    let rest = layer_ids layer ps in if same_layer p.layer layer then p.pane_id ∷ rest else rest

unfoldable pub reverse : List ℕ → List ℕ
reverse [] = []
reverse (x ∷ xs) = reverse xs ++ (x ∷ [])

unfoldable pub insert_id : ℕ → List ℕ → List ℕ
insert_id x [] = x ∷ []
insert_id x (y ∷ ys) = let rest = insert_id x ys in if leb x y then x ∷ y ∷ ys else y ∷ rest

-- `sort_unstable`, of equal numbers that cannot be told apart.
unfoldable pub sort : List ℕ → List ℕ
sort [] = []
sort (x ∷ xs) = insert_id x (sort xs)

unfoldable pub any_pane : ℕ → List PaneProjection → Bool
any_pane pane [] = false
any_pane pane (p ∷ ps) = (p.pane_id == pane) || any_pane pane ps

unfoldable pub push_visible : Option ℕ → List PaneProjection → List ℕ → List ℕ
push_visible none ps panes = panes
push_visible (some pane) ps panes = if any_pane pane ps then push pane panes else panes

unfoldable pub projection_pane_priority : Tab → List PaneProjection → List ℕ
projection_pane_priority tab ps =
    let first = push_visible (some tab.focused) ps [] in
    let pins = push_each (reverse (layer_ids pinned ps)) first in
    let floats = push_each (reverse (layer_ids floating ps)) pins in
    let recent = push_visible tab.last_focused_tiled ps floats in
    push_each (sort (layer_ids tiled ps)) recent
