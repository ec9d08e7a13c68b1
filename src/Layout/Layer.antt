-- ===== src/Layout/Layer.antt =====
-- `FloatingLayer` of src/layout.rs. A method that changes the layer returns the new layer, with the
-- method's result where it has one.
pub mod Order
pub mod Bounds
use vvmux.Prelude.{
  ℕ, zero, suc, Bool, true, false, not, ◌&&◌, ◌||◌, Option, none, some, List, [], ◌∷◌, ◌++◌, map,
  ◌==◌, if◌then◌else◌, length,
}
use vvmux.Prelude.Int.{ℤ}
use vvmux.Layout.Rect.{Rect}
use vvmux.Layout.Floating.{EdgeMask, offset_coordinate, clamp_rect, default_rect, resize_edges}

pub record FloatingPane : Type 0 where
  pub pane_id : ℕ
  pub rect : Rect
  pub pinned : Bool

-- Bottom to top.
pub record FloatingLayer : Type 0 where
  pub panes : List FloatingPane
  pub ordinary_visible : Bool

abbrev pub default_layer : FloatingLayer
default_layer = record { panes = []; ordinary_visible = true }

abbrev pub is_empty : FloatingLayer → Bool
is_empty l = elim l.panes [ [] ↦ true | _ ↦ false ]

abbrev pub pane_ids : List FloatingPane → List ℕ
pane_ids = map λ f. f.pane_id

unfoldable pub has_pane : List FloatingPane → ℕ → Bool
has_pane [] pane = false
has_pane (f ∷ fs) pane = f.pane_id == pane || has_pane fs pane

abbrev pub contains : FloatingLayer → ℕ → Bool
contains l pane = has_pane l.panes pane

unfoldable pub find : List FloatingPane → ℕ → Option FloatingPane
find [] pane = none
find (f ∷ fs) pane = if f.pane_id == pane then some f else find fs pane

abbrev pub get : FloatingLayer → ℕ → Option FloatingPane
get l pane = find l.panes pane

unfoldable pub visible_panes : Bool → List FloatingPane → List FloatingPane
visible_panes shown [] = []
visible_panes shown (f ∷ fs) =
    let rest = visible_panes shown fs in if f.pinned || shown then f ∷ rest else rest

abbrev pub visible : FloatingLayer → List FloatingPane
visible l = visible_panes l.ordinary_visible l.panes

unfoldable pub last : List FloatingPane → Option FloatingPane
last [] = none
last (f ∷ []) = some f
last (f ∷ g ∷ fs) = last (g ∷ fs)

unfoldable pub focus_candidate : FloatingLayer → Option ℕ
focus_candidate l = elim (last (visible l)) [ none ↦ none | some f ↦ some f.pane_id ]

-- `self.panes.insert(self.first_pinned_index(), float)`.
unfoldable pub insert_below_pinned : FloatingPane → List FloatingPane → List FloatingPane
insert_below_pinned f [] = f ∷ []
insert_below_pinned f (g ∷ gs) = if g.pinned then f ∷ g ∷ gs else g ∷ insert_below_pinned f gs

unfoldable pub insert : FloatingLayer → ℕ → Rect → ℕ → ℕ → FloatingLayer
insert l pane area width_percent height_percent = record {
  panes =
      insert_below_pinned
        (record {
          pane_id = pane;
          rect = default_rect area width_percent height_percent;
          pinned = false;
        })
        l.panes;
  ordinary_visible = true;
}

unfoldable pub retain_not : ℕ → List FloatingPane → List FloatingPane
retain_not pane [] = []
retain_not pane (f ∷ fs) =
    let rest = retain_not pane fs in if f.pane_id == pane then rest else f ∷ rest

unfoldable pub remove : FloatingLayer → ℕ → FloatingLayer × Bool
remove l pane =
    let kept = retain_not pane l.panes in
    (record l { panes = kept }, not (length kept == length l.panes))

-- `position` of the pane and `remove` at it: the pane and the others.
unfoldable pub take_out : ℕ → List FloatingPane → Option (FloatingPane × List FloatingPane)
take_out pane [] = none
take_out pane (f ∷ fs) =
    let later : Option (FloatingPane × List FloatingPane) = elim (take_out pane fs) [
      | none ↦ none
      | some (g, rest) ↦ some (g, f ∷ rest)
    ] in
    if f.pane_id == pane then some (f, fs) else later

-- To the top of the pane's own class.
unfoldable pub place_on_top : FloatingPane → List FloatingPane → List FloatingPane
place_on_top f fs = if f.pinned then fs ++ f ∷ [] else insert_below_pinned f fs

unfoldable pub raise : FloatingLayer → ℕ → FloatingLayer × Bool
raise l pane = elim (take_out pane l.panes) [
  | none ↦ (l, false)
  | some (f, rest) ↦ (record l { panes = place_on_top f rest }, true)
]

unfoldable pub set_pinned : FloatingLayer → ℕ → Bool → FloatingLayer × Bool
set_pinned l pane pinned = elim (take_out pane l.panes) [
  | none ↦ (l, false)
  | some (f, rest) ↦ (record l { panes = place_on_top (record f { pinned = pinned }) rest }, true)
]

abbrev pub same_rect : Rect → Rect → Bool
same_rect r s = r.x == s.x && r.y == s.y && r.width == s.width && r.height == s.height

-- The first pane with the identifier gets the clamped result of `apply`.
unfoldable pub update_panes :
    ℕ → Rect → (Rect → Rect) → List FloatingPane → List FloatingPane × Bool
update_panes pane area apply [] = ([], false)
update_panes pane area apply (f ∷ fs) =
    let next = clamp_rect (apply f.rect) area in
    let later = update_panes pane area apply fs in
    if f.pane_id == pane
    then (record f { rect = next } ∷ fs, not (same_rect next f.rect))
    else (f ∷ later.0, later.1)

unfoldable pub update_rect : FloatingLayer → ℕ → Rect → (Rect → Rect) → FloatingLayer × Bool
update_rect l pane area apply =
    let (panes, changed) = update_panes pane area apply l.panes in
    (record l { panes = panes }, changed)

abbrev pub moved : Rect → ℤ → ℤ → Rect
moved r dx dy = record r { x = offset_coordinate r.x dx; y = offset_coordinate r.y dy }

unfoldable pub move_by : FloatingLayer → ℕ → ℤ → ℤ → Rect → FloatingLayer × Bool
move_by l pane dx dy area = update_rect l pane area (λ r. moved r dx dy)

unfoldable pub move_from : FloatingLayer → ℕ → Rect → ℤ → ℤ → Rect → FloatingLayer × Bool
move_from l pane original dx dy area = update_rect l pane area (λ _. moved original dx dy)

unfoldable pub resize_by : FloatingLayer → ℕ → EdgeMask → ℤ → ℤ → Rect → FloatingLayer × Bool
resize_by l pane edges dx dy area = update_rect l pane area (λ r. resize_edges r edges dx dy area)

unfoldable pub resize_from :
    FloatingLayer → ℕ → Rect → EdgeMask → ℤ → ℤ → Rect → FloatingLayer × Bool
resize_from l pane original edges dx dy area =
    update_rect l pane area (λ _. resize_edges original edges dx dy area)

unfoldable pub set_rect : FloatingLayer → ℕ → Rect → Rect → FloatingLayer × Bool
set_rect l pane rect area = update_rect l pane area (λ _. rect)

unfoldable pub clamp_panes : Rect → List FloatingPane → List FloatingPane
clamp_panes area [] = []
clamp_panes area (f ∷ fs) = record f { rect = clamp_rect f.rect area } ∷ clamp_panes area fs

unfoldable pub clamp_all : FloatingLayer → Rect → FloatingLayer
clamp_all l area = record l { panes = clamp_panes area l.panes }

-- One call of a method that changes the layer.
pub data LayerOp : Type 0 where
  insert_op : ℕ → Rect → ℕ → ℕ → LayerOp
  remove_op raise_op : ℕ → LayerOp
  set_pinned_op : ℕ → Bool → LayerOp
  move_by_op : ℕ → ℤ → ℤ → Rect → LayerOp
  move_from_op : ℕ → Rect → ℤ → ℤ → Rect → LayerOp
  resize_by_op : ℕ → EdgeMask → ℤ → ℤ → Rect → LayerOp
  resize_from_op : ℕ → Rect → EdgeMask → ℤ → ℤ → Rect → LayerOp
  set_rect_op : ℕ → Rect → Rect → LayerOp
  clamp_all_op : Rect → LayerOp

unfoldable pub apply_op : FloatingLayer → LayerOp → FloatingLayer
apply_op l (insert_op pane area w h) = insert l pane area w h
apply_op l (remove_op pane) = (remove l pane).0
apply_op l (raise_op pane) = (raise l pane).0
apply_op l (set_pinned_op pane b) = (set_pinned l pane b).0
apply_op l (move_by_op pane dx dy area) = (move_by l pane dx dy area).0
apply_op l (move_from_op pane r dx dy area) = (move_from l pane r dx dy area).0
apply_op l (resize_by_op pane e dx dy area) = (resize_by l pane e dx dy area).0
apply_op l (resize_from_op pane r e dx dy area) = (resize_from l pane r e dx dy area).0
apply_op l (set_rect_op pane r area) = (set_rect l pane r area).0
apply_op l (clamp_all_op area) = clamp_all l area
