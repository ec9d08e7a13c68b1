-- ===== src/Layout/Tiled.antt =====
-- `TiledNode` of src/layout.rs. `none` is a panic where the source asserts: `clamp(1, size - 1)`
-- on an axis of less than two cells.
pub mod Places
pub mod Panes
pub mod Split
pub mod Tiling
pub mod Resize
pub mod Narrow
use Prim.Native.Nat.{min, max}
use vvmux.Prelude.{
  ℕ, zero, suc, ◌+◌, ◌-◌, ◌*◌, ◌/◌, ◌%◌, Bool, true, false, not, ◌&&◌, ◌||◌, Option, none, some,
  List, [], ◌∷◌, ◌++◌, ltb, leb, ◌==◌, if◌then◌else◌, ◌>>=◌,
}
use vvmux.Prelude.Word.{u16_max, u32_max, saturating_add, add_u16, sub_u16, mul_u32, clamp}
use vvmux.Layout.Rect.{
  Rect, Axis, vertical, horizontal, Direction, left, right, up, down, content, min_content_columns,
  min_content_rows, frame_columns, frame_rows,
}
use Places.{PlaceMap, insert}

pub data TiledNode : Type 0 where
  leaf : ℕ → TiledNode
  split_node : Axis → TiledNode → TiledNode → ℕ → ℕ → TiledNode

unfoldable pub collect : TiledNode → List ℕ → List ℕ
collect (leaf pane) output = output ++ pane ∷ []
collect (split_node axis a b v w) output = collect b (collect a output)

unfoldable pub pane_ids : TiledNode → List ℕ
pane_ids node = collect node []

unfoldable pub contains : TiledNode → ℕ → Bool
contains (leaf id) pane = id == pane
contains (split_node axis a b v w) pane = contains a pane || contains b pane

-- `((u32::from(size) * first_weight) / total_weight).clamp(1, size - 1) as u16`
unfoldable pub first_size : ℕ → ℕ → ℕ → Option ℕ
first_size size first_weight second_weight =
    let total_weight = max (saturating_add u32_max first_weight second_weight) 1 in
    if leb 1 (size - 1)
    then some (clamp 1 (size - 1) (mul_u32 size first_weight / total_weight) % 65536)
    else none

-- The two parts of `area`, as `place` makes them.
abbrev pub first_part : Axis → Rect → ℕ → Rect
first_part vertical area s = record area { width = s }
first_part horizontal area s = record area { height = s }

abbrev pub second_part : Axis → Rect → ℕ → Rect
second_part vertical area s = record area {
  x = saturating_add u16_max area.x s;
  width = area.width - s;
}
second_part horizontal area s = record area {
  y = saturating_add u16_max area.y s;
  height = area.height - s;
}

abbrev pub size_along : Axis → Rect → ℕ
size_along vertical area = area.width
size_along horizontal area = area.height

unfoldable pub place : TiledNode → Rect → PlaceMap → Option PlaceMap
place (leaf pane) area output = some (insert pane area output)
place (split_node axis a b v w) area output = do
  s ← first_size (size_along axis area) v w
  output' ← place a (first_part axis area s) output
  place b (second_part axis area s) output'

unfoldable pub geometry : TiledNode → Rect → Option PlaceMap
geometry node area = place node area []

-- `replace_leaf` with its result; the tree is unchanged where it returns false.
unfoldable pub replace_leaf : TiledNode → ℕ → (ℕ → TiledNode) → TiledNode × Bool
replace_leaf (leaf pane) target replacement =
    if pane == target then (replacement pane, true) else (leaf pane, false)
replace_leaf (split_node axis a b v w) target replacement =
    let in_first = replace_leaf a target replacement in
    let in_second = replace_leaf b target replacement in
    if contains a target
    then (split_node axis in_first.0 b v w, in_first.1)
    else (split_node axis a in_second.0 v w, in_second.1)

unfoldable pub any_too_small : PlaceMap → Bool
any_too_small [] = false
any_too_small ((pane, rect) ∷ rest) =
    let inner = content rect in
    ltb inner.width min_content_columns || ltb inner.height min_content_rows || any_too_small rest

pub data SplitError : Type 0 where
  not_in_layout too_small : SplitError

-- The tree after the call and its error, or a panic in `geometry`.
pub data SplitResult : Type 0 where
  done : TiledNode → SplitResult
  refused : TiledNode → SplitError → SplitResult
  panicked : SplitResult

unfoldable pub split : TiledNode → ℕ → ℕ → Axis → Rect → SplitResult
split node focused new_pane axis area =
    let candidate =
      replace_leaf node focused (λ pane. split_node axis (leaf pane) (leaf new_pane) 1 1) in
    if candidate.1
    then elim (geometry candidate.0 area) [
      | none ↦ panicked
      | some places ↦ if any_too_small places then refused node too_small else done candidate.0
    ]
    else refused node not_in_layout

unfoldable pub close : TiledNode → ℕ → Option TiledNode
close (leaf id) pane = if id == pane then none else some (leaf id)
close (split_node axis a b v w) pane = elim (close a pane) [
  | none ↦ close b pane
  | some a' ↦ elim (close b pane) [ none ↦ some a' | some b' ↦ some (split_node axis a' b' v w) ]
]

-- `split_areas`: the same parts, with plain `u16` sums and differences.
unfoldable pub split_areas : Rect → Axis → ℕ → ℕ → Option (Rect × Rect × ℕ)
split_areas area vertical v w = do
  s ← first_size area.width v w
  some (
    record area { width = s },
    record area { x = add_u16 area.x s; width = sub_u16 area.width s },
    area.width,
  )
split_areas area horizontal v w = do
  s ← first_size area.height v w
  some (
    record area { height = s },
    record area { y = add_u16 area.y s; height = sub_u16 area.height s },
    area.height,
  )

unfoldable pub compatible : Axis → Direction → Bool
compatible vertical left = true
compatible vertical right = true
compatible horizontal up = true
compatible horizontal down = true
compatible _ _ = false

unfoldable pub minimum : Axis → ℕ
minimum vertical = min_content_columns + frame_columns
minimum horizontal = min_content_rows + frame_rows

-- The boundary's move: one cell on, one cell back, or none.
pub data Delta : Type 0 where
  plus_one minus_one zero_cells : Delta

unfoldable pub boundary_delta : Axis → Bool → Direction → Delta
boundary_delta vertical true right = plus_one
boundary_delta horizontal true down = plus_one
boundary_delta vertical false left = minus_one
boundary_delta horizontal false up = minus_one
boundary_delta _ _ _ = zero_cells

-- The new first size, if `next` is within its bounds. A first size is at least 1, so `next` is not
-- negative.
unfoldable pub next_size : Delta → ℕ → ℕ → ℕ → Option ℕ
next_size zero_cells size total low = none
next_size plus_one size total low =
    if leb low (size + 1) && leb (size + 1) (total - low) then some (size + 1) else none
next_size minus_one size total low =
    if leb low (size - 1) && leb (size - 1) (total - low) then some (size - 1) else none

-- What a resize of a subtree returns: the subtree, whether it holds the pane, whether it changed.
pub record Resizing : Type 0 where
  pub node : TiledNode
  pub holds : Bool
  pub changed : Bool

abbrev pub try_boundary : Axis → Direction → Bool → ℕ → ℕ → ℕ → ℕ → Option (ℕ × ℕ)
try_boundary axis direction in_first size total v w =
    if compatible axis direction
    then elim (next_size (boundary_delta axis in_first direction) size total (minimum axis)) [
      | none ↦ none
      | some next ↦ some (next, total - next)
    ]
    else none

-- The end of `resize_inner` at a split, after the call on the child.
unfoldable pub finish_resize :
    Axis → Direction → Bool → ℕ → ℕ → ℕ → ℕ → TiledNode → TiledNode → Bool → Bool → Resizing
finish_resize axis direction in_first size total v w a b holds changed =
    let kept : Resizing = record {
      node = split_node axis a b v w;
      holds = holds;
      changed = changed;
    } in
    if holds && not changed
    then elim (try_boundary axis direction in_first size total v w) [
      | none ↦ kept
      | some (v', w') ↦ record { node = split_node axis a b v' w'; holds = holds; changed = true }
    ]
    else kept

unfoldable pub resize_inner : TiledNode → ℕ → Direction → Rect → Bool → Option Resizing
resize_inner (leaf id) focused direction area changed =
    some (record { node = leaf id; holds = id == focused; changed = changed })
resize_inner (split_node axis a b v w) focused direction area changed =
    split_areas area axis v w >>= λ areas.
    let size = size_along axis areas.0 in
    let total = areas.2 in
    elim (contains a focused) [
      | true ↦ resize_inner a focused direction areas.0 changed >>= λ r.
          some (finish_resize axis direction true size total v w r.node b r.holds r.changed)
      | false ↦ resize_inner b focused direction areas.1 changed >>= λ r.
          some (finish_resize axis direction false size total v w a r.node r.holds r.changed)
    ]

-- The tree after `resize`, and its result.
unfoldable pub resize : TiledNode → ℕ → Direction → Rect → Option (TiledNode × Bool)
resize node focused direction area = do
  r ← resize_inner node focused direction area false
  some (r.node, r.changed)
