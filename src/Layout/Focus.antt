-- ===== src/Layout/Focus.antt =====
-- `directional_focus` of src/layout.rs, over the visible panes of a tab.
pub mod Ranks
pub mod Best
use Prim.Native.Nat.{min, max}
use vvmux.Prelude.{
  ℕ, ◌+◌, ◌-◌, Bool, true, false, not, ◌&&◌, Option, none, some, List, [], ◌∷◌, ltb, leb, ◌==◌,
  if◌then◌else◌, ◌>>=◌,
}
use vvmux.Prelude.Int.{ℤ, pos, ◌-ℤ◌, eq_ℤ, leb_ℤ}
use vvmux.Prelude.Word.{add_u16}
use vvmux.Layout.Rect.{Rect, center, Direction, left, right, up, down}

pub data PaneLayer : Type 0 where
  tiled floating pinned : PaneLayer

pub record PaneProjection : Type 0 where
  pub pane_id : ℕ
  pub outer : Rect
  pub content : Rect
  pub layer : PaneLayer
  pub focused : Bool

unfoldable pub span_overlap : ℕ → ℕ → ℕ → ℕ → ℕ
span_overlap a_start a_len b_start b_len =
    min (add_u16 a_start a_len) (add_u16 b_start b_len) - max a_start b_start

unfoldable pub in_half_plane : Direction → Rect → Rect → Bool
in_half_plane left current rect = ltb (center rect).0 (center current).0
in_half_plane right current rect = ltb (center current).0 (center rect).0
in_half_plane up current rect = ltb (center rect).1 (center current).1
in_half_plane down current rect = ltb (center current).1 (center rect).1

unfoldable pub edge_distance : Direction → Rect → Rect → ℤ
edge_distance left current rect = pos current.x -ℤ pos (add_u16 rect.x rect.width)
edge_distance right current rect = pos rect.x -ℤ pos (add_u16 current.x current.width)
edge_distance up current rect = pos current.y -ℤ pos (add_u16 rect.y rect.height)
edge_distance down current rect = pos rect.y -ℤ pos (add_u16 current.y current.height)

unfoldable pub overlap : Direction → Rect → Rect → ℕ
overlap left current rect = span_overlap current.y current.height rect.y rect.height
overlap right current rect = span_overlap current.y current.height rect.y rect.height
overlap up current rect = span_overlap current.x current.width rect.x rect.width
overlap down current rect = span_overlap current.x current.width rect.x rect.width

-- The tuple `(edge_distance, Reverse(overlap), pane_id)`.
pub record Rank : Type 0 where
  pub distance : ℤ
  pub shared : ℕ
  pub pane : ℕ

unfoldable pub rank_le : Rank → Rank → Bool
rank_le a b =
    if eq_ℤ a.distance b.distance
    then if a.shared == b.shared then leb a.pane b.pane else ltb b.shared a.shared
    else leb_ℤ a.distance b.distance

-- The filter and the `filter_map`.
unfoldable pub rank_of : ℕ → Direction → Rect → PaneProjection → Option Rank
rank_of focused direction current p =
    if not (p.pane_id == focused) && in_half_plane direction current p.outer
    then some (record {
      distance = edge_distance direction current p.outer;
      shared = overlap direction current p.outer;
      pane = p.pane_id;
    })
    else none

abbrev pub smaller : Rank → Option Rank → Rank
smaller a none = a
smaller a (some b) = if rank_le a b then a else b

unfoldable pub min_rank : ℕ → Direction → Rect → List PaneProjection → Option Rank
min_rank focused direction current [] = none
min_rank focused direction current (p ∷ ps) =
    let rest = min_rank focused direction current ps in
    elim (rank_of focused direction current p) [ none ↦ rest | some r ↦ some (smaller r rest) ]

unfoldable pub find_projection : ℕ → List PaneProjection → Option PaneProjection
find_projection pane [] = none
find_projection pane (p ∷ ps) = if p.pane_id == pane then some p else find_projection pane ps

unfoldable pub directional_focus : List PaneProjection → ℕ → Direction → Option ℕ
directional_focus projections focused direction = do
  current ← find_projection focused projections
  best ← min_rank focused direction current.outer projections
  some best.pane
