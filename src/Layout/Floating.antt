-- ===== src/Layout/Floating.antt =====
-- Where a floating pane may stand, from src/layout.rs: the default placement, the clamp to an area
-- and the resize by frame edges.
pub mod Clamp
pub mod Edges
use Prim.Native.Nat.{min, max}
use vvmux.Prelude.{
  ℕ, suc, ◌+◌, ◌-◌, ◌*◌, ◌/◌, ◌%◌, Bool, true, false, not, ◌&&◌, ◌||◌, Option, none, some, List, [],
  ◌∷◌, ◌++◌, map, ltb, leb, ◌==◌, if◌then◌else◌, length,
}
use vvmux.Prelude.Int.{
  ℤ, pos, negsuc, ◌+ℤ◌, ◌-ℤ◌, max_ℤ, min_ℤ, wrap, half_i32, pos_part, neg_part, leb_ℤ,
}
use vvmux.Prelude.Word.{u16_max, u32_max, saturating_add, add_u16, sub_u16, mul_u32, clamp}
use vvmux.Layout.Rect.{Rect, min_content_columns, min_content_rows, frame_columns, frame_rows}

abbrev pub min_float_width : ℕ
min_float_width = min_content_columns + frame_columns

abbrev pub min_float_height : ℕ
min_float_height = min_content_rows + frame_rows

pub record EdgeMask : Type 0 where
  pub left : Bool
  pub right : Bool
  pub top : Bool
  pub bottom : Bool

-- `i32::clamp` to the range of `u16`, and the cast back.
unfoldable pub offset_coordinate : ℕ → ℤ → ℕ
offset_coordinate value delta =
    let sum = min_ℤ (max_ℤ (pos value +ℤ delta) (negsuc 2147483647)) (pos 2147483647) in
    pos_part (min_ℤ (max_ℤ sum (pos 0)) (pos u16_max))

unfoldable pub clamp_rect : Rect → Rect → Rect
clamp_rect rect area =
    let min_width = max (min min_float_width area.width) 1 in
    let min_height = max (min min_float_height area.height) 1 in
    let width = clamp min_width (max area.width min_width) rect.width in
    let height = clamp min_height (max area.height min_height) rect.height in
    let max_x = max (add_u16 area.x area.width - width) area.x in
    let max_y = max (add_u16 area.y area.height - height) area.y in
    record {
      x = clamp area.x max_x rect.x;
      y = clamp area.y max_y rect.y;
      width = width;
      height = height;
    }

unfoldable pub default_rect : Rect → ℕ → ℕ → Rect
unfolding clamp_rect
default_rect area width_percent height_percent =
    let width = ((mul_u32 area.width width_percent + 50) % 4294967296 / 100) % 65536 in
    let height = ((mul_u32 area.height height_percent + 50) % 4294967296 / 100) % 65536 in
    clamp_rect
      (record {
        x = saturating_add u16_max area.x ((area.width - width) / 2);
        y = saturating_add u16_max area.y ((area.height - height) / 2);
        width = width;
        height = height;
      })
      area

-- The cast `as u16` of an `i32` that is not negative.
abbrev pub as_u16 : ℤ → ℕ
as_u16 z = pos_part z % 65536

abbrev pub i32_add : ℤ → ℤ → ℤ
i32_add a b = wrap half_i32 (a +ℤ b)

abbrev pub i32_sub : ℤ → ℤ → ℤ
i32_sub a b = wrap half_i32 (a -ℤ b)

-- The edge that is dragged towards the start of its axis, then the one towards the end; the
-- second sees the first one's new value.
unfoldable pub drag_low : Bool → ℤ → ℤ → ℤ → ℤ → ℤ → ℤ
drag_low selected low high delta area_low minimum =
    if selected then min_ℤ (max_ℤ (i32_add low delta) area_low) (i32_sub high minimum) else low

unfoldable pub drag_high : Bool → ℤ → ℤ → ℤ → ℤ → ℤ → ℤ
drag_high selected low high delta area_high minimum =
    if selected then max_ℤ (min_ℤ (i32_add high delta) area_high) (i32_add low minimum) else high

unfoldable pub resize_edges : Rect → EdgeMask → ℤ → ℤ → Rect → Rect
resize_edges rect edges dx dy area =
    let min_width = pos (max (min min_float_width area.width) 1) in
    let min_height = pos (max (min min_float_height area.height) 1) in
    let area_right = i32_add (pos area.x) (pos area.width) in
    let area_bottom = i32_add (pos area.y) (pos area.height) in
    let right₀ = i32_add (pos rect.x) (pos rect.width) in
    let bottom₀ = i32_add (pos rect.y) (pos rect.height) in
    let left = drag_low edges.left (pos rect.x) right₀ dx (pos area.x) min_width in
    let right = drag_high edges.right left right₀ dx area_right min_width in
    let top = drag_low edges.top (pos rect.y) bottom₀ dy (pos area.y) min_height in
    let bottom = drag_high edges.bottom top bottom₀ dy area_bottom min_height in
    record {
      x = as_u16 (max_ℤ left (pos 0));
      y = as_u16 (max_ℤ top (pos 0));
      width = as_u16 (max_ℤ (i32_sub right left) (pos 1));
      height = as_u16 (max_ℤ (i32_sub bottom top) (pos 1));
    }
