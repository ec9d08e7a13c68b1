-- ===== src/Layout/Rect.antt =====
-- `Rect` of src/layout.rs, with the axes and directions of src/ipc.rs. Coordinates are `u16`.
use vvmux.Prelude.{ℕ, ◌+◌, ◌-◌, ◌*◌, ◌≤◌, Bool, ◌&&◌, ltb, leb}
use vvmux.Prelude.Word.{u16_max, saturating_add, add_u16}

pub data Axis : Type 0 where
  vertical horizontal : Axis

pub data Direction : Type 0 where
  left right up down : Direction

pub record Rect : Type 0 where
  pub x : ℕ
  pub y : ℕ
  pub width : ℕ
  pub height : ℕ

abbrev pub min_content_columns : ℕ
min_content_columns = 4

abbrev pub min_content_rows : ℕ
min_content_rows = 2

abbrev pub frame_columns : ℕ
frame_columns = 2

abbrev pub frame_rows : ℕ
frame_rows = 2

unfoldable pub content : Rect → Rect
content r = record {
  x = saturating_add u16_max r.x 1;
  y = saturating_add u16_max r.y 1;
  width = r.width - frame_columns;
  height = r.height - frame_rows;
}

unfoldable pub contains : Rect → ℕ → ℕ → Bool
contains r x y =
    leb r.x x && ltb x (add_u16 r.x r.width) && leb r.y y && ltb y (add_u16 r.y r.height)

-- Twice the centre, as `i32` values that cannot be negative.
unfoldable pub center : Rect → ℕ × ℕ
center r = (r.x * 2 + r.width, r.y * 2 + r.height)

-- The far edges are `u16` values, so that no sum of the source wraps.
pub record IsValid (r : Rect) : Type 0 where
  pub right_fits : r.x + r.width ≤ u16_max
  pub bottom_fits : r.y + r.height ≤ u16_max
