-- ===== src/Region/Cells.antt =====
-- `from_cells` of src/region.rs.
use vvmux.Prelude.{◌*◌, ◌≤◌, ◌<◌, ◌≡◌, Option, some, arith, ◌>>=◌}
use vvmux.Prelude.Int.{pos, checked, half_i64, ◌+ℤ◌}
use vvmux.Prelude.Word.{u16_max}
use vvmux.Layout.Rect.{Rect}
use vvmux.Region.{FixedRect, fixed_one, new}
use vvmux.Region.Cover.{IsValid}

unfoldable pub from_cells : Rect → Option FixedRect
from_cells rect = do
  x ← checked half_i64 (pos (rect.x * fixed_one))
  y ← checked half_i64 (pos (rect.y * fixed_one))
  width ← checked half_i64 (pos (rect.width * fixed_one))
  height ← checked half_i64 (pos (rect.height * fixed_one))
  new x y width height

-- The scaled rectangle of the cells.
abbrev pub scaled : Rect → FixedRect
scaled rect = record {
  x = pos (rect.x * fixed_one);
  y = pos (rect.y * fixed_one);
  width = pos (rect.width * fixed_one);
  height = pos (rect.height * fixed_one);
}

-- A cell rectangle with some cells, of `u16` fields, is scaled without an overflow.
pub from_cells-IsValid :
    (rect : Rect)
    → rect.x ≤ u16_max
    → rect.y ≤ u16_max
    → rect.width ≤ u16_max
    → rect.height ≤ u16_max
    → 0 < rect.width
    → 0 < rect.height
    → (from_cells rect ≡ some (scaled rect)) × IsValid (scaled rect)
unfolding from_cells new checked ◌+ℤ◌
from_cells-IsValid rect hx hy hw hh w h = (ground arith, ground arith)
