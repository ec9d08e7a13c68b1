-- ===== src/Session/Display.antt =====
-- `normalized_display` and `content_area` of src/session.rs, with the display and the setting of
-- the status row as arguments.
use Prim.Native.Nat.{max}
use vvmux.Prelude.{ℕ, ◌-◌, ◌≤◌, Bool, true, false, arith, if◌then◌else◌}
use vvmux.Prelude.Word.{clamp}
use vvmux.Layout.Rect.{Rect}
use vvmux.Layout.Floating.{min_float_width, min_float_height}
use vvmux.Layout.Floating.Clamp.{HasRoom}

pub record DisplayMetrics : Type 0 where
  pub columns : ℕ
  pub rows : ℕ
  pub cell_width : ℕ
  pub cell_height : ℕ

unfoldable pub normalized_display : DisplayMetrics → Bool → DisplayMetrics
normalized_display display status_visible = record display {
  columns = clamp 10 1000 display.columns;
  rows = clamp (if status_visible then 5 else 4) 500 display.rows;
}

unfoldable pub content_area : DisplayMetrics → Bool → Rect
content_area display status_visible = record {
  x = 0;
  y = 0;
  width = max display.columns 1;
  height = max (display.rows - (if status_visible then 1 else 0)) 1;
}

-- The content area of a normalised display is not empty and has room for the smallest float,
-- whatever size the host reports and whether or not the status row is shown.
pub content_area-HasRoom :
    (display : DisplayMetrics) (status_visible : Bool)
    → let area = content_area (normalized_display display status_visible) status_visible in
      HasRoom area × (min_float_width ≤ area.width) × (min_float_height ≤ area.height)
unfolding content_area normalized_display
content_area-HasRoom display true = ground arith
content_area-HasRoom display false = ground arith
