-- ===== src/Screen.antt =====
-- The composed screen of src/screen.rs. A panic of the source is `none`.
pub mod Same
pub mod Diff
pub mod Valid
pub mod Unchanged
pub mod Halves
use vvmux.Prelude.{
  ℕ, zero, suc, ◌+◌, ◌-◌, ◌*◌, ◌%◌, min, Bool, true, false, ◌&&◌, ◌||◌, Option, none, some, List,
  [], ◌∷◌, length, take, get_elem?, ltb, leb, if◌then◌else◌, ◌>>=◌,
}
use vvmux.Prelude.Int.{pos, ◌-ℤ◌}
use vvmux.Prelude.Word.{u16_max, saturating_add, add_u16, sub_u16}
use vvmux.Layout.Rect.{Rect}
use vvmux.Terminal.{Cell, default_cell, indexed, Terminal, Text}
use vvmux.Terminal.Vectors.{replicate, update_at}
use vvmux.Terminal.Text.{viewport_line}

pub record ScreenBuffer : Type 0 where
  pub rows : ℕ
  pub columns : ℕ
  pub cells : List Cell
  pub cursor : Option (ℕ × ℕ)

unfoldable pub new : ℕ → ℕ → ScreenBuffer
new columns rows = record {
  rows = rows;
  columns = columns;
  cells = replicate (columns * rows) default_cell;
  cursor = none;
}

-- `self.cells[index] = cell`
unfoldable pub put : ℕ → Cell → List Cell → Option (List Cell)
put index cell cells = update_at index (λ _. some cell) cells

-- The other half to the left goes.
unfoldable pub clear_leading : ℕ → ℕ → List Cell → Option (List Cell)
clear_leading x index cells = do
  old ← get_elem? cells index
  if old.wide_continuation && ltb 0 x then put (index - 1) default_cell cells else some cells

-- The other half to the right goes.
unfoldable pub clear_trailing : ℕ → List Cell → Option (List Cell)
clear_trailing index cells = do
  old ← get_elem? cells (index + 1)
  if old.wide_continuation then put (index + 1) default_cell cells else some cells

unfoldable pub set_cells : ℕ → ℕ → ℕ → Cell → List Cell → Option (List Cell)
set_cells columns x index cell cells = do
  cells₁ ← clear_leading x index cells
  cells₂ ← if ltb (x + 1) columns then clear_trailing index cells₁ else some cells₁
  put index cell cells₂

-- `set` at a place inside the screen.
unfoldable pub set_inside : ℕ → ℕ → Cell → ScreenBuffer → Option ScreenBuffer
set_inside x y cell s = do
  cells ← set_cells s.columns x (y * s.columns + x) cell s.cells
  some (record s { cells = cells })

unfoldable pub set : ℕ → ℕ → Cell → ScreenBuffer → Option ScreenBuffer
set x y cell s = if ltb x s.columns && ltb y s.rows then set_inside x y cell s else some s

-- The loop of `draw_text` from the character at `offset` on.
unfoldable pub draw_text_from : ℕ → ℕ → (ℕ → Cell) → ℕ → Text → ScreenBuffer → Option ScreenBuffer
draw_text_from x y styled offset [] s = some s
draw_text_from x y styled offset (ch ∷ chs) s =
    let column = saturating_add u16_max x (offset % 65536) in
    let rest : ScreenBuffer → Option ScreenBuffer = draw_text_from x y styled (suc offset) chs in
    if leb s.columns column then some s else (set column y (styled ch) s >>= rest)

unfoldable pub draw_text : ℕ → ℕ → Text → ℕ → ℕ → ScreenBuffer → Option ScreenBuffer
draw_text x y text foreground background s =
    draw_text_from x y
      (λ ch. record default_cell {
        ch = ch;
        foreground = indexed foreground;
        background = indexed background;
      })
      0 text s

unfoldable pub styled : ℕ → ℕ → Cell
styled color ch = record default_cell { ch = ch; foreground = indexed color }

-- `for x in x..x + count` over the upper and the lower edge.
unfoldable pub draw_across : ℕ → ℕ → Cell → ℕ → ℕ → ScreenBuffer → Option ScreenBuffer
draw_across top bottom cell x zero s = some s
draw_across top bottom cell x (suc count) s = do
  s₁ ← set x top cell s
  s₂ ← set x bottom cell s₁
  draw_across top bottom cell (suc x) count s₂

-- `for y in y..y + count` over the left and the right edge.
unfoldable pub draw_down : ℕ → ℕ → Cell → ℕ → ℕ → ScreenBuffer → Option ScreenBuffer
draw_down left right cell y zero s = some s
draw_down left right cell y (suc count) s = do
  s₁ ← set left y cell s
  s₂ ← set right y cell s₁
  draw_down left right cell (suc y) count s₂

-- `rect.x + 2 + offset as u16`
unfoldable pub draw_title : ℕ → ℕ → ℕ → ℕ → Text → ScreenBuffer → Option ScreenBuffer
draw_title x y color offset [] s = some s
draw_title x y color offset (ch ∷ chs) s = do
  s' ← set (add_u16 (add_u16 x 2) (offset % 65536)) y (styled color ch) s
  draw_title x y color (suc offset) chs s'

-- `draw_frame` from the far edges on.
unfoldable pub draw_edges : Rect → ℕ → ℕ → Text → ℕ → ScreenBuffer → Option ScreenBuffer
draw_edges r right bottom title color s = do
  s₁ ← draw_across r.y bottom (styled color 9472) (add_u16 r.x 1) (right - add_u16 r.x 1) s
  s₂ ← draw_down r.x right (styled color 9474) (add_u16 r.y 1) (bottom - add_u16 r.y 1) s₁
  s₃ ← set r.x r.y (styled color 9484) s₂
  s₄ ← set right r.y (styled color 9488) s₃
  s₅ ← set r.x bottom (styled color 9492) s₄
  s₆ ← set right bottom (styled color 9496) s₅
  draw_title r.x r.y color 0 (take (r.width - 4) title) s₆

unfoldable pub draw_frame : Rect → Text → ℕ → ScreenBuffer → Option ScreenBuffer
draw_frame r title color s =
    if ltb r.width 2 || ltb r.height 2
    then some s
    else draw_edges r (sub_u16 (add_u16 r.x r.width) 1) (sub_u16 (add_u16 r.y r.height) 1) title
        color s

-- A line of the terminal, from its column `column` on.
unfoldable pub draw_line : ℕ → ℕ → List Cell → ℕ → ℕ → ScreenBuffer → Option ScreenBuffer
draw_line x y line column zero s = some s
draw_line x y line column (suc count) s = do
  s' ← elim (get_elem? line column) [
    | none ↦ some s
    | some cell ↦ set (add_u16 x (column % 65536)) y cell s
  ]
  draw_line x y line (suc column) count s'

unfoldable pub draw_rows : Rect → Terminal → ℕ → ℕ → ℕ → ScreenBuffer → Option ScreenBuffer
draw_rows r t scroll_offset row zero s = some s
draw_rows r t scroll_offset row (suc count) s = do
  s' ← elim (viewport_line t (pos row -ℤ pos scroll_offset)) [
    | none ↦ some s
    | some line ↦ draw_line r.x (add_u16 r.y (row % 65536)) line 0 r.width s
  ]
  draw_rows r t scroll_offset (suc row) count s'

unfoldable pub draw_terminal : Rect → Terminal → ℕ → ScreenBuffer → Option ScreenBuffer
draw_terminal r t scroll_offset s = draw_rows r t scroll_offset 0 r.height s

-- A call that draws.
pub data ScreenOp : Type 0 where
  set_op : ℕ → ℕ → Cell → ScreenOp
  draw_text_op : ℕ → ℕ → Text → ℕ → ℕ → ScreenOp
  draw_frame_op : Rect → Text → ℕ → ScreenOp
  draw_terminal_op : Rect → Terminal → ℕ → ScreenOp

unfoldable pub apply_op : ScreenBuffer → ScreenOp → Option ScreenBuffer
apply_op s (set_op x y cell) = set x y cell s
apply_op s (draw_text_op x y text foreground background) =
    draw_text x y text foreground background s
apply_op s (draw_frame_op r title color) = draw_frame r title color s
apply_op s (draw_terminal_op r t scroll_offset) = draw_terminal r t scroll_offset s

unfoldable pub run : ScreenBuffer → List ScreenOp → Option ScreenBuffer
run s [] = some s
run s (op ∷ ops) = do s' ← apply_op s op; run s' ops
