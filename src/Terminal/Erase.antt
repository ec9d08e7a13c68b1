-- ===== src/Terminal/Erase.antt =====
-- The erasing of vvmux-terminal/src/lib.rs: `clear_row_range`, `erase_chars`, `clear_line` and
-- `clear_screen`.
use vvmux.Prelude.{
  ℕ, zero, suc, ◌+◌, ◌-◌, min, Bool, true, false, ◌&&◌, Option, none, some, List, [], ◌∷◌, ltb,
  ◌==◌, if◌then◌else◌, ◌>>=◌,
}
use vvmux.Terminal.{Cell, Grid, Terminal, clear_event, push_event, damage, blank, blank_grid}
use vvmux.Terminal.Vectors.{update_at, fill_range}

-- The loop over the columns from `column` on: a cell whose tab is hit loses it.
unfoldable pub drop_tabs : (ℕ → ℕ → Bool) → ℕ → ℕ → List Cell → Option (List Cell)
drop_tabs hit column zero cells = some cells
drop_tabs hit column (suc count) [] = none
drop_tabs hit column (suc count) (cell ∷ cells) = do
  rest ← drop_tabs hit (suc column) count cells
  some (
      elim cell.tab_width [
        | none ↦ cell
        | some width ↦
            if hit column (column + width) then record cell { tab_width = none } else cell
      ]
      ∷ rest)

-- `clear_row_range` on the row.
unfoldable pub clear_cells : ℕ → ℕ → ℕ → Cell → List Cell → Option (List Cell)
clear_cells cols start' end' blank cells = do
  let start = min start' cols
  let end = min end' cols
  kept ← drop_tabs (λ column tab_end. ltb column end && ltb start tab_end) 0 cols cells
  fill_range start end blank kept

unfoldable pub clear_row_range : Terminal → ℕ → ℕ → ℕ → Option Terminal
clear_row_range t row start end = do
  grid ← update_at row (clear_cells t.cols start end (blank t)) t.grid
  some (damage (record t { grid = grid }))

-- The `usize` sum is that of a column of a row in memory and of a `u16` count of the parser, which does
-- not reach 2 ^ 64.
unfoldable pub erase_chars : Terminal → ℕ → Option Terminal
erase_chars t count =
    clear_row_range t t.cursor_row t.cursor_col (min (t.cursor_col + count) t.cols)

pub data LineClearMode : Type 0 where
  right_of_cursor left_of_cursor whole_line : LineClearMode

unfoldable pub clear_line : Terminal → LineClearMode → Option Terminal
clear_line t right_of_cursor = clear_row_range t t.cursor_row t.cursor_col t.cols
clear_line t left_of_cursor = clear_row_range t t.cursor_row 0 (t.cursor_col + 1)
clear_line t whole_line = clear_row_range t t.cursor_row 0 t.cols

pub data ClearMode : Type 0 where
  below above all saved : ClearMode

-- `for row in from..from + count { self.clear_row_range(row, 0, self.cols) }`
unfoldable pub clear_rows : Terminal → ℕ → ℕ → Option Terminal
clear_rows t from zero = some t
clear_rows t from (suc count) = do
  t' ← clear_row_range t from 0 t.cols
  clear_rows t' (suc from) count

unfoldable pub is_blank_row : List Cell → Bool
is_blank_row [] = true
is_blank_row (cell ∷ cells) =
    (cell.ch == 32) && elim cell.combining [ [] ↦ is_blank_row cells | _ ∷ _ ↦ false ]

unfoldable pub is_blank_grid : Grid → Bool
is_blank_grid [] = true
is_blank_grid (row ∷ rows) = is_blank_row row && is_blank_grid rows

unfoldable pub fill_false : List Bool → List Bool
fill_false [] = []
fill_false (b ∷ bs) = false ∷ fill_false bs

unfoldable pub clear_screen : Terminal → ClearMode → Option Terminal
clear_screen t below = do
  t' ← clear_row_range t t.cursor_row t.cursor_col t.cols
  clear_rows t' (t.cursor_row + 1) (t.rows - (t.cursor_row + 1))
clear_screen t above = do
  t' ← clear_rows t 0 t.cursor_row
  clear_row_range t' t.cursor_row 0 (t.cursor_col + 1)
clear_screen t all = some (
    damage (
      push_event clear_event
        (record t { grid = blank_grid t.rows t.cols; grid_wrapped = fill_false t.grid_wrapped })))
clear_screen t saved =
    let t' : Terminal = record t { history = []; history_wrapped = [] } in
    some (if is_blank_grid t.grid then push_event clear_event t' else t')
