-- ===== src/Terminal/Write.antt =====
-- The writing of vvmux-terminal/src/lib.rs: `input`, `insert_blank`, `delete_chars` and `put_tab`.
use vvmux.Prelude.{
  ℕ, zero, suc, ◌+◌, ◌-◌, min, Bool, true, false, ◌&&◌, Option, none, some, List, [], ◌∷◌, ◌++◌,
  map, length, get_elem?, ltb, leb, ◌==◌, if◌then◌else◌, ◌>>=◌,
}
use vvmux.Prelude.Word.{u16_max}
use vvmux.Terminal.{Cell, Terminal, damage, blank}
use vvmux.Terminal.Vectors.{update_at, fill_range}
use vvmux.Terminal.Scroll.{line_feed}
use vvmux.Terminal.Erase.{drop_tabs}

-- `self.grid[row][column]` written.
unfoldable pub set_cell : ℕ → ℕ → (Cell → Cell) → Terminal → Option Terminal
set_cell row column f t = do
  grid ← update_at row (update_at column (λ cell. some (f cell))) t.grid
  some (record t { grid = grid })

unfoldable pub invalidate_tab_at : ℕ → ℕ → Terminal → Option Terminal
invalidate_tab_at row column t = do
  grid ←
      update_at row (drop_tabs (λ start tab_end. leb start column && ltb column tab_end) 0 t.cols)
        t.grid
  some (record t { grid = grid })

-- The row goes on in the next one.
unfoldable pub wrap_line : Terminal → Option Terminal
wrap_line t = do
  wrapped ← update_at t.cursor_row (λ _. some true) t.grid_wrapped
  line_feed (record t { grid_wrapped = wrapped; cursor_col = 0 })

unfoldable pub wrap_full : Terminal → Option Terminal
wrap_full t = if leb t.cols t.cursor_col then wrap_line t else some t

unfoldable pub put_leading_spacer : Terminal → Option Terminal
put_leading_spacer t = do
  t₁ ← invalidate_tab_at t.cursor_row t.cursor_col t
  t₂ ←
      set_cell t₁.cursor_row t₁.cursor_col (λ _. record (blank t₁) { leading_wide_spacer = true })
        t₁
  wrap_line t₂

-- A wide character does not fit in the last column.
unfoldable pub wrap_wide : ℕ → Terminal → Option Terminal
wrap_wide width t =
    if (width == 2) && leb t.cols (t.cursor_col + 1) then put_leading_spacer t else some t

unfoldable pub put_cell : ℕ → Terminal → Option Terminal
put_cell c t = do
  t' ←
      set_cell t.cursor_row t.cursor_col
        (λ _. record t.template {
          ch = c;
          combining = [];
          wide_continuation = false;
          leading_wide_spacer = false;
        })
        t
  some (record t' { cursor_col = t'.cursor_col + 1 })

unfoldable pub put_trailing_spacer : Terminal → Option Terminal
put_trailing_spacer t = do
  t' ← set_cell t.cursor_row t.cursor_col (λ _. record (blank t) { wide_continuation = true }) t
  some (record t' { cursor_col = t'.cursor_col + 1 })

unfoldable pub put_continuation : ℕ → Terminal → Option Terminal
put_continuation width t =
    if (width == 2) && ltb t.cursor_col t.cols then put_trailing_spacer t else some t

unfoldable pub put_combining : ℕ → Terminal → Option Terminal
put_combining c t = do
  t' ←
      set_cell t.cursor_row (t.cursor_col - 1)
        (λ cell. record cell { combining = cell.combining ++ (c ∷ []) }) t
  some (damage t')

unfoldable pub put_spacing : ℕ → ℕ → Terminal → Option Terminal
put_spacing width c t = do
  t₁ ← wrap_full t
  t₂ ← wrap_wide width t₁
  t₃ ← invalidate_tab_at t₂.cursor_row t₂.cursor_col t₂
  t₄ ← if width == 2 then invalidate_tab_at t₃.cursor_row (t₃.cursor_col + 1) t₃ else some t₃
  t₅ ← put_cell c t₄
  t₆ ← put_continuation width t₅
  some (damage t₆)

-- `input`, with `c.width()` of the crate unicode-width as the first argument.
unfoldable pub input : Option ℕ → ℕ → Terminal → Option Terminal
input char_width c t =
    let width : ℕ = elim char_width [ none ↦ 1 | some w ↦ w ] in
    if width == 0 then put_combining c t else put_spacing width c t

-- `for column in (from..from + n).rev() { row[column + count] = row[column].clone(); }`
unfoldable pub shift_right : ℕ → ℕ → ℕ → List Cell → Option (List Cell)
shift_right count from zero row = some row
shift_right count from (suc n) row = do
  cell ← get_elem? row (from + n)
  row' ← update_at (from + n + count) (λ _. some cell) row
  shift_right count from n row'

-- `for column in from..from + n { row[column] = row[column + count].clone(); }`
unfoldable pub shift_left : ℕ → ℕ → ℕ → List Cell → Option (List Cell)
shift_left count from zero row = some row
shift_left count from (suc n) row = do
  cell ← get_elem? row (from + count)
  row' ← update_at from (λ _. some cell) row
  shift_left count (suc from) n row'

abbrev pub without_tabs : List Cell → List Cell
without_tabs = map {A = Cell} λ cell. record cell { tab_width = none }

unfoldable pub insert_cells : ℕ → ℕ → ℕ → Cell → List Cell → Option (List Cell)
insert_cells cols column count blank row = do
  row' ← shift_right count column (cols - count - column) (without_tabs row)
  fill_range column (column + count) blank row'

unfoldable pub insert_blank : ℕ → Terminal → Option Terminal
insert_blank count' t = do
  let count = min count' (t.cols - t.cursor_col)
  grid ← update_at t.cursor_row (insert_cells t.cols t.cursor_col count (blank t)) t.grid
  some (damage (record t { grid = grid }))

unfoldable pub delete_cells : ℕ → ℕ → ℕ → Cell → List Cell → Option (List Cell)
delete_cells cols column count blank row = do
  row' ← shift_left count column (cols - count - column) (without_tabs row)
  fill_range (cols - count) (length row') blank row'

unfoldable pub delete_chars : ℕ → Terminal → Option Terminal
delete_chars count' t = do
  let count = min count' (t.cols - t.cursor_col)
  grid ← update_at t.cursor_row (delete_cells t.cols t.cursor_col count (blank t)) t.grid
  some (damage (record t { grid = grid }))

-- The first stop among `count` columns from `column` on, or `otherwise`.
unfoldable pub find_stop : List Bool → ℕ → ℕ → ℕ → ℕ
find_stop stops column zero otherwise = otherwise
find_stop stops column (suc count) otherwise =
    let later = find_stop stops (suc column) count otherwise in
    elim (get_elem? stops column) [ none ↦ later | some stop ↦ if stop then column else later ]

-- `u16::try_from(next - start).ok()`
unfoldable pub mark_tab : ℕ → Cell → Cell
mark_tab width cell = record cell { tab_width = if leb width u16_max then some width else none }

-- One round of `put_tab`.
unfoldable pub put_tab_once : Terminal → Option Terminal
put_tab_once t = do
  let start = t.cursor_col
  let next = find_stop t.tab_stops (start + 1) (t.cols - (start + 1)) (t.cols - 1)
  t' ← if ltb start next then set_cell t.cursor_row start (mark_tab (next - start)) t else some t
  some (record t' { cursor_col = next })
