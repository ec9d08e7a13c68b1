-- ===== src/Terminal/Valid/Erases.antt =====
-- The erasing of vvmux-terminal/src/lib.rs does not panic and keeps the terminal well formed.
use vvmux.Prelude.{
  ℕ, zero, suc, ◌+◌, ◌-◌, ◌≤◌, ◌<◌, ◌≡◌, refl, ap, ◌∙◌, min, Bool, Option, some, List, [], ◌∷◌,
  length, arith, Bool-cases, inl, inr, ◌>>=◌,
}
use vvmux.Terminal.{Cell, Grid, Terminal, damage, blank, blank_grid, clear_event}
use vvmux.Terminal.Vectors.{
  Anything, Safe, Safe-bind, Safe-weaken, update_at, update_at-Safe, fill_range-Safe,
}
use vvmux.Terminal.Erase.{
  drop_tabs, clear_cells, clear_row_range, erase_chars, LineClearMode, right_of_cursor,
  left_of_cursor, whole_line, clear_line, ClearMode, below, above, all, saved, clear_rows,
  is_blank_grid, fill_false, clear_screen,
}
use vvmux.Terminal.Valid.{
  IsValid, IsRow, IsGrid, IsRow-of_length, blank_grid-IsGrid, push_event-IsValid, damage-IsValid,
}
use vvmux.Terminal.Valid.Moves.{length-fill_false}

-- What a change of cells leaves: a well-formed terminal of the same size, with the same cursor.
pub record Redrawn (t t' : Terminal) : Type 0 where
  pub valid : IsValid t'
  pub rows_same : t'.rows ≡ t.rows
  pub cols_same : t'.cols ≡ t.cols
  pub row_same : t'.cursor_row ≡ t.cursor_row
  pub col_same : t'.cursor_col ≡ t.cursor_col

pub Redrawn-self : (t : Terminal) → IsValid t → Redrawn t t
Redrawn-self t v = record {
  valid = v;
  rows_same = refl;
  cols_same = refl;
  row_same = refl;
  col_same = refl;
}

pub Redrawn-trans : (t t' t'' : Terminal) → Redrawn t t' → Redrawn t' t'' → Redrawn t t''
Redrawn-trans t t' t'' r r' = record {
  valid = r'.valid;
  rows_same = r'.rows_same ∙ r.rows_same;
  cols_same = r'.cols_same ∙ r.cols_same;
  row_same = r'.row_same ∙ r.row_same;
  col_same = r'.col_same ∙ r.col_same;
}

pub grid-IsValid :
    (t : Terminal) (grid : Grid)
    → IsValid t
    → IsGrid t.rows t.cols grid
    → IsValid (record t { grid = grid })
grid-IsValid t grid v g = record {
  some_rows = v.some_rows;
  some_cols = v.some_cols;
  grid_sized = g;
  alternate_sized = v.alternate_sized;
  wrapped_sized = v.wrapped_sized;
  alternate_wrapped_sized = v.alternate_wrapped_sized;
  history_paired = v.history_paired;
  history_bounded = v.history_bounded;
  row_in = v.row_in;
  col_in = v.col_in;
  top_in = v.top_in;
  bottom_in = v.bottom_in;
  stops_sized = v.stops_sized;
}

damage-Redrawn : (t t' : Terminal) → Redrawn t t' → Redrawn t (damage t')
unfolding damage
damage-Redrawn t t' r = ground (arith, r)

-- A change of one row that keeps its length.
pub row-Redrawn :
    (t : Terminal) (row : ℕ) (f : List Cell → Option (List Cell))
    → IsValid t
    → row < t.rows
    → ((cells : List Cell) → IsRow t.cols cells → Safe (IsRow t.cols) (f cells))
    → Safe (λ grid. Redrawn t (record t { grid = grid })) (update_at row f t.grid)
row-Redrawn t row f v h k =
    Safe-weaken (IsGrid t.rows t.cols) _ (update_at row f t.grid)
      (update_at-Safe (IsRow t.cols) row t.rows f t.grid h v.grid_sized k)
      (λ grid g. record {
        valid = grid-IsValid t grid v g;
        rows_same = refl;
        cols_same = refl;
        row_same = refl;
        col_same = refl;
      })

pub row_damaged-Redrawn :
    (t : Terminal) (row : ℕ) (f : List Cell → Option (List Cell))
    → IsValid t
    → row < t.rows
    → ((cells : List Cell) → IsRow t.cols cells → Safe (IsRow t.cols) (f cells))
    → Safe (Redrawn t) (update_at row f t.grid >>= λ grid. some (damage (record t { grid = grid })))
row_damaged-Redrawn t row f v h k =
    Safe-bind (λ grid. Redrawn t (record t { grid = grid })) (Redrawn t) (update_at row f t.grid) _
      (row-Redrawn t row f v h k) (λ grid r. damage-Redrawn t (record t { grid = grid }) r)

drop_tabs-length :
    (hit : ℕ → ℕ → Bool) (column count : ℕ) (cells : List Cell)
    → count ≤ length cells
    → Safe (λ cells'. length cells' ≡ length cells) (drop_tabs hit column count cells)
unfolding drop_tabs
drop_tabs-length hit column zero cells h = refl
drop_tabs-length hit column (suc count) [] h = absurd (omega (arith, h))
drop_tabs-length hit column (suc count) (cell ∷ cells) h =
    Safe-bind (λ cells'. length cells' ≡ length cells)
      (λ cells'. length cells' ≡ suc (length cells)) (drop_tabs hit (suc column) count cells) _
      (drop_tabs-length hit (suc column) count cells (omega (arith, h))) (λ cells' e. ap suc e)

pub drop_tabs-IsRow :
    (hit : ℕ → ℕ → Bool) (cols : ℕ) (cells : List Cell)
    → IsRow cols cells
    → Safe (IsRow cols) (drop_tabs hit 0 cols cells)
drop_tabs-IsRow hit cols cells (e, q) =
    Safe-weaken (λ cells'. length cells' ≡ length cells) (IsRow cols) (drop_tabs hit 0 cols cells)
      (drop_tabs-length hit 0 cols cells (omega (arith, e)))
      (λ cells' e'. IsRow-of_length cols cells' (e' ∙ e))

clear_cells-IsRow :
    (cols start end : ℕ) (cell : Cell) (cells : List Cell)
    → start ≤ end
    → IsRow cols cells
    → Safe (IsRow cols) (clear_cells cols start end cell cells)
unfolding clear_cells
clear_cells-IsRow cols start end cell cells h r =
    Safe-bind (IsRow cols) (IsRow cols) _ _ (drop_tabs-IsRow _ cols cells r) (λ kept r'.
      fill_range-Safe Anything (min start cols) (min end cols) cols cell kept (omega (arith, h))
        (omega arith) tt r')

pub clear_row_range-Redrawn :
    (t : Terminal) (row start end : ℕ)
    → IsValid t
    → row < t.rows
    → start ≤ end
    → Safe (Redrawn t) (clear_row_range t row start end)
unfolding clear_row_range
clear_row_range-Redrawn t row start end v h h' =
    row_damaged-Redrawn t row _ v h
      (λ cells r. clear_cells-IsRow t.cols start end (blank t) cells h' r)

valid_of : (t : Terminal) (m : Option Terminal) → Safe (Redrawn t) m → Safe IsValid m
valid_of t m s = Safe-weaken (Redrawn t) IsValid m s (λ t' r. r.valid)

pub erase_chars-IsValid : (t : Terminal) (n : ℕ) → IsValid t → Safe IsValid (erase_chars t n)
unfolding erase_chars
erase_chars-IsValid t n v =
    valid_of t _ (clear_row_range-Redrawn t t.cursor_row _ _ v v.row_in (omega (arith, v.col_in)))

pub clear_line-IsValid :
    (t : Terminal) (mode : LineClearMode) → IsValid t → Safe IsValid (clear_line t mode)
unfolding clear_line
clear_line-IsValid t right_of_cursor v =
    valid_of t _ (clear_row_range-Redrawn t t.cursor_row _ _ v v.row_in v.col_in)
clear_line-IsValid t left_of_cursor v =
    valid_of t _ (clear_row_range-Redrawn t t.cursor_row _ _ v v.row_in (omega arith))
clear_line-IsValid t whole_line v =
    valid_of t _ (clear_row_range-Redrawn t t.cursor_row _ _ v v.row_in (omega arith))

clear_rows-Redrawn :
    (t : Terminal) (from count : ℕ)
    → IsValid t
    → from + count ≤ t.rows
    → Safe (Redrawn t) (clear_rows t from count)
unfolding clear_rows
clear_rows-Redrawn t from zero v h = Redrawn-self t v
clear_rows-Redrawn t from (suc count) v h =
    Safe-bind (Redrawn t) (Redrawn t) (clear_row_range t from 0 t.cols) _
      (clear_row_range-Redrawn t from 0 t.cols v (omega (arith, h)) (omega arith))
      (λ t' r.
        Safe-weaken (Redrawn t') (Redrawn t) (clear_rows t' (suc from) count)
          (clear_rows-Redrawn t' (suc from) count r.valid (omega (arith, h, r.rows_same)))
          (λ t'' r'. Redrawn-trans t t' t'' r r'))

pub clear_screen-IsValid :
    (t : Terminal) (mode : ClearMode) → IsValid t → Safe IsValid (clear_screen t mode)
unfolding clear_screen
clear_screen-IsValid t below v =
    Safe-bind (Redrawn t) IsValid (clear_row_range t t.cursor_row t.cursor_col t.cols) _
      (clear_row_range-Redrawn t t.cursor_row t.cursor_col t.cols v v.row_in v.col_in)
      (λ t' r. valid_of t' _ (
        clear_rows-Redrawn t' (t.cursor_row + 1) (t.rows - (t.cursor_row + 1)) r.valid
          (omega (arith, v.row_in, r.rows_same))))
clear_screen-IsValid t above v =
    Safe-bind (Redrawn t) IsValid (clear_rows t 0 t.cursor_row) _
      (clear_rows-Redrawn t 0 t.cursor_row v (omega (arith, v.row_in)))
      (λ t' r. valid_of t' _ (
        clear_row_range-Redrawn t' t.cursor_row 0 (t.cursor_col + 1) r.valid
          (omega (arith, v.row_in, r.rows_same)) (omega arith)))
clear_screen-IsValid t all v = damage-IsValid _ (
    push_event-IsValid clear_event (record t { grid = _; grid_wrapped = _ })
      (wrapped-IsValid (record t { grid = blank_grid t.rows t.cols })
        (grid-IsValid t (blank_grid t.rows t.cols) v (blank_grid-IsGrid t.rows t.cols))))
  where
    wrapped-IsValid :
        (t : Terminal) → IsValid t → IsValid (record t { grid_wrapped = fill_false t.grid_wrapped })
    wrapped-IsValid t v = ground (arith, v, length-fill_false t.grid_wrapped)
clear_screen-IsValid t saved v =
    let v' : IsValid (record t { history = []; history_wrapped = [] }) = ground (arith, v) in
    elim (Bool-cases (is_blank_grid t.grid)) [
      | inl e ↦
          simp e
            (push_event-IsValid clear_event (record t { history = []; history_wrapped = [] }) v')
      | inr e ↦ simp e v'
    ]
