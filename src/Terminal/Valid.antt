-- ===== src/Terminal/Valid.antt =====
-- The well-formed states of the terminal of vvmux-terminal/src/lib.rs.
pub mod Moves
pub mod Rounds
pub mod Scrolls
pub mod Erases
pub mod Writes
pub mod Shifts
pub mod Runs
use vvmux.Prelude.{
  ℕ, zero, suc, ◌+◌, ◌-◌, ◌≤◌, ◌<◌, ◌≡◌, refl, ap, ◌∙◌, min, max, Bool, true, false, Option, List,
  [], ◌∷◌, ◌++◌, map, length, take, All, arith, Bool-cases, inl, inr, if◌then◌else◌, length-append,
}
use vvmux.Terminal.{
  Cell, Grid, Terminal, default_cell, blank_grid, tab_stops_from, default_tab_stops, new,
  push_event, damage, resize, resize_grid, TerminalEvent,
}
use vvmux.Terminal.Vectors.{
  Sized, Anything, replicate, replicate-Sized, resize_to, resize_to-Sized, length-take,
}

abbrev pub IsRow : ℕ → List Cell → Type 0
IsRow cols row = Sized Anything cols row

abbrev pub IsGrid : ℕ → ℕ → Grid → Type 0
IsGrid rows cols grid = Sized (IsRow cols) rows grid

-- Both screens have `rows` rows of `cols` cells, the history keeps to its limit, and the cursor,
-- the scrolling region and the tab stops fit the screen. The cursor may stand behind the last
-- column.
pub record IsValid (t : Terminal) : Type 0 where
  pub some_rows : 1 ≤ t.rows
  pub some_cols : 1 ≤ t.cols
  pub grid_sized : IsGrid t.rows t.cols t.grid
  pub alternate_sized : IsGrid t.rows t.cols t.alternate_grid
  pub wrapped_sized : length t.grid_wrapped ≡ t.rows
  pub alternate_wrapped_sized : length t.alternate_grid_wrapped ≡ t.rows
  pub history_paired : length t.history ≡ length t.history_wrapped
  pub history_bounded : length t.history ≤ t.history_limit
  pub row_in : t.cursor_row < t.rows
  pub col_in : t.cursor_col ≤ t.cols
  pub top_in : t.scroll_top < t.scroll_bottom
  pub bottom_in : t.scroll_bottom ≤ t.rows
  pub stops_sized : length t.tab_stops ≡ t.cols

pub All-Anything {ℓ} : {A : Type ℓ} (xs : List A) → All Anything xs
All-Anything [] = tt
All-Anything (x ∷ xs) = (tt, All-Anything xs)

pub IsRow-of_length : (cols : ℕ) (row : List Cell) → length row ≡ cols → IsRow cols row
IsRow-of_length cols row e = (e, All-Anything row)

pub replicate-IsRow : (cols : ℕ) (cell : Cell) → IsRow cols (replicate cols cell)
replicate-IsRow cols cell = replicate-Sized Anything cols cell tt

pub blank_grid-IsGrid : (rows cols : ℕ) → IsGrid rows cols (blank_grid rows cols)
blank_grid-IsGrid rows cols =
    replicate-Sized (IsRow cols) rows (replicate cols default_cell)
      (replicate-IsRow cols default_cell)

pub length-replicate {ℓ} : {A : Type ℓ} (n : ℕ) (a : A) → length (replicate n a) ≡ n
length-replicate n a = (replicate-Sized Anything n a tt).0

pub length-tab_stops_from :
    (column count interval : ℕ) → length (tab_stops_from column count interval) ≡ count
unfolding tab_stops_from
length-tab_stops_from column zero interval = refl
length-tab_stops_from column (suc count) interval =
    ap suc (length-tab_stops_from (suc column) count interval)

pub push_event-IsValid : (e : TerminalEvent) (t : Terminal) → IsValid t → IsValid (push_event e t)
push_event-IsValid e t v = ground arith

pub damage-IsValid : (t : Terminal) → IsValid t → IsValid (damage t)
unfolding damage
damage-IsValid t v = ground arith

-- A new terminal is well formed, whatever its arguments.
pub new-IsValid : (rows cols limit : ℕ) → IsValid (new rows cols limit)
unfolding new
new-IsValid rows cols limit = record {
  some_rows = omega arith;
  some_cols = omega arith;
  grid_sized = blank_grid-IsGrid _ _;
  alternate_sized = blank_grid-IsGrid _ _;
  wrapped_sized = length-replicate _ false;
  alternate_wrapped_sized = length-replicate _ false;
  history_paired = refl;
  history_bounded = omega arith;
  row_in = omega arith;
  col_in = omega arith;
  top_in = omega arith;
  bottom_in = omega arith;
  stops_sized = length-tab_stops_from 0 _ 8;
}

length-resize_to {ℓ} : {A : Type ℓ} (n : ℕ) (a : A) (xs : List A) → length (resize_to n a xs) ≡ n
length-resize_to n a xs = (resize_to-Sized Anything n a xs tt (All-Anything xs)).0

map-resize_to-IsGrid :
    (cols : ℕ) (grid : Grid) → IsGrid (length grid) cols (map (resize_to cols default_cell) grid)
map-resize_to-IsGrid cols [] = (refl, tt)
map-resize_to-IsGrid cols (row ∷ rows) =
    let (e, all) = map-resize_to-IsGrid cols rows in
    (ap suc e, (IsRow-of_length cols _ (length-resize_to cols default_cell row), all))

resize_grid-IsGrid : (rows cols : ℕ) (grid : Grid) → IsGrid rows cols (resize_grid grid rows cols)
resize_grid-IsGrid rows cols grid =
    let (e, all) = map-resize_to-IsGrid cols (resize_to rows (replicate cols default_cell) grid) in
    (e ∙ length-resize_to rows (replicate cols default_cell) grid, all)

pub resize-IsValid : (t : Terminal) (rows cols : ℕ) → IsValid t → IsValid (resize t rows cols)
unfolding resize
resize-IsValid t rows cols v = record {
  some_rows = omega arith;
  some_cols = omega arith;
  grid_sized = resize_grid-IsGrid (max rows 1) (max cols 1) t.grid;
  alternate_sized = resize_grid-IsGrid (max rows 1) (max cols 1) t.alternate_grid;
  wrapped_sized = length-resize_to (max rows 1) false t.grid_wrapped;
  alternate_wrapped_sized = length-resize_to (max rows 1) false t.alternate_grid_wrapped;
  history_paired = v.history_paired;
  history_bounded = v.history_bounded;
  row_in = omega arith;
  col_in = omega arith;
  top_in = omega arith;
  bottom_in = omega arith;
  stops_sized = elim (Bool-cases t.tab_stops_customized) [
    | inl e ↦ rw e (length-resize_to (max cols 1) false t.tab_stops)
    | inr e ↦ rw e (length-tab_stops_from 0 (max cols 1) 8)
  ];
}
