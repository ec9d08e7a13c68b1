-- ===== src/Terminal/Valid/Shifts.antt =====
-- `insert_blank`, `delete_chars` and `put_tab` of vvmux-terminal/src/lib.rs do not panic and keep the
-- terminal well formed.
use vvmux.Prelude.{
  ℕ, zero, suc, ◌+◌, ◌-◌, ◌≤◌, ◌<◌, ◌≡◌, refl, ap, ◌∙◌, min, Bool, Option, some, List, [], ◌∷◌,
  length, get_elem?, arith, Bool-cases, Option-cases, inl, inr, if◌then◌else◌, ltb, ◌>>=◌,
}
use vvmux.Terminal.{Cell, Terminal, blank}
use vvmux.Terminal.Vectors.{
  Anything, Safe, Safe-bind, Safe-weaken, update_at, update_at-Safe, fill_range-Safe,
}
use vvmux.Terminal.Write.{
  set_cell, shift_right, shift_left, without_tabs, insert_cells, insert_blank, delete_cells,
  delete_chars, find_stop, mark_tab, put_tab_once,
}
use vvmux.Terminal.Cursor.{put_tab}
use vvmux.Terminal.Valid.{IsValid, IsRow, IsRow-of_length}
use vvmux.Terminal.Valid.Moves.{at-IsValid}
use vvmux.Terminal.Valid.Scrolls.{repeat-Safe}
use vvmux.Terminal.Valid.Erases.{Redrawn, Redrawn-self, row_damaged-Redrawn}
use vvmux.Terminal.Valid.Writes.{set_cell-Redrawn}

get_elem?-Safe {ℓ} :
    {A : Type ℓ} (xs : List A) (i : ℕ) → i < length xs → Safe Anything (get_elem? xs i)
get_elem?-Safe [] i h = absurd (omega (arith, h))
get_elem?-Safe (x ∷ xs) zero h = tt
get_elem?-Safe (x ∷ xs) (suc i) h = get_elem?-Safe xs i (omega (arith, h))

-- One assignment `row[to] = row[from].clone()`.
copy-IsRow :
    (cols from to : ℕ) (row : List Cell) (next : List Cell → Option (List Cell))
    → IsRow cols row
    → from < cols
    → to < cols
    → ((row' : List Cell) → IsRow cols row' → Safe (IsRow cols) (next row'))
    → Safe
        (IsRow cols)
        (do cell ← get_elem? row from; row' ← update_at to (λ _. some cell) row; next row')
copy-IsRow cols from to row next r h h' k =
    Safe-bind Anything (IsRow cols) (get_elem? row from) _
      (get_elem?-Safe row from (omega (arith, h, r.0)))
      (λ cell q.
        Safe-bind (IsRow cols) (IsRow cols) (update_at to (λ _. some cell) row) next
          (update_at-Safe Anything to cols (λ _. some cell) row h' r (λ c u. tt)) k)

shift_right-IsRow :
    (cols count from n : ℕ) (row : List Cell)
    → from + n + count ≤ cols
    → IsRow cols row
    → Safe (IsRow cols) (shift_right count from n row)
unfolding shift_right
shift_right-IsRow cols count from zero row h r = r
shift_right-IsRow cols count from (suc n) row h r =
    copy-IsRow cols (from + n) (from + n + count) row (shift_right count from n) r
      (omega (arith, h)) (omega (arith, h))
      (λ row' r'. shift_right-IsRow cols count from n row' (omega (arith, h)) r')

shift_left-IsRow :
    (cols count from n : ℕ) (row : List Cell)
    → from + n + count ≤ cols
    → IsRow cols row
    → Safe (IsRow cols) (shift_left count from n row)
unfolding shift_left
shift_left-IsRow cols count from zero row h r = r
shift_left-IsRow cols count from (suc n) row h r =
    copy-IsRow cols (from + count) from row (shift_left count (suc from) n) r (omega (arith, h))
      (omega (arith, h))
      (λ row' r'. shift_left-IsRow cols count (suc from) n row' (omega (arith, h)) r')

length-without_tabs : (row : List Cell) → length (without_tabs row) ≡ length row
length-without_tabs [] = refl
length-without_tabs (cell ∷ row) = ap suc (length-without_tabs row)

without_tabs-IsRow : (cols : ℕ) (row : List Cell) → IsRow cols row → IsRow cols (without_tabs row)
without_tabs-IsRow cols row r =
    IsRow-of_length cols (without_tabs row) (length-without_tabs row ∙ r.0)

insert_cells-IsRow :
    (cols column count : ℕ) (cell : Cell) (row : List Cell)
    → column + count ≤ cols
    → IsRow cols row
    → Safe (IsRow cols) (insert_cells cols column count cell row)
unfolding insert_cells
insert_cells-IsRow cols column count cell row h r =
    Safe-bind (IsRow cols) (IsRow cols) _ _
      (shift_right-IsRow cols count column (cols - count - column) (without_tabs row)
        (omega (arith, h)) (without_tabs-IsRow cols row r))
      (λ row' r'.
        fill_range-Safe Anything column (column + count) cols cell row' (omega arith) h tt r')

delete_cells-IsRow :
    (cols column count : ℕ) (cell : Cell) (row : List Cell)
    → column + count ≤ cols
    → IsRow cols row
    → Safe (IsRow cols) (delete_cells cols column count cell row)
unfolding delete_cells
delete_cells-IsRow cols column count cell row h r =
    Safe-bind (IsRow cols) (IsRow cols) _ _
      (shift_left-IsRow cols count column (cols - count - column) (without_tabs row)
        (omega (arith, h)) (without_tabs-IsRow cols row r))
      (λ row' r'.
        fill_range-Safe Anything (cols - count) (length row') cols cell row' (omega (arith, r'.0))
          (omega (arith, r'.0)) tt r')

pub insert_blank-IsValid : (n : ℕ) (t : Terminal) → IsValid t → Safe IsValid (insert_blank n t)
unfolding insert_blank
insert_blank-IsValid n t v =
    Safe-weaken (Redrawn t) IsValid _
      (row_damaged-Redrawn t t.cursor_row _ v v.row_in (λ cells r.
        insert_cells-IsRow t.cols t.cursor_col (min n (t.cols - t.cursor_col)) (blank t) cells
          (omega (arith, v.col_in)) r))
      (λ t' r. r.valid)

pub delete_chars-IsValid : (n : ℕ) (t : Terminal) → IsValid t → Safe IsValid (delete_chars n t)
unfolding delete_chars
delete_chars-IsValid n t v =
    Safe-weaken (Redrawn t) IsValid _
      (row_damaged-Redrawn t t.cursor_row _ v v.row_in (λ cells r.
        delete_cells-IsRow t.cols t.cursor_col (min n (t.cols - t.cursor_col)) (blank t) cells
          (omega (arith, v.col_in)) r))
      (λ t' r. r.valid)

find_stop-lt :
    (stops : List Bool) (column count otherwise cols : ℕ)
    → column + count ≤ cols
    → otherwise < cols
    → find_stop stops column count otherwise < cols
unfolding find_stop
find_stop-lt stops column zero otherwise cols h h' = h'
find_stop-lt stops column (suc count) otherwise cols h h' =
    let later = find_stop-lt stops (suc column) count otherwise cols (omega (arith, h)) h' in
    elim (Option-cases (get_elem? stops column)) [
      | inl e ↦ rw (find_stop, e) later
      | inr (stop, e) ↦ elim (Bool-cases stop) [
        | inl here ↦ rw (find_stop, e, here) (omega (arith, h))
        | inr further ↦ rw (find_stop, e, further) later
      ]
    ]

put_tab_once-IsValid : (t : Terminal) → IsValid t → Safe IsValid (put_tab_once t)
unfolding put_tab_once find_stop
put_tab_once-IsValid t v =
    let next =
      find_stop t.tab_stops (t.cursor_col + 1) (t.cols - (t.cursor_col + 1)) (t.cols - 1) in
    let bound : next < t.cols = elim (Bool-cases (ltb t.cursor_col t.cols)) [
      | inl inside ↦
          find_stop-lt t.tab_stops (t.cursor_col + 1) (t.cols - (t.cursor_col + 1)) (t.cols - 1)
            t.cols (ground (arith, inside)) (omega (arith, v.some_cols))
      | inr full ↦
          let none_left : t.cols - (t.cursor_col + 1) ≡ 0 = ground (arith, full) in
          rw none_left (omega (arith, v.some_cols))
    ] in
    Safe-bind (Redrawn t) IsValid
      (if ltb t.cursor_col next
        then set_cell t.cursor_row t.cursor_col (mark_tab (next - t.cursor_col)) t
        else some t)
      _
      (elim (Bool-cases (ltb t.cursor_col next)) [
        | inl further ↦ rw further (
            set_cell-Redrawn t t.cursor_row t.cursor_col _ v v.row_in
              (ground (arith, further, bound)))
        | inr stays ↦ rw stays (Redrawn-self t v)
      ])
      (λ t' r.
        at-IsValid t' t'.cursor_row next r.valid r.valid.row_in (omega (arith, bound, r.cols_same)))

pub put_tab-IsValid : (t : Terminal) (n : ℕ) → IsValid t → Safe IsValid (put_tab t n)
unfolding put_tab
put_tab-IsValid t n v = repeat-Safe IsValid n put_tab_once t put_tab_once-IsValid v
