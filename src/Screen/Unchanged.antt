-- ===== src/Screen/Unchanged.antt =====
-- `ansi_diff` of src/screen.rs on cells that did not change.
use vvmux.Prelude.{
  ℕ, zero, suc, ◌+◌, ◌*◌, ◌≤◌, ◌<◌, ◌≡◌, refl, ap, ◌∙◌, Bool, true, false, Option, none, some, [],
  ◌∷◌, get_elem?, arith, ◌==◌,
}
use vvmux.Terminal.{TerminalColor, default_color, indexed, rgb, Text, TerminalHyperlink, Cell}
use vvmux.Screen.{ScreenBuffer}
use vvmux.Screen.Valid.{Fits, index-lt, get_elem?-Safe}
use vvmux.Screen.Diff.{
  Output, is_changed, paint_column, paint_row, paint_rows, is_full, epilogue, ansi_diff,
}
use vvmux.Screen.Same.{
  same_flag, same_text, same_option, same_color, underline_number, same_underline, same_link,
  same_cell,
}

==_self : (n : ℕ) → (n == n) ≡ true
==_self n = ground arith

same_flag_self : (b : Bool) → same_flag b b ≡ true
unfolding same_flag
same_flag_self true = refl
same_flag_self false = refl

same_text_self : (xs : Text) → same_text xs xs ≡ true
unfolding same_text
same_text_self [] = refl
same_text_self (x ∷ xs) = simp (==_self x, same_text_self xs) refl

same_color_self : (c : TerminalColor) → same_color c c ≡ true
unfolding same_color
same_color_self default_color = refl
same_color_self (indexed a) = ==_self a
same_color_self (rgb r g b) = simp (==_self r, ==_self g, ==_self b) refl

same_option_self :
    {A : Type 0} (same : A → A → Bool)
    → ((a : A) → same a a ≡ true)
    → (o : Option A) → same_option same o o ≡ true
unfolding same_option
same_option_self same self none = refl
same_option_self same self (some a) = self a

same_link_self : (link : TerminalHyperlink) → same_link link link ≡ true
unfolding same_link
same_link_self link =
    simp (same_option_self same_text same_text_self link.id, same_text_self link.uri) refl

same_cell_self : (cell : Cell) → same_cell cell cell ≡ true
unfolding same_cell same_underline
same_cell_self c =
    simp
      (
        ==_self c.ch,
        same_text_self c.combining,
        same_color_self c.foreground,
        same_color_self c.background,
        same_flag_self c.bold,
        same_flag_self c.dim,
        same_flag_self c.italic,
        same_flag_self c.underline,
        ==_self (underline_number c.underline_style),
        same_option_self same_color same_color_self c.underline_color,
        same_flag_self c.blink,
        same_flag_self c.inverse,
        same_flag_self c.hidden,
        same_flag_self c.strikeout,
        same_flag_self c.wide_continuation,
        same_flag_self c.leading_wide_spacer,
        same_option_self (λ (m n : ℕ). m == n) ==_self c.tab_width,
        same_option_self same_link same_link_self c.hyperlink,
      )
      refl

module _ (old current : ScreenBuffer) (same : old.cells ≡ current.cells) where
  is_changed_self :
      (index : ℕ) (cell : Cell)
      → get_elem? current.cells index ≡ some cell
      → is_changed (some old) index cell ≡ some false
  unfolding is_changed
  is_changed_self index cell e =
      let before : get_elem? old.cells index ≡ some cell =
        ap (λ cells. get_elem? cells index) same ∙ e in
      simp (is_changed, before, same_cell_self cell) refl

  module _ (cursor : Option (ℕ × ℕ)) (fits : Fits current.columns current.rows cursor current) where
    paint_row-unchanged :
        (row column count : ℕ) (inside : Bool) (output : Output)
        → row < current.rows
        → column + count ≤ current.columns
        → paint_row (some old) current row column count inside output ≡ some output
    unfolding paint_row paint_column
    paint_row-unchanged row column zero inside output h h' = refl
    paint_row-unchanged row column (suc count) inside output h h' =
        let index = row * current.columns + column in
        let place = index-lt current.columns current.rows column row (omega (arith, h')) h in
        let (cell, found) = get_elem?-Safe index current.cells (omega (arith, place, fits.sized)) in
        simp (paint_row, found, is_changed_self index cell found)
          (paint_row-unchanged row (suc column) count false output h (omega (arith, h')))

    paint_rows-unchanged :
        (row count : ℕ) (output : Output)
        → row + count ≤ current.rows
        → paint_rows (some old) current row count output ≡ some output
    unfolding paint_rows
    paint_rows-unchanged row zero output h = refl
    paint_rows-unchanged row (suc count) output h =
        rw
          (
            paint_rows,
            paint_row-unchanged row 0 current.columns false output (omega (arith, h)) (omega arith),
          )
          (paint_rows-unchanged (suc row) count output (omega (arith, h)))

    -- From a screen of the same size with the same cells to one that has a cell for each place, a diff
    -- that is not forced does not panic, moves to no cell and writes none: only the end of the output,
    -- with the cursor, is written.
    pub ansi_diff-unchanged :
        old.rows ≡ current.rows
        → old.columns ≡ current.columns
        → ansi_diff (some old) current false ≡ some (epilogue current)
    unfolding ansi_diff is_full
    ansi_diff-unchanged e e' =
        let rows : (old.rows == current.rows) ≡ true = ground (arith, e) in
        let columns : (old.columns == current.columns) ≡ true = ground (arith, e') in
        simp (rows, columns, paint_rows-unchanged 0 current.rows ([], none) (omega arith)) refl
