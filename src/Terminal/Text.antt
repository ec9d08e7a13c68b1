-- ===== src/Terminal/Text.antt =====
-- The text that vvmux-terminal/src/lib.rs reads off the screen and the history. A line number below
-- zero counts back from the screen.
use vvmux.Prelude.{
  ℕ, zero, suc, ◌+◌, ◌-◌, min, max, Bool, true, false, not, ◌&&◌, ◌||◌, Option, none, some, List,
  [], ◌∷◌, ◌++◌, length, get_elem?, take, ltb, leb, ◌==◌, if◌then◌else◌,
}
use vvmux.Prelude.Int.{ℤ, pos, negsuc, ◌+ℤ◌, ◌-ℤ◌}
use vvmux.Terminal.{Cell, Terminal, Text}

-- The entry of `history` that a line number below zero names, else the entry of `screen`.
unfoldable pub at_line {ℓ} : {A : Type ℓ} → List A → List A → ℤ → Option A
at_line history screen (pos line) = get_elem? screen line
at_line history screen (negsuc n) =
    if leb (suc n) (length history) then get_elem? history (length history - suc n) else none

abbrev pub viewport_line : Terminal → ℤ → Option (List Cell)
viewport_line t line = at_line t.history t.grid line

abbrev pub line_wrapped : Terminal → ℤ → Option Bool
line_wrapped t line = at_line t.history_wrapped t.grid_wrapped line

unfoldable pub is_significant : Cell → Bool
is_significant cell =
    not (cell.ch == 32)
    || elim cell.combining [ [] ↦ false | _ ∷ _ ↦ true ]
    || elim cell.tab_width [ none ↦ false | some w ↦ true ]
    || cell.wide_continuation
    || cell.leading_wide_spacer

-- The number of cells up to the last significant one.
unfoldable pub row_end : List Cell → ℕ
row_end [] = 0
row_end (cell ∷ cells) =
    let rest = row_end cells in
    if ltb 0 rest then suc rest else if is_significant cell then 1 else 0

-- The loop over the columns; `skip` columns belong to a tab before them.
unfoldable pub cells_text : ℕ → List Cell → Text
cells_text skip [] = []
cells_text (suc skip) (cell ∷ cells) = cells_text skip cells
cells_text zero (cell ∷ cells) = elim cell.tab_width [
  | some width ↦ 9 ∷ cells_text (max width 1 - 1) cells
  | none ↦
      let rest = cells_text zero cells in
      if not cell.wide_continuation && not cell.leading_wide_spacer
      then cell.ch ∷ (cell.combining ++ rest)
      else rest
]

unfoldable pub append_row_text : Text → List Cell → Text
append_row_text output cells = output ++ cells_text 0 (take (row_end cells) cells)

-- The loop of `extract_rows` from the row number `index` on.
unfoldable pub extract_from : Terminal → ℤ → ℕ → ℕ → Bool → Text → Text
extract_from t start index zero previous text = text
extract_from t start index (suc count) previous text = elim (viewport_line t (start +ℤ pos index)) [
  | none ↦ extract_from t start (suc index) count previous text
  | some cells ↦
      let text' = if ltb 0 index && not previous then text ++ (10 ∷ []) else text in
      let wrapped : Bool = elim (line_wrapped t (start +ℤ pos index)) [
        | none ↦ false
        | some w ↦ w
      ] in
      extract_from t start (suc index) count wrapped
        (append_row_text text' (take (min (length cells) t.cols) cells))
]

unfoldable pub extract_rows : Terminal → ℤ → ℕ → Text
extract_rows t start count = extract_from t start 0 count false []

unfoldable pub visible_text : Terminal → ℕ → Text
visible_text t display_offset =
    extract_rows t (pos 0 -ℤ pos (min display_offset (length t.history))) t.rows

unfoldable pub latest_text : Terminal → ℕ → Text
latest_text t rows =
    let available = length t.history + t.rows in
    let count = min rows available in
    extract_rows t (pos (available - count) -ℤ pos (length t.history)) count
