-- ===== src/Screen/Diff.antt =====
-- `ansi_diff` of src/screen.rs. The output is the list of its characters, of which the source
-- writes the UTF-8 bytes. A panic of the source is `none`.
use vvmux.Prelude.{
  ℕ, zero, suc, ◌+◌, ◌*◌, Bool, true, false, not, ◌&&◌, ◌||◌, Option, none, some, List, [], ◌∷◌,
  ◌++◌, get_elem?, ltb, leb, ◌==◌, if◌then◌else◌, ◌>>=◌,
}
use vvmux.Prelude.Word.{add_u16}
use vvmux.Terminal.{
  TerminalColor, default_color, indexed, rgb, UnderlineStyle, no_underline, single, double, curl,
  dotted, dashed, Text, TerminalHyperlink, Cell,
}
use vvmux.Terminal.Modes.{decimal}
use vvmux.Screen.{ScreenBuffer}
use vvmux.Screen.Same.{same_flag, same_option, same_color, same_underline, same_link, same_cell}

pub record Style : Type 0 where
  pub foreground : TerminalColor
  pub background : TerminalColor
  pub bold : Bool
  pub dim : Bool
  pub italic : Bool
  pub underline : UnderlineStyle
  pub underline_color : Option TerminalColor
  pub blink : Bool
  pub inverse : Bool
  pub hidden : Bool
  pub strikeout : Bool
  pub hyperlink : Option TerminalHyperlink

-- `char::is_control`
unfoldable pub is_control : ℕ → Bool
is_control ch = ltb ch 32 || (leb 127 ch && leb ch 159)

unfoldable pub any_char : (ℕ → Bool) → Text → Bool
any_char test [] = false
any_char test (ch ∷ chs) = test ch || any_char test chs

unfoldable pub is_plain : TerminalHyperlink → Bool
is_plain link = not (any_char is_control link.uri) && elim link.id [
  | none ↦ true
  | some id ↦ not (any_char is_control id) && not (any_char (λ ch. ch == 59) id)
]

unfoldable pub plain_link : Option TerminalHyperlink → Option TerminalHyperlink
plain_link none = none
plain_link (some link) = if is_plain link then some link else none

unfoldable pub style_of : Cell → Style
style_of cell = record {
  foreground = cell.foreground;
  background = cell.background;
  bold = cell.bold;
  dim = cell.dim;
  italic = cell.italic;
  underline = cell.underline_style;
  underline_color = cell.underline_color;
  blink = cell.blink;
  inverse = cell.inverse;
  hidden = cell.hidden;
  strikeout = cell.strikeout;
  hyperlink = plain_link cell.hyperlink;
}

unfoldable pub same_style : Style → Style → Bool
same_style a b =
    same_color a.foreground b.foreground
    && same_color a.background b.background
    && same_flag a.bold b.bold
    && same_flag a.dim b.dim
    && same_flag a.italic b.italic
    && same_underline a.underline b.underline
    && same_option same_color a.underline_color b.underline_color
    && same_flag a.blink b.blink
    && same_flag a.inverse b.inverse
    && same_flag a.hidden b.hidden
    && same_flag a.strikeout b.strikeout
    && same_option same_link a.hyperlink b.hyperlink

-- `;58;5;` and the like: numbers, each behind a semicolon.
unfoldable pub numbers : List ℕ → Text
numbers [] = []
numbers (n ∷ ns) = 59 ∷ (decimal n ++ numbers ns)

unfoldable pub write_color : TerminalColor → Bool → Text
write_color default_color foreground = numbers ((if foreground then 39 else 49) ∷ [])
write_color (indexed index) foreground =
    if ltb index 8
    then numbers ((if foreground then 30 + index else 40 + index) ∷ [])
    else if ltb index 16
    then numbers ((if foreground then 82 + index else 92 + index) ∷ [])
    else numbers ((if foreground then 38 else 48) ∷ 5 ∷ index ∷ [])
write_color (rgb red green blue) foreground =
    numbers ((if foreground then 38 else 48) ∷ 2 ∷ red ∷ green ∷ blue ∷ [])

unfoldable pub write_underline_color : Option TerminalColor → Text
write_underline_color none = numbers (59 ∷ [])
write_underline_color (some default_color) = numbers (59 ∷ [])
write_underline_color (some (indexed index)) = numbers (58 ∷ 5 ∷ index ∷ [])
write_underline_color (some (rgb red green blue)) = numbers (58 ∷ 2 ∷ red ∷ green ∷ blue ∷ [])

unfoldable pub write_underline : UnderlineStyle → Text
write_underline no_underline = []
write_underline single = 59 ∷ 52 ∷ []
write_underline double = 59 ∷ 52 ∷ 58 ∷ 50 ∷ []
write_underline curl = 59 ∷ 52 ∷ 58 ∷ 51 ∷ []
write_underline dotted = 59 ∷ 52 ∷ 58 ∷ 52 ∷ []
write_underline dashed = 59 ∷ 52 ∷ 58 ∷ 53 ∷ []

-- ESC ] 8 ; ; ESC \
abbrev pub close_link : Text
close_link = 27 ∷ 93 ∷ 56 ∷ 59 ∷ 59 ∷ 27 ∷ 92 ∷ []

unfoldable pub write_link : Option TerminalHyperlink → Text
write_link none = []
write_link (some link) =
    (27 ∷ 93 ∷ 56 ∷ 59 ∷ [])
    ++ (elim link.id [ none ↦ [] | some id ↦ (105 ∷ 100 ∷ 61 ∷ []) ++ id ]
        ++ ((59 ∷ []) ++ (link.uri ++ (27 ∷ 92 ∷ []))))

unfoldable pub flag : Bool → ℕ → Text
flag present digit = if present then 59 ∷ digit ∷ [] else []

unfoldable pub write_style : Style → Text
write_style s =
    close_link
    ++ ((27 ∷ 91 ∷ 48 ∷ [])
        ++ (flag s.bold 49
            ++ (flag s.dim 50
                ++ (flag s.italic 51
                    ++ (write_underline s.underline
                        ++ (flag s.blink 53
                            ++ (flag s.inverse 55
                                ++ (flag s.hidden 56
                                    ++ (flag s.strikeout 57
                                        ++ (write_color s.foreground true
                                            ++ (write_color s.background false
                                                ++ (write_underline_color s.underline_color
                                                    ++ ((109 ∷ [])
                                                        ++ write_link s.hyperlink)))))))))))))

-- ESC [ row ; column H
unfoldable pub move_to : ℕ → ℕ → Text
move_to row column =
    (27 ∷ 91 ∷ [])
    ++ (decimal (add_u16 row 1) ++ ((59 ∷ []) ++ (decimal (add_u16 column 1) ++ (72 ∷ []))))

-- The output so far with the style that was written last.
abbrev pub Output : Type 0
Output = Text × Option Style

unfoldable pub switch_style : Style → Output → Output
switch_style next (text, style) =
    if same_option same_style style (some next)
    then (text, style)
    else (text ++ write_style next, some next)

unfoldable pub paint_cell : Cell → Output → Output
paint_cell cell output =
    let styled = switch_style (style_of cell) output in
    if cell.wide_continuation then styled else (styled.0 ++ (cell.ch ∷ cell.combining), styled.1)

-- `previous` is the screen before, if the diff is not full.
unfoldable pub is_changed : Option ScreenBuffer → ℕ → Cell → Option Bool
is_changed none index cell = some true
is_changed (some old) index cell = do
  before ← get_elem? old.cells index
  some (not (same_cell before cell))

-- A column of a row, where `inside` says that the one before was painted.
unfoldable pub paint_column : ℕ → ℕ → Bool → Bool → Cell → Output → Output
paint_column row column inside changed cell output =
    if changed
    then paint_cell cell (if inside then output else (output.0 ++ move_to row column, output.1))
    else output

-- The two nested loops over the columns of a row.
unfoldable pub paint_row :
    Option ScreenBuffer → ScreenBuffer → ℕ → ℕ → ℕ → Bool → Output → Option Output
paint_row previous current row column zero inside output = some output
paint_row previous current row column (suc count) inside output = do
  cell ← get_elem? current.cells (row * current.columns + column)
  changed ← is_changed previous (row * current.columns + column) cell
  paint_row previous current row (suc column) count changed
      (paint_column row column inside changed cell output)

unfoldable pub paint_rows : Option ScreenBuffer → ScreenBuffer → ℕ → ℕ → Output → Option Output
paint_rows previous current row zero output = some output
paint_rows previous current row (suc count) output = do
  output' ← paint_row previous current row 0 current.columns false output
  paint_rows previous current (suc row) count output'

unfoldable pub is_full : Option ScreenBuffer → ScreenBuffer → Bool → Bool
is_full none current force_full = true
is_full (some old) current force_full =
    force_full || not (old.rows == current.rows) || not (old.columns == current.columns)

-- The end of the output: links closed, styles reset, and the cursor.
unfoldable pub epilogue : ScreenBuffer → Text
epilogue current =
    close_link
    ++ ((27 ∷ 91 ∷ 48 ∷ 109 ∷ []) ++ elim current.cursor [
      | none ↦ 27 ∷ 91 ∷ 63 ∷ 50 ∷ 53 ∷ 108 ∷ []
      | some (x, y) ↦ move_to y x ++ (27 ∷ 91 ∷ 63 ∷ 50 ∷ 53 ∷ 104 ∷ [])
    ])

-- ESC [0m ESC [?25l ESC [H
abbrev pub prologue : Text
prologue = 27 ∷ 91 ∷ 48 ∷ 109 ∷ 27 ∷ 91 ∷ 63 ∷ 50 ∷ 53 ∷ 108 ∷ 27 ∷ 91 ∷ 72 ∷ []

unfoldable pub ansi_diff : Option ScreenBuffer → ScreenBuffer → Bool → Option Text
ansi_diff previous current force_full = do
  let full = is_full previous current force_full
  output ←
      paint_rows (if full then none else previous) current 0 current.rows
        (if full then prologue else [], none)
  some (output.0 ++ epilogue current)
