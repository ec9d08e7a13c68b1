-- ===== src/Terminal/Modes.antt =====
-- The attributes, modes and reports of vvmux-terminal/src/lib.rs. `Attr` and `Color` have the
-- constructors that the source matches on; a named color comes with what the source asks of it.
use vvmux.Prelude.{
  ℕ, zero, suc, ◌+◌, ◌/◌, ◌%◌, Bool, true, false, not, ◌&&◌, Option, none, some, List, [], ◌∷◌,
  ◌++◌, ltb, ◌==◌, if◌then◌else◌,
}
use vvmux.Terminal.{
  TerminalColor, default_color, indexed, rgb, UnderlineStyle, no_underline, single, double, curl,
  dotted, dashed, TerminalHyperlink, Cell, default_cell, TerminalModes, initial_modes, bell_event,
  clear_event, title_event, pty_write, mode_change, Text, Terminal, push_event, damage, blank_grid,
  default_tab_stops,
}
use vvmux.Terminal.Erase.{fill_false}

pub record NamedColor : Type 0 where
  pub index : ℕ
  pub is_foreground : Bool
  pub is_background : Bool

pub data Color : Type 0 where
  indexed_color : ℕ → Color
  spec : ℕ → ℕ → ℕ → Color
  named : NamedColor → Color

unfoldable pub convert_color : Color → Bool → TerminalColor
convert_color (indexed_color index) foreground = indexed index
convert_color (spec r g b) foreground = rgb r g b
convert_color (named n) foreground =
    if n.is_foreground && foreground
    then default_color
    else if n.is_background && not foreground
    then default_color
    else if ltb n.index 16
    then indexed n.index
    else default_color

pub data Attr : Type 0 where
  reset bold dim cancel_bold cancel_bold_dim italic cancel_italic : Attr
  underline double_underline undercurl dotted_underline dashed_underline cancel_underline : Attr
  underline_color : Option Color → Attr
  blink_slow blink_fast cancel_blink reverse cancel_reverse hidden cancel_hidden : Attr
  strike cancel_strike : Attr
  foreground background : Color → Attr

unfoldable pub set_underline : Cell → UnderlineStyle → Cell
set_underline cell style = record cell {
  underline = elim style [ no_underline ↦ false | _ ↦ true ];
  underline_style = style;
}

-- `terminal_attribute` on the template.
unfoldable pub apply_attribute : Cell → Attr → Cell
apply_attribute cell reset = record default_cell { hyperlink = cell.hyperlink }
apply_attribute cell bold = record cell { bold = true }
apply_attribute cell dim = record cell { dim = true }
apply_attribute cell cancel_bold = record cell { bold = false }
apply_attribute cell cancel_bold_dim = record cell { bold = false; dim = false }
apply_attribute cell italic = record cell { italic = true }
apply_attribute cell cancel_italic = record cell { italic = false }
apply_attribute cell underline = set_underline cell single
apply_attribute cell double_underline = set_underline cell double
apply_attribute cell undercurl = set_underline cell curl
apply_attribute cell dotted_underline = set_underline cell dotted
apply_attribute cell dashed_underline = set_underline cell dashed
apply_attribute cell cancel_underline = set_underline cell no_underline
apply_attribute cell (underline_color none) = record cell { underline_color = none }
apply_attribute cell (underline_color (some c)) = record cell {
  underline_color = some (convert_color c true);
}
apply_attribute cell blink_slow = record cell { blink = true }
apply_attribute cell blink_fast = record cell { blink = true }
apply_attribute cell cancel_blink = record cell { blink = false }
apply_attribute cell reverse = record cell { inverse = true }
apply_attribute cell cancel_reverse = record cell { inverse = false }
apply_attribute cell hidden = record cell { hidden = true }
apply_attribute cell cancel_hidden = record cell { hidden = false }
apply_attribute cell strike = record cell { strikeout = true }
apply_attribute cell cancel_strike = record cell { strikeout = false }
apply_attribute cell (foreground c) = record cell { foreground = convert_color c true }
apply_attribute cell (background c) = record cell { background = convert_color c false }

unfoldable pub terminal_attribute : Terminal → Attr → Terminal
terminal_attribute t attr = record t { template = apply_attribute t.template attr }

unfoldable pub set_title : Terminal → Option Text → Terminal
set_title t title = push_event (title_event title) (record t { title = title })

unfoldable pub set_hyperlink : Terminal → Option TerminalHyperlink → Terminal
set_hyperlink t link = record t { template = record t.template { hyperlink = link } }

unfoldable pub set_keypad : Terminal → Bool → Terminal
set_keypad t enabled =
    let modes : TerminalModes = record t.modes { application_keypad = enabled } in
    push_event (mode_change modes) (record t { modes = modes })

unfoldable pub bell : Terminal → Terminal
bell t = push_event bell_event t

-- `ESC [ ? 6 2 ; 4 c`
unfoldable pub identify_terminal : Terminal → Terminal
identify_terminal t = push_event (pty_write (27 ∷ 91 ∷ 63 ∷ 54 ∷ 50 ∷ 59 ∷ 52 ∷ 99 ∷ [])) t

-- The modes that `update_private_mode` only sets.
unfoldable pub set_mode : TerminalModes → ℕ → Bool → TerminalModes
set_mode m number enabled =
    if number == 1
    then record m { application_cursor = enabled }
    else if number == 2004
    then record m { bracketed_paste = enabled }
    else if number == 1000
    then record m { mouse_clicks = enabled }
    else if number == 1002
    then record m { mouse_motion = enabled }
    else if number == 1003
    then record m { mouse_motion = enabled }
    else if number == 1006
    then record m { sgr_mouse = enabled }
    else if number == 1004
    then record m { focus_reporting = enabled }
    else if number == 25
    then record m { cursor_visible = enabled }
    else m

unfoldable pub same_flag : Bool → Bool → Bool
same_flag true b = b
same_flag false b = not b

-- The swap of the two screens.
unfoldable pub switch_screen : Terminal → Bool → Terminal
switch_screen t enabled = damage (record t {
  grid = t.alternate_grid;
  alternate_grid = t.grid;
  grid_wrapped = t.alternate_grid_wrapped;
  alternate_grid_wrapped = t.grid_wrapped;
  alternate_screen = enabled;
  cursor_row = 0;
  cursor_col = 0;
})

unfoldable pub update_private_mode : Terminal → ℕ → Bool → Terminal
update_private_mode t number enabled =
    let t' : Terminal =
      if (number == 1049) && not (same_flag enabled t.alternate_screen)
      then switch_screen t enabled
      else record t { modes = set_mode t.modes number enabled } in
    push_event (mode_change t'.modes) t'

unfoldable pub reset_state : Terminal → Terminal
reset_state t = damage (
    push_event clear_event (record t {
      grid = blank_grid t.rows t.cols;
      alternate_grid = blank_grid t.rows t.cols;
      grid_wrapped = fill_false t.grid_wrapped;
      alternate_grid_wrapped = fill_false t.alternate_grid_wrapped;
      history = [];
      history_wrapped = [];
      cursor_row = 0;
      cursor_col = 0;
      scroll_top = 0;
      scroll_bottom = t.rows;
      template = default_cell;
      tab_stops = default_tab_stops t.cols 8;
      tab_stops_customized = false;
      modes = initial_modes;
    }))

-- The decimal digits of a number, on fuel.
unfoldable pub digits : ℕ → ℕ → List ℕ → List ℕ
digits zero n later = later
digits (suc fuel) n later =
    let next = (48 + n % 10) ∷ later in
    let rest = digits fuel (n / 10) next in if ltb n 10 then next else rest

-- A number has no more digits than it counts, so the fuel is enough.
unfoldable pub decimal : ℕ → List ℕ
decimal n = digits (suc n) n []

unfoldable pub device_status : Terminal → ℕ → Terminal
device_status t status =
    if status == 5
    then push_event (pty_write (27 ∷ 91 ∷ 48 ∷ 110 ∷ [])) t
    else if status == 6
    then push_event
        (pty_write (
          27
          ∷ 91
          ∷ (decimal (t.cursor_row + 1) ++ (59 ∷ (decimal (t.cursor_col + 1) ++ (82 ∷ []))))))
        t
    else t
