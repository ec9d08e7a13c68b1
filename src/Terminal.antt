-- ===== src/Terminal.antt =====
-- `Terminal` of vvmux-terminal/src/lib.rs: the state, `new`, `resize` and what the handlers share.
-- The escape-sequence parser and the marker scanner that it holds are not part of this state.
pub mod Vectors
pub mod Scroll
pub mod Erase
pub mod Write
pub mod Cursor
pub mod Modes
pub mod Text
pub mod Run
pub mod Marker
pub mod Window
pub mod Outside
pub mod Valid
use vvmux.Prelude.{
  ℕ, zero, suc, ◌+◌, ◌-◌, ◌%◌, max, min, Bool, true, false, not, ◌&&◌, ◌||◌, Option, none, some,
  List, [], ◌∷◌, ◌++◌, map, ltb, ◌==◌, if◌then◌else◌,
}
use vvmux.Prelude.Int.{ℤ}
use Vectors.{replicate, resize_to}

pub data TerminalColor : Type 0 where
  default_color : TerminalColor
  indexed : ℕ → TerminalColor
  rgb : ℕ → ℕ → ℕ → TerminalColor

pub data UnderlineStyle : Type 0 where
  no_underline single double curl dotted dashed : UnderlineStyle

-- A text is the list of its characters.
abbrev pub Text : Type 0
Text = List ℕ

pub record TerminalHyperlink : Type 0 where
  pub id : Option Text
  pub uri : Text

pub record Cell : Type 0 where
  pub ch : ℕ
  pub combining : Text
  pub foreground : TerminalColor
  pub background : TerminalColor
  pub bold : Bool
  pub dim : Bool
  pub italic : Bool
  pub underline : Bool
  pub underline_style : UnderlineStyle
  pub underline_color : Option TerminalColor
  pub blink : Bool
  pub inverse : Bool
  pub hidden : Bool
  pub strikeout : Bool
  pub wide_continuation : Bool
  pub leading_wide_spacer : Bool
  pub tab_width : Option ℕ
  pub hyperlink : Option TerminalHyperlink

abbrev pub default_cell : Cell
default_cell = record {
  ch = 32;
  combining = [];
  foreground = default_color;
  background = default_color;
  bold = false;
  dim = false;
  italic = false;
  underline = false;
  underline_style = no_underline;
  underline_color = none;
  blink = false;
  inverse = false;
  hidden = false;
  strikeout = false;
  wide_continuation = false;
  leading_wide_spacer = false;
  tab_width = none;
  hyperlink = none;
}

pub record TerminalModes : Type 0 where
  pub application_cursor : Bool
  pub bracketed_paste : Bool
  pub mouse_clicks : Bool
  pub mouse_motion : Bool
  pub sgr_mouse : Bool
  pub focus_reporting : Bool
  pub cursor_visible : Bool
  pub application_keypad : Bool

abbrev pub initial_modes : TerminalModes
initial_modes = record {
  application_cursor = false;
  bracketed_paste = false;
  mouse_clicks = false;
  mouse_motion = false;
  sgr_mouse = false;
  focus_reporting = false;
  cursor_visible = true;
  application_keypad = false;
}

pub data TerminalEvent : Type 0 where
  damage_event bell_event clear_event : TerminalEvent
  title_event : Option Text → TerminalEvent
  pty_write : List ℕ → TerminalEvent
  mode_change : TerminalModes → TerminalEvent
  vivid_marker : Text → ℕ → ℕ → TerminalEvent
  grid_scroll : ℤ → TerminalEvent

abbrev pub Grid : Type 0
Grid = List (List Cell)

pub record Terminal : Type 0 where
  pub rows : ℕ
  pub cols : ℕ
  pub grid : Grid
  pub alternate_grid : Grid
  pub grid_wrapped : List Bool
  pub alternate_grid_wrapped : List Bool
  pub history : Grid
  pub history_wrapped : List Bool
  pub history_limit : ℕ
  pub cursor_row : ℕ
  pub cursor_col : ℕ
  pub saved_cursor : ℕ × ℕ
  pub scroll_top : ℕ
  pub scroll_bottom : ℕ
  pub template : Cell
  pub events : List TerminalEvent
  pub modes : TerminalModes
  pub title : Option Text
  pub alternate_screen : Bool
  pub tab_stops : List Bool
  pub tab_stops_customized : Bool

abbrev pub blank_grid : ℕ → ℕ → Grid
blank_grid rows cols = replicate rows (replicate cols default_cell)

-- The stops of `count` columns from `column` on.
unfoldable pub tab_stops_from : ℕ → ℕ → ℕ → List Bool
tab_stops_from column zero interval = []
tab_stops_from column (suc count) interval =
    (ltb 0 column && column % interval == 0) ∷ tab_stops_from (suc column) count interval

abbrev pub default_tab_stops : ℕ → ℕ → List Bool
default_tab_stops cols interval = tab_stops_from 0 cols interval

unfoldable pub new : ℕ → ℕ → ℕ → Terminal
new rows' cols' history_limit =
    let rows = max rows' 1 in
    let cols = max cols' 1 in
    record {
      rows = rows;
      cols = cols;
      grid = blank_grid rows cols;
      alternate_grid = blank_grid rows cols;
      grid_wrapped = replicate rows false;
      alternate_grid_wrapped = replicate rows false;
      history = [];
      history_wrapped = [];
      history_limit = history_limit;
      cursor_row = 0;
      cursor_col = 0;
      saved_cursor = (0, 0);
      scroll_top = 0;
      scroll_bottom = rows;
      template = default_cell;
      events = [];
      modes = initial_modes;
      title = none;
      alternate_screen = false;
      tab_stops = default_tab_stops cols 8;
      tab_stops_customized = false;
    }

abbrev pub push_event : TerminalEvent → Terminal → Terminal
push_event e t = record t { events = t.events ++ (e ∷ []) }

unfoldable pub has_damage : List TerminalEvent → Bool
has_damage [] = false
has_damage (damage_event ∷ es) = true
has_damage (_ ∷ es) = has_damage es

unfoldable pub damage : Terminal → Terminal
damage t = if has_damage t.events then t else push_event damage_event t

unfoldable pub blank : Terminal → Cell
blank t = record t.template {
  ch = 32;
  combining = [];
  wide_continuation = false;
  leading_wide_spacer = false;
  tab_width = none;
}

-- `resize_grid`: new rows are blank, and every row gets the width.
abbrev pub resize_grid : Grid → ℕ → ℕ → Grid
resize_grid grid rows cols =
    map (resize_to cols default_cell) (resize_to rows (replicate cols default_cell) grid)

unfoldable pub resize : Terminal → ℕ → ℕ → Terminal
resize t rows' cols' =
    let rows = max rows' 1 in
    let cols = max cols' 1 in
    push_event damage_event (record t {
      rows = rows;
      cols = cols;
      grid = resize_grid t.grid rows cols;
      alternate_grid = resize_grid t.alternate_grid rows cols;
      grid_wrapped = resize_to rows false t.grid_wrapped;
      alternate_grid_wrapped = resize_to rows false t.alternate_grid_wrapped;
      tab_stops =
          if t.tab_stops_customized
          then resize_to cols false t.tab_stops
          else default_tab_stops cols 8;
      cursor_row = min t.cursor_row (rows - 1);
      cursor_col = min t.cursor_col (cols - 1);
      scroll_top = 0;
      scroll_bottom = rows;
    })
