-- ===== src/Terminal/Cursor.antt =====
-- The cursor, the tab stops and the scrolling region of vvmux-terminal/src/lib.rs.
use vvmux.Prelude.{
  ℕ, zero, suc, ◌+◌, ◌-◌, min, max, Bool, true, false, Option, none, some, List, [], ◌∷◌,
}
use vvmux.Prelude.Int.{ℤ, pos, pos_part, wrap, half_i32}
use vvmux.Prelude.Word.{clamp, add_usize}
use vvmux.Terminal.{Terminal, default_tab_stops}
use vvmux.Terminal.Scroll.{repeat}
use vvmux.Terminal.Write.{put_tab_once}
use vvmux.Terminal.Erase.{fill_false}

-- `line.max(0) as usize`
unfoldable pub goto : Terminal → ℤ → ℕ → Terminal
goto t line col = record t {
  cursor_row = min (pos_part line) (t.rows - 1);
  cursor_col = min col (t.cols - 1);
}

unfoldable pub goto_line : Terminal → ℤ → Terminal
goto_line t line = goto t line t.cursor_col

unfoldable pub goto_col : Terminal → ℕ → Terminal
goto_col t col = goto t (wrap half_i32 (pos t.cursor_row)) col

unfoldable pub move_up : Terminal → ℕ → Terminal
move_up t rows = record t { cursor_row = max (t.cursor_row - rows) t.scroll_top }

unfoldable pub move_down : Terminal → ℕ → Terminal
move_down t rows = record t { cursor_row = min (add_usize t.cursor_row rows) (t.scroll_bottom - 1) }

unfoldable pub move_forward : Terminal → ℕ → Terminal
move_forward t cols = record t { cursor_col = min (add_usize t.cursor_col cols) (t.cols - 1) }

unfoldable pub move_backward : Terminal → ℕ → Terminal
move_backward t cols = record t { cursor_col = t.cursor_col - cols }

abbrev pub carriage_return : Terminal → Terminal
carriage_return t = record t { cursor_col = 0 }

unfoldable pub move_down_and_cr : Terminal → ℕ → Terminal
move_down_and_cr t rows = carriage_return (move_down t rows)

unfoldable pub move_up_and_cr : Terminal → ℕ → Terminal
move_up_and_cr t rows = carriage_return (move_up t rows)

unfoldable pub backspace : Terminal → Terminal
backspace t = record t { cursor_col = t.cursor_col - 1 }

unfoldable pub put_tab : Terminal → ℕ → Option Terminal
put_tab t count = repeat count put_tab_once t

-- `if let Some(stop) = self.tab_stops.get_mut(column) { *stop = value; }`
unfoldable pub set_stop : ℕ → Bool → List Bool → List Bool
set_stop column value [] = []
set_stop zero value (stop ∷ stops) = value ∷ stops
set_stop (suc column) value (stop ∷ stops) = stop ∷ set_stop column value stops

unfoldable pub set_horizontal_tabstop : Terminal → Terminal
set_horizontal_tabstop t = record t {
  tab_stops_customized = true;
  tab_stops = set_stop t.cursor_col true t.tab_stops;
}

pub data TabulationClearMode : Type 0 where
  current_stop all_stops : TabulationClearMode

unfoldable pub clear_tabs : Terminal → TabulationClearMode → Terminal
clear_tabs t current_stop = record t {
  tab_stops_customized = true;
  tab_stops = set_stop t.cursor_col false t.tab_stops;
}
clear_tabs t all_stops = record t {
  tab_stops_customized = true;
  tab_stops = fill_false t.tab_stops;
}

unfoldable pub set_tabs : Terminal → ℕ → Terminal
set_tabs t interval = record t {
  tab_stops_customized = true;
  tab_stops = default_tab_stops t.cols (max interval 1);
}

unfoldable pub set_scrolling_region : Terminal → ℕ → Option ℕ → Terminal
set_scrolling_region t top bottom =
    let scroll_top = min (top - 1) (t.rows - 1) in
    let bottom' : ℕ = elim bottom [ none ↦ t.rows | some b ↦ b ] in
    goto
      (record t { scroll_top = scroll_top; scroll_bottom = clamp (scroll_top + 1) t.rows bottom' })
      (pos 0) 0

unfoldable pub save_cursor_position : Terminal → Terminal
save_cursor_position t = record t { saved_cursor = (t.cursor_row, t.cursor_col) }

unfoldable pub restore_cursor_position : Terminal → Terminal
restore_cursor_position t = record t {
  cursor_row = min t.saved_cursor.0 (t.rows - 1);
  cursor_col = min t.saved_cursor.1 (t.cols - 1);
}
