-- ===== src/Terminal/Run.antt =====
-- Every call that changes the terminal of vvmux-terminal/src/lib.rs: those of the escape-sequence
-- parser, by the trait `Handler`, and `resize`, which the session calls.
use vvmux.Prelude.{ℕ, Bool, Option, some, List, [], ◌∷◌, ◌>>=◌}
use vvmux.Prelude.Int.{ℤ}
use vvmux.Terminal.{Terminal, TerminalHyperlink, Text, resize}
use vvmux.Terminal.Scroll.{
  scroll_region_up, scroll_region_down, line_feed, newline, reverse_index, insert_blank_lines,
  delete_lines,
}
use vvmux.Terminal.Erase.{erase_chars, LineClearMode, clear_line, ClearMode, clear_screen}
use vvmux.Terminal.Write.{input, insert_blank, delete_chars}
use vvmux.Terminal.Cursor.{
  goto, goto_line, goto_col, move_up, move_down, move_forward, move_backward, move_down_and_cr,
  move_up_and_cr, carriage_return, backspace, put_tab, set_horizontal_tabstop, TabulationClearMode,
  clear_tabs, set_tabs, set_scrolling_region, save_cursor_position, restore_cursor_position,
}
use vvmux.Terminal.Modes.{
  Attr, terminal_attribute, set_title, set_hyperlink, set_keypad, bell, identify_terminal,
  update_private_mode, reset_state, device_status,
}

pub data TerminalOp : Type 0 where
  input_op : Option ℕ → ℕ → TerminalOp
  goto_op : ℤ → ℕ → TerminalOp
  goto_line_op : ℤ → TerminalOp
  goto_col_op move_up_op move_down_op move_forward_op move_backward_op : ℕ → TerminalOp
  move_down_and_cr_op move_up_and_cr_op put_tab_op set_tabs_op : ℕ → TerminalOp
  carriage_return_op linefeed_op newline_op backspace_op set_horizontal_tabstop_op : TerminalOp
  clear_tabs_op : TabulationClearMode → TerminalOp
  insert_blank_op delete_chars_op erase_chars_op : ℕ → TerminalOp
  clear_line_op : LineClearMode → TerminalOp
  clear_screen_op : ClearMode → TerminalOp
  scroll_up_op scroll_down_op insert_blank_lines_op delete_lines_op : ℕ → TerminalOp
  set_scrolling_region_op : ℕ → Option ℕ → TerminalOp
  save_cursor_op restore_cursor_op reverse_index_op reset_state_op : TerminalOp
  terminal_attribute_op : Attr → TerminalOp
  private_mode_op : ℕ → Bool → TerminalOp
  set_title_op : Option Text → TerminalOp
  set_hyperlink_op : Option TerminalHyperlink → TerminalOp
  set_keypad_op : Bool → TerminalOp
  bell_op identify_terminal_op : TerminalOp
  device_status_op : ℕ → TerminalOp
  resize_op : ℕ → ℕ → TerminalOp

-- `none` is a panic.
unfoldable pub apply_op : Terminal → TerminalOp → Option Terminal
apply_op t (input_op width c) = input width c t
apply_op t (goto_op line col) = some (goto t line col)
apply_op t (goto_line_op line) = some (goto_line t line)
apply_op t (goto_col_op col) = some (goto_col t col)
apply_op t (move_up_op n) = some (move_up t n)
apply_op t (move_down_op n) = some (move_down t n)
apply_op t (move_forward_op n) = some (move_forward t n)
apply_op t (move_backward_op n) = some (move_backward t n)
apply_op t (move_down_and_cr_op n) = some (move_down_and_cr t n)
apply_op t (move_up_and_cr_op n) = some (move_up_and_cr t n)
apply_op t (put_tab_op n) = put_tab t n
apply_op t (set_tabs_op n) = some (set_tabs t n)
apply_op t carriage_return_op = some (carriage_return t)
apply_op t linefeed_op = line_feed t
apply_op t newline_op = newline t
apply_op t backspace_op = some (backspace t)
apply_op t set_horizontal_tabstop_op = some (set_horizontal_tabstop t)
apply_op t (clear_tabs_op mode) = some (clear_tabs t mode)
apply_op t (insert_blank_op n) = insert_blank n t
apply_op t (delete_chars_op n) = delete_chars n t
apply_op t (erase_chars_op n) = erase_chars t n
apply_op t (clear_line_op mode) = clear_line t mode
apply_op t (clear_screen_op mode) = clear_screen t mode
apply_op t (scroll_up_op n) = scroll_region_up t n
apply_op t (scroll_down_op n) = scroll_region_down t n
apply_op t (insert_blank_lines_op n) = insert_blank_lines t n
apply_op t (delete_lines_op n) = delete_lines t n
apply_op t (set_scrolling_region_op top bottom) = some (set_scrolling_region t top bottom)
apply_op t save_cursor_op = some (save_cursor_position t)
apply_op t restore_cursor_op = some (restore_cursor_position t)
apply_op t reverse_index_op = reverse_index t
apply_op t reset_state_op = some (reset_state t)
apply_op t (terminal_attribute_op attr) = some (terminal_attribute t attr)
apply_op t (private_mode_op number enabled) = some (update_private_mode t number enabled)
apply_op t (set_title_op title) = some (set_title t title)
apply_op t (set_hyperlink_op link) = some (set_hyperlink t link)
apply_op t (set_keypad_op enabled) = some (set_keypad t enabled)
apply_op t bell_op = some (bell t)
apply_op t identify_terminal_op = some (identify_terminal t)
apply_op t (device_status_op status) = some (device_status t status)
apply_op t (resize_op rows cols) = some (resize t rows cols)

unfoldable pub run : Terminal → List TerminalOp → Option Terminal
run t [] = some t
run t (op ∷ ops) = do t' ← apply_op t op; run t' ops
