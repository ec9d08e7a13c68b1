-- ===== src/Terminal/Valid/Runs.antt =====
-- No sequence of calls makes the terminal of vvmux-terminal/src/lib.rs panic.
use vvmux.Prelude.{ℕ, Option, none, some, List, [], ◌∷◌, ◌≡◌, refl}
use vvmux.Terminal.{Terminal, new}
use vvmux.Terminal.Vectors.{Safe, Safe-bind, Safe-weaken}
use vvmux.Terminal.Run.{
  TerminalOp, input_op, goto_op, goto_line_op, goto_col_op, move_up_op, move_down_op,
  move_forward_op, move_backward_op, move_down_and_cr_op, move_up_and_cr_op, put_tab_op,
  set_tabs_op, carriage_return_op, linefeed_op, newline_op, backspace_op, set_horizontal_tabstop_op,
  clear_tabs_op, insert_blank_op, delete_chars_op, erase_chars_op, clear_line_op, clear_screen_op,
  scroll_up_op, scroll_down_op, insert_blank_lines_op, delete_lines_op, set_scrolling_region_op,
  save_cursor_op, restore_cursor_op, reverse_index_op, reset_state_op, terminal_attribute_op,
  private_mode_op, set_title_op, set_hyperlink_op, set_keypad_op, bell_op, identify_terminal_op,
  device_status_op, resize_op, apply_op, run,
}
use vvmux.Terminal.Cursor.{move_down_and_cr, move_up_and_cr}
use vvmux.Terminal.Valid.{IsValid, new-IsValid, resize-IsValid}
use vvmux.Terminal.Valid.Moves.{
  goto-IsValid, goto_line-IsValid, goto_col-IsValid, move_up-IsValid, move_down-IsValid,
  move_forward-IsValid, move_backward-IsValid, carriage_return-IsValid, backspace-IsValid,
  set_horizontal_tabstop-IsValid, clear_tabs-IsValid, set_tabs-IsValid,
  set_scrolling_region-IsValid, save_cursor_position-IsValid, restore_cursor_position-IsValid,
  reset_state-IsValid, terminal_attribute-IsValid, update_private_mode-IsValid, set_title-IsValid,
  set_hyperlink-IsValid, set_keypad-IsValid, bell-IsValid, identify_terminal-IsValid,
  device_status-IsValid,
}
use vvmux.Terminal.Valid.Scrolls.{
  Fed, scroll_region_up-Fed, scroll_region_down-Fed, line_feed-Fed, newline-IsValid,
  reverse_index-IsValid, insert_blank_lines-IsValid, delete_lines-IsValid,
}
use vvmux.Terminal.Valid.Erases.{erase_chars-IsValid, clear_line-IsValid, clear_screen-IsValid}
use vvmux.Terminal.Valid.Writes.{input-IsValid}
use vvmux.Terminal.Valid.Shifts.{insert_blank-IsValid, delete_chars-IsValid, put_tab-IsValid}

Fed-IsValid : (t : Terminal) (m : Option Terminal) → Safe (Fed t) m → Safe IsValid m
Fed-IsValid t m s = Safe-weaken (Fed t) IsValid m s (λ t' f. f.valid)

-- On a well-formed terminal no call panics, and each leaves a well-formed terminal.
pub apply_op-IsValid : (t : Terminal) (op : TerminalOp) → IsValid t → Safe IsValid (apply_op t op)
unfolding apply_op move_down_and_cr move_up_and_cr
apply_op-IsValid t (input_op width c) v = input-IsValid width c t v
apply_op-IsValid t (goto_op line col) v = goto-IsValid t line col v
apply_op-IsValid t (goto_line_op line) v = goto_line-IsValid t line v
apply_op-IsValid t (goto_col_op col) v = goto_col-IsValid t col v
apply_op-IsValid t (move_up_op n) v = move_up-IsValid t n v
apply_op-IsValid t (move_down_op n) v = move_down-IsValid t n v
apply_op-IsValid t (move_forward_op n) v = move_forward-IsValid t n v
apply_op-IsValid t (move_backward_op n) v = move_backward-IsValid t n v
apply_op-IsValid t (move_down_and_cr_op n) v = carriage_return-IsValid _ (move_down-IsValid t n v)
apply_op-IsValid t (move_up_and_cr_op n) v = carriage_return-IsValid _ (move_up-IsValid t n v)
apply_op-IsValid t (put_tab_op n) v = put_tab-IsValid t n v
apply_op-IsValid t (set_tabs_op n) v = set_tabs-IsValid t n v
apply_op-IsValid t carriage_return_op v = carriage_return-IsValid t v
apply_op-IsValid t linefeed_op v = Fed-IsValid t _ (line_feed-Fed t v)
apply_op-IsValid t newline_op v = newline-IsValid t v
apply_op-IsValid t backspace_op v = backspace-IsValid t v
apply_op-IsValid t set_horizontal_tabstop_op v = set_horizontal_tabstop-IsValid t v
apply_op-IsValid t (clear_tabs_op mode) v = clear_tabs-IsValid t mode v
apply_op-IsValid t (insert_blank_op n) v = insert_blank-IsValid n t v
apply_op-IsValid t (delete_chars_op n) v = delete_chars-IsValid n t v
apply_op-IsValid t (erase_chars_op n) v = erase_chars-IsValid t n v
apply_op-IsValid t (clear_line_op mode) v = clear_line-IsValid t mode v
apply_op-IsValid t (clear_screen_op mode) v = clear_screen-IsValid t mode v
apply_op-IsValid t (scroll_up_op n) v = Fed-IsValid t _ (scroll_region_up-Fed t n v)
apply_op-IsValid t (scroll_down_op n) v = Fed-IsValid t _ (scroll_region_down-Fed t n v)
apply_op-IsValid t (insert_blank_lines_op n) v = insert_blank_lines-IsValid t n v
apply_op-IsValid t (delete_lines_op n) v = delete_lines-IsValid t n v
apply_op-IsValid t (set_scrolling_region_op top bottom) v =
    set_scrolling_region-IsValid t top bottom v
apply_op-IsValid t save_cursor_op v = save_cursor_position-IsValid t v
apply_op-IsValid t restore_cursor_op v = restore_cursor_position-IsValid t v
apply_op-IsValid t reverse_index_op v = reverse_index-IsValid t v
apply_op-IsValid t reset_state_op v = reset_state-IsValid t v
apply_op-IsValid t (terminal_attribute_op attr) v = terminal_attribute-IsValid t attr v
apply_op-IsValid t (private_mode_op number enabled) v =
    update_private_mode-IsValid t number enabled v
apply_op-IsValid t (set_title_op title) v = set_title-IsValid t title v
apply_op-IsValid t (set_hyperlink_op link) v = set_hyperlink-IsValid t link v
apply_op-IsValid t (set_keypad_op enabled) v = set_keypad-IsValid t enabled v
apply_op-IsValid t bell_op v = bell-IsValid t v
apply_op-IsValid t identify_terminal_op v = identify_terminal-IsValid t v
apply_op-IsValid t (device_status_op status) v = device_status-IsValid t status v
apply_op-IsValid t (resize_op rows cols) v = resize-IsValid t rows cols v

run-Safe : (t : Terminal) (ops : List TerminalOp) → IsValid t → Safe IsValid (run t ops)
unfolding run
run-Safe t [] v = v
run-Safe t (op ∷ ops) v =
    Safe-bind IsValid IsValid (apply_op t op) _ (apply_op-IsValid t op v)
      (λ t' v'. run-Safe t' ops v')

reached : (m : Option Terminal) → Safe IsValid m → (t : Terminal) × (m ≡ some t) × IsValid t
reached none s = absurd s
reached (some t) s = (t, refl, s)

-- From a new terminal of any size and history limit, any calls in any order run to the end without
-- a panic, and leave a well-formed terminal.
pub run-IsValid :
    (rows cols limit : ℕ) (ops : List TerminalOp)
    → (t : Terminal) × (run (new rows cols limit) ops ≡ some t) × IsValid t
run-IsValid rows cols limit ops =
    reached _ (run-Safe (new rows cols limit) ops (new-IsValid rows cols limit))
