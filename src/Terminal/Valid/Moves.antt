-- ===== src/Terminal/Valid/Moves.antt =====
-- The calls of vvmux-terminal/src/lib.rs that move the cursor, or set tab stops, margins and modes
-- keep the terminal well formed.
use vvmux.Prelude.{
  ℕ, zero, suc, ◌≤◌, ◌<◌, ◌≡◌, refl, ap, ◌∙◌, Bool, true, false, not, ◌&&◌, Option, List, [], ◌∷◌,
  length, arith, Bool-cases, inl, inr, ◌==◌,
}
use vvmux.Prelude.Int.{ℤ}
use vvmux.Terminal.{Terminal, Text, TerminalHyperlink}
use vvmux.Terminal.Erase.{fill_false}
use vvmux.Terminal.Cursor.{
  goto, goto_line, goto_col, move_up, move_down, move_forward, move_backward, carriage_return,
  backspace, set_stop, set_horizontal_tabstop, TabulationClearMode, current_stop, all_stops,
  clear_tabs, set_tabs, set_scrolling_region, save_cursor_position, restore_cursor_position,
}
use vvmux.Terminal.Modes.{
  Attr, terminal_attribute, set_title, set_hyperlink, set_keypad, bell, identify_terminal, set_mode,
  same_flag, switch_screen, update_private_mode, reset_state, device_status,
}
use vvmux.Terminal.Valid.{
  IsValid, blank_grid-IsGrid, length-tab_stops_from, push_event-IsValid, damage-IsValid,
}

pub at-IsValid :
    (t : Terminal) (row col : ℕ)
    → IsValid t
    → row < t.rows
    → col ≤ t.cols
    → IsValid (record t { cursor_row = row; cursor_col = col })
at-IsValid t row col v h h' = ground arith

pub goto-IsValid : (t : Terminal) (line : ℤ) (col : ℕ) → IsValid t → IsValid (goto t line col)
unfolding goto
goto-IsValid t line col v = at-IsValid t _ _ v (omega arith) (omega arith)

pub goto_line-IsValid : (t : Terminal) (line : ℤ) → IsValid t → IsValid (goto_line t line)
unfolding goto_line
goto_line-IsValid t line v = goto-IsValid t line t.cursor_col v

pub goto_col-IsValid : (t : Terminal) (col : ℕ) → IsValid t → IsValid (goto_col t col)
unfolding goto_col
goto_col-IsValid t col v = goto-IsValid t _ col v

pub move_up-IsValid : (t : Terminal) (n : ℕ) → IsValid t → IsValid (move_up t n)
unfolding move_up
move_up-IsValid t n v = at-IsValid t _ t.cursor_col v (omega arith) (omega arith)

pub move_down-IsValid : (t : Terminal) (n : ℕ) → IsValid t → IsValid (move_down t n)
unfolding move_down
move_down-IsValid t n v = at-IsValid t _ t.cursor_col v (omega arith) (omega arith)

pub move_forward-IsValid : (t : Terminal) (n : ℕ) → IsValid t → IsValid (move_forward t n)
unfolding move_forward
move_forward-IsValid t n v = at-IsValid t t.cursor_row _ v (omega arith) (omega arith)

pub move_backward-IsValid : (t : Terminal) (n : ℕ) → IsValid t → IsValid (move_backward t n)
unfolding move_backward
move_backward-IsValid t n v = at-IsValid t t.cursor_row _ v (omega arith) (omega arith)

pub carriage_return-IsValid : (t : Terminal) → IsValid t → IsValid (carriage_return t)
carriage_return-IsValid t v = at-IsValid t t.cursor_row 0 v (omega arith) (omega arith)

pub backspace-IsValid : (t : Terminal) → IsValid t → IsValid (backspace t)
unfolding backspace
backspace-IsValid t v = at-IsValid t t.cursor_row _ v (omega arith) (omega arith)

pub restore_cursor_position-IsValid :
    (t : Terminal) → IsValid t → IsValid (restore_cursor_position t)
unfolding restore_cursor_position
restore_cursor_position-IsValid t v = at-IsValid t _ _ v (omega arith) (omega arith)

pub save_cursor_position-IsValid : (t : Terminal) → IsValid t → IsValid (save_cursor_position t)
unfolding save_cursor_position
save_cursor_position-IsValid t v = ground arith

length-set_stop :
    (column : ℕ) (value : Bool) (stops : List Bool)
    → length (set_stop column value stops) ≡ length stops
unfolding set_stop
length-set_stop column value [] = refl
length-set_stop zero value (stop ∷ stops) = refl
length-set_stop (suc column) value (stop ∷ stops) = ap suc (length-set_stop column value stops)

pub length-fill_false : (bs : List Bool) → length (fill_false bs) ≡ length bs
unfolding fill_false
length-fill_false [] = refl
length-fill_false (b ∷ bs) = ap suc (length-fill_false bs)

stops-IsValid :
    (t : Terminal) (stops : List Bool) (custom : Bool)
    → IsValid t
    → length stops ≡ t.cols
    → IsValid (record t { tab_stops_customized = custom; tab_stops = stops })
stops-IsValid t stops custom v e = ground arith

pub set_horizontal_tabstop-IsValid : (t : Terminal) → IsValid t → IsValid (set_horizontal_tabstop t)
unfolding set_horizontal_tabstop
set_horizontal_tabstop-IsValid t v =
    stops-IsValid t _ true v (length-set_stop t.cursor_col true t.tab_stops ∙ v.stops_sized)

pub clear_tabs-IsValid :
    (t : Terminal) (mode : TabulationClearMode) → IsValid t → IsValid (clear_tabs t mode)
unfolding clear_tabs
clear_tabs-IsValid t current_stop v =
    stops-IsValid t _ true v (length-set_stop t.cursor_col false t.tab_stops ∙ v.stops_sized)
clear_tabs-IsValid t all_stops v =
    stops-IsValid t _ true v (length-fill_false t.tab_stops ∙ v.stops_sized)

pub set_tabs-IsValid : (t : Terminal) (n : ℕ) → IsValid t → IsValid (set_tabs t n)
unfolding set_tabs
set_tabs-IsValid t n v = stops-IsValid t _ true v (length-tab_stops_from 0 t.cols _)

pub margins-IsValid :
    (t : Terminal) (top bottom : ℕ)
    → IsValid t
    → top < bottom
    → bottom ≤ t.rows
    → IsValid (record t { scroll_top = top; scroll_bottom = bottom })
margins-IsValid t top bottom v h h' = ground arith

pub set_scrolling_region-IsValid :
    (t : Terminal) (top : ℕ) (bottom : Option ℕ)
    → IsValid t
    → IsValid (set_scrolling_region t top bottom)
unfolding set_scrolling_region
set_scrolling_region-IsValid t top bottom v =
    goto-IsValid (record t { scroll_top = _; scroll_bottom = _ }) _ 0
      (margins-IsValid t _ _ v (omega arith) (omega arith))

pub terminal_attribute-IsValid :
    (t : Terminal) (attr : Attr) → IsValid t → IsValid (terminal_attribute t attr)
unfolding terminal_attribute
terminal_attribute-IsValid t attr v = ground arith

pub set_title-IsValid :
    (t : Terminal) (title : Option Text) → IsValid t → IsValid (set_title t title)
unfolding set_title
set_title-IsValid t title v = ground arith

pub set_hyperlink-IsValid :
    (t : Terminal) (link : Option TerminalHyperlink) → IsValid t → IsValid (set_hyperlink t link)
unfolding set_hyperlink
set_hyperlink-IsValid t link v = ground arith

pub set_keypad-IsValid :
    (t : Terminal) (enabled : Bool) → IsValid t → IsValid (set_keypad t enabled)
unfolding set_keypad
set_keypad-IsValid t enabled v = ground arith

pub bell-IsValid : (t : Terminal) → IsValid t → IsValid (bell t)
unfolding bell
bell-IsValid t v = push_event-IsValid _ t v

pub identify_terminal-IsValid : (t : Terminal) → IsValid t → IsValid (identify_terminal t)
unfolding identify_terminal
identify_terminal-IsValid t v = push_event-IsValid _ t v

pub device_status-IsValid :
    (t : Terminal) (status : ℕ) → IsValid t → IsValid (device_status t status)
unfolding device_status
device_status-IsValid t status v = elim (Bool-cases (status == 5)) [
  | inl e ↦ rw e (push_event-IsValid _ t v)
  | inr e ↦ elim (Bool-cases (status == 6)) [
    | inl e' ↦ rw (e, e') (push_event-IsValid _ t v)
    | inr e' ↦ rw (e, e') v
  ]
]

switch_screen-IsValid :
    (t : Terminal) (enabled : Bool) → IsValid t → IsValid (switch_screen t enabled)
unfolding switch_screen
switch_screen-IsValid t enabled v = damage-IsValid _ (ground arith)

pub update_private_mode-IsValid :
    (t : Terminal) (number : ℕ) (enabled : Bool)
    → IsValid t
    → IsValid (update_private_mode t number enabled)
unfolding update_private_mode
update_private_mode-IsValid t number enabled v =
    elim (Bool-cases ((number == 1049) && not (same_flag enabled t.alternate_screen))) [
      | inl e ↦ simp e (push_event-IsValid _ _ (switch_screen-IsValid t enabled v))
      | inr e ↦ simp e (
          push_event-IsValid _ (record t { modes = set_mode t.modes number enabled })
            (ground arith))
    ]

pub reset_state-IsValid : (t : Terminal) → IsValid t → IsValid (reset_state t)
unfolding reset_state
reset_state-IsValid t v = damage-IsValid _ (record {
  some_rows = v.some_rows;
  some_cols = v.some_cols;
  grid_sized = blank_grid-IsGrid t.rows t.cols;
  alternate_sized = blank_grid-IsGrid t.rows t.cols;
  wrapped_sized = length-fill_false t.grid_wrapped ∙ v.wrapped_sized;
  alternate_wrapped_sized = length-fill_false t.alternate_grid_wrapped ∙ v.alternate_wrapped_sized;
  history_paired = refl;
  history_bounded = omega arith;
  row_in = omega arith;
  col_in = omega arith;
  top_in = omega arith;
  bottom_in = omega arith;
  stops_sized = length-tab_stops_from 0 t.cols 8;
})
