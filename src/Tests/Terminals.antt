-- ===== src/Tests/Terminals.antt =====
-- Concrete terminals and bytes for the theorems on vvmux-terminal/src/lib.rs.
use vvmux.Prelude.{
  ℕ, ◌-◌, ◌≤◌, ◌≡◌, refl, min, true, not, some, List, [], ◌∷◌, ◌++◌, length, take, drop, All, arith,
}
use vvmux.Prelude.Int.{pos}
use vvmux.Terminal.{Terminal, new}
use vvmux.Terminal.Vectors.{replicate}
use vvmux.Terminal.Scroll.{scroll_region_up, keeps_history}
use vvmux.Terminal.Cursor.{move_up, set_scrolling_region}
use vvmux.Terminal.Modes.{update_private_mode, reset_state}
use vvmux.Terminal.Run.{
  TerminalOp, input_op, goto_op, linefeed_op, insert_blank_op, private_mode_op, resize_op,
  put_tab_op, run,
}
use vvmux.Terminal.Valid.{IsValid, new-IsValid}
use vvmux.Terminal.Valid.Runs.{run-IsValid}
use vvmux.Terminal.Window.{scroll_region_up-Scrolled, Scrolled}
use vvmux.Terminal.Outside.{move_up-set_scrolling_region, keeps_history-reset_state}
use vvmux.Terminal.Marker.{
  max_marker_bytes, bytes, marker, push, scan, round, at_prefix, take_marker, skip_prefix,
  find_bytes, valid_marker_shape, valid_fields, split, is_same, is_token, is_nonzero_id, every,
  is_base64url, is_hexdigit, is_digit, is_upper, is_lower, push_bytes, extend_last,
  partial_prefix_len, partial_up_to, ends_with,
}
use vvmux.Input.Event.{starts_with}
use vvmux.Terminal.Marker.Bytes.{raw_chunks, IsShaped}
use vvmux.Terminal.Marker.Scans.{push-IsScanned}

-- A wide character that wraps in the last row, a tab, a switch to the alternate screen, a resize.
abbrev calls : List TerminalOp
calls =
    goto_op (pos 1) 2
    ∷ input_op (some 2) 19990
    ∷ put_tab_op 2
    ∷ insert_blank_op 1
    ∷ private_mode_op 1049 true
    ∷ linefeed_op
    ∷ resize_op 1 1
    ∷ input_op (some 2) 19990
    ∷ []

run-IsValid_example : (t : Terminal) × (run (new 2 3 4) calls ≡ some t) × IsValid t
run-IsValid_example = run-IsValid 2 3 4 calls

-- More rows than the screen has, and a history of one row.
scroll_region_up-Scrolled_example :
    (t' : Terminal) × (scroll_region_up (new 2 3 1) 5 ≡ some t')
    × Scrolled (min 5 (new 2 3 1).rows) (new 2 3 1) t'
unfolding new
scroll_region_up-Scrolled_example =
    scroll_region_up-Scrolled (new 2 3 1) 5 (new-IsValid 2 3 1) refl refl refl

move_up-set_scrolling_region_example :
    ((set_scrolling_region (new 9 3 1) 5 (some 7)).cursor_row ≡ 0)
    × ((move_up (set_scrolling_region (new 9 3 1) 5 (some 7)) 1).cursor_row ≡ 5 - 1)
unfolding new
move_up-set_scrolling_region_example =
    move_up-set_scrolling_region (new 9 3 1) 5 1 (some 7) (new-IsValid 9 3 1) (omega arith)
      (omega arith)

abbrev switched : Terminal
switched = update_private_mode (new 2 3 1) 1049 true

keeps_history-reset_state_example :
    keeps_history (reset_state switched) ≡ not switched.alternate_screen
keeps_history-reset_state_example = keeps_history-reset_state switched

-- ESC _ VIVID;2;A; with a tag, an id and an authenticator, ESC \
abbrev marker_bytes : List ℕ
marker_bytes =
    (27 ∷ 95 ∷ 86 ∷ 73 ∷ 86 ∷ 73 ∷ 68 ∷ 59 ∷ 50 ∷ 59 ∷ 65 ∷ 59 ∷ [])
    ++ (replicate 22 65 ++ (59 ∷ (replicate 16 49 ++ (59 ∷ (replicate 22 66 ++ (27 ∷ 92 ∷ []))))))

-- Half of the prefix was pending, and half of the next one follows.
push-IsScanned_example :
    (raw_chunks (push (120 ∷ 27 ∷ []) (drop 1 marker_bytes ++ (27 ∷ 95 ∷ []))).0
        ++ (push (120 ∷ 27 ∷ []) (drop 1 marker_bytes ++ (27 ∷ 95 ∷ []))).1
      ≡ (120 ∷ 27 ∷ []) ++ (drop 1 marker_bytes ++ (27 ∷ 95 ∷ [])))
    × All IsShaped (push (120 ∷ 27 ∷ []) (drop 1 marker_bytes ++ (27 ∷ 95 ∷ []))).0
    × (length (push (120 ∷ 27 ∷ []) (drop 1 marker_bytes ++ (27 ∷ 95 ∷ []))).1 ≤ max_marker_bytes)
push-IsScanned_example = push-IsScanned (120 ∷ 27 ∷ []) (drop 1 marker_bytes ++ (27 ∷ 95 ∷ []))

push_finds :
    push (120 ∷ 27 ∷ []) (drop 1 marker_bytes ++ (27 ∷ 95 ∷ []))
    ≡ (bytes (120 ∷ []) ∷ marker (drop 2 (take 74 marker_bytes)) ∷ [], 27 ∷ 95 ∷ [])
unfolding push scan round at_prefix take_marker skip_prefix find_bytes starts_with
    valid_marker_shape valid_fields split is_same is_token is_nonzero_id every is_base64url
    is_hexdigit is_digit is_upper is_lower push_bytes extend_last partial_prefix_len partial_up_to
    ends_with
push_finds = refl
