-- ===== src/Terminal/Scroll.antt =====
-- The scrolling of vvmux-terminal/src/lib.rs: `scroll_region_up`, `scroll_region_down` and what
-- calls them.
use vvmux.Prelude.{
  ℕ, zero, suc, ◌+◌, ◌-◌, min, Bool, false, not, ◌&&◌, Option, some, List, [], ◌∷◌, ◌++◌, length,
  drop, ltb, leb, ◌==◌, if◌then◌else◌, ◌>>=◌,
}
use vvmux.Prelude.Int.{pos, ◌-ℤ◌, wrap, half_i32}
use vvmux.Terminal.{Cell, Grid, Terminal, grid_scroll, push_event, damage, blank}
use vvmux.Terminal.Vectors.{remove_at, insert_at, replicate}

-- The loop that drops the oldest rows beyond the limit.
unfoldable pub trim : ℕ → Grid → List Bool → Grid × List Bool
trim limit [] wrapped = ([], wrapped)
trim limit (row ∷ rows) wrapped =
    let rest = trim limit rows (drop 1 wrapped) in
    if ltb limit (length (row ∷ rows)) then rest else (row ∷ rows, wrapped)

unfoldable pub keeps_history : Terminal → Bool
keeps_history t = (t.scroll_top == 0) && (t.scroll_bottom == t.rows) && not t.alternate_screen

unfoldable pub store : Terminal → List Cell → Bool → Grid × List Bool
store t removed removed_wrapped =
    if keeps_history t
    then trim t.history_limit (t.history ++ (removed ∷ []))
        (t.history_wrapped ++ (removed_wrapped ∷ []))
    else (t.history, t.history_wrapped)

-- One round of the loop of `scroll_region_up`.
unfoldable pub scroll_up_once : Terminal → Option Terminal
scroll_up_once t = do
  (removed, grid) ← remove_at t.scroll_top t.grid
  (removed_wrapped, wrapped) ← remove_at t.scroll_top t.grid_wrapped
  let kept = store t removed removed_wrapped
  grid' ← insert_at (t.scroll_bottom - 1) (replicate t.cols (blank t)) grid
  wrapped' ← insert_at (t.scroll_bottom - 1) false wrapped
  some (record t {
    grid = grid';
    grid_wrapped = wrapped';
    history = kept.0;
    history_wrapped = kept.1;
  })

-- One round of the loop of `scroll_region_down`.
unfoldable pub scroll_down_once : Terminal → Option Terminal
scroll_down_once t = do
  (removed, grid) ← remove_at (t.scroll_bottom - 1) t.grid
  (removed_wrapped, wrapped) ← remove_at (t.scroll_bottom - 1) t.grid_wrapped
  grid' ← insert_at t.scroll_top (replicate t.cols (blank t)) grid
  wrapped' ← insert_at t.scroll_top false wrapped
  some (record t { grid = grid'; grid_wrapped = wrapped' })

unfoldable pub repeat : ℕ → (Terminal → Option Terminal) → Terminal → Option Terminal
repeat zero f t = some t
repeat (suc n) f t = do t' ← f t; repeat n f t'

unfoldable pub scroll_region_up : Terminal → ℕ → Option Terminal
scroll_region_up t rows = do
  let count = min rows (t.scroll_bottom - t.scroll_top)
  t' ← repeat count scroll_up_once t
  some
      (if ltb 0 count then damage (push_event (grid_scroll (wrap half_i32 (pos count))) t') else t')

unfoldable pub scroll_region_down : Terminal → ℕ → Option Terminal
scroll_region_down t rows = do
  let count = min rows (t.scroll_bottom - t.scroll_top)
  t' ← repeat count scroll_down_once t
  some (
      if ltb 0 count
      then damage (push_event (grid_scroll (wrap half_i32 (pos 0 -ℤ wrap half_i32 (pos count)))) t')
      else t')

unfoldable pub line_feed : Terminal → Option Terminal
line_feed t =
    if leb t.scroll_bottom (t.cursor_row + 1)
    then scroll_region_up t 1
    else some (record t { cursor_row = min (t.cursor_row + 1) (t.rows - 1) })

unfoldable pub newline : Terminal → Option Terminal
newline t = do t' ← line_feed t; some (record t' { cursor_col = 0 })

unfoldable pub reverse_index : Terminal → Option Terminal
reverse_index t =
    if t.cursor_row == t.scroll_top
    then scroll_region_down t 1
    else some (record t { cursor_row = t.cursor_row - 1 })

unfoldable pub insert_blank_lines : Terminal → ℕ → Option Terminal
insert_blank_lines t rows = do
  t' ← scroll_region_down (record t { scroll_top = t.cursor_row }) rows
  some (record t' { scroll_top = t.scroll_top })

unfoldable pub delete_lines : Terminal → ℕ → Option Terminal
delete_lines t rows = do
  t' ← scroll_region_up (record t { scroll_top = t.cursor_row }) rows
  some (record t' { scroll_top = t.scroll_top })
