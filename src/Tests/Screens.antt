-- ===== src/Tests/Screens.antt =====
-- Concrete screens for the theorems on src/screen.rs.
use vvmux.Prelude.{◌+◌, ◌*◌, ◌≡◌, refl, true, false, none, some, List, [], ◌∷◌, get_elem?, arith}
use vvmux.Terminal.{Cell, default_cell}
use vvmux.Terminal.Vectors.{Safe}
use vvmux.Screen.{ScreenBuffer, ScreenOp, set_op, draw_text_op, draw_frame_op, new, set, run}
use vvmux.Screen.Valid.{Fits, run-Fits}
use vvmux.Screen.Halves.{after_set, set-after_set}
use vvmux.Screen.Diff.{ansi_diff, epilogue}
use vvmux.Screen.Unchanged.{ansi_diff-unchanged}

abbrev wide : Cell
wide = record default_cell { ch = 19990 }

abbrev half : Cell
half = record default_cell { wide_continuation = true }

-- A wide character in the last two of three columns of the first of two rows.
abbrev screen : ScreenBuffer
screen = record {
  rows = 2;
  columns = 3;
  cells = default_cell ∷ wide ∷ half ∷ default_cell ∷ default_cell ∷ default_cell ∷ [];
  cursor = some (1, 0);
}

abbrev screen-Fits : Fits 3 2 (some (1, 0)) screen
screen-Fits = record { columns_same = refl; rows_same = refl; cursor_same = refl; sized = refl }

-- The left half is set, and the right half goes.
set-after_set_example :
    Safe
      (λ (s' : ScreenBuffer).
        get_elem? s'.cells 2 ≡ after_set 3 1 (0 * 3 + 1) default_cell screen.cells 2)
      (set 1 0 default_cell screen)
set-after_set_example =
    set-after_set screen 1 0 default_cell 2 screen-Fits (omega arith) (omega arith)

abbrev calls : List ScreenOp
calls =
    draw_frame_op (record { x = 1; y = 0; width = 9; height = 9 }) (97 ∷ []) 4
    ∷ draw_text_op 2 1 (98 ∷ 99 ∷ []) 7 0
    ∷ set_op 2 1 wide
    ∷ []

run-Fits_example : (s : ScreenBuffer) × (run (new 3 2) calls ≡ some s) × Fits 3 2 none s
run-Fits_example = run-Fits 3 2 calls

-- Only the cursor moved.
ansi_diff-unchanged_example :
    ansi_diff (some (record screen { cursor = none })) screen false ≡ some (epilogue screen)
ansi_diff-unchanged_example =
    ansi_diff-unchanged (record screen { cursor = none }) screen refl (some (1, 0)) screen-Fits refl
      refl
