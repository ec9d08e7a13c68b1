-- ===== src/Terminal/Outside.antt =====
-- Where vvmux-terminal/src/lib.rs leaves the ways of a terminal: the cursor outside the scrolling
-- region, and a reset on the alternate screen.
use vvmux.Prelude.{
  ℕ, ◌-◌, ◌≤◌, ◌≡◌, refl, true, not, Bool-cases, inl, inr, Option, [], ◌∷◌, ◌++◌, arith, ◌==◌,
}
use vvmux.Terminal.{Terminal, damage, has_damage, clear_event}
use vvmux.Terminal.Modes.{reset_state}
use vvmux.Terminal.Scroll.{keeps_history}
use vvmux.Terminal.Cursor.{goto, move_up, set_scrolling_region}
use vvmux.Terminal.Valid.{IsValid}

-- In a well-formed terminal, after `set_scrolling_region` with a top margin below the first line and
-- not below the last one, the cursor is in the first row, and `move_up` by any number of rows takes
-- it down to the margin.
pub move_up-set_scrolling_region :
    (t : Terminal) (top n : ℕ) (bottom : Option ℕ)
    → IsValid t
    → 2 ≤ top
    → top ≤ t.rows
    → ((set_scrolling_region t top bottom).cursor_row ≡ 0)
      × ((move_up (set_scrolling_region t top bottom) n).cursor_row ≡ top - 1)
unfolding set_scrolling_region goto move_up
move_up-set_scrolling_region t top n bottom v h h' =
    (omega (arith, v.some_rows), omega (arith, h, h'))

-- A full reset keeps the flag of the alternate screen: after a reset of a terminal that shows the
-- alternate screen nothing that scrolls off is kept, after one that shows the primary screen it is.
pub keeps_history-reset_state :
    (t : Terminal) → keeps_history (reset_state t) ≡ not t.alternate_screen
unfolding reset_state keeps_history damage
keeps_history-reset_state t =
    let same : (t.rows == t.rows) ≡ true = ground arith in
    elim (Bool-cases (has_damage (t.events ++ (clear_event ∷ [])))) [
      | inl damaged ↦ simp (damaged, same) refl
      | inr clean ↦ simp (clean, same) refl
    ]
