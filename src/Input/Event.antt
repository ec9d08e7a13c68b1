-- ===== src/Input/Event.antt =====
-- What the parsers of src/client_input.rs give: `ParsedInput`, with `Action`, `FloatingEditCommand`
-- and `MouseEvent` of src/ipc.rs.
use vvmux.Prelude.{ℕ, Bool, true, false, List, [], ◌∷◌, ◌==◌, if◌then◌else◌}
use vvmux.Layout.Rect.{Axis, Direction}

pub data Action : Type 0 where
  split : Axis → Action
  focus resize : Direction → Action
  new_tab next_tab previous_tab : Action
  select_tab : ℕ → Action
  close_pane toggle_zoom enter_copy_mode : Action
  copy_input : List ℕ → Action
  paste new_floating_pane toggle_floating_panes toggle_pane_pinned : Action
  enter_floating_move_mode enter_floating_resize_mode : Action

pub data FloatingEditCommand : Type 0 where
  step : Direction → ℕ → FloatingEditCommand
  commit cancel : FloatingEditCommand

pub data MouseKind : Type 0 where
  press release move wheel : MouseKind

pub record MouseEvent : Type 0 where
  pub button : ℕ
  pub x : ℕ
  pub y : ℕ
  pub kind : MouseKind
  pub shift : Bool

pub data ParsedInput : Type 0 where
  input : List ℕ → ParsedInput
  action : Action → ParsedInput
  mouse : MouseEvent → ParsedInput
  detach : ParsedInput

unfoldable pub same_bytes : List ℕ → List ℕ → Bool
same_bytes [] [] = true
same_bytes [] (y ∷ ys) = false
same_bytes (x ∷ xs) [] = false
same_bytes (x ∷ xs) (y ∷ ys) = if x == y then same_bytes xs ys else false

-- `candidate.starts_with(sequence)`
unfoldable pub starts_with : List ℕ → List ℕ → Bool
starts_with candidate [] = true
starts_with [] (y ∷ ys) = false
starts_with (x ∷ xs) (y ∷ ys) = if x == y then starts_with xs ys else false

unfoldable pub is_empty : List ℕ → Bool
is_empty [] = true
is_empty (x ∷ xs) = false
