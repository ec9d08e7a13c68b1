-- ===== src/Input/Prefix.antt =====
-- `PrefixParser` of src/client_input.rs. The configured bindings are an association list, as
-- `HashMap::get` reads them.
pub mod Emits
pub mod Feed
use vvmux.Prelude.{
  ℕ, zero, suc, ◌+◌, ◌-◌, Bool, true, false, ◌||◌, ◌&&◌, not, Option, none, some, List, [], ◌∷◌,
  ◌++◌, length, leb, ◌==◌, if◌then◌else◌,
}
use vvmux.Layout.Rect.{vertical, horizontal, Direction}
use vvmux.Input.Event.{
  Action, split, focus, resize, new_tab, next_tab, previous_tab, select_tab, close_pane,
  toggle_zoom, enter_copy_mode, paste, new_floating_pane, toggle_floating_panes, toggle_pane_pinned,
  enter_floating_move_mode, enter_floating_resize_mode, ParsedInput, input, action, mouse, detach,
  same_bytes, is_empty,
}
use vvmux.Input.Float.{arrow}
use vvmux.Input.Mouse.{parse_sgr_mouse}

pub record PrefixParser : Type 0 where
  pub prefix_byte : ℕ
  pub bindings : List (ℕ × Action)
  pub prefix : Bool
  pub sequence : List ℕ
  pub mouse_sequence : List ℕ
  pub confirm_close : Bool

-- The parser with the two buffers of `feed`.
pub record Feeding : Type 0 where
  pub parser : PrefixParser
  pub output : List ParsedInput
  pub ordinary : List ℕ

unfoldable pub prefix_sequence : List ℕ → Option Action
prefix_sequence (a ∷ b ∷ c ∷ []) =
    if same_bytes (a ∷ b ∷ []) (27 ∷ 91 ∷ [])
    then elim (arrow c) [ none ↦ none | some d ↦ some (focus d) ]
    else none
prefix_sequence (a ∷ b ∷ c ∷ d ∷ e ∷ f ∷ []) =
    if same_bytes (a ∷ b ∷ c ∷ d ∷ e ∷ []) (27 ∷ 91 ∷ 49 ∷ 59 ∷ 53 ∷ [])
    then elim (arrow f) [ none ↦ none | some d ↦ some (resize d) ]
    else none
prefix_sequence _ = none

unfoldable pub get_binding : List (ℕ × Action) → ℕ → Option Action
get_binding [] byte = none
get_binding ((key, a) ∷ rest) byte = if key == byte then some a else get_binding rest byte

unfoldable pub push_output : ParsedInput → Feeding → Feeding
push_output event f = record f { output = f.output ++ (event ∷ []) }

unfoldable pub push_ordinary : List ℕ → Feeding → Feeding
push_ordinary bytes f = record f { ordinary = f.ordinary ++ bytes }

-- `if !ordinary.is_empty() { output.push(Input(take(&mut ordinary))) }`
unfoldable pub flush : Feeding → Feeding
flush f =
    if is_empty f.ordinary
    then f
    else record f { output = f.output ++ (input f.ordinary ∷ []); ordinary = [] }

unfoldable pub set_parser : PrefixParser → Feeding → Feeding
set_parser p f = record f { parser = p }

-- The fixed commands of the `match byte`, from `'%'` to the digits.
unfoldable pub command_of : ℕ → Option ParsedInput
command_of byte =
    if byte == 37
    then some (action (split vertical))
    else if byte == 34
    then some (action (split horizontal))
    else if byte == 99
    then some (action new_tab)
    else if byte == 110
    then some (action next_tab)
    else if byte == 112
    then some (action previous_tab)
    else if byte == 122
    then some (action toggle_zoom)
    else if byte == 102
    then some (action new_floating_pane)
    else if byte == 70
    then some (action toggle_floating_panes)
    else if byte == 80
    then some (action toggle_pane_pinned)
    else if byte == 109
    then some (action enter_floating_move_mode)
    else if byte == 114
    then some (action enter_floating_resize_mode)
    else if byte == 100
    then some detach
    else if byte == 91
    then some (action enter_copy_mode)
    else if byte == 93
    then some (action paste)
    else if leb 48 byte && leb byte 57
    then some (action (select_tab (byte - 48)))
    else none

-- The byte after `x`, which asks for a confirmation.
unfoldable pub step_confirm : Feeding → ℕ → Feeding
step_confirm f byte =
    let f' = set_parser (record f.parser { confirm_close = false }) f in
    if (byte == 121) || (byte == 89) then push_output (action close_pane) f' else f'

-- A byte of an escape sequence after the prefix.
unfoldable pub step_sequence : Feeding → ℕ → Feeding
step_sequence f byte =
    let sequence = f.parser.sequence ++ (byte ∷ []) in
    let ended : PrefixParser = record f.parser { sequence = []; prefix = false } in
    elim (prefix_sequence sequence) [
      | some command ↦ set_parser ended (push_output (action command) f)
      | none ↦
          if leb 7 (length sequence)
          then set_parser ended f
          else set_parser (record f.parser { sequence = sequence }) f
    ]

unfoldable pub valid_prefix : List ℕ → Bool
valid_prefix (a ∷ b ∷ []) = same_bytes (a ∷ b ∷ []) (27 ∷ 91 ∷ [])
valid_prefix (a ∷ b ∷ c ∷ []) = same_bytes (a ∷ b ∷ c ∷ []) (27 ∷ 91 ∷ 60 ∷ [])
valid_prefix _ = true

-- A byte of what may be a mouse report.
unfoldable pub step_mouse : Feeding → ℕ → Feeding
step_mouse f byte =
    let sequence = f.parser.mouse_sequence ++ (byte ∷ []) in
    let cleared : PrefixParser = record f.parser { mouse_sequence = [] } in
    if not (valid_prefix sequence)
    then set_parser cleared (push_ordinary sequence f)
    else if (byte == 77) || (byte == 109)
    then elim (parse_sgr_mouse sequence) [
      | some event ↦ set_parser cleared (push_output (mouse event) (flush f))
      | none ↦ set_parser cleared (push_ordinary sequence (flush f))
    ]
    else if leb 64 (length sequence)
    then set_parser cleared (push_ordinary sequence f)
    else set_parser (record f.parser { mouse_sequence = sequence }) f

-- A byte outside every sequence, without the prefix.
unfoldable pub step_ordinary : Feeding → ℕ → Feeding
step_ordinary f byte =
    if byte == 27
    then set_parser (record f.parser { mouse_sequence = 27 ∷ [] }) f
    else if byte == f.parser.prefix_byte
    then set_parser (record f.parser { prefix = true }) (flush f)
    else push_ordinary (byte ∷ []) f

-- The byte after the prefix.
unfoldable pub step_command : Feeding → ℕ → Feeding
step_command f byte =
    let ended : PrefixParser = record f.parser { prefix = false } in
    elim (get_binding f.parser.bindings byte) [
      | some bound ↦ set_parser ended (push_output (action bound) f)
      | none ↦
          if byte == f.parser.prefix_byte
          then set_parser ended (push_output (input (f.parser.prefix_byte ∷ [])) f)
          else elim (command_of byte) [
            | some event ↦ set_parser ended (push_output event f)
            | none ↦
                if byte == 120
                then set_parser (record ended { confirm_close = true }) f
                else if byte == 27
                then set_parser (record f.parser { sequence = byte ∷ [] }) f
                else set_parser ended f
          ]
    ]

-- The body of the loop.
unfoldable pub step : Feeding → ℕ → Feeding
step f byte =
    if f.parser.confirm_close
    then step_confirm f byte
    else if not (is_empty f.parser.sequence)
    then step_sequence f byte
    else if f.parser.prefix
    then step_command f byte
    else if not (is_empty f.parser.mouse_sequence)
    then step_mouse f byte
    else step_ordinary f byte

unfoldable pub steps : Feeding → List ℕ → Feeding
steps f [] = f
steps f (byte ∷ bytes) = steps (step f byte) bytes

unfoldable pub feed : PrefixParser → List ℕ → PrefixParser × List ParsedInput
feed parser bytes =
    let f = flush (steps (record { parser = parser; output = []; ordinary = [] }) bytes) in
    (f.parser, f.output)
