-- ===== src/Input/Float.antt =====
-- `FloatEditScanner` of src/client_input.rs. An `Instant` is its number of milliseconds, and `scan`
-- takes the time that the clock shows.
use vvmux.Prelude.{
  ℕ, ◌-◌, Bool, true, false, ◌||◌, ◌&&◌, Option, none, some, List, [], ◌∷◌, ◌++◌, leb, ◌==◌,
  if◌then◌else◌,
}
use vvmux.Layout.Rect.{Direction, left, right, up, down}
use vvmux.Input.Event.{FloatingEditCommand, step, commit, cancel, same_bytes, starts_with, is_empty}

pub record FloatEditScanner : Type 0 where
  pub pending : List ℕ
  pub pending_since : Option ℕ

abbrev pub escape_delay : ℕ
escape_delay = 25

unfoldable pub arrow : ℕ → Option Direction
arrow byte =
    if byte == 65
    then some up
    else if byte == 66
    then some down
    else if byte == 67
    then some right
    else if byte == 68
    then some left
    else none

unfoldable pub float_edit_sequence : List ℕ → Option FloatingEditCommand
unfolding arrow
float_edit_sequence (a ∷ b ∷ c ∷ []) =
    if same_bytes (a ∷ b ∷ []) (27 ∷ 91 ∷ [])
    then elim (arrow c) [ none ↦ none | some d ↦ some (step d 1) ]
    else none
float_edit_sequence (a ∷ b ∷ c ∷ d ∷ e ∷ f ∷ []) =
    if same_bytes (a ∷ b ∷ c ∷ d ∷ e ∷ []) (27 ∷ 91 ∷ 49 ∷ 59 ∷ 50 ∷ [])
    then elim (arrow f) [ none ↦ none | some d ↦ some (step d 5) ]
    else none
float_edit_sequence _ = none

abbrev pub sequences : List (List ℕ)
sequences =
    (27 ∷ 91 ∷ 65 ∷ [])
    ∷ (27 ∷ 91 ∷ 66 ∷ [])
    ∷ (27 ∷ 91 ∷ 67 ∷ [])
    ∷ (27 ∷ 91 ∷ 68 ∷ [])
    ∷ (27 ∷ 91 ∷ 49 ∷ 59 ∷ 50 ∷ 65 ∷ [])
    ∷ (27 ∷ 91 ∷ 49 ∷ 59 ∷ 50 ∷ 66 ∷ [])
    ∷ (27 ∷ 91 ∷ 49 ∷ 59 ∷ 50 ∷ 67 ∷ [])
    ∷ (27 ∷ 91 ∷ 49 ∷ 59 ∷ 50 ∷ 68 ∷ [])
    ∷ []

any_starts_with : List (List ℕ) → List ℕ → Bool
any_starts_with [] sequence = false
any_starts_with (c ∷ cs) sequence = starts_with c sequence || any_starts_with cs sequence

unfoldable pub float_edit_sequence_prefix : List ℕ → Bool
unfolding any_starts_with
float_edit_sequence_prefix sequence = any_starts_with sequences sequence

is_terminal : FloatingEditCommand → Bool
is_terminal (step d n) = false
is_terminal commit = true
is_terminal cancel = true

-- What a scan has so far: the scanner, the commands and the bytes to forward.
pub record Scan : Type 0 where
  pub scanner : FloatEditScanner
  pub commands : List FloatingEditCommand
  pub forward : List ℕ

abbrev idle : FloatEditScanner
idle = record { pending = []; pending_since = none }

-- The body of the loop, with whether it breaks off: on a byte without pending bytes, and on the
-- pending bytes with the new one.
unfoldable pub scan_idle : ℕ → Scan → ℕ → Scan × Bool
scan_idle now s byte =
    if (byte == 13) || (byte == 10)
    then (record s { commands = s.commands ++ (commit ∷ []) }, true)
    else if byte == 27
    then (record s { scanner = record { pending = 27 ∷ []; pending_since = some now } }, false)
    else (record s { forward = s.forward ++ (byte ∷ []) }, false)

unfoldable pub scan_pending : Scan → List ℕ → Scan × Bool
unfolding is_terminal
scan_pending s pending = elim (float_edit_sequence pending) [
  | some command ↦
      (record s { scanner = idle; commands = s.commands ++ (command ∷ []) }, is_terminal command)
  | none ↦
      if float_edit_sequence_prefix pending
      then (record s { scanner = record s.scanner { pending = pending } }, false)
      else (record s { scanner = idle; forward = s.forward ++ pending }, false)
]

unfoldable pub scan_byte : ℕ → Scan → ℕ → Scan × Bool
scan_byte now s byte =
    if is_empty s.scanner.pending
    then scan_idle now s byte
    else scan_pending s (s.scanner.pending ++ (byte ∷ []))

-- The loop; a break forwards the bytes that are left.
unfoldable pub scan_from : ℕ → Scan → List ℕ → Scan
scan_from now s [] = s
scan_from now s (byte ∷ bytes) =
    let (s', stops) = scan_byte now s byte in
    let rest = scan_from now s' bytes in
    if stops then record s' { forward = s'.forward ++ bytes } else rest

unfoldable pub scan :
    ℕ → FloatEditScanner → List ℕ → FloatEditScanner × List FloatingEditCommand × List ℕ
scan now scanner bytes =
    let s = scan_from now (record { scanner = scanner; commands = []; forward = [] }) bytes in
    (s.scanner, s.commands, s.forward)

unfoldable pub expire : ℕ → FloatEditScanner → FloatEditScanner × Option FloatingEditCommand
expire now scanner = elim scanner.pending_since [
  | none ↦ (scanner, none)
  | some since ↦
      if same_bytes scanner.pending (27 ∷ []) && leb escape_delay (now - since)
      then (idle, some cancel)
      else (scanner, none)
]

unfoldable pub reset : FloatEditScanner → FloatEditScanner × List ℕ
reset scanner = (idle, scanner.pending)
