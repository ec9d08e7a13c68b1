-- ===== src/Input/Mouse.antt =====
-- `parse_sgr_mouse` of src/client_input.rs. The sequence is bytes; a byte outside ASCII fails in a
-- field, where the source fails on the encoding.
use vvmux.Prelude.{
  ℕ, zero, suc, ◌+◌, ◌-◌, ◌*◌, ◌/◌, ◌%◌, Bool, ◌||◌, ◌&&◌, not, Option, none, some, List, [], ◌∷◌,
  leb, ◌==◌, if◌then◌else◌, ◌>>=◌,
}
use vvmux.Prelude.Word.{u16_max}
use vvmux.Input.Event.{MouseEvent, MouseKind, press, release, move, wheel, same_bytes}

unfoldable pub is_digit : ℕ → Bool
is_digit b = leb 48 b && leb b 57

-- `str::parse::<u16>` of digits, with the value so far.
unfoldable pub digits : ℕ → List ℕ → Option ℕ
unfolding is_digit
digits acc [] = some acc
digits acc (b ∷ bs) =
    let next = acc * 10 + (b - 48) in
    let rest = digits next bs in
    if is_digit b then if leb next u16_max then rest else none else none

-- `str::parse::<u16>`, which allows one plus sign before the digits.
unfoldable pub parse_u16 : List ℕ → Option ℕ
parse_u16 [] = none
parse_u16 (b ∷ []) = digits 0 (b ∷ [])
parse_u16 (b ∷ c ∷ bs) = if b == 43 then digits 0 (c ∷ bs) else digits 0 (b ∷ c ∷ bs)

-- `str::split(';')`
unfoldable pub split_fields : List ℕ → List (List ℕ)
split_fields [] = [] ∷ []
split_fields (b ∷ bs) =
    let rest = split_fields bs in
    if b == 59
    then [] ∷ rest
    else elim rest [ [] ↦ (b ∷ []) ∷ [] | field ∷ fields ↦ (b ∷ field) ∷ fields ]

-- The sequence without its last byte, and that byte.
unfoldable pub unsnoc : List ℕ → Option (List ℕ × ℕ)
unsnoc [] = none
unsnoc (b ∷ bs) = elim (unsnoc bs) [
  | none ↦ some ([], b)
  | some (front, last) ↦ some (b ∷ front, last)
]

-- `strip_prefix("\x1b[<")`
unfoldable pub strip_start : List ℕ → Option (List ℕ)
strip_start (a ∷ b ∷ c ∷ rest) =
    if same_bytes (a ∷ b ∷ c ∷ []) (27 ∷ 91 ∷ 60 ∷ []) then some rest else none
strip_start _ = none

unfoldable pub checked_pred : ℕ → Option ℕ
checked_pred zero = none
checked_pred (suc n) = some n

unfoldable pub mouse_kind : ℕ → Bool → MouseKind
mouse_kind raw released =
    if not (raw / 64 % 2 == 0)
    then wheel
    else if released
    then release
    else if not (raw / 32 % 2 == 0)
    then move
    else press

unfoldable pub parse_fields : Bool → List (List ℕ) → Option MouseEvent
parse_fields released (raw_field ∷ x_field ∷ y_field ∷ []) = do
  raw ← parse_u16 raw_field
  column ← parse_u16 x_field
  x ← checked_pred column
  row ← parse_u16 y_field
  y ← checked_pred row
  some (record {
    button = raw % 4;
    x = x;
    y = y;
    kind = mouse_kind raw released;
    shift = not (raw / 4 % 2 == 0);
  })
parse_fields released _ = none

unfoldable pub parse_sgr_mouse : List ℕ → Option MouseEvent
parse_sgr_mouse sequence = do
  text ← strip_start sequence
  (fields, final) ← unsnoc text
  if (final == 77) || (final == 109)
      then parse_fields (final == 109) (split_fields fields)
      else none
