-- ===== src/Session/Paste.antt =====
-- `sanitize_bracketed_paste` of src/session.rs: the end marker of a bracketed paste is broken up in
-- pasted text.
pub mod Broken
use vvmux.Prelude.{
  ℕ, zero, suc, ◌+◌, ◌≤◌, ◌≡◌, refl, sym, ap, ◌∙◌, inl, inr, Bool, true, false, Option, none, some,
  List, [], ◌∷◌, ◌++◌, length, take, drop, arith, ◌==◌, if◌then◌else◌, Bool-cases, Option-cases,
  subst,
}
use vvmux.Input.Event.{starts_with}

-- `END`, the bytes of `ESC [ 2 0 1 ~`.
abbrev pub end_marker : List ℕ
end_marker = 27 ∷ 91 ∷ 50 ∷ 48 ∷ 49 ∷ 126 ∷ []

abbrev pub broken_marker : List ℕ
broken_marker = 27 ∷ 91 ∷ 50 ∷ 48 ∷ 49 ∷ 59 ∷ 126 ∷ []

-- `windows(END.len()).position(|window| window == END)`
unfoldable pub position : List ℕ → Option ℕ
position [] = none
position (b ∷ bytes) =
    let later = position bytes in
    if starts_with (b ∷ bytes) end_marker
    then some 0
    else elim later [ none ↦ none | some p ↦ some (suc p) ]

-- The loop from the cursor on. Each round passes six bytes, so the length is fuel enough.
unfoldable pub sanitize_from : ℕ → List ℕ → List ℕ → List ℕ
sanitize_from zero output bytes = output ++ bytes
sanitize_from (suc fuel) output bytes = elim (position bytes) [
  | none ↦ output ++ bytes
  | some p ↦ sanitize_from fuel ((output ++ take p bytes) ++ broken_marker) (drop 6 (drop p bytes))
]

unfoldable pub sanitize_bracketed_paste : List ℕ → List ℕ
sanitize_bracketed_paste bytes = sanitize_from (length bytes) [] bytes
