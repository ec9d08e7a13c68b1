-- ===== src/Terminal/Valid/Writes.antt =====
-- The writing of vvmux-terminal/src/lib.rs does not panic and keeps the terminal well formed, for
-- any width that a character may be said to have.
use vvmux.Prelude.{
  ℕ, ◌+◌, ◌-◌, ◌<◌, ◌≡◌, Bool, ◌&&◌, Option, none, some, List, length, arith, Bool-cases, inl, inr,
  if◌then◌else◌, ◌==◌, ltb, leb, ◌>>=◌,
}
use vvmux.Terminal.{Cell, Terminal}
use vvmux.Terminal.Vectors.{Sized, Anything, Safe, Safe-bind, Safe-weaken, update_at-Safe}
use vvmux.Terminal.Scroll.{line_feed}
use vvmux.Terminal.Write.{
  set_cell, invalidate_tab_at, wrap_line, wrap_full, put_leading_spacer, wrap_wide, put_cell,
  put_trailing_spacer, put_continuation, put_combining, put_spacing, input,
}
use vvmux.Terminal.Valid.{IsValid, All-Anything, damage-IsValid}
use vvmux.Terminal.Valid.Moves.{at-IsValid}
use vvmux.Terminal.Valid.Scrolls.{Fed, line_feed-Fed}
use vvmux.Terminal.Valid.Erases.{Redrawn, row-Redrawn, drop_tabs-IsRow}

pub set_cell-Redrawn :
    (t : Terminal) (row column : ℕ) (f : Cell → Cell)
    → IsValid t
    → row < t.rows
    → column < t.cols
    → Safe (Redrawn t) (set_cell row column f t)
unfolding set_cell
set_cell-Redrawn t row column f v h h' =
    Safe-bind (λ grid. Redrawn t (record t { grid = grid })) (Redrawn t) _ _
      (row-Redrawn t row _ v h
        (λ cells r. update_at-Safe Anything column t.cols _ cells h' r (λ cell q. tt)))
      (λ grid r. r)

invalidate_tab_at-Redrawn :
    (t : Terminal) (row column : ℕ)
    → IsValid t
    → row < t.rows
    → Safe (Redrawn t) (invalidate_tab_at row column t)
unfolding invalidate_tab_at
invalidate_tab_at-Redrawn t row column v h =
    Safe-bind (λ grid. Redrawn t (record t { grid = grid })) (Redrawn t) _ _
      (row-Redrawn t row _ v h (λ cells r. drop_tabs-IsRow _ t.cols cells r)) (λ grid r. r)

-- The cursor stands on a cell.
record IsOnCell (t : Terminal) : Type 0 where
  valid : IsValid t
  on_cell : t.cursor_col < t.cols

wrapped-IsValid :
    (t : Terminal) (wrapped : List Bool)
    → IsValid t
    → length wrapped ≡ t.rows
    → IsValid (record t { grid_wrapped = wrapped; cursor_col = 0 })
wrapped-IsValid t wrapped v e = ground (arith, v, e)

wrap_line-IsOnCell : (t : Terminal) → IsValid t → Safe IsOnCell (wrap_line t)
unfolding wrap_line
wrap_line-IsOnCell t v =
    Safe-bind (Sized Anything t.rows) IsOnCell _ _
      (update_at-Safe Anything t.cursor_row t.rows _ t.grid_wrapped v.row_in
        (v.wrapped_sized, All-Anything t.grid_wrapped) (λ b q. tt))
      (λ wrapped s.
        Safe-weaken (Fed (record t { grid_wrapped = wrapped; cursor_col = 0 })) IsOnCell
          (line_feed (record t { grid_wrapped = wrapped; cursor_col = 0 }))
          (line_feed-Fed _ (wrapped-IsValid t wrapped v s.0))
          (λ t' f. record {
            valid = f.valid;
            on_cell = omega (arith, f.col_same, f.cols_same, v.some_cols);
          }))

wrap_full-IsOnCell : (t : Terminal) → IsValid t → Safe IsOnCell (wrap_full t)
unfolding wrap_full
wrap_full-IsOnCell t v = elim (Bool-cases (leb t.cols t.cursor_col)) [
  | inl full ↦ rw full (wrap_line-IsOnCell t v)
  | inr room ↦
      let on : t.cursor_col < t.cols = ground (arith, room) in
      let r : IsOnCell t = record { valid = v; on_cell = on } in rw room r
]

put_leading_spacer-IsOnCell : (t : Terminal) → IsOnCell t → Safe IsOnCell (put_leading_spacer t)
unfolding put_leading_spacer
put_leading_spacer-IsOnCell t o =
    let v = o.valid in
    Safe-bind (Redrawn t) IsOnCell _ _
      (invalidate_tab_at-Redrawn t t.cursor_row t.cursor_col v v.row_in)
      (λ t₁ r₁.
        Safe-bind (Redrawn t₁) IsOnCell _ _
          (set_cell-Redrawn t₁ t₁.cursor_row t₁.cursor_col _ r₁.valid r₁.valid.row_in
            (omega (arith, o.on_cell, r₁.col_same, r₁.cols_same)))
          (λ t₂ r₂. wrap_line-IsOnCell t₂ r₂.valid))

wrap_wide-IsOnCell : (width : ℕ) (t : Terminal) → IsOnCell t → Safe IsOnCell (wrap_wide width t)
unfolding wrap_wide
wrap_wide-IsOnCell width t o = elim (Bool-cases ((width == 2) && leb t.cols (t.cursor_col + 1))) [
  | inl wide ↦ simp wide (put_leading_spacer-IsOnCell t o)
  | inr fits ↦ simp fits o
]

Redrawn-IsOnCell : (t t' : Terminal) → IsOnCell t → Redrawn t t' → IsOnCell t'
Redrawn-IsOnCell t t' o r = record {
  valid = r.valid;
  on_cell = omega (arith, o.on_cell, r.col_same, r.cols_same);
}

invalidate_tab_at-IsOnCell :
    (t : Terminal) (column : ℕ)
    → IsOnCell t
    → Safe IsOnCell (invalidate_tab_at t.cursor_row column t)
invalidate_tab_at-IsOnCell t column o =
    Safe-weaken (Redrawn t) IsOnCell _
      (invalidate_tab_at-Redrawn t t.cursor_row column o.valid o.valid.row_in)
      (λ t' r. Redrawn-IsOnCell t t' o r)

-- A write at the cursor, and one step to the right.
advance-IsValid :
    (t : Terminal) (f : Cell → Cell)
    → IsOnCell t
    → Safe IsValid (
        set_cell t.cursor_row t.cursor_col f t >>= λ t'.
        some (record t' { cursor_col = t'.cursor_col + 1 }))
advance-IsValid t f o =
    Safe-bind (Redrawn t) IsValid (set_cell t.cursor_row t.cursor_col f t) _
      (set_cell-Redrawn t t.cursor_row t.cursor_col f o.valid o.valid.row_in o.on_cell)
      (λ t' r.
        at-IsValid t' t'.cursor_row (t'.cursor_col + 1) r.valid r.valid.row_in
          (omega (arith, o.on_cell, r.col_same, r.cols_same)))

put_continuation-IsValid :
    (width : ℕ) (t : Terminal) → IsValid t → Safe IsValid (put_continuation width t)
unfolding put_continuation put_trailing_spacer
put_continuation-IsValid width t v = elim (Bool-cases (width == 2)) [
  | inr narrow ↦ simp narrow v
  | inl wide ↦ elim (Bool-cases (ltb t.cursor_col t.cols)) [
    | inr full ↦ simp (wide, full) v
    | inl room ↦
        let on : t.cursor_col < t.cols = ground (arith, room) in
        simp (wide, room) (advance-IsValid t _ (record { valid = v; on_cell = on }))
  ]
]

put_spacing-IsValid :
    (width c : ℕ) (t : Terminal) → IsValid t → Safe IsValid (put_spacing width c t)
unfolding put_spacing put_cell
put_spacing-IsValid width c t v =
    Safe-bind IsOnCell IsValid (wrap_full t) _ (wrap_full-IsOnCell t v) (λ t₁ o₁.
      Safe-bind IsOnCell IsValid (wrap_wide width t₁) _ (wrap_wide-IsOnCell width t₁ o₁) (λ t₂ o₂.
        Safe-bind IsOnCell IsValid _ _ (invalidate_tab_at-IsOnCell t₂ t₂.cursor_col o₂) (λ t₃ o₃.
          Safe-bind IsOnCell IsValid
            (if width == 2 then invalidate_tab_at t₃.cursor_row (t₃.cursor_col + 1) t₃ else some t₃)
            _
            (elim (Bool-cases (width == 2)) [
              | inl wide ↦ simp wide (invalidate_tab_at-IsOnCell t₃ (t₃.cursor_col + 1) o₃)
              | inr narrow ↦ simp narrow o₃
            ])
            (λ t₄ o₄. Safe-bind IsValid IsValid _ _ (advance-IsValid t₄ _ o₄) (λ t₅ v₅.
              Safe-bind IsValid IsValid (put_continuation width t₅) _
                (put_continuation-IsValid width t₅ v₅) (λ t₆ v₆. damage-IsValid t₆ v₆))))))

put_combining-IsValid : (c : ℕ) (t : Terminal) → IsValid t → Safe IsValid (put_combining c t)
unfolding put_combining
put_combining-IsValid c t v =
    Safe-bind (Redrawn t) IsValid _ _
      (set_cell-Redrawn t t.cursor_row (t.cursor_col - 1) _ v v.row_in
        (omega (arith, v.col_in, v.some_cols)))
      (λ t' r. damage-IsValid t' r.valid)

pub input-IsValid :
    (char_width : Option ℕ) (c : ℕ) (t : Terminal) → IsValid t → Safe IsValid (input char_width c t)
unfolding input
input-IsValid none c t v = put_spacing-IsValid 1 c t v
input-IsValid (some w) c t v = elim (Bool-cases (w == 0)) [
  | inl z ↦ simp z (put_combining-IsValid c t v)
  | inr n ↦ simp n (put_spacing-IsValid w c t v)
]
