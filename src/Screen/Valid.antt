-- ===== src/Screen/Valid.antt =====
-- No call that draws on the screen of src/screen.rs is out of the range of its cells.
use native.Mathlib.Nat.{mul-le-mul_right, mul_comm, mul-suc}
use vvmux.Prelude.{
  ℕ, zero, suc, ◌+◌, ◌-◌, ◌*◌, ◌<◌, ◌≡◌, refl, sym, subst, ◌%◌, ◌&&◌, ◌||◌, Option, none, some,
  List, [], ◌∷◌, length, get_elem?, take, arith, ltb, leb, if◌then◌else◌, Bool-cases, Option-cases,
  inl, inr, ◌>>=◌,
}
use vvmux.Prelude.Int.{pos, ◌-ℤ◌}
use vvmux.Prelude.Word.{u16_max, saturating_add, add_u16, sub_u16}
use vvmux.Layout.Rect.{Rect}
use vvmux.Terminal.{Cell, default_cell, Terminal, Text}
use vvmux.Terminal.Vectors.{Sized, Anything, Safe, Safe-bind, update_at-Safe, replicate-Sized}
use vvmux.Terminal.Text.{viewport_line}
use vvmux.Terminal.Valid.{All-Anything}
use vvmux.Screen.{
  ScreenBuffer, new, put, clear_leading, clear_trailing, set_cells, set_inside, set, draw_text_from,
  draw_text, styled, draw_across, draw_down, draw_title, draw_edges, draw_frame, draw_line,
  draw_rows, draw_terminal, ScreenOp, set_op, draw_text_op, draw_frame_op, draw_terminal_op,
  apply_op, run,
}

-- A cell of the screen has its index among the cells.
pub index-lt : (columns rows x y : ℕ) → x < columns → y < rows → y * columns + x < columns * rows
index-lt columns rows x y h h' = omega (
  arith,
  h,
  mul-le-mul_right columns h',
  mul_comm (suc y) columns,
  mul-suc columns y,
  mul_comm y columns,
  mul_comm rows columns,
)

pub get_elem?-Safe :
    {A : Type 0} (i : ℕ) (xs : List A) → i < length xs → (a : A) × (get_elem? xs i ≡ some a)
get_elem?-Safe i [] h = absurd (omega (arith, h))
get_elem?-Safe zero (x ∷ xs) h = (x, refl)
get_elem?-Safe (suc i) (x ∷ xs) h = get_elem?-Safe i xs (omega (arith, h))

module _ (n : ℕ) where
  abbrev Cells : List Cell → Type 0
  Cells cells = Sized Anything n cells

  put-Safe :
      (i : ℕ) (cell : Cell) (cells : List Cell)
      → i < n
      → Cells cells
      → Safe Cells (put i cell cells)
  unfolding put
  put-Safe i cell cells h s = update_at-Safe Anything i n (λ _. some cell) cells h s (λ _ _. tt)

  clear_leading-Safe :
      (x i : ℕ) (cells : List Cell) → i < n → Cells cells → Safe Cells (clear_leading x i cells)
  unfolding clear_leading
  clear_leading-Safe x i cells h s =
      let (old, found) = get_elem?-Safe i cells (omega (arith, h, s.0)) in
      elim (Bool-cases (old.wide_continuation && ltb 0 x)) [
        | inl half ↦
            simp (clear_leading, found, half)
              (put-Safe (i - 1) default_cell cells (omega (arith, h)) s)
        | inr whole ↦ simp (clear_leading, found, whole) s
      ]

  clear_trailing-Safe :
      (i : ℕ) (cells : List Cell) → i + 1 < n → Cells cells → Safe Cells (clear_trailing i cells)
  unfolding clear_trailing
  clear_trailing-Safe i cells h s =
      let (old, found) = get_elem?-Safe (i + 1) cells (omega (arith, h, s.0)) in
      elim (Bool-cases old.wide_continuation) [
        | inl half ↦ simp (clear_trailing, found, half) (put-Safe (i + 1) default_cell cells h s)
        | inr whole ↦ simp (clear_trailing, found, whole) s
      ]

  set_cells-Safe :
      (columns x i : ℕ) (cell : Cell) (cells : List Cell)
      → i < n
      → (x + 1 < columns → i + 1 < n)
      → Cells cells
      → Safe Cells (set_cells columns x i cell cells)
  unfolding set_cells
  set_cells-Safe columns x i cell cells h h' s =
      let right_half : (cells' : List Cell)
          → Cells cells'
          → Safe Cells (if ltb (x + 1) columns then clear_trailing i cells' else some cells') =
        λ cells' s'. elim (Bool-cases (ltb (x + 1) columns)) [
          | inl inside ↦ simp inside (clear_trailing-Safe i cells' (h' (ground (arith, inside))) s')
          | inr outside ↦ simp outside s'
        ] in
      Safe-bind Cells Cells (clear_leading x i cells) _ (clear_leading-Safe x i cells h s)
        (λ cells₁ s₁.
          Safe-bind Cells Cells
            (if ltb (x + 1) columns then clear_trailing i cells₁ else some cells₁) _
            (right_half cells₁ s₁) (λ cells₂ s₂. put-Safe i cell cells₂ h s₂))

-- A screen of a given size and cursor, with a cell for each place.
pub record Fits (columns rows : ℕ) (cursor : Option (ℕ × ℕ)) (s : ScreenBuffer) : Type 0 where
  pub columns_same : s.columns ≡ columns
  pub rows_same : s.rows ≡ rows
  pub cursor_same : s.cursor ≡ cursor
  pub sized : length s.cells ≡ columns * rows

module _ (columns rows : ℕ) (cursor : Option (ℕ × ℕ)) where
  abbrev Fit : ScreenBuffer → Type 0
  Fit s = Fits columns rows cursor s

  set-Safe : (x y : ℕ) (cell : Cell) (s : ScreenBuffer) → Fit s → Safe Fit (set x y cell s)
  unfolding set set_inside
  set-Safe x y cell s f = elim (Bool-cases (ltb x s.columns && ltb y s.rows)) [
    | inl inside ↦
        let left : x < columns = ground (arith, inside, f.columns_same) in
        let below : y < rows = ground (arith, inside, f.rows_same) in
        let cols = f.columns_same in
        let place : y * s.columns + x < columns * rows =
          subst (λ c. y * c + x < columns * rows) (sym cols)
            (index-lt columns rows x y left below) in
        let next : x + 1 < s.columns → (y * s.columns + x) + 1 < columns * rows = λ h.
          let k = index-lt columns rows (x + 1) y (omega (arith, h, cols)) below in
          subst (λ c. (y * c + x) + 1 < columns * rows) (sym cols) (omega (arith, k)) in
        simp inside (
          Safe-bind (Cells (columns * rows)) Fit
            (set_cells s.columns x (y * s.columns + x) cell s.cells) _
            (set_cells-Safe (columns * rows) s.columns x (y * s.columns + x) cell s.cells place next
              (f.sized, All-Anything s.cells))
            (λ cells c. record {
              columns_same = f.columns_same;
              rows_same = f.rows_same;
              cursor_same = f.cursor_same;
              sized = c.0;
            }))
    | inr outside ↦ simp outside f
  ]

  -- A call, then another one.
  then-Safe :
      (m : Option ScreenBuffer) (k : ScreenBuffer → Option ScreenBuffer)
      → Safe Fit m
      → ((s : ScreenBuffer) → Fit s → Safe Fit (k s))
      → Safe Fit (m >>= k)
  then-Safe m k h h' = Safe-bind Fit Fit m k h h'

  draw_text_from-Safe :
      (x y : ℕ) (style : ℕ → Cell) (offset : ℕ) (text : Text) (s : ScreenBuffer)
      → Fit s
      → Safe Fit (draw_text_from x y style offset text s)
  unfolding draw_text_from
  draw_text_from-Safe x y style offset [] s f = f
  draw_text_from-Safe x y style offset (ch ∷ chs) s f =
      elim (Bool-cases (leb s.columns (saturating_add u16_max x (offset % 65536)))) [
        | inl over ↦ simp over f
        | inr room ↦ simp room (
            then-Safe _ _ (set-Safe (saturating_add u16_max x (offset % 65536)) y (style ch) s f)
              (draw_text_from-Safe x y style (suc offset) chs))
      ]

  draw_across-Safe :
      (top bottom : ℕ) (cell : Cell) (x count : ℕ) (s : ScreenBuffer)
      → Fit s
      → Safe Fit (draw_across top bottom cell x count s)
  unfolding draw_across
  draw_across-Safe top bottom cell x zero s f = f
  draw_across-Safe top bottom cell x (suc count) s f =
      then-Safe _ _ (set-Safe x top cell s f) (λ s₁ f₁.
        then-Safe _ _ (set-Safe x bottom cell s₁ f₁)
          (draw_across-Safe top bottom cell (suc x) count))

  draw_down-Safe :
      (left right : ℕ) (cell : Cell) (y count : ℕ) (s : ScreenBuffer)
      → Fit s
      → Safe Fit (draw_down left right cell y count s)
  unfolding draw_down
  draw_down-Safe left right cell y zero s f = f
  draw_down-Safe left right cell y (suc count) s f =
      then-Safe _ _ (set-Safe left y cell s f) (λ s₁ f₁.
        then-Safe _ _ (set-Safe right y cell s₁ f₁) (draw_down-Safe left right cell (suc y) count))

  draw_title-Safe :
      (x y color offset : ℕ) (title : Text) (s : ScreenBuffer)
      → Fit s
      → Safe Fit (draw_title x y color offset title s)
  unfolding draw_title
  draw_title-Safe x y color offset [] s f = f
  draw_title-Safe x y color offset (ch ∷ chs) s f =
      then-Safe _ _ (set-Safe _ y (styled color ch) s f)
        (draw_title-Safe x y color (suc offset) chs)

  draw_frame-Safe :
      (r : Rect) (title : Text) (color : ℕ) (s : ScreenBuffer)
      → Fit s
      → Safe Fit (draw_frame r title color s)
  unfolding draw_frame draw_edges
  draw_frame-Safe r title color s f =
      let right = sub_u16 (add_u16 r.x r.width) 1 in
      let bottom = sub_u16 (add_u16 r.y r.height) 1 in
      elim (Bool-cases (ltb r.width 2 || ltb r.height 2)) [
        | inl small ↦ simp small f
        | inr large ↦ simp large (
            then-Safe _ _ (draw_across-Safe r.y bottom _ _ _ s f) (λ s₁ f₁.
              then-Safe _ _ (draw_down-Safe r.x right _ _ _ s₁ f₁) (λ s₂ f₂.
                then-Safe _ _ (set-Safe r.x r.y _ s₂ f₂) (λ s₃ f₃.
                  then-Safe _ _ (set-Safe right r.y _ s₃ f₃) (λ s₄ f₄.
                    then-Safe _ _ (set-Safe r.x bottom _ s₄ f₄) (λ s₅ f₅.
                      then-Safe _ _ (set-Safe right bottom _ s₅ f₅)
                        (draw_title-Safe r.x r.y color 0 (take (r.width - 4) title))))))))
      ]

  draw_line-Safe :
      (x y : ℕ) (line : List Cell) (column count : ℕ) (s : ScreenBuffer)
      → Fit s
      → Safe Fit (draw_line x y line column count s)
  unfolding draw_line
  draw_line-Safe x y line column zero s f = f
  draw_line-Safe x y line column (suc count) s f = elim (Option-cases (get_elem? line column)) [
    | inl absent ↦ simp (draw_line, absent) (draw_line-Safe x y line (suc column) count s f)
    | inr (cell, found) ↦
        simp (draw_line, found)
          (then-Safe _ _ (set-Safe (add_u16 x (column % 65536)) y cell s f)
            (draw_line-Safe x y line (suc column) count))
  ]

  draw_rows-Safe :
      (r : Rect) (t : Terminal) (scroll_offset row count : ℕ) (s : ScreenBuffer)
      → Fit s
      → Safe Fit (draw_rows r t scroll_offset row count s)
  unfolding draw_rows
  draw_rows-Safe r t scroll_offset row zero s f = f
  draw_rows-Safe r t scroll_offset row (suc count) s f =
      elim (Option-cases (viewport_line t (pos row -ℤ pos scroll_offset))) [
        | inl absent ↦
            simp (draw_rows, absent) (draw_rows-Safe r t scroll_offset (suc row) count s f)
        | inr (line, found) ↦
            simp (draw_rows, found)
              (then-Safe _ _ (draw_line-Safe r.x (add_u16 r.y (row % 65536)) line 0 r.width s f)
                (draw_rows-Safe r t scroll_offset (suc row) count))
      ]

  apply_op-Safe : (s : ScreenBuffer) (op : ScreenOp) → Fit s → Safe Fit (apply_op s op)
  unfolding apply_op draw_text draw_terminal
  apply_op-Safe s (set_op x y cell) f = set-Safe x y cell s f
  apply_op-Safe s (draw_text_op x y text foreground background) f =
      draw_text_from-Safe x y _ 0 text s f
  apply_op-Safe s (draw_frame_op r title color) f = draw_frame-Safe r title color s f
  apply_op-Safe s (draw_terminal_op r t scroll_offset) f =
      draw_rows-Safe r t scroll_offset 0 r.height s f

  run-Safe : (s : ScreenBuffer) (ops : List ScreenOp) → Fit s → Safe Fit (run s ops)
  unfolding run
  run-Safe s [] f = f
  run-Safe s (op ∷ ops) f = then-Safe _ _ (apply_op-Safe s op f) (λ s' f'. run-Safe s' ops f')

reached :
    (P : ScreenBuffer → Type 0) (m : Option ScreenBuffer)
    → Safe P m
    → (s : ScreenBuffer) × (m ≡ some s) × P s
reached P none h = absurd h
reached P (some s) h = (s, refl, h)

-- From a new screen of any size, any calls that draw end without an index out of range, and leave a
-- screen of the same size that has a cell for each place and no cursor.
pub run-Fits :
    (columns rows : ℕ) (ops : List ScreenOp)
    → (s : ScreenBuffer) × (run (new columns rows) ops ≡ some s) × Fits columns rows none s
unfolding new
run-Fits columns rows ops =
    let start : Fits columns rows none (new columns rows) = record {
      columns_same = refl;
      rows_same = refl;
      cursor_same = refl;
      sized = (replicate-Sized Anything (columns * rows) default_cell tt).0;
    } in
    reached (Fits columns rows none) _ (run-Safe columns rows none (new columns rows) ops start)
