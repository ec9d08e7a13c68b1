-- ===== src/Terminal/Valid/Rounds.antt =====
-- A round of the scrolling of vvmux-terminal/src/lib.rs does not panic and keeps the size of the
-- screen.
use vvmux.Prelude.{
  ℕ, suc, ◌-◌, ◌≤◌, ◌<◌, ◌≡◌, refl, ◌∙◌, Bool, false, some, List, [], ◌∷◌, ◌++◌, length, drop,
  arith, Bool-cases, inl, inr, ltb, ◌>>=◌, length-append,
}
use vvmux.Terminal.{Cell, Grid, Terminal, blank}
use vvmux.Terminal.Vectors.{
  Sized, Anything, Safe, Safe-bind, remove_at, remove_at-Safe, insert_at, insert_at-Safe, replicate,
  length-drop,
}
use vvmux.Terminal.Scroll.{trim, keeps_history, store, scroll_up_once, scroll_down_once}
use vvmux.Terminal.Valid.{IsValid, IsRow, IsGrid, All-Anything, replicate-IsRow}
use vvmux.Terminal.Valid.Moves.{margins-IsValid}

-- Well formed but for the scrolling region.
abbrev pub IsScreen : Terminal → Type 0
IsScreen t = IsValid (record t { scroll_top = 0; scroll_bottom = t.rows })

-- What a scroll of `t` leaves.
pub record Kept (t t' : Terminal) : Type 0 where
  pub screen : IsScreen t'
  pub rows_same : t'.rows ≡ t.rows
  pub cols_same : t'.cols ≡ t.cols
  pub top_same : t'.scroll_top ≡ t.scroll_top
  pub bottom_same : t'.scroll_bottom ≡ t.scroll_bottom
  pub row_same : t'.cursor_row ≡ t.cursor_row
  pub col_same : t'.cursor_col ≡ t.cursor_col

pub IsScreen_of_IsValid : (t : Terminal) → IsValid t → IsScreen t
IsScreen_of_IsValid t v = margins-IsValid t 0 t.rows v (omega (arith, v.some_rows)) (omega arith)

pub Kept-self : (t : Terminal) → IsScreen t → Kept t t
Kept-self t v = record {
  screen = v;
  rows_same = refl;
  cols_same = refl;
  top_same = refl;
  bottom_same = refl;
  row_same = refl;
  col_same = refl;
}

pub Kept-trans : (t t' t'' : Terminal) → Kept t t' → Kept t' t'' → Kept t t''
Kept-trans t t' t'' k k' = record {
  screen = k'.screen;
  rows_same = k'.rows_same ∙ k.rows_same;
  cols_same = k'.cols_same ∙ k.cols_same;
  top_same = k'.top_same ∙ k.top_same;
  bottom_same = k'.bottom_same ∙ k.bottom_same;
  row_same = k'.row_same ∙ k.row_same;
  col_same = k'.col_same ∙ k.col_same;
}

-- With the margins that it had, a scrolled terminal is well formed again.
pub Kept-IsValid :
    (t t' : Terminal)
    → Kept t t'
    → t.scroll_top < t.scroll_bottom
    → t.scroll_bottom ≤ t.rows
    → IsValid t'
Kept-IsValid t t' k h h' =
    margins-IsValid (record t' { scroll_top = 0; scroll_bottom = t'.rows }) t'.scroll_top
      t'.scroll_bottom k.screen (omega (arith, h, k.top_same, k.bottom_same))
      (omega (arith, h', k.bottom_same, k.rows_same))

trim-bounded :
    (limit : ℕ) (history : Grid) (wrapped : List Bool)
    → length history ≡ length wrapped
    → (length (trim limit history wrapped).0 ≡ length (trim limit history wrapped).1)
      × (length (trim limit history wrapped).0 ≤ limit)
unfolding trim
trim-bounded limit [] wrapped e = (e, omega arith)
trim-bounded limit (row ∷ rows) wrapped e = elim (Bool-cases (ltb limit (length (row ∷ rows)))) [
  | inl more ↦
      rw more (trim-bounded limit rows (drop 1 wrapped) (omega (arith, e, length-drop 1 wrapped)))
  | inr fits ↦ rw fits (e, ground (arith, fits))
]

store-bounded :
    (t : Terminal) (row : List Cell) (wrapped : Bool)
    → length t.history ≡ length t.history_wrapped
    → length t.history ≤ t.history_limit
    → (length (store t row wrapped).0 ≡ length (store t row wrapped).1)
      × (length (store t row wrapped).0 ≤ t.history_limit)
unfolding store
store-bounded t row wrapped e h = elim (Bool-cases (keeps_history t)) [
  | inl k ↦ rw k (
      trim-bounded t.history_limit (t.history ++ (row ∷ [])) (t.history_wrapped ++ (wrapped ∷ [])) (
        omega (
          arith,
          e,
          length-append t.history (row ∷ []),
          length-append t.history_wrapped (wrapped ∷ []),
        )))
  | inr k ↦ rw k (e, h)
]

-- A screen with other rows of the same sizes, and another history within the limit.
rows-Kept :
    (t : Terminal) (grid history : Grid) (wrapped history_wrapped : List Bool)
    → IsScreen t
    → IsGrid t.rows t.cols grid
    → length wrapped ≡ t.rows
    → length history ≡ length history_wrapped
    → length history ≤ t.history_limit
    → Kept t (record t {
      grid = grid;
      grid_wrapped = wrapped;
      history = history;
      history_wrapped = history_wrapped;
    })
rows-Kept t grid history wrapped history_wrapped v g w p b = record {
  screen = record {
    some_rows = v.some_rows;
    some_cols = v.some_cols;
    grid_sized = g;
    alternate_sized = v.alternate_sized;
    wrapped_sized = w;
    alternate_wrapped_sized = v.alternate_wrapped_sized;
    history_paired = p;
    history_bounded = b;
    row_in = v.row_in;
    col_in = v.col_in;
    top_in = v.top_in;
    bottom_in = v.bottom_in;
    stops_sized = v.stops_sized;
  };
  rows_same = refl;
  cols_same = refl;
  top_same = refl;
  bottom_same = refl;
  row_same = refl;
  col_same = refl;
}

module _ (t : Terminal) (v : IsScreen t) (h : t.scroll_top < t.scroll_bottom)
    (h' : t.scroll_bottom ≤ t.rows) where
  -- A row is taken out at one place and a blank one is put in at another.
  moved-Safe :
      (from to : ℕ) (keep : List Cell → Bool → Grid × List Bool)
      → from < t.rows
      → to < t.rows
      → ((row : List Cell) (b : Bool)
          → (length (keep row b).0 ≡ length (keep row b).1)
            × (length (keep row b).0 ≤ t.history_limit))
      → Safe (Kept t) (do
        (removed, grid) ← remove_at from t.grid
        (removed_wrapped, wrapped) ← remove_at from t.grid_wrapped
        grid' ← insert_at to (replicate t.cols (blank t)) grid
        wrapped' ← insert_at to false wrapped
        some (record t {
          grid = grid';
          grid_wrapped = wrapped';
          history = (keep removed removed_wrapped).0;
          history_wrapped = (keep removed removed_wrapped).1;
        }))
  moved-Safe from to keep hf ht hk =
      let n = t.rows - 1 in
      let size : t.rows ≡ suc n = omega (arith, h, h') in
      Safe-bind (λ (row, g). IsRow t.cols row × Sized (IsRow t.cols) n g) (Kept t)
        (remove_at from t.grid) _
        (remove_at-Safe (IsRow t.cols) from n t.grid (omega (arith, hf))
          (v.grid_sized.0 ∙ size, v.grid_sized.1))
        (λ (removed, grid) (row_ok, grid_ok).
          Safe-bind (λ (b, w). Anything b × Sized Anything n w) (Kept t)
            (remove_at from t.grid_wrapped) _
            (remove_at-Safe Anything from n t.grid_wrapped (omega (arith, hf))
              (v.wrapped_sized ∙ size, All-Anything _))
            (λ (removed_wrapped, wrapped) (b_ok, wrapped_ok).
              Safe-bind (Sized (IsRow t.cols) (suc n)) (Kept t)
                (insert_at to (replicate t.cols (blank t)) grid) _
                (insert_at-Safe (IsRow t.cols) to n _ grid (omega (arith, ht))
                  (replicate-IsRow t.cols (blank t)) grid_ok)
                (λ grid' grid_ok'.
                  Safe-bind (Sized Anything (suc n)) (Kept t) (insert_at to false wrapped) _
                    (insert_at-Safe Anything to n false wrapped (omega (arith, ht)) tt wrapped_ok)
                    (λ wrapped' wrapped_ok'.
                      let (paired, bounded) = hk removed removed_wrapped in
                      rows-Kept t grid' _ wrapped' _ v (omega (arith, grid_ok'.0, size), grid_ok'.1)
                        (omega (arith, wrapped_ok'.0, size)) paired bounded))))

  pub scroll_up_once-Kept : Safe (Kept t) (scroll_up_once t)
  unfolding scroll_up_once
  scroll_up_once-Kept =
      moved-Safe t.scroll_top (t.scroll_bottom - 1) (store t) (omega (arith, h, h'))
        (omega (arith, h, h')) (λ row b. store-bounded t row b v.history_paired v.history_bounded)

  pub scroll_down_once-Kept : Safe (Kept t) (scroll_down_once t)
  unfolding scroll_down_once
  scroll_down_once-Kept =
      moved-Safe (t.scroll_bottom - 1) t.scroll_top (λ row b. (t.history, t.history_wrapped))
        (omega (arith, h, h')) (omega (arith, h, h'))
        (λ row b. (v.history_paired, v.history_bounded))
