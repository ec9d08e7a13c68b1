-- ===== src/Terminal/Window/Rounds.antt =====
-- A round of `scroll_region_up` of vvmux-terminal/src/lib.rs on the whole primary screen.
use mathlib.Core.List.{append_assoc}
use vvmux.Prelude.{
  ℕ, zero, suc, ◌+◌, ◌-◌, ◌≤◌, ◌≡◌, refl, sym, ap, subst, ◌∙◌, min, Bool, true, false, some, List,
  [], ◌∷◌, ◌++◌, length, length-append, drop, drop-nil, arith, ltb, ◌==◌, Bool-cases, inl, inr,
}
use vvmux.Terminal.{Cell, Grid, Terminal, blank}
use vvmux.Terminal.Vectors.{Safe, remove_at, insert_at, replicate, length-drop}
use vvmux.Terminal.Scroll.{trim, keeps_history, store, scroll_up_once}

drop-suc : {A : Type 0} (n : ℕ) (xs : List A) → drop (suc n) xs ≡ drop n (drop 1 xs)
drop-suc n [] = sym (drop-nil n)
drop-suc n (x ∷ xs) = refl

trim-drop :
    (limit : ℕ) (rows : Grid) (wrapped : List Bool)
    → trim limit rows wrapped
      ≡ (drop (length rows - limit) rows, drop (length rows - limit) wrapped)
unfolding trim
trim-drop limit [] wrapped = let e : 0 - limit ≡ 0 = omega arith in rw e refl
trim-drop limit (row ∷ rows) wrapped = elim (Bool-cases (ltb limit (length (row ∷ rows)))) [
  | inl over ↦
      let e : suc (length rows) - limit ≡ suc (length rows - limit) = ground (arith, over) in
      simp (over, e)
        (trim-drop limit rows (drop 1 wrapped)
          ∙ ap (λ w. (drop (length rows - limit) rows, w))
              (sym (drop-suc (length rows - limit) wrapped)))
  | inr within ↦
      let e : suc (length rows) - limit ≡ 0 = ground (arith, within) in simp (within, e) refl
]

remove_first :
    {A : Type 0} (xs : List A)
    → 1 ≤ length xs
    → (x : A) × (ys : List A) × (xs ≡ x ∷ ys) × (remove_at 0 xs ≡ some (x, ys))
unfolding remove_at
remove_first [] h = absurd (omega (arith, h))
remove_first (x ∷ xs) h = (x, xs, refl, refl)

insert_last :
    {A : Type 0} (n : ℕ) (a : A) (xs : List A)
    → length xs ≡ n
    → insert_at n a xs ≡ some (xs ++ (a ∷ []))
unfolding insert_at
insert_last zero a [] e = refl
insert_last (suc n) a [] e = absurd (omega (arith, e))
insert_last zero a (x ∷ xs) e = absurd (omega (arith, e))
insert_last (suc n) a (x ∷ xs) e = rw (insert_last n a xs (omega (arith, e))) refl

pub drop-append :
    {A : Type 0} (n : ℕ) (xs ys : List A) → n ≤ length xs → drop n (xs ++ ys) ≡ drop n xs ++ ys
drop-append zero xs ys h = refl
drop-append (suc n) [] ys h = absurd (omega (arith, h))
drop-append (suc n) (x ∷ xs) ys h = drop-append n xs ys (omega (arith, h))

-- The lines of the history and of the grid, the oldest first.
abbrev pub lines : Terminal → Grid
lines t = t.history ++ t.grid

-- The terminal keeps a history of what scrolls off its grid.
pub record Full (t : Terminal) : Type 0 where
  pub some_rows : 1 ≤ t.rows
  pub top : t.scroll_top ≡ 0
  pub bottom : t.scroll_bottom ≡ t.rows
  pub primary : t.alternate_screen ≡ false
  pub grid_long : length t.grid ≡ t.rows
  pub wrapped_long : length t.grid_wrapped ≡ t.rows

abbrev pub blank_row : Terminal → List Cell
blank_row t = replicate t.cols (blank t)

-- `t'` is `t` after `n` rounds.
pub record Slid (n : ℕ) (t t' : Terminal) : Type 0 where
  pub full : Full t'
  pub rows_same : t'.rows ≡ t.rows
  pub limit_same : t'.history_limit ≡ t.history_limit
  pub row_same : blank_row t' ≡ blank_row t
  pub history_length : length t'.history ≡ min t.history_limit (length t.history + n)
  pub window :
      lines t'
      ≡ drop ((length t.history + n) - t.history_limit) (lines t) ++ replicate n (blank_row t)

keeps_history-Full : (t : Terminal) → Full t → keeps_history t ≡ true
unfolding keeps_history
keeps_history-Full t f =
    let a : (t.scroll_top == 0) ≡ true = ground (arith, f.top) in
    let b : (t.scroll_bottom == t.rows) ≡ true = ground (arith, f.bottom) in
    simp (a, b, f.primary) refl

-- The terminal after one round that removes the row `g` before `gs`.
abbrev slid : Terminal → List Cell → Grid → Bool → List Bool → Terminal
slid t g gs w ws = record t {
  grid = gs ++ (blank_row t ∷ []);
  grid_wrapped = ws ++ (false ∷ []);
  history = (trim t.history_limit (t.history ++ (g ∷ [])) (t.history_wrapped ++ (w ∷ []))).0;
  history_wrapped =
      (trim t.history_limit (t.history ++ (g ∷ [])) (t.history_wrapped ++ (w ∷ []))).1;
}

slid-Slid :
    (t : Terminal) (g : List Cell) (gs : Grid) (w : Bool) (ws : List Bool)
    → Full t
    → (t.grid ≡ g ∷ gs)
    → (t.grid_wrapped ≡ w ∷ ws)
    → Slid 1 t (slid t g gs w ws)
unfolding blank
slid-Slid t g gs w ws f e e' =
    let trimmed =
      trim-drop t.history_limit (t.history ++ (g ∷ [])) (t.history_wrapped ++ (w ∷ [])) in
    let n = (length t.history + 1) - t.history_limit in
    let size : length (t.history ++ (g ∷ [])) ≡ length t.history + 1 =
      length-append t.history (g ∷ []) in
    let kept : (slid t g gs w ws).history ≡ drop n (t.history ++ (g ∷ [])) =
      ap (λ k. k.0) trimmed ∙ ap (λ k. drop (k - t.history_limit) (t.history ++ (g ∷ []))) size in
    record {
      full = record {
        some_rows = f.some_rows;
        top = f.top;
        bottom = f.bottom;
        primary = f.primary;
        grid_long = omega (arith, length-append gs (blank_row t ∷ []), ap length e, f.grid_long);
        wrapped_long = omega (arith, length-append ws (false ∷ []), ap length e', f.wrapped_long);
      };
      rows_same = refl;
      limit_same = refl;
      row_same = refl;
      history_length = omega (arith, ap length kept, length-drop n (t.history ++ (g ∷ [])), size);
      window =
          ap (λ h. h ++ (gs ++ (blank_row t ∷ []))) kept
          ∙ sym (append_assoc (drop n (t.history ++ (g ∷ []))) gs (blank_row t ∷ []))
          ∙ ap (λ r. r ++ (blank_row t ∷ []))
              (sym (drop-append n (t.history ++ (g ∷ [])) gs (omega (arith, size)))
                ∙ ap (λ r. drop n r)
                    (append_assoc t.history (g ∷ []) gs ∙ ap (λ r. t.history ++ r) (sym e)));
    }

pub once-Slid : (t : Terminal) → Full t → Safe (Slid 1 t) (scroll_up_once t)
unfolding scroll_up_once store
once-Slid t f =
    let (g, gs, grid_is, removed) = remove_first t.grid (omega (arith, f.some_rows, f.grid_long)) in
    let (w, ws, wrapped_is, removed_wrapped) =
      remove_first t.grid_wrapped (omega (arith, f.some_rows, f.wrapped_long)) in
    let first : remove_at t.scroll_top t.grid ≡ some (g, gs) = rw f.top removed in
    let first' : remove_at t.scroll_top t.grid_wrapped ≡ some (w, ws) = rw f.top removed_wrapped in
    let last =
      insert_last (t.scroll_bottom - 1) (blank_row t) gs
        (omega (arith, ap length grid_is, f.grid_long, f.bottom)) in
    let last' =
      insert_last (t.scroll_bottom - 1) false ws
        (omega (arith, ap length wrapped_is, f.wrapped_long, f.bottom)) in
    let e : scroll_up_once t ≡ some (slid t g gs w ws) =
      simp (scroll_up_once, first, first', last, last', keeps_history-Full t f) refl in
    subst (Safe (Slid 1 t)) (sym e) (slid-Slid t g gs w ws f grid_is wrapped_is)
