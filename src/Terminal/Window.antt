-- ===== src/Terminal/Window.antt =====
-- The history and the grid of vvmux-terminal/src/lib.rs under `scroll_region_up` of the whole
-- primary screen: a window that slides down over the lines.
pub mod Rounds
use mathlib.Core.List.{append_assoc, append-nil}
use vvmux.Prelude.{
  ℕ, zero, suc, ◌+◌, ◌-◌, ◌≤◌, ◌≡◌, refl, sym, ap, ap₂, subst, ◌∙◌, min, Bool, true, false, Option,
  none, some, List, [], ◌∷◌, ◌++◌, length, length-append, drop, drop_add, drop-nil, arith, ltb,
  ◌==◌, Bool-cases, inl, inr,
}
use vvmux.Terminal.{Cell, Grid, Terminal, blank, push_event, has_damage, damage}
use vvmux.Terminal.Vectors.{
  Safe, Safe-bind, Safe-weaken, remove_at, insert_at, replicate, length-drop,
}
use vvmux.Terminal.Scroll.{trim, keeps_history, store, scroll_up_once, repeat, scroll_region_up}
use vvmux.Terminal.Valid.{IsValid}
use vvmux.Prelude.Int.{pos, wrap, half_i32}
use vvmux.Terminal.{grid_scroll}
use Rounds.{lines, Full, blank_row, Slid, once-Slid, drop-append}

Slid-step :
    (n : ℕ) (t t' t'' : Terminal)
    → suc n ≤ t.rows
    → length t.grid ≡ t.rows
    → Slid 1 t t'
    → Slid n t' t''
    → Slid (suc n) t t''
Slid-step n t t' t'' h size s s' =
    let k = (length t.history + 1) - t.history_limit in
    let k' = (length t'.history + n) - t'.history_limit in
    let total : k + k' ≡ (length t.history + suc n) - t.history_limit =
      omega (arith, s.limit_same, s.history_length) in
    let room : k' ≤ length (drop k (lines t)) = omega (
      arith,
      s.limit_same,
      s.history_length,
      length-drop k (lines t),
      size,
      h,
      length-append t.history t.grid,
    ) in
    record {
      full = s'.full;
      rows_same = s'.rows_same ∙ s.rows_same;
      limit_same = s'.limit_same ∙ s.limit_same;
      row_same = s'.row_same ∙ s.row_same;
      history_length = omega (arith, s'.history_length, s.history_length, s.limit_same);
      window =
          s'.window
          ∙ ap₂ (λ x b. drop k' x ++ replicate n b) s.window s.row_same
          ∙ ap (λ x. x ++ replicate n (blank_row t))
              (drop-append k' (drop k (lines t)) (blank_row t ∷ []) room)
          ∙ append_assoc (drop k' (drop k (lines t))) (blank_row t ∷ []) (replicate n (blank_row t))
          ∙ ap (λ x. x ++ replicate (suc n) (blank_row t))
              (sym (drop_add k k' (lines t)) ∙ ap (λ m. drop m (lines t)) total);
    }

repeat-Slid :
    (n : ℕ) (t : Terminal)
    → Full t
    → n ≤ t.rows
    → length t.history ≤ t.history_limit
    → Safe (Slid n t) (repeat n scroll_up_once t)
unfolding repeat
repeat-Slid zero t f h h' =
    let none_dropped : (length t.history + 0) - t.history_limit ≡ 0 = omega (arith, h') in
    record {
      full = f;
      rows_same = refl;
      limit_same = refl;
      row_same = refl;
      history_length = omega (arith, h');
      window = sym (ap (λ k. drop k (lines t) ++ []) none_dropped ∙ append-nil (lines t));
    }
repeat-Slid (suc n) t f h h' =
    Safe-bind (Slid 1 t) (Slid (suc n) t) (scroll_up_once t) _ (once-Slid t f) (λ t' s.
      Safe-weaken (Slid n t') (Slid (suc n) t) (repeat n scroll_up_once t')
        (repeat-Slid n t' s.full (omega (arith, s.rows_same, h))
          (omega (arith, s.history_length, s.limit_same)))
        (λ t'' s'. Slid-step n t t' t'' h f.grid_long s s'))

-- What a scroll by `n` rows with a result does to the history and the grid.
abbrev pub Scrolled : ℕ → Terminal → Terminal → Type 0
Scrolled n t t' =
    (lines t'
      ≡ drop ((length t.history + n) - t.history_limit) (lines t)
        ++ replicate n (replicate t.cols (blank t)))
    × (length t'.history ≡ min t.history_limit (length t.history + n))

damage-Scrolled : (n : ℕ) (t t' : Terminal) → Scrolled n t t' → Scrolled n t (damage t')
unfolding damage
damage-Scrolled n t t' s = elim (Bool-cases (has_damage t'.events)) [
  | inl damaged ↦ simp damaged s
  | inr clean ↦ simp clean s
]

reached :
    (P : Terminal → Type 0) (m : Option Terminal) → Safe P m → (t : Terminal) × (m ≡ some t) × P t
reached P none s = absurd s
reached P (some t) s = (t, refl, s)

-- On the primary screen with no margins set, `scroll_region_up` by any number, of which at most the
-- number of rows counts, does not panic: the lines of the history and of the grid together are the
-- lines before, without the oldest beyond the history's limit, with as many blank rows of the
-- current background behind them, and the history holds as many of them as its limit lets it.
pub scroll_region_up-Scrolled :
    (t : Terminal) (count : ℕ)
    → IsValid t
    → t.scroll_top ≡ 0
    → t.scroll_bottom ≡ t.rows
    → t.alternate_screen ≡ false
    → (t' : Terminal) × (scroll_region_up t count ≡ some t') × Scrolled (min count t.rows) t t'
unfolding scroll_region_up
scroll_region_up-Scrolled t count v top bottom primary =
    let full : Full t = record {
      some_rows = v.some_rows;
      top = top;
      bottom = bottom;
      primary = primary;
      grid_long = v.grid_sized.0;
      wrapped_long = v.wrapped_sized;
    } in
    let n = min count (t.scroll_bottom - t.scroll_top) in
    let same : n ≡ min count t.rows = omega (arith, top, bottom) in
    let (t', e, s) =
      reached (Slid n t) (repeat n scroll_up_once t)
        (repeat-Slid n t full (omega (arith, bottom)) v.history_bounded) in
    let scrolled : Scrolled (min count t.rows) t t' =
      subst (λ k. Scrolled k t t') same (s.window, s.history_length) in
    elim (Bool-cases (ltb 0 n)) [
      | inl some_rows ↦ (
        damage (push_event (grid_scroll (wrap half_i32 (pos n))) t'),
        simp (scroll_region_up, e, some_rows) refl,
        damage-Scrolled (min count t.rows) t (push_event (grid_scroll (wrap half_i32 (pos n))) t')
            scrolled,
      )
      | inr no_rows ↦ (t', simp (scroll_region_up, e, no_rows) refl, scrolled)
    ]
