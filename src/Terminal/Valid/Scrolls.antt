-- ===== src/Terminal/Valid/Scrolls.antt =====
-- The scrolling of vvmux-terminal/src/lib.rs does not panic and keeps the terminal well formed, also
-- where `insert_blank_lines` and `delete_lines` set the region aside for a call.
use vvmux.Prelude.{
  ℕ, zero, suc, ◌+◌, ◌-◌, ◌≤◌, ◌<◌, ◌≡◌, refl, min, Option, arith, Bool-cases, inl, inr, ◌==◌, ltb,
  leb,
}
use vvmux.Prelude.Int.{ℤ}
use vvmux.Terminal.{Terminal, push_event, damage, grid_scroll}
use vvmux.Terminal.Vectors.{Safe, Safe-bind, Safe-weaken}
use vvmux.Terminal.Scroll.{
  scroll_up_once, scroll_down_once, repeat, scroll_region_up, scroll_region_down, line_feed,
  newline, reverse_index, insert_blank_lines, delete_lines,
}
use vvmux.Terminal.Valid.{IsValid}
use vvmux.Terminal.Valid.Moves.{at-IsValid, margins-IsValid, carriage_return-IsValid}
use vvmux.Terminal.Valid.Rounds.{
  IsScreen, Kept, IsScreen_of_IsValid, Kept-self, Kept-trans, Kept-IsValid, scroll_up_once-Kept,
  scroll_down_once-Kept,
}

pub repeat-Safe :
    (P : Terminal → Type 0) (n : ℕ) (f : Terminal → Option Terminal) (t : Terminal)
    → ((t' : Terminal) → P t' → Safe P (f t'))
    → P t
    → Safe P (repeat n f t)
unfolding repeat
repeat-Safe P zero f t k p = p
repeat-Safe P (suc n) f t k p = Safe-bind P P (f t) _ (k t p) (λ t' p'. repeat-Safe P n f t' k p')

-- A loop of rounds that each keep the screen, on a region that is not empty.
rounds-Kept :
    (t : Terminal) (f : Terminal → Option Terminal) (n : ℕ)
    → IsScreen t
    → t.scroll_bottom ≤ t.rows
    → ((t' : Terminal)
        → IsScreen t'
        → t'.scroll_top < t'.scroll_bottom
        → t'.scroll_bottom ≤ t'.rows
        → Safe (Kept t') (f t'))
    → Safe (Kept t) (repeat (min n (t.scroll_bottom - t.scroll_top)) f t)
unfolding repeat
rounds-Kept t f n v h' k = elim (Bool-cases (ltb t.scroll_top t.scroll_bottom)) [
  | inl region ↦
      repeat-Safe (Kept t) _ f t
        (λ t' p.
          Safe-weaken (Kept t') (Kept t) (f t')
            (k t' p.screen (ground (arith, region, p.top_same, p.bottom_same))
              (omega (arith, h', p.rows_same, p.bottom_same)))
            (λ t'' p'. Kept-trans t t' t'' p p'))
        (Kept-self t v)
  | inr shut ↦
      let none_left : min n (t.scroll_bottom - t.scroll_top) ≡ 0 = ground (arith, shut) in
      rw none_left (Kept-self t v)
]

push-Kept : (t t' : Terminal) (z : ℤ) → Kept t t' → Kept t (damage (push_event (grid_scroll z) t'))
unfolding damage
push-Kept t t' z k = ground (arith, k)

pub scroll_region_up-Kept :
    (t : Terminal) (n : ℕ)
    → IsScreen t
    → t.scroll_bottom ≤ t.rows
    → Safe (Kept t) (scroll_region_up t n)
unfolding scroll_region_up
scroll_region_up-Kept t n v h =
    Safe-bind (Kept t) (Kept t) _ _ (rounds-Kept t scroll_up_once n v h scroll_up_once-Kept)
      (λ t' k. elim (Bool-cases (ltb 0 (min n (t.scroll_bottom - t.scroll_top)))) [
        | inl some_rows ↦ rw some_rows (push-Kept t t' _ k)
        | inr no_rows ↦ rw no_rows k
      ])

pub scroll_region_down-Kept :
    (t : Terminal) (n : ℕ)
    → IsScreen t
    → t.scroll_bottom ≤ t.rows
    → Safe (Kept t) (scroll_region_down t n)
unfolding scroll_region_down
scroll_region_down-Kept t n v h =
    Safe-bind (Kept t) (Kept t) _ _ (rounds-Kept t scroll_down_once n v h scroll_down_once-Kept)
      (λ t' k. elim (Bool-cases (ltb 0 (min n (t.scroll_bottom - t.scroll_top)))) [
        | inl some_rows ↦ rw some_rows (push-Kept t t' _ k)
        | inr no_rows ↦ rw no_rows k
      ])

-- What a line feed leaves: a well-formed terminal of the same size, in the same column.
pub record Fed (t t' : Terminal) : Type 0 where
  pub valid : IsValid t'
  pub rows_same : t'.rows ≡ t.rows
  pub cols_same : t'.cols ≡ t.cols
  pub col_same : t'.cursor_col ≡ t.cursor_col

Fed-of_Kept : (t t' : Terminal) → IsValid t → Kept t t' → Fed t t'
Fed-of_Kept t t' v k = record {
  valid = Kept-IsValid t t' k v.top_in v.bottom_in;
  rows_same = k.rows_same;
  cols_same = k.cols_same;
  col_same = k.col_same;
}

pub scroll_region_up-Fed : (t : Terminal) (n : ℕ) → IsValid t → Safe (Fed t) (scroll_region_up t n)
scroll_region_up-Fed t n v =
    Safe-weaken (Kept t) (Fed t) _ (scroll_region_up-Kept t n (IsScreen_of_IsValid t v) v.bottom_in)
      (λ t' k. Fed-of_Kept t t' v k)

pub scroll_region_down-Fed :
    (t : Terminal) (n : ℕ) → IsValid t → Safe (Fed t) (scroll_region_down t n)
scroll_region_down-Fed t n v =
    Safe-weaken (Kept t) (Fed t) _
      (scroll_region_down-Kept t n (IsScreen_of_IsValid t v) v.bottom_in)
      (λ t' k. Fed-of_Kept t t' v k)

moved_row-Fed :
    (t : Terminal) (row : ℕ) → IsValid t → row < t.rows → Fed t (record t { cursor_row = row })
moved_row-Fed t row v h = record {
  valid = at-IsValid t row t.cursor_col v h v.col_in;
  rows_same = refl;
  cols_same = refl;
  col_same = refl;
}

pub line_feed-Fed : (t : Terminal) → IsValid t → Safe (Fed t) (line_feed t)
unfolding line_feed
line_feed-Fed t v = elim (Bool-cases (leb t.scroll_bottom (t.cursor_row + 1))) [
  | inl end ↦ rw end (scroll_region_up-Fed t 1 v)
  | inr inside ↦ rw inside (moved_row-Fed t _ v (omega (arith, v.some_rows)))
]

pub newline-IsValid : (t : Terminal) → IsValid t → Safe IsValid (newline t)
unfolding newline
newline-IsValid t v =
    Safe-bind (Fed t) IsValid (line_feed t) _ (line_feed-Fed t v)
      (λ t' f. carriage_return-IsValid t' f.valid)

pub reverse_index-IsValid : (t : Terminal) → IsValid t → Safe IsValid (reverse_index t)
unfolding reverse_index
reverse_index-IsValid t v = elim (Bool-cases (t.cursor_row == t.scroll_top)) [
  | inl top ↦
      rw top (Safe-weaken (Fed t) IsValid _ (scroll_region_down-Fed t 1 v) (λ t' f. f.valid))
  | inr other ↦ rw other (moved_row-Fed t _ v (omega (arith, v.row_in))).valid
]

-- The margins are put back after a call on a region from the cursor on.
restored-IsValid :
    (t t' : Terminal)
    → IsValid t
    → Kept (record t { scroll_top = t.cursor_row }) t'
    → IsValid (record t' { scroll_top = t.scroll_top })
restored-IsValid t t' v k =
    margins-IsValid (record t' { scroll_top = 0; scroll_bottom = t'.rows }) t.scroll_top
      t'.scroll_bottom k.screen (omega (arith, v.top_in, k.bottom_same))
      (omega (arith, v.bottom_in, k.bottom_same, k.rows_same))

pub insert_blank_lines-IsValid :
    (t : Terminal) (n : ℕ) → IsValid t → Safe IsValid (insert_blank_lines t n)
unfolding insert_blank_lines
insert_blank_lines-IsValid t n v =
    Safe-bind (Kept (record t { scroll_top = t.cursor_row })) IsValid _ _
      (scroll_region_down-Kept (record t { scroll_top = t.cursor_row }) n (IsScreen_of_IsValid t v)
        v.bottom_in)
      (λ t' k. restored-IsValid t t' v k)

pub delete_lines-IsValid : (t : Terminal) (n : ℕ) → IsValid t → Safe IsValid (delete_lines t n)
unfolding delete_lines
delete_lines-IsValid t n v =
    Safe-bind (Kept (record t { scroll_top = t.cursor_row })) IsValid _ _
      (scroll_region_up-Kept (record t { scroll_top = t.cursor_row }) n (IsScreen_of_IsValid t v)
        v.bottom_in)
      (λ t' k. restored-IsValid t t' v k)
