-- ===== src/Screen/Halves.antt =====
-- What `set` of src/screen.rs does to every cell.
use vvmux.Prelude.{
  ℕ, zero, suc, ◌+◌, ◌-◌, ◌*◌, ◌<◌, ◌≡◌, refl, ap, ap₂, ◌∙◌, Bool, true, false, ◌&&◌, Option, none,
  some, List, [], ◌∷◌, length, get_elem?, arith, ltb, ◌==◌, if◌then◌else◌, Bool-cases, inl, inr,
}
use vvmux.Terminal.{Cell, default_cell}
use vvmux.Terminal.Vectors.{Safe, Safe-bind, Safe-weaken, update_at}
use vvmux.Screen.{ScreenBuffer, put, clear_leading, clear_trailing, set_cells, set_inside, set}
use vvmux.Screen.Valid.{Fits, index-lt, get_elem?-Safe}

-- The cell at an index is the right half of a wide character.
unfoldable pub is_half : List Cell → ℕ → Bool
is_half cells i = elim (get_elem? cells i) [ none ↦ false | some cell ↦ cell.wide_continuation ]

is_half-found :
    (cells : List Cell) (i : ℕ) (cell : Cell)
    → get_elem? cells i ≡ some cell
    → is_half cells i ≡ cell.wide_continuation
unfolding is_half
is_half-found cells i cell found = rw (is_half, found) refl

-- `cells'` is `cells` with `cell` at `i` if the test holds.
abbrev Put : Bool → ℕ → Cell → List Cell → List Cell → Type 0
Put test i cell cells cells' =
    (length cells' ≡ length cells)
    × ((j : ℕ) → get_elem? cells' j ≡ (if test && j == i then some cell else get_elem? cells j))

suc_test : (j i : ℕ) → (j == i) ≡ (suc j == suc i)
suc_test j i = ground arith

get_elem?-first :
    (cell c : Cell) (cells : List Cell) (j : ℕ)
    → get_elem? (cell ∷ cells) j ≡ (if j == 0 then some cell else get_elem? (c ∷ cells) j)
get_elem?-first cell c cells zero = refl
get_elem?-first cell c cells (suc j) = let e : (suc j == 0) ≡ false = ground arith in simp e refl

get_elem?-later :
    (i : ℕ) (cell c : Cell) (cells cells' : List Cell)
    → ((j : ℕ) → get_elem? cells' j ≡ (if j == i then some cell else get_elem? cells j))
    → (j : ℕ)
    → get_elem? (c ∷ cells') j ≡ (if j == suc i then some cell else get_elem? (c ∷ cells) j)
get_elem?-later i cell c cells cells' h zero =
    let e : (0 == suc i) ≡ false = ground arith in simp e refl
get_elem?-later i cell c cells cells' h (suc j) =
    h j ∙ ap (λ (b : Bool). if b then some cell else get_elem? cells j) (suc_test j i)

update_at-Put :
    (i : ℕ) (cell : Cell) (cells : List Cell)
    → i < length cells
    → Safe (Put true i cell cells) (update_at i (λ _. some cell) cells)
unfolding update_at
update_at-Put i cell [] h = absurd (omega (arith, h))
update_at-Put zero cell (c ∷ cells) h = (refl, get_elem?-first cell c cells)
update_at-Put (suc i) cell (c ∷ cells) h =
    Safe-bind (Put true i cell cells) (Put true (suc i) cell (c ∷ cells))
      (update_at i (λ _. some cell) cells) _ (update_at-Put i cell cells (omega (arith, h)))
      (λ cells' p. (ap suc p.0, get_elem?-later i cell c cells cells' p.1))

-- Nothing is put.
unput : (i : ℕ) (cell : Cell) (cells : List Cell) → Put false i cell cells cells
unput i cell cells = (refl, λ j. refl)

clear_leading-Put :
    (x i : ℕ) (cells : List Cell)
    → i < length cells
    → Safe (Put (is_half cells i && ltb 0 x) (i - 1) default_cell cells) (clear_leading x i cells)
unfolding clear_leading put
clear_leading-Put x i cells h =
    let (old, found) = get_elem?-Safe i cells h in
    let e = is_half-found cells i old found in
    elim (Bool-cases (old.wide_continuation && ltb 0 x)) [
      | inl half ↦
          simp (clear_leading, found, e, half)
            (update_at-Put (i - 1) default_cell cells (omega (arith, h)))
      | inr whole ↦ simp (clear_leading, found, e, whole) (unput (i - 1) default_cell cells)
    ]

clear_trailing-Put :
    (columns x i : ℕ) (cells : List Cell)
    → (x + 1 < columns → i + 1 < length cells)
    → Safe
        (Put (ltb (x + 1) columns && is_half cells (i + 1)) (i + 1) default_cell cells)
        (if ltb (x + 1) columns then clear_trailing i cells else some cells)
unfolding clear_trailing put
clear_trailing-Put columns x i cells h = elim (Bool-cases (ltb (x + 1) columns)) [
  | inl inside ↦
      let (old, found) = get_elem?-Safe (i + 1) cells (h (ground (arith, inside))) in
      let e = is_half-found cells (i + 1) old found in
      elim (Bool-cases old.wide_continuation) [
        | inl half ↦
            simp (inside, clear_trailing, found, e, half)
              (update_at-Put (i + 1) default_cell cells (h (ground (arith, inside))))
        | inr whole ↦
            simp (inside, clear_trailing, found, e, whole) (unput (i + 1) default_cell cells)
      ]
  | inr outside ↦ simp outside (unput (i + 1) default_cell cells)
]

-- The cell at `j` after `cell` is set at the index `i` in the column `x`.
abbrev pub after_set : ℕ → ℕ → ℕ → Cell → List Cell → ℕ → Option Cell
after_set columns x i cell cells j =
    if j == i
    then some cell
    else if (ltb (x + 1) columns && is_half cells (i + 1)) && j == i + 1
    then some default_cell
    else if (is_half cells i && ltb 0 x) && j == i - 1
    then some default_cell
    else get_elem? cells j

-- What is put to the left does not change whether a half is on the right.
is_half-Put :
    (b : Bool) (i : ℕ) (cells cells' : List Cell)
    → Put b (i - 1) default_cell cells cells'
    → is_half cells' (i + 1) ≡ is_half cells (i + 1)
unfolding is_half
is_half-Put b i cells cells' p =
    let e : (i + 1 == i - 1) ≡ false = ground arith in
    let same : get_elem? cells' (i + 1) ≡ get_elem? cells (i + 1) = elim (Bool-cases b) [
      | inl put_it ↦ p.1 (i + 1) ∙ simp (put_it, e) refl
      | inr left_it ↦ p.1 (i + 1) ∙ simp left_it refl
    ] in
    ap
      (λ (o : Option Cell). elim o as (λ _. Bool) [
        | none ↦ false
        | some cell ↦ cell.wide_continuation
      ])
      same

set_cells-Safe :
    (columns x i : ℕ) (cell : Cell) (cells : List Cell) (j : ℕ)
    → i < length cells
    → (x + 1 < columns → i + 1 < length cells)
    → Safe
        (λ cells'. get_elem? cells' j ≡ after_set columns x i cell cells j)
        (set_cells columns x i cell cells)
unfolding set_cells put
set_cells-Safe columns x i cell cells j h h' =
    let After : List Cell → Type 0 =
      λ cells'. get_elem? cells' j ≡ after_set columns x i cell cells j in
    Safe-bind (Put (is_half cells i && ltb 0 x) (i - 1) default_cell cells) After
      (clear_leading x i cells) _ (clear_leading-Put x i cells h)
      (λ cells₁ p₁.
        Safe-bind (Put (ltb (x + 1) columns && is_half cells₁ (i + 1)) (i + 1) default_cell cells₁)
          After (if ltb (x + 1) columns then clear_trailing i cells₁ else some cells₁) _
          (clear_trailing-Put columns x i cells₁ (λ k. omega (arith, p₁.0, h' k)))
          (λ cells₂ p₂.
            Safe-weaken (Put true i cell cells₂) After (update_at i (λ _. some cell) cells₂)
              (update_at-Put i cell cells₂ (omega (arith, p₁.0, p₂.0, h)))
              (λ cells₃ p₃.
                p₃.1 j
                ∙ ap (λ (o : Option Cell). if j == i then some cell else o)
                    (p₂.1 j
                      ∙ ap₂
                          (λ (half : Bool) (o : Option Cell).
                            if (ltb (x + 1) columns && half) && j == i + 1
                            then some default_cell
                            else o)
                          (is_half-Put _ i cells cells₁ p₁) (p₁.1 j)))))

-- `set` of a cell at a place of the screen does not panic, and then any index `j` holds: the cell
-- itself at its own index; a blank cell to its right, in the same row, where the right half of a wide
-- character stood; a blank cell to its left where a right half stood at the place itself, unless this
-- is in the first column; and else what it held before.
pub set-after_set :
    (s : ScreenBuffer) (x y : ℕ) (cell : Cell) (j : ℕ)
    → Fits s.columns s.rows s.cursor s
    → x < s.columns
    → y < s.rows
    → Safe
        (λ s'. get_elem? s'.cells j ≡ after_set s.columns x (y * s.columns + x) cell s.cells j)
        (set x y cell s)
unfolding set set_inside
set-after_set s x y cell j f left below =
    let inside : (ltb x s.columns && ltb y s.rows) ≡ true = ground (arith, left, below) in
    let i = y * s.columns + x in
    let place = index-lt s.columns s.rows x y left below in
    let next : x + 1 < s.columns → i + 1 < length s.cells =
      λ h. omega (arith, index-lt s.columns s.rows (x + 1) y h below, f.sized) in
    simp inside (
      Safe-bind (λ cells'. get_elem? cells' j ≡ after_set s.columns x i cell s.cells j)
        (λ (s' : ScreenBuffer). get_elem? s'.cells j ≡ after_set s.columns x i cell s.cells j)
        (set_cells s.columns x i cell s.cells) _
        (set_cells-Safe s.columns x i cell s.cells j (omega (arith, place, f.sized)) next)
        (λ cells' h. h))
