-- ===== src/Region.antt =====
-- src/region.rs: rectangles in signed 32.32 fixed point, their intersection, their subtraction
-- and the coalescing of fragments. The record and the operations, each as the source has it.
pub mod Cells
pub mod Order
pub mod Cover
pub mod Clip
pub mod Carve
pub mod Merge
pub mod Exact
use vvmux.Prelude.{
  ℕ, zero, suc, ◌^◌, Bool, true, false, ◌&&◌, ◌||◌, Option, none, some, List, [], ◌∷◌, ◌++◌, ltb,
  leb, if◌then◌else◌, length, ◌>>=◌,
}
use vvmux.Prelude.Int.{ℤ, pos, ◌+ℤ◌, ◌-ℤ◌, leb_ℤ, eq_ℤ, max_ℤ, min_ℤ, half_i64, wrap, checked}

pub record FixedRect : Type 0 where
  pub x : ℤ
  pub y : ℤ
  pub width : ℤ
  pub height : ℤ

abbrev pub fixed_one : ℕ
fixed_one = 2 ^ 32

unfoldable pub new : ℤ → ℤ → ℤ → ℤ → Option FixedRect
new x y width height = if leb_ℤ width (pos 0) || leb_ℤ height (pos 0) then none else do
  _ ← checked half_i64 (x +ℤ width)
  _ ← checked half_i64 (y +ℤ height)
  some (record { x = x; y = y; width = width; height = height })

unfoldable pub right : FixedRect → ℤ
right r = wrap half_i64 (r.x +ℤ r.width)

unfoldable pub bottom : FixedRect → ℤ
bottom r = wrap half_i64 (r.y +ℤ r.height)

unfoldable pub intersect : FixedRect → FixedRect → Option FixedRect
intersect a b = do
  let x = max_ℤ a.x b.x
  let y = max_ℤ a.y b.y
  let end_x = min_ℤ (right a) (right b)
  let end_y = min_ℤ (bottom a) (bottom b)
  width ← checked half_i64 (end_x -ℤ x)
  height ← checked half_i64 (end_y -ℤ y)
  new x y width height

-- `if let Some(piece) = ... { pieces.push(piece); }`
abbrev pub push_some : List FixedRect → Option FixedRect → List FixedRect
push_some pieces none = pieces
push_some pieces (some r) = pieces ++ r ∷ []

-- The four pieces round the overlap. The differences are plain `i64` subtractions.
unfoldable pub carve : FixedRect → FixedRect → List FixedRect
carve base overlap =
    let top = new base.x base.y base.width (wrap half_i64 (overlap.y -ℤ base.y)) in
    let below =
      new base.x (bottom overlap) base.width (wrap half_i64 (bottom base -ℤ bottom overlap)) in
    let before = new base.x overlap.y (wrap half_i64 (overlap.x -ℤ base.x)) overlap.height in
    let after =
      new (right overlap) overlap.y (wrap half_i64 (right base -ℤ right overlap)) overlap.height in
    push_some (push_some (push_some (push_some [] top) below) before) after

unfoldable pub subtract : FixedRect → FixedRect → List FixedRect
subtract base hole = elim (intersect base hole) [
  | none ↦ base ∷ []
  | some overlap ↦ carve base overlap
]

-- Source order of the sort key: `(y, x, height, width)`, compared as a tuple.
unfoldable pub key_le : FixedRect → FixedRect → Bool
key_le a b =
    if eq_ℤ a.y b.y
    then if eq_ℤ a.x b.x
      then if eq_ℤ a.height b.height then leb_ℤ a.width b.width else leb_ℤ a.height b.height
      else leb_ℤ a.x b.x
    else leb_ℤ a.y b.y

-- `sort_by_key` is a stable sort: an element goes behind those with an equal key.
unfoldable pub insert_sorted : FixedRect → List FixedRect → List FixedRect
insert_sorted r [] = r ∷ []
insert_sorted r (s ∷ rest) = if key_le r s then r ∷ s ∷ rest else s ∷ insert_sorted r rest

unfoldable pub sort_by_key : List FixedRect → List FixedRect
sort_by_key [] = []
sort_by_key (r ∷ rest) = insert_sorted r (sort_by_key rest)

-- The union of two rectangles that share a whole edge, the first above or left of the second.
unfoldable pub joined : FixedRect → FixedRect → Option FixedRect
joined a b =
    if eq_ℤ a.y b.y && eq_ℤ a.height b.height && eq_ℤ (right a) b.x
    then (checked half_i64 (right b -ℤ a.x) >>= λ width. new a.x a.y width a.height)
    else if eq_ℤ a.x b.x && eq_ℤ a.width b.width && eq_ℤ (bottom a) b.y
    then (checked half_i64 (bottom b -ℤ a.y) >>= λ height. new a.x a.y a.width height)
    else none

-- The inner loop: the first partner of `a` among `rest`, taken out of it.
unfoldable pub join_first : FixedRect → List FixedRect → Option (FixedRect × List FixedRect)
join_first a [] = none
join_first a (b ∷ rest) = elim (joined a b) [
  | some j ↦ some (j, rest)
  | none ↦ join_first a rest >>= λ (j, kept). some (j, b ∷ kept)
]

-- One round of the loop: the first pair in index order is replaced by its union.
unfoldable pub merge_step : List FixedRect → Option (List FixedRect)
merge_step [] = none
merge_step (a ∷ rest) = elim (join_first a rest) [
  | some (j, kept) ↦ some (j ∷ kept)
  | none ↦ merge_step rest >>= λ merged. some (a ∷ merged)
]

-- The loop sorts before each round. Every round that goes on takes one rectangle away, so the
-- length is fuel enough.
unfoldable pub coalesce : ℕ → List FixedRect → List FixedRect
coalesce zero fragments = sort_by_key fragments
coalesce (suc fuel) fragments = elim (merge_step (sort_by_key fragments)) [
  | none ↦ sort_by_key (sort_by_key fragments)
  | some merged ↦ coalesce fuel merged
]

unfoldable pub order_and_coalesce : List FixedRect → List FixedRect
order_and_coalesce fragments = coalesce (length fragments) fragments

-- `for fragment in fragments { next.extend(subtract(fragment, *hole)); }`
unfoldable pub cut : List FixedRect → FixedRect → List FixedRect
cut [] hole = []
cut (fragment ∷ fragments) hole = subtract fragment hole ++ cut fragments hole

-- The `for hole in holes` loop; it stops early when nothing is left.
unfoldable pub subtract_holes : List FixedRect → List FixedRect → ℕ → Option (List FixedRect)
subtract_holes fragments [] cap = some fragments
subtract_holes fragments (hole ∷ holes) cap =
    let next = order_and_coalesce (cut fragments hole) in
    let rest = subtract_holes next holes cap in
    if ltb cap (length next) then none else elim next [ [] ↦ some [] | _ ↦ rest ]

unfoldable pub subtract_all : FixedRect → List FixedRect → ℕ → Option (List FixedRect)
subtract_all base holes cap = subtract_holes (base ∷ []) holes cap >>= λ fragments.
    let result = order_and_coalesce fragments in
    if leb (length result) cap then some result else none
