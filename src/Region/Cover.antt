-- ===== src/Region/Cover.antt =====
-- The points that rectangles cover, counted: the abstract view of src/region.rs. A list whose
-- count is 1 on a set of points and 0 elsewhere is a disjoint cover of that set.
use vvmux.Prelude.{
  ℕ, ◌+◌, ◌-◌, ◌*◌, ◌≤◌, ◌≡◌, ◌⊎◌, ◌&&◌, none, some, List, [], ◌∷◌, ◌++◌, arith, if◌then◌else◌,
}
use vvmux.Prelude.Int.{
  ℤ, pos, ◌+ℤ◌, ◌≤ℤ◌, ◌<ℤ◌, leb_ℤ, ltb_ℤ, half_i64, InI64, wrap_i64_lem, checked-cases,
}
use vvmux.Region.{FixedRect, new, right, bottom}

-- What `FixedRect::new` checks: positive sides, and edges that are `i64` values.
pub record IsValid (r : FixedRect) : Type 0 where
  pub wide : pos 0 <ℤ r.width
  pub high : pos 0 <ℤ r.height
  pub x_fits : InI64 r.x
  pub y_fits : InI64 r.y
  pub width_fits : InI64 r.width
  pub height_fits : InI64 r.height
  pub right_fits : InI64 (r.x +ℤ r.width)
  pub bottom_fits : InI64 (r.y +ℤ r.height)

-- 1 inside the half-open interval, 0 outside.
unfoldable pub seg : ℤ → ℤ → ℤ → ℕ
seg lo hi p = if leb_ℤ lo p && ltb_ℤ p hi then 1 else 0

-- 1 at the points of the rectangle, 0 elsewhere.
unfoldable pub covers : FixedRect → ℤ → ℤ → ℕ
covers r p q = seg r.x (right r) p * seg r.y (bottom r) q

-- How many rectangles of the list cover the point.
abbrev pub cover_count : List FixedRect → ℤ → ℤ → ℕ
cover_count [] p q = 0
cover_count (r ∷ rest) p q = covers r p q + cover_count rest p q

-- 1 where no rectangle of the list lies, 0 elsewhere.
abbrev pub clear : List FixedRect → ℤ → ℤ → ℕ
clear [] p q = 1
clear (h ∷ rest) p q = (1 - covers h p q) * clear rest p q

pub right_lem : (r : FixedRect) → IsValid r → right r ≡ r.x +ℤ r.width
unfolding right
right_lem r v = wrap_i64_lem _ v.right_fits

pub bottom_lem : (r : FixedRect) → IsValid r → bottom r ≡ r.y +ℤ r.height
unfolding bottom
bottom_lem r v = wrap_i64_lem _ v.bottom_fits

pub seg-le-one : (lo hi p : ℤ) → seg lo hi p ≤ 1
unfolding seg
seg-le-one lo hi p = ground arith

-- An interval that ends at or before its start is empty.
pub seg_empty : (lo hi p : ℤ) → hi ≤ℤ lo → seg lo hi p ≡ 0
unfolding seg
seg_empty lo hi p h = ground arith

-- An interval splits at a point inside it.
pub seg_split : (a b c p : ℤ) → a ≤ℤ b → b ≤ℤ c → seg a b p + seg b c p ≡ seg a c p
unfolding seg
seg_split a b c p h k = ground arith

pub cover_count-append :
    (rs ss : List FixedRect) (p q : ℤ)
    → cover_count (rs ++ ss) p q ≡ cover_count rs p q + cover_count ss p q
cover_count-append [] ss p q = omega arith
cover_count-append (r ∷ rs) ss p q = omega (arith, cover_count-append rs ss p q)

-- `new` on arguments that fit in `i64`: a valid rectangle with just those fields, or a refusal
-- exactly when a side is not positive or an edge leaves the range.
pub new-cases :
    (x y w h : ℤ)
    → InI64 x
    → InI64 y
    → InI64 w
    → InI64 h
    → ((let r : FixedRect = record { x = x; y = y; width = w; height = h } in
          (new x y w h ≡ some r) × IsValid r)
        ⊎ (new x y w h ≡ none)
          × ((w ≤ℤ pos 0) ⊎ (h ≤ℤ pos 0) ⊎ ¬ InI64 (x +ℤ w) ⊎ ¬ InI64 (y +ℤ h)))
unfolding new
new-cases x y w h hx hy hw hh =
    ground (arith, checked-cases half_i64 (x +ℤ w), checked-cases half_i64 (y +ℤ h))
