-- ===== src/Layout/Floating/Clamp.antt =====
-- `clamp_rect` and `default_rect` of src/layout.rs: a float is put inside its area, and one that is
-- inside stays where it is.
use Prim.Native.Nat.{min, max}
use vvmux.Prelude.{ℕ, ◌+◌, ◌-◌, ◌*◌, ◌/◌, ◌≤◌, ◌<◌, ◌≡◌, arith}
use vvmux.Layout.Rect.{Rect, IsValid}
use vvmux.Layout.Floating.{clamp_rect, default_rect, min_float_width, min_float_height}

-- `r` lies inside `area`, and is no smaller than the minimum that the area admits.
pub record InArea (area r : Rect) : Type 0 where
  pub left_in : area.x ≤ r.x
  pub right_in : r.x + r.width ≤ area.x + area.width
  pub top_in : area.y ≤ r.y
  pub bottom_in : r.y + r.height ≤ area.y + area.height
  pub wide : min min_float_width area.width ≤ r.width
  pub high : min min_float_height area.height ≤ r.height

-- An area with at least one cell, whose edges are `u16` values.
pub record HasRoom (area : Rect) : Type 0 where
  pub valid : IsValid area
  pub some_width : 0 < area.width
  pub some_height : 0 < area.height

-- Any rectangle is put inside the area.
pub clamp_rect-InArea : (r area : Rect) → HasRoom area → InArea area (clamp_rect r area)
unfolding clamp_rect
clamp_rect-InArea r area h = omega arith

-- A rectangle inside the area is not touched.
pub clamp_rect-eq : (r area : Rect) → HasRoom area → InArea area r → clamp_rect r area ≡ r
unfolding clamp_rect
clamp_rect-eq r area h i = ground arith

-- In an area with room a new float lies inside the area, whatever percentages are asked for.
pub default_rect-InArea :
    (area : Rect) (w h : ℕ) → HasRoom area → InArea area (default_rect area w h)
unfolding default_rect
default_rect-InArea area w h room = clamp_rect-InArea _ area room

-- `n` is `percent` hundredths of `length`, rounded to the nearest cell, a half upwards.
abbrev pub Rounded : ℕ → ℕ → ℕ → Type 0
Rounded length percent n =
    (100 * n ≤ length * percent + 50) × (length * percent + 50 < 100 * n + 100)

-- One axis of a default placement: the rounded size, or the least one; half of what the rounded size
-- leaves over stands before it, an odd cell behind it, and less where the least size has no room.
abbrev pub Placed : ℕ → ℕ → ℕ → ℕ → ℕ → ℕ → Type 0
Placed start length percent least at size =
    (n : ℕ) × Rounded length percent n
    × (size ≡ max (min least length) n)
    × (at ≡ start + min ((length - n) / 2) (length - size))
