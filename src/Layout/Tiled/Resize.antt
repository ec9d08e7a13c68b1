-- ===== src/Layout/Tiled/Resize.antt =====
-- `resize` of src/layout.rs: it moves one boundary by one cell, or changes nothing.
use Prim.Native.Nat.{min, max}
use native.Mathlib.Nat.{mod-eq_of_lt}
use vvmux.Prelude.{
  ℕ, ◌+◌, ◌-◌, ◌*◌, ◌/◌, ◌%◌, ◌≤◌, ◌≡◌, refl, sym, subst, ◌∙◌, ◌⊎◌, inl, inr, Bool, true, false,
  Option, none, some, arith, Bool-cases, Option-cases,
}
use vvmux.Layout.Rect.{Rect, Axis, vertical, horizontal, Direction, left, right, up, down, IsValid}
use vvmux.Layout.Tiled.{
  TiledNode, leaf, split_node, contains, first_size, first_part, second_part, size_along,
  split_areas, compatible, minimum, boundary_delta, next_size, try_boundary, Resizing,
  finish_resize, resize_inner, resize,
}
use vvmux.Layout.Tiled.Tiling.{first_size-cases, parts_valid, size_along-le}

-- A boundary that lies behind `s` of `total` cells goes one cell in the direction. The new weights
-- are the new sizes, which `place` gives back; both sides keep the minimum.
pub record BoundaryMoved (d : Direction) (axis : Axis) (total s v w : ℕ) : Type 0 where
  pub along : compatible axis d ≡ true
  pub one_cell :
      (((d ≡ right) ⊎ (d ≡ down)) × (v ≡ s + 1)) ⊎ (((d ≡ left) ⊎ (d ≡ up)) × (v + 1 ≡ s))
  pub shared_out : v + w ≡ total
  pub first_wide : minimum axis ≤ v
  pub second_wide : minimum axis ≤ w
  pub placed : first_size total v w ≡ some v

-- Just one split of the tree has its boundary moved.
pub data OneMoved (d : Direction) : Rect → TiledNode → TiledNode → Type 0 where
  here :
      (axis : Axis) (a b : TiledNode) (v w v' w' s : ℕ) (area : Rect)
      → first_size (size_along axis area) v w ≡ some s
      → BoundaryMoved d axis (size_along axis area) s v' w'
      → OneMoved d area (split_node axis a b v w) (split_node axis a b v' w')
  in_first :
      (axis : Axis) (a a' b : TiledNode) (v w s : ℕ) (area : Rect)
      → first_size (size_along axis area) v w ≡ some s
      → OneMoved d (first_part axis area s) a a'
      → OneMoved d area (split_node axis a b v w) (split_node axis a' b v w)
  in_second :
      (axis : Axis) (a b b' : TiledNode) (v w s : ℕ) (area : Rect)
      → first_size (size_along axis area) v w ≡ some s
      → OneMoved d (second_part axis area s) b b'
      → OneMoved d area (split_node axis a b v w) (split_node axis a b' v w)

mul_bound : (n v : ℕ) → n ≤ 65535 → v ≤ 65535 → n * v ≤ 4294836225
mul_bound n v h k = grind arith

mul_div : (n v : ℕ) → 1 ≤ n → (n * v) / n ≡ v
mul_div n v h = grind arith

-- Weights that are sizes are given back by the placement.
first_size_exact : (v w : ℕ) → v + w ≤ 65535 → 1 ≤ v → 1 ≤ w → first_size (v + w) v w ≡ some v
unfolding first_size
first_size_exact v w h p q =
    let weight : max (min (v + w) 4294967295) 1 ≡ v + w = omega arith in
    let product : ((v + w) * v) % 4294967296 ≡ (v + w) * v =
      mod-eq_of_lt (omega (arith, mul_bound (v + w) v h (omega arith))) in
    rw (weight, product, mul_div (v + w) v (omega arith)) (ground arith)

minimum-pos : (axis : Axis) → 1 ≤ minimum axis
unfolding minimum
minimum-pos vertical = omega arith
minimum-pos horizontal = omega arith

-- What the code tries at a split, for a first part of `s` cells.
next_size-lem :
    (axis : Axis) (d : Direction) (first : Bool) (s total low next : ℕ)
    → 1 ≤ s
    → next_size (boundary_delta axis first d) s total low ≡ some next
    → ((((d ≡ right) ⊎ (d ≡ down)) × (next ≡ s + 1)) ⊎ (((d ≡ left) ⊎ (d ≡ up)) × (next + 1 ≡ s)))
      × (low ≤ next)
      × (next + low ≤ total)
unfolding next_size boundary_delta
next_size-lem axis d first s total low next h e = ground arith

try_boundary-BoundaryMoved :
    (axis : Axis) (d : Direction) (first : Bool) (s total v w v' w' : ℕ)
    → 1 ≤ s
    → total ≤ 65535
    → try_boundary axis d first s total v w ≡ some (v', w')
    → BoundaryMoved d axis total s v' w'
try_boundary-BoundaryMoved axis d first s total v w v' w' h k e =
    elim (Bool-cases (compatible axis d)) [
      | inr off ↦ let n : none ≡ some (v', w') = rw off at e in cc
      | inl on ↦
          elim (Option-cases (next_size (boundary_delta axis first d) s total (minimum axis))) [
            | inl n ↦ let n' : none ≡ some (v', w') = rw (on, n) at e in cc
            | inr (next, n) ↦
                let o : some (next, total - next) ≡ some (v', w') = rw (on, n) at e in
                let ev : next ≡ v' = cc in
                let ew : total - next ≡ w' = cc in
                let (moved, low, high) =
                  next_size-lem axis d first s total (minimum axis) next h n in
                let pos_min = minimum-pos axis in
                let sum : v' + w' ≡ total = omega arith in
                record {
                  along = on;
                  one_cell =
                      subst
                        (λ t.
                          (((d ≡ right) ⊎ (d ≡ down)) × (t ≡ s + 1))
                          ⊎ (((d ≡ left) ⊎ (d ≡ up)) × (t + 1 ≡ s)))
                        ev moved;
                  shared_out = sum;
                  first_wide = omega arith;
                  second_wide = omega arith;
                  placed =
                      subst (λ t. first_size t v' w' ≡ some v') sum
                        (first_size_exact v' w' (omega arith) (omega arith) (omega arith));
                }
          ]
    ]

-- What a step changes: nothing, or one boundary.
abbrev Outcome : Direction → Rect → TiledNode → Resizing → Type 0
Outcome d area node r =
    ((r.changed ≡ false) × (r.node ≡ node)) ⊎ ((r.changed ≡ true) × OneMoved d area node r.node)

abbrev Sound : Direction → Rect → TiledNode → Option Resizing → Type 0
Sound d area node none = Unit
Sound d area node (some r) = Outcome d area node r

module _ (axis : Axis) (d : Direction) (v w s : ℕ) (area : Rect)
    (e : first_size (size_along axis area) v w ≡ some s) (low : 1 ≤ s)
    (fits : size_along axis area ≤ 65535) where
  -- The end of a step, where the child did not change.
  finish-unchanged :
      (first : Bool) (a b : TiledNode) (holds : Bool)
      → Outcome d area
          (split_node axis a b v w)
          (finish_resize axis d first s (size_along axis area) v w a b holds false)
  unfolding finish_resize
  finish-unchanged first a b false = inl (refl, refl)
  finish-unchanged first a b true =
      elim (Option-cases (try_boundary axis d first s (size_along axis area) v w)) [
        | inl n ↦ rw (n, finish_resize) (inl (refl, refl))
        | inr ((v', w'), t) ↦
            rw (t, finish_resize)
              (inr (
                refl,
                here axis a b v w v' w' s area e
                    (try_boundary-BoundaryMoved axis d first s _ v w v' w' low fits t),
              ))
      ]

  finish-changed :
      (first : Bool) (a b : TiledNode) (holds : Bool)
      → let r = finish_resize axis d first s (size_along axis area) v w a b holds true in
        (r.changed ≡ true) × (r.node ≡ split_node axis a b v w)
  unfolding finish_resize
  finish-changed first a b false = (refl, refl)
  finish-changed first a b true = (refl, refl)

-- Under its assumption `split_areas` makes the parts that `place` makes.
split_areas-eq :
    (axis : Axis) (area : Rect) (v w s : ℕ)
    → IsValid area
    → first_size (size_along axis area) v w ≡ some s
    → s ≤ size_along axis area
    → split_areas area axis v w
      ≡ some (first_part axis area s, second_part axis area s, size_along axis area)
unfolding split_areas
split_areas-eq vertical area v w s va e h = rw e (ground arith)
split_areas-eq horizontal area v w s va e h = rw e (ground arith)

lift_first :
    (d : Direction) (axis : Axis) (a b : TiledNode) (v w s : ℕ) (area : Rect)
    → first_size (size_along axis area) v w ≡ some s
    → 1 ≤ s
    → size_along axis area ≤ 65535
    → (r : Resizing) → Outcome d (first_part axis area s) a r
    → Outcome d area
        (split_node axis a b v w)
        (finish_resize axis d true s (size_along axis area) v w r.node b r.holds r.changed)
lift_first d axis a b v w s area e low fits r (inl (c, n)) =
    rw (c, n) (finish-unchanged axis d v w s area e low fits true a b r.holds)
lift_first d axis a b v w s area e low fits r (inr (c, m)) =
    let (c', n) = finish-changed axis d v w s area e low fits true r.node b r.holds in
    rw c (
      inr (
        c',
        subst (OneMoved d area (split_node axis a b v w)) (sym n)
            (in_first axis a r.node b v w s area e m),
      ))

lift_second :
    (d : Direction) (axis : Axis) (a b : TiledNode) (v w s : ℕ) (area : Rect)
    → first_size (size_along axis area) v w ≡ some s
    → 1 ≤ s
    → size_along axis area ≤ 65535
    → (r : Resizing) → Outcome d (second_part axis area s) b r
    → Outcome d area
        (split_node axis a b v w)
        (finish_resize axis d false s (size_along axis area) v w a r.node r.holds r.changed)
lift_second d axis a b v w s area e low fits r (inl (c, n)) =
    rw (c, n) (finish-unchanged axis d v w s area e low fits false a b r.holds)
lift_second d axis a b v w s area e low fits r (inr (c, m)) =
    let (c', n) = finish-changed axis d v w s area e low fits false a r.node r.holds in
    rw c (
      inr (
        c',
        subst (OneMoved d area (split_node axis a b v w)) (sym n)
            (in_second axis a b r.node v w s area e m),
      ))

split_areas-none :
    (axis : Axis) (area : Rect) (v w : ℕ)
    → first_size (size_along axis area) v w ≡ none
    → split_areas area axis v w ≡ none
unfolding split_areas
split_areas-none vertical area v w e = rw e refl
split_areas-none horizontal area v w e = rw e refl

size_along-first :
    (axis : Axis) (area : Rect) (s : ℕ) → size_along axis (first_part axis area s) ≡ s
size_along-first vertical area s = refl
size_along-first horizontal area s = refl

resize_inner-Sound :
    (node : TiledNode) (focused : ℕ) (d : Direction) (area : Rect)
    → IsValid area
    → Sound d area node (resize_inner node focused d area false)
unfolding resize_inner
resize_inner-Sound (leaf id) focused d area va = inl (refl, refl)
resize_inner-Sound (split_node axis a b v w) focused d area va =
    let fits = size_along-le axis area va in
    elim (first_size-cases (size_along axis area) v w fits) [
      | inr (n, narrow) ↦ rw (split_areas-none axis area v w n, resize_inner) tt
      | inl (s, e, low, high) ↦
          let parts = parts_valid axis area s va (omega arith) in
          let areas = split_areas-eq axis area v w s va e (omega arith) in
          elim (Bool-cases (contains a focused)) [
            | inl hit ↦
                elim (Option-cases (resize_inner a focused d (first_part axis area s) false)) [
                  | inl none_eq ↦ rw (areas, hit, none_eq, resize_inner) tt
                  | inr (r, eq) ↦
                      let ih : Outcome d (first_part axis area s) a r =
                        rw eq at
                          (resize_inner-Sound a focused d (first_part axis area s) parts.0) in
                      rw (areas, hit, eq, resize_inner, size_along-first axis area s)
                        (lift_first d axis a b v w s area e low fits r ih)
                ]
            | inr miss ↦
                elim (Option-cases (resize_inner b focused d (second_part axis area s) false)) [
                  | inl none_eq ↦ rw (areas, miss, none_eq, resize_inner) tt
                  | inr (r, eq) ↦
                      let ih : Outcome d (second_part axis area s) b r =
                        rw eq at
                          (resize_inner-Sound b focused d (second_part axis area s) parts.1) in
                      rw (areas, miss, eq, resize_inner, size_along-first axis area s)
                        (lift_second d axis a b v w s area e low fits r ih)
                ]
          ]
    ]

-- A resize that reports a change has moved the boundary of just one split, by one cell, in the
-- direction asked for and along its axis, with the minimum size on both sides; one that reports
-- none has returned the tree as it was.
pub resize-OneMoved :
    (node : TiledNode) (focused : ℕ) (d : Direction) (area : Rect) (t : TiledNode) (changed : Bool)
    → IsValid area
    → resize node focused d area ≡ some (t, changed)
    → ((changed ≡ false) × (t ≡ node)) ⊎ ((changed ≡ true) × OneMoved d area node t)
unfolding resize
resize-OneMoved node focused d area t changed va e =
    elim (Option-cases (resize_inner node focused d area false)) [
      | inl r ↦ let n : none ≡ some (t, changed) = rw r at e in cc
      | inr (r, eq) ↦
          let ih : Outcome d area node r = rw eq at (resize_inner-Sound node focused d area va) in
          let s : some (r.node, r.changed) ≡ some (t, changed) = rw eq at e in
          let n : r.node ≡ t = cc in
          let c : r.changed ≡ changed = cc in
          elim ih [
            | inl (off, same) ↦ inl (sym c ∙ off, sym n ∙ same)
            | inr (on, moved) ↦ inr (sym c ∙ on, subst (OneMoved d area node) n moved)
          ]
    ]
