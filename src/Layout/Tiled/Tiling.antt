-- ===== src/Layout/Tiled/Tiling.antt =====
-- `geometry` of src/layout.rs: the panes of the tiled tree share out the area exactly.
use mathlib.Core.Bool.{false≢true}
use vvmux.Prelude.{
  ℕ, ◌+◌, ◌-◌, ◌*◌, ◌≤◌, ◌≡◌, ◌≢◌, ◌↔◌, refl, sym, ap, ◌∙◌, ◌⊎◌, inl, inr, Bool, true, false, ◌&&◌,
  ◌||◌, Option, none, some, [], arith, ltb, leb, if◌then◌else◌, Bool-cases, Option-cases,
}
use vvmux.Prelude.Word.{saturating_add}
use vvmux.Layout.Rect.{Rect, Axis, vertical, horizontal, IsValid}
use vvmux.Layout.Tiled.Places.{PlaceMap, lookup, total, total-insert, lookup-insert}
use vvmux.Layout.Tiled.{
  TiledNode, leaf, split_node, contains, first_size, first_part, second_part, size_along, place,
  geometry,
}

-- 1 in the half-open range, 0 outside.
unfoldable pub seg : ℕ → ℕ → ℕ → ℕ
seg start len p = if leb start p && ltb p (start + len) then 1 else 0

-- 1 at the cells of the rectangle, 0 elsewhere.
unfoldable pub covers : ℕ → ℕ → Rect → ℕ
covers x y r = seg r.x r.width x * seg r.y r.height y

-- No pane stands at two leaves.
abbrev pub Distinct : TiledNode → Type 0
Distinct (leaf pane) = Unit
Distinct (split_node axis a b v w) =
    Distinct a × Distinct b × ((p : ℕ) → contains a p ≡ true → contains b p ≡ false)

seg_split :
    (start s len p : ℕ) → s ≤ len → seg start s p + seg (start + s) (len - s) p ≡ seg start len p
unfolding seg
seg_split start s len p h = ground arith

-- The first part has at least one cell, and leaves at least one.
pub first_size-cases :
    (size v w : ℕ)
    → size ≤ 65535
    → ((s : ℕ) × (first_size size v w ≡ some s) × (1 ≤ s) × (s + 1 ≤ size))
      ⊎ (first_size size v w ≡ none) × (size ≤ 1)
unfolding first_size
first_size-cases size v w h = ground arith

-- The two parts of an area share out its cells, and stay inside the `u16` range.
parts_cover :
    (axis : Axis) (area : Rect) (s x y : ℕ)
    → IsValid area
    → s ≤ size_along axis area
    → covers x y (first_part axis area s) + covers x y (second_part axis area s) ≡ covers x y area
unfolding covers
parts_cover vertical area s x y v h =
    let shift : saturating_add 65535 area.x s ≡ area.x + s = omega arith in
    rw shift (
      omega
        (arith, ap (λ (t : ℕ). t * seg area.y area.height y) (seg_split area.x s area.width x h)))
parts_cover horizontal area s x y v h =
    let shift : saturating_add 65535 area.y s ≡ area.y + s = omega arith in
    rw shift (
      omega
        (arith, ap (λ (t : ℕ). seg area.x area.width x * t) (seg_split area.y s area.height y h)))

pub parts_valid :
    (axis : Axis) (area : Rect) (s : ℕ)
    → IsValid area
    → s ≤ size_along axis area
    → IsValid (first_part axis area s) × IsValid (second_part axis area s)
parts_valid vertical area s v h = (omega arith, omega arith)
parts_valid horizontal area s v h = (omega arith, omega arith)

pub size_along-le : (axis : Axis) (area : Rect) → IsValid area → size_along axis area ≤ 65535
size_along-le vertical area v = omega arith
size_along-le horizontal area v = omega arith

or_true : (b : Bool) → (b || true) ≡ true
or_true true = refl
or_true false = refl

or_false_left : (b c : Bool) → (b || c) ≡ false → b ≡ false
or_false_left b c h = ground arith

or_false_right : (b c : Bool) → (b || c) ≡ false → c ≡ false
or_false_right b c h = ground arith

or_true_left : (b c : Bool) → (b || c) ≡ true → c ≡ false → b ≡ true
or_true_left b c h k = ground arith

other_side :
    (a b : TiledNode) (p : ℕ)
    → ((q : ℕ) → contains a q ≡ true → contains b q ≡ false)
    → contains b p ≡ true
    → contains a p ≡ false
other_side a b p apart h = elim (Bool-cases (contains a p)) [
  | inl in_a ↦ absurd (false≢true (sym (apart p in_a) ∙ h))
  | inr off ↦ off
]

-- What `place` adds to a map that has none of the tree's panes.
abbrev Placed : TiledNode → Rect → PlaceMap → Option PlaceMap → Type 0
Placed node area m none = Unit
Placed node area m (some m') =
    ((x y : ℕ) → total (covers x y) m' ≡ total (covers x y) m + covers x y area)
    × ((p : ℕ) → contains node p ≡ false → lookup p m' ≡ lookup p m)
    × ((p : ℕ) → contains node p ≡ true → lookup p m' ≢ none)

place-Placed :
    (node : TiledNode) (area : Rect) (m : PlaceMap)
    → Distinct node
    → IsValid area
    → ((p : ℕ) → contains node p ≡ true → lookup p m ≡ none)
    → Placed node area m (place node area m)
unfolding place contains
place-Placed (leaf pane) area m d v fresh = (
  (λ x y. omega (arith, total-insert (covers x y) pane area m (fresh pane (ground arith)))),
  (λ p off. ground (arith, lookup-insert pane p area m)),
  (λ p on e. ground (arith, lookup-insert pane p area m)),
)
place-Placed (split_node axis a b v w) area m d va fresh =
    elim (first_size-cases (size_along axis area) v w (size_along-le axis area va)) [
      | inr (e, narrow) ↦ rw (e, place) tt
      | inl (s, e, low, high) ↦ elim (Option-cases (place a (first_part axis area s) m)) [
        | inl n ↦ rw (e, n, place) tt
        | inr (m₁, e₁) ↦ elim (Option-cases (place b (second_part axis area s) m₁)) [
          | inl n ↦ rw (e, e₁, n, place) tt
          | inr (m₂, e₂) ↦
              let parts = parts_valid axis area s va (omega arith) in
              let one : Placed a (first_part axis area s) m (some m₁) =
                rw e₁ at
                  (place-Placed a (first_part axis area s) m d.0 parts.0 (λ p h. fresh p (rw h))) in
              let two : Placed b (second_part axis area s) m₁ (some m₂) = rw e₂ at (
                place-Placed b (second_part axis area s) m₁ d.1 parts.1 (λ p h.
                  let off = other_side a b p d.2 h in one.1 p off ∙ fresh p (rw (h, or_true)))) in
              rw (e, e₁, e₂, place)
                (
                  (λ x y.
                      omega (
                        arith,
                        one.0 x y,
                        two.0 x y,
                        parts_cover axis area s x y va (omega arith),
                      )),
                  (λ p off. two.1 p (or_false_right _ _ off) ∙ one.1 p (or_false_left _ _ off)),
                  (λ p on. elim (Bool-cases (contains b p)) [
                    | inl in_b ↦ two.2 p in_b
                    | inr off ↦ λ gone. one.2 p (or_true_left _ _ on off) (sym (two.1 p off) ∙ gone)
                  ]),
                )
        ]
      ]
    ]

-- The layout of a tree without a repeated pane: every cell of the area is in exactly one pane, no
-- pane has a cell outside, and just the panes of the tree have a place.
pub geometry_tiles :
    (node : TiledNode) (area : Rect) (m : PlaceMap)
    → Distinct node
    → IsValid area
    → geometry node area ≡ some m
    → ((x y : ℕ) → total (covers x y) m ≡ covers x y area)
      × ((p : ℕ) → (contains node p ≡ true) ↔ (lookup p m ≢ none))
unfolding geometry lookup
geometry_tiles node area m d v e =
    let r : Placed node area [] (some m) = rw e at (place-Placed node area [] d v (λ p h. refl)) in
    (
      (λ x y. omega (arith, r.0 x y)),
      (λ p. (
        r.2 p,
        λ there. elim (Bool-cases (contains node p)) [
          | inl on ↦ on
          | inr off ↦ absurd (there (r.1 p off))
        ],
      )),
    )
