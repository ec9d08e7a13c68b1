-- ===== src/Layout/Tiled/Split.antt =====
-- What `split` of `TiledNode` of src/layout.rs returns, told from the trees and the sizes of panes.
use vvmux.Prelude.{
  ℕ, ◌+◌, ◌≤◌, ◌<◌, ◌≡◌, refl, sym, subst, ◌∙◌, ◌⊎◌, inl, inr, true, false, ◌||◌, none, some, [],
  ◌∷◌, arith, ◌==◌, Bool-cases, Option-cases,
}
use vvmux.Layout.Rect.{
  Rect, Axis, content, min_content_columns, min_content_rows, frame_columns, frame_rows,
}
use vvmux.Layout.Tiled.Places.{PlaceMap}
use vvmux.Layout.Tiled.{
  TiledNode, leaf, split_node, first_size, first_part, second_part, size_along, place, geometry,
  replace_leaf, any_too_small, SplitResult, done, refused, panicked, not_in_layout, too_small,
  split,
}
use vvmux.Layout.Tiled.Panes.{
  panes, mem, contains-mem, insert_after, mem-append, grow, replace_leaf-panes,
}

-- One leaf of the pane `p`, the first one, has become a split of it and the new pane. All else is the
-- same.
pub data Grown (p new : ℕ) (axis : Axis) : TiledNode → TiledNode → Type 0 where
  at_leaf : Grown p new axis (leaf p) (split_node axis (leaf p) (leaf new) 1 1)
  in_first :
      {a a' : TiledNode} (b : TiledNode) (ax : Axis) (v w : ℕ)
      → Grown p new axis a a'
      → Grown p new axis (split_node ax a b v w) (split_node ax a' b v w)
  in_second :
      {b b' : TiledNode} (a : TiledNode) (ax : Axis) (v w : ℕ)
      → mem p (panes a) ≡ false
      → Grown p new axis b b'
      → Grown p new axis (split_node ax a b v w) (split_node ax a b' v w)

-- Every pane has the minimum content and its frame.
abbrev pub AllLarge : PlaceMap → Type 0
AllLarge [] = Unit
AllLarge ((pane, r) ∷ m) =
    (min_content_columns + frame_columns ≤ r.width)
    × (min_content_rows + frame_rows ≤ r.height)
    × AllLarge m

-- Some pane is too narrow or too low for that.
abbrev pub SomeSmall : PlaceMap → Type 0
SomeSmall [] = ⊥
SomeSmall ((pane, r) ∷ m) =
    (r.width < min_content_columns + frame_columns)
    ⊎ ((r.height < min_content_rows + frame_rows) ⊎ SomeSmall m)

-- Some split of the tree gets at most one cell along its axis.
abbrev pub Cramped : TiledNode → Rect → Type 0
Cramped (leaf id) area = ⊥
Cramped (split_node axis a b v w) area =
    (size_along axis area ≤ 1)
    ⊎ ((s : ℕ) × (first_size (size_along axis area) v w ≡ some s)
        × (Cramped a (first_part axis area s) ⊎ Cramped b (second_part axis area s)))

any_too_small-AllLarge : (m : PlaceMap) → any_too_small m ≡ false → AllLarge m
unfolding any_too_small content
any_too_small-AllLarge [] e = tt
any_too_small-AllLarge ((pane, r) ∷ m) e =
    (ground (arith, e), ground (arith, e), any_too_small-AllLarge m (ground (arith, e)))

any_too_small-SomeSmall : (m : PlaceMap) → any_too_small m ≡ true → SomeSmall m
unfolding any_too_small content
any_too_small-SomeSmall [] e = absurd (ground (arith, e))
any_too_small-SomeSmall ((pane, r) ∷ m) e = elim (Bool-cases (any_too_small m)) [
  | inl later ↦ inr (inr (any_too_small-SomeSmall m later))
  | inr here ↦ ground (arith, e, here)
]

first_size-none : (size v w : ℕ) → first_size size v w ≡ none → size ≤ 1
unfolding first_size
first_size-none size v w e = ground (arith, e)

place-Cramped :
    (node : TiledNode) (area : Rect) (output : PlaceMap)
    → place node area output ≡ none
    → Cramped node area
unfolding place
place-Cramped (leaf id) area output e = cc
place-Cramped (split_node axis a b v w) area output e =
    elim (Option-cases (first_size (size_along axis area) v w)) [
      | inl n ↦ inl (first_size-none (size_along axis area) v w n)
      | inr (s, f) ↦ elim (Option-cases (place a (first_part axis area s) output)) [
        | inl n ↦ inr (s, f, inl (place-Cramped a (first_part axis area s) output n))
        | inr (output', g) ↦
            let k : place b (second_part axis area s) output' ≡ none = rw (place, f, g) at e in
            inr (s, f, inr (place-Cramped b (second_part axis area s) output' k))
      ]
    ]

module _ (p new : ℕ) (axis : Axis) where
  replace_leaf-Grown :
      (node : TiledNode)
      → mem p (panes node) ≡ true
      → Grown p new axis node (replace_leaf node p (grow p new axis)).0
  unfolding replace_leaf
  replace_leaf-Grown (leaf id) e =
      let same : p ≡ id = ground (arith, e) in
      let hit : (p == p) ≡ true = ground arith in
      subst (λ q. Grown p new axis (leaf q) (replace_leaf (leaf q) p (grow p new axis)).0) same
        (simp hit at_leaf)
  replace_leaf-Grown (split_node ax a b v w) e = elim (Bool-cases (mem p (panes a))) [
    | inl hit ↦ rw (contains-mem a p, hit) (in_first b ax v w (replace_leaf-Grown a hit))
    | inr miss ↦
        let either : mem p (panes a) || mem p (panes b) ≡ true =
          sym (mem-append p (panes a) (panes b)) ∙ e in
        rw (contains-mem a p, miss)
          (in_second a ax v w miss (replace_leaf-Grown b (ground (arith, either, miss))))
  ]

  module _ (node : TiledNode) (area : Rect) where
    -- What a split may return.
    abbrev pub SplitSound : SplitResult → Type 0
    SplitSound (done t) =
        Grown p new axis node t
        × (panes t ≡ insert_after p new (panes node))
        × ((m : PlaceMap) × (geometry t area ≡ some m) × AllLarge m)
    SplitSound (refused t not_in_layout) = (t ≡ node) × (mem p (panes node) ≡ false)
    SplitSound (refused t too_small) =
        (t ≡ node)
        × ((t' : TiledNode) × Grown p new axis node t'
            × ((m : PlaceMap) × (geometry t' area ≡ some m) × SomeSmall m))
    SplitSound panicked = (t' : TiledNode) × Grown p new axis node t' × Cramped t' area

    -- A split makes one leaf of the focused pane a split of it and the new pane, which comes right
    -- behind it, changes nothing else, and every pane of the new layout has the minimum content
    -- and its frame. It refuses a pane that is not there, or a new layout with a pane that is too
    -- narrow or too low for that, and then leaves the tree as it was. It panics only where some
    -- split of the new tree gets at most one cell along its axis.
    pub split-SplitSound : SplitSound (split node p new axis area)
    unfolding split geometry
    split-SplitSound =
        let candidate = (replace_leaf node p (grow p new axis)).0 in
        let found = replace_leaf-panes p new axis node in
        elim (Bool-cases (replace_leaf node p (grow p new axis)).1) [
          | inr e ↦ rw (e, split) (refl, sym found.0 ∙ e)
          | inl e ↦
              let grown : Grown p new axis node candidate =
                replace_leaf-Grown node (sym found.0 ∙ e) in
              elim (Option-cases (place candidate area [])) [
                | inl g ↦ rw (e, g, split) (candidate, grown, place-Cramped candidate area [] g)
                | inr (m, g) ↦ elim (Bool-cases (any_too_small m)) [
                  | inl small ↦
                      rw (e, g, small, split)
                        (refl, (candidate, grown, (m, g, any_too_small-SomeSmall m small)))
                  | inr big ↦
                      rw (e, g, big, split) (grown, found.1, (m, g, any_too_small-AllLarge m big))
                ]
              ]
        ]
