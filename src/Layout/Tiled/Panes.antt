-- ===== src/Layout/Tiled/Panes.antt =====
-- Which panes the tiled tree of src/layout.rs holds, in their order: `close` takes one
-- out, `resize` keeps them all, and the step of `split` puts the new one behind the focused one.
use mathlib.Core.List.{append_assoc, append-nil}
use vvmux.Prelude.{
  ℕ, ◌≡◌, refl, sym, ap, ap₂, ◌∙◌, inl, inr, Bool, true, false, not, ◌&&◌, ◌||◌, Option, none, some,
  List, [], ◌∷◌, ◌++◌, arith, ◌==◌, if◌then◌else◌, Bool-cases, Option-cases,
}
use vvmux.Layout.Rect.{Rect, Axis, Direction}
use vvmux.Layout.Tiled.{
  TiledNode, leaf, split_node, collect, pane_ids, contains, replace_leaf, close, Resizing,
  finish_resize, resize_inner, resize, split_areas, size_along, try_boundary,
}

-- The panes from left to right, top to bottom.
abbrev pub panes : TiledNode → List ℕ
panes (leaf pane) = pane ∷ []
panes (split_node axis a b v w) = panes a ++ panes b

collect-eq : (node : TiledNode) (output : List ℕ) → collect node output ≡ output ++ panes node
unfolding collect
collect-eq (leaf pane) output = refl
collect-eq (split_node axis a b v w) output =
    collect-eq b (collect a output)
    ∙ ap (λ l. l ++ panes b) (collect-eq a output)
    ∙ append_assoc output (panes a) (panes b)

pub pane_ids_lem : (node : TiledNode) → pane_ids node ≡ panes node
unfolding pane_ids
pane_ids_lem node = collect-eq node []

abbrev pub mem : ℕ → List ℕ → Bool
mem p [] = false
mem p (q ∷ qs) = q == p || mem p qs

pub mem-append : (p : ℕ) (qs rs : List ℕ) → mem p (qs ++ rs) ≡ mem p qs || mem p rs
mem-append p [] rs = refl
mem-append p (q ∷ qs) rs = ground (arith, mem-append p qs rs)

pub contains-mem : (node : TiledNode) (p : ℕ) → contains node p ≡ mem p (panes node)
unfolding contains
contains-mem (leaf id) p = ground arith
contains-mem (split_node axis a b v w) p =
    ap₂ ◌||◌ (contains-mem a p) (contains-mem b p) ∙ sym (mem-append p (panes a) (panes b))

-- The list with `new` behind the first `p`.
abbrev pub insert_after : ℕ → ℕ → List ℕ → List ℕ
insert_after p new [] = []
insert_after p new (q ∷ qs) = if q == p then q ∷ new ∷ qs else q ∷ insert_after p new qs

insert_after-append :
    (p new : ℕ) (qs rs : List ℕ)
    → insert_after p new (qs ++ rs)
      ≡ (if mem p qs then insert_after p new qs ++ rs else qs ++ insert_after p new rs)
insert_after-append p new [] rs = refl
insert_after-append p new (q ∷ qs) rs = ground (arith, insert_after-append p new qs rs)

-- The list without every `p`.
abbrev pub without : ℕ → List ℕ → List ℕ
without p [] = []
without p (q ∷ qs) = if q == p then without p qs else q ∷ without p qs

without-append : (p : ℕ) (qs rs : List ℕ) → without p (qs ++ rs) ≡ without p qs ++ without p rs
without-append p [] rs = refl
without-append p (q ∷ qs) rs = ground (arith, without-append p qs rs)

-- `close` takes every leaf of the pane out and keeps the order of the others; where it returns no
-- tree there was no other.
pub panes-close :
    (node : TiledNode) (p : ℕ)
    → without p (panes node) ≡ elim (close node p) [ none ↦ [] | some rest ↦ panes rest ]
unfolding close
panes-close (leaf id) p = ground arith
panes-close (split_node axis a b v w) p = ground (
  arith,
  without-append p (panes a) (panes b),
  panes-close a p,
  panes-close b p,
  append-nil (without p (panes a)),
)

module _ (p new : ℕ) (axis : Axis) where
  abbrev pub grow : ℕ → TiledNode
  grow q = split_node axis (leaf q) (leaf new) 1 1

  pub replace_leaf-panes :
      (node : TiledNode)
      → ((replace_leaf node p grow).1 ≡ mem p (panes node))
        × (panes (replace_leaf node p grow).0 ≡ insert_after p new (panes node))
  unfolding replace_leaf
  replace_leaf-panes (leaf id) = (ground arith, ground arith)
  replace_leaf-panes (split_node ax a b v w) = elim (Bool-cases (mem p (panes a))) [
    | inl hit ↦
        rw (contains-mem a p, hit, insert_after-append, mem-append, hit)
          ((replace_leaf-panes a).0 ∙ hit, ap (λ l. l ++ panes b) (replace_leaf-panes a).1)
    | inr miss ↦
        rw (contains-mem a p, miss, insert_after-append, mem-append, miss)
          ((replace_leaf-panes b).0, ap (λ l. panes a ++ l) (replace_leaf-panes b).1)
  ]

-- A resize keeps the panes, and finds the focused one if it is there.
abbrev Kept : TiledNode → ℕ → Option Resizing → Type 0
Kept node focused none = Unit
Kept node focused (some r) = (panes r.node ≡ panes node) × (r.holds ≡ contains node focused)

finish_resize-panes :
    (axis : Axis) (d : Direction) (first : Bool) (size total v w : ℕ) (a b : TiledNode)
    (holds changed : Bool)
    → let r = finish_resize axis d first size total v w a b holds changed in
      (panes r.node ≡ panes a ++ panes b) × (r.holds ≡ holds)
unfolding finish_resize
finish_resize-panes axis d first size total v w a b holds changed =
    elim (Bool-cases (holds && not changed)) [
      | inr e ↦ rw e (refl, refl)
      | inl e ↦ elim (Option-cases (try_boundary axis d first size total v w)) [
        | inl t ↦ rw (e, t, finish_resize) (refl, refl)
        | inr ((v', w'), t) ↦ rw (e, t, finish_resize) (refl, refl)
      ]
    ]

resize_inner-Kept :
    (node : TiledNode) (focused : ℕ) (d : Direction) (area : Rect) (changed : Bool)
    → Kept node focused (resize_inner node focused d area changed)
unfolding resize_inner contains
resize_inner-Kept (leaf id) focused d area changed = (refl, refl)
resize_inner-Kept (split_node axis a b v w) focused d area changed =
    elim (Option-cases (split_areas area axis v w)) [
      | inl e ↦ rw (e, resize_inner) tt
      | inr ((fst, snd, total), e) ↦ elim (Bool-cases (contains a focused)) [
        | inl hit ↦ elim (Option-cases (resize_inner a focused d fst changed)) [
          | inl r ↦ rw (e, hit, r, resize_inner) tt
          | inr (r, eq) ↦
              let ih : Kept a focused (some r) =
                rw eq at (resize_inner-Kept a focused d fst changed) in
              let f =
                finish_resize-panes axis d true (size_along axis fst) total v w r.node b r.holds
                  r.changed in
              rw (e, hit, eq, resize_inner)
                (
                  f.0 ∙ ap (λ l. l ++ panes b) ih.0,
                  f.1 ∙ ih.1 ∙ hit ∙ ap (λ t. t || contains b focused) (sym hit),
                )
        ]
        | inr miss ↦ elim (Option-cases (resize_inner b focused d snd changed)) [
          | inl r ↦ rw (e, miss, r, resize_inner) tt
          | inr (r, eq) ↦
              let ih : Kept b focused (some r) =
                rw eq at (resize_inner-Kept b focused d snd changed) in
              let f =
                finish_resize-panes axis d false (size_along axis fst) total v w a r.node r.holds
                  r.changed in
              rw (e, miss, eq, resize_inner)
                (
                  f.0 ∙ ap (λ l. panes a ++ l) ih.0,
                  f.1 ∙ ih.1 ∙ ap (λ t. t || contains b focused) (sym miss),
                )
        ]
      ]
    ]

-- A resize that does not panic keeps the panes and their order.
pub panes-resize :
    (node : TiledNode) (focused : ℕ) (d : Direction) (area : Rect) (t : TiledNode) (changed : Bool)
    → resize node focused d area ≡ some (t, changed)
    → panes t ≡ panes node
unfolding resize
panes-resize node focused d area t changed e =
    elim (Option-cases (resize_inner node focused d area false)) [
      | inl r ↦ let n : none ≡ some (t, changed) = rw r at e in cc
      | inr (r, eq) ↦
          let ih : Kept node focused (some r) =
            rw eq at (resize_inner-Kept node focused d area false) in
          let s : some (r.node, r.changed) ≡ some (t, changed) = rw eq at e in
          let n : r.node ≡ t = cc in sym (ap panes n) ∙ ih.0
    ]
