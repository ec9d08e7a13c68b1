-- ===== src/Layout/Layer/Bounds.antt =====
-- The floating layer of src/layout.rs: every float stays inside the area.
use vvmux.Prelude.{
  ℕ, ◌≡◌, inl, inr, Bool, Option, none, some, List, [], ◌∷◌, ◌==◌, Bool-cases, Option-cases, All,
  All-append, sym, subst,
}
use vvmux.Layout.Rect.{Rect}
use vvmux.Layout.Floating.{clamp_rect}
use vvmux.Layout.Floating.Clamp.{InArea, HasRoom, clamp_rect-InArea, default_rect-InArea}
use vvmux.Layout.Layer.{
  FloatingPane, FloatingLayer, insert_below_pinned, insert, retain_not, remove, take_out,
  place_on_top, raise, set_pinned, update_panes, update_rect, clamp_panes, clamp_all, LayerOp,
  insert_op, remove_op, raise_op, set_pinned_op, move_by_op, move_from_op, resize_by_op,
  resize_from_op, set_rect_op, clamp_all_op, apply_op, move_by, move_from, resize_by, resize_from,
  set_rect,
}

module _ (area : Rect) where
  abbrev pub AllIn : List FloatingPane → Type 0
  AllIn fs = All (λ f. InArea area f.rect) fs

  -- The call is made for this area, or for none.
  abbrev pub ForArea : LayerOp → Type 0
  ForArea (insert_op _ a _ _) = a ≡ area
  ForArea (remove_op _) = Unit
  ForArea (raise_op _) = Unit
  ForArea (set_pinned_op _ _) = Unit
  ForArea (move_by_op _ _ _ a) = a ≡ area
  ForArea (move_from_op _ _ _ _ a) = a ≡ area
  ForArea (resize_by_op _ _ _ _ a) = a ≡ area
  ForArea (resize_from_op _ _ _ _ _ a) = a ≡ area
  ForArea (set_rect_op _ _ a) = a ≡ area
  ForArea (clamp_all_op a) = a ≡ area

  AllIn-insert_below_pinned :
      (f : FloatingPane) (fs : List FloatingPane)
      → InArea area f.rect
      → AllIn fs
      → AllIn (insert_below_pinned f fs)
  unfolding insert_below_pinned
  AllIn-insert_below_pinned f [] h hs = (h, tt)
  AllIn-insert_below_pinned f (g ∷ gs) h hs = elim (Bool-cases g.pinned) [
    | inl e ↦ simp e (h, hs)
    | inr e ↦ simp e (hs.0, AllIn-insert_below_pinned f gs h hs.1)
  ]

  AllIn-place_on_top :
      (f : FloatingPane) (fs : List FloatingPane)
      → InArea area f.rect
      → AllIn fs
      → AllIn (place_on_top f fs)
  unfolding place_on_top
  AllIn-place_on_top f fs h hs = elim (Bool-cases f.pinned) [
    | inl e ↦ simp e (All-append (λ k. InArea area k.rect) fs (f ∷ []) hs (h, tt))
    | inr e ↦ simp e (AllIn-insert_below_pinned f fs h hs)
  ]

  AllIn-retain_not : (q : ℕ) (fs : List FloatingPane) → AllIn fs → AllIn (retain_not q fs)
  unfolding retain_not
  AllIn-retain_not q [] h = tt
  AllIn-retain_not q (f ∷ fs) h = elim (Bool-cases (f.pane_id == q)) [
    | inl e ↦ rw e (AllIn-retain_not q fs h.1)
    | inr e ↦ rw e (h.0, AllIn-retain_not q fs h.1)
  ]

  abbrev TakenIn : Option (FloatingPane × List FloatingPane) → Type 0
  TakenIn none = Unit
  TakenIn (some (f, rest)) = InArea area f.rect × AllIn rest

  take_out-TakenIn : (q : ℕ) (fs : List FloatingPane) → AllIn fs → TakenIn (take_out q fs)
  unfolding take_out
  take_out-TakenIn q [] hs = tt
  take_out-TakenIn q (f ∷ fs) hs = elim (Bool-cases (f.pane_id == q)) [
    | inl hit ↦ rw hit hs
    | inr miss ↦ elim (Option-cases (take_out q fs)) [
      | inl e ↦ rw (miss, e, take_out) tt
      | inr ((g, rest), e) ↦
          let ih : TakenIn (some (g, rest)) = rw e at (take_out-TakenIn q fs hs.1) in
          rw (miss, e, take_out) (ih.0, (hs.0, ih.1))
    ]
  ]

  raise-AllIn : (l : FloatingLayer) (q : ℕ) → AllIn l.panes → AllIn (raise l q).0.panes
  unfolding raise
  raise-AllIn l q hs = elim (Option-cases (take_out q l.panes)) [
    | inl e ↦ rw (e, raise) hs
    | inr ((f, rest), e) ↦
        let t : TakenIn (some (f, rest)) = rw e at (take_out-TakenIn q l.panes hs) in
        rw (e, raise) (AllIn-place_on_top f rest t.0 t.1)
  ]

  set_pinned-AllIn :
      (l : FloatingLayer) (q : ℕ) (b : Bool) → AllIn l.panes → AllIn (set_pinned l q b).0.panes
  unfolding set_pinned
  set_pinned-AllIn l q b hs = elim (Option-cases (take_out q l.panes)) [
    | inl e ↦ rw (e, set_pinned) hs
    | inr ((f, rest), e) ↦
        let t : TakenIn (some (f, rest)) = rw e at (take_out-TakenIn q l.panes hs) in
        rw (e, set_pinned) (AllIn-place_on_top (record f { pinned = b }) rest t.0 t.1)
  ]

  module _ (room : HasRoom area) where
    update_panes-AllIn :
        (q : ℕ) (a : Rect) (apply : Rect → Rect) (fs : List FloatingPane)
        → a ≡ area
        → AllIn fs
        → AllIn (update_panes q a apply fs).0
    unfolding update_panes
    update_panes-AllIn q a apply [] e hs = tt
    update_panes-AllIn q a apply (f ∷ fs) e hs = elim (Bool-cases (f.pane_id == q)) [
      | inl t ↦
          let inside = clamp_rect-InArea (apply f.rect) area room in
          rw t (subst (λ b. InArea area (clamp_rect (apply f.rect) b)) (sym e) inside, hs.1)
      | inr t ↦ rw t (hs.0, update_panes-AllIn q a apply fs e hs.1)
    ]

    update_rect-AllIn :
        (l : FloatingLayer) (q : ℕ) (a : Rect) (apply : Rect → Rect)
        → a ≡ area
        → AllIn l.panes
        → AllIn (update_rect l q a apply).0.panes
    unfolding update_rect
    update_rect-AllIn l q a apply e hs = update_panes-AllIn q a apply l.panes e hs

    -- After a host resize every float is inside the new area, wherever it was before.
    pub clamp_panes-AllIn : (fs : List FloatingPane) → AllIn (clamp_panes area fs)
    unfolding clamp_panes
    clamp_panes-AllIn [] = tt
    clamp_panes-AllIn (f ∷ fs) = (clamp_rect-InArea f.rect area room, clamp_panes-AllIn fs)

    -- On a layer with all floats inside an area with room, each call that is made for that area
    -- keeps them inside.
    pub apply_op-AllIn :
        (l : FloatingLayer) (op : LayerOp)
        → ForArea op
        → AllIn l.panes
        → AllIn (apply_op l op).panes
    unfolding apply_op insert remove move_by move_from resize_by resize_from set_rect clamp_all
    apply_op-AllIn l (insert_op q a w h) e hs =
        AllIn-insert_below_pinned _ l.panes (rw e (default_rect-InArea area w h room)) hs
    apply_op-AllIn l (remove_op q) e hs = AllIn-retain_not q l.panes hs
    apply_op-AllIn l (raise_op q) e hs = raise-AllIn l q hs
    apply_op-AllIn l (set_pinned_op q b) e hs = set_pinned-AllIn l q b hs
    apply_op-AllIn l (move_by_op q dx dy a) e hs = update_rect-AllIn l q a _ e hs
    apply_op-AllIn l (move_from_op q r dx dy a) e hs = update_rect-AllIn l q a _ e hs
    apply_op-AllIn l (resize_by_op q m dx dy a) e hs = update_rect-AllIn l q a _ e hs
    apply_op-AllIn l (resize_from_op q r m dx dy a) e hs = update_rect-AllIn l q a _ e hs
    apply_op-AllIn l (set_rect_op q r a) e hs = update_rect-AllIn l q a _ e hs
    apply_op-AllIn l (clamp_all_op a) e hs =
        subst (λ b. AllIn (clamp_panes b l.panes)) (sym e) (clamp_panes-AllIn l.panes)
