-- ===== src/Layout/Layer/Order.antt =====
-- The floating layer of src/layout.rs: which panes it holds, and the classes in which they stand.
use vvmux.Prelude.{
  ℕ, ◌+◌, ◌≡◌, refl, ◌∙◌, inl, inr, Bool, true, false, Option, none, some, List, [], ◌∷◌, ◌++◌,
  arith, ◌==◌, if◌then◌else◌, Bool-cases, Option-cases, All, All-append,
}
use vvmux.Layout.Rect.{Rect}
use vvmux.Layout.Layer.{
  FloatingPane, FloatingLayer, insert_below_pinned, insert, retain_not, remove, take_out,
  place_on_top, raise, set_pinned, update_panes, update_rect, clamp_panes, clamp_all, LayerOp,
  insert_op, remove_op, raise_op, set_pinned_op, move_by_op, move_from_op, resize_by_op,
  resize_from_op, set_rect_op, clamp_all_op, apply_op, move_by, move_from, resize_by, resize_from,
  set_rect,
}

-- How many panes of the list have the identifier.
abbrev pub count_pane : ℕ → List FloatingPane → ℕ
count_pane p [] = 0
count_pane p (f ∷ fs) = (if f.pane_id == p then 1 else 0) + count_pane p fs

abbrev pub AllPinned : List FloatingPane → Type 0
AllPinned fs = All (λ f. f.pinned ≡ true) fs

-- Above a pinned pane there are only pinned panes.
abbrev pub IsLayered : List FloatingPane → Type 0
IsLayered [] = Unit
IsLayered (f ∷ fs) = (f.pinned ≡ true → AllPinned fs) × IsLayered fs

count_pane-append :
    (p : ℕ) (fs gs : List FloatingPane)
    → count_pane p (fs ++ gs) ≡ count_pane p fs + count_pane p gs
count_pane-append p [] gs = omega arith
count_pane-append p (f ∷ fs) gs = omega (arith, count_pane-append p fs gs)

count_pane-insert_below_pinned :
    (p : ℕ) (f : FloatingPane) (fs : List FloatingPane)
    → count_pane p (insert_below_pinned f fs) ≡ count_pane p (f ∷ fs)
unfolding insert_below_pinned
count_pane-insert_below_pinned p f [] = refl
count_pane-insert_below_pinned p f (g ∷ gs) = ground (arith, count_pane-insert_below_pinned p f gs)

count_pane-place_on_top :
    (p : ℕ) (f : FloatingPane) (fs : List FloatingPane)
    → count_pane p (place_on_top f fs) ≡ count_pane p (f ∷ fs)
unfolding place_on_top
count_pane-place_on_top p f fs =
    ground (arith, count_pane-insert_below_pinned p f fs, count_pane-append p fs (f ∷ []))

count_pane-retain_not :
    (p q : ℕ) (fs : List FloatingPane)
    → count_pane p (retain_not q fs) ≡ (if q == p then 0 else count_pane p fs)
unfolding retain_not
count_pane-retain_not p q [] = ground arith
count_pane-retain_not p q (f ∷ fs) = ground (arith, count_pane-retain_not p q fs)

-- What `take_out` finds is the pane and the rest of the layer, in its order.
abbrev pub TakenOut : ℕ → List FloatingPane → Option (FloatingPane × List FloatingPane) → Type 0
TakenOut q fs none = Unit
TakenOut q fs (some (f, rest)) =
    (f.pane_id ≡ q)
    × ((p : ℕ) → count_pane p fs ≡ count_pane p (f ∷ rest))
    × (IsLayered fs → IsLayered rest)
    × (AllPinned fs → AllPinned rest)

pub take_out-TakenOut : (q : ℕ) (fs : List FloatingPane) → TakenOut q fs (take_out q fs)
unfolding take_out
take_out-TakenOut q [] = tt
take_out-TakenOut q (f ∷ fs) = elim (Bool-cases (f.pane_id == q)) [
  | inl hit ↦ rw hit (ground arith, (λ p. refl), (λ l. l.1), (λ l. l.1))
  | inr miss ↦ elim (Option-cases (take_out q fs)) [
    | inl e ↦ rw (miss, e, take_out) tt
    | inr ((g, rest), e) ↦
        let ih : TakenOut q fs (some (g, rest)) = rw e at (take_out-TakenOut q fs) in
        rw (miss, e, take_out)
          (
            ih.0,
            (λ p. omega (arith, ih.1 p)),
            (λ l. ((λ h. ih.3 (l.0 h)), ih.2 l.1)),
            (λ l. (l.0, ih.3 l.1)),
          )
  ]
]

IsLayered-insert_below_pinned :
    (f : FloatingPane) (fs : List FloatingPane)
    → f.pinned ≡ false
    → IsLayered fs
    → IsLayered (insert_below_pinned f fs)
unfolding insert_below_pinned
IsLayered-insert_below_pinned f [] off l = ((λ h. tt), tt)
IsLayered-insert_below_pinned f (g ∷ gs) off l = elim (Bool-cases g.pinned) [
  | inl e ↦ simp e ((λ h. cc), ((λ _. l.0 e), l.1))
  | inr e ↦ simp e ((λ h. cc), IsLayered-insert_below_pinned f gs off l.1)
]

IsLayered-snoc :
    (f : FloatingPane) (fs : List FloatingPane)
    → f.pinned ≡ true
    → IsLayered fs
    → IsLayered (fs ++ f ∷ [])
IsLayered-snoc f [] on l = ((λ h. tt), tt)
IsLayered-snoc f (g ∷ gs) on l = (
  (λ h. All-append (λ k. k.pinned ≡ true) gs (f ∷ []) (l.0 h) (on, tt)),
  IsLayered-snoc f gs on l.1,
)

IsLayered-place_on_top :
    (f : FloatingPane) (fs : List FloatingPane) → IsLayered fs → IsLayered (place_on_top f fs)
unfolding place_on_top
IsLayered-place_on_top f fs l = elim (Bool-cases f.pinned) [
  | inl e ↦ simp e (IsLayered-snoc f fs e l)
  | inr e ↦ simp e (IsLayered-insert_below_pinned f fs e l)
]

AllPinned-retain_not : (q : ℕ) (fs : List FloatingPane) → AllPinned fs → AllPinned (retain_not q fs)
unfolding retain_not
AllPinned-retain_not q [] h = tt
AllPinned-retain_not q (f ∷ fs) h = elim (Bool-cases (f.pane_id == q)) [
  | inl e ↦ rw e (AllPinned-retain_not q fs h.1)
  | inr e ↦ rw e (h.0, AllPinned-retain_not q fs h.1)
]

IsLayered-retain_not : (q : ℕ) (fs : List FloatingPane) → IsLayered fs → IsLayered (retain_not q fs)
unfolding retain_not
IsLayered-retain_not q [] l = tt
IsLayered-retain_not q (f ∷ fs) l = elim (Bool-cases (f.pane_id == q)) [
  | inl e ↦ rw e (IsLayered-retain_not q fs l.1)
  | inr e ↦ rw e ((λ h. AllPinned-retain_not q fs (l.0 h)), IsLayered-retain_not q fs l.1)
]

-- Two lists of the same panes at other places of the screen.
data SamePanes : List FloatingPane → List FloatingPane → Type 0 where
  none_left : SamePanes [] []
  one_more :
      {f g : FloatingPane} {fs gs : List FloatingPane}
      → f.pane_id ≡ g.pane_id
      → f.pinned ≡ g.pinned
      → SamePanes fs gs
      → SamePanes (f ∷ fs) (g ∷ gs)

SamePanes-refl : (fs : List FloatingPane) → SamePanes fs fs
SamePanes-refl [] = none_left
SamePanes-refl (f ∷ fs) = one_more refl refl (SamePanes-refl fs)

count_pane-SamePanes :
    (p : ℕ) {fs gs : List FloatingPane} → SamePanes fs gs → count_pane p gs ≡ count_pane p fs
count_pane-SamePanes p none_left = refl
count_pane-SamePanes p (one_more i b s) = ground (arith, count_pane-SamePanes p s)

AllPinned-SamePanes : {fs gs : List FloatingPane} → SamePanes fs gs → AllPinned fs → AllPinned gs
AllPinned-SamePanes none_left h = tt
AllPinned-SamePanes (one_more i b s) h = (cc, AllPinned-SamePanes s h.1)

IsLayered-SamePanes : {fs gs : List FloatingPane} → SamePanes fs gs → IsLayered fs → IsLayered gs
IsLayered-SamePanes none_left l = tt
IsLayered-SamePanes (one_more i b s) l =
    ((λ h. AllPinned-SamePanes s (l.0 (b ∙ h))), IsLayered-SamePanes s l.1)

update_panes-SamePanes :
    (q : ℕ) (area : Rect) (apply : Rect → Rect) (fs : List FloatingPane)
    → SamePanes fs (update_panes q area apply fs).0
unfolding update_panes
update_panes-SamePanes q area apply [] = none_left
update_panes-SamePanes q area apply (f ∷ fs) = elim (Bool-cases (f.pane_id == q)) [
  | inl e ↦ rw e (one_more refl refl (SamePanes-refl fs))
  | inr e ↦ rw e (one_more refl refl (update_panes-SamePanes q area apply fs))
]

clamp_panes-SamePanes : (area : Rect) (fs : List FloatingPane) → SamePanes fs (clamp_panes area fs)
unfolding clamp_panes
clamp_panes-SamePanes area [] = none_left
clamp_panes-SamePanes area (f ∷ fs) = one_more refl refl (clamp_panes-SamePanes area fs)

-- What a call does to the number of panes with an identifier.
abbrev pub count_after : LayerOp → ℕ → ℕ → ℕ
count_after (insert_op q _ _ _) p n = (if q == p then 1 else 0) + n
count_after (remove_op q) p n = if q == p then 0 else n
count_after _ p n = n

raise-SameCount :
    (l : FloatingLayer) (q p : ℕ) → count_pane p (raise l q).0.panes ≡ count_pane p l.panes
unfolding raise
raise-SameCount l q p = elim (Option-cases (take_out q l.panes)) [
  | inl e ↦ rw (e, raise) refl
  | inr ((f, rest), e) ↦
      let t : TakenOut q l.panes (some (f, rest)) = rw e at (take_out-TakenOut q l.panes) in
      rw (e, raise) (omega (arith, t.1 p, count_pane-place_on_top p f rest))
]

set_pinned-SameCount :
    (l : FloatingLayer) (q : ℕ) (b : Bool) (p : ℕ)
    → count_pane p (set_pinned l q b).0.panes ≡ count_pane p l.panes
unfolding set_pinned
set_pinned-SameCount l q b p = elim (Option-cases (take_out q l.panes)) [
  | inl e ↦ rw (e, set_pinned) refl
  | inr ((f, rest), e) ↦
      let t : TakenOut q l.panes (some (f, rest)) = rw e at (take_out-TakenOut q l.panes) in
      rw (e, set_pinned)
        (omega (arith, t.1 p, count_pane-place_on_top p (record f { pinned = b }) rest))
]

raise-IsLayered : (l : FloatingLayer) (q : ℕ) → IsLayered l.panes → IsLayered (raise l q).0.panes
unfolding raise
raise-IsLayered l q h = elim (Option-cases (take_out q l.panes)) [
  | inl e ↦ rw (e, raise) h
  | inr ((f, rest), e) ↦
      let t : TakenOut q l.panes (some (f, rest)) = rw e at (take_out-TakenOut q l.panes) in
      rw (e, raise) (IsLayered-place_on_top f rest (t.2 h))
]

set_pinned-IsLayered :
    (l : FloatingLayer) (q : ℕ) (b : Bool)
    → IsLayered l.panes
    → IsLayered (set_pinned l q b).0.panes
unfolding set_pinned
set_pinned-IsLayered l q b h = elim (Option-cases (take_out q l.panes)) [
  | inl e ↦ rw (e, set_pinned) h
  | inr ((f, rest), e) ↦
      let t : TakenOut q l.panes (some (f, rest)) = rw e at (take_out-TakenOut q l.panes) in
      rw (e, set_pinned) (IsLayered-place_on_top (record f { pinned = b }) rest (t.2 h))
]

-- The calls that move panes keep the panes and their order.
update_rect-SamePanes :
    (l : FloatingLayer) (q : ℕ) (area : Rect) (apply : Rect → Rect)
    → SamePanes l.panes (update_rect l q area apply).0.panes
unfolding update_rect
update_rect-SamePanes l q area apply = update_panes-SamePanes q area apply l.panes

-- Every call adds, drops or keeps just the panes that it should: `insert` adds its pane, `remove`
-- drops every pane with the identifier, and the other calls keep the panes.
pub count_pane-apply_op :
    (l : FloatingLayer) (op : LayerOp) (p : ℕ)
    → count_pane p (apply_op l op).panes ≡ count_after op p (count_pane p l.panes)
unfolding apply_op insert remove move_by move_from resize_by resize_from set_rect clamp_all
count_pane-apply_op l (insert_op q area w h) p = count_pane-insert_below_pinned p _ l.panes
count_pane-apply_op l (remove_op q) p = count_pane-retain_not p q l.panes
count_pane-apply_op l (raise_op q) p = raise-SameCount l q p
count_pane-apply_op l (set_pinned_op q b) p = set_pinned-SameCount l q b p
count_pane-apply_op l (move_by_op q dx dy area) p =
    count_pane-SamePanes p (update_rect-SamePanes l q area _)
count_pane-apply_op l (move_from_op q r dx dy area) p =
    count_pane-SamePanes p (update_rect-SamePanes l q area _)
count_pane-apply_op l (resize_by_op q e dx dy area) p =
    count_pane-SamePanes p (update_rect-SamePanes l q area _)
count_pane-apply_op l (resize_from_op q r e dx dy area) p =
    count_pane-SamePanes p (update_rect-SamePanes l q area _)
count_pane-apply_op l (set_rect_op q r area) p =
    count_pane-SamePanes p (update_rect-SamePanes l q area _)
count_pane-apply_op l (clamp_all_op area) p =
    count_pane-SamePanes p (clamp_panes-SamePanes area l.panes)

-- On a layer with every pinned pane above the ordinary ones, each call keeps that order.
pub apply_op-IsLayered :
    (l : FloatingLayer) (op : LayerOp) → IsLayered l.panes → IsLayered (apply_op l op).panes
unfolding apply_op insert remove move_by move_from resize_by resize_from set_rect clamp_all
apply_op-IsLayered l (insert_op q area w h) k = IsLayered-insert_below_pinned _ l.panes refl k
apply_op-IsLayered l (remove_op q) k = IsLayered-retain_not q l.panes k
apply_op-IsLayered l (raise_op q) k = raise-IsLayered l q k
apply_op-IsLayered l (set_pinned_op q b) k = set_pinned-IsLayered l q b k
apply_op-IsLayered l (move_by_op q dx dy area) k =
    IsLayered-SamePanes (update_rect-SamePanes l q area _) k
apply_op-IsLayered l (move_from_op q r dx dy area) k =
    IsLayered-SamePanes (update_rect-SamePanes l q area _) k
apply_op-IsLayered l (resize_by_op q e dx dy area) k =
    IsLayered-SamePanes (update_rect-SamePanes l q area _) k
apply_op-IsLayered l (resize_from_op q r e dx dy area) k =
    IsLayered-SamePanes (update_rect-SamePanes l q area _) k
apply_op-IsLayered l (set_rect_op q r area) k =
    IsLayered-SamePanes (update_rect-SamePanes l q area _) k
apply_op-IsLayered l (clamp_all_op area) k =
    IsLayered-SamePanes (clamp_panes-SamePanes area l.panes) k
