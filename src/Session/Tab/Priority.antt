-- ===== src/Session/Tab/Priority.antt =====
-- The order in which `projection_pane_priority` of src/session.rs names the visible panes.
use vvmux.Prelude.{
  ℕ, Bool, true, false, ◌||◌, Option, none, some, List, [], ◌∷◌, ◌++◌, leb, ◌==◌, if◌then◌else◌,
  ◌≡◌, refl, ap, ap₂, ◌∙◌, inl, inr, Bool-cases, arith, subst,
}
use vvmux.Layout.Focus.{PaneLayer, tiled, floating, pinned, PaneProjection}
use vvmux.Session.Tab.{
  Tab, member, push, push_each, same_layer, layer_ids, reverse, insert_id, sort, any_pane,
  push_visible, projection_pane_priority,
}

-- No pane twice.
pub Once : List ℕ → Type 0
Once [] = Unit
Once (p ∷ ps) = (member p ps ≡ false) × Once ps

member-append :
    (pane : ℕ) (xs ys : List ℕ) → member pane (xs ++ ys) ≡ (member pane xs || member pane ys)
unfolding member
member-append pane [] ys = refl
member-append pane (x ∷ xs) ys = let ih = member-append pane xs ys in ground arith

Once-snoc : (pane : ℕ) (xs : List ℕ) → member pane xs ≡ false → Once xs → Once (xs ++ (pane ∷ []))
unfolding Once member
Once-snoc pane [] m o = (refl, tt)
Once-snoc pane (x ∷ xs) m (n, o) =
    let tail : member pane xs ≡ false = ground arith in
    let apart : (pane == x) ≡ false = ground arith in
    (member-append x xs (pane ∷ []) ∙ rw (n, apart) refl, Once-snoc pane xs tail o)

push-Once : (pane : ℕ) (xs : List ℕ) → Once xs → Once (push pane xs)
unfolding push
push-Once pane xs o = elim (Bool-cases (member pane xs)) [
  | inl m ↦ rw m o
  | inr m ↦ rw m (Once-snoc pane xs m o)
]

member-push : (pane p : ℕ) (xs : List ℕ) → member pane (push p xs) ≡ ((p == pane) || member pane xs)
unfolding push member
member-push pane p xs = elim (Bool-cases (member p xs)) [
  | inl m ↦ elim (Bool-cases (p == pane)) [
    | inl e ↦
        let same : p ≡ pane = ground (arith, e) in
        let here : member pane xs ≡ true = subst (λ t. member t xs ≡ true) same m in
        simp (m, e, here) refl
    | inr e ↦ simp (m, e) refl
  ]
  | inr m ↦ rw m (let e = member-append pane xs (p ∷ []) in ground (arith, e))
]

push_each-Once : (ps xs : List ℕ) → Once xs → Once (push_each ps xs)
unfolding push_each
push_each-Once [] xs o = o
push_each-Once (p ∷ ps) xs o = push_each-Once ps (push p xs) (push-Once p xs o)

member-push_each :
    (pane : ℕ) (ps xs : List ℕ) → member pane (push_each ps xs) ≡ (member pane ps || member pane xs)
unfolding push_each member
member-push_each pane [] xs = refl
member-push_each pane (p ∷ ps) xs =
    let ih = member-push_each pane ps (push p xs) in
    let e = member-push pane p xs in ground (arith, ih, e)

member-reverse : (pane : ℕ) (xs : List ℕ) → member pane (reverse xs) ≡ member pane xs
unfolding member reverse
member-reverse pane [] = refl
member-reverse pane (x ∷ xs) =
    let e = member-append pane (reverse xs) (x ∷ []) in
    let ih = member-reverse pane xs in ground (arith, e, ih)

member-insert_id :
    (pane x : ℕ) (xs : List ℕ) → member pane (insert_id x xs) ≡ ((x == pane) || member pane xs)
unfolding member insert_id
member-insert_id pane x [] = refl
member-insert_id pane x (y ∷ ys) =
    let ih = member-insert_id pane x ys in
    elim (Bool-cases (leb x y)) [ inl l ↦ simp l refl | inr l ↦ simp l (ground (arith, ih)) ]

member-sort : (pane : ℕ) (xs : List ℕ) → member pane (sort xs) ≡ member pane xs
unfolding member sort
member-sort pane [] = refl
member-sort pane (x ∷ xs) =
    let ih = member-sort pane xs in
    let e = member-insert_id pane x (sort xs) in ground (arith, e, ih)

-- Every visible pane lies in exactly the layer that its projection names.
layers-any :
    (pane : ℕ) (ps : List PaneProjection)
    → any_pane pane ps ≡ (
        member pane (layer_ids pinned ps)
        || (member pane (layer_ids floating ps) || member pane (layer_ids tiled ps)))
unfolding any_pane layer_ids member same_layer
layers-any pane [] = refl
layers-any pane (p ∷ ps) =
    let ih = layers-any pane ps in
    let ids : PaneLayer → PaneLayer → List ℕ = λ l layer.
      let rest = layer_ids layer ps in if same_layer l layer then p.pane_id ∷ rest else rest in
    elim p.layer
      as (λ l. ((p.pane_id == pane) || any_pane pane ps) ≡ (
        member pane (ids l pinned)
        || (member pane (ids l floating) || member pane (ids l tiled)))) [
          | tiled ↦ ground (arith, ih)
          | floating ↦ ground (arith, ih)
          | pinned ↦ ground (arith, ih)
        ]

push_visible-Once :
    (o : Option ℕ) (ps : List PaneProjection) (xs : List ℕ) → Once xs → Once (push_visible o ps xs)
unfolding push_visible
push_visible-Once none ps xs o = o
push_visible-Once (some p) ps xs o = elim (Bool-cases (any_pane p ps)) [
  | inl a ↦ rw a (push-Once p xs o)
  | inr a ↦ rw a o
]

-- What `push_visible` adds is visible.
member-push_visible :
    (pane : ℕ) (o : Option ℕ) (ps : List PaneProjection) (xs : List ℕ)
    → (member pane xs ≡ true → any_pane pane ps ≡ true)
    → (member pane xs ≡ true → member pane (push_visible o ps xs) ≡ true)
      × (member pane (push_visible o ps xs) ≡ true → any_pane pane ps ≡ true)
unfolding push_visible
member-push_visible pane none ps xs sound = (λ m. m, sound)
member-push_visible pane (some p) ps xs sound =
    let e = member-push pane p xs in
    elim (Bool-cases (any_pane p ps)) [
      | inl a ↦ rw a (
        λ m. ground (arith, e, m),
        λ m. elim (Bool-cases (p == pane)) [
          | inl same ↦
              let q : p ≡ pane = ground (arith, same) in subst (λ t. any_pane t ps ≡ true) q a
          | inr other ↦ sound (ground (arith, e, m, other))
        ],
      )
      | inr a ↦ rw a (λ m. m, sound)
    ]

none-member :
    (pane : ℕ) (ps : List PaneProjection) → member pane [] ≡ true → any_pane pane ps ≡ true
unfolding member
none-member pane ps m = cc

-- The two facts on Booleans that the steps of the list come down to.
within :
    (any first pins floats tiles shown : Bool)
    → any ≡ (pins || (floats || tiles))
    → (first ≡ true → any ≡ true)
    → shown ≡ (floats || (pins || first))
    → shown ≡ true
    → any ≡ true
within any first pins floats tiles shown a s e m = elim (Bool-cases first) [
  | inl y ↦ s y
  | inr n ↦ ground arith
]

gathered :
    (any first pins floats tiles shown recent : Bool)
    → any ≡ (pins || (floats || tiles))
    → shown ≡ (floats || (pins || first))
    → (shown ≡ true → recent ≡ true)
    → (recent ≡ true → any ≡ true)
    → (tiles || recent) ≡ any
gathered any first pins floats tiles shown recent a e k s = elim (Bool-cases recent) [
  | inl y ↦ let t = s y in ground arith
  | inr n ↦ elim (Bool-cases shown) [
    | inl y ↦ let t = k y in ground arith
    | inr hidden ↦ ground arith
  ]
]

-- The priority list names every visible pane, no other pane, and none twice.
pub projection_pane_priority-Once :
    (tab : Tab) (ps : List PaneProjection) (pane : ℕ)
    → Once (projection_pane_priority tab ps)
      × (member pane (projection_pane_priority tab ps) ≡ any_pane pane ps)
unfolding projection_pane_priority Once
projection_pane_priority-Once tab ps pane =
    let first = push_visible (some tab.focused) ps [] in
    let pins = push_each (reverse (layer_ids pinned ps)) first in
    let floats = push_each (reverse (layer_ids floating ps)) pins in
    let recent = push_visible tab.last_focused_tiled ps floats in
    let all = layers-any pane ps in
    let (kept₁, sound₁) = member-push_visible pane (some tab.focused) ps [] (none-member pane ps) in
    let e₂ = member-push_each pane (reverse (layer_ids pinned ps)) first in
    let r₂ = member-reverse pane (layer_ids pinned ps) in
    let e₃ = member-push_each pane (reverse (layer_ids floating ps)) pins in
    let r₃ = member-reverse pane (layer_ids floating ps) in
    let shown : member pane floats ≡ true → any_pane pane ps ≡ true =
      within (any_pane pane ps) (member pane first) _ _ _ _ all sound₁
        (e₃ ∙ ap₂ (λ s t. s || t) r₃ (e₂ ∙ ap (λ t. t || member pane first) r₂)) in
    let (kept₄, sound₄) = member-push_visible pane tab.last_focused_tiled ps floats shown in
    let e₅ = member-push_each pane (sort (layer_ids tiled ps)) recent in
    let r₅ = member-sort pane (layer_ids tiled ps) in
    (
      push_each-Once (sort (layer_ids tiled ps)) recent (
          push_visible-Once tab.last_focused_tiled ps floats (
            push_each-Once (reverse (layer_ids floating ps)) pins (
              push_each-Once (reverse (layer_ids pinned ps)) first
                (push_visible-Once (some tab.focused) ps [] tt)))),
      e₅
          ∙ ap (λ t. t || member pane recent) r₅
          ∙ gathered (any_pane pane ps) (member pane first) _ _ _ _ (member pane recent) all
              (e₃ ∙ ap₂ (λ s t. s || t) r₃ (e₂ ∙ ap (λ t. t || member pane first) r₂)) kept₄ sound₄,
    )
