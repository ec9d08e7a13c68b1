-- ===== src/Region/Order.antt =====
-- The order of fragments in src/region.rs: sorting by `(y, x, height, width)` keeps every sum over
-- the fragments, and a list that it returns is sorted.
use vvmux.Prelude.{
  ℕ, ◌+◌, ◌≡◌, refl, ap, ◌∙◌, inl, inr, true, false, List, [], ◌∷◌, arith, Bool-cases, All, length,
}
use vvmux.Region.{FixedRect, key_le, insert_sorted, sort_by_key}

-- Each neighbour pair is in the order of the key.
abbrev pub IsSorted : List FixedRect → Type 0
IsSorted [] = Unit
IsSorted (r ∷ []) = Unit
IsSorted (r ∷ s ∷ rest) = (key_le r s ≡ true) × IsSorted (s ∷ rest)

key_le-total : (r s : FixedRect) → key_le r s ≡ false → key_le s r ≡ true
unfolding key_le
key_le-total r s h = ground arith

insert_sorted-IsSorted_below :
    (r s : FixedRect) (rest : List FixedRect)
    → key_le s r ≡ true
    → IsSorted (s ∷ rest)
    → IsSorted (insert_sorted r rest)
    → IsSorted (s ∷ insert_sorted r rest)
unfolding insert_sorted
insert_sorted-IsSorted_below r s [] le sorted done = (le, tt)
insert_sorted-IsSorted_below r s (t ∷ rest) le sorted done = elim (Bool-cases (key_le r t)) [
  | inl e ↦ rw (e, insert_sorted) (le, (e, sorted.1))
  | inr e ↦ rw (e, insert_sorted) (sorted.0, rw e at done)
]

IsSorted-tail : (s : FixedRect) (rest : List FixedRect) → IsSorted (s ∷ rest) → IsSorted rest
IsSorted-tail s [] h = tt
IsSorted-tail s (t ∷ rest) h = h.1

insert_sorted-IsSorted :
    (r : FixedRect) (rs : List FixedRect) → IsSorted rs → IsSorted (insert_sorted r rs)
unfolding insert_sorted
insert_sorted-IsSorted r [] h = tt
insert_sorted-IsSorted r (s ∷ rest) h = elim (Bool-cases (key_le r s)) [
  | inl e ↦ rw e (e, h)
  | inr e ↦ rw e (
      insert_sorted-IsSorted_below r s rest (key_le-total r s e) h
        (insert_sorted-IsSorted r rest (IsSorted-tail s rest h)))
]

pub sort_by_key-IsSorted : (rs : List FixedRect) → IsSorted (sort_by_key rs)
unfolding sort_by_key
sort_by_key-IsSorted [] = tt
sort_by_key-IsSorted (r ∷ rs) = insert_sorted-IsSorted r (sort_by_key rs) (sort_by_key-IsSorted rs)

insert_sorted_first :
    (r : FixedRect) (rs : List FixedRect) → IsSorted (r ∷ rs) → insert_sorted r rs ≡ r ∷ rs
unfolding insert_sorted
insert_sorted_first r [] h = refl
insert_sorted_first r (s ∷ rest) h = rw h.0

-- Sorting a sorted list changes nothing.
pub sort_by_key-eq : (rs : List FixedRect) → IsSorted rs → sort_by_key rs ≡ rs
unfolding sort_by_key
sort_by_key-eq [] h = refl
sort_by_key-eq (r ∷ rs) h =
    ap (insert_sorted r) (sort_by_key-eq rs (IsSorted-tail r rs h)) ∙ insert_sorted_first r rs h

-- A sum over the fragments does not depend on their order.
abbrev pub total : (FixedRect → ℕ) → List FixedRect → ℕ
total f [] = 0
total f (r ∷ rs) = f r + total f rs

total-insert_sorted :
    (f : FixedRect → ℕ) (r : FixedRect) (rs : List FixedRect)
    → total f (insert_sorted r rs) ≡ f r + total f rs
unfolding insert_sorted
total-insert_sorted f r [] = refl
total-insert_sorted f r (s ∷ rs) = ground (arith, total-insert_sorted f r rs)

pub total-sort_by_key :
    (f : FixedRect → ℕ) (rs : List FixedRect) → total f (sort_by_key rs) ≡ total f rs
unfolding sort_by_key
total-sort_by_key f [] = refl
total-sort_by_key f (r ∷ rs) =
    total-insert_sorted f r (sort_by_key rs) ∙ ap (λ t. f r + t) (total-sort_by_key f rs)

module _ {ℓ} (P : FixedRect → Type ℓ) where
  All-insert_sorted :
      (r : FixedRect) (rs : List FixedRect) → P r → All P rs → All P (insert_sorted r rs)
  unfolding insert_sorted
  All-insert_sorted r [] h hs = (h, tt)
  All-insert_sorted r (s ∷ rs) h hs = elim (Bool-cases (key_le r s)) [
    | inl e ↦ rw e (h, hs)
    | inr e ↦ rw e (hs.0, All-insert_sorted r rs h hs.1)
  ]

  pub All-sort_by_key : (rs : List FixedRect) → All P rs → All P (sort_by_key rs)
  unfolding sort_by_key
  All-sort_by_key [] hs = tt
  All-sort_by_key (r ∷ rs) hs = All-insert_sorted r (sort_by_key rs) hs.0 (All-sort_by_key rs hs.1)

pub length-total : (rs : List FixedRect) → length rs ≡ total (λ _. 1) rs
length-total [] = refl
length-total (r ∷ rs) = omega (arith, length-total rs)
