-- ===== src/Region/Merge.antt =====
-- `order_and_coalesce` of src/region.rs: the fragments keep their points, the loop ends in sorted
-- fragments that no round can merge, and never more of them.
use vvmux.Prelude.{
  ℕ, zero, suc, ◌+◌, ◌≤◌, ◌≡◌, refl, sym, ap, ap₂, subst, ◌∙◌, inl, inr, ◌&&◌, true, Option, none,
  some, List, [], ◌∷◌, arith, Bool-cases, Option-cases, All, length, ◌>>=◌,
}
use vvmux.Prelude.Int.{ℤ, ◌+ℤ◌, ◌-ℤ◌, ◌≤ℤ◌, eq_ℤ, half_i64, int_laws, checked, checked-cases}
use vvmux.Region.{
  FixedRect, new, right, bottom, joined, join_first, merge_step, coalesce, order_and_coalesce,
  sort_by_key,
}
use vvmux.Region.Cover.{
  IsValid, seg, covers, cover_count, right_lem, bottom_lem, seg_split, new-cases,
}
use vvmux.Region.Order.{
  IsSorted, sort_by_key-IsSorted, sort_by_key-eq, total, total-sort_by_key, All-sort_by_key,
  length-total,
}

eq_ℤ-eq : (a b : ℤ) → eq_ℤ a b ≡ true → a ≡ b
eq_ℤ-eq a b h = ground arith

-- `j` covers what `a` and `b` cover together.
record Joins (a b j : FixedRect) : Type 0 where
  valid : IsValid j
  count : (p q : ℤ) → covers j p q ≡ covers a p q + covers b p q

-- Two spans end to end.
seg_join : (a b c d p : ℤ) → a ≤ℤ b → b ≡ c → c ≤ℤ d → seg a d p ≡ seg a b p + seg c d p
seg_join a b c d p h e k = rw (← e) (sym (seg_split a b d p h (subst (λ t. t ≤ℤ d) (sym e) k)))

le-right : (r : FixedRect) → IsValid r → r.x ≤ℤ right r
le-right r v = rw (right_lem r v) (omega (int_laws, v.wide))

le-bottom : (r : FixedRect) → IsValid r → r.y ≤ℤ bottom r
le-bottom r v = rw (bottom_lem r v) (omega (int_laws, v.high))

add_sub_cancel : (lo hi : ℤ) → lo +ℤ (hi -ℤ lo) ≡ hi
add_sub_cancel lo hi = omega int_laws

module _ (a b j : FixedRect) (va : IsValid a) (vb : IsValid b) where
  Joins-across :
      a.y ≡ b.y
      → a.height ≡ b.height
      → right a ≡ b.x
      → (checked half_i64 (right b -ℤ a.x) >>= λ width. new a.x a.y width a.height) ≡ some j
      → Joins a b j
  unfolding covers
  Joins-across ey eh ex e = elim (checked-cases half_i64 (right b -ℤ a.x)) [
    | inr (none_eq, _) ↦ cc
    | inl (some_eq, fits) ↦
        elim (new-cases a.x a.y _ a.height va.x_fits va.y_fits fits va.height_fits) [
          | inr (refused, _) ↦ cc
          | inl (made, v) ↦
              let same_bottom : bottom b ≡ bottom a =
                bottom_lem b vb ∙ ap₂ ◌+ℤ◌ (sym ey) (sym eh) ∙ sym (bottom_lem a va) in
              let k : FixedRect = record {
                x = a.x;
                y = a.y;
                width = right b -ℤ a.x;
                height = a.height;
              } in
              let far : right k ≡ right b = right_lem k v ∙ add_sub_cancel a.x (right b) in
              let low : bottom k ≡ bottom a = bottom_lem k v ∙ sym (bottom_lem a va) in
              subst (Joins a b) (cc) (
                let r : Joins a b k = record {
                  valid = v;
                  count = λ p q.
                      rw
                        (
                          far,
                          low,
                          seg_join a.x (right a) b.x (right b) p (le-right a va) ex (le-right b vb),
                          ap₂ (λ s t. seg s t q) (sym ey) same_bottom,
                        )
                        (omega arith);
                } in
                r)
        ]
  ]

  Joins-down :
      a.x ≡ b.x
      → a.width ≡ b.width
      → bottom a ≡ b.y
      → (checked half_i64 (bottom b -ℤ a.y) >>= λ height. new a.x a.y a.width height) ≡ some j
      → Joins a b j
  unfolding covers
  Joins-down ex ew ey e = elim (checked-cases half_i64 (bottom b -ℤ a.y)) [
    | inr (none_eq, _) ↦ cc
    | inl (some_eq, fits) ↦
        elim (new-cases a.x a.y a.width _ va.x_fits va.y_fits va.width_fits fits) [
          | inr (refused, _) ↦ cc
          | inl (made, v) ↦
              let same_right : right b ≡ right a =
                right_lem b vb ∙ ap₂ ◌+ℤ◌ (sym ex) (sym ew) ∙ sym (right_lem a va) in
              let k : FixedRect = record {
                x = a.x;
                y = a.y;
                width = a.width;
                height = bottom b -ℤ a.y;
              } in
              let low : bottom k ≡ bottom b = bottom_lem k v ∙ add_sub_cancel a.y (bottom b) in
              let far : right k ≡ right a = right_lem k v ∙ sym (right_lem a va) in
              subst (Joins a b) (cc) (
                let r : Joins a b k = record {
                  valid = v;
                  count = λ p q.
                      rw
                        (
                          far,
                          low,
                          seg_join a.y (bottom a) b.y (bottom b) q (le-bottom a va) ey
                              (le-bottom b vb),
                          ap₂ (λ s t. seg s t p) (sym ex) same_right,
                        )
                        (omega arith);
                } in
                r)
        ]
  ]

  -- Two rectangles that the code joins are neighbours, and the union has just their points.
  joined-Joins : joined a b ≡ some j → Joins a b j
  unfolding joined
  joined-Joins e =
      elim (Bool-cases (eq_ℤ a.y b.y && eq_ℤ a.height b.height && eq_ℤ (right a) b.x)) [
        | inl t ↦ Joins-across (ground arith) (ground arith) (ground arith) (rw t at e)
        | inr f ↦ elim (Bool-cases (eq_ℤ a.x b.x && eq_ℤ a.width b.width && eq_ℤ (bottom a) b.y)) [
          | inl t ↦ Joins-down (ground arith) (ground arith) (ground arith) (rw (f, t) at e)
          | inr f' ↦ let n : none ≡ some j = rw (f, f') at e in cc
        ]
      ]

-- `after` has the points of `before` and one rectangle less.
record Merged (before after : List FixedRect) : Type 0 where
  valid : All IsValid after
  count : (p q : ℤ) → cover_count after p q ≡ cover_count before p q
  shorter : suc (length after) ≡ length before

-- What a search for a partner, or a round, returns, when it returns something.
abbrev JoinOk : List FixedRect → Option (FixedRect × List FixedRect) → Type 0
JoinOk before none = Unit
JoinOk before (some (j, kept)) = Merged before (j ∷ kept)

abbrev RoundOk : List FixedRect → Option (List FixedRect) → Type 0
RoundOk before none = Unit
RoundOk before (some after) = Merged before after

join_first-JoinOk :
    (a : FixedRect) (rest : List FixedRect)
    → IsValid a
    → All IsValid rest
    → JoinOk (a ∷ rest) (join_first a rest)
unfolding join_first
join_first-JoinOk a [] va vs = tt
join_first-JoinOk a (b ∷ rest) va vs = elim (Option-cases (joined a b)) [
  | inr (u, hit) ↦
      let o = joined-Joins a b u va vs.0 hit in
      rw (hit, join_first)
        (let r : Merged (a ∷ b ∷ rest) (u ∷ rest) = record {
          valid = (o.valid, vs.1);
          count = λ p q. omega (arith, o.count p q);
          shorter = refl;
        } in
          r)
  | inl miss ↦ elim (Option-cases (join_first a rest)) [
    | inl none_eq ↦ rw (miss, join_first) (rw none_eq tt)
    | inr ((j, kept), some_eq) ↦
        let o : Merged (a ∷ rest) (j ∷ kept) = rw some_eq at (join_first-JoinOk a rest va vs.1) in
        rw (miss, join_first)
          (rw some_eq (
            let r : Merged (a ∷ b ∷ rest) (j ∷ b ∷ kept) = record {
              valid = (o.valid.0, (vs.0, o.valid.1));
              count = λ p q. omega (arith, o.count p q);
              shorter = omega (arith, o.shorter);
            } in
            r))
  ]
]

merge_step-RoundOk : (rs : List FixedRect) → All IsValid rs → RoundOk rs (merge_step rs)
unfolding merge_step
merge_step-RoundOk [] vs = tt
merge_step-RoundOk (a ∷ rest) vs = elim (Option-cases (join_first a rest)) [
  | inr ((j, kept), hit) ↦ rw (hit, merge_step) (rw hit at (join_first-JoinOk a rest vs.0 vs.1))
  | inl miss ↦ elim (Option-cases (merge_step rest)) [
    | inl none_eq ↦ rw (miss, merge_step) (rw none_eq tt)
    | inr (after, some_eq) ↦
        let o : Merged rest after = rw some_eq at (merge_step-RoundOk rest vs.1) in
        rw (miss, merge_step)
          (rw some_eq (
            let r : Merged (a ∷ rest) (a ∷ after) = record {
              valid = (vs.0, o.valid);
              count = λ p q. omega (arith, o.count p q);
              shorter = omega (arith, o.shorter);
            } in
            r))
  ]
]

cover_count-total :
    (rs : List FixedRect) (p q : ℤ) → cover_count rs p q ≡ total (λ r. covers r p q) rs
cover_count-total [] p q = refl
cover_count-total (r ∷ rs) p q = ap (λ t. covers r p q + t) (cover_count-total rs p q)

cover_count-sort_by_key :
    (rs : List FixedRect) (p q : ℤ) → cover_count (sort_by_key rs) p q ≡ cover_count rs p q
cover_count-sort_by_key rs p q =
    cover_count-total (sort_by_key rs) p q
    ∙ total-sort_by_key (λ r. covers r p q) rs
    ∙ sym (cover_count-total rs p q)

length-sort_by_key : (rs : List FixedRect) → length (sort_by_key rs) ≡ length rs
length-sort_by_key rs =
    length-total (sort_by_key rs) ∙ total-sort_by_key (λ _. 1) rs ∙ sym (length-total rs)

-- The result of the loop.
pub record Coalesced (before after : List FixedRect) : Type 0 where
  pub valid : All IsValid after
  pub count : (p q : ℤ) → cover_count after p q ≡ cover_count before p q
  pub length_le : length after ≤ length before
  pub sorted : IsSorted after
  pub settled : merge_step after ≡ none

Coalesced-nil : Coalesced [] []
unfolding merge_step
Coalesced-nil = record {
  valid = tt;
  count = λ p q. refl;
  length_le = omega arith;
  sorted = tt;
  settled = refl;
}

coalesce-Coalesced :
    (fuel : ℕ) (rs : List FixedRect)
    → length rs ≤ fuel
    → All IsValid rs
    → Coalesced rs (coalesce fuel rs)
unfolding coalesce
coalesce-Coalesced zero [] h vs = rw (sort_by_key-eq [] tt) Coalesced-nil
coalesce-Coalesced zero (r ∷ rs) h vs = absurd (omega arith)
coalesce-Coalesced (suc fuel) rs h vs = elim (Option-cases (merge_step (sort_by_key rs))) [
  | inl done ↦
      rw (done, coalesce, sort_by_key-eq (sort_by_key rs) (sort_by_key-IsSorted rs))
        (let r : Coalesced rs (sort_by_key rs) = record {
          valid = All-sort_by_key IsValid rs vs;
          count = cover_count-sort_by_key rs;
          length_le = omega (arith, length-sort_by_key rs);
          sorted = sort_by_key-IsSorted rs;
          settled = done;
        } in
          r)
  | inr (after, more) ↦
      let o : Merged (sort_by_key rs) after =
        rw more at (merge_step-RoundOk (sort_by_key rs) (All-sort_by_key IsValid rs vs)) in
      let size = length-sort_by_key rs in
      let rest = coalesce-Coalesced fuel after (omega (arith, o.shorter)) o.valid in
      rw (more, coalesce)
        (let r : Coalesced rs (coalesce fuel after) = record {
          valid = rest.valid;
          count = λ p q. rest.count p q ∙ o.count p q ∙ cover_count-sort_by_key rs p q;
          length_le = omega (arith, rest.length_le, o.shorter);
          sorted = rest.sorted;
          settled = rest.settled;
        } in
          r)
]

-- On valid rectangles the loop ends, within the fuel, in sorted rectangles that no round can
-- merge, no more than there were, and every point is covered as often as before.
pub order_and_coalesce-Coalesced :
    (rs : List FixedRect) → All IsValid rs → Coalesced rs (order_and_coalesce rs)
unfolding order_and_coalesce
order_and_coalesce-Coalesced rs vs = coalesce-Coalesced (length rs) rs (omega arith) vs
