-- ===== src/Region/Clip.antt =====
-- `intersect` of src/region.rs: it covers the common points of its arguments.
use vvmux.Prelude.{ℕ, ◌*◌, ◌≡◌, refl, sym, ap, ◌∙◌, ◌⊎◌, inl, inr, none, some, arith, right_of}
use vvmux.Prelude.Int.{
  ℤ, pos, ◌+ℤ◌, ◌-ℤ◌, ◌≤ℤ◌, max_ℤ, min_ℤ, half_i64, InI64, int_laws, checked-cases,
}
use vvmux.Region.{FixedRect, right, bottom, intersect}
use vvmux.Region.Cover.{IsValid, seg, covers, right_lem, bottom_lem, seg_empty, new-cases}

-- The overlap of two intervals covers their common points.
pub seg_meet : (a b c d p : ℤ) → seg (max_ℤ a b) (min_ℤ c d) p ≡ seg a c p * seg b d p
unfolding seg max_ℤ min_ℤ
seg_meet a b c d p = ground arith

-- `o` is the common part of `a` and `b`.
pub record Meets (a b o : FixedRect) : Type 0 where
  pub valid : IsValid o
  pub x_eq : o.x ≡ max_ℤ a.x b.x
  pub y_eq : o.y ≡ max_ℤ a.y b.y
  pub right_eq : right o ≡ min_ℤ (right a) (right b)
  pub bottom_eq : bottom o ≡ min_ℤ (bottom a) (bottom b)

-- The overlap of two intervals of `i64` values, in the terms of the checks that the code makes.
span_fits :
    (x x' e e' : ℤ)
    → InI64 x
    → InI64 x'
    → InI64 e
    → InI64 e'
    → InI64 (e -ℤ x)
    → let lo = max_ℤ x x' in
      let hi = min_ℤ e e' in
      InI64 lo × InI64 hi × (InI64 (hi -ℤ lo) ⊎ (hi ≤ℤ lo)) × (lo +ℤ (hi -ℤ lo) ≡ hi)
span_fits x x' e e' hx hx' he he' hw =
    (omega int_laws, omega int_laws, omega int_laws, omega int_laws)

pub right_fits : (r : FixedRect) → IsValid r → InI64 (right r) × InI64 (right r -ℤ r.x)
right_fits r v =
    let w : right r -ℤ r.x ≡ r.width = rw (right_lem r v) (omega int_laws) in
    (rw (right_lem r v) v.right_fits, rw w v.width_fits)

pub bottom_fits : (r : FixedRect) → IsValid r → InI64 (bottom r) × InI64 (bottom r -ℤ r.y)
bottom_fits r v =
    let h : bottom r -ℤ r.y ≡ r.height = rw (bottom_lem r v) (omega int_laws) in
    (rw (bottom_lem r v) v.bottom_fits, rw h v.height_fits)

sub_nonpos : (lo hi : ℤ) → hi -ℤ lo ≤ℤ pos 0 → hi ≤ℤ lo
sub_nonpos lo hi h = omega int_laws

module _ (a b : FixedRect) (va : IsValid a) (vb : IsValid b) where
  abbrev pub Apart : Type 0
  Apart =
      (min_ℤ (right a) (right b) ≤ℤ max_ℤ a.x b.x) ⊎ (min_ℤ (bottom a) (bottom b) ≤ℤ max_ℤ a.y b.y)

  -- Both results of the code on valid rectangles: the valid rectangle from the greater starts to
  -- the lesser ends, or none where the intervals of one axis do not overlap.
  pub intersect-cases :
      ((o : FixedRect) × (intersect a b ≡ some o) × Meets a b o) ⊎ (intersect a b ≡ none) × Apart
  unfolding intersect
  intersect-cases =
      let (ra, wa) = right_fits a va in
      let (rb, wb) = right_fits b vb in
      let (ba, ha) = bottom_fits a va in
      let (bb, hb) = bottom_fits b vb in
      let sx = span_fits a.x b.x (right a) (right b) va.x_fits vb.x_fits ra rb wa in
      let sy = span_fits a.y b.y (bottom a) (bottom b) va.y_fits vb.y_fits ba bb ha in
      let w = min_ℤ (right a) (right b) -ℤ max_ℤ a.x b.x in
      let h = min_ℤ (bottom a) (bottom b) -ℤ max_ℤ a.y b.y in
      elim (checked-cases half_i64 w) [
        | inr (e, out) ↦ inr (rw e, inl (right_of sx.2 out))
        | inl (e, fw) ↦ elim (checked-cases half_i64 h) [
          | inr (e', out) ↦ inr (rw (e, e'), inr (right_of sy.2 out))
          | inl (e', fh) ↦ elim (new-cases _ _ w h sx.0 sy.0 fw fh) [
            | inl (some_eq, v) ↦ inl (
              _,
              rw (e, e') some_eq,
              record {
                valid = v;
                x_eq = refl;
                y_eq = refl;
                right_eq = right_lem _ v ∙ sx.3;
                bottom_eq = bottom_lem _ v ∙ sy.3;
              },
            )
            | inr (none_eq, why) ↦ inr (
              rw (e, e') none_eq,
              elim why [
                | inl flat ↦ inl (sub_nonpos _ _ flat)
                | inr (inl flat) ↦ inr (sub_nonpos _ _ flat)
                | inr (inr (inl off)) ↦ absurd (off (rw sx.3 sx.1))
                | inr (inr (inr off)) ↦ absurd (off (rw sy.3 sy.1))
              ],
            )
          ]
        ]
      ]

  -- Where the code returns a rectangle, it covers exactly the common points.
  pub covers-Meets :
      (o : FixedRect) → Meets a b o → (p q : ℤ) → covers o p q ≡ covers a p q * covers b p q
  unfolding covers
  covers-Meets o m p q = simp (m.x_eq, m.y_eq, m.right_eq, m.bottom_eq, seg_meet) (omega arith)

  -- Where it returns nothing, there are none.
  pub covers-Apart : Apart → (p q : ℤ) → covers a p q * covers b p q ≡ 0
  unfolding covers
  covers-Apart (inl h) p q = omega (
    arith,
    ap (λ (t : ℕ). t * (seg a.y (bottom a) q * seg b.y (bottom b) q))
        (sym (seg_meet a.x b.x (right a) (right b) p) ∙ seg_empty _ _ p h),
  )
  covers-Apart (inr h) p q = omega (
    arith,
    ap (λ (t : ℕ). t * (seg a.x (right a) p * seg b.x (right b) p))
        (sym (seg_meet a.y b.y (bottom a) (bottom b) q) ∙ seg_empty _ _ q h),
  )
