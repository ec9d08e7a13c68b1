-- ===== src/Region/Exact.antt =====
-- `subtract_all` of src/region.rs: exact, disjoint, ordered and bounded, or refused as a whole; and
-- a cap for which it is never refused.
use native.Mathlib.Nat.{pow-zero, pow-suc}
use vvmux.Prelude.{
  ℕ, zero, suc, ◌+◌, ◌-◌, ◌*◌, ◌^◌, ◌≤◌, ◌≡◌, ◌≢◌, refl, ap, ◌∙◌, inl, inr, Option, none, some,
  List, [], ◌∷◌, arith, ltb, leb, if◌then◌else◌, Bool-cases, Option-cases, All, All-append, length,
  length-append, ltb→lt, leb→le, le→leb, subst,
}
use vvmux.Prelude.Int.{ℤ}
use vvmux.Region.{FixedRect, cut, merge_step, order_and_coalesce, subtract_holes, subtract_all}
use vvmux.Region.Cover.{IsValid, seg-le-one, covers, cover_count, clear, cover_count-append}
use vvmux.Region.Carve.{subtract-IsValid, length-subtract, cover_count-subtract}
use vvmux.Region.Order.{IsSorted}
use vvmux.Region.Merge.{order_and_coalesce-Coalesced}

covers-le-one : (r : FixedRect) (p q : ℤ) → covers r p q ≤ 1
unfolding covers
covers-le-one r p q = grind (arith, seg-le-one)

module _ (hole : FixedRect) (vh : IsValid hole) where
  cut-IsValid : (fs : List FixedRect) → All IsValid fs → All IsValid (cut fs hole)
  unfolding cut
  cut-IsValid [] vs = tt
  cut-IsValid (f ∷ fs) vs =
      All-append IsValid _ _ (subtract-IsValid f hole vs.0 vh) (cut-IsValid fs vs.1)

  length-cut : (fs : List FixedRect) → All IsValid fs → length (cut fs hole) ≤ 4 * length fs
  unfolding cut
  length-cut [] vs = omega arith
  length-cut (f ∷ fs) vs =
      rw length-append (omega (arith, length-subtract f hole vs.0 vh, length-cut fs vs.1))

  cover_count-cut :
      (fs : List FixedRect) (p q : ℤ)
      → All IsValid fs
      → cover_count (cut fs hole) p q ≡ cover_count fs p q * (1 - covers hole p q)
  unfolding cut
  cover_count-cut [] p q vs = omega arith
  cover_count-cut (f ∷ fs) p q vs =
      rw (cover_count-append, cover_count-cut fs p q vs.1)
        (outside _ _ _ _ (covers-le-one hole p q) (cover_count-subtract f hole vs.0 vh p q))
    where
      outside : (n c h d : ℕ) → h ≤ 1 → n + c * h ≡ c → n + d * (1 - h) ≡ (c + d) * (1 - h)
      outside n c zero d le e = omega arith
      outside n c (suc zero) d le e = omega arith
      outside n c (suc (suc h)) d le e = absurd (omega arith)

-- What the loop over the holes returns.
record HolesOk (before holes : List FixedRect) (cap : ℕ) (r : Option (List FixedRect))
    : Type 0 where
  done :
      (fs : List FixedRect)
      → r ≡ some fs
      → All IsValid fs
        × ((p q : ℤ) → cover_count fs p q ≡ cover_count before p q * clear holes p q)
        × (length fs ≤ length before * 4 ^ length holes)
  enough : length before * 4 ^ length holes ≤ cap → r ≢ none

-- A product with a power of four is no less than its other factor.
le-mul-pow : (n k : ℕ) → n ≤ n * 4 ^ k
le-mul-pow n zero = omega (arith, pow-zero 4)
le-mul-pow n (suc k) = rw pow-suc (omega (arith, le-mul-pow n k))

mul_mono : (n m t : ℕ) → n ≤ m → n * t ≤ m * t
mul_mono n m t h = grind arith

-- One hole multiplies the fragments by four at most.
grow : (n b k : ℕ) → n ≤ 4 * b → n * 4 ^ k ≤ b * 4 ^ suc k
grow n b k h = rw pow-suc (omega (arith, mul_mono n (4 * b) (4 ^ k) h))

HolesOk-start : (fs : List FixedRect) (cap : ℕ) → All IsValid fs → HolesOk fs [] cap (some fs)
HolesOk-start fs cap vs = record {
  done = λ gs e.
      let same : fs ≡ gs = ground arith in rw (← same) (vs, (λ p q. omega arith), omega arith);
  enough = λ h e. cc;
}

module _ (fs : List FixedRect) (hole : FixedRect) (holes : List FixedRect) (cap : ℕ)
    (rest : Option (List FixedRect)) where
  -- One pass of the loop, given what the passes after it do.
  HolesOk-next :
      (next : List FixedRect)
      → ((p q : ℤ) → cover_count next p q ≡ cover_count fs p q * (1 - covers hole p q))
      → length next ≤ 4 * length fs
      → HolesOk next holes cap rest
      → HolesOk fs
          (hole ∷ holes)
          cap
          (if ltb cap (length next) then none else elim next [ [] ↦ some [] | _ ↦ rest ])
  HolesOk-next [] count size o = record {
    done = λ gs e.
        let same : [] ≡ gs = ground arith in
        rw (← same) (
          tt,
          (λ p q. omega (arith, ap (λ (t : ℕ). t * clear holes p q) (count p q))),
          omega arith,
        );
    enough = λ h e. ground arith;
  }
  HolesOk-next (n ∷ ns) count size o = elim (Bool-cases (ltb cap (length (n ∷ ns)))) [
    | inl big ↦ rw big (
        let r : HolesOk fs (hole ∷ holes) cap none = record {
          done = λ gs e. cc;
          enough = λ h e. absurd (
              omega (
                arith,
                grow (length (n ∷ ns)) (length fs) (length holes) size,
                le-mul-pow (length (n ∷ ns)) (length holes),
                ltb→lt cap (length (n ∷ ns)) big,
              ));
        } in
        r)
    | inr fits ↦ rw fits (
        let r : HolesOk fs (hole ∷ holes) cap rest = record {
          done = λ gs e.
              let (valid, cover, small) = o.done gs e in
              (
                valid,
                (λ p q. omega (arith, cover p q, ap (λ (t : ℕ). t * clear holes p q) (count p q))),
                omega (arith, grow (length (n ∷ ns)) (length fs) (length holes) size),
              );
          enough =
              λ h. o.enough (omega (arith, grow (length (n ∷ ns)) (length fs) (length holes) size));
        } in
        r)
  ]

subtract_holes-HolesOk :
    (fs holes : List FixedRect) (cap : ℕ)
    → All IsValid fs
    → All IsValid holes
    → HolesOk fs holes cap (subtract_holes fs holes cap)
unfolding subtract_holes
subtract_holes-HolesOk fs [] cap vs vh = HolesOk-start fs cap vs
subtract_holes-HolesOk fs (hole ∷ holes) cap vs vh =
    let c = order_and_coalesce-Coalesced (cut fs hole) (cut-IsValid hole vh.0 fs vs) in
    HolesOk-next fs hole holes cap _ (order_and_coalesce (cut fs hole))
      (λ p q. c.count p q ∙ cover_count-cut hole vh.0 fs p q vs)
      (omega (arith, c.length_le, length-cut hole vh.0 fs vs))
      (subtract_holes-HolesOk (order_and_coalesce (cut fs hole)) holes cap c.valid vh.1)

-- `fs` is the visible part of `base`: valid, sorted, settled, no more than `cap`; each point of
-- the base outside every hole is in exactly one fragment, and any other point in none.
pub record IsVisible (base : FixedRect) (holes : List FixedRect) (cap : ℕ) (fs : List FixedRect)
    : Type 0 where
  pub valid : All IsValid fs
  pub count : (p q : ℤ) → cover_count fs p q ≡ covers base p q * clear holes p q
  pub sorted : IsSorted fs
  pub settled : merge_step fs ≡ none
  pub bounded : length fs ≤ cap

-- The last pass, after the loop has returned `mid`.
finish : List FixedRect → ℕ → Option (List FixedRect)
finish mid cap =
    let result = order_and_coalesce mid in if leb (length result) cap then some result else none

module _ (base : FixedRect) (holes : List FixedRect) (cap : ℕ) where
  finish-IsVisible :
      (mid fs : List FixedRect)
      → HolesOk (base ∷ []) holes cap (some mid)
      → finish mid cap ≡ some fs
      → IsVisible base holes cap fs
  unfolding finish
  finish-IsVisible mid fs o e = elim (Bool-cases (leb (length (order_and_coalesce mid)) cap)) [
    | inr big ↦ let n : none ≡ some fs = rw big at e in absurd (ground arith)
    | inl fits ↦
        let s : some (order_and_coalesce mid) ≡ some fs = rw fits at e in
        let (valid, cover, small) = o.done mid refl in
        let c = order_and_coalesce-Coalesced mid valid in
        subst (IsVisible base holes cap) (cc) (
          let r : IsVisible base holes cap (order_and_coalesce mid) = record {
            valid = c.valid;
            count = λ p q. omega (arith, c.count p q, cover p q);
            sorted = c.sorted;
            settled = c.settled;
            bounded = leb→le _ _ fits;
          } in
          r)
  ]

  -- What `subtract_all` returns for a valid base and valid holes is the visible part of the
  -- base: each point of the base outside all holes lies in exactly one fragment, no other point
  -- in any, and the fragments are valid, sorted, not mergeable and within the cap.
  pub subtract_all-IsVisible :
      (fs : List FixedRect)
      → IsValid base
      → All IsValid holes
      → subtract_all base holes cap ≡ some fs
      → IsVisible base holes cap fs
  unfolding subtract_all finish
  subtract_all-IsVisible fs vb vh e =
      let o = subtract_holes-HolesOk (base ∷ []) holes cap (vb, tt) vh in
      elim (Option-cases (subtract_holes (base ∷ []) holes cap)) [
        | inl stop ↦ let n : none ≡ some fs = rw stop at e in absurd (ground arith)
        | inr (mid, go_on) ↦ finish-IsVisible mid fs (rw go_on at o) (rw go_on at e)
      ]

  -- For a valid base and valid holes `subtract_all` returns fragments where the cap is at least
  -- 4 to the number of holes.
  pub subtract_all-returns :
      IsValid base
      → All IsValid holes
      → 4 ^ length holes ≤ cap
      → (fs : List FixedRect) × (subtract_all base holes cap ≡ some fs)
  unfolding subtract_all
  subtract_all-returns vb vh room =
      let o = subtract_holes-HolesOk (base ∷ []) holes cap (vb, tt) vh in
      elim (Option-cases (subtract_holes (base ∷ []) holes cap)) [
        | inl stop ↦ absurd (o.enough (omega arith) stop)
        | inr (mid, go_on) ↦
            let (valid, cover, small) = o.done mid go_on in
            let c = order_and_coalesce-Coalesced mid valid in
            let fits = le→leb (length (order_and_coalesce mid)) cap (omega (arith, c.length_le)) in
            (order_and_coalesce mid, rw (go_on, fits))
      ]
