-- ===== src/Region/Carve.antt =====
-- `subtract` of src/region.rs: the pieces cover each point of the base outside the hole exactly
-- once, and nothing else; they are valid, and at most four.
use mathlib.Core.List.{append-nil}
use vvmux.Prelude.{
  ℕ, ◌+◌, ◌*◌, ◌≤◌, ◌≡◌, refl, sym, ap, ◌∙◌, inl, inr, Option, none, some, List, [], ◌++◌, arith,
  All, All-append, length,
}
use vvmux.Prelude.Int.{
  ℤ, pos_part, neg_part, ◌+ℤ◌, ◌-ℤ◌, ◌≤ℤ◌, half_i64, wrap, InI64, int_laws, wrap_i64_lem,
}
use vvmux.Region.{FixedRect, new, right, bottom, push_some, carve, subtract}
use vvmux.Region.Cover.{
  IsValid, seg, covers, cover_count, right_lem, bottom_lem, seg_empty, seg_split, new-cases,
  cover_count-append,
}
use vvmux.Region.Clip.{Meets, intersect-cases, covers-Meets, covers-Apart, right_fits, bottom_fits}

-- The points that a list of at most one piece covers, and its validity.
record Piece (lo hi lo' hi' : ℤ) (o : Option FixedRect) : Type 0 where
  valid : All IsValid (push_some [] o)
  count : (p q : ℤ) → cover_count (push_some [] o) p q ≡ seg lo hi p * seg lo' hi' q

module _ (lo hi lo' hi' : ℤ) (w h : ℤ) where
  -- A piece between four edges, the far ones not before the near ones. The code may build
  -- nothing, and then the piece is empty.
  Piece-new :
      InI64 lo
      → InI64 hi
      → InI64 lo'
      → InI64 hi'
      → lo +ℤ w ≡ hi
      → lo' +ℤ h ≡ hi'
      → InI64 w
      → InI64 h
      → Piece lo hi lo' hi' (new lo lo' w h)
  unfolding covers
  Piece-new f1 f2 f3 f4 ew eh fw fh = elim (new-cases lo lo' w h f1 f3 fw fh) [
    | inl (e, v) ↦ rw e (record {
      valid = (v, tt);
      count = λ p q. rw (right_lem _ v, bottom_lem _ v, ew, eh) (omega arith);
    })
    | inr (e, why) ↦ rw e (record {
      valid = tt;
      count = λ p q. elim why [
        | inl flat ↦
            rw (seg_empty lo hi p (omega (int_laws, ap pos_part ew, ap neg_part ew))) (omega arith)
        | inr (inl flat) ↦
            rw (seg_empty lo' hi' q (omega (int_laws, ap pos_part eh, ap neg_part eh)))
              (omega arith)
        | inr (inr (inl off)) ↦ absurd (off (rw ew f2))
        | inr (inr (inr off)) ↦ absurd (off (rw eh f4))
      ];
    })
  ]

push_some-append :
    (rs : List FixedRect) (o : Option FixedRect) → push_some rs o ≡ rs ++ push_some [] o
push_some-append rs none = rw append-nil
push_some-append rs (some r) = refl

-- The difference of two edges, as the code computes it, spans them.
diff_span :
    (lo hi : ℤ)
    → InI64 (hi -ℤ lo)
    → (lo +ℤ wrap half_i64 (hi -ℤ lo) ≡ hi) × InI64 (wrap half_i64 (hi -ℤ lo))
diff_span lo hi f = rw (wrap_i64_lem _ f) (omega int_laws, f)

seg_split_two :
    (a b c d p : ℤ) → a ≤ℤ b → b ≤ℤ c → c ≤ℤ d → seg a b p + seg b c p + seg c d p ≡ seg a d p
seg_split_two a b c d p h k l =
    ap (λ t. t + seg c d p) (seg_split a b c p h k) ∙ seg_split a c d p (omega arith) l

-- The grid of rows and columns, with the middle cell `so * sm`.
area_sum :
    (sx sl so sr sy st sm sb : ℕ)
    → sl + so + sr ≡ sx
    → st + sm + sb ≡ sy
    → sx * st + sx * sb + sl * sm + sr * sm + so * sm ≡ sx * sy
area_sum sx sl so sr sy st sm sb h k =
    omega (arith, ap (λ (t : ℕ). t * sm) h, ap (λ (t : ℕ). sx * t) k)

-- Parts of a span that fits also fit.
gap_fits :
    (a b c d : ℤ) → a ≤ℤ b → b ≤ℤ c → c ≤ℤ d → InI64 (d -ℤ a) → InI64 (b -ℤ a) × InI64 (d -ℤ c)
gap_fits a b c d h k l f = (omega int_laws, omega int_laws)

-- The overlap lies inside the base.
record Nested (base o : FixedRect) : Type 0 where
  outer : IsValid base
  inner : IsValid o
  left_edge : base.x ≤ℤ o.x
  x_span : o.x ≤ℤ right o
  right_edge : right o ≤ℤ right base
  top_edge : base.y ≤ℤ o.y
  y_span : o.y ≤ℤ bottom o
  bottom_edge : bottom o ≤ℤ bottom base

Meets-Nested : (a b o : FixedRect) → IsValid a → Meets a b o → Nested a o
Meets-Nested a b o va m = record {
  outer = va;
  inner = m.valid;
  left_edge = rw m.x_eq (omega int_laws);
  x_span = rw (right_lem o m.valid) (omega (int_laws, m.valid.wide));
  right_edge = rw m.right_eq (omega int_laws);
  top_edge = rw m.y_eq (omega int_laws);
  y_span = rw (bottom_lem o m.valid) (omega (int_laws, m.valid.high));
  bottom_edge = rw m.bottom_eq (omega int_laws);
}

module _ (base o : FixedRect) (n : Nested base o) where
  open base use {x as bx, y as bY, width as bw}
  open o use {x as ox, y as oy, height as oh}

  abbrev top_piece : Option FixedRect
  top_piece = new bx bY bw (wrap half_i64 (oy -ℤ bY))

  abbrev below_piece : Option FixedRect
  below_piece = new bx (bottom o) bw (wrap half_i64 (bottom base -ℤ bottom o))

  abbrev before_piece : Option FixedRect
  before_piece = new bx oy (wrap half_i64 (ox -ℤ bx)) oh

  abbrev after_piece : Option FixedRect
  after_piece = new (right o) oy (wrap half_i64 (right base -ℤ right o)) oh

  carve_pieces :
      carve base o
      ≡ ((push_some [] top_piece ++ push_some [] below_piece) ++ push_some [] before_piece)
        ++ push_some [] after_piece
  unfolding carve
  carve_pieces =
      push_some-append _ after_piece
      ∙ ap (λ l. l ++ push_some [] after_piece)
          (push_some-append _ before_piece
            ∙ ap (λ l. l ++ push_some [] before_piece) (push_some-append _ below_piece))

  module _ where
    open n use {outer, inner}

    edges_x : InI64 (right base) × InI64 (right base -ℤ bx)
    edges_x = right_fits base outer

    edges_y : InI64 (bottom base) × InI64 (bottom base -ℤ bY)
    edges_y = bottom_fits base outer

    gaps_x : InI64 (ox -ℤ bx) × InI64 (right base -ℤ right o)
    gaps_x = gap_fits bx ox (right o) (right base) n.left_edge n.x_span n.right_edge edges_x.1

    gaps_y : InI64 (oy -ℤ bY) × InI64 (bottom base -ℤ bottom o)
    gaps_y = gap_fits bY oy (bottom o) (bottom base) n.top_edge n.y_span n.bottom_edge edges_y.1

    top_Piece : Piece bx (right base) bY oy top_piece
    top_Piece =
        let (span, fits) = diff_span bY oy gaps_y.0 in
        Piece-new bx (right base) bY oy bw _ outer.x_fits edges_x.0 outer.y_fits inner.y_fits
          (sym (right_lem base outer)) span outer.width_fits fits

    below_Piece : Piece bx (right base) (bottom o) (bottom base) below_piece
    below_Piece =
        let (span, fits) = diff_span (bottom o) (bottom base) gaps_y.1 in
        Piece-new bx (right base) (bottom o) (bottom base) bw _ outer.x_fits edges_x.0
          (bottom_fits o inner).0 edges_y.0 (sym (right_lem base outer)) span outer.width_fits fits

    before_Piece : Piece bx ox oy (bottom o) before_piece
    before_Piece =
        let (span, fits) = diff_span bx ox gaps_x.0 in
        Piece-new bx ox oy (bottom o) _ oh outer.x_fits inner.x_fits inner.y_fits
          (bottom_fits o inner).0 span (sym (bottom_lem o inner)) fits inner.height_fits

    after_Piece : Piece (right o) (right base) oy (bottom o) after_piece
    after_Piece =
        let (span, fits) = diff_span (right o) (right base) gaps_x.1 in
        Piece-new (right o) (right base) oy (bottom o) _ oh (right_fits o inner).0 edges_x.0
          inner.y_fits (bottom_fits o inner).0 span (sym (bottom_lem o inner)) fits
          inner.height_fits

  carve-IsValid : All IsValid (carve base o)
  carve-IsValid = rw carve_pieces (
      All-append IsValid _ _
        (All-append IsValid _ _ (All-append IsValid _ _ top_Piece.valid below_Piece.valid)
          before_Piece.valid)
        after_Piece.valid)

  -- Points of the base are in one piece or in the overlap.
  cover_count-carve : (p q : ℤ) → cover_count (carve base o) p q + covers o p q ≡ covers base p q
  unfolding covers
  cover_count-carve p q =
      rw
        (
          carve_pieces, cover_count-append, cover_count-append, cover_count-append, top_Piece.count,
          below_Piece.count, before_Piece.count, after_Piece.count,
        )
        (area_sum _ _ _ _ _ _ _ _
          (seg_split_two bx ox (right o) (right base) p n.left_edge n.x_span n.right_edge)
          (seg_split_two bY oy (bottom o) (bottom base) q n.top_edge n.y_span n.bottom_edge))

  length-carve : length (carve base o) ≤ 4
  unfolding carve
  length-carve = ground arith

module _ (base hole : FixedRect) (vb : IsValid base) (vh : IsValid hole) where
  pub subtract-IsValid : All IsValid (subtract base hole)
  unfolding subtract
  subtract-IsValid = elim (intersect-cases base hole vb vh) [
    | inl (o, e, m) ↦ rw (e, subtract) (carve-IsValid base o (Meets-Nested base hole o vb m))
    | inr (e, apart) ↦ rw (e, subtract) (vb, tt)
  ]

  pub length-subtract : length (subtract base hole) ≤ 4
  unfolding subtract
  length-subtract = elim (intersect-cases base hole vb vh) [
    | inl (o, e, m) ↦ rw (e, subtract) (length-carve base o (Meets-Nested base hole o vb m))
    | inr (e, apart) ↦ rw (e, subtract) (omega arith)
  ]

  -- For a valid base and a valid hole, each point of the base lies in exactly one piece if it is
  -- outside the hole, and in none otherwise; a point outside the base lies in none.
  pub cover_count-subtract :
      (p q : ℤ)
      → cover_count (subtract base hole) p q + covers base p q * covers hole p q ≡ covers base p q
  unfolding subtract
  cover_count-subtract p q = elim (intersect-cases base hole vb vh) [
    | inl (o, e, m) ↦
        rw (e, subtract, ← covers-Meets base hole vb vh o m p q)
          (cover_count-carve base o (Meets-Nested base hole o vb m) p q)
    | inr (e, apart) ↦ rw (e, subtract, covers-Apart base hole vb vh apart p q) (omega arith)
  ]
