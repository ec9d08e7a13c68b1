-- ===== src/Layout/Focus/Best.antt =====
-- `directional_focus` of src/layout.rs picks the nearest candidate, told from the rectangles alone.
use vvmux.Prelude.{
  ℕ, zero, suc, ◌+◌, ◌*◌, ◌≤◌, ◌<◌, ◌≡◌, ◌≢◌, refl, sym, ap, ◌∙◌, ◌⊎◌, inl, inr, true, false, ◌&&◌,
  Option, none, some, List, [], ◌∷◌, All, arith, Bool-cases, Option-cases, subst, ltb, leb, ◌==◌,
  if◌then◌else◌,
}
use vvmux.Prelude.Int.{◌-ℤ◌, eq_ℤ, leb_ℤ}
use vvmux.Layout.Rect.{Rect, IsValid, center, Direction, left, right, up, down}
use vvmux.Layout.Focus.{
  PaneProjection, Rank, rank_le, rank_of, in_half_plane, edge_distance, overlap, span_overlap,
  min_rank, find_projection, directional_focus,
}
use vvmux.Layout.Focus.Ranks.{Ranked, Best, NoCandidate, Chosen, min_rank-Chosen}

-- The centre of `r` lies strictly to the side of that of `current`, in half cells.
abbrev pub Beyond : Direction → Rect → Rect → Type 0
Beyond left current r = 2 * r.x + r.width < 2 * current.x + current.width
Beyond right current r = 2 * current.x + current.width < 2 * r.x + r.width
Beyond up current r = 2 * r.y + r.height < 2 * current.y + current.height
Beyond down current r = 2 * current.y + current.height < 2 * r.y + r.height

-- Another pane on the side of the direction.
abbrev pub Candidate : ℕ → Direction → Rect → PaneProjection → Type 0
Candidate focused d current p = (p.pane_id ≢ focused) × Beyond d current p.outer

-- The edge of `r` that faces the current pane is nearer to it than that of `s`.
abbrev pub Nearer : Direction → Rect → Rect → Type 0
Nearer left r s = s.x + s.width < r.x + r.width
Nearer right r s = r.x < s.x
Nearer up r s = s.y + s.height < r.y + r.height
Nearer down r s = r.y < s.y

-- These edges are equally far.
abbrev pub Level : Direction → Rect → Rect → Type 0
Level left r s = s.x + s.width ≡ r.x + r.width
Level right r s = r.x ≡ s.x
Level up r s = s.y + s.height ≡ r.y + r.height
Level down r s = r.y ≡ s.y

-- How many of the `count` cells from `from` on are among the `length` cells from `start` on.
abbrev pub shared_cells : ℕ → ℕ → ℕ → ℕ → ℕ
shared_cells from zero start length = 0
shared_cells from (suc count) start length =
    (if leb start from && ltb from (start + length) then 1 else 0)
    + shared_cells (suc from) count start length

-- The rows, or the columns, that a rectangle shares with the current one across the direction.
abbrev pub beside : Direction → Rect → Rect → ℕ
beside left current r = shared_cells current.y current.height r.y r.height
beside right current r = shared_cells current.y current.height r.y r.height
beside up current r = shared_cells current.x current.width r.x r.width
beside down current r = shared_cells current.x current.width r.x r.width

-- `p` is nearer than `q`; or as near, and shares more with the current pane; or as much, and its
-- identifier is not greater.
abbrev pub Before : Direction → Rect → PaneProjection → PaneProjection → Type 0
Before d current p q =
    Nearer d p.outer q.outer
    ⊎ (Level d p.outer q.outer
        × ((beside d current q.outer < beside d current p.outer)
            ⊎ ((beside d current q.outer ≡ beside d current p.outer) × (p.pane_id ≤ q.pane_id))))

abbrev pub Among : PaneProjection → List PaneProjection → Type 0
Among p [] = ⊥
Among p (q ∷ qs) = (p ≡ q) ⊎ Among p qs

-- What a focus move should return: a pane that is a candidate and comes before every candidate; and
-- no pane only if none is a candidate.
abbrev pub FocusOk : List PaneProjection → ℕ → Direction → Rect → Option ℕ → Type 0
FocusOk ps focused d current none = All (λ q. ¬ Candidate focused d current q) ps
FocusOk ps focused d current (some pane) =
    (p : PaneProjection) × Among p ps
    × (p.pane_id ≡ pane)
    × Candidate focused d current p
    × All (λ q. (¬ Candidate focused d current q) ⊎ Before d current p q) ps

span_overlap-shared :
    (from count start length : ℕ)
    → from + count ≤ 65535
    → start + length ≤ 65535
    → span_overlap from count start length ≡ shared_cells from count start length
unfolding span_overlap
span_overlap-shared from zero start length h h' = omega arith
span_overlap-shared from (suc count) start length h h' =
    ground (arith, span_overlap-shared (suc from) count start length)

overlap-beside :
    (d : Direction) (current r : Rect)
    → IsValid current
    → IsValid r
    → overlap d current r ≡ beside d current r
unfolding overlap
overlap-beside left c r v w = span_overlap-shared _ _ _ _ v.bottom_fits w.bottom_fits
overlap-beside right c r v w = span_overlap-shared _ _ _ _ v.bottom_fits w.bottom_fits
overlap-beside up c r v w = span_overlap-shared _ _ _ _ v.right_fits w.right_fits
overlap-beside down c r v w = span_overlap-shared _ _ _ _ v.right_fits w.right_fits

in_half_plane-Beyond :
    (d : Direction) (current r : Rect)
    → ((in_half_plane d current r ≡ true) × Beyond d current r)
      ⊎ ((in_half_plane d current r ≡ false) × (¬ Beyond d current r))
unfolding in_half_plane center
in_half_plane-Beyond left c r = ground arith
in_half_plane-Beyond right c r = ground arith
in_half_plane-Beyond up c r = ground arith
in_half_plane-Beyond down c r = ground arith

-- Distances compare as the facing edges do.
edge_distance-Nearer :
    (d : Direction) (current r s : Rect)
    → IsValid current
    → IsValid r
    → IsValid s
    → leb_ℤ (edge_distance d current r) (edge_distance d current s) ≡ true
    → Nearer d r s
      ⊎ (Level d r s × (eq_ℤ (edge_distance d current r) (edge_distance d current s) ≡ true))
unfolding edge_distance ◌-ℤ◌
edge_distance-Nearer left c r s v w u h = ground arith
edge_distance-Nearer right c r s v w u h = ground arith
edge_distance-Nearer up c r s v w u h = ground arith
edge_distance-Nearer down c r s v w u h = ground arith

rank_le-parts :
    (a b : Rank)
    → rank_le a b ≡ true
    → (leb_ℤ a.distance b.distance ≡ true)
      × (eq_ℤ a.distance b.distance ≡ true
          → (b.shared < a.shared) ⊎ ((b.shared ≡ a.shared) × (a.pane ≤ b.pane)))
unfolding rank_le
rank_le-parts a b h = elim (Bool-cases (eq_ℤ a.distance b.distance)) [
  | inl tie ↦ (
    ground (arith, tie),
    λ e. elim (Bool-cases (a.shared == b.shared)) [
      | inl same ↦
          let k : leb a.pane b.pane ≡ true = rw (rank_le, tie, same) at h in
          inr (ground (arith, same), ground (arith, k))
      | inr other ↦
          let k : ltb b.shared a.shared ≡ true = rw (rank_le, tie, other) at h in
          inl (ground (arith, k))
    ],
  )
  | inr apart ↦
      let k : leb_ℤ a.distance b.distance ≡ true = rw (rank_le, apart) at h in
      (k, λ e. let z : true ≡ false = sym e ∙ apart in cc)
]

module _ (focused : ℕ) (d : Direction) (current : Rect) where
  abbrev rank : PaneProjection → Rank
  rank p = record {
    distance = edge_distance d current p.outer;
    shared = overlap d current p.outer;
    pane = p.pane_id;
  }

  rank_of-Candidate :
      (p : PaneProjection)
      → (Candidate focused d current p × (rank_of focused d current p ≡ some (rank p)))
        ⊎ ((¬ Candidate focused d current p) × (rank_of focused d current p ≡ none))
  unfolding rank_of
  rank_of-Candidate p = elim (Bool-cases (p.pane_id == focused)) [
    | inl same ↦ inr ((λ c. c.0 (ground (arith, same))), simp same refl)
    | inr other ↦ elim (in_half_plane-Beyond d current p.outer) [
      | inl (inside, beyond) ↦ inl ((ground (arith, other), beyond), simp (other, inside) refl)
      | inr (outside, beside_it) ↦ inr ((λ c. beside_it c.1), simp (other, outside) refl)
    ]
  ]

  rank_le-Before :
      (p q : PaneProjection)
      → IsValid current
      → IsValid p.outer
      → IsValid q.outer
      → rank_le (rank p) (rank q) ≡ true
      → Before d current p q
  rank_le-Before p q v w u h =
      let (le, tie) = rank_le-parts (rank p) (rank q) h in
      let share = overlap-beside d current p.outer v w in
      let share' = overlap-beside d current q.outer v u in
      elim (edge_distance-Nearer d current p.outer q.outer v w u le) [
        | inl near ↦ inl near
        | inr (level, same) ↦ elim (tie same) [
          | inl more ↦ inr (level, inl (omega (arith, more, share, share')))
          | inr (even, first) ↦ inr (level, inr (omega (arith, even, share, share'), first))
        ]
      ]

  Among-Ranked :
      (r : Rank) (ps : List PaneProjection)
      → Ranked focused d current r ps
      → (p : PaneProjection) × Among p ps × Candidate focused d current p × (r ≡ rank p)
  Among-Ranked r [] h = absurd h
  Among-Ranked r (p ∷ ps) (inl e) = elim (rank_of-Candidate p) [
    | inl (c, f) ↦ (p, inl refl, c, cc)
    | inr (n, f) ↦ let z : none ≡ some r = sym f ∙ e in cc
  ]
  Among-Ranked r (p ∷ ps) (inr k) =
      let (q, among, c, e) = Among-Ranked r ps k in (q, inr among, c, e)

  Among-IsValid :
      (p : PaneProjection) (ps : List PaneProjection)
      → Among p ps
      → All (λ q. IsValid q.outer) ps
      → IsValid p.outer
  Among-IsValid p [] a v = absurd a
  Among-IsValid p (q ∷ qs) (inl e) v = subst (λ t. IsValid t.outer) (sym e) v.0
  Among-IsValid p (q ∷ qs) (inr a) v = Among-IsValid p qs a v.1

  Best-Before :
      (p : PaneProjection) (ps : List PaneProjection)
      → IsValid current
      → IsValid p.outer
      → All (λ q. IsValid q.outer) ps
      → Best focused d current (rank p) ps
      → All (λ q. (¬ Candidate focused d current q) ⊎ Before d current p q) ps
  Best-Before p [] v w u b = tt
  Best-Before p (q ∷ qs) v w u b = (
    elim (rank_of-Candidate q) [
      | inl (c, f) ↦ inr (rank_le-Before p q v w u.0 (b.0 (rank q) f))
      | inr (n, f) ↦ inl n
    ],
    Best-Before p qs v w u.1 b.1,
  )

  no_candidates :
      (ps : List PaneProjection)
      → NoCandidate focused d current ps
      → All (λ q. ¬ Candidate focused d current q) ps
  no_candidates [] h = tt
  no_candidates (p ∷ ps) h = (
    elim (rank_of-Candidate p) [
      | inl (c, f) ↦ let z : none ≡ some (rank p) = sym h.0 ∙ f in cc
      | inr (n, f) ↦ n
    ],
    no_candidates ps h.1,
  )

find-IsValid :
    (ps : List PaneProjection) (pane : ℕ) (p : PaneProjection)
    → find_projection pane ps ≡ some p
    → All (λ q. IsValid q.outer) ps
    → IsValid p.outer
unfolding find_projection
find-IsValid [] pane p e v = absurd (ground (arith, e))
find-IsValid (q ∷ qs) pane p e v = elim (Bool-cases (q.pane_id == pane)) [
  | inl hit ↦
      let z : some q ≡ some p = rw hit at e in
      let same : q ≡ p = cc in subst (λ t. IsValid t.outer) same v.0
  | inr miss ↦ find-IsValid qs pane p (rw miss at e) v.1
]

-- From a visible pane, where no far edge of a visible pane leaves `u16`: the focus goes to another
-- pane whose centre lies strictly to the side of the direction, and which comes before all such
-- panes, by the edge that faces the current pane, then by the rows or columns shared with it, then
-- by identifier. It goes nowhere only where there is no such pane.
pub directional_focus-FocusOk :
    (ps : List PaneProjection) (focused : ℕ) (d : Direction) (current : PaneProjection)
    → find_projection focused ps ≡ some current
    → All (λ p. IsValid p.outer) ps
    → FocusOk ps focused d current.outer (directional_focus ps focused d)
unfolding directional_focus
directional_focus-FocusOk ps focused d current e v =
    let w = find-IsValid ps focused current e v in
    elim (Option-cases (min_rank focused d current.outer ps)) [
      | inl n ↦
          let h : NoCandidate focused d current.outer ps =
            rw n at (min_rank-Chosen focused d current.outer ps) in
          rw e (rw n (no_candidates focused d current.outer ps h))
      | inr (r, m) ↦
          let h : Chosen focused d current.outer ps (some r) =
            rw m at (min_rank-Chosen focused d current.outer ps) in
          let (p, among, c, same) = Among-Ranked focused d current.outer r ps h.0 in
          let best : Best focused d current.outer (rank focused d current.outer p) ps =
            subst (λ t. Best focused d current.outer t ps) same h.1 in
          let k : FocusOk ps focused d current.outer (some r.pane) = (
            p,
            among,
            ap (λ (t : Rank). t.pane) (sym same),
            c,
            Best-Before focused d current.outer p ps w
                (Among-IsValid focused d current.outer p ps among v) v best,
          ) in
          rw e (rw m k)
    ]
