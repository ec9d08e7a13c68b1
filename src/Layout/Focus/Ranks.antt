-- ===== src/Layout/Focus/Ranks.antt =====
-- The least rank that the loop of `directional_focus` of src/layout.rs finds.
use vvmux.Prelude.{
  ℕ, ◌≡◌, sym, ◌⊎◌, inl, inr, true, false, Option, none, some, List, [], ◌∷◌, arith, Bool-cases,
  Option-cases, subst,
}
use vvmux.Layout.Rect.{Rect, Direction}
use vvmux.Layout.Focus.{PaneProjection, Rank, rank_le, rank_of, smaller, min_rank}

rank_le_refl : (a : Rank) → rank_le a a ≡ true
unfolding rank_le
rank_le_refl a = ground arith

rank_le-total : (a b : Rank) → rank_le a b ≡ false → rank_le b a ≡ true
unfolding rank_le
rank_le-total a b h = ground arith

rank_le_trans : (a b c : Rank) → rank_le a b ≡ true → rank_le b c ≡ true → rank_le a c ≡ true
unfolding rank_le
rank_le_trans a b c h k = ground arith

module _ (focused : ℕ) (d : Direction) (current : Rect) where
  -- A pane of the list has the rank.
  abbrev pub Ranked : Rank → List PaneProjection → Type 0
  Ranked r [] = ⊥
  Ranked r (p ∷ ps) = (rank_of focused d current p ≡ some r) ⊎ Ranked r ps

  -- No pane of the list that is a candidate comes before `r`.
  abbrev pub Best : Rank → List PaneProjection → Type 0
  Best r [] = Unit
  Best r (p ∷ ps) =
      ((s : Rank) → rank_of focused d current p ≡ some s → rank_le r s ≡ true) × Best r ps

  abbrev pub NoCandidate : List PaneProjection → Type 0
  NoCandidate [] = Unit
  NoCandidate (p ∷ ps) = (rank_of focused d current p ≡ none) × NoCandidate ps

  abbrev pub Chosen : List PaneProjection → Option Rank → Type 0
  Chosen ps none = NoCandidate ps
  Chosen ps (some r) = Ranked r ps × Best r ps

  Best-mono : (r s : Rank) (ps : List PaneProjection) → rank_le r s ≡ true → Best s ps → Best r ps
  Best-mono r s [] le b = tt
  Best-mono r s (p ∷ ps) le b = ((λ t e. rank_le_trans r s t le (b.0 t e)), Best-mono r s ps le b.1)

  NoCandidate-Best : (r : Rank) (ps : List PaneProjection) → NoCandidate ps → Best r ps
  NoCandidate-Best r [] h = tt
  NoCandidate-Best r (p ∷ ps) h = ((λ s e. cc), NoCandidate-Best r ps h.1)

  rank_of-le :
      (p : PaneProjection) (a s : Rank)
      → rank_of focused d current p ≡ some a
      → rank_of focused d current p ≡ some s
      → rank_le a s ≡ true
  rank_of-le p a s e f =
      let same : a ≡ s = cc in subst (λ t. rank_le a t ≡ true) same (rank_le_refl a)

  Chosen-smaller :
      (p : PaneProjection) (ps : List PaneProjection) (a : Rank) (rest : Option Rank)
      → rank_of focused d current p ≡ some a
      → Chosen ps rest
      → Chosen (p ∷ ps) (some (smaller a rest))
  Chosen-smaller p ps a none e h = (inl e, ((λ s f. rank_of-le p a s e f), NoCandidate-Best a ps h))
  Chosen-smaller p ps a (some r) e h = elim (Bool-cases (rank_le a r)) [
    | inl le ↦
        let first : smaller a (some r) ≡ a = rw le in
        subst (λ t. Chosen (p ∷ ps) (some t)) (sym first)
          (inl e, ((λ s f. rank_of-le p a s e f), Best-mono a r ps le h.1))
    | inr gt ↦
        let other : smaller a (some r) ≡ r = rw gt in
        subst (λ t. Chosen (p ∷ ps) (some t)) (sym other)
          (
            inr h.0,
            ((λ s f. rank_le_trans r a s (rank_le-total a r gt) (rank_of-le p a s e f)), h.1),
          )
  ]

  pub min_rank-Chosen : (ps : List PaneProjection) → Chosen ps (min_rank focused d current ps)
  unfolding min_rank
  min_rank-Chosen [] = tt
  min_rank-Chosen (p ∷ ps) = elim (Option-cases (rank_of focused d current p)) [
    | inr (a, e) ↦
        rw (e, min_rank)
          (Chosen-smaller p ps a (min_rank focused d current ps) e (min_rank-Chosen ps))
    | inl e ↦ elim (Option-cases (min_rank focused d current ps)) [
      | inl n ↦
          let ih : NoCandidate ps = rw n at (min_rank-Chosen ps) in rw (e, n, min_rank) (e, ih)
      | inr (r, m) ↦
          let ih : Ranked r ps × Best r ps = rw m at (min_rank-Chosen ps) in
          rw (e, m, min_rank) (inr ih.0, ((λ s f. cc), ih.1))
    ]
  ]
