-- ===== src/Session/Paste/Broken.antt =====
-- No end marker is left by `sanitize_bracketed_paste` of src/session.rs.
use mathlib.Core.List.{append_assoc}
use vvmux.Prelude.{
  ℕ, zero, suc, ◌-◌, ◌≤◌, ◌≡◌, refl, sym, ap, ◌∙◌, inl, inr, Bool, true, false, none, some, List,
  [], ◌∷◌, ◌++◌, length, take, drop, arith, ◌==◌, if◌then◌else◌, Bool-cases, Option-cases, subst,
}
use vvmux.Input.Event.{starts_with}
use vvmux.Session.Paste.{
  end_marker, broken_marker, position, sanitize_from, sanitize_bracketed_paste,
}

-- Up to five bytes cannot tell the two markers apart.
same_start :
    (xs r r' q : List ℕ)
    → length q ≤ 5
    → starts_with (xs ++ (broken_marker ++ r')) q ≡ starts_with (xs ++ (end_marker ++ r)) q
unfolding starts_with
same_start xs r r' [] h = refl
same_start [] r r' (a ∷ []) h = refl
same_start [] r r' (a ∷ b ∷ []) h = refl
same_start [] r r' (a ∷ b ∷ c ∷ []) h = refl
same_start [] r r' (a ∷ b ∷ c ∷ d ∷ []) h = refl
same_start [] r r' (a ∷ b ∷ c ∷ d ∷ e ∷ []) h = refl
same_start [] r r' (a ∷ b ∷ c ∷ d ∷ e ∷ f ∷ q) h = absurd (omega (arith, h))
same_start (x ∷ xs) r r' (a ∷ q) h =
    ap (λ t. if x == a then t else false) (same_start xs r r' q (omega (arith, h)))

same_byte : (x b : ℕ) (t : Bool) → (if x == b then t else false) ≡ true → (x ≡ b) × (t ≡ true)
same_byte x b t e = ground (arith, e)

pub starts_with-append : (xs q : List ℕ) → starts_with xs q ≡ true → xs ≡ q ++ drop (length q) xs
unfolding starts_with
starts_with-append xs [] e = refl
starts_with-append [] (b ∷ q) e = absurd (ground (arith, e))
starts_with-append (x ∷ xs) (b ∷ q) e =
    let (same, rest) = same_byte x b (starts_with xs q) e in
    let ih = starts_with-append xs q rest in ap (λ t. t ∷ xs) same ∙ ap (λ (t : List ℕ). b ∷ t) ih

position-some :
    (bs : List ℕ) (p : ℕ)
    → position bs ≡ some p
    → bs ≡ take p bs ++ (end_marker ++ drop 6 (drop p bs))
unfolding position
position-some [] p e = absurd (ground (arith, e))
position-some (b ∷ bs) p e = elim (Bool-cases (starts_with (b ∷ bs) end_marker)) [
  | inl s ↦
      let z : some 0 ≡ some p = rw s at e in
      let zp : 0 ≡ p = cc in
      subst (λ (n : ℕ). (b ∷ bs) ≡ take n (b ∷ bs) ++ (end_marker ++ drop 6 (drop n (b ∷ bs)))) zp
        (starts_with-append (b ∷ bs) end_marker s)
  | inr n ↦ elim (Option-cases (position bs)) [
    | inl m ↦ let z : none ≡ some p = rw (n, m) at e in absurd (ground (arith, z))
    | inr (p', m) ↦
        let z : some (suc p') ≡ some p = rw (n, m) at e in
        let zp : suc p' ≡ p = cc in
        subst (λ (k : ℕ). (b ∷ bs) ≡ take k (b ∷ bs) ++ (end_marker ++ drop 6 (drop k (b ∷ bs)))) zp
          (ap (λ (t : List ℕ). b ∷ t) (position-some bs p' m))
  ]
]

-- Nothing new ends in the broken marker: up to it the bytes are those before the first end marker.
position-broken :
    (bs : List ℕ) (p : ℕ) (tail : List ℕ)
    → position bs ≡ some p
    → position tail ≡ none
    → position (take p bs ++ (broken_marker ++ tail)) ≡ none
unfolding position starts_with
position-broken [] p tail e t = absurd (ground (arith, e))
position-broken (b ∷ bs) p tail e t = elim (Bool-cases (starts_with (b ∷ bs) end_marker)) [
  | inl s ↦
      let z : some 0 ≡ some p = rw s at e in
      let zp : 0 ≡ p = cc in
      subst (λ (n : ℕ). position (take n (b ∷ bs) ++ (broken_marker ++ tail)) ≡ none) zp
        (simp t refl)
  | inr n ↦ elim (Option-cases (position bs)) [
    | inl m ↦ let z : none ≡ some p = rw (n, m) at e in absurd (ground (arith, z))
    | inr (p', m) ↦
        let z : some (suc p') ≡ some p = rw (n, m) at e in
        let zp : suc p' ≡ p = cc in
        let ih = position-broken bs p' tail m t in
        let same : starts_with (take p' bs ++ (broken_marker ++ tail)) (drop 1 end_marker)
            ≡ starts_with bs (drop 1 end_marker) =
          same_start (take p' bs) (drop 6 (drop p' bs)) tail (drop 1 end_marker) (omega arith)
          ∙ ap (λ (u : List ℕ). starts_with u (drop 1 end_marker)) (sym (position-some bs p' m)) in
        let first : starts_with (b ∷ (take p' bs ++ (broken_marker ++ tail))) end_marker ≡ false =
          ap (λ u. if b == 27 then u else false) same ∙ n in
        subst (λ (k : ℕ). position (take k (b ∷ bs) ++ (broken_marker ++ tail)) ≡ none) zp
          (simp (position, first, ih) refl)
  ]
]

sanitize_from-append :
    (fuel : ℕ) (out bs : List ℕ) → sanitize_from fuel out bs ≡ out ++ sanitize_from fuel [] bs
unfolding sanitize_from
sanitize_from-append zero out bs = refl
sanitize_from-append (suc fuel) out bs = elim (Option-cases (position bs)) [
  | inl m ↦ simp (m, sanitize_from) refl
  | inr (p, m) ↦
      simp (m, sanitize_from)
        (sanitize_from-append fuel ((out ++ take p bs) ++ broken_marker) (drop 6 (drop p bs))
          ∙ ap (λ (t : List ℕ). t ++ sanitize_from fuel [] (drop 6 (drop p bs)))
              (append_assoc out (take p bs) broken_marker)
          ∙ append_assoc out (take p bs ++ broken_marker) _
          ∙ ap (λ (t : List ℕ). out ++ t)
              (sym (sanitize_from-append fuel (take p bs ++ broken_marker) (drop 6 (drop p bs)))))
]

length-drop : (n : ℕ) (xs : List ℕ) → length (drop n xs) ≤ length xs - n
length-drop zero xs = omega arith
length-drop (suc n) [] = omega arith
length-drop (suc n) (x ∷ xs) = omega (arith, length-drop n xs)

position-sanitize_from :
    (fuel : ℕ) (bs : List ℕ) → length bs ≤ fuel → position (sanitize_from fuel [] bs) ≡ none
unfolding sanitize_from position
position-sanitize_from zero [] h = refl
position-sanitize_from zero (b ∷ bs) h = absurd (omega (arith, h))
position-sanitize_from (suc fuel) bs h = elim (Option-cases (position bs)) [
  | inl m ↦ simp (m, sanitize_from) refl
  | inr (p, m) ↦
      let tail = sanitize_from fuel [] (drop 6 (drop p bs)) in
      let clean =
        position-sanitize_from fuel (drop 6 (drop p bs))
          (omega (arith, h, length-drop p bs, length-drop 6 (drop p bs))) in
      let shape : sanitize_from fuel (take p bs ++ broken_marker) (drop 6 (drop p bs))
          ≡ take p bs ++ (broken_marker ++ tail) =
        sanitize_from-append fuel (take p bs ++ broken_marker) (drop 6 (drop p bs))
        ∙ append_assoc (take p bs) broken_marker tail in
      simp (m, sanitize_from) (ap position shape ∙ position-broken bs p tail m clean)
]

-- Whatever is pasted, no end marker is left in it, also none that the replacement would form with
-- the bytes around it.
pub position-sanitize_bracketed_paste :
    (bytes : List ℕ) → position (sanitize_bracketed_paste bytes) ≡ none
unfolding sanitize_bracketed_paste
position-sanitize_bracketed_paste bytes = position-sanitize_from (length bytes) bytes (omega arith)
