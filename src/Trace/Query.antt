-- ===== src/Trace/Query.antt =====
-- What a turn of `run_trace_follow` of src/automation.rs gets from the journal of
-- src/media_trace.rs.
use vvmux.Prelude.{
  ℕ, zero, suc, ◌≤◌, ◌<◌, ◌≡◌, refl, sym, ap, ◌∙◌, Bool, true, false, ◌&&◌, some, List, [], ◌∷◌,
  ◌++◌, take, arith, ltb, leb, Bool-cases, inl, inr, ◌⊎◌,
}
use vvmux.Trace.{MediaTraceEvent, StoredEvent, select, last_sequence}
use vvmux.Trace.Valid.{Rises, Rises-le}

-- The wanted events with a sequence number above `low` and up to `high`.
abbrev pub between : ℕ → ℕ → (MediaTraceEvent → Bool) → List StoredEvent → List MediaTraceEvent
between low high wanted xs =
    select (λ e. (ltb low e.sequence && leb e.sequence high) && wanted e) xs

-- From a list that starts above `low`, and a middle `high` not below the last one.
pub select-between :
    (low base high : ℕ) (wanted : MediaTraceEvent → Bool) (xs : List StoredEvent)
    → Rises base high xs
    → select (λ e. ltb low e.sequence && wanted e) xs ≡ between low high wanted xs
unfolding select
select-between low base high wanted [] r = refl
select-between low base high wanted (x ∷ xs) r =
    let ih = select-between low x.event.sequence high wanted xs r.1 in
    let under : leb x.event.sequence high ≡ true =
      ground (arith, Rises-le x.event.sequence high xs r.1) in
    elim (Bool-cases (ltb low x.event.sequence)) [
      | inl above ↦ simp (under, above, ih) refl
      | inr below ↦ simp (under, below, ih) refl
    ]

-- Nothing lies between a middle and a list that starts above it.
between_above :
    (low base high middle : ℕ) (wanted : MediaTraceEvent → Bool) (xs : List StoredEvent)
    → Rises base high xs
    → middle ≤ base
    → between low middle wanted xs ≡ []
unfolding select
between_above low base high middle wanted [] r h = refl
between_above low base high middle wanted (x ∷ xs) r h =
    let ih = between_above low x.event.sequence high middle wanted xs r.1 (omega (arith, h, r.0)) in
    let over : leb x.event.sequence middle ≡ false = ground (arith, h, r.0) in
    elim (Bool-cases (ltb low x.event.sequence)) [
      | inl above ↦ simp (over, above, ih) refl
      | inr below ↦ simp (over, below, ih) refl
    ]

-- A list splits at any middle that is not below the lower one.
pub select-split :
    (low base high middle : ℕ) (wanted : MediaTraceEvent → Bool) (xs : List StoredEvent)
    → Rises base high xs
    → low ≤ middle
    → select (λ e. ltb low e.sequence && wanted e) xs
      ≡ between low middle wanted xs ++ select (λ e. ltb middle e.sequence && wanted e) xs
unfolding select
select-split low base high middle wanted [] r h = refl
select-split low base high middle wanted (x ∷ xs) r h =
    let ih = select-split low x.event.sequence high middle wanted xs r.1 h in
    elim (Bool-cases (ltb middle x.event.sequence)) [
      | inl over ↦
          let above : ltb low x.event.sequence ≡ true = ground (arith, over, h) in
          let under : leb x.event.sequence middle ≡ false = ground (arith, over) in
          let nothing =
            between_above low x.event.sequence high middle wanted xs r.1 (ground (arith, over)) in
          simp (over, above, under, nothing, ih) refl
      | inr within ↦
          let under : leb x.event.sequence middle ≡ true = ground (arith, within) in
          elim (Bool-cases (ltb low x.event.sequence)) [
            | inl above ↦ elim (Bool-cases (wanted x.event)) [
              | inl picked ↦ simp (within, above, under, picked, ih) refl
              | inr left ↦ simp (within, above, under, left, ih) refl
            ]
            | inr below ↦ simp (within, below, under, ih) refl
          ]
    ]

-- The sequence number of the last event, or the given one.
abbrev pub bound : ℕ → List MediaTraceEvent → ℕ
bound base [] = base
bound base (e ∷ es) = bound e.sequence es

pub bound-last_sequence :
    (base : ℕ) (e : MediaTraceEvent) (es : List MediaTraceEvent)
    → last_sequence (e ∷ es) ≡ some (bound base (e ∷ es))
unfolding last_sequence
bound-last_sequence base e [] = refl
bound-last_sequence base e (e' ∷ es) = bound-last_sequence e.sequence e' es

-- The first `n` wanted events are those up to the last one of them.
pub record Prefix (low start : ℕ) (wanted : MediaTraceEvent → Bool) (xs : List StoredEvent)
    (events : List MediaTraceEvent) : Type 0 where
  pub exact : events ≡ between low (bound start events) wanted xs
  pub forward : start ≤ bound start events
  pub above : (events ≡ []) ⊎ (low < bound start events)

between_skip :
    (low high : ℕ) (wanted : MediaTraceEvent → Bool) (x : StoredEvent) (xs : List StoredEvent)
    → (ltb low x.event.sequence && wanted x.event) ≡ false
    → between low high wanted (x ∷ xs) ≡ between low high wanted xs
unfolding select
between_skip low high wanted x xs left = elim (Bool-cases (ltb low x.event.sequence)) [
  | inl above ↦
      let unwanted : wanted x.event ≡ false = ground (arith, above, left) in
      elim (Bool-cases (leb x.event.sequence high)) [
        | inl under ↦ simp (above, under, unwanted) refl
        | inr over ↦ simp (above, over) refl
      ]
  | inr below ↦ simp below refl
]

between_pick :
    (low high : ℕ) (wanted : MediaTraceEvent → Bool) (x : StoredEvent) (xs : List StoredEvent)
    → (ltb low x.event.sequence && wanted x.event) ≡ true
    → x.event.sequence ≤ high
    → (low < x.event.sequence)
      × (between low high wanted (x ∷ xs) ≡ x.event ∷ between low high wanted xs)
unfolding select
between_pick low high wanted x xs picked h =
    let under : leb x.event.sequence high ≡ true = ground (arith, h) in
    elim (Bool-cases (ltb low x.event.sequence)) [
      | inl above ↦
          let taken : wanted x.event ≡ true = ground (arith, above, picked) in
          (ground (arith, above), simp (above, under, taken) refl)
      | inr below ↦ ground (arith, below, picked)
    ]

pub take-Prefix :
    (low start base high n : ℕ) (wanted : MediaTraceEvent → Bool) (xs : List StoredEvent)
    → Rises base high xs
    → start ≤ base
    → Prefix low start wanted xs (take n (select (λ e. ltb low e.sequence && wanted e) xs))
unfolding select
take-Prefix low start base high zero wanted xs r h = record {
  exact = sym (between_above low base high start wanted xs r h);
  forward = omega arith;
  above = inl refl;
}
take-Prefix low start base high (suc n) wanted [] r h = record {
  exact = refl;
  forward = omega arith;
  above = inl refl;
}
take-Prefix low start base high (suc n) wanted (x ∷ xs) r h =
    let skipped =
      take-Prefix low start x.event.sequence high (suc n) wanted xs r.1 (omega (arith, h, r.0)) in
    elim (Bool-cases (ltb low x.event.sequence && wanted x.event)) [
      | inl picked ↦
          let next = x.event.sequence in
          let rest = take-Prefix low next next high n wanted xs r.1 (omega arith) in
          let head = between_pick low _ wanted x xs picked rest.forward in
          let k : Prefix low start wanted (x ∷ xs)
              (x.event ∷ take n (select (λ e. ltb low e.sequence && wanted e) xs)) =
            record {
              exact = ap (λ es. x.event ∷ es) rest.exact ∙ sym head.1;
              forward = omega (arith, h, r.0, rest.forward);
              above = inr (omega (arith, head.0, rest.forward));
            } in
          simp picked k
      | inr left ↦
          let k : Prefix low start wanted (x ∷ xs)
              (take (suc n) (select (λ e. ltb low e.sequence && wanted e) xs)) =
            record {
              exact = skipped.exact ∙ sym (between_skip low _ wanted x xs left);
              forward = skipped.forward;
              above = skipped.above;
            } in
          simp left k
    ]
