-- ===== src/Trace/Follow.antt =====
-- The loop of `run_trace_follow` of src/automation.rs over the journal of src/media_trace.rs.
use mathlib.Core.List.{cons≢nil}
use vvmux.Prelude.{
  ℕ, zero, suc, ◌-◌, ◌≤◌, ◌≡◌, refl, sym, ap, subst, ◌∙◌, min, max, Bool, ◌&&◌, Option, none, some,
  List, [], ◌∷◌, ◌++◌, length, length-append, take, arith, inl, inr,
}
use vvmux.Trace.{
  MediaTraceEvent, MediaTraceFilter, MediaTraceJournal, is_wanted, in_pane, matches, select, query,
  last_sequence, next_after, follow, requested_of, oldest_of, max_media_trace_query_events,
  MediaTraceBatch,
}
use vvmux.Prelude.Word.{u64_max, saturating_add}
use vvmux.Trace.Valid.{IsValid, Rises, Rises-le, Rises-higher}
use vvmux.Trace.Query.{
  between, select-between, select-split, Prefix, take-Prefix, bound, bound-last_sequence,
}

length-zero : {A : Type 0} (xs : List A) → length xs ≤ 0 → xs ≡ []
length-zero [] h = refl
length-zero (x ∷ xs) h = absurd (ground (arith, h))

length-rest :
    {A : Type 0} (n : ℕ) (first rest whole : List A)
    → (whole ≡ first ++ rest)
    → length whole ≤ suc n
    → (first ≡ [] → whole ≡ [])
    → length rest ≤ n
length-rest n [] rest whole e h ends =
    let nothing : rest ≡ [] = sym e ∙ ends refl in omega (arith, ap length nothing)
length-rest n (x ∷ first) rest whole e h ends =
    omega (arith, h, ap length e, length-append first rest)

take-nothing : {A : Type 0} → (n : ℕ) (xs : List A) → 1 ≤ n → (take n xs ≡ []) → xs ≡ []
take-nothing n [] h e = refl
take-nothing zero (x ∷ xs) h e = absurd (ground (arith, h))
take-nothing (suc n) (x ∷ xs) h e = absurd (cons≢nil e)

module _ (j : MediaTraceJournal) (limit : ℕ) (pane : Option ℕ) (f : MediaTraceFilter) where
  abbrev pub wanted_events : ℕ → List MediaTraceEvent
  wanted_events low = select (is_wanted low pane f) j.events

  -- The filter without the cursor.
  abbrev pub wanted : MediaTraceEvent → Bool
  wanted e = in_pane pane e && matches f e

  abbrev pub turn : Option ℕ → MediaTraceBatch
  turn after = query j after limit pane f

  -- The cursor before a turn.
  abbrev pub low : Option ℕ → ℕ
  low after = requested_of j after

  pub low-le : IsValid j → low none ≤ j.next_sequence
  unfolding requested_of oldest_of
  low-le v =
      elim j.events
          as (λ xs.
            Rises 0 j.next_sequence xs
            → (elim xs as (λ _. ℕ) [
              | [] ↦ saturating_add u64_max j.next_sequence 1
              | s ∷ _ ↦ s.event.sequence
            ])
                - 1
              ≤ j.next_sequence) [
                | [] ↦ λ r. ground arith
                | s ∷ rest ↦ λ r. omega (arith, Rises-le s.event.sequence j.next_sequence rest r.1)
              ]
        v.ordered

  abbrev next_of : Option ℕ → List MediaTraceEvent → ℕ
  next_of after events = elim (last_sequence events) [
    | none ↦ max (elim after as (λ _. ℕ) [ none ↦ j.next_sequence | some a ↦ a ]) j.next_sequence
    | some sequence ↦ sequence
  ]

  next_of_nothing : (after : Option ℕ) → IsValid j → low after ≤ next_of after []
  unfolding last_sequence requested_of
  next_of_nothing none v = omega (arith, low-le v)
  next_of_nothing (some a) v = omega arith

  newest-le : (after : Option ℕ) → j.next_sequence ≤ next_of after []
  unfolding last_sequence
  newest-le after = omega arith

  -- What a turn does that writes `events`.
  abbrev Turn : Option ℕ → List MediaTraceEvent → Type 0
  Turn after events =
      (events ≡ between (low after) (next_of after events) wanted j.events)
      × (low after ≤ next_of after events)

  query-Turn :
      (after : Option ℕ) (events : List MediaTraceEvent)
      → IsValid j
      → Prefix (low after) 0 wanted j.events events
      → (events ≡ [] → wanted_events (low after) ≡ [])
      → Turn after events
  unfolding is_wanted last_sequence
  query-Turn after [] v p ends = (
    sym (ends refl)
        ∙ select-between (low after) 0 (next_of after []) wanted j.events
            (Rises-higher 0 j.next_sequence _ j.events (newest-le after) v.ordered),
    next_of_nothing after v,
  )
  query-Turn after (e ∷ es) v p ends =
      let next : next_of after (e ∷ es) ≡ bound 0 (e ∷ es) =
        rw (next_of, bound-last_sequence 0 e es) refl in
      (
        subst (λ c. e ∷ es ≡ between (low after) c wanted j.events) (sym next) p.exact,
        elim p.above [
          | inl nothing ↦ absurd (cons≢nil nothing)
          | inr above ↦ omega (arith, above, next)
        ],
      )

  -- With a limit, a turn writes nothing only when nothing is left.
  query-ends :
      (after : Option ℕ) → 1 ≤ limit → ((turn after).events ≡ []) → wanted_events (low after) ≡ []
  unfolding query
  query-ends after h =
      take-nothing (min limit max_media_trace_query_events) (wanted_events (low after))
        (omega (arith, h))

  -- On a valid journal and with a limit of at least 1, a turn writes exactly the retained events that
  -- pass the filters with a sequence number above the cursor before it and up to the cursor after it,
  -- and the cursor does not go back.
  pub query-exact :
      (after : Option ℕ)
      → 1 ≤ limit
      → IsValid j
      → ((turn after).events ≡ between (low after) (next_after after (turn after)) wanted j.events)
        × (low after ≤ next_after after (turn after))
  unfolding query next_after is_wanted
  query-exact after h v =
      let n = min limit max_media_trace_query_events in
      let events = take n (wanted_events (low after)) in
      query-Turn after events v
        (take-Prefix (low after) 0 0 j.next_sequence n wanted j.events v.ordered (omega arith))
        (query-ends after h)

  remaining :
      (after : Option ℕ) (next : ℕ)
      → IsValid j
      → low after ≤ next
      → wanted_events (low after)
        ≡ between (low after) next wanted j.events ++ wanted_events (low (some next))
  unfolding is_wanted requested_of
  remaining after next v h =
      select-split (low after) 0 j.next_sequence next wanted j.events v.ordered h

  -- On a valid journal that does not change and with a limit of at least 1, a follower that takes at
  -- least as many turns as there are retained events above its cursor that pass the filters writes
  -- exactly these events, each once and in order.
  pub follow-all :
      (rounds : ℕ) (after : Option ℕ)
      → 1 ≤ limit
      → IsValid j
      → length (wanted_events (low after)) ≤ rounds
      → follow rounds j after limit pane f ≡ wanted_events (low after)
  unfolding follow
  follow-all zero after h v enough = sym (length-zero (wanted_events (low after)) enough)
  follow-all (suc rounds) after h v enough =
      let t = query-exact after h v in
      let next = next_after after (turn after) in
      let whole : wanted_events (low after)
          ≡ (turn after).events ++ wanted_events (low (some next)) =
        remaining after next v t.1 ∙ ap (λ es. es ++ wanted_events (low (some next))) (sym t.0) in
      let fewer = length-rest rounds (turn after).events _ _ whole enough (query-ends after h) in
      ap (λ es. (turn after).events ++ es) (follow-all rounds (some next) h v fewer) ∙ sym whole
