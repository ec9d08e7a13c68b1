-- ===== src/Trace/Valid.antt =====
-- The invariant of the journal of src/media_trace.rs.
use vvmux.Prelude.{
  ℕ, suc, ◌+◌, ◌*◌, ◌-◌, ◌≤◌, ◌<◌, ◌≡◌, refl, sym, subst, ◌||◌, List, [], ◌∷◌, ◌++◌, length, arith,
  ltb, Bool-cases, inl, inr,
}
use vvmux.Prelude.Word.{u64_max, saturating_add}
use vvmux.Trace.{
  MediaTraceEvent, StoredEvent, MediaTraceJournal, with_limits, evict, Entry, event_of, push,
}

abbrev pub total_bytes : List StoredEvent → ℕ
total_bytes [] = 0
total_bytes (s ∷ rest) = s.bytes + total_bytes rest

-- The sequence numbers rise, from above `low` and up to `high`.
abbrev pub Rises : ℕ → ℕ → List StoredEvent → Type 0
Rises low high [] = low ≤ high
Rises low high (s ∷ rest) = (low < s.event.sequence) × Rises s.event.sequence high rest

-- The counted bytes are those of the events, both limits hold, and the sequence numbers rise up to
-- the newest one given.
pub record IsValid (j : MediaTraceJournal) : Type 0 where
  pub counted : j.bytes ≡ total_bytes j.events
  pub few_events : length j.events ≤ j.maximum_events
  pub few_bytes : j.bytes ≤ j.maximum_bytes
  pub ordered : Rises 0 j.next_sequence j.events

pub with_limits-IsValid : (events bytes : ℕ) → IsValid (with_limits events bytes)
unfolding with_limits
with_limits-IsValid events bytes = record {
  counted = refl;
  few_events = omega arith;
  few_bytes = omega arith;
  ordered = omega arith;
}

total_bytes-append :
    (xs ys : List StoredEvent) → total_bytes (xs ++ ys) ≡ total_bytes xs + total_bytes ys
total_bytes-append [] ys = omega arith
total_bytes-append (x ∷ xs) ys = omega (arith, total_bytes-append xs ys)

pub Rises-le : (low high : ℕ) (xs : List StoredEvent) → Rises low high xs → low ≤ high
Rises-le low high [] r = r
Rises-le low high (x ∷ xs) r = omega (arith, r.0, Rises-le x.event.sequence high xs r.1)

pub Rises-lower :
    (low low' high : ℕ) (xs : List StoredEvent)
    → low' ≤ low
    → Rises low high xs
    → Rises low' high xs
Rises-lower low low' high [] h r = omega (arith, h, r)
Rises-lower low low' high (x ∷ xs) h r = (omega (arith, h, r.0), r.1)

pub Rises-higher :
    (low high high' : ℕ) (xs : List StoredEvent)
    → high ≤ high'
    → Rises low high xs
    → Rises low high' xs
Rises-higher low high high' [] h r = omega (arith, h, r)
Rises-higher low high high' (x ∷ xs) h r = (r.0, Rises-higher x.event.sequence high high' xs h r.1)

Rises-snoc :
    (low high : ℕ) (xs : List StoredEvent) (s : StoredEvent)
    → s.event.sequence ≡ suc high
    → Rises low high xs
    → Rises low (suc high) (xs ++ (s ∷ []))
Rises-snoc low high [] s e r = (omega (arith, e, r), omega (arith, e))
Rises-snoc low high (x ∷ xs) s e r = (r.0, Rises-snoc x.event.sequence high xs s e r.1)

-- What the loop that drops events leaves: a tail of the list, with its bytes, within the limits.
pub record Evicted (low high maximum_events maximum_bytes : ℕ) (kept : ℕ × List StoredEvent)
    : Type 0 where
  pub counted : kept.0 ≡ total_bytes kept.1
  pub few_events : length kept.1 ≤ maximum_events
  pub few_bytes : kept.0 ≤ maximum_bytes
  pub ordered : Rises low high kept.1

evict-Evicted :
    (maximum_events maximum_bytes bytes low high : ℕ) (xs : List StoredEvent)
    → bytes ≡ total_bytes xs
    → Rises low high xs
    → Evicted low high maximum_events maximum_bytes (evict maximum_events maximum_bytes bytes xs)
unfolding evict
evict-Evicted me mb bytes low high [] e r = record {
  counted = e;
  few_events = omega arith;
  few_bytes = omega (arith, e);
  ordered = r;
}
evict-Evicted me mb bytes low high (x ∷ xs) e r =
    elim (Bool-cases (ltb me (length (x ∷ xs)) || ltb mb bytes)) [
      | inl over ↦ simp over (
          evict-Evicted me mb (bytes - x.bytes) low high xs (omega (arith, e))
            (Rises-lower x.event.sequence low high xs (omega (arith, r.0)) r.1))
      | inr within ↦
          let k : Evicted low high me mb (bytes, x ∷ xs) = record {
            counted = e;
            few_events = ground (arith, within);
            few_bytes = ground (arith, within);
            ordered = r;
          } in
          simp within k
    ]

abbrev pushed : MediaTraceJournal → ℕ → ℕ × List StoredEvent → MediaTraceJournal
pushed j sequence kept = record j { next_sequence = sequence; bytes = kept.0; events = kept.1 }

-- `push` keeps the invariant: the event gets the next sequence number, and what has to go goes from
-- the old end. An event that is too large only uses up its number.
pub push-IsValid :
    (encoded : MediaTraceEvent → ℕ) (j : MediaTraceJournal) (e : Entry)
    → j.next_sequence < u64_max
    → 2 * j.maximum_bytes ≤ u64_max
    → IsValid j
    → IsValid (push encoded j e) × ((push encoded j e).next_sequence ≡ suc j.next_sequence)
unfolding push event_of
push-IsValid encoded j e h h' v =
    let sequence = saturating_add u64_max j.next_sequence 1 in
    let event = event_of sequence e in
    let stored : StoredEvent = record { bytes = encoded event; event = event } in
    let next : sequence ≡ suc j.next_sequence = ground (arith, h) in
    elim (Bool-cases (ltb j.maximum_bytes (encoded event))) [
      | inl large ↦
          let r : IsValid (record j { next_sequence = sequence }) = record {
            counted = v.counted;
            few_events = v.few_events;
            few_bytes = v.few_bytes;
            ordered =
                Rises-higher 0 j.next_sequence sequence j.events (omega (arith, next)) v.ordered;
          } in
          simp large (r, next)
      | inr fits ↦
          let small : encoded event ≤ j.maximum_bytes = ground (arith, fits) in
          let sum : saturating_add u64_max j.bytes (encoded event)
              ≡ total_bytes (j.events ++ (stored ∷ [])) =
            omega (
              arith,
              total_bytes-append j.events (stored ∷ []),
              small,
              v.counted,
              v.few_bytes,
              h',
            ) in
          let rise : Rises 0 (suc j.next_sequence) (j.events ++ (stored ∷ [])) =
            Rises-snoc 0 j.next_sequence j.events stored next v.ordered in
          let kept =
            evict j.maximum_events j.maximum_bytes (saturating_add u64_max j.bytes (encoded event))
              (j.events ++ (stored ∷ [])) in
          let k =
            evict-Evicted j.maximum_events j.maximum_bytes _ 0 (suc j.next_sequence)
              (j.events ++ (stored ∷ [])) sum rise in
          let r : IsValid (pushed j sequence kept) = record {
            counted = k.counted;
            few_events = k.few_events;
            few_bytes = k.few_bytes;
            ordered = subst (λ (n : ℕ). Rises 0 n kept.1) (sym next) k.ordered;
          } in
          simp fits (r, next)
    ]
