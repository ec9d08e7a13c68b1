-- ===== src/Trace.antt =====
-- The bounded journal of src/media_trace.rs, with the loop of `run_trace_follow` of
-- src/automation.rs that reads it. The length of an event's JSON text is serde's and is an argument.
pub mod Kind
pub mod Valid
pub mod Query
pub mod Follow
use vvmux.Prelude.{
  ℕ, zero, suc, ◌+◌, ◌-◌, min, max, Bool, true, false, not, ◌&&◌, ◌||◌, Option, none, some, List,
  [], ◌∷◌, ◌++◌, map, length, take, ltb, leb, ◌==◌, if◌then◌else◌,
}
use vvmux.Prelude.Word.{u64_max, saturating_add}
use vvmux.Ipc.Media.{BridgeSourceKey}
use Kind.{MediaTraceCategory, MediaTraceKind, category, is_recovery, same_category}

abbrev pub max_media_trace_events : ℕ
max_media_trace_events = 4096

abbrev pub max_media_trace_bytes : ℕ
max_media_trace_bytes = 2097152

abbrev pub max_media_trace_query_events : ℕ
max_media_trace_query_events = 512

pub record MediaTraceEvent : Type 0 where
  pub sequence : ℕ
  pub monotonic_us : ℕ
  pub origin_monotonic_us : Option ℕ
  pub pane_id : Option ℕ
  pub virtual_source : Option BridgeSourceKey
  pub bridge_instance_id : Option ℕ
  pub kind : MediaTraceKind

pub record MediaTraceFilter : Type 0 where
  pub producer_id : Option ℕ
  pub source_id : Option ℕ
  pub category_only : Option MediaTraceCategory
  pub recovery_only : Bool

-- `wanted` is absent or equal to the number that is there.
unfoldable pub agrees : Option ℕ → Option ℕ → Bool
agrees none actual = true
agrees (some w) none = false
agrees (some w) (some a) = w == a

unfoldable pub matches : MediaTraceFilter → MediaTraceEvent → Bool
matches f e =
    if f.recovery_only && not (is_recovery e.kind)
    then false
    else if elim f.category_only [ none ↦ false | some c ↦ not (same_category (category e.kind) c) ]
    then false
    else if not
        (agrees f.producer_id (elim e.virtual_source [ none ↦ none | some s ↦ some s.producer ]))
    then false
    else agrees f.source_id (elim e.virtual_source [ none ↦ none | some s ↦ some s.source ])

pub record MediaTraceGap : Type 0 where
  pub requested_sequence : ℕ
  pub oldest_sequence : ℕ
  pub current_sequence : ℕ

pub record MediaTraceBatch : Type 0 where
  pub oldest_sequence : ℕ
  pub current_sequence : ℕ
  pub gap : Option MediaTraceGap
  pub events : List MediaTraceEvent

pub record StoredEvent : Type 0 where
  pub bytes : ℕ
  pub event : MediaTraceEvent

pub record MediaTraceJournal : Type 0 where
  pub next_sequence : ℕ
  pub bytes : ℕ
  pub events : List StoredEvent
  pub maximum_events : ℕ
  pub maximum_bytes : ℕ

unfoldable pub with_limits : ℕ → ℕ → MediaTraceJournal
with_limits maximum_events maximum_bytes = record {
  next_sequence = 0;
  bytes = 0;
  events = [];
  maximum_events = maximum_events;
  maximum_bytes = maximum_bytes;
}

-- The loop that drops the oldest events, with the bytes that are left.
unfoldable pub evict : ℕ → ℕ → ℕ → List StoredEvent → ℕ × List StoredEvent
evict maximum_events maximum_bytes bytes [] = (bytes, [])
evict maximum_events maximum_bytes bytes (s ∷ rest) =
    let dropped = evict maximum_events maximum_bytes (bytes - s.bytes) rest in
    if ltb maximum_events (length (s ∷ rest)) || ltb maximum_bytes bytes
    then dropped
    else (bytes, s ∷ rest)

-- The arguments of `push`, with the time that the clock shows.
pub record Entry : Type 0 where
  pub monotonic_us : ℕ
  pub pane_id : Option ℕ
  pub virtual_source : Option BridgeSourceKey
  pub bridge_instance_id : Option ℕ
  pub origin_monotonic_us : Option ℕ
  pub kind : MediaTraceKind

unfoldable pub event_of : ℕ → Entry → MediaTraceEvent
event_of sequence e = record {
  sequence = sequence;
  monotonic_us = min e.monotonic_us u64_max;
  origin_monotonic_us = e.origin_monotonic_us;
  pane_id = e.pane_id;
  virtual_source = e.virtual_source;
  bridge_instance_id = e.bridge_instance_id;
  kind = e.kind;
}

-- `encoded` is the length of the event's JSON text.
unfoldable pub push : (MediaTraceEvent → ℕ) → MediaTraceJournal → Entry → MediaTraceJournal
push encoded j e =
    let sequence = saturating_add u64_max j.next_sequence 1 in
    let event = event_of sequence e in
    let bytes = encoded event in
    let stored : StoredEvent = record { bytes = bytes; event = event } in
    let kept =
      evict j.maximum_events j.maximum_bytes (saturating_add u64_max j.bytes bytes)
        (j.events ++ (stored ∷ [])) in
    if ltb j.maximum_bytes bytes
    then record j { next_sequence = sequence }
    else record j { next_sequence = sequence; bytes = kept.0; events = kept.1 }

unfoldable pub oldest_of : MediaTraceJournal → ℕ
oldest_of j = elim j.events [
  | [] ↦ saturating_add u64_max j.next_sequence 1
  | s ∷ _ ↦ s.event.sequence
]

unfoldable pub in_pane : Option ℕ → MediaTraceEvent → Bool
in_pane none e = true
in_pane (some pane) e = elim e.pane_id [ none ↦ true | some p ↦ p == pane ]

-- The three filters of `query`.
unfoldable pub is_wanted : ℕ → Option ℕ → MediaTraceFilter → MediaTraceEvent → Bool
is_wanted requested pane f e = ltb requested e.sequence && (in_pane pane e && matches f e)

unfoldable pub select : (MediaTraceEvent → Bool) → List StoredEvent → List MediaTraceEvent
select wanted [] = []
select wanted (s ∷ rest) =
    let later = select wanted rest in if wanted s.event then s.event ∷ later else later

unfoldable pub requested_of : MediaTraceJournal → Option ℕ → ℕ
requested_of j none = oldest_of j - 1
requested_of j (some after) = after

unfoldable pub gap_of : MediaTraceJournal → Option ℕ → Option MediaTraceGap
gap_of j none = none
gap_of j (some after) =
    if ltb after (oldest_of j - 1)
    then some (record {
      requested_sequence = after;
      oldest_sequence = oldest_of j;
      current_sequence = j.next_sequence;
    })
    else none

unfoldable pub query :
    MediaTraceJournal → Option ℕ → ℕ → Option ℕ → MediaTraceFilter → MediaTraceBatch
query j after limit pane f = record {
  oldest_sequence = oldest_of j;
  current_sequence = j.next_sequence;
  gap = gap_of j after;
  events =
      take (min limit max_media_trace_query_events)
        (select (is_wanted (requested_of j after) pane f) j.events);
}

unfoldable pub last_sequence : List MediaTraceEvent → Option ℕ
last_sequence [] = none
last_sequence (e ∷ []) = some e.sequence
last_sequence (e ∷ e' ∷ es) = last_sequence (e' ∷ es)

-- The cursor of `run_trace_follow` after a batch.
unfoldable pub next_after : Option ℕ → MediaTraceBatch → ℕ
next_after after batch = elim (last_sequence batch.events) [
  | none ↦
      max (elim after as (λ _. ℕ) [ none ↦ batch.current_sequence | some a ↦ a ])
        batch.current_sequence
  | some sequence ↦ sequence
]

-- `rounds` turns of the loop of `run_trace_follow` on one journal: the events that it writes.
unfoldable pub follow :
    ℕ → MediaTraceJournal → Option ℕ → ℕ → Option ℕ → MediaTraceFilter → List MediaTraceEvent
follow zero j after limit pane f = []
follow (suc rounds) j after limit pane f =
    let batch = query j after limit pane f in
    batch.events ++ follow rounds j (some (next_after after batch)) limit pane f
