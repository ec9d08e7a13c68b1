-- ===== src/Tests/Journals.antt =====
-- Concrete journals for the theorems on src/media_trace.rs.
use vvmux.Prelude.{ℕ, suc, ◌≤◌, ◌≡◌, refl, false, none, some, map, [], ◌∷◌, arith}
use vvmux.Trace.{
  MediaTraceEvent, MediaTraceFilter, MediaTraceJournal, with_limits, Entry, push, query, follow,
  event_of, evict, last_sequence, select, is_wanted, in_pane, matches, requested_of, oldest_of,
  agrees, next_after,
}
use vvmux.Trace.Kind.{snapshot_retry}
use vvmux.Trace.Valid.{IsValid, with_limits-IsValid, push-IsValid}
use vvmux.Trace.Query.{between}
use vvmux.Trace.Follow.{wanted_events, wanted, turn, low, query-exact, follow-all}

abbrev entry : ℕ → Entry
entry pane = record {
  monotonic_us = 5;
  pane_id = some pane;
  virtual_source = none;
  bridge_instance_id = none;
  origin_monotonic_us = none;
  kind = snapshot_retry;
}

-- Room for two events of 30 bytes.
abbrev empty : MediaTraceJournal
empty = with_limits 4 70

abbrev encoded : MediaTraceEvent → ℕ
encoded e = 30

abbrev one : MediaTraceJournal
one = push encoded empty (entry 1)

abbrev two : MediaTraceJournal
two = push encoded one (entry 1)

-- The first event had to go.
abbrev three : MediaTraceJournal
three = push encoded two (entry 2)

push-IsValid_example :
    IsValid (push encoded empty (entry 1))
    × ((push encoded empty (entry 1)).next_sequence ≡ suc empty.next_sequence)
unfolding with_limits
push-IsValid_example =
    push-IsValid encoded empty (entry 1) (omega arith) (omega arith) (with_limits-IsValid 4 70)

one-IsValid : IsValid one
unfolding with_limits
one-IsValid =
    (push-IsValid encoded empty (entry 1) (omega arith) (omega arith) (with_limits-IsValid 4 70)).0

two-IsValid : IsValid two
unfolding with_limits push event_of evict
two-IsValid = (push-IsValid encoded one (entry 1) (omega arith) (omega arith) one-IsValid).0

three-IsValid : IsValid three
unfolding with_limits push event_of evict
three-IsValid = (push-IsValid encoded two (entry 2) (omega arith) (omega arith) two-IsValid).0

abbrev anything : MediaTraceFilter
anything = record {
  producer_id = none;
  source_id = none;
  category_only = none;
  recovery_only = false;
}

-- From the first event, that is gone, one at a time.
query-exact_example :
    ((turn three 1 (some 2) anything (some 0)).events
      ≡ between
          (low three 1 (some 2) anything (some 0))
          (next_after (some 0) (turn three 1 (some 2) anything (some 0)))
          (wanted three 1 (some 2) anything)
          three.events)
    × (low three 1 (some 2) anything (some 0)
        ≤ next_after (some 0) (turn three 1 (some 2) anything (some 0)))
query-exact_example = query-exact three 1 (some 2) anything (some 0) (omega arith) three-IsValid

follow-all_example :
    follow 2 three none 1 none anything
    ≡ wanted_events three 1 none anything (low three 1 none anything none)
unfolding with_limits push event_of evict select is_wanted in_pane matches requested_of oldest_of
    agrees
follow-all_example =
    follow-all three 1 none anything 2 none (omega arith) three-IsValid (omega arith)

three_rows :
    map {A = MediaTraceEvent} (λ e. e.sequence) (follow 2 three none 1 none anything) ≡ 2 ∷ 3 ∷ []
unfolding with_limits push event_of evict follow query next_after last_sequence select is_wanted
    in_pane matches requested_of oldest_of agrees
three_rows = refl
