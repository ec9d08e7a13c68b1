-- ===== src/Media.antt =====
-- The credits of media sources in src/media.rs: what a producer may still send, and what it gets
-- back when a delivery is over.
pub mod Credit
use vvmux.Prelude.{
  ℕ, ◌+◌, ◌-◌, Bool, true, false, ◌&&◌, ◌||◌, Option, none, some, List, [], ◌∷◌, ltb, ◌==◌,
  if◌then◌else◌,
}
use vvmux.Prelude.Word.{u64_max, saturating_add}

-- A producer and a source of it.
abbrev pub SourceKey : Type 0
SourceKey = ℕ × ℕ

unfoldable pub same_key : SourceKey → SourceKey → Bool
same_key a b = a.0 == b.0 && a.1 == b.1

-- The fields of `Source` that account for credits.
pub record Source : Type 0 where
  pub credit_window_bytes : ℕ
  pub credit_window_packets : ℕ
  pub outstanding_byte_credit : ℕ
  pub outstanding_packet_credit : ℕ
  pub charged_bytes : ℕ
  pub charged_packets : ℕ

pub record PendingDelivery : Type 0 where
  pub source : SourceKey
  pub credit_bytes : ℕ
  pub queued_bytes : ℕ

-- The fields of `State` that the credits use, with the maps as lists.
pub record State : Type 0 where
  pub sources : List (SourceKey × Source)
  pub projected_sources : List SourceKey
  pub deliveries : List (ℕ × PendingDelivery)
  pub queued_bridge_bytes : ℕ

-- `Credits` of a message; the fragments are always 0.
pub record Credits : Type 0 where
  pub bytes : ℕ
  pub packets : ℕ
  pub fragments : ℕ

pub data CreditError : Type 0 where
  no_source exceeds_credit bytes_overflow packets_overflow : CreditError

unfoldable pub get_source : SourceKey → List (SourceKey × Source) → Option Source
get_source key [] = none
get_source key ((k, s) ∷ rest) =
    let later = get_source key rest in if same_key key k then some s else later

unfoldable pub put_source :
    SourceKey → Source → List (SourceKey × Source) → List (SourceKey × Source)
put_source key s [] = []
put_source key s ((k, s') ∷ rest) =
    let later = put_source key s rest in if same_key key k then (k, s) ∷ rest else (k, s') ∷ later

unfoldable pub is_projected : SourceKey → List SourceKey → Bool
is_projected key [] = false
is_projected key (k ∷ rest) = same_key key k || is_projected key rest

-- `consume_source_credit` on the source that was found. What an error leaves is kept.
unfoldable pub charge : Source → ℕ → Source × Option CreditError
charge s bytes =
    let taken : Source = record s {
      outstanding_byte_credit = s.outstanding_byte_credit - bytes;
      outstanding_packet_credit = s.outstanding_packet_credit - 1;
    } in
    let charged : Source = record taken { charged_bytes = s.charged_bytes + bytes } in
    if bytes == 0 || ltb s.outstanding_byte_credit bytes || s.outstanding_packet_credit == 0
    then (s, some exceeds_credit)
    else if ltb u64_max (s.charged_bytes + bytes)
    then (taken, some bytes_overflow)
    else if ltb u64_max (s.charged_packets + 1)
    then (charged, some packets_overflow)
    else (record charged { charged_packets = s.charged_packets + 1 }, none)

unfoldable pub consume_source_credit : State → SourceKey → ℕ → State × Option CreditError
consume_source_credit state key bytes = elim (get_source key state.sources) [
  | none ↦ (state, some no_source)
  | some s ↦ (
    record state { sources = put_source key (charge s bytes).0 state.sources },
    (charge s bytes).1,
  )
]

-- The bytes and packets move back from charged to outstanding.
unfoldable pub give_back : Source → ℕ → ℕ → Source
give_back s bytes packets = record s {
  charged_bytes = s.charged_bytes - bytes;
  charged_packets = s.charged_packets - packets;
  outstanding_byte_credit = saturating_add u64_max s.outstanding_byte_credit bytes;
  outstanding_packet_credit = saturating_add u64_max s.outstanding_packet_credit packets;
}

-- What the window still lacks.
unfoldable pub top_up_bytes : Source → ℕ
top_up_bytes s =
    s.credit_window_bytes - saturating_add u64_max s.outstanding_byte_credit s.charged_bytes

unfoldable pub top_up_packets : Source → ℕ
top_up_packets s =
    s.credit_window_packets - saturating_add u64_max s.outstanding_packet_credit s.charged_packets

unfoldable pub top_up : Source → Source
top_up s = record s {
  outstanding_byte_credit = saturating_add u64_max s.outstanding_byte_credit (top_up_bytes s);
  outstanding_packet_credit = saturating_add u64_max s.outstanding_packet_credit (top_up_packets s);
}

-- `prepare_credit_return` on the source that was found.
unfoldable pub refund : Bool → Source → ℕ → ℕ → Source × Credits
refund projected s bytes packets =
    let given = give_back s bytes packets in
    if ltb s.charged_bytes bytes || ltb s.charged_packets packets
    then (s, record { bytes = 0; packets = 0; fragments = 0 })
    else if projected
    then (
      top_up given,
      record {
        bytes = saturating_add u64_max bytes (top_up_bytes given);
        packets = saturating_add u64_max packets (top_up_packets given);
        fragments = 0;
      },
    )
    else (given, record { bytes = bytes; packets = packets; fragments = 0 })

unfoldable pub prepare_credit_return : State → SourceKey → ℕ → ℕ → State × Credits
prepare_credit_return state key bytes packets = elim (get_source key state.sources) [
  | none ↦ (state, record { bytes = bytes; packets = packets; fragments = 0 })
  | some s ↦
      let refunded = refund (is_projected key state.projected_sources) s bytes packets in
      (record state { sources = put_source key refunded.0 state.sources }, refunded.1)
]

-- `deliveries.remove`
unfoldable pub remove_delivery :
    ℕ → List (ℕ × PendingDelivery) → Option (PendingDelivery × List (ℕ × PendingDelivery))
remove_delivery id [] = none
remove_delivery id ((i, d) ∷ rest) =
    let later = remove_delivery id rest in
    if id == i
    then some (d, rest)
    else elim later as (λ _. Option (PendingDelivery × List (ℕ × PendingDelivery))) [
      | none ↦ none
      | some (found, others) ↦ some (found, (i, d) ∷ others)
    ]

-- `take_deliveries`, with the credits to write for each source.
unfoldable pub take_deliveries : State → List ℕ → State × List (SourceKey × Credits)
take_deliveries state [] = (state, [])
take_deliveries state (id ∷ ids) = elim (remove_delivery id state.deliveries) [
  | none ↦ take_deliveries state ids
  | some (pending, others) ↦
      let returned =
        prepare_credit_return
          (record state {
            deliveries = others;
            queued_bridge_bytes = state.queued_bridge_bytes - pending.queued_bytes;
          })
          pending.source pending.credit_bytes 1 in
      let rest = take_deliveries returned.0 ids in (rest.0, (pending.source, returned.1) ∷ rest.1)
]
