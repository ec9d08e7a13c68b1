-- ===== src/Ipc/Preface.antt =====
-- The connection preface of src/ipc.rs: `ChannelKind`, `encode_preface`, `decode_preface` and what
-- `establish` makes of the peer's twelve bytes.
use Prim.Native.Nat.{min}
use vvmux.Prelude.{
  ℕ, ◌≤◌, ◌≡◌, refl, subst, Bool, true, false, ◌||◌, [], ◌∷◌, ◌++◌, length, arith, ltb, ◌==◌, not,
  if◌then◌else◌,
}
use vvmux.Ipc.Bytes.{Bytes, be16, be32, from_be, slice, be32-round_trip}
use vvmux.Ipc.Result.{
  IoResult, ok, err, ◌>>=◌, ◌>>◌, reject, bad_magic, version_mismatch, reserved_byte,
  unknown_channel, invalid_maximum, channel_mismatch,
}
use vvmux.Ipc.Record.{RecordReader, RecordWriter, read_exact}
use vvmux.Ipc.Record.Framing.{read_exact-append}

pub data ChannelKind : Type 0 where
  control bulk : ChannelKind

unfoldable pub as_byte : ChannelKind → ℕ
as_byte control = 1
as_byte bulk = 2

unfoldable pub from_byte : ℕ → IoResult ChannelKind
from_byte value =
    if value == 1 then ok control else if value == 2 then ok bulk else err unknown_channel

-- `CONTROL_MAX_BODY` and `BULK_MAX_BODY`
unfoldable pub maximum : ChannelKind → ℕ
maximum control = 1048576
maximum bulk = 67108864

abbrev pub version : ℕ
version = 9

abbrev pub magic : Bytes
magic = 86 ∷ 86 ∷ 77 ∷ 88 ∷ []

same_bytes : Bytes → Bytes → Bool
same_bytes [] [] = true
same_bytes [] (y ∷ ys) = false
same_bytes (x ∷ xs) [] = false
same_bytes (x ∷ xs) (y ∷ ys) = if x == y then same_bytes xs ys else false

unfoldable pub encode_preface : ChannelKind → ℕ → Bytes
encode_preface channel maximum_body =
    magic ++ (be16 version ++ (as_byte channel ∷ 0 ∷ be32 maximum_body))

unfoldable pub decode_preface : Bytes → IoResult (ChannelKind × ℕ)
unfolding same_bytes
decode_preface preface = do
  reject (not (same_bytes (slice 0 4 preface) magic)) bad_magic
  reject (not (from_be 0 (slice 4 2 preface) == version)) version_mismatch
  reject (not (from_be 0 (slice 7 1 preface) == 0)) reserved_byte
  channel ← from_byte (from_be 0 (slice 6 1 preface))
  let body = from_be 0 (slice 8 4 preface)
  reject ((body == 0) || ltb (maximum channel) body) invalid_maximum
  ok (channel, body)

same_channel : ChannelKind → ChannelKind → Bool
same_channel control control = true
same_channel control bulk = false
same_channel bulk control = false
same_channel bulk bulk = true

-- The reader and the writer that `establish` leaves, from what the peer sends and what was
-- written before; the writer's stream starts with the preface.
unfoldable pub establish : Bytes → Bytes → ChannelKind → IoResult (RecordReader × RecordWriter)
unfolding same_channel
establish incoming outgoing channel = do
  let sent = outgoing ++ encode_preface channel (maximum channel)
  (peer, rest) ← read_exact 12 incoming
  (peer_channel, peer_maximum) ← decode_preface peer
  reject (not (same_channel peer_channel channel)) channel_mismatch
  let agreed = min (maximum channel) peer_maximum
  ok (
    record { stream = rest; expected_sequence = 0; maximum_body = agreed },
    record { stream = sent; next_sequence = 0; maximum_body = agreed },
  )

maximum-bounds : (channel : ChannelKind) → (1 ≤ maximum channel) × (maximum channel ≤ 67108864)
unfolding maximum
maximum-bounds control = (omega arith, omega arith)
maximum-bounds bulk = (omega arith, omega arith)

length-encode_preface :
    (channel : ChannelKind) (limit : ℕ) → length (encode_preface channel limit) ≡ 12
unfolding encode_preface be16 be32
length-encode_preface channel limit = refl

-- A peer reads back the channel and the limit of a preface, for every limit that the channel allows.
pub decode_preface-encode_preface :
    (channel : ChannelKind) (limit : ℕ)
    → 1 ≤ limit
    → limit ≤ maximum channel
    → decode_preface (encode_preface channel limit) ≡ ok (channel, limit)
unfolding decode_preface encode_preface as_byte from_byte be16 same_bytes from_be be32
decode_preface-encode_preface channel limit low high =
    let (least, most) = maximum-bounds channel in
    let number : from_be 0 (be32 limit) ≡ limit =
      be32-round_trip limit (omega (arith, most, high)) in
    let positive : (limit == 0) ≡ false = ground (arith, low) in
    let allowed : ltb (maximum channel) limit ≡ false = ground (arith, high) in
    elim channel
        as (λ c.
          ltb (maximum c) limit ≡ false → decode_preface (encode_preface c limit) ≡ ok (c, limit)) [
            | control ↦ λ h. simp (number, positive, h) refl
            | bulk ↦ λ h. simp (number, positive, h) refl
          ]
      allowed

-- What `decode_preface` accepts names a channel and a limit between 1 and that channel's own.
pub decode_preface-bounds :
    (preface : Bytes) (channel : ChannelKind) (limit : ℕ)
    → decode_preface preface ≡ ok (channel, limit)
    → (1 ≤ limit) × (limit ≤ maximum channel)
unfolding decode_preface
decode_preface-bounds preface channel limit e = ground (arith, e)

-- What `establish` makes of a peer on channel `peer` that announces the limit `limit`.
pub EstablishOk : Bytes → ChannelKind → ChannelKind → ℕ → Bytes → Type 0
EstablishOk rest peer channel limit outgoing =
    (same_channel peer channel ≡ true
      → establish (encode_preface peer limit ++ rest) outgoing channel
        ≡ ok (
          record {
            stream = rest;
            expected_sequence = 0;
            maximum_body = min (maximum channel) limit;
          },
          record {
            stream = outgoing ++ encode_preface channel (maximum channel);
            next_sequence = 0;
            maximum_body = min (maximum channel) limit;
          },
        ))
    × (same_channel peer channel ≡ false
        → establish (encode_preface peer limit ++ rest) outgoing channel ≡ err channel_mismatch)

-- With a peer that announces a limit its channel allows: on the same channel both halves start
-- at sequence number 0 under the smaller of the two limits, the preface is written and what
-- follows the peer's preface is left to read; a peer on another channel is refused.
pub establish-EstablishOk :
    (rest : Bytes) (peer channel : ChannelKind) (limit : ℕ) (outgoing : Bytes)
    → 1 ≤ limit
    → limit ≤ maximum peer
    → EstablishOk rest peer channel limit outgoing
unfolding EstablishOk establish
establish-EstablishOk rest peer channel limit outgoing low high =
    let first : read_exact 12 (encode_preface peer limit ++ rest)
        ≡ ok (encode_preface peer limit, rest) =
      subst
        (λ n.
          read_exact n (encode_preface peer limit ++ rest) ≡ ok (encode_preface peer limit, rest))
        (length-encode_preface peer limit) (read_exact-append (encode_preface peer limit) rest) in
    let decoded = decode_preface-encode_preface peer limit low high in
    (λ same. simp (first, decoded, same) refl, λ other. simp (first, decoded, other) refl)
