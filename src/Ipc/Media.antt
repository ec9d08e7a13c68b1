-- ===== src/Ipc/Media.antt =====
-- The binary records of src/ipc.rs: `MediaChunk`, `write_media_record`, `write_render_record`, their
-- decoders, and the chunked `send_media_record` and `send_render_record`.
pub mod Trips
use Prim.Native.Nat.{min}
use vvmux.Prelude.{
  ℕ, zero, suc, ◌+◌, ◌-◌, ◌*◌, ◌%◌, ◌/◌, Bool, true, false, ◌||◌, ◌&&◌, List, [], ◌∷◌, ◌++◌, length,
  take, drop, ltb, leb, ◌==◌, not, if◌then◌else◌,
}
use vvmux.Prelude.Word.{u32_max, u64_max, clamp}
use vvmux.Ipc.Bytes.{Bytes, be16, be32, be64, from_be, slice}
use vvmux.Ipc.Result.{
  Error, IoResult, ok, err, ◌>>=◌, ◌>>◌, reject, short_header, reserved_field, reserved_flags,
  extent_overflow, exceeds_total, last_disagrees, length_overflow,
}
use vvmux.Ipc.Record.{RecordWriter, media_record, render_record, write_raw_parts, payload_capacity}

pub record BridgeSourceKey : Type 0 where
  pub producer : ℕ
  pub source : ℕ

pub record MediaChunk : Type 0 where
  pub delivery_id : ℕ
  pub source : BridgeSourceKey
  pub record_type : ℕ
  pub offset : ℕ
  pub total : ℕ
  pub last : Bool

-- `frame_id`, `session_sequence`, `full` and `last` of a render record.
pub record RenderChunk : Type 0 where
  pub frame_id : ℕ
  pub session_sequence : ℕ
  pub full : Bool
  pub last : Bool

unfoldable pub media_header : MediaChunk → Bytes
media_header c =
    be64 c.delivery_id
    ++ (be64 c.source.producer
        ++ (be64 c.source.source
            ++ (be16 c.record_type
                ++ (be16 (if c.last then 1 else 0)
                    ++ (be32 c.offset ++ (be32 c.total ++ (0 ∷ 0 ∷ 0 ∷ 0 ∷ [])))))))

unfoldable pub write_media_record : RecordWriter → MediaChunk → Bytes → IoResult RecordWriter
write_media_record w chunk bytes =
    write_raw_parts w media_record 0 (media_header chunk ∷ bytes ∷ [])

unfoldable pub render_flags : Bool → Bool → ℕ
render_flags full last = (if full then 1 else 0) + (if last then 2 else 0)

unfoldable pub render_header : RenderChunk → Bytes
render_header c =
    be64 c.frame_id
    ++ (be64 c.session_sequence
        ++ (be16 (render_flags c.full c.last) ++ (0 ∷ 0 ∷ 0 ∷ 0 ∷ 0 ∷ 0 ∷ [])))

unfoldable pub write_render_record : RecordWriter → RenderChunk → Bytes → IoResult RecordWriter
write_render_record w chunk bytes =
    write_raw_parts w render_record 0 (render_header chunk ∷ bytes ∷ [])

unfoldable pub same_bit : Bool → Bool → Bool
same_bit true b = b
same_bit false b = not b

unfoldable pub decode_media_record : Bytes → IoResult (MediaChunk × Bytes)
unfolding same_bit
decode_media_record body = do
  reject (ltb (length body) 40) short_header
  let flags = from_be 0 (slice 26 2 body)
  let offset = from_be 0 (slice 28 4 body)
  let total = from_be 0 (slice 32 4 body)
  reject (not (from_be 0 (slice 36 4 body) == 0)) reserved_field
  reject (leb 2 flags) reserved_flags
  let bytes = drop 40 body
  let end = offset + length bytes
  reject (ltb u64_max end) extent_overflow
  reject (ltb total end) exceeds_total
  reject (not (same_bit (not (flags % 2 == 0)) (end == total))) last_disagrees
  ok (
    record {
      delivery_id = from_be 0 (slice 0 8 body);
      source = record {
        producer = from_be 0 (slice 8 8 body);
        source = from_be 0 (slice 16 8 body);
      };
      record_type = from_be 0 (slice 24 2 body);
      offset = offset;
      total = total;
      last = not (flags % 2 == 0);
    },
    bytes,
  )

unfoldable pub decode_render_record : Bytes → IoResult (RenderChunk × Bytes)
decode_render_record body = do
  reject (ltb (length body) 24) short_header
  let flags = from_be 0 (slice 16 2 body)
  reject (not (from_be 0 (slice 18 2 body) == 0) || not (from_be 0 (slice 20 4 body) == 0))
      reserved_field
  reject (leb 4 flags) reserved_flags
  ok (
    record {
      frame_id = from_be 0 (slice 0 8 body);
      session_sequence = from_be 0 (slice 8 8 body);
      full = not (flags % 2 == 0);
      last = not (flags / 2 % 2 == 0);
    },
    drop 24 body,
  )

-- `[T]::chunks`: the pieces of `size` bytes, the last one shorter. Fuel `length body` is enough
-- when the size is positive.
unfoldable pub chunks : ℕ → ℕ → Bytes → List Bytes
chunks zero size body = []
chunks (suc fuel) size [] = []
chunks (suc fuel) size (b ∷ body) = take size (b ∷ body) ∷ chunks fuel size (drop size (b ∷ body))

-- The loop of `send_media_record` from chunk number `index` on.
unfoldable pub send_media_chunks :
    RecordWriter → MediaChunk → ℕ → ℕ → ℕ → List Bytes → IoResult RecordWriter
send_media_chunks w header chunk count index [] = ok w
send_media_chunks w header chunk count index (bytes ∷ rest) = do
  let offset = index * chunk % 4294967296
  let here : MediaChunk = record header { offset = offset; last = offset + length bytes == count }
  w' ← write_media_record w here bytes
  send_media_chunks w' header chunk count (index + 1) rest

unfoldable pub send_media_record :
    RecordWriter → ℕ → BridgeSourceKey → ℕ → Bytes → IoResult RecordWriter
send_media_record w delivery_id source record_type body = do
  reject (ltb u32_max (length body)) length_overflow
  let chunk = clamp 1 131072 (payload_capacity w 40)
  let header : MediaChunk = record {
    delivery_id = delivery_id;
    source = source;
    record_type = record_type;
    offset = 0;
    total = length body;
    last = true;
  }
  if length body == 0
      then write_media_record w header []
      else send_media_chunks w header chunk (length body) 0 (chunks (length body) chunk body)

-- The loop of `send_render_record` from chunk number `index` on.
unfoldable pub send_render_chunks :
    RecordWriter → RenderChunk → ℕ → ℕ → List Bytes → IoResult RecordWriter
send_render_chunks w header count index [] = ok w
send_render_chunks w header count index (bytes ∷ rest) = do
  let here : RenderChunk = record header {
    full = header.full && index == 0;
    last = index + 1 == count;
  }
  w' ← write_render_record w here bytes
  send_render_chunks w' header count (index + 1) rest

unfoldable pub send_render_record : RecordWriter → ℕ → ℕ → Bool → Bytes → IoResult RecordWriter
send_render_record w frame_id session_sequence full body =
    let chunk = clamp 1 262144 (payload_capacity w 24) in
    let header : RenderChunk = record {
      frame_id = frame_id;
      session_sequence = session_sequence;
      full = full;
      last = true;
    } in
    if length body == 0
    then write_render_record w header []
    else send_render_chunks w header ((length body + (chunk - 1)) / chunk) 0
        (chunks (length body) chunk body)
