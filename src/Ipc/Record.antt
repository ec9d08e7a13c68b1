-- ===== src/Ipc/Record.antt =====
-- `RecordReader` and `RecordWriter` of src/ipc.rs over a stream of bytes. The sink takes every
-- write; the counters and the cancel handle are left out.
pub mod Framing
use vvmux.Prelude.{
  ℕ, zero, suc, ◌+◌, ◌-◌, ◌%◌, Bool, ◌||◌, List, [], ◌∷◌, ◌++◌, length, take, drop, ltb, leb, ◌==◌,
  not, if◌then◌else◌,
}
use vvmux.Prelude.Word.{u64_max}
use vvmux.Ipc.Bytes.{Bytes, be16, be32, be64, from_be, slice}
use vvmux.Ipc.Result.{
  IoResult, ok, err, ◌>>=◌, ◌>>◌, reject, end_of_stream, sequence_gap, reserved_flags,
  body_too_large, length_overflow,
}

abbrev pub structured_record : ℕ
structured_record = 1

abbrev pub media_record : ℕ
media_record = 2

abbrev pub render_record : ℕ
render_record = 3

pub record RecordReader : Type 0 where
  pub stream : Bytes
  pub expected_sequence : ℕ
  pub maximum_body : ℕ

pub record RecordWriter : Type 0 where
  pub stream : Bytes
  pub next_sequence : ℕ
  pub maximum_body : ℕ

-- `(record_type, flags, body)`
pub record RawRecord : Type 0 where
  pub record_type : ℕ
  pub flags : ℕ
  pub body : Bytes

-- `Read::read_exact`: the bytes and the rest of the stream.
unfoldable pub read_exact : ℕ → Bytes → IoResult (Bytes × Bytes)
read_exact count stream =
    if ltb (length stream) count
    then err end_of_stream
    else ok (take count stream, drop count stream)

-- `flags & !0x0001 != 0`, of a `u16`.
abbrev pub has_reserved : ℕ → Bool
has_reserved flags = leb 2 flags

unfoldable pub read_raw : RecordReader → IoResult (RawRecord × RecordReader)
read_raw r = do
  (header, rest) ← read_exact 16 r.stream
  let sequence = from_be 0 (slice 0 8 header)
  let record_type = from_be 0 (slice 8 2 header)
  let flags = from_be 0 (slice 10 2 header)
  let count = from_be 0 (slice 12 4 header)
  reject (not (sequence == r.expected_sequence)) sequence_gap
  reject (has_reserved flags) reserved_flags
  reject (ltb r.maximum_body count) body_too_large
  (body, rest') ← read_exact count rest
  ok (
    record { record_type = record_type; flags = flags; body = body },
    record r {
      stream = rest';
      expected_sequence = (r.expected_sequence + 1) % 18446744073709551616;
    },
  )

unfoldable pub concat : List Bytes → Bytes
concat [] = []
concat (part ∷ parts) = part ++ concat parts

unfoldable pub record_header : ℕ → ℕ → ℕ → ℕ → Bytes
record_header sequence record_type flags count =
    be64 sequence ++ (be16 record_type ++ (be16 flags ++ be32 (count % 4294967296)))

unfoldable pub write_raw_parts : RecordWriter → ℕ → ℕ → List Bytes → IoResult RecordWriter
write_raw_parts w record_type flags parts = do
  reject (has_reserved flags) reserved_flags
  let count = length (concat parts)
  reject (ltb u64_max count) length_overflow
  reject (ltb w.maximum_body count) body_too_large
  ok (record w {
    stream = w.stream ++ (record_header w.next_sequence record_type flags count ++ concat parts);
    next_sequence = (w.next_sequence + 1) % 18446744073709551616;
  })

unfoldable pub write_raw : RecordWriter → ℕ → ℕ → Bytes → IoResult RecordWriter
write_raw w record_type flags body = write_raw_parts w record_type flags (body ∷ [])

unfoldable pub payload_capacity : RecordWriter → ℕ → ℕ
payload_capacity w header = w.maximum_body - header
