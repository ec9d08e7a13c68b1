-- ===== src/Ipc/Record/Framing.antt =====
-- What src/ipc.rs writes it reads back, and a record out of sequence is refused.
use mathlib.Core.List.{append-nil, append_assoc}
use vvmux.Prelude.{
  ℕ, zero, suc, ◌+◌, ◌%◌, ◌≤◌, ◌<◌, ◌≡◌, ◌≢◌, refl, ap, sym, subst, ◌∙◌, inl, inr, true, false,
  List, [], ◌∷◌, ◌++◌, length, length-append, take, drop, All, arith, ltb, leb, ◌==◌, Bool-cases,
}
use vvmux.Prelude.Word.{u64_max}
use vvmux.Ipc.Bytes.{
  Bytes, be16, be32, be64, from_be, slice, be16-round_trip, be32-round_trip, be64-round_trip,
}
use vvmux.Ipc.Result.{IoResult, ok, err, ◌>>=◌, sequence_gap}
use vvmux.Ipc.Record.{
  RecordReader, RecordWriter, RawRecord, read_exact, read_raw, concat, record_header,
  write_raw_parts, write_raw,
}

take-length : (xs ys : Bytes) → take (length xs) (xs ++ ys) ≡ xs
take-length [] ys = refl
take-length (x ∷ xs) ys = ap (λ t. x ∷ t) (take-length xs ys)

drop-length : (xs ys : Bytes) → drop (length xs) (xs ++ ys) ≡ ys
drop-length [] ys = refl
drop-length (x ∷ xs) ys = drop-length xs ys

pub read_exact-append : (xs ys : Bytes) → read_exact (length xs) (xs ++ ys) ≡ ok (xs, ys)
unfolding read_exact
read_exact-append xs ys = elim (Bool-cases (ltb (length (xs ++ ys)) (length xs))) [
  | inl short ↦ absurd (ground (arith, length-append xs ys))
  | inr enough ↦ rw (enough, take-length xs ys, drop-length xs ys)
]

length-record_header :
    (sequence record_type flags count : ℕ)
    → length (record_header sequence record_type flags count) ≡ 16
unfolding record_header be16 be32 be64
length-record_header sequence record_type flags count = refl

header_fields :
    (sequence record_type flags count : ℕ)
    → sequence < 18446744073709551616
    → record_type < 65536
    → flags < 65536
    → count < 4294967296
    → let h = record_header sequence record_type flags count in
      (from_be 0 (slice 0 8 h) ≡ sequence)
      × (from_be 0 (slice 8 2 h) ≡ record_type)
      × (from_be 0 (slice 10 2 h) ≡ flags)
      × (from_be 0 (slice 12 4 h) ≡ count)
unfolding record_header be64
header_fields sequence record_type flags count hs ht hf hc = (
  be64-round_trip sequence hs,
  be16-round_trip record_type ht,
  be16-round_trip flags hf,
  be32-round_trip (count % 4294967296) (omega arith) ∙ omega arith,
)

abbrev pub next_after : ℕ → ℕ
next_after sequence = (sequence + 1) % 18446744073709551616

-- The bytes of one record.
abbrev pub frame : ℕ → RawRecord → Bytes
frame sequence m = record_header sequence m.record_type m.flags (length m.body) ++ m.body

-- A record that the protocol can carry, under a limit on bodies.
pub record IsCarried (limit : ℕ) (m : RawRecord) : Type 0 where
  pub type_fits : m.record_type < 65536
  pub flags_known : m.flags ≤ 1
  pub body_fits : length m.body ≤ limit

read_raw-frame :
    (r : RecordReader) (m : RawRecord) (rest : Bytes)
    → r.stream ≡ frame r.expected_sequence m ++ rest
    → r.expected_sequence < 18446744073709551616
    → r.maximum_body < 4294967296
    → IsCarried r.maximum_body m
    → read_raw r
      ≡ ok (m, record r { stream = rest; expected_sequence = next_after r.expected_sequence })
unfolding read_raw
read_raw-frame r m rest e hs hm c =
    let head = record_header r.expected_sequence m.record_type m.flags (length m.body) in
    let split : frame r.expected_sequence m ++ rest ≡ head ++ (m.body ++ rest) =
      append_assoc head m.body rest in
    let len = length-record_header r.expected_sequence m.record_type m.flags (length m.body) in
    let first : read_exact 16 r.stream ≡ ok (head, m.body ++ rest) =
      rw (e, split)
        (subst (λ n. read_exact n (head ++ (m.body ++ rest)) ≡ ok (head, m.body ++ rest)) len
          (read_exact-append head (m.body ++ rest))) in
    let (f₁, f₂, f₃, f₄) =
      header_fields r.expected_sequence m.record_type m.flags (length m.body) hs c.type_fits
        (omega (arith, c.flags_known)) (omega (arith, c.body_fits)) in
    let same : (r.expected_sequence == r.expected_sequence) ≡ true = ground arith in
    let known : leb 2 m.flags ≡ false = ground (arith, c.flags_known) in
    let fits : ltb r.maximum_body (length m.body) ≡ false = ground (arith, c.body_fits) in
    rw first (simp (f₁, f₂, f₃, f₄, same, known, fits, read_exact-append m.body rest) refl)

write_raw-frame :
    (w : RecordWriter) (m : RawRecord)
    → w.maximum_body < 4294967296
    → IsCarried w.maximum_body m
    → write_raw w m.record_type m.flags m.body
      ≡ ok (record w {
        stream = w.stream ++ frame w.next_sequence m;
        next_sequence = next_after w.next_sequence;
      })
unfolding write_raw write_raw_parts concat
write_raw-frame w m hm c =
    let known : leb 2 m.flags ≡ false = ground (arith, c.flags_known) in
    let fits : ltb w.maximum_body (length m.body) ≡ false = ground (arith, c.body_fits) in
    let counts : ltb u64_max (length m.body) ≡ false = ground (arith, c.body_fits) in
    rw append-nil (simp (known, fits, counts) refl)

-- Records written one after the other, and as many read.
unfoldable pub write_records : RecordWriter → List RawRecord → IoResult RecordWriter
write_records w [] = ok w
write_records w (m ∷ ms) = do w' ← write_raw w m.record_type m.flags m.body; write_records w' ms

unfoldable pub read_records : ℕ → RecordReader → IoResult (List RawRecord × RecordReader)
read_records zero r = ok ([], r)
read_records (suc n) r = do (m, r') ← read_raw r; (ms, r'') ← read_records n r'; ok (m ∷ ms, r'')

frames : ℕ → List RawRecord → Bytes
frames sequence [] = []
frames sequence (m ∷ ms) = frame sequence m ++ frames (next_after sequence) ms

last_sequence : ℕ → List RawRecord → ℕ
last_sequence sequence [] = sequence
last_sequence sequence (m ∷ ms) = last_sequence (next_after sequence) ms

write_records-frames :
    (w : RecordWriter) (ms : List RawRecord)
    → w.maximum_body < 4294967296
    → All (IsCarried w.maximum_body) ms
    → write_records w ms
      ≡ ok (record w {
        stream = w.stream ++ frames w.next_sequence ms;
        next_sequence = last_sequence w.next_sequence ms;
      })
unfolding write_records frames last_sequence
write_records-frames w [] hm all = rw append-nil refl
write_records-frames w (m ∷ ms) hm (c, cs) = rw (write_raw-frame w m hm c) (
    write_records-frames
      (record w {
        stream = w.stream ++ frame w.next_sequence m;
        next_sequence = next_after w.next_sequence;
      })
      ms hm cs
    ∙ ap
        (λ (t : Bytes).
          ok (record w {
            stream = t;
            next_sequence = last_sequence (next_after w.next_sequence) ms;
          }))
        (append_assoc w.stream (frame w.next_sequence m) _))

read_records-frames :
    (r : RecordReader) (ms : List RawRecord)
    → r.stream ≡ frames r.expected_sequence ms
    → r.expected_sequence < 18446744073709551616
    → r.maximum_body < 4294967296
    → All (IsCarried r.maximum_body) ms
    → read_records (length ms) r
      ≡ ok (ms, record r { stream = []; expected_sequence = last_sequence r.expected_sequence ms })
unfolding read_records frames last_sequence
read_records-frames r [] e hs hm all = rw (sym e) refl
read_records-frames r (m ∷ ms) e hs hm (c, cs) =
    rw
      (
        read_raw-frame r m (frames (next_after r.expected_sequence) ms) e hs hm c,
        read_records-frames
            (record r {
              stream = frames (next_after r.expected_sequence) ms;
              expected_sequence = next_after r.expected_sequence;
            })
            ms refl (omega arith) hm cs,
      )
      refl

-- What a peer with the same limit gets from a writer's records: all of them, in their order, and
-- it expects the sequence number that the writer gives next.
pub record Delivered (w : RecordWriter) (ms : List RawRecord) : Type 0 where
  pub written : RecordWriter
  pub sent : write_records w ms ≡ ok written
  pub received :
      read_records (length ms) (record {
        stream = written.stream;
        expected_sequence = w.next_sequence;
        maximum_body = w.maximum_body;
      })
      ≡ ok (
        ms,
        record {
          stream = [];
          expected_sequence = written.next_sequence;
          maximum_body = w.maximum_body;
        },
      )

-- From an empty stream, any records of known flags that fit the limit are written, and reading as
-- many gives them back in order, at any first sequence number, so also across the wrap at 2^64.
pub read_records-write_records :
    (w : RecordWriter) (ms : List RawRecord)
    → w.stream ≡ []
    → w.next_sequence < 18446744073709551616
    → w.maximum_body < 4294967296
    → All (IsCarried w.maximum_body) ms
    → Delivered w ms
read_records-write_records w ms e hs hm all = record {
  written = record w {
    stream = frames w.next_sequence ms;
    next_sequence = last_sequence w.next_sequence ms;
  };
  sent = write_records-frames w ms hm all ∙ rw e refl;
  received = read_records-frames _ ms refl hs hm all;
}

-- A record whose 64-bit sequence number is not the expected one is refused, whatever its
-- contents.
pub read_raw-gap :
    (r : RecordReader) (sequence : ℕ) (m : RawRecord) (rest : Bytes)
    → r.stream ≡ frame sequence m ++ rest
    → sequence < 18446744073709551616
    → sequence ≢ r.expected_sequence
    → read_raw r ≡ err sequence_gap
unfolding read_raw record_header be64 be32 be16
read_raw-gap r sequence m rest e hs ne =
    let first : read_exact 16 r.stream
        ≡ ok (record_header sequence m.record_type m.flags (length m.body), m.body ++ rest) =
      rw
        (e, append_assoc (record_header sequence m.record_type m.flags (length m.body)) m.body rest)
        (read_exact-append (record_header sequence m.record_type m.flags (length m.body))
          (m.body ++ rest)) in
    let other : (sequence == r.expected_sequence) ≡ false = ground (arith, ne) in
    let f : from_be 0 (slice 0 8 (record_header sequence m.record_type m.flags (length m.body)))
        ≡ sequence =
      be64-round_trip sequence hs in
    rw first (simp (f, other) refl)
