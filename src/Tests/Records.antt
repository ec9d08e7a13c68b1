-- ===== src/Tests/Records.antt =====
-- Concrete records and prefaces for the theorems on src/ipc.rs.
use vvmux.Prelude.{◌≤◌, ◌≡◌, refl, true, false, [], ◌∷◌, ◌++◌, arith}
use vvmux.Ipc.Result.{ok, err, sequence_gap}
use vvmux.Ipc.Record.{RecordReader, RecordWriter, RawRecord, read_raw}
use vvmux.Ipc.Record.Framing.{frame, IsCarried, Delivered, read_records-write_records, read_raw-gap}
use vvmux.Ipc.Media.{
  MediaChunk, RenderChunk, media_header, render_header, decode_media_record, decode_render_record,
}
use vvmux.Ipc.Media.Trips.{decode_media_record-media_header, decode_render_record-render_header}
use vvmux.Ipc.Preface.{
  control, maximum, encode_preface, EstablishOk, establish-EstablishOk, decode_preface-bounds,
  decode_preface-encode_preface,
}

abbrev writer : RecordWriter
writer = record { stream = []; next_sequence = 18446744073709551615; maximum_body = 1048576 }

abbrev short : RawRecord
short = record { record_type = 1; flags = 0; body = 123 ∷ 125 ∷ [] }

abbrev flagged : RawRecord
flagged = record { record_type = 3; flags = 1; body = [] }

short-IsCarried : IsCarried 1048576 short
short-IsCarried = record {
  type_fits = omega arith;
  flags_known = omega arith;
  body_fits = omega arith;
}

flagged-IsCarried : IsCarried 1048576 flagged
flagged-IsCarried = record {
  type_fits = omega arith;
  flags_known = omega arith;
  body_fits = omega arith;
}

read_records-write_records_example : Delivered writer (short ∷ flagged ∷ [])
read_records-write_records_example =
    read_records-write_records writer (short ∷ flagged ∷ []) refl (omega arith) (omega arith)
      (short-IsCarried, (flagged-IsCarried, tt))

abbrev late : RecordReader
late = record { stream = frame 7 short ++ []; expected_sequence = 8; maximum_body = 1048576 }

read_raw-gap_example : read_raw late ≡ err sequence_gap
read_raw-gap_example = read_raw-gap late 7 short [] refl (omega arith) (omega arith)

abbrev chunk : MediaChunk
chunk = record {
  delivery_id = 9;
  source = record { producer = 1; source = 2 };
  record_type = 4;
  offset = 2;
  total = 5;
  last = true;
}

decode_media_record-media_header_example :
    decode_media_record (media_header chunk ++ (7 ∷ 8 ∷ 9 ∷ [])) ≡ ok (chunk, 7 ∷ 8 ∷ 9 ∷ [])
decode_media_record-media_header_example =
    decode_media_record-media_header chunk (7 ∷ 8 ∷ 9 ∷ [])
      (record {
        delivery_fits = omega arith;
        producer_fits = omega arith;
        source_fits = omega arith;
        type_fits = omega arith;
        offset_fits = omega arith;
        total_fits = omega arith;
      })
      (omega arith) refl

abbrev picture : RenderChunk
picture = record { frame_id = 3; session_sequence = 4; full = true; last = false }

decode_render_record-render_header_example :
    decode_render_record (render_header picture ++ (27 ∷ [])) ≡ ok (picture, 27 ∷ [])
decode_render_record-render_header_example =
    decode_render_record-render_header picture (27 ∷ []) (omega arith) (omega arith)

low_limit : 4096 ≤ maximum control
unfolding maximum
low_limit = omega arith

establish-EstablishOk_example : EstablishOk (1 ∷ []) control control 4096 []
establish-EstablishOk_example =
    establish-EstablishOk (1 ∷ []) control control 4096 [] (omega arith) low_limit

decode_preface-bounds_example : (1 ≤ 4096) × (4096 ≤ maximum control)
decode_preface-bounds_example =
    decode_preface-bounds (encode_preface control 4096) control 4096
      (decode_preface-encode_preface control 4096 (omega arith) low_limit)
