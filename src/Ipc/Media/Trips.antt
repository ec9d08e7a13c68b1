-- ===== src/Ipc/Media/Trips.antt =====
-- What the binary records of src/ipc.rs carry comes back from their decoders.
use vvmux.Prelude.{
  ◌+◌, ◌≤◌, ◌<◌, ◌≡◌, Bool, true, false, ◌++◌, length, arith, ltb, ◌==◌, Bool-cases, inl, inr, sym,
  ◌∙◌, ap,
}
use vvmux.Prelude.Word.{u64_max}
use vvmux.Ipc.Bytes.{
  Bytes, be16, be32, be64, from_be, be16-round_trip, be32-round_trip, be64-round_trip,
}
use vvmux.Ipc.Result.{IoResult, ok}
use vvmux.Ipc.Media.{
  MediaChunk, RenderChunk, media_header, render_flags, render_header, same_bit, decode_media_record,
  decode_render_record,
}

-- The fields of a chunk are in the ranges of their types.
pub record InRange (c : MediaChunk) : Type 0 where
  pub delivery_fits : c.delivery_id < 18446744073709551616
  pub producer_fits : c.source.producer < 18446744073709551616
  pub source_fits : c.source.source < 18446744073709551616
  pub type_fits : c.record_type < 65536
  pub offset_fits : c.offset < 4294967296
  pub total_fits : c.total < 4294967296

-- A media record with fields in the ranges of their types is read back when the chunk lies
-- inside its total and says that it is the last exactly when it ends there.
pub decode_media_record-media_header :
    (c : MediaChunk) (bytes : Bytes)
    → InRange c
    → c.offset + length bytes ≤ c.total
    → c.last ≡ (c.offset + length bytes == c.total)
    → decode_media_record (media_header c ++ bytes) ≡ ok (c, bytes)
unfolding decode_media_record media_header be64 be32 be16 from_be same_bit
decode_media_record-media_header c bytes i inside last =
    let f₁ = be64-round_trip c.delivery_id i.delivery_fits in
    let f₂ = be64-round_trip c.source.producer i.producer_fits in
    let f₃ = be64-round_trip c.source.source i.source_fits in
    let f₄ = be16-round_trip c.record_type i.type_fits in
    let f₅ = be32-round_trip c.offset i.offset_fits in
    let f₆ = be32-round_trip c.total i.total_fits in
    let small : ltb u64_max (c.offset + length bytes) ≡ false =
      ground (arith, inside, i.total_fits) in
    let fits : ltb c.total (c.offset + length bytes) ≡ false = ground (arith, inside) in
    let short : ltb (length (media_header c ++ bytes)) 40 ≡ false = ground arith in
    elim (Bool-cases c.last) [
      | inl t ↦
          let ends : (c.offset + length bytes == c.total) ≡ true = sym last ∙ t in
          simp (t, f₁, f₂, f₃, f₄, f₅, f₆, short, small, fits, ends)
            (ap (λ (l : Bool). ok (record c { last = l }, bytes)) (sym t))
      | inr n ↦
          let ends : (c.offset + length bytes == c.total) ≡ false = sym last ∙ n in
          simp (n, f₁, f₂, f₃, f₄, f₅, f₆, short, small, fits, ends)
            (ap (λ (l : Bool). ok (record c { last = l }, bytes)) (sym n))
    ]

both :
    (c : RenderChunk) (bytes : Bytes) (f l : Bool)
    → f ≡ c.full
    → l ≡ c.last
    → Path
        (IoResult (RenderChunk × Bytes))
        (ok (record c { full = f; last = l }, bytes))
        (ok (c, bytes))
both c bytes f l e e' =
    ap (λ (t : Bool). ok (record c { full = t; last = l }, bytes)) e
    ∙ ap (λ (t : Bool). ok (record c { last = t }, bytes)) e'

-- A render record with 64-bit numbers is read back, with both of its flags.
pub decode_render_record-render_header :
    (c : RenderChunk) (bytes : Bytes)
    → c.frame_id < 18446744073709551616
    → c.session_sequence < 18446744073709551616
    → decode_render_record (render_header c ++ bytes) ≡ ok (c, bytes)
unfolding decode_render_record render_header render_flags be64 be32 be16 from_be
decode_render_record-render_header c bytes hf hs =
    let f₁ = be64-round_trip c.frame_id hf in
    let f₂ = be64-round_trip c.session_sequence hs in
    let short : ltb (length (render_header c ++ bytes)) 24 ≡ false = ground arith in
    elim (Bool-cases c.full) [
      | inl t ↦ elim (Bool-cases c.last) [
        | inl u ↦ simp (t, u, f₁, f₂, short) (both c bytes true true (sym t) (sym u))
        | inr u ↦ simp (t, u, f₁, f₂, short) (both c bytes true false (sym t) (sym u))
      ]
      | inr t ↦ elim (Bool-cases c.last) [
        | inl u ↦ simp (t, u, f₁, f₂, short) (both c bytes false true (sym t) (sym u))
        | inr u ↦ simp (t, u, f₁, f₂, short) (both c bytes false false (sym t) (sym u))
      ]
    ]
