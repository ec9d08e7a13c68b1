-- ===== src/Terminal/Marker/Scans.antt =====
-- No byte is lost, changed or moved by `VividMarkerScanner` of vvmux-terminal/src/lib.rs.
use mathlib.Core.List.{append_assoc, append-nil}
use vvmux.Prelude.{
  ℕ, zero, suc, ◌+◌, ◌-◌, ◌≤◌, ◌<◌, ◌≡◌, refl, sym, ap, subst, ◌∙◌, min, true, List, [], ◌∷◌, ◌++◌,
  length, length-append, take, drop, All, All-append, arith, ltb, Bool-cases, Option-cases, inl,
  inr,
}
use vvmux.Terminal.Vectors.{length-drop}
use vvmux.Input.Event.{starts_with}
use vvmux.Session.Paste.Broken.{starts_with-append}
use vvmux.Terminal.Marker.{
  max_marker_bytes, apc_prefix, apc_terminator, payload_skip, VividChunk, marker,
  valid_marker_shape, find_bytes, ends_with, partial_up_to, partial_prefix_len, push_bytes, Round,
  next, stop, skip_prefix, take_marker, at_prefix, round, scan, push,
}
use vvmux.Terminal.Marker.Bytes.{
  raw, raw_chunks, IsShaped, Split, raw_chunks-append, take-Split, find_bytes-found, whole_marker,
}

-- What a round does with `whole`.
abbrev IsRound : List ℕ → ℕ → Round → Type 0
IsRound whole size (next cs rest) = Split whole cs rest × (length rest < size)
IsRound whole size (stop cs rest) = Split whole cs rest × (length rest ≤ max_marker_bytes)

IsRound-longer :
    (whole : List ℕ) (size size' : ℕ) (r : Round)
    → size ≤ size'
    → IsRound whole size r
    → IsRound whole size' r
IsRound-longer whole size size' (next cs rest) h k = (k.0, omega (arith, h, k.1))
IsRound-longer whole size size' (stop cs rest) h k = k

module _ (whole : List ℕ) (cs : List VividChunk) (rest : List ℕ) where
  past_prefix : starts_with rest apc_prefix ≡ true → 12 ≤ length rest
  past_prefix at =
      let e = starts_with-append rest apc_prefix at in
      omega (arith, ap length e ∙ length-append apc_prefix (drop 12 rest))

  skip_prefix-IsRound :
      starts_with rest apc_prefix ≡ true
      → Split whole cs rest
      → IsRound whole (length rest) (skip_prefix cs rest)
  unfolding skip_prefix
  skip_prefix-IsRound at s =
      (take-Split whole 12 cs rest s, omega (arith, length-drop 12 rest, past_prefix at))

  marker-Split :
      (e : ℕ)
      → starts_with rest apc_prefix ≡ true
      → starts_with (drop e (drop 12 rest)) apc_terminator ≡ true
      → valid_marker_shape (drop payload_skip (take (12 + e) rest)) ≡ true
      → Split whole cs rest
      → Split whole
          (cs ++ (marker (drop payload_skip (take (12 + e) rest)) ∷ []))
          (drop ((12 + e) + 2) rest)
  marker-Split e at ends shape s =
      let m = marker (drop payload_skip (take (12 + e) rest)) in
      let there = starts_with-append rest apc_prefix at in
      let back : raw m ++ drop ((12 + e) + 2) rest ≡ rest =
        subst (λ r. raw (marker (drop payload_skip (take (12 + e) r))) ++ drop ((12 + e) + 2) r ≡ r)
          (sym there) (whole_marker (drop 12 rest) e ends) in
      record {
        conserved =
            ap (λ r. r ++ drop ((12 + e) + 2) rest)
              (raw_chunks-append cs (m ∷ []) ∙ ap (λ r. raw_chunks cs ++ r) (append-nil (raw m)))
            ∙ append_assoc (raw_chunks cs) (raw m) (drop ((12 + e) + 2) rest)
            ∙ ap (λ r. raw_chunks cs ++ r) back
            ∙ s.conserved;
        shaped = All-append IsShaped cs (m ∷ []) s.shaped (shape, tt);
      }

  take_marker-IsRound :
      (e : ℕ)
      → starts_with rest apc_prefix ≡ true
      → starts_with (drop e (drop 12 rest)) apc_terminator ≡ true
      → Split whole cs rest
      → IsRound whole (length rest) (take_marker cs rest (12 + e) ((12 + e) + 2))
  unfolding take_marker
  take_marker-IsRound e at ends s =
      let shorter : length (drop ((12 + e) + 2) rest) < length rest =
        omega (arith, length-drop ((12 + e) + 2) rest, past_prefix at) in
      elim (Bool-cases (valid_marker_shape (drop payload_skip (take (12 + e) rest)))) [
        | inl shape ↦ simp shape (marker-Split e at ends shape s, shorter)
        | inr shapeless ↦ simp shapeless (take-Split whole ((12 + e) + 2) cs rest s, shorter)
      ]

  at_prefix-IsRound :
      starts_with rest apc_prefix ≡ true
      → Split whole cs rest
      → IsRound whole (length rest) (at_prefix cs rest)
  unfolding at_prefix
  at_prefix-IsRound at s =
      let skip = skip_prefix-IsRound at s in
      elim (Option-cases (find_bytes apc_terminator (drop 12 rest))) [
        | inl unended ↦ elim (Bool-cases (ltb max_marker_bytes (length rest))) [
          | inl long ↦ simp (at_prefix, unended, long) skip
          | inr short ↦
              let k : IsRound whole (length rest) (stop cs rest) = (s, ground (arith, short)) in
              simp (at_prefix, unended, short) k
        ]
        | inr (e, ended) ↦
            let ends = find_bytes-found apc_terminator (drop 12 rest) e ended in
            elim (Bool-cases (ltb max_marker_bytes ((12 + e) + 2))) [
              | inl long ↦ simp (at_prefix, ended, long) skip
              | inr short ↦ simp (at_prefix, ended, short) (take_marker-IsRound e at ends s)
            ]
      ]

partial_up_to-le : (haystack prefix : List ℕ) (n : ℕ) → partial_up_to haystack prefix n ≤ n
unfolding partial_up_to
partial_up_to-le haystack prefix zero = omega arith
partial_up_to-le haystack prefix (suc n) =
    elim (Bool-cases (ends_with haystack (take (suc n) prefix))) [
      | inl ends ↦ simp ends (omega arith)
      | inr other ↦ simp other (omega (arith, partial_up_to-le haystack prefix n))
    ]

round-IsRound :
    (whole : List ℕ) (cs : List VividChunk) (rest : List ℕ)
    → Split whole cs rest
    → IsRound whole (length rest) (round cs rest)
unfolding round partial_prefix_len
round-IsRound whole cs rest s = elim (Option-cases (find_bytes apc_prefix rest)) [
  | inl absent ↦
      let keep = partial_prefix_len rest apc_prefix in
      let few : keep ≤ 11 =
        omega (arith, partial_up_to-le rest apc_prefix (min (length rest) 11)) in
      let k : IsRound whole (length rest)
          (stop (push_bytes cs (take (length rest - keep) rest)) (drop (length rest - keep) rest)) =
        (take-Split whole _ cs rest s, omega (arith, few, length-drop (length rest - keep) rest)) in
      simp (round, absent) k
  | inr (start, found) ↦
      let r =
        at_prefix-IsRound whole (push_bytes cs (take start rest)) (drop start rest)
          (find_bytes-found apc_prefix rest start found) (take-Split whole start cs rest s) in
      simp (round, found)
        (IsRound-longer whole _ (length rest) _ (omega (arith, length-drop start rest)) r)
]

-- What the loop does with `whole`.
abbrev pub IsScanned : List ℕ → List VividChunk × List ℕ → Type 0
IsScanned whole result = Split whole result.0 result.1 × (length result.1 ≤ max_marker_bytes)

scan-IsScanned :
    (fuel : ℕ) (whole : List ℕ) (cs : List VividChunk) (rest : List ℕ)
    → length rest < fuel
    → Split whole cs rest
    → IsScanned whole (scan fuel cs rest)
unfolding scan
scan-IsScanned zero whole cs rest h s = absurd (omega (arith, h))
scan-IsScanned (suc fuel) whole cs rest h s =
    elim (round cs rest)
        as (λ r.
          IsRound whole (length rest) r
          → IsScanned whole (elim r as (λ _. List VividChunk × List ℕ) [
            | next chunks' rest' ↦ scan fuel chunks' rest'
            | stop chunks' rest' ↦ (chunks', rest')
          ])) [
            | next chunks' rest' ↦
                λ k. scan-IsScanned fuel whole chunks' rest' (omega (arith, k.1, h)) k.0
            | stop chunks' rest' ↦ λ k. k
          ]
      (round-IsRound whole cs rest s)

-- The chunks of a push, markers in their envelopes, with the bytes that stay pending are the bytes
-- that were pending with the new ones; each marker has the shape asked for; and at most 128 bytes
-- stay pending.
pub push-IsScanned :
    (pending new : List ℕ)
    → (raw_chunks (push pending new).0 ++ (push pending new).1 ≡ pending ++ new)
      × All IsShaped (push pending new).0
      × (length (push pending new).1 ≤ max_marker_bytes)
unfolding push
push-IsScanned pending new =
    let k =
      scan-IsScanned (suc (length pending + length new)) (pending ++ new) [] (pending ++ new)
        (omega (arith, length-append pending new)) (record { conserved = refl; shaped = tt }) in
    (k.0.conserved, k.0.shaped, k.1)
