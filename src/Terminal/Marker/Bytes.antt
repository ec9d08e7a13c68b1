-- ===== src/Terminal/Marker/Bytes.antt =====
-- The chunks of `VividMarkerScanner` of vvmux-terminal/src/lib.rs as the bytes they stand for.
use mathlib.Core.List.{append_assoc, append-nil}
use vvmux.Prelude.{
  drop-nil, take-append-drop, take_add, drop_add, ℕ, suc, ◌+◌, ◌≡◌, refl, sym, ap, ap₂, subst, ◌∙◌,
  true, none, some, List, [], ◌∷◌, ◌++◌, take, drop, All, arith, Bool-cases, Option-cases, inl, inr,
}
use vvmux.Input.Event.{starts_with}
use vvmux.Session.Paste.Broken.{starts_with-append}
use vvmux.Terminal.Marker.{
  apc_prefix, apc_terminator, payload_skip, VividChunk, bytes, marker, valid_marker_shape,
  find_bytes, extend_last, push_bytes,
}

-- The bytes that a chunk stands for.
abbrev pub raw : VividChunk → List ℕ
raw (bytes b) = b
raw (marker m) = (27 ∷ 95 ∷ []) ++ (m ++ apc_terminator)

abbrev pub raw_chunks : List VividChunk → List ℕ
raw_chunks [] = []
raw_chunks (c ∷ cs) = raw c ++ raw_chunks cs

-- A marker has the shape that the scanner asks for.
abbrev pub IsShaped : VividChunk → Type 0
IsShaped (bytes b) = Unit
IsShaped (marker m) = valid_marker_shape m ≡ true

-- Chunks and bytes that are left, of `whole`.
pub record Split (whole : List ℕ) (chunks : List VividChunk) (rest : List ℕ) : Type 0 where
  pub conserved : raw_chunks chunks ++ rest ≡ whole
  pub shaped : All IsShaped chunks

pub raw_chunks-append :
    (cs ds : List VividChunk) → raw_chunks (cs ++ ds) ≡ raw_chunks cs ++ raw_chunks ds
raw_chunks-append [] ds = refl
raw_chunks-append (c ∷ cs) ds =
    ap (λ r. raw c ++ r) (raw_chunks-append cs ds)
    ∙ sym (append_assoc (raw c) (raw_chunks cs) (raw_chunks ds))

extend_last-raw :
    (cs : List VividChunk) (new : List ℕ) → raw_chunks (extend_last cs new) ≡ raw_chunks cs ++ new
unfolding extend_last
extend_last-raw [] new = append-nil new
extend_last-raw (bytes b ∷ []) new = append-nil (b ++ new) ∙ ap (λ r. r ++ new) (sym (append-nil b))
extend_last-raw (marker m ∷ []) new =
    ap (λ r. raw (marker m) ++ r) (append-nil new)
    ∙ ap (λ r. r ++ new) (sym (append-nil (raw (marker m))))
extend_last-raw (bytes b ∷ c ∷ cs) new =
    ap (λ r. b ++ r) (extend_last-raw (c ∷ cs) new) ∙ sym (append_assoc b (raw_chunks (c ∷ cs)) new)
extend_last-raw (marker m ∷ c ∷ cs) new =
    ap (λ r. raw (marker m) ++ r) (extend_last-raw (c ∷ cs) new)
    ∙ sym (append_assoc (raw (marker m)) (raw_chunks (c ∷ cs)) new)

extend_last-IsShaped :
    (cs : List VividChunk) (new : List ℕ) → All IsShaped cs → All IsShaped (extend_last cs new)
unfolding extend_last
extend_last-IsShaped [] new s = (tt, tt)
extend_last-IsShaped (bytes b ∷ []) new s = s
extend_last-IsShaped (marker m ∷ []) new s = (s.0, (tt, tt))
extend_last-IsShaped (bytes b ∷ c ∷ cs) new s = (s.0, extend_last-IsShaped (c ∷ cs) new s.1)
extend_last-IsShaped (marker m ∷ c ∷ cs) new s = (s.0, extend_last-IsShaped (c ∷ cs) new s.1)

-- Bytes are passed on from the front of the rest.
push_bytes-Split :
    (whole new : List ℕ) (cs : List VividChunk) (rest : List ℕ)
    → Split whole cs (new ++ rest)
    → Split whole (push_bytes cs new) rest
unfolding push_bytes
push_bytes-Split whole [] cs rest s = s
push_bytes-Split whole (b ∷ bs) cs rest s = record {
  conserved =
      ap (λ r. r ++ rest) (extend_last-raw cs (b ∷ bs))
      ∙ append_assoc (raw_chunks cs) (b ∷ bs) rest
      ∙ s.conserved;
  shaped = extend_last-IsShaped cs (b ∷ bs) s.shaped;
}

pub take-Split :
    (whole : List ℕ) (n : ℕ) (cs : List VividChunk) (rest : List ℕ)
    → Split whole cs rest
    → Split whole (push_bytes cs (take n rest)) (drop n rest)
take-Split whole n cs rest s =
    push_bytes-Split whole (take n rest) cs (drop n rest)
      (subst (λ r. Split whole cs r) (sym (take-append-drop n rest)) s)

pub find_bytes-found :
    (needle xs : List ℕ) (p : ℕ)
    → find_bytes needle xs ≡ some p
    → starts_with (drop p xs) needle ≡ true
unfolding find_bytes
find_bytes-found needle [] p e = elim (Bool-cases (starts_with [] needle)) [
  | inl s ↦ subst (λ xs. starts_with xs needle ≡ true) (sym (drop-nil p)) s
  | inr n ↦ let z : none ≡ some p = rw n at e in absurd (ground (arith, z))
]
find_bytes-found needle (x ∷ xs) p e = elim (Bool-cases (starts_with (x ∷ xs) needle)) [
  | inl s ↦
      let z : some 0 ≡ some p = rw s at e in
      let zp : 0 ≡ p = cc in subst (λ (n : ℕ). starts_with (drop n (x ∷ xs)) needle ≡ true) zp s
  | inr n ↦ elim (Option-cases (find_bytes needle xs)) [
    | inl m ↦ let z : none ≡ some p = rw (n, m) at e in absurd (ground (arith, z))
    | inr (p', m) ↦
        let z : some (suc p') ≡ some p = rw (n, m) at e in
        let zp : suc p' ≡ p = cc in
        subst (λ (k : ℕ). starts_with (drop k (x ∷ xs)) needle ≡ true) zp
          (find_bytes-found needle xs p' m)
  ]
]

-- A marker with its envelope is the bytes that it was read from.
pub whole_marker :
    (tail : List ℕ) (e : ℕ)
    → starts_with (drop e tail) apc_terminator ≡ true
    → raw (marker (drop payload_skip (take (12 + e) (apc_prefix ++ tail))))
        ++ drop ((12 + e) + 2) (apc_prefix ++ tail)
      ≡ apc_prefix ++ tail
whole_marker tail e s =
    let at : drop e tail ≡ apc_terminator ++ drop 2 (drop e tail) =
      starts_with-append (drop e tail) apc_terminator s in
    let start = apc_prefix ++ tail in
    let front : take (12 + e) start ≡ apc_prefix ++ take e tail = take_add 12 e start in
    let back : drop ((12 + e) + 2) start ≡ drop 2 (drop e tail) =
      drop_add (12 + e) 2 start ∙ ap (λ r. drop 2 r) (drop_add 12 e start) in
    let middle = take e tail in
    let joined : middle ++ (apc_terminator ++ drop 2 (drop e tail)) ≡ tail =
      ap (λ r. middle ++ r) (sym at) ∙ take-append-drop e tail in
    ap₂ (λ f b. raw (marker (drop payload_skip f)) ++ b) front back
    ∙ ap (λ r. apc_prefix ++ r) (append_assoc middle apc_terminator (drop 2 (drop e tail)) ∙ joined)
