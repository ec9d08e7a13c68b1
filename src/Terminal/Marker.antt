-- ===== src/Terminal/Marker.antt =====
-- `VividMarkerScanner` of vvmux-terminal/src/lib.rs, as it is built on Unix, with one envelope. A
-- marker holds the ASCII bytes of its string.
pub mod Bytes
pub mod Scans
use vvmux.Prelude.{
  ℕ, zero, suc, ◌+◌, ◌-◌, min, Bool, true, false, ◌&&◌, ◌||◌, Option, none, some, List, [], ◌∷◌,
  ◌++◌, length, take, drop, ltb, leb, ◌==◌, if◌then◌else◌,
}
use vvmux.Input.Event.{starts_with}

abbrev pub max_marker_bytes : ℕ
max_marker_bytes = 128

-- `APC_ENVELOPE`: ESC _ V I V I D ; 2 ; A ; and ESC \
abbrev pub apc_prefix : List ℕ
apc_prefix = 27 ∷ 95 ∷ 86 ∷ 73 ∷ 86 ∷ 73 ∷ 68 ∷ 59 ∷ 50 ∷ 59 ∷ 65 ∷ 59 ∷ []

abbrev pub apc_terminator : List ℕ
apc_terminator = 27 ∷ 92 ∷ []

abbrev pub payload_skip : ℕ
payload_skip = 2

pub data VividChunk : Type 0 where
  bytes : List ℕ → VividChunk
  marker : List ℕ → VividChunk

unfoldable pub is_digit : ℕ → Bool
is_digit b = leb 48 b && leb b 57

unfoldable pub is_upper : ℕ → Bool
is_upper b = leb 65 b && leb b 90

unfoldable pub is_lower : ℕ → Bool
is_lower b = leb 97 b && leb b 122

unfoldable pub is_base64url : ℕ → Bool
is_base64url b = is_digit b || is_upper b || is_lower b || b == 45 || b == 95

unfoldable pub is_hexdigit : ℕ → Bool
is_hexdigit b = is_digit b || (leb 65 b && leb b 70) || (leb 97 b && leb b 102)

unfoldable pub every : (ℕ → Bool) → List ℕ → Bool
every test [] = true
every test (b ∷ bs) = test b && every test bs

-- `split(';')`: the first field and the others.
unfoldable pub split : List ℕ → List ℕ × List (List ℕ)
split [] = ([], [])
split (b ∷ bs) =
    let rest = split bs in if b == 59 then ([], rest.0 ∷ rest.1) else (b ∷ rest.0, rest.1)

unfoldable pub is_same : List ℕ → List ℕ → Bool
is_same xs ys = length xs == length ys && starts_with xs ys

unfoldable pub is_nonzero_id : List ℕ → Bool
is_nonzero_id id = every is_hexdigit id && (if every (λ b. b == 48) id then false else true)

unfoldable pub is_token : List ℕ → Bool
is_token t = length t == 22 && every is_base64url t

-- The fields of `valid_marker_shape`: VIVID, 2, A, a tag, an id and an authenticator, and no more.
unfoldable pub valid_fields : List (List ℕ) → Bool
valid_fields (f1 ∷ f2 ∷ f3 ∷ tag ∷ id ∷ auth ∷ []) =
    (is_same f1 (86 ∷ 73 ∷ 86 ∷ 73 ∷ 68 ∷ []) && is_same f2 (50 ∷ []) && is_same f3 (65 ∷ []))
    && is_token tag
    && (length id == 16 && is_nonzero_id id)
    && is_token auth
valid_fields _ = false

-- `from_utf8` and `valid_marker_shape`: bytes that are ASCII are UTF-8.
unfoldable pub valid_marker_shape : List ℕ → Bool
valid_marker_shape m =
    if ltb 124 (length m)
    then false
    else if every (λ b. leb b 127) m
    then valid_fields ((split m).0 ∷ (split m).1)
    else false

unfoldable pub find_bytes : List ℕ → List ℕ → Option ℕ
find_bytes needle [] = if starts_with [] needle then some 0 else none
find_bytes needle (b ∷ bs) =
    let later = find_bytes needle bs in
    if starts_with (b ∷ bs) needle
    then some 0
    else elim later [ none ↦ none | some p ↦ some (suc p) ]

unfoldable pub ends_with : List ℕ → List ℕ → Bool
ends_with haystack suffix =
    if leb (length suffix) (length haystack)
    then starts_with (drop (length haystack - length suffix) haystack) suffix
    else false

-- The greatest length up to `n` of a start of `prefix` that the haystack ends with.
unfoldable pub partial_up_to : List ℕ → List ℕ → ℕ → ℕ
partial_up_to haystack prefix zero = 0
partial_up_to haystack prefix (suc n) =
    let shorter = partial_up_to haystack prefix n in
    if ends_with haystack (take (suc n) prefix) then suc n else shorter

unfoldable pub partial_prefix_len : List ℕ → List ℕ → ℕ
partial_prefix_len haystack prefix =
    partial_up_to haystack prefix (min (length haystack) (length prefix - 1))

unfoldable pub extend_last : List VividChunk → List ℕ → List VividChunk
extend_last [] new = bytes new ∷ []
extend_last (bytes previous ∷ []) new = bytes (previous ++ new) ∷ []
extend_last (c ∷ cs) new = c ∷ extend_last cs new

unfoldable pub push_bytes : List VividChunk → List ℕ → List VividChunk
push_bytes chunks [] = chunks
push_bytes chunks (b ∷ bs) = extend_last chunks (b ∷ bs)

-- A round of the loop of `push`: it goes on, or breaks, with the chunks and the bytes from the
-- cursor on.
pub data Round : Type 0 where
  next : List VividChunk → List ℕ → Round
  stop : List VividChunk → List ℕ → Round

-- The bytes of the prefix are passed on.
unfoldable pub skip_prefix : List VividChunk → List ℕ → Round
skip_prefix chunks rest =
    next (push_bytes chunks (take (length apc_prefix) rest)) (drop (length apc_prefix) rest)

-- The bytes before `terminator`, and those up to `end`.
unfoldable pub take_marker : List VividChunk → List ℕ → ℕ → ℕ → Round
take_marker chunks rest terminator end =
    let payload = drop payload_skip (take terminator rest) in
    if valid_marker_shape payload
    then next (chunks ++ (marker payload ∷ [])) (drop end rest)
    else next (push_bytes chunks (take end rest)) (drop end rest)

-- The rest of a round once a prefix stands at the cursor.
unfoldable pub at_prefix : List VividChunk → List ℕ → Round
at_prefix chunks rest = elim (find_bytes apc_terminator (drop (length apc_prefix) rest)) [
  | none ↦ if ltb max_marker_bytes (length rest) then skip_prefix chunks rest else stop chunks rest
  | some relative_end ↦
      if ltb max_marker_bytes (length apc_prefix + relative_end + length apc_terminator)
      then skip_prefix chunks rest
      else take_marker chunks rest (length apc_prefix + relative_end)
          (length apc_prefix + relative_end + length apc_terminator)
]

unfoldable pub round : List VividChunk → List ℕ → Round
round chunks rest = elim (find_bytes apc_prefix rest) [
  | none ↦
      stop (push_bytes chunks (take (length rest - partial_prefix_len rest apc_prefix) rest))
        (drop (length rest - partial_prefix_len rest apc_prefix) rest)
  | some start ↦ at_prefix (push_bytes chunks (take start rest)) (drop start rest)
]

-- Each round that goes on passes the prefix, so that the length is fuel enough.
unfoldable pub scan : ℕ → List VividChunk → List ℕ → List VividChunk × List ℕ
scan zero chunks rest = (chunks, rest)
scan (suc fuel) chunks rest = elim (round chunks rest) [
  | next chunks' rest' ↦ scan fuel chunks' rest'
  | stop chunks' rest' ↦ (chunks', rest')
]

-- `push`: the chunks, and the bytes that are pending then.
unfoldable pub push : List ℕ → List ℕ → List VividChunk × List ℕ
push pending new = scan (suc (length pending + length new)) [] (pending ++ new)

unfoldable pub finish : List ℕ → List VividChunk
finish [] = []
finish (b ∷ bs) = bytes (b ∷ bs) ∷ []
