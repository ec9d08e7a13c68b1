-- ===== src/Ipc/Bytes.antt =====
-- `to_be_bytes` and `from_be_bytes` at the widths that src/ipc.rs uses. A byte is a number below 256.
use vvmux.Prelude.{
  ℕ, ◌+◌, ◌*◌, ◌/◌, ◌%◌, ◌<◌, ◌≡◌, refl, ap, ◌∙◌, List, [], ◌∷◌, ◌++◌, arith, length, take, drop,
}

abbrev pub Bytes : Type 0
Bytes = List ℕ

unfoldable pub be16 : ℕ → Bytes
be16 n = n / 256 % 256 ∷ n % 256 ∷ []

unfoldable pub be32 : ℕ → Bytes
unfolding be16
be32 n = be16 (n / 65536) ++ be16 (n % 65536)

unfoldable pub be64 : ℕ → Bytes
unfolding be32
be64 n = be32 (n / 4294967296) ++ be32 (n % 4294967296)

-- The number that the bytes spell, the first one the highest.
unfoldable pub from_be : ℕ → Bytes → ℕ
from_be acc [] = acc
from_be acc (b ∷ bs) = from_be (acc * 256 + b) bs

-- `&bytes[from .. from + count]`
abbrev pub slice : ℕ → ℕ → Bytes → Bytes
slice from count bytes = take count (drop from bytes)

pub length-be16 : (n : ℕ) → length (be16 n) ≡ 2
unfolding be16
length-be16 n = refl

pub length-be32 : (n : ℕ) → length (be32 n) ≡ 4
unfolding be32
length-be32 n = refl

pub length-be64 : (n : ℕ) → length (be64 n) ≡ 8
unfolding be64
length-be64 n = refl

from_be-be16 : (acc n : ℕ) → n < 65536 → from_be acc (be16 n) ≡ acc * 65536 + n
unfolding from_be be16
from_be-be16 acc n h = omega arith

from_be-append : (acc : ℕ) (xs ys : Bytes) → from_be acc (xs ++ ys) ≡ from_be (from_be acc xs) ys
unfolding from_be
from_be-append acc [] ys = refl
from_be-append acc (x ∷ xs) ys = from_be-append (acc * 256 + x) xs ys

from_be-be32 : (acc n : ℕ) → n < 4294967296 → from_be acc (be32 n) ≡ acc * 4294967296 + n
unfolding be32
from_be-be32 acc n h =
    from_be-append acc (be16 (n / 65536)) (be16 (n % 65536))
    ∙ from_be-be16 _ (n % 65536) (omega arith)
    ∙ ap (λ t. t * 65536 + n % 65536) (from_be-be16 acc (n / 65536) (omega arith))
    ∙ omega arith

-- A number comes back from its bytes.
pub be16-round_trip : (n : ℕ) → n < 65536 → from_be 0 (be16 n) ≡ n
be16-round_trip n h = omega (arith, from_be-be16 0 n h)

pub be32-round_trip : (n : ℕ) → n < 4294967296 → from_be 0 (be32 n) ≡ n
be32-round_trip n h = omega (arith, from_be-be32 0 n h)

pub be64-round_trip : (n : ℕ) → n < 18446744073709551616 → from_be 0 (be64 n) ≡ n
unfolding be64
be64-round_trip n h =
    from_be-append 0 (be32 (n / 4294967296)) (be32 (n % 4294967296))
    ∙ from_be-be32 _ (n % 4294967296) (omega arith)
    ∙ ap (λ t. t * 4294967296 + n % 4294967296) (from_be-be32 0 (n / 4294967296) (omega arith))
    ∙ omega arith
