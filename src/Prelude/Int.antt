-- ===== src/Prelude/Int.antt =====
-- Signed integers over the native numbers, and the two's complement types of the source:
-- `checked_add` and `checked_sub`, the wrapping operations, `min`, `max` and `clamp`.
-- Sums and orders go through the two parts of an integer, which are numbers that `omega` reads.
use vvmux.Prelude.{
  ℕ, suc, ◌+◌, ◌-◌, ◌*◌, ◌%◌, ◌^◌, ◌≤◌, ◌≡◌, refl, ◌⊎◌, inl, inr, Bool, true, false, ◌&&◌, Option,
  none, some, arith, ltb, leb, if◌then◌else◌, Bool-cases,
}

-- `negsuc n` is -(n + 1).
pub data ℤ : Type 0 where
  pos : ℕ → ℤ
  negsuc : ℕ → ℤ

abbrev pub pos_part : ℤ → ℕ
pos_part (pos n) = n
pos_part (negsuc n) = 0

abbrev pub neg_part : ℤ → ℕ
neg_part (pos n) = 0
neg_part (negsuc n) = suc n

-- a - b, as an integer.
abbrev pub sub_ℕ : ℕ → ℕ → ℤ
sub_ℕ a b = if leb b a then pos (a - b) else negsuc (b - a - 1)

infixl 65 ◌+ℤ◌ ◌-ℤ◌
infix 50 ◌≤ℤ◌ ◌<ℤ◌
unfoldable pub ◌+ℤ◌ : ℤ → ℤ → ℤ
a +ℤ b = sub_ℕ (pos_part a + pos_part b) (neg_part a + neg_part b)

unfoldable pub ◌-ℤ◌ : ℤ → ℤ → ℤ
a -ℤ b = sub_ℕ (pos_part a + neg_part b) (neg_part a + pos_part b)

abbrev pub ◌≤ℤ◌ : ℤ → ℤ → Type 0
a ≤ℤ b = pos_part a + neg_part b ≤ pos_part b + neg_part a

abbrev pub ◌<ℤ◌ : ℤ → ℤ → Type 0
a <ℤ b = suc (pos_part a + neg_part b) ≤ pos_part b + neg_part a

abbrev pub leb_ℤ : ℤ → ℤ → Bool
leb_ℤ a b = leb (pos_part a + neg_part b) (pos_part b + neg_part a)

abbrev pub ltb_ℤ : ℤ → ℤ → Bool
ltb_ℤ a b = ltb (pos_part a + neg_part b) (pos_part b + neg_part a)

abbrev pub eq_ℤ : ℤ → ℤ → Bool
eq_ℤ a b = leb_ℤ a b && leb_ℤ b a

unfoldable pub max_ℤ : ℤ → ℤ → ℤ
max_ℤ a b = if leb_ℤ a b then b else a

unfoldable pub min_ℤ : ℤ → ℤ → ℤ
min_ℤ a b = if leb_ℤ a b then a else b

-- One lemma for each operation lets `omega` work with the operations shut, at any depth.
pub +ℤ_parts :
    (a b : ℤ)
    → pos_part (a +ℤ b) + neg_part a + neg_part b ≡ neg_part (a +ℤ b) + pos_part a + pos_part b
unfolding ◌+ℤ◌
+ℤ_parts a b = ground arith

pub -ℤ_parts :
    (a b : ℤ)
    → pos_part (a -ℤ b) + neg_part a + pos_part b ≡ neg_part (a -ℤ b) + pos_part a + neg_part b
unfolding ◌-ℤ◌
-ℤ_parts a b = ground arith

pub eq_of_parts : (a b : ℤ) → pos_part a + neg_part b ≡ pos_part b + neg_part a → a ≡ b
eq_of_parts a b h = ground arith

pub le-max_ℤ : (a b : ℤ) → (a ≤ℤ max_ℤ a b) × (b ≤ℤ max_ℤ a b)
unfolding max_ℤ
le-max_ℤ a b = ground arith

pub max_ℤ_le : (a b : ℤ) → (max_ℤ a b ≤ℤ a) ⊎ (max_ℤ a b ≤ℤ b)
unfolding max_ℤ
max_ℤ_le a b = ground arith

pub min_ℤ_le : (a b : ℤ) → (min_ℤ a b ≤ℤ a) × (min_ℤ a b ≤ℤ b)
unfolding min_ℤ
min_ℤ_le a b = ground arith

pub le-min_ℤ : (a b : ℤ) → (a ≤ℤ min_ℤ a b) ⊎ (b ≤ℤ min_ℤ a b)
unfolding min_ℤ
le-min_ℤ a b = ground arith

pub ruleset int_laws =
    (arith, +ℤ_parts, -ℤ_parts, eq_of_parts, le-max_ℤ, max_ℤ_le, min_ℤ_le, le-min_ℤ)

-- The range of a signed integer of `2 * half` values.
abbrev pub InRange : ℕ → ℤ → Type 0
InRange half z = (neg_part z ≤ pos_part z + half) × (suc (pos_part z) ≤ neg_part z + half)

abbrev pub in_range : ℕ → ℤ → Bool
in_range half z = leb (neg_part z) (pos_part z + half) && ltb (pos_part z) (neg_part z + half)

abbrev pub half_i64 : ℕ
half_i64 = 2 ^ 63

abbrev pub half_i32 : ℕ
half_i32 = 2 ^ 31

abbrev pub InI64 : ℤ → Type 0
InI64 z = InRange half_i64 z

-- Two's complement: the bit pattern is kept, and read again as a signed number.
unfoldable pub wrap : ℕ → ℤ → ℤ
wrap half (pos n) =
    let k = n % (2 * half) in if ltb k half then pos k else negsuc (2 * half - k - 1)
wrap half (negsuc n) =
    let k = n % (2 * half) in if ltb k half then negsuc k else pos (2 * half - k - 1)

unfoldable pub checked : ℕ → ℤ → Option ℤ
checked half z = if in_range half z then some z else none

pub checked-cases :
    (half : ℕ) (z : ℤ)
    → (checked half z ≡ some z) × InRange half z ⊎ (checked half z ≡ none) × ¬ InRange half z
unfolding checked
checked-cases half z = ground arith

pub wrap_i64_lem : (z : ℤ) → InI64 z → wrap half_i64 z ≡ z
unfolding wrap
wrap_i64_lem (pos n) h = ground arith
wrap_i64_lem (negsuc n) h = ground arith

pub wrap_i32_lem : (z : ℤ) → InRange half_i32 z → wrap half_i32 z ≡ z
unfolding wrap
wrap_i32_lem (pos n) h = ground arith
wrap_i32_lem (negsuc n) h = ground arith
