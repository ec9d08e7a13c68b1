-- ===== src/Prelude/Word.antt =====
-- Unsigned machine arithmetic, with the wrap-around and the saturation written out. A plain `+`
-- or `*` of the source wraps, as in a release build.
use Prim.Native.Nat.{ℕ, ◌+◌, ◌-◌, ◌*◌, ◌%◌, min, max}

abbrev pub u16_max : ℕ
u16_max = 65535

abbrev pub u32_max : ℕ
u32_max = 4294967295

abbrev pub u64_max : ℕ
u64_max = 18446744073709551615

abbrev pub saturating_add : ℕ → ℕ → ℕ → ℕ
saturating_add limit a b = min (a + b) limit

abbrev pub add_u16 : ℕ → ℕ → ℕ
add_u16 a b = (a + b) % 65536

-- `usize`, of 64 bits.
abbrev pub add_usize : ℕ → ℕ → ℕ
add_usize a b = (a + b) % 18446744073709551616

abbrev pub sub_u16 : ℕ → ℕ → ℕ
sub_u16 a b = (a + 65536 - b) % 65536

abbrev pub mul_u32 : ℕ → ℕ → ℕ
mul_u32 a b = (a * b) % 4294967296

-- `Ord::clamp` where the caller has made sure that `lo` does not exceed `hi`.
abbrev pub clamp : ℕ → ℕ → ℕ → ℕ
clamp lo hi a = min (max a lo) hi
