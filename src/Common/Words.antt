-- ===== src/Common/Words.antt =====
-- Casts to the fixed widths, shifts, and the complement, on native numbers.
use Prim.Native.Nat.{ℕ, ◌*◌, ◌/◌, ◌%◌, ◌^◌, ◌+◌, ◌-◌, bit_xor}

abbrev pub u8 : ℕ → ℕ
u8 n = n % 2 ^ 8

abbrev pub u16 : ℕ → ℕ
u16 n = n % 2 ^ 16

abbrev pub u32 : ℕ → ℕ
u32 n = n % 2 ^ 32

abbrev pub u64 : ℕ → ℕ
u64 n = n % 2 ^ 64

infixl 75 ◌<<<◌ ◌>>>◌
-- `x << k` before its wrap.
abbrev pub ◌<<<◌ : ℕ → ℕ → ℕ
x <<< k = x * 2 ^ k

abbrev pub ◌>>>◌ : ℕ → ℕ → ℕ
x >>> k = x / 2 ^ k

-- The sum of two 8-bit patterns; -k is the pattern 256 - k.
abbrev pub add8 : ℕ → ℕ → ℕ
add8 a b = (a + b) % 256

-- The difference of two 8-bit patterns.
abbrev pub sub8 : ℕ → ℕ → ℕ
sub8 a b = (a + 256 - b) % 256

-- `~x` on a 64-bit word.
unfoldable pub bit_not : ℕ → ℕ
bit_not x = bit_xor x 0xffff_ffff_ffff_ffff
