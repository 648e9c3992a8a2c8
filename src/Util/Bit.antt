-- ===== src/Util/Bit.antt =====
-- util/bit.h: operations on 64-bit words, as they are written for compilers without intrinsics.
pub mod Lowest
pub mod Extract
pub mod Bytes
pub mod Count
use sofcheck.Common.{
  ℕ, zero, suc, ◌+◌, ◌-◌, ◌*◌, ◌^◌, Bool, true, false, ◌==◌, if◌then◌else◌, List, [], ◌∷◌, bit_and,
  bit_or, bit_xor, u8, u64, ◌<<<◌, ◌>>>◌, read,
}

unfoldable pub has_zero_or_one_bit : ℕ → Bool
has_zero_or_one_bit x = bit_and x (x - 1) == 0

unfoldable pub clear_lowest : ℕ → ℕ
clear_lowest x = bit_and x (x - 1)

-- The table `INDEX` of `getLowest`.
unfoldable pub lowest_index : List ℕ
lowest_index =
    0 ∷ 47 ∷ 1 ∷ 56 ∷ 48 ∷ 27 ∷ 2 ∷ 60 ∷ 57 ∷ 49 ∷ 41 ∷ 37 ∷ 28 ∷ 16 ∷ 3 ∷ 61 ∷ 54 ∷ 58 ∷ 35 ∷ 52
    ∷ 50 ∷ 42 ∷ 21 ∷ 44 ∷ 38 ∷ 32 ∷ 29 ∷ 23 ∷ 17 ∷ 11 ∷ 4 ∷ 62 ∷ 46 ∷ 55 ∷ 26 ∷ 59 ∷ 40 ∷ 36 ∷ 15
    ∷ 53 ∷ 34 ∷ 51 ∷ 20 ∷ 43 ∷ 31 ∷ 22 ∷ 10 ∷ 45 ∷ 25 ∷ 39 ∷ 14 ∷ 33 ∷ 19 ∷ 30 ∷ 9 ∷ 24 ∷ 13 ∷ 18
    ∷ 8 ∷ 12 ∷ 7 ∷ 6 ∷ 5 ∷ 63 ∷ []

-- The table's entry for `x ^ (x - 1)`.
unfoldable pub de_bruijn : ℕ → ℕ
de_bruijn y = read lowest_index (u64 (y * 0x03f79d71b4cb0a89) >>> 58)

-- For a word that is not 0: `x - 1` wraps around in the source, and stops at 0 here.
unfoldable pub get_lowest : ℕ → ℕ
get_lowest x = de_bruijn (bit_xor x (x - 1))

-- `while (x) { … extractLowest(x) … }`, on fuel: the positions in the order in which they are taken.
unfoldable pub extract_all : ℕ → ℕ → List ℕ
extract_all zero x = []
extract_all (suc fuel) x =
    let rest = extract_all fuel (clear_lowest x) in if x == 0 then [] else get_lowest x ∷ rest

-- A word has 64 bits at most.
unfoldable pub bits_of : ℕ → List ℕ
bits_of x = extract_all 64 x

unfoldable pub byte_gather : ℕ → ℕ
byte_gather x =
    let a = bit_or x (x >>> 32) in let b = bit_or a (a >>> 16) in let c = bit_or b (b >>> 8) in u8 c

unfoldable pub byte_scatter : ℕ → ℕ
byte_scatter x = u64 (x * 0x0101010101010101)

unfoldable pub rotate_left : ℕ → ℕ → ℕ
rotate_left x shift = if shift == 0 then x else bit_or (u64 (x <<< shift)) (x >>> (64 - shift))

unfoldable pub rotate_right : ℕ → ℕ → ℕ
rotate_right x shift = if shift == 0 then x else bit_or (x >>> shift) (u64 (x <<< (64 - shift)))

-- `popcount` as it is written for compilers without an instruction for it.
unfoldable pub popcount : ℕ → ℕ
popcount x =
    let a = x - bit_and (x >>> 1) 0x5555555555555555 in
    let b = bit_and a 0x3333333333333333 + bit_and (a >>> 2) 0x3333333333333333 in
    let c = bit_and (b + (b >>> 4)) 0x0f0f0f0f0f0f0f0f in u64 (c * 0x0101010101010101) >>> 56
