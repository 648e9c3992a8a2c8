-- ===== src/Eval/Score.antt =====
-- eval/score.h: two scores packed into one 32-bit number. `score_t` values are their 16-bit patterns
-- and the packed value is its 32-bit pattern.
use sofcheck.Common.{
  ℕ, ◌+◌, ◌-◌, ◌*◌, ◌/◌, ◌^◌, ◌<◌, ◌≡◌, ◌≢◌, Bool, leb, if◌then◌else◌, u16, u32, arith,
}

-- `score < 0`.
abbrev pub is_negative : ℕ → Bool
is_negative score = leb (2 ^ 15) score

-- The 32-bit pattern of a 16-bit score.
abbrev pub widen : ℕ → ℕ
widen score = if is_negative score then score + (2 ^ 32 - 2 ^ 16) else score

-- `ScorePair::from(first, second)`, `first()` and `second()`.
unfoldable pub pair_from : ℕ → ℕ → ℕ
pair_from first second = u32 (widen second * 0x10000 + widen first)

unfoldable pub pair_first : ℕ → ℕ
pair_first value = u16 value

unfoldable pub pair_second : ℕ → ℕ
pair_second value =
    let unsigned_res = value / 2 ^ 16 in
    if is_negative (pair_first value) then u16 (unsigned_res + 1) else unsigned_res

-- The operators work on the packed values.
unfoldable pub pair_add : ℕ → ℕ → ℕ
pair_add a b = u32 (a + b)

unfoldable pub pair_sub : ℕ → ℕ → ℕ
pair_sub a b = u32 (a + 2 ^ 32 - b)

unfoldable pub pair_neg : ℕ → ℕ
pair_neg a = u32 (2 ^ 32 - a)

-- Both scores are found again in their pair, whatever their signs.
pub pair_from_lem :
    (first second : ℕ)
    → first < 2 ^ 16
    → second < 2 ^ 16
    → (pair_first (pair_from first second) ≡ first)
      × (pair_second (pair_from first second) ≡ second)
unfolding pair_from pair_first pair_second
pair_from_lem first second hf hs = (ground arith, ground arith)

-- The sum of two pairs is the pair of the sums, when the first scores' sum does not overflow.
pub pair_add_lem :
    (a b c d : ℕ)
    → a < 2 ^ 16
    → b < 2 ^ 16
    → c < 2 ^ 16
    → d < 2 ^ 16
    → widen (u16 (a + c)) ≡ u32 (widen a + widen c)
    → pair_add (pair_from a b) (pair_from c d) ≡ pair_from (u16 (a + c)) (u16 (b + d))
unfolding pair_add pair_from
pair_add_lem a b c d ha hb hc hd fits = ground arith

-- The opposite of a packed pair is the pair of the opposite scores, if the first score is not the
-- least one.
pub pair_neg_lem :
    (a b : ℕ)
    → a < 2 ^ 16
    → b < 2 ^ 16
    → a ≢ 2 ^ 15
    → pair_neg (pair_from a b) ≡ pair_from (u16 (2 ^ 16 - a)) (u16 (2 ^ 16 - b))
unfolding pair_neg pair_from
pair_neg_lem a b ha hb ne = ground arith
