-- ===== src/Util/Tests.antt =====
-- The bits of a word.
use sofcheck.Common.{ℕ, zero, suc, ◌<◌, ◌≡◌, false, refl, arith, Occurs}
use sofcheck.Common.Bits.{test_bit}
use sofcheck.Util.Bit.{get_lowest, bits_of, popcount}
use sofcheck.Util.Bit.Lowest.{IsLowest, get_lowest_lem}
use sofcheck.Util.Bit.Count.{digit_sum, popcount_lem}
use sofcheck.Util.Bit.Extract.{bits_of-Occurs}

below_three : (i : ℕ) → i < 3 → test_bit 40 i ≡ false
unfolding test_bit
below_three zero lt = refl
below_three (suc zero) lt = refl
below_three (suc (suc zero)) lt = refl
below_three (suc (suc (suc i))) lt = absurd (omega arith)

forty-IsLowest : IsLowest 40 3
unfolding test_bit
forty-IsLowest = record { is_set = refl; none_below = below_three }

get_lowest_lem_example : get_lowest 40 ≡ 3
get_lowest_lem_example = get_lowest_lem 40 3 forty-IsLowest (omega arith)

bits_of-Occurs_example : Occurs 5 (bits_of 40)
unfolding test_bit
bits_of-Occurs_example = bits_of-Occurs 40 5 (omega arith) refl

popcount_lem_example : popcount 40 ≡ digit_sum 64 40
popcount_lem_example = popcount_lem 40
