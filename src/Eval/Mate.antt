-- ===== src/Eval/Mate.antt =====
-- eval/score.h: scores that tell in how many plies a side is checkmated. A score is its 16-bit
-- pattern.
use sofcheck.Common.{
  ℕ, ◌+◌, ◌-◌, ◌%◌, ◌^◌, ◌≤◌, ◌≡◌, Bool, true, false, not, ◌&&◌, ◌||◌, leb, ◌==◌, if◌then◌else◌,
  u16, arith,
}
use sofcheck.Eval.Score.{is_negative}

abbrev pub score_inf : ℕ
score_inf = 32767

abbrev pub score_checkmate_threshold : ℕ
score_checkmate_threshold = 28000

abbrev pub score_checkmate : ℕ
score_checkmate = 30000

-- `score <= -bound` and `score >= bound` of patterns, for a positive bound.
abbrev pub at_most_minus : ℕ → ℕ → Bool
at_most_minus bound score = is_negative score && leb score (2 ^ 16 - bound)

abbrev pub at_least : ℕ → ℕ → Bool
at_least bound score = not (is_negative score) && leb bound score

unfoldable pub score_checkmate_lose : ℕ → ℕ
score_checkmate_lose plies = u16 (plies + 2 ^ 16 - score_checkmate)

unfoldable pub score_checkmate_win : ℕ → ℕ
score_checkmate_win plies = u16 (score_checkmate + 2 ^ 16 - plies)

unfoldable pub is_score_checkmate : ℕ → Bool
is_score_checkmate score =
    at_most_minus score_checkmate_threshold score || at_least score_checkmate_threshold score

unfoldable pub is_score_valid : ℕ → Bool
is_score_valid score =
    if at_least (score_checkmate + 1) score || at_most_minus (score_checkmate + 1) score
    then false
    else if at_most_minus score_checkmate_threshold score
    then u16 (score + score_checkmate) % 2 == 0
    else if at_least score_checkmate_threshold score
    then not ((score_checkmate - score) % 2 == 0)
    else true

-- `delta` is a 16-bit pattern too; `delta *= -1` is the pattern of the opposite.
unfoldable pub adjust_checkmate : ℕ → ℕ → ℕ
adjust_checkmate score delta =
    if at_least score_checkmate_threshold score
    then u16 (score + (2 ^ 16 - delta))
    else if at_most_minus score_checkmate_threshold score
    then u16 (score + delta)
    else score

-- Up to 2000 plies, an even number gives a valid score of being checkmated, an odd number one of
-- checkmating.
pub score_checkmate-valid :
    (plies : ℕ)
    → plies ≤ 2000
    → (is_score_checkmate (score_checkmate_lose plies) ≡ true)
      × (is_score_checkmate (score_checkmate_win plies) ≡ true)
      × (is_score_valid (score_checkmate_lose plies) ≡ (plies % 2 == 0))
      × (is_score_valid (score_checkmate_win plies) ≡ not (plies % 2 == 0))
unfolding is_score_checkmate is_score_valid score_checkmate_lose score_checkmate_win
score_checkmate-valid plies le = (ground arith, ground arith, ground arith, ground arith)

-- Adjusting a mate score by a number of plies adds them to the plies before the mate, for either
-- side; a score that tells no mate stays as it is. There are up to 2000 plies in all.
pub adjust_checkmate_lem :
    (plies delta score : ℕ)
    → plies + delta ≤ 2000
    → (adjust_checkmate (score_checkmate_lose plies) delta ≡ score_checkmate_lose (plies + delta))
      × (adjust_checkmate (score_checkmate_win plies) delta ≡ score_checkmate_win (plies + delta))
      × (is_score_checkmate score ≡ false → adjust_checkmate score delta ≡ score)
unfolding adjust_checkmate is_score_checkmate score_checkmate_lose score_checkmate_win
adjust_checkmate_lem plies delta score le = (ground arith, ground arith, λ h. ground arith)
