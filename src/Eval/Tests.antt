-- ===== src/Eval/Tests.antt =====
-- Concrete scores of eval/score.h.
use sofcheck.Common.{◌+◌, ◌%◌, ◌-◌, ◌^◌, ◌≡◌, true, false, not, ◌==◌, refl, u16, arith}
use sofcheck.Eval.Score.{
  pair_from, pair_first, pair_second, pair_add, pair_neg, pair_from_lem, pair_add_lem, pair_neg_lem,
}
use sofcheck.Eval.Mate.{
  adjust_checkmate, is_score_checkmate, is_score_valid, score_checkmate_lose, score_checkmate_win,
  score_checkmate-valid, adjust_checkmate_lem,
}

-- The scores 1000 and -8000.
pair_from_lem_example :
    (pair_first (pair_from 1000 57536) ≡ 1000) × (pair_second (pair_from 1000 57536) ≡ 57536)
pair_from_lem_example = pair_from_lem 1000 57536 (omega arith) (omega arith)

pair_add_lem_example :
    pair_add (pair_from 1000 57536) (pair_from 65535 5)
    ≡ pair_from (u16 (1000 + 65535)) (u16 (57536 + 5))
pair_add_lem_example =
    pair_add_lem 1000 57536 65535 5 (omega arith) (omega arith) (omega arith) (omega arith) refl

pair_neg_lem_example :
    pair_neg (pair_from 1000 57536) ≡ pair_from (u16 (2 ^ 16 - 1000)) (u16 (2 ^ 16 - 57536))
pair_neg_lem_example = pair_neg_lem 1000 57536 (omega arith) (omega arith) (omega arith)

score_checkmate-valid_example :
    (is_score_checkmate (score_checkmate_lose 6) ≡ true)
    × (is_score_checkmate (score_checkmate_win 6) ≡ true)
    × (is_score_valid (score_checkmate_lose 6) ≡ (6 % 2 == 0))
    × (is_score_valid (score_checkmate_win 6) ≡ not (6 % 2 == 0))
score_checkmate-valid_example = score_checkmate-valid 6 (omega arith)

adjust_checkmate_lem_example :
    (adjust_checkmate (score_checkmate_lose 6) 2 ≡ score_checkmate_lose (6 + 2))
    × (adjust_checkmate (score_checkmate_win 6) 2 ≡ score_checkmate_win (6 + 2))
    × (is_score_checkmate 150 ≡ false → adjust_checkmate 150 2 ≡ 150)
adjust_checkmate_lem_example = adjust_checkmate_lem 6 2 150 (omega arith)
