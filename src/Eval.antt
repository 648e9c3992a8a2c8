-- ===== src/Eval.antt =====
-- eval/score.h.
pub mod Score
pub mod Mate
pub mod Tests
