-- ===== src/Search/Limits.antt =====
-- search/private/limits.cpp: the time for a move. Times are milliseconds and not negative; a failed
-- assertion is `none`.
use sofcheck.Common.{
  ℕ, ◌+◌, ◌-◌, ◌*◌, ◌/◌, ◌<◌, ◌≤◌, ◌≡◌, refl, false, ltb, leb, ◌==◌, if◌then◌else◌, Option, none,
  some, min, max, arith, Bool-cases, inl, inr, leb→le,
}

abbrev pub hard_time_margin_per_move : ℕ
hard_time_margin_per_move = 3

abbrev pub hard_time_margin : ℕ
hard_time_margin = 250

abbrev pub soft_time_margin_per_move : ℕ
soft_time_margin_per_move = 5

abbrev pub soft_time_margin : ℕ
soft_time_margin = 350

abbrev pub min_time_margin : ℕ
min_time_margin = 20

abbrev pub max_moves_left : ℕ
max_moves_left = 50

abbrev pub max_moves_to_go : ℕ
max_moves_to_go = 1000

-- `SoFBotApi::TimeControl` for the side to move; `none` is `MOVES_INFINITE` and the greatest
-- number of milliseconds.
pub record TimeControl : Type 0 where
  pub time : Option ℕ
  pub inc : ℕ
  pub moves_to_go : Option ℕ

unfoldable pub do_calculate_max_time : ℕ → ℕ → ℕ → ℕ → Option ℕ
do_calculate_max_time move_number total_time moves_to_go margin =
    let moves_left = min max_moves_left moves_to_go in
    if moves_left == 0
    then none
    else let moves_left = if ltb move_number 10 then moves_left * 2 else moves_left in
      some (max 2 ((total_time - margin) / (moves_left + 1)))

abbrev pub moves_limit : Option ℕ → ℕ
moves_limit none = max_moves_to_go
moves_limit (some n) = min max_moves_to_go n

abbrev pub time_limit : Option ℕ → ℕ
time_limit none = 3_600_000
time_limit (some t) = t

abbrev pub hard_margin : ℕ → ℕ
hard_margin moves_to_go =
    min hard_time_margin (min_time_margin + moves_to_go * hard_time_margin_per_move)

abbrev pub soft_margin : ℕ → ℕ
soft_margin moves_to_go =
    min soft_time_margin (min_time_margin + moves_to_go * soft_time_margin_per_move)

-- The last safeguards, on the time that was worked out.
unfoldable pub guard_time : ℕ → ℕ → Option ℕ → Option ℕ
guard_time total_time hard none = none
guard_time total_time hard (some time) = some (max (min time (total_time - hard)) 2)

add_inc : ℕ → Option ℕ → Option ℕ
add_inc inc none = none
add_inc inc (some time) = some (time + inc)

unfoldable pub calculate_max_time : ℕ → TimeControl → Option ℕ
unfolding add_inc
calculate_max_time move_number control =
    let moves_to_go = moves_limit control.moves_to_go in
    let total_time = time_limit control.time in
    let hard = hard_margin moves_to_go in
    let soft = soft_margin moves_to_go in
    if leb total_time hard
    then some 1
    else if leb total_time soft
    then some 2
    else guard_time total_time hard
        (add_inc control.inc (do_calculate_max_time move_number total_time moves_to_go soft))

guarded :
    (total hard soft time : ℕ)
    → hard + 2 ≤ soft
    → soft < total
    → let t = max (min time (total - hard)) 2 in (2 ≤ t) × (t + hard ≤ total)
guarded total hard soft time gap lt = (omega arith, omega arith)

some_time :
    (move_number total moves margin : ℕ)
    → 0 < moves
    → (t : ℕ) × (do_calculate_max_time move_number total moves margin ≡ some t)
unfolding do_calculate_max_time
some_time move_number total moves margin pos =
    let busy : (min max_moves_left moves == 0) ≡ false = ground arith in
    let left = min max_moves_left moves in
    (max 2 ((total - margin) / ((if ltb move_number 10 then left * 2 else left) + 1)), rw busy refl)

-- The assertion holds, the time for the move is positive, and beyond the soft margin it is at least
-- 2 and leaves the hard margin on the clock.
abbrev pub HasSafeTime : ℕ → TimeControl → Type 0
HasSafeTime move_number control =
    (t : ℕ) × (calculate_max_time move_number control ≡ some t)
    × (0 < t)
    × (soft_margin (moves_limit control.moves_to_go) < time_limit control.time
        → (2 ≤ t) × (t + hard_margin (moves_limit control.moves_to_go) ≤ time_limit control.time))

-- With at least one move to go the assertion holds, and the time for the move is positive. With
-- more than the soft margin left, it is at least 2 and the hard margin stays on the clock.
pub calculate_max_time_lem :
    (move_number : ℕ) (control : TimeControl)
    → 0 < moves_limit control.moves_to_go
    → HasSafeTime move_number control
unfolding calculate_max_time guard_time add_inc
calculate_max_time_lem move_number control pos =
    let moves = moves_limit control.moves_to_go in
    let total = time_limit control.time in
    let (t, found) = some_time move_number total moves (soft_margin moves) pos in
    elim (Bool-cases (leb total (hard_margin moves))) [
      | inl out ↦ (1, rw out refl, omega arith, λ lt. absurd (omega (arith, leb→le _ _ out)))
      | inr some_left ↦ elim (Bool-cases (leb total (soft_margin moves))) [
        | inl low ↦
            (2, rw (some_left, low) refl, omega arith, λ lt. absurd (omega (arith, leb→le _ _ low)))
        | inr enough ↦ (
          max (min (t + control.inc) (total - hard_margin moves)) 2,
          rw (some_left, enough, found) refl,
          omega arith,
          λ lt.
              guarded total (hard_margin moves) (soft_margin moves) (t + control.inc) (omega arith)
                lt,
        )
      ]
    ]
