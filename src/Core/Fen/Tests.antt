-- ===== src/Core/Fen/Tests.antt =====
-- FEN of the first position, with decimal numbers for `std::to_chars` and `std::from_chars`.
use mathlib.Core.List.{append_assoc, append-nil}
use sofcheck.Common.{
  ℕ, zero, suc, ◌+◌, ◌-◌, ◌*◌, ◌/◌, ◌%◌, ◌^◌, ◌<◌, ◌≤◌, ◌≡◌, ◌∙◌, sym, ap, refl, Bool, true, false,
  ◌&&◌, leb, ltb, if◌then◌else◌, List, [], ◌∷◌, ◌++◌, length, read, write, arith, All, All-append,
  length-append, Bool-cases, inl, inr, for_below,
}
use sofcheck.Core.Types.{is_cell_valid, make_coord}
use sofcheck.Core.Board.{update, update_enpassant, update_castling_of, update_bitboards}
use sofcheck.Core.Initial.{initial_cells, set_initial_position}
use sofcheck.Core.Validate.{all_cells_valid}
use sofcheck.Core.Tests.{keys, blank, start, start-IsSynced}
use sofcheck.Core.MoveGen.Tests.{start-IsCoherent}
use sofcheck.Core.Fen.{as_fen}
use sofcheck.Core.Reach.Play.{InPlay}
use sofcheck.Core.Reach.Initial.{initial_text, set_initial_position_lem}
use sofcheck.Core.Fen.Parse.{returns, ok, set_from_fen}
use sofcheck.Core.Fen.Trip.{Printable, set_from_fen-as_fen}
use sofcheck.Core.Fen.Stages.{Ends}
use sofcheck.Core.Fen.Accepted.{Accepted, set_from_fen-Ends}
use sofcheck.Util.Strutil.{Charconv}

-- The decimal digits of a number, with fuel for as many digits.
decimal : ℕ → ℕ → List ℕ
decimal zero n = []
decimal (suc f) n =
    let more = decimal f (n / 10) in
    if ltb n 10 then (48 + n) ∷ [] else more ++ ((48 + n % 10) ∷ [])

abbrev is_digit : ℕ → Bool
is_digit c = leb 48 c && leb c 57

read_digits : ℕ → List ℕ → ℕ × List ℕ
read_digits n [] = (n, [])
read_digits n (c ∷ cs) =
    let more = read_digits (n * 10 + (c - 48)) cs in if is_digit c then more else (n, c ∷ cs)

decimal-digits : (f n : ℕ) → All (λ c. (48 ≤ c) × (c ≤ 57)) (decimal f n)
unfolding decimal
decimal-digits zero n = tt
decimal-digits (suc f) n = elim (Bool-cases (ltb n 10)) [
  | inl one ↦ let lt : n < 10 = ground arith in rw one ((omega arith, omega arith), tt)
  | inr many ↦ rw many (
      All-append (λ c. (48 ≤ c) × (c ≤ 57)) (decimal f (n / 10)) ((48 + n % 10) ∷ [])
        (decimal-digits f (n / 10)) ((omega arith, omega arith), tt))
]

read_digit :
    (m k : ℕ) (rest : List ℕ)
    → k < 10
    → read_digits m ((48 + k) ∷ rest) ≡ read_digits (m * 10 + k) rest
unfolding read_digits
read_digit m k rest lt =
    let digit : is_digit (48 + k) ≡ true = ground arith in
    let value : 48 + k - 48 ≡ k = omega arith in rw (digit, value) refl

one_digit : (n : ℕ) (rest : List ℕ) → n < 10 → read_digits 0 ((48 + n) ∷ rest) ≡ read_digits n rest
one_digit n rest lt =
    let value : 0 * 10 + n ≡ n = omega arith in
    read_digit 0 n rest lt ∙ ap (λ m. read_digits m rest) value

read_digits-decimal :
    (f n : ℕ) (rest : List ℕ)
    → n < 10 ^ suc f
    → read_digits 0 (decimal (suc f) n ++ rest) ≡ read_digits n rest
unfolding decimal
read_digits-decimal zero n rest lt =
    let one : ltb n 10 ≡ true = ground arith in rw one (one_digit n rest (omega arith))
read_digits-decimal (suc f) n rest lt = elim (Bool-cases (ltb n 10)) [
  | inl one ↦ rw one (one_digit n rest (ground arith))
  | inr many ↦
      let value : n / 10 * 10 + n % 10 ≡ n = omega arith in
      rw many (
        ap (read_digits 0) (append_assoc (decimal (suc f) (n / 10)) ((48 + n % 10) ∷ []) rest)
        ∙ read_digits-decimal f (n / 10) ((48 + n % 10) ∷ rest) (omega arith)
        ∙ read_digit (n / 10) (n % 10) rest (omega arith)
        ∙ ap (λ m. read_digits m rest) value)
]

-- A value that does not fit, or no digit at all, is an error.
checked : Bool → ℕ → List ℕ → ℕ × List ℕ × Bool
checked true n rest = (n, rest, true)
checked false n rest = (0, rest, false)

read_number : List ℕ → ℕ × List ℕ × Bool
read_number [] = (0, [], false)
read_number (c ∷ cs) =
    let (n, rest) = read_digits 0 (c ∷ cs) in checked (is_digit c && ltb n 65536) n rest

checked_lt :
    (t : Bool) (n : ℕ) (rest : List ℕ) → (t ≡ true → n < 65536) → (checked t n rest).0 < 65536
unfolding checked
checked_lt true n rest h = h refl
checked_lt false n rest h = omega arith

read_number_lt : (str : List ℕ) → (read_number str).0 < 2 ^ 16
unfolding read_number
read_number_lt [] = omega arith
read_number_lt (c ∷ cs) =
    let (n, rest) = read_digits 0 (c ∷ cs) in
    checked_lt (is_digit c && ltb n 65536) n rest λ e. ground arith

-- The first digit is there.
read_number_of :
    (ds : List ℕ) (n : ℕ)
    → All (λ c. (48 ≤ c) × (c ≤ 57)) ds
    → 0 < length ds
    → n < 65536
    → read_digits 0 ds ≡ (n, [])
    → read_number ds ≡ (n, [], true)
unfolding read_number checked
read_number_of [] n h some lt e = absurd (omega arith)
read_number_of (c ∷ cs) n ((lo, hi), h) some lt e =
    let digit : is_digit c ≡ true = ground arith in
    let fits : ltb n 65536 ≡ true = ground arith in rw (digit, e, fits) refl

decimal_some : (f n : ℕ) → 0 < length (decimal (suc f) n)
unfolding decimal
decimal_some f n = elim (Bool-cases (ltb n 10)) [
  | inl one ↦ rw one (omega arith)
  | inr many ↦ rw many (omega (arith, length-append (decimal f (n / 10)) ((48 + n % 10) ∷ [])))
]

read_decimal : (n : ℕ) → n < 2 ^ 16 → read_number (decimal 5 n) ≡ (n, [], true)
unfolding read_digits
read_decimal n lt =
    read_number_of (decimal 5 n) n (decimal-digits 5 n) (decimal_some 4 n) lt (
      ap (read_digits 0) (sym (append-nil (decimal 5 n)))
      ∙ read_digits-decimal 4 n [] (omega arith))

abbrev in_decimal : Charconv
in_decimal = record {
  to_chars = decimal 5;
  from_chars = read_number;
  to_chars-digits = λ n lt. decimal-digits 5 n;
  from_chars-to_chars = read_decimal;
  from_chars-lt = read_number_lt;
}

known_cells :
    (cells : List ℕ) → all_cells_valid cells ≡ true → (i : ℕ) → is_cell_valid (read cells i) ≡ true
unfolding read is_cell_valid
known_cells [] h i = refl
known_cells (c ∷ cells) h zero = ground arith
known_cells (c ∷ cells) h (suc i) = known_cells cells (ground arith) i

start-Printable : Printable start
unfolding set_initial_position update update_enpassant update_castling_of update_bitboards
    initial_cells read write for_below make_coord is_cell_valid
start-Printable = record {
  cells_valid = known_cells start.cells refl;
  no_unused = refl;
  flags = omega arith;
  counter_lt = omega arith;
  number_lt = omega arith;
}

set_from_fen-as_fen_example :
    set_from_fen in_decimal keys blank (as_fen in_decimal start) ≡ returns ok start
set_from_fen-as_fen_example =
    set_from_fen-as_fen keys in_decimal blank start refl start-IsSynced start-IsCoherent
      start-Printable

set_initial_position_lem_example :
    (as_fen in_decimal start ≡ initial_text ++ (48 ∷ 32 ∷ 49 ∷ []))
    × (start.unused ≡ 0)
    × InPlay keys start
unfolding decimal
set_initial_position_lem_example = set_initial_position_lem keys blank in_decimal

-- An empty board after "8/8/8/8/8/8/8/8 w - - 0 1".
abbrev empty_fen : List ℕ
empty_fen =
    56 ∷ 47 ∷ 56 ∷ 47 ∷ 56 ∷ 47 ∷ 56 ∷ 47 ∷ 56 ∷ 47 ∷ 56 ∷ 47 ∷ 56 ∷ 47 ∷ 56 ∷ 32 ∷ 119 ∷ 32 ∷ 45
    ∷ 32 ∷ 45 ∷ 32 ∷ 48 ∷ 32 ∷ 49 ∷ []

set_from_fen-Ends_example : Ends (Accepted keys) (set_from_fen in_decimal keys blank empty_fen)
unfolding is_cell_valid
set_from_fen-Ends_example =
    set_from_fen-Ends keys in_decimal blank empty_fen
      (record { size = refl; known = known_cells blank.cells refl })
