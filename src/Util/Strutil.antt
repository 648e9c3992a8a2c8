-- ===== src/Util/Strutil.antt =====
-- util/strutil.h and util/strutil.cpp: characters, tokens, and numbers as text. A C string is the
-- list of the codes before its terminator, a pointer into it the rest of the list; so `*str` of the
-- empty list is '\0'.
use sofcheck.Common.{
  ℕ, ◌+◌, ◌-◌, ◌^◌, ◌<◌, ◌≤◌, ◌≡◌, refl, Bool, true, false, ◌&&◌, ◌||◌, not, leb, ◌==◌,
  if◌then◌else◌, Option, none, some, List, [], ◌∷◌, ◌++◌, All, arith,
}

unfoldable pub is_space : ℕ → Bool
is_space c = c == 10 || c == 9 || c == 13 || c == 32

unfoldable pub ascii_to_lower : ℕ → ℕ
ascii_to_lower c = if leb 65 c && leb c 90 then c - 65 + 97 else c

-- The characters before the token's end, and the string from there.
unfoldable pub scan_token_end : List ℕ → List ℕ × List ℕ
scan_token_end [] = ([], [])
scan_token_end (c ∷ str) =
    let (token, rest) = scan_token_end str in
    if is_space c then ([], c ∷ str) else (c ∷ token, rest)

unfoldable pub scan_token_start : List ℕ → List ℕ
scan_token_start [] = []
scan_token_start (c ∷ str) = let rest = scan_token_start str in if is_space c then rest else c ∷ str

-- `std::to_chars` and `std::from_chars` for `uint16_t`: the value, the string from where reading
-- stopped, and whether there was no error.
pub record Charconv : Type 0 where
  pub to_chars : ℕ → List ℕ
  pub from_chars : List ℕ → ℕ × List ℕ × Bool
  pub to_chars-digits : (n : ℕ) → n < 2 ^ 16 → All (λ c. (48 ≤ c) × (c ≤ 57)) (to_chars n)
  pub from_chars-to_chars : (n : ℕ) → n < 2 ^ 16 → from_chars (to_chars n) ≡ (n, [], true)
  pub from_chars-lt : (str : List ℕ) → (from_chars str).0 < 2 ^ 16

abbrev is_empty : List ℕ → Bool
is_empty [] = true
is_empty (c ∷ cs) = false

unfoldable pub value_from_str : Charconv → List ℕ → Option ℕ
value_from_str d str =
    let (value, rest, fine) = d.from_chars str in
    if not (is_empty rest) || not fine then none else some value

-- A number that is printed before a space or the end is read back.
pub value_from_str-to_chars :
    (d : Charconv) (n : ℕ) → n < 2 ^ 16 → value_from_str d (d.to_chars n) ≡ some n
unfolding value_from_str
value_from_str-to_chars d n lt = rw (d.from_chars-to_chars n lt) refl

pub value_from_str-lt :
    (d : Charconv) (str : List ℕ) (n : ℕ) → value_from_str d str ≡ some n → n < 2 ^ 16
unfolding value_from_str
value_from_str-lt d str n e = ground (arith, d.from_chars-lt str)

-- Digits are one token.
pub scan_token_end-digits :
    (ds rest : List ℕ)
    → All (λ c. (48 ≤ c) × (c ≤ 57)) ds
    → scan_token_end rest ≡ ([], rest)
    → scan_token_end (ds ++ rest) ≡ (ds, rest)
unfolding scan_token_end is_space
scan_token_end-digits [] rest h e = e
scan_token_end-digits (c ∷ ds) rest ((lo, hi), h) e =
    let not_space : is_space c ≡ false = ground arith in
    rw (not_space, scan_token_end-digits ds rest h e) refl
