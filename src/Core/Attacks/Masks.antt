-- ===== src/Core/Attacks/Masks.antt =====
-- A mask on the attacks only takes attacked cells away.

use sofcheck.Common.{ℕ, ◌≡◌, ◌∙◌, sym, ap, ◌==◌, Bool-cases, inl, inr, bit_and, arith, ==_iff}
use sofcheck.Common.Bits.{test_bit, test_bit-and, test_bit-zero, test_bit_ext, bit_laws}
use sofcheck.Core.Attacks.{
  MagicEntry, MagicTables, do_attack_bitboard, masked_attack_bitboard, rook_attack_bitboard,
  rook_attack_masked, bishop_attack_bitboard, bishop_attack_masked, magic_rook, magic_bishop,
}

masked_lem :
    (magics shifts : ℕ → ℕ) (occupied pos m : ℕ) (e : MagicEntry)
    → masked_attack_bitboard magics shifts occupied pos m e
      ≡ bit_and (do_attack_bitboard magics shifts occupied pos e) m
unfolding masked_attack_bitboard do_attack_bitboard
masked_lem magics shifts occupied pos m e = elim (Bool-cases (bit_and e.post_mask m == 0)) [
  | inl nothing ↦ rw nothing (
      test_bit_ext _ _ λ i.
        let z =
          sym (test_bit-and i e.post_mask m) ∙ ap (λ y. test_bit y i) ((==_iff _ 0).0 nothing) in
        simp bit_laws (ground (arith, z, test_bit-zero i)))
  | inr some ↦ rw some (test_bit_ext _ _ λ i. simp bit_laws (ground arith))
]

-- The masked attacks are the attacks under the mask.
pub rook_attack_masked_lem :
    (t : MagicTables) (occupied pos m : ℕ)
    → rook_attack_masked t occupied pos m ≡ bit_and (rook_attack_bitboard t occupied pos) m
unfolding rook_attack_masked rook_attack_bitboard
rook_attack_masked_lem t occupied pos m = masked_lem _ _ occupied pos m (magic_rook t pos)

pub bishop_attack_masked_lem :
    (t : MagicTables) (occupied pos m : ℕ)
    → bishop_attack_masked t occupied pos m ≡ bit_and (bishop_attack_bitboard t occupied pos) m
unfolding bishop_attack_masked bishop_attack_bitboard
bishop_attack_masked_lem t occupied pos m = masked_lem _ _ occupied pos m (magic_bishop t pos)

-- For either slider, the attacks that are asked for under a mask are the attacks from the table, cut
-- down to the mask.
pub masked_attacks_lem :
    (t : MagicTables) (occupied pos m : ℕ)
    → (rook_attack_masked t occupied pos m ≡ bit_and (rook_attack_bitboard t occupied pos) m)
      × (bishop_attack_masked t occupied pos m ≡ bit_and (bishop_attack_bitboard t occupied pos) m)
masked_attacks_lem t occupied pos m =
    (rook_attack_masked_lem t occupied pos m, bishop_attack_masked_lem t occupied pos m)
