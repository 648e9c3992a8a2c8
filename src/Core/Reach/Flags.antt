-- ===== src/Core/Reach/Flags.antt =====
-- A castling flag that is still set after a move was set before, and neither end of the move was the
-- home of its king or rook.
use sofcheck.Common.{
  ℕ, ◌+◌, ◌^◌, ◌≡◌, ◌≢◌, ◌∙◌, refl, sym, ap, Bool, Bool-cases, inl, inr, true, false, not, ◌&&◌,
  ◌==◌, if◌then◌else◌, bit_and, bit_or, bit_xor, arith,
}
use sofcheck.Common.Bits.{
  test_bit, test_bit_ext, test_bit-and, test_bit-or, test_bit-pow, bit_laws, disjoint_bit,
}
use sofcheck.Core.Types.{
  Color, white, black, has, castling_kingside, castling_queenside, color_eq, coord_to_bitboard,
  castling_not,
}
use sofcheck.Core.Geometry.{
  bb_castling_white_queenside_srcs, bb_castling_white_kingside_srcs,
  bb_castling_black_queenside_srcs, bb_castling_black_kingside_srcs, castling_offset,
  bb_castling_all_srcs,
}
use sofcheck.Core.Board.{without_castling}
use sofcheck.Core.Make.{castling_mask}
use sofcheck.Core.Synced.{test_bit-coord}
use sofcheck.Core.Reach.{updated_flags}

-- `castlingMask` from its four tests: whether the homes of white's queenside, white's kingside,
-- black's queenside and black's kingside castling are not touched.
mask_of : Bool → Bool → Bool → Bool → ℕ
mask_of wq wk bq bk =
    bit_xor
      (bit_xor (bit_xor (bit_xor 15 (if bk then 0 else 8)) (if bq then 0 else 4))
        (if wk then 0 else 2))
      (if wq then 0 else 1)

mask_of_lem :
    (wq wk bq bk : Bool)
    → let m = mask_of wq wk bq bk in
      (test_bit m 0 ≡ wq) × (test_bit m 1 ≡ wk) × (test_bit m 2 ≡ bq) × (test_bit m 3 ≡ bk)
unfolding mask_of test_bit
mask_of_lem wq wk bq bk = ground arith

castling_mask_lem :
    (x : ℕ)
    → castling_mask x
      ≡ mask_of
          (bit_and x bb_castling_white_queenside_srcs == 0)
          (bit_and x bb_castling_white_kingside_srcs == 0)
          (bit_and x bb_castling_black_queenside_srcs == 0)
          (bit_and x bb_castling_black_kingside_srcs == 0)
unfolding castling_mask mask_of
castling_mask_lem x = refl

has_bit : (x k : ℕ) → has (bit_and x (2 ^ k)) ≡ test_bit x k
has_bit x k = elim (Bool-cases (bit_and x (2 ^ k) == 0)) [
  | inl no_bit ↦ ground (arith, disjoint_bit x (2 ^ k) k no_bit, test_bit-pow k k)
  | inr some_bit ↦ elim (Bool-cases (test_bit x k)) [
    | inl set ↦ ground (arith, set)
    | inr unset ↦
        let nothing : bit_and x (2 ^ k) ≡ 0 =
          test_bit_ext _ 0 (λ i. simp bit_laws (ground (arith, ap (test_bit x), unset))) in
        absurd (ground arith)
  ]
]

-- One flag, its number k, and a home p that it depends on.
flag-kept :
    (ch flags k srcs p : ℕ)
    → test_bit (castling_mask ch) k ≡ (bit_and ch srcs == 0)
    → test_bit bb_castling_all_srcs p ≡ true
    → test_bit srcs p ≡ true
    → test_bit (updated_flags ch flags) k ≡ true
    → (test_bit flags k ≡ true) × (test_bit ch p ≡ false)
flag-kept ch flags k srcs p is in_all in_srcs set =
    elim (Bool-cases (bit_and ch bb_castling_all_srcs == 0)) [
      | inl apart ↦
          (ground (arith, set), ground (arith, disjoint_bit ch bb_castling_all_srcs p apart))
      | inr near ↦
          let both : (test_bit flags k && test_bit (castling_mask ch) k) ≡ true =
            sym (test_bit-and k flags (castling_mask ch)) ∙ ground (arith, set) in
          (ground arith, ground (arith, disjoint_bit ch srcs p))
    ]

away :
    (s d p : ℕ)
    → test_bit (bit_or (coord_to_bitboard s) (coord_to_bitboard d)) p ≡ false
    → (s ≢ p) × (d ≢ p)
away s d p e =
    let bits = sym (test_bit-or p (coord_to_bitboard s) (coord_to_bitboard d)) ∙ e in
    (
      λ same. ground (arith, test_bit-coord s p, bits),
      λ same. ground (arith, test_bit-coord d p, bits),
    )

-- A flag of either wing, and the home of its rook.
pub data Wing : Type 0 where
  kingside queenside : Wing

abbrev pub same_wing : Wing → Wing → Bool
same_wing kingside kingside = true
same_wing queenside queenside = true
same_wing _ _ = false

abbrev pub wing_flag : Color → Wing → ℕ
wing_flag c kingside = castling_kingside c
wing_flag c queenside = castling_queenside c

abbrev pub rook_column : Wing → ℕ
rook_column kingside = 7
rook_column queenside = 0

flag_number : Color → Wing → ℕ
flag_number white queenside = 0
flag_number white kingside = 1
flag_number black queenside = 2
flag_number black kingside = 3

wing_srcs : Color → Wing → ℕ
wing_srcs white queenside = bb_castling_white_queenside_srcs
wing_srcs white kingside = bb_castling_white_kingside_srcs
wing_srcs black queenside = bb_castling_black_queenside_srcs
wing_srcs black kingside = bb_castling_black_kingside_srcs

mask_facts :
    (x : ℕ)
    → let m = castling_mask x in
      (test_bit m 0 ≡ (bit_and x bb_castling_white_queenside_srcs == 0))
      × (test_bit m 1 ≡ (bit_and x bb_castling_white_kingside_srcs == 0))
      × (test_bit m 2 ≡ (bit_and x bb_castling_black_queenside_srcs == 0))
      × (test_bit m 3 ≡ (bit_and x bb_castling_black_kingside_srcs == 0))
mask_facts x = rw (castling_mask_lem x) (mask_of_lem _ _ _ _)

wing_lem :
    (c : Color) (w : Wing) (x : ℕ)
    → (wing_flag c w ≡ 2 ^ flag_number c w)
      × (test_bit (castling_mask x) (flag_number c w) ≡ (bit_and x (wing_srcs c w) == 0))
unfolding flag_number wing_srcs
wing_lem white queenside x = (refl, (mask_facts x).0)
wing_lem white kingside x = (refl, (mask_facts x).1)
wing_lem black queenside x = (refl, (mask_facts x).2)
wing_lem black kingside x = (refl, (mask_facts x).3)

wing_homes :
    (c : Color) (w : Wing)
    → (test_bit bb_castling_all_srcs (castling_offset c + 4) ≡ true)
      × (test_bit (wing_srcs c w) (castling_offset c + 4) ≡ true)
      × (test_bit bb_castling_all_srcs (castling_offset c + rook_column w) ≡ true)
      × (test_bit (wing_srcs c w) (castling_offset c + rook_column w) ≡ true)
unfolding wing_srcs test_bit
wing_homes white kingside = (refl, refl, refl, refl)
wing_homes white queenside = (refl, refl, refl, refl)
wing_homes black kingside = (refl, refl, refl, refl)
wing_homes black queenside = (refl, refl, refl, refl)

-- The flag was set, and the move neither starts nor ends on the home of the king or of the rook.
pub updated_flags-kept :
    (c : Color) (w : Wing) (s d flags : ℕ)
    → let ch = bit_or (coord_to_bitboard s) (coord_to_bitboard d) in
      has (bit_and (updated_flags ch flags) (wing_flag c w)) ≡ true
      → (has (bit_and flags (wing_flag c w)) ≡ true)
        × ((s ≢ castling_offset c + 4) × (d ≢ castling_offset c + 4))
        × ((s ≢ castling_offset c + rook_column w) × (d ≢ castling_offset c + rook_column w))
updated_flags-kept c w s d flags set =
    let ch = bit_or (coord_to_bitboard s) (coord_to_bitboard d) in
    let (flag, is) = wing_lem c w ch in
    let (all_k, srcs_k, all_r, srcs_r) = wing_homes c w in
    let k = flag_number c w in
    let now : test_bit (updated_flags ch flags) k ≡ true =
      sym (has_bit (updated_flags ch flags) k)
      ∙ ap (λ f. has (bit_and (updated_flags ch flags) f)) (sym flag)
      ∙ set in
    let (was, no_k) = flag-kept ch flags k (wing_srcs c w) _ is all_k srcs_k now in
    let (_, no_r) = flag-kept ch flags k (wing_srcs c w) _ is all_r srcs_r now in
    (ap (λ f. has (bit_and flags f)) flag ∙ has_bit flags k ∙ was, away s d _ no_k, away s d _ no_r)

-- What castling keeps of the flags.
kept_mask : Color → ℕ
kept_mask o = bit_and (castling_not (castling_kingside o)) (castling_not (castling_queenside o))

kept_mask_lem :
    (o c : Color) (w : Wing) → test_bit (kept_mask o) (flag_number c w) ≡ not (color_eq o c)
unfolding kept_mask test_bit flag_number
kept_mask_lem white white kingside = refl
kept_mask_lem white white queenside = refl
kept_mask_lem white black kingside = refl
kept_mask_lem white black queenside = refl
kept_mask_lem black white kingside = refl
kept_mask_lem black white queenside = refl
kept_mask_lem black black kingside = refl
kept_mask_lem black black queenside = refl

-- A flag that is still set under a mask was set, and the mask has it.
mask-kept :
    (m flags : ℕ) (c : Color) (w : Wing)
    → has (bit_and (bit_and flags m) (wing_flag c w)) ≡ true
    → (test_bit m (flag_number c w) ≡ true) × (has (bit_and flags (wing_flag c w)) ≡ true)
mask-kept m flags c w set =
    let k = flag_number c w in
    let flag = (wing_lem c w 0).0 in
    let now : test_bit (bit_and flags m) k ≡ true =
      sym (has_bit (bit_and flags m) k)
      ∙ ap (λ f. has (bit_and (bit_and flags m) f)) (sym flag)
      ∙ set in
    let both = sym (test_bit-and k flags m) ∙ now in
    (
      ground (arith, both),
      ap (λ f. has (bit_and flags f)) flag ∙ has_bit flags k ∙ ground (arith, both),
    )

-- Clearing one flag keeps the other ones, and sets none.
clear_mask_lem :
    (o c : Color) (v w : Wing)
    → test_bit (castling_not (wing_flag o v)) (flag_number c w) ≡ true
    → (color_eq o c && same_wing v w) ≡ false
unfolding test_bit flag_number
clear_mask_lem o c v w e = ground arith

pub clear_flag-kept :
    (o c : Color) (v w : Wing) (flags : ℕ)
    → has (bit_and (bit_and flags (castling_not (wing_flag o v))) (wing_flag c w)) ≡ true
    → ((color_eq o c && same_wing v w) ≡ false) × (has (bit_and flags (wing_flag c w)) ≡ true)
clear_flag-kept o c v w flags set =
    let (m, was) = mask-kept (castling_not (wing_flag o v)) flags c w set in
    (clear_mask_lem o c v w m, was)

-- Castling clears both flags of its colour, and sets none.
pub without_castling-kept :
    (o c : Color) (w : Wing) (flags : ℕ)
    → has (bit_and (without_castling flags o) (wing_flag c w)) ≡ true
    → (color_eq o c ≡ false) × (has (bit_and flags (wing_flag c w)) ≡ true)
unfolding without_castling kept_mask
without_castling-kept o c w flags set =
    let (m, was) = mask-kept (kept_mask o) flags c w set in
    (ground (arith, m, kept_mask_lem o c w), was)
