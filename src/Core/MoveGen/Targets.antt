-- ===== src/Core/MoveGen/Targets.antt =====
-- What the loops of the generators know of each target cell, and the two ways to ask for attackers.
use sofcheck.Common.{
  ℕ, ◌<◌, ◌^◌, ◌≡◌, ◌∙◌, sym, ap, Bool, true, false, ◌||◌, not, ◌==◌, ==_iff, read, arith, bit_and,
  bit_or, bit_not, All, All-map, All-concat_map, ap₂, Bool-cases, inl, inr, [], ◌∷◌,
}
use sofcheck.Common.Bits.{
  test_bit, test_bit-zero, zero-bit_or, bit_and_comm, test_bit-or, test_bit-not, test_bit_ext,
  and_bit_left, and_bit_right, bit_and_lt, test_bit_above, lt-pow_of_bits,
}
use sofcheck.Core.Types.{Color, white, black, Piece, make_cell, invert}
use sofcheck.Core.Zobrist.{Zobrist}
use sofcheck.Core.Board.{Board, bb_color}
use sofcheck.Core.Move.{Move, simple}
use sofcheck.Core.Synced.{is_color, IsSynced}
use sofcheck.Core.Coherent.{color_bit, all_bit, piece_bit}
use sofcheck.Core.Attacks.{MagicTables}
use sofcheck.Core.MoveGen.{nonzero, is_cell_attacked, cell_attackers}
use sofcheck.Core.MoveGen.Pawns.{GenFilter, simple_gen_filter, check_gen_filter, filter_dst}
use sofcheck.Core.MoveGen.Pieces.{gen_steps, get_allowed_mask}
use sofcheck.Util.Bit.{bits_of}
use sofcheck.Util.Bit.Extract.{bits_of-All}

zero_or : (a b : ℕ) → nonzero (bit_or a b) ≡ (nonzero a || nonzero b)
zero_or a b = elim (Bool-cases (bit_or a b == 0)) [
  | inl nothing ↦
      let none : (i : ℕ) → (test_bit a i || test_bit b i) ≡ false = λ i.
        sym (test_bit-or i a b)
        ∙ ap (λ x. test_bit x i) ((==_iff _ 0).0 nothing)
        ∙ test_bit-zero i in
      let no_a : a ≡ 0 = test_bit_ext a 0 (λ i. ground (arith, none i, test_bit-zero i)) in
      let no_b : b ≡ 0 = test_bit_ext b 0 (λ i. ground (arith, none i, test_bit-zero i)) in
      ground arith
  | inr some ↦ ground (arith, ap₂ bit_or, zero-bit_or b)
]

-- A cell is attacked if and only if it has an attacker.
pub is_cell_attacked_lem :
    (t : MagicTables) (c : Color) (b : Board) (coord : ℕ)
    → is_cell_attacked t c b coord ≡ not (cell_attackers t c b coord == 0)
unfolding is_cell_attacked cell_attackers
is_cell_attacked_lem t c b coord = simp zero_or (ground arith)

filter_dst_bit :
    (f : GenFilter) (x i : ℕ) → test_bit (filter_dst f x) i ≡ true → test_bit x i ≡ true
unfolding filter_dst
filter_dst_bit simple_gen_filter x i h = h
filter_dst_bit (check_gen_filter mask) x i h = and_bit_left x mask i h

filter_dst_lt : (f : GenFilter) (x : ℕ) → x < 2 ^ 64 → filter_dst f x < 2 ^ 64
unfolding filter_dst
filter_dst_lt simple_gen_filter x lt = lt
filter_dst_lt (check_gen_filter mask) x lt = bit_and_lt 64 x mask lt

-- A target under a mask, through either filter.
pub targets-All :
    (f : GenFilter) (a m : ℕ)
    → m < 2 ^ 64
    → All
        (λ i. (i < 64) × (test_bit a i ≡ true) × (test_bit m i ≡ true))
        (bits_of (filter_dst f (bit_and a m)))
targets-All f a m lt =
    All-map
      (λ i p.
        let both = filter_dst_bit f (bit_and a m) i p.1 in
        (p.0, and_bit_left a m i both, and_bit_right a m i both))
      _ (bits_of-All _ (filter_dst_lt f _ (rw (bit_and_comm a m) (bit_and_lt 64 m a lt))))

pub bit_not_lt : (x : ℕ) → x < 2 ^ 64 → bit_not x < 2 ^ 64
bit_not_lt x lt =
    lt-pow_of_bits 64 _ λ i le. test_bit-not i x ∙ ground (arith, test_bit_above 64 i x lt le)

module _ (z : Zobrist) (b : Board) (h : IsSynced z b) where
  pub color_lt : (c : Color) → bb_color b c < 2 ^ 64
  color_lt c = lt-pow_of_bits 64 _ λ i le. color_bit z b h c i ∙ ground arith

  pub all_lt : b.bb_all < 2 ^ 64
  all_lt = lt-pow_of_bits 64 _ λ i le. all_bit z b h i ∙ ground arith

  pub piece_lt : (c : Color) (p : Piece) → read b.bb_pieces (make_cell c p) < 2 ^ 64
  piece_lt c p = lt-pow_of_bits 64 _ λ i le. piece_bit z b h c p i ∙ ground arith

  pub pieces_lt :
      (c : Color) (p q : Piece)
      → bit_or (read b.bb_pieces (make_cell c p)) (read b.bb_pieces (make_cell c q)) < 2 ^ 64
  pieces_lt c p q = lt-pow_of_bits 64 _ λ i le. ground (
    arith,
    test_bit-or i (read b.bb_pieces (make_cell c p)) (read b.bb_pieces (make_cell c q)),
    piece_bit z b h c p i,
    piece_bit z b h c q i,
  )

  pub allowed_lt : (c : Color) (s k : Bool) → get_allowed_mask c s k b < 2 ^ 64
  unfolding get_allowed_mask
  allowed_lt c true true = bit_not_lt _ (color_lt c)
  allowed_lt c true false = bit_not_lt _ all_lt
  allowed_lt c false k = color_lt (invert c)

  -- No mask allows a cell that the side holds.
  pub allowed_free :
      (c : Color) (s k : Bool) (i : ℕ)
      → i < 64
      → test_bit (get_allowed_mask c s k b) i ≡ true
      → is_color c (read b.cells i) ≡ false
  unfolding get_allowed_mask
  allowed_free c true true i lt e =
      ground (arith, test_bit-not i (bb_color b c), color_bit z b h c i)
  allowed_free white true false i lt e = ground (arith, test_bit-not i b.bb_all, all_bit z b h i)
  allowed_free black true false i lt e = ground (arith, test_bit-not i b.bb_all, all_bit z b h i)
  allowed_free white false k i lt e = ground (arith, color_bit z b h black i)
  allowed_free black false k i lt e = ground (arith, color_bit z b h white i)

-- The two loops of a generator of simple moves.
pub gen_steps-All :
    (P : Move → Type 0) (attacks : ℕ → ℕ) (m : ℕ) (f : GenFilter) (src : ℕ)
    → m < 2 ^ 64
    → src < 2 ^ 64
    → ((s d : ℕ)
        → s < 64
        → d < 64
        → test_bit src s ≡ true
        → test_bit (attacks s) d ≡ true
        → test_bit m d ≡ true
        → P (record { kind = simple; src = s; dst = d; tag = 0 }))
    → All P (gen_steps attacks m f src)
unfolding gen_steps
gen_steps-All P attacks m f src m_lt src_lt step =
    All-concat_map P _ _
      (λ s p.
        All-concat_map P (λ i. (i < 64) × (test_bit (attacks s) i ≡ true) × (test_bit m i ≡ true))
          (λ d. record { kind = simple; src = s; dst = d; tag = 0 } ∷ [])
          (λ d q. (step s d p.0 q.0 p.1 q.1 q.2, tt)) _ (targets-All f (attacks s) m m_lt))
      _ (bits_of-All src src_lt)
