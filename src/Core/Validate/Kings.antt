-- ===== src/Core/Validate/Kings.antt =====
-- The kings on a board that `validate` accepts.
use sofcheck.Common.{
  ℕ, ◌<◌, ◌≤◌, ◌^◌, ◌≡◌, ◌∙◌, sym, ap, ltb, ◌&&◌, ◌==◌, read_above, read, suc, List, inl, inr, ◌⊎◌,
  arith, length,
}
use sofcheck.Common.Bits.{test_bit, test_bit-pow, lt-pow_of_bits}
use sofcheck.Core.Types.{Color, white, black, king, make_cell}
use sofcheck.Core.Zobrist.{Zobrist}
use sofcheck.Core.Board.{Board}
use sofcheck.Core.Synced.{IsSynced}
use sofcheck.Util.Bit.{popcount}
use sofcheck.Core.Attacks.{MagicTables}
use sofcheck.Core.Coherent.{piece_bit}
use sofcheck.Core.MoveGen.Playable.{OneKing}
use sofcheck.Core.Reach.Play.{InPlay}
use sofcheck.Core.Validate.{ok, check_updated, validate}
use sofcheck.Util.Bit.Count.{popcount-one}
use sofcheck.Core.Validate.Coherent.{validate-IsCoherent, validate-check_updated}

abbrev king_board : Board → Color → ℕ
king_board b c = read b.bb_pieces (make_cell c king)

check_updated-king :
    (t : MagicTables) (b : Board) (c : Color)
    → check_updated t b ≡ ok
    → popcount (king_board b c) ≡ 1
unfolding check_updated
check_updated-king t b white e = ground (arith, e)
check_updated-king t b black e = ground (arith, e)

inside : (cells : List ℕ) (i v : ℕ) → length cells ≡ 64 → read cells i ≡ suc v → i < 64
inside cells i v size e =
    let where_at : (i < 64) ⊎ (64 ≤ i) = omega arith in
    elim where_at [
      | inl lt ↦ lt
      | inr le ↦ absurd (omega (arith, e, read_above cells i (omega (arith, size))))
    ]

king_inside :
    (c : Color) (cells : List ℕ) (i : ℕ)
    → length cells ≡ 64
    → read cells i ≡ make_cell c king
    → i < 64
king_inside white cells i size e = inside cells i 1 size (ground (arith, e))
king_inside black cells i size e = inside cells i 9 size (ground (arith, e))

module _ (z : Zobrist) (b : Board) (h : IsSynced z b) (c : Color)
    (one : popcount (king_board b c) ≡ 1) where
  king_power : (k : ℕ) × (king_board b c ≡ 2 ^ k)
  king_power =
      popcount-one (king_board b c)
        (lt-pow_of_bits 64 _ λ i le. piece_bit z b h c king i ∙ ground arith) one

  king_at : (i : ℕ) → (ltb i 64 && (read b.cells i == make_cell c king)) ≡ (king_power.0 == i)
  king_at i =
      sym (piece_bit z b h c king i)
      ∙ ap (λ x. test_bit x i) king_power.1
      ∙ test_bit-pow king_power.0 i

  king_found : (i : ℕ) → read b.cells i ≡ make_cell c king → king_power.0 ≡ i
  king_found i e = ground (arith, king_at i, king_inside c b.cells i h.cells_valid.0 e)

  counted-OneKing : OneKing c b.cells
  counted-OneKing i j ei ej = sym (king_found i ei) ∙ king_found j ej

  counted-king : (i : ℕ) × (read b.cells i ≡ make_cell c king)
  counted-king = (king_power.0, ground (arith, king_at king_power.0))

module _ (z : Zobrist) (t : MagicTables) where
  -- A board of 64 cells that `validate` accepts is left in sync, coherent and with exactly one king of
  -- each colour, whatever its derived fields, its castling flags and its passing pawn were.
  pub validate-InPlay :
      (b : Board)
      → length b.cells ≡ 64
      → (validate t z b).1 ≡ ok
      → InPlay z (validate t z b).0
        × ((c : Color) → (i : ℕ) × (read (validate t z b).0.cells i ≡ make_cell c king))
  validate-InPlay b size accepted =
      let (synced, coherent) = validate-IsCoherent z t b size accepted in
      let count = λ (c : Color). check_updated-king t _ c (validate-check_updated z t b accepted) in
      (
        record {
          synced = synced;
          coherent = coherent;
          one_king = λ c. counted-OneKing z _ synced c (count c);
        },
        λ c. counted-king z _ synced c (count c),
      )
