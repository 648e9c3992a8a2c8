-- ===== src/Core/Make/Castling.antt =====
-- The castling cases of `moveMake` keep the bitboards in sync with the cells.
use sofcheck.Common.{
  ℕ, ◌<◌, ◌≡◌, ◌≢◌, ◌∙◌, refl, Bool, true, false, ◌||◌, List, ◌==◌, if◌then◌else◌, bit_or, bit_xor,
  read, write, arith, length, length-write, read-write, ◌<<<◌, ◌^◌, ◌⊎◌, inl, inr,
}
use sofcheck.Common.Bits.{test_bit, test_bit-xor, bit_laws}
use sofcheck.Core.Types.{Color, white, black}
use sofcheck.Core.Zobrist.{Zobrist}
use sofcheck.Core.Board.{Board}
use sofcheck.Core.Synced.{is_color, ShowsBelow, ShowsCells, CellsValid}
use sofcheck.Core.Make.{make_kingside_castling, make_queenside_castling}
use sofcheck.Core.Make.Simple.{InSync}
use sofcheck.Core.Make.Applicable.{CastlesKingside, CastlesQueenside}

-- A king and a rook, x and y, leave the cells f and l and come to t and s.
module _ (cells cells' : List ℕ) (f s t l x y : ℕ)
    (cells_eq : (i : ℕ)
      → read cells' i ≡ (
          if l == i
          then 0
          else if t == i
          then x
          else if s == i
          then y
          else if f == i
          then 0
          else read cells i))
    (hf : f < 64) (hs : s < 64) (ht : t < 64) (hl : l < 64) (apart : (f < s) × (s < t) × (t < l))
    (at_f : read cells f ≡ x) (at_s : read cells s ≡ 0) (at_t : read cells t ≡ 0)
    (at_l : read cells l ≡ y) where
  castled_kept :
      (p : ℕ → Bool) (bb : ℕ)
      → ShowsBelow 64 p cells bb
      → p 0 ≡ false
      → p x ≡ false
      → p y ≡ false
      → ShowsBelow 64 p cells' bb
  castled_kept p bb shown p0 px py i = ground (arith, shown i, cells_eq i)

  castled_ours :
      (p : ℕ → Bool) (bb mask : ℕ)
      → ShowsBelow 64 p cells bb
      → ((i : ℕ) → test_bit mask i ≡ ((f == i || s == i) || (t == i || l == i)))
      → p 0 ≡ false
      → p x ≡ true
      → p y ≡ true
      → ShowsBelow 64 p cells' (bit_xor bb mask)
  castled_ours p bb mask shown bits p0 px py i =
      ground (arith, shown i, cells_eq i, bits i, test_bit-xor i bb mask)

  module _ (pieces pieces' : List ℕ) (mx my : ℕ)
      (pieces_eq : (p : ℕ)
        → read pieces' p ≡ (
            if x == p
            then bit_xor (read pieces p) mx
            else if y == p
            then bit_xor (read pieces p) my
            else read pieces p))
      (mx_bits : (i : ℕ) → test_bit mx i ≡ (f == i || t == i))
      (my_bits : (i : ℕ) → test_bit my i ≡ (s == i || l == i)) where
    castled_piece :
        (p : ℕ)
        → x ≢ y
        → 0 < p
        → ShowsBelow 64 (λ c. c == p) cells (read pieces p)
        → ShowsBelow 64 (λ c. c == p) cells' (read pieces' p)
    castled_piece p ne pos shown i = ground (
      arith,
      shown i,
      cells_eq i,
      pieces_eq p,
      mx_bits i,
      my_bits i,
      test_bit-xor i (read pieces p) mx,
      test_bit-xor i (read pieces p) my,
    )

-- Four writes in a row.
read-write₄ :
    (cells : List ℕ) (f s t l vf vs vt vl i : ℕ)
    → length cells ≡ 64
    → (f < 64) × (s < 64) × (t < 64) × (l < 64)
    → read (write (write (write (write cells f vf) s vs) t vt) l vl) i ≡ (
        if l == i
        then vl
        else if t == i
        then vt
        else if s == i
        then vs
        else if f == i
        then vf
        else read cells i)
read-write₄ cells f s t l vf vs vt vl i size lt = ground (
  arith,
  read-write (write (write (write cells f vf) s vs) t vt) l vl i,
  read-write (write (write cells f vf) s vs) t vt i,
  read-write (write cells f vf) s vs i,
  read-write cells f vf i,
  length-write (write (write cells f vf) s vs) t vt,
  length-write (write cells f vf) s vs,
  length-write cells f vf,
)

-- Two writes in a row, each of a changed entry.
read-write₂ :
    (pieces : List ℕ) (u v mu mv p : ℕ)
    → length pieces ≡ 15
    → u < 15
    → v < 15
    → u ≢ v
    → let first = write pieces u (bit_xor (read pieces u) mu) in
      read (write first v (bit_xor (read first v) mv)) p ≡ (
        if v == p
        then bit_xor (read pieces p) mv
        else if u == p
        then bit_xor (read pieces p) mu
        else read pieces p)
read-write₂ pieces u v mu mv p size hu hv ne =
    let first = write pieces u (bit_xor (read pieces u) mu) in
    ground (
      arith,
      read-write first v (bit_xor (read first v) mv) p,
      read-write pieces u (bit_xor (read pieces u) mu) p,
      read-write pieces u (bit_xor (read pieces u) mu) v,
      length-write pieces u (bit_xor (read pieces u) mu),
    )

length-write₂ :
    (pieces : List ℕ) (u v x y : ℕ) → length (write (write pieces u x) v y) ≡ length pieces
length-write₂ pieces u v x y = length-write (write pieces u x) v y ∙ length-write pieces u x

-- The masks, by the cells that they name.
bits₂ : (a b i : ℕ) → test_bit (bit_or (2 ^ a) (2 ^ b)) i ≡ (a == i || b == i)
bits₂ a b i = simp bit_laws

bits₄ :
    (a b c d i : ℕ)
    → test_bit (bit_or (bit_or (2 ^ a) (2 ^ b)) (bit_or (2 ^ c) (2 ^ d))) i
      ≡ ((a == i || b == i) || (c == i || d == i))
bits₄ a b c d i = simp bit_laws

-- A castling as a whole: u and v are the kinds written first and second.
module _ (cells cells' : List ℕ) (w b w' b' : ℕ) (pieces : List ℕ) (f s t l x y u v mu mv mx my : ℕ)
    (h : ShowsCells 64 cells w b pieces)
    (cells_eq : (i : ℕ)
      → read cells' i ≡ (
          if l == i
          then 0
          else if t == i
          then x
          else if s == i
          then y
          else if f == i
          then 0
          else read cells i))
    (places : (f < s) × (s < t) × (t < l) × (l < 64)) (at_f : read cells f ≡ x)
    (at_s : read cells s ≡ 0) (at_t : read cells t ≡ 0) (at_l : read cells l ≡ y)
    (kinds : ((u ≡ y) × (v ≡ x) × (mu ≡ my) × (mv ≡ mx))
      ⊎ ((u ≡ x) × (v ≡ y) × (mu ≡ mx) × (mv ≡ my)))
    (small : (0 < x) × (x < 15) × (0 < y) × (y < 15)) (ne : x ≢ y)
    (mx_bits : (i : ℕ) → test_bit mx i ≡ (f == i || t == i))
    (my_bits : (i : ℕ) → test_bit my i ≡ (s == i || l == i)) where
  abbrev castled_pieces : List ℕ
  castled_pieces =
      let first = write pieces u (bit_xor (read pieces u) mu) in
      write first v (bit_xor (read first v) mv)

  castled_pieces_eq :
      (p : ℕ)
      → read castled_pieces p ≡ (
          if x == p
          then bit_xor (read pieces p) mx
          else if y == p
          then bit_xor (read pieces p) my
          else read pieces p)
  castled_pieces_eq p = ground (arith, read-write₂ pieces u v mu mv p h.pieces_size)

  castled-ShowsCells :
      ShowsBelow 64 (is_color white) cells' w'
      → ShowsBelow 64 (is_color black) cells' b'
      → ShowsCells 64 cells' w' b' castled_pieces
  castled-ShowsCells hw hb = record {
    pieces_size = length-write₂ pieces u v _ _ ∙ h.pieces_size;
    by_white = hw;
    by_black = hb;
    by_piece = λ p pos lt.
        castled_piece cells cells' f s t l x y cells_eq (omega arith) (omega arith) (omega arith)
          (omega arith) (omega arith) at_f at_s at_t at_l pieces castled_pieces mx my
          castled_pieces_eq mx_bits my_bits p ne pos (h.by_piece p pos lt);
    no_empty = ground (arith, castled_pieces_eq 0, h.no_empty);
  }

  module _ (all : ℕ)
      (all_bits : (i : ℕ) → test_bit all i ≡ ((f == i || s == i) || (t == i || l == i))) where
    castled_white :
        w' ≡ bit_xor w all
        → b' ≡ b
        → is_color white x ≡ true
        → is_color white y ≡ true
        → is_color black x ≡ false
        → is_color black y ≡ false
        → ShowsCells 64 cells' w' b' castled_pieces
    castled_white ew eb wx wy bx by =
        castled-ShowsCells
          (rw ew (
            castled_ours cells cells' f s t l x y cells_eq (omega arith) (omega arith) (omega arith)
              (omega arith) (omega arith) at_f at_s at_t at_l (is_color white) w all h.by_white
              all_bits refl wx wy))
          (rw eb (
            castled_kept cells cells' f s t l x y cells_eq (omega arith) (omega arith) (omega arith)
              (omega arith) (omega arith) at_f at_s at_t at_l (is_color black) b h.by_black refl bx
              by))

    castled_black :
        w' ≡ w
        → b' ≡ bit_xor b all
        → is_color white x ≡ false
        → is_color white y ≡ false
        → is_color black x ≡ true
        → is_color black y ≡ true
        → ShowsCells 64 cells' w' b' castled_pieces
    castled_black ew eb wx wy bx by =
        castled-ShowsCells
          (rw ew (
            castled_kept cells cells' f s t l x y cells_eq (omega arith) (omega arith) (omega arith)
              (omega arith) (omega arith) at_f at_s at_t at_l (is_color white) w h.by_white refl wx
              wy))
          (rw eb (
            castled_ours cells cells' f s t l x y cells_eq (omega arith) (omega arith) (omega arith)
              (omega arith) (omega arith) at_f at_s at_t at_l (is_color black) b all h.by_black
              all_bits refl bx by))

module _ (z : Zobrist) where
  pub make_kingside_castling-InSync :
      (c : Color) (b : Board)
      → CellsValid b.cells
      → InSync b
      → CastlesKingside c b.cells
      → InSync (make_kingside_castling z c false b)
  unfolding make_kingside_castling
  make_kingside_castling-InSync white b valid h t =
      castled_white b.cells _ b.bb_white b.bb_black _ _ b.bb_pieces 60 61 62 63 2 5 5 2
        (0xa0 <<< 56) (0x50 <<< 56) (0x50 <<< 56) (0xa0 <<< 56) h
        (λ i. read-write₄ b.cells 60 61 62 63 0 5 2 0 i valid.0 (omega arith)) (omega arith)
        t.king_home t.free₁ t.free₂ t.rook_home (inl (refl, refl, refl, refl)) (omega arith)
        (omega arith) (bits₂ 60 62) (bits₂ 61 63) (0xf0 <<< 56) (bits₄ 60 61 62 63) refl refl refl
        refl refl refl
  make_kingside_castling-InSync black b valid h t =
      castled_black b.cells _ b.bb_white b.bb_black _ _ b.bb_pieces 4 5 6 7 10 13 13 10 0xa0 0x50
        0x50 0xa0 h (λ i. read-write₄ b.cells 4 5 6 7 0 13 10 0 i valid.0 (omega arith))
        (omega arith) t.king_home t.free₁ t.free₂ t.rook_home (inl (refl, refl, refl, refl))
        (omega arith) (omega arith) (bits₂ 4 6) (bits₂ 5 7) 0xf0 (bits₄ 4 5 6 7) refl refl refl refl
        refl refl

  pub make_queenside_castling-InSync :
      (c : Color) (b : Board)
      → CellsValid b.cells
      → InSync b
      → CastlesQueenside c b.cells
      → InSync (make_queenside_castling z c false b)
  unfolding make_queenside_castling
  make_queenside_castling-InSync white b valid h t =
      castled_white b.cells _ b.bb_white b.bb_black _ _ b.bb_pieces 56 58 59 60 5 2 5 2
        (0x09 <<< 56) (0x14 <<< 56) (0x09 <<< 56) (0x14 <<< 56) h
        (λ i. read-write₄ b.cells 56 58 59 60 0 2 5 0 i valid.0 (omega arith)) (omega arith)
        t.rook_home t.free₁ t.free₂ t.king_home (inr (refl, refl, refl, refl)) (omega arith)
        (omega arith) (bits₂ 56 59) (bits₂ 58 60) (0x1d <<< 56) (bits₄ 56 58 59 60) refl refl refl
        refl refl refl
  make_queenside_castling-InSync black b valid h t =
      castled_black b.cells _ b.bb_white b.bb_black _ _ b.bb_pieces 0 2 3 4 13 10 13 10 0x09 0x14
        0x09 0x14 h (λ i. read-write₄ b.cells 0 2 3 4 0 10 13 0 i valid.0 (omega arith))
        (omega arith) t.rook_home t.free₁ t.free₂ t.king_home (inr (refl, refl, refl, refl))
        (omega arith) (omega arith) (bits₂ 0 3) (bits₂ 2 4) 0x1d (bits₄ 0 2 3 4) refl refl refl refl
        refl refl
