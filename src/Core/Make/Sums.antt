-- ===== src/Core/Make/Sums.antt =====
-- Sums of position keys, as the cases of `moveMake` change them.
use sofcheck.Common.{
  ℕ, ◌+◌, ◌<◌, ◌≡◌, ◌≢◌, ◌∙◌, refl, List, bit_xor, read, write, arith, length, length-write,
  read-write,
}
use sofcheck.Common.Bits.{test_bit_ext, bit_laws, bit_xor-zero, bit_xor_assoc}
use sofcheck.Core.Types.{Color, king, rook, make_cell}
use sofcheck.Core.Geometry.{castling_offset}
use sofcheck.Core.Zobrist.{Zobrist, init_zobrist}
use sofcheck.Core.Hash.{EmptyKeys, cells_key, cells_key-write}

-- What `initZobrist` establishes of its tables.
pub record KeysMade (z : Zobrist) : Type 0 where
  pub empty_keys : EmptyKeys z
  pub kingside :
      (c : Color)
      → let o = castling_offset c in
        z.piece_castling_kingside c
        ≡ bit_xor
            (bit_xor
              (bit_xor (z.pieces (make_cell c king) (o + 4)) (z.pieces (make_cell c rook) (o + 5)))
              (z.pieces (make_cell c king) (o + 6)))
            (z.pieces (make_cell c rook) (o + 7))
  pub queenside :
      (c : Color)
      → let o = castling_offset c in
        z.piece_castling_queenside c
        ≡ bit_xor
            (bit_xor
              (bit_xor (z.pieces (make_cell c rook) (o + 0)) (z.pieces (make_cell c king) (o + 2)))
              (z.pieces (make_cell c rook) (o + 3)))
            (z.pieces (make_cell c king) (o + 4))

pub init_zobrist-KeysMade : (random : ℕ → ℕ) → KeysMade (init_zobrist random)
unfolding init_zobrist
init_zobrist-KeysMade random = record {
  empty_keys = λ i. refl;
  kingside = λ c. refl;
  queenside = λ c. refl;
}

-- Exclusive sums, rearranged.
pub swap_key :
    (e o n k : ℕ) → bit_xor (bit_xor (bit_xor (bit_xor e o) k) o) n ≡ bit_xor (bit_xor e n) k
swap_key e o n k = test_bit_ext _ _ λ i. simp bit_laws (ground arith)

pub add_key :
    (e o k n : ℕ) → bit_xor (bit_xor (bit_xor e o) k) n ≡ bit_xor (bit_xor (bit_xor e n) o) k
add_key e o k n = test_bit_ext _ _ λ i. simp bit_laws (ground arith)

pub drop_key :
    (e o k n : ℕ) → bit_xor (bit_xor (bit_xor (bit_xor e n) o) k) n ≡ bit_xor (bit_xor e o) k
drop_key e o k n = test_bit_ext _ _ λ i. simp bit_laws (ground arith)

pub turn_key :
    (e o k n : ℕ) → bit_xor (bit_xor (bit_xor e o) k) n ≡ bit_xor (bit_xor (bit_xor n e) o) k
turn_key e o k n = test_bit_ext _ _ λ i. simp bit_laws (ground arith)

pub turn_back_key :
    (e o k n : ℕ) → bit_xor (bit_xor (bit_xor (bit_xor n e) o) k) n ≡ bit_xor (bit_xor e o) k
turn_back_key e o k n = test_bit_ext _ _ λ i. simp bit_laws (ground arith)

pub two_keys :
    (e k a b c : ℕ)
    → bit_xor (bit_xor e k) (bit_xor (bit_xor a b) c)
      ≡ bit_xor e (bit_xor (bit_xor (bit_xor k a) c) b)
two_keys e k a b c = test_bit_ext _ _ λ i. simp bit_laws (ground arith)

pub three_keys :
    (e k a b c : ℕ)
    → bit_xor (bit_xor e k) (bit_xor (bit_xor a b) c)
      ≡ bit_xor e (bit_xor (bit_xor (bit_xor k a) b) c)
three_keys e k a b c = test_bit_ext _ _ λ i. simp bit_laws (ground arith)

pub four_keys :
    (e k a b c d : ℕ)
    → bit_xor (bit_xor e k) (bit_xor (bit_xor (bit_xor a b) c) d)
      ≡ bit_xor e (bit_xor (bit_xor (bit_xor (bit_xor k a) b) c) d)
four_keys e k a b c d = test_bit_ext _ _ λ i. simp bit_laws (ground arith)

module _ (z : Zobrist) (empty_keys : EmptyKeys z) (cells : List ℕ) (size : length cells ≡ 64) where
  -- A cell that loses its content, or gains one.
  pub lifted_key :
      (s : ℕ)
      → s < 64
      → cells_key z 64 (write cells s 0)
        ≡ bit_xor (cells_key z 64 cells) (z.pieces (read cells s) s)
  lifted_key s hs =
      rw (cells_key-write z empty_keys cells s 0 size hs, empty_keys s) (bit_xor-zero _)

  pub placed_key :
      (s v : ℕ)
      → s < 64
      → read cells s ≡ 0
      → cells_key z 64 (write cells s v) ≡ bit_xor (cells_key z 64 cells) (z.pieces v s)
  placed_key s v hs e =
      rw (cells_key-write z empty_keys cells s v size hs, e, empty_keys s, bit_xor-zero)

module _ (z : Zobrist) (empty_keys : EmptyKeys z) (cells : List ℕ) (size : length cells ≡ 64) where
  pub moved_key :
      (s d v : ℕ)
      → s < 64
      → d < 64
      → s ≢ d
      → cells_key z 64 (write (write cells s 0) d v)
        ≡ bit_xor
            (bit_xor
              (bit_xor (cells_key z 64 cells) (z.pieces (read cells s) s))
              (z.pieces (read cells d) d))
            (z.pieces v d)
  moved_key s d v hs hd ne = ground (
    arith,
    cells_key-write z empty_keys (write cells s 0) d v,
    lifted_key z empty_keys cells size s hs,
    read-write cells s 0 d,
    length-write cells s 0,
  )

module _ (z : Zobrist) (made : KeysMade z) (e : ℕ) (cells : List ℕ) (size : length cells ≡ 64) where
  pub moved_sum :
      (s d v : ℕ)
      → s < 64
      → d < 64
      → s ≢ d
      → bit_xor
          (bit_xor e (cells_key z 64 cells))
          (bit_xor (bit_xor (z.pieces (read cells s) s) (z.pieces v d)) (z.pieces (read cells d) d))
        ≡ bit_xor e (cells_key z 64 (write (write cells s 0) d v))
  moved_sum s d v hs hd ne =
      rw (moved_key z made.empty_keys cells size s d v hs hd ne) (two_keys _ _ _ _ _)

  pub stepped_sum :
      (s d v : ℕ)
      → s < 64
      → d < 64
      → s ≢ d
      → read cells s ≡ v
      → read cells d ≡ 0
      → bit_xor (bit_xor e (cells_key z 64 cells)) (bit_xor (z.pieces v s) (z.pieces v d))
        ≡ bit_xor e (cells_key z 64 (write (write cells s 0) d v))
  stepped_sum s d v hs hd ne es ed = ground (
    arith,
    moved_sum s d v hs hd ne,
    made.empty_keys d,
    bit_xor-zero (bit_xor (z.pieces v s) (z.pieces v d)),
  )

  pub taken_sum :
      (s d t v x : ℕ)
      → s < 64
      → d < 64
      → s ≢ d
      → t < 64
      → t ≢ s
      → t ≢ d
      → read cells s ≡ v
      → read cells d ≡ 0
      → read cells t ≡ x
      → bit_xor
          (bit_xor e (cells_key z 64 cells))
          (bit_xor (bit_xor (z.pieces v s) (z.pieces v d)) (z.pieces x t))
        ≡ bit_xor e (cells_key z 64 (write (write (write cells s 0) d v) t 0))
  taken_sum s d t v x hs hd ne ht nts ntd es ed et = ground (
    arith,
    stepped_sum s d v hs hd ne es ed,
    lifted_key z made.empty_keys (write (write cells s 0) d v)
        (length-write (write cells s 0) d v ∙ length-write cells s 0 ∙ size) t ht,
    read-write (write cells s 0) d v t,
    read-write cells s 0 t,
    bit_xor_assoc (bit_xor e (cells_key z 64 cells)) (bit_xor (z.pieces v s) (z.pieces v d))
        (z.pieces x t),
    bit_xor_assoc e (cells_key z 64 (write (write cells s 0) d v)) (z.pieces x t),
  )

  -- Castling: x and y leave f and l for t and s.
  pub castled_sum :
      (f s t l x y : ℕ)
      → (f < s) × (s < t) × (t < l) × (l < 64)
      → read cells f ≡ x
      → read cells s ≡ 0
      → read cells t ≡ 0
      → read cells l ≡ y
      → bit_xor
          (bit_xor e (cells_key z 64 cells))
          (bit_xor (bit_xor (bit_xor (z.pieces x f) (z.pieces y s)) (z.pieces x t)) (z.pieces y l))
        ≡ bit_xor e (cells_key z 64 (write (write (write (write cells f 0) s y) t x) l 0))
  castled_sum f s t l x y apart ef es et el =
      let c₁ = write cells f 0 in
      let c₂ = write c₁ s y in
      let c₃ = write c₂ t x in
      let n₁ = length-write cells f 0 ∙ size in
      let n₂ = length-write c₁ s y ∙ n₁ in
      let n₃ = length-write c₂ t x ∙ n₂ in
      ground (
        arith,
        four_keys e (cells_key z 64 cells) (z.pieces x f) (z.pieces y s) (z.pieces x t)
            (z.pieces y l),
        lifted_key z made.empty_keys cells size f,
        placed_key z made.empty_keys c₁ n₁ s y,
        placed_key z made.empty_keys c₂ n₂ t x,
        lifted_key z made.empty_keys c₃ n₃ l,
        read-write cells f 0 s,
        read-write cells f 0 t,
        read-write cells f 0 l,
        read-write c₁ s y t,
        read-write c₁ s y l,
        read-write c₂ t x l,
      )
