-- ===== src/Core/Synced/Restore.antt =====
-- Undoing the writes of a move: the cells and the bitboards come back.
use sofcheck.Common.{
  ℕ, ◌<◌, ◌≡◌, ◌≢◌, ◌∙◌, Bool, true, false, List, ◌==◌, if◌then◌else◌, bit_or, bit_and, bit_xor,
  bit_not, read, write, read-write, read_ext, length, length-write, arith, Bool-cases, inl, inr,
}
use sofcheck.Common.Bits.{test_bit_ext, bit_laws, bit_xor_cancel, zero-bit_and}
use sofcheck.Core.Types.{coord_to_bitboard}
use sofcheck.Core.Synced.{ShowsBelow, test_bit-coord}
use sofcheck.Core.Synced.Pieces.{ShowsPieces, moved_pieces, promoted_pieces}

-- A capture and its undoing, on a bitboard with or without the captured piece.
module _ (p : ℕ → Bool) (cells : List ℕ) (bb : ℕ) (shown : ShowsBelow 64 p cells bb) (d : ℕ) where
  pub uncapture :
      d < 64
      → p (read cells d) ≡ true
      → bit_or (bit_and bb (bit_not (coord_to_bitboard d))) (coord_to_bitboard d) ≡ bb
  uncapture lt h = test_bit_ext _ _ λ i. simp (bit_laws, test_bit-coord) (ground (arith, shown i))

  pub no_capture : p (read cells d) ≡ false → bit_and bb (bit_not (coord_to_bitboard d)) ≡ bb
  no_capture h = test_bit_ext _ _ λ i. simp (bit_laws, test_bit-coord) (ground (arith, shown i))

pub length-write₂ : (xs : List ℕ) (i v j w : ℕ) → length (write (write xs i v) j w) ≡ length xs
length-write₂ xs i v j w = length-write (write xs i v) j w ∙ length-write xs i v

module _ (cells : List ℕ) (s d : ℕ) (ne : s ≢ d) where
  pub restore₂ :
      (v a e : ℕ)
      → read cells s ≡ a
      → read cells d ≡ e
      → write (write (write (write cells s 0) d v) s a) d e ≡ cells
  restore₂ v a e ha he =
      let c₁ = write cells s 0 in
      let c₂ = write c₁ d v in
      let c₃ = write c₂ s a in
      read_ext _ _ (length-write₂ c₂ s a d e ∙ length-write₂ cells s 0 d v) λ i lt. ground (
        arith,
        read-write c₃ d e i,
        read-write c₂ s a i,
        read-write c₁ d v i,
        read-write cells s 0 i,
        length-write c₂ s a,
        length-write c₁ d v,
        length-write cells s 0,
      )

  pub restore₃ :
      (t v a e x : ℕ)
      → t ≢ s
      → t ≢ d
      → read cells s ≡ a
      → read cells d ≡ e
      → read cells t ≡ x
      → write (write (write (write (write (write cells s 0) d v) t 0) s a) d e) t x ≡ cells
  restore₃ t v a e x nts ntd ha he hx =
      let c₂ = write (write cells s 0) d v in
      let c₃ = write c₂ t 0 in
      let c₄ = write c₃ s a in
      let c₅ = write c₄ d e in
      let n₃ = length-write c₂ t 0 ∙ length-write₂ cells s 0 d v in
      read_ext _ _ (length-write c₅ t x ∙ length-write₂ c₃ s a d e ∙ n₃) λ i lt. ground (
        arith,
        read-write c₅ t x i,
        read-write c₄ d e i,
        read-write c₃ s a i,
        read-write c₂ t 0 i,
        read-write (write cells s 0) d v i,
        read-write cells s 0 i,
        length-write c₄ d e,
        length-write c₃ s a,
        n₃,
        length-write₂ cells s 0 d v,
        length-write cells s 0,
      )

pub restore₄ :
    (cells : List ℕ) (f s t l vf vs vt vl wf ws wt wl : ℕ)
    → (f < s) × (s < t) × (t < l) × (l < length cells)
    → read cells f ≡ wf
    → read cells s ≡ ws
    → read cells t ≡ wt
    → read cells l ≡ wl
    → write
        (write
          (write (write (write (write (write (write cells f vf) s vs) t vt) l vl) f wf) s ws)
          t
          wt)
        l
        wl
      ≡ cells
restore₄ cells f s t l vf vs vt vl wf ws wt wl apart hf hs ht hl =
    let c₂ = write (write cells f vf) s vs in
    let c₄ = write (write c₂ t vt) l vl in
    let c₆ = write (write c₄ f wf) s ws in
    let n₂ = length-write₂ cells f vf s vs in
    let n₄ = length-write₂ c₂ t vt l vl ∙ n₂ in
    let n₆ = length-write₂ c₄ f wf s ws ∙ n₄ in
    read_ext _ _ (length-write₂ c₆ t wt l wl ∙ n₆) λ i lt. ground (
      arith,
      read-write (write c₆ t wt) l wl i,
      read-write c₆ t wt i,
      read-write (write c₄ f wf) s ws i,
      read-write c₄ f wf i,
      read-write (write c₂ t vt) l vl i,
      read-write c₂ t vt i,
      read-write (write cells f vf) s vs i,
      read-write cells f vf i,
      length-write c₆ t wt,
      length-write c₄ f wf,
      length-write c₂ t vt,
      length-write cells f vf,
      n₂,
      n₄,
      n₆,
    )

-- The bitboards of the kinds: two exclusive writes undo themselves.
pub xor_twice :
    (pieces : List ℕ) (a v : ℕ)
    → let once = write pieces a (bit_xor (read pieces a) v) in
      write once a (bit_xor (read once a) v) ≡ pieces
xor_twice pieces a v =
    let x = bit_xor (read pieces a) v in
    let once = write pieces a x in
    read_ext _ _ (length-write₂ pieces a x a (bit_xor (read once a) v)) λ i lt. ground (
      arith,
      read-write once a (bit_xor (read once a) v) i,
      read-write pieces a x i,
      read-write pieces a x a,
      length-write pieces a x,
      bit_xor_cancel (read pieces a) v,
    )

pub xor_two_twice :
    (pieces : List ℕ) (a b v w : ℕ)
    → a ≢ b
    → let p₁ = write pieces a (bit_xor (read pieces a) v) in
      let p₂ = write p₁ b (bit_xor (read p₁ b) w) in
      let p₃ = write p₂ a (bit_xor (read p₂ a) v) in write p₃ b (bit_xor (read p₃ b) w) ≡ pieces
xor_two_twice pieces a b v w ne =
    let p₁ = write pieces a (bit_xor (read pieces a) v) in
    let p₂ = write p₁ b (bit_xor (read p₁ b) w) in
    let p₃ = write p₂ a (bit_xor (read p₂ a) v) in
    let n₁ = length-write pieces a (bit_xor (read pieces a) v) in
    let n₂ = length-write p₁ b (bit_xor (read p₁ b) w) in
    let n₃ = length-write p₂ a (bit_xor (read p₂ a) v) in
    read_ext _ _ (length-write p₃ b (bit_xor (read p₃ b) w) ∙ n₃ ∙ n₂ ∙ n₁) λ i lt. ground (
      arith,
      n₁,
      n₂,
      n₃,
      read-write p₃ b (bit_xor (read p₃ b) w) i,
      read-write p₂ a (bit_xor (read p₂ a) v) i,
      read-write p₂ a (bit_xor (read p₂ a) v) b,
      read-write p₁ b (bit_xor (read p₁ b) w) i,
      read-write p₁ b (bit_xor (read p₁ b) w) a,
      read-write p₁ b (bit_xor (read p₁ b) w) b,
      read-write pieces a (bit_xor (read pieces a) v) i,
      read-write pieces a (bit_xor (read pieces a) v) a,
      read-write pieces a (bit_xor (read pieces a) v) b,
      bit_xor_cancel (read pieces a) v,
      bit_xor_cancel (read pieces b) w,
    )

module _ (cells pieces : List ℕ) (h : ShowsPieces cells pieces) (s d : ℕ) (hd : d < 64) (e : ℕ)
    (he : read cells d ≡ e) (le : e < 15) where
  -- The bitboard of the captured kind, masked and set again; that of the empty cell is 0.
  pub recaptured :
      (if e == 0
        then bit_and (read pieces e) (bit_not (coord_to_bitboard d))
        else bit_or (bit_and (read pieces e) (bit_not (coord_to_bitboard d))) (coord_to_bitboard d))
      ≡ read pieces e
  recaptured = elim (Bool-cases (e == 0)) [
    | inl z ↦ ground (arith, h.2, zero-bit_and (bit_not (coord_to_bitboard d)))
    | inr nz ↦ rw nz (
        uncapture (λ c. c == e) cells (read pieces e) (h.1 e (ground arith) le) d hd (ground arith))
  ]

  abbrev uncaptured : List ℕ → List ℕ
  uncaptured ps = if e == 0 then ps else write ps e (bit_or (read ps e) (coord_to_bitboard d))

  pub moved_pieces_back :
      (a : ℕ)
      → a ≢ e
      → a < 15
      → let change = bit_or (coord_to_bitboard s) (coord_to_bitboard d) in
        let p₂ = moved_pieces s d a e pieces in
        uncaptured (write p₂ a (bit_xor (read p₂ a) change)) ≡ pieces
  moved_pieces_back a ne la =
      let change = bit_or (coord_to_bitboard s) (coord_to_bitboard d) in
      let p₁ = write pieces a (bit_xor (read pieces a) change) in
      let p₂ = write p₁ e (bit_and (read p₁ e) (bit_not (coord_to_bitboard d))) in
      let p₃ = write p₂ a (bit_xor (read p₂ a) change) in
      let n₁ = length-write pieces a (bit_xor (read pieces a) change) in
      let n₂ = length-write p₁ e (bit_and (read p₁ e) (bit_not (coord_to_bitboard d))) in
      let n₃ = length-write p₂ a (bit_xor (read p₂ a) change) in
      let n₄ = length-write p₃ e (bit_or (read p₃ e) (coord_to_bitboard d)) in
      read_ext _ _ (ground (arith, n₁, n₂, n₃, n₄)) λ i lt. ground (
        arith,
        n₁,
        n₂,
        n₃,
        recaptured,
        h.0,
        read-write p₃ e (bit_or (read p₃ e) (coord_to_bitboard d)) i,
        read-write p₂ a (bit_xor (read p₂ a) change) i,
        read-write p₂ a (bit_xor (read p₂ a) change) e,
        read-write p₁ e (bit_and (read p₁ e) (bit_not (coord_to_bitboard d))) i,
        read-write p₁ e (bit_and (read p₁ e) (bit_not (coord_to_bitboard d))) a,
        read-write p₁ e (bit_and (read p₁ e) (bit_not (coord_to_bitboard d))) e,
        read-write pieces a (bit_xor (read pieces a) change) i,
        read-write pieces a (bit_xor (read pieces a) change) a,
        read-write pieces a (bit_xor (read pieces a) change) e,
        bit_xor_cancel (read pieces a) change,
      )

  pub promoted_pieces_back :
      (a q : ℕ)
      → a ≢ e
      → q ≢ e
      → a ≢ q
      → a < 15
      → q < 15
      → let p₃ = promoted_pieces s d a q e pieces in
        let p₄ = write p₃ a (bit_xor (read p₃ a) (coord_to_bitboard s)) in
        uncaptured (write p₄ q (bit_xor (read p₄ q) (coord_to_bitboard d))) ≡ pieces
  promoted_pieces_back a q nae nqe naq la lq =
      let x = coord_to_bitboard s in
      let y = coord_to_bitboard d in
      let p₁ = write pieces a (bit_xor (read pieces a) x) in
      let p₂ = write p₁ q (bit_xor (read p₁ q) y) in
      let p₃ = write p₂ e (bit_and (read p₂ e) (bit_not y)) in
      let p₄ = write p₃ a (bit_xor (read p₃ a) x) in
      let p₅ = write p₄ q (bit_xor (read p₄ q) y) in
      let n₁ = length-write pieces a (bit_xor (read pieces a) x) in
      let n₂ = length-write p₁ q (bit_xor (read p₁ q) y) in
      let n₃ = length-write p₂ e (bit_and (read p₂ e) (bit_not y)) in
      let n₄ = length-write p₃ a (bit_xor (read p₃ a) x) in
      let n₅ = length-write p₄ q (bit_xor (read p₄ q) y) in
      let n₆ = length-write p₅ e (bit_or (read p₅ e) y) in
      read_ext _ _ (ground (arith, n₁, n₂, n₃, n₄, n₅, n₆)) λ i lt. ground (
        arith,
        n₁,
        n₂,
        n₃,
        n₄,
        n₅,
        recaptured,
        h.0,
        read-write p₅ e (bit_or (read p₅ e) y) i,
        read-write p₄ q (bit_xor (read p₄ q) y) i,
        read-write p₄ q (bit_xor (read p₄ q) y) e,
        read-write p₃ a (bit_xor (read p₃ a) x) i,
        read-write p₃ a (bit_xor (read p₃ a) x) q,
        read-write p₃ a (bit_xor (read p₃ a) x) e,
        read-write p₂ e (bit_and (read p₂ e) (bit_not y)) i,
        read-write p₂ e (bit_and (read p₂ e) (bit_not y)) a,
        read-write p₂ e (bit_and (read p₂ e) (bit_not y)) q,
        read-write p₂ e (bit_and (read p₂ e) (bit_not y)) e,
        read-write p₁ q (bit_xor (read p₁ q) y) i,
        read-write p₁ q (bit_xor (read p₁ q) y) a,
        read-write p₁ q (bit_xor (read p₁ q) y) q,
        read-write p₁ q (bit_xor (read p₁ q) y) e,
        read-write pieces a (bit_xor (read pieces a) x) i,
        read-write pieces a (bit_xor (read pieces a) x) a,
        read-write pieces a (bit_xor (read pieces a) x) q,
        read-write pieces a (bit_xor (read pieces a) x) e,
        bit_xor_cancel (read pieces a) x,
        bit_xor_cancel (read pieces q) y,
      )
