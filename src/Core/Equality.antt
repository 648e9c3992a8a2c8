-- ===== src/Core/Equality.antt =====
-- core/move.h: the comparison of moves through their packed form.
use sofcheck.Common.{
  ℕ, ◌+◌, ◌*◌, ◌^◌, ◌<◌, ◌≡◌, ◌∙◌, ◌↔◌, sym, ap, true, ◌==◌, if◌then◌else◌, arith,
}
use sofcheck.Common.Pack.{packed}
use sofcheck.Core.Move.{
  Move, MoveKind, null, simple, pawn_double_move, enpassant, castling_kingside, castling_queenside,
  promote_knight, promote_bishop, promote_rook, promote_queen, invalid, kind_code, as_uint, move_eq,
}

-- The fields of a move fit their bytes.
pub record MoveFits (m : Move) : Type 0 where
  pub src_lt : m.src < 256
  pub dst_lt : m.dst < 256
  pub tag_lt : m.tag < 256

kind_of : ℕ → MoveKind
kind_of n =
    if n == 0
    then null
    else if n == 1
    then simple
    else if n == 2
    then pawn_double_move
    else if n == 3
    then enpassant
    else if n == 4
    then castling_kingside
    else if n == 5
    then castling_queenside
    else if n == 6
    then promote_knight
    else if n == 7
    then promote_bishop
    else if n == 8
    then promote_rook
    else if n == 9
    then promote_queen
    else invalid

kind_of-kind_code : (k : MoveKind) → kind_of (kind_code k) ≡ k
unfolding kind_of
kind_of-kind_code k = ground arith

pub kind_code_injective : (a b : MoveKind) → kind_code a ≡ kind_code b → a ≡ b
kind_code_injective a b e = sym (kind_of-kind_code a) ∙ ap kind_of e ∙ kind_of-kind_code b

pub kind_code_lt : (k : MoveKind) → kind_code k < 11
kind_code_lt k = ground arith

pub as_uint_sum :
    (m : Move)
    → MoveFits m
    → as_uint m ≡ kind_code m.kind + m.src * 2 ^ 8 + m.dst * 2 ^ 16 + m.tag * 2 ^ 24
unfolding as_uint
as_uint_sum m h =
    packed (kind_code m.kind) m.src m.dst m.tag
    ∙ omega (arith, h.src_lt, h.dst_lt, h.tag_lt, kind_code_lt m.kind)

pub as_uint_injective : (a b : Move) → MoveFits a → MoveFits b → as_uint a ≡ as_uint b → a ≡ b
as_uint_injective a b ha hb e =
    let same : kind_code a.kind + a.src * 2 ^ 8 + a.dst * 2 ^ 16 + a.tag * 2 ^ 24
        ≡ kind_code b.kind + b.src * 2 ^ 8 + b.dst * 2 ^ 16 + b.tag * 2 ^ 24 =
      sym (as_uint_sum a ha) ∙ e ∙ as_uint_sum b hb in
    let la = kind_code_lt a.kind in
    let lb = kind_code_lt b.kind in
    let k =
      kind_code_injective a.kind b.kind
        (omega (arith, ha.src_lt, ha.dst_lt, hb.src_lt, hb.dst_lt)) in
    let s : a.src ≡ b.src = omega (arith, ha.src_lt, ha.dst_lt, hb.src_lt, hb.dst_lt) in
    let d : a.dst ≡ b.dst = omega (arith, ha.src_lt, ha.dst_lt, hb.src_lt, hb.dst_lt) in
    let t : a.tag ≡ b.tag = omega (arith, ha.src_lt, ha.dst_lt, hb.src_lt, hb.dst_lt) in
    ground (arith, k, s, d, t)

-- Moves whose fields fit their bytes compare equal exactly when all their fields agree.
pub move_eq_iff : (a b : Move) → MoveFits a → MoveFits b → (move_eq a b ≡ true) ↔ (a ≡ b)
unfolding move_eq
move_eq_iff a b ha hb = (λ h. as_uint_injective a b ha hb (ground arith), λ e. rw e (ground arith))
