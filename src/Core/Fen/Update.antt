-- ===== src/Core/Fen/Update.antt =====
-- `update` takes only the essential fields into account, and leaves a position in sync and coherent as
-- it is.
use sofcheck.Common.{
  ℕ, ◌<◌, ◌≡◌, ◌∙◌, ap, refl, Bool, true, false, ◌&&◌, ◌||◌, ◌==◌, ==_iff, if◌then◌else◌, [],
  bit_and, read, arith, Bool-cases, inl, inr, all_to, all_to_sound,
}
use sofcheck.Core.Types.{
  Color, white, black, king, rook, make_cell, make_coord, castling_queenside, castling_kingside,
  castling_not, has, invalid_coord,
}
use sofcheck.Core.Geometry.{castling_row}
use sofcheck.Core.Zobrist.{Zobrist}
use sofcheck.Core.Board.{
  Board, update, update_bitboards, update_enpassant, update_castling_of, compute_hash,
  clear_castling, clear_queenside_castling, clear_kingside_castling, without_castling,
  is_kingside_castling, is_queenside_castling,
}
use sofcheck.Core.Synced.{IsSynced, refresh, refresh-eq_of_IsSynced}
use sofcheck.Core.Coherent.{IsCoherent}
use sofcheck.Core.Validate.Updated.{home_cells}

-- The other fields do not matter to `update`.
unfoldable pub bare : Board → Board
bare b = record b { hash = 0; bb_white = 0; bb_black = 0; bb_all = 0; bb_pieces = [] }

update_enpassant-bare : (b : Board) → update_enpassant (bare b) ≡ bare (update_enpassant b)
unfolding update_enpassant bare
update_enpassant-bare b = ground arith

update_castling_of-bare :
    (b : Board) (c : Color) → update_castling_of (bare b) c ≡ bare (update_castling_of b c)
unfolding update_castling_of bare clear_castling clear_queenside_castling clear_kingside_castling
update_castling_of-bare b c = ground arith

-- What `update` does before the bitboards and the hash.
abbrev prepared : Board → Board
prepared b = update_castling_of (update_castling_of (update_enpassant b) white) black

prepared-bare : (b : Board) → prepared (bare b) ≡ bare (prepared b)
prepared-bare b =
    ap (λ x. update_castling_of (update_castling_of x white) black) (update_enpassant-bare b)
    ∙ ap (λ x. update_castling_of x black) (update_castling_of-bare (update_enpassant b) white)
    ∙ update_castling_of-bare (update_castling_of (update_enpassant b) white) black

refresh-bare : (z : Zobrist) (b : Board) → refresh z (bare b) ≡ refresh z b
unfolding refresh update_bitboards bare compute_hash
refresh-bare z b = refl

pub update-bare : (z : Zobrist) (b : Board) → update z (bare b) ≡ update z b
unfolding update refresh
update-bare z b = ap (refresh z) (prepared-bare b) ∙ refresh-bare z (prepared b)

flags_kept : Color → ℕ → Bool
flags_kept c flags =
    (has (bit_and flags (castling_kingside c))
      || bit_and flags (castling_not (castling_kingside c)) == flags)
    && (has (bit_and flags (castling_queenside c))
        || bit_and flags (castling_not (castling_queenside c)) == flags)
    && (has (bit_and flags (castling_kingside c))
        || has (bit_and flags (castling_queenside c))
        || without_castling flags c == flags)

all_kept : (c : Color) → all_to 16 (flags_kept c) ≡ true
unfolding all_to flags_kept without_castling
all_kept white = refl
all_kept black = refl

-- A flag that is not set is not lost.
record Kept (c : Color) (b : Board) : Type 0 where
  no_king : is_kingside_castling b c ≡ false → clear_kingside_castling b c ≡ b
  no_queen : is_queenside_castling b c ≡ false → clear_queenside_castling b c ≡ b
  neither :
      is_kingside_castling b c ≡ false → is_queenside_castling b c ≡ false → clear_castling b c ≡ b

flags-Kept : (c : Color) (b : Board) → b.castling < 16 → Kept c b
unfolding flags_kept is_kingside_castling is_queenside_castling clear_kingside_castling
    clear_queenside_castling clear_castling
flags-Kept c b lt =
    let seen = all_to_sound 16 (flags_kept c) b.castling (all_kept c) lt in
    record {
      no_king = λ e. ap (λ f. record b { castling = f }) (ground arith);
      no_queen = λ e. ap (λ f. record b { castling = f }) (ground arith);
      neither = λ e e'. ap (λ f. record b { castling = f }) (ground arith);
    }

if_same :
    (test : Bool) (b cleared : Board)
    → (test ≡ false → cleared ≡ b)
    → (if test then b else cleared) ≡ b
if_same true b cleared h = refl
if_same false b cleared h = h refl

absent : (flag : Bool) (x y : ℕ) → (flag ≡ true → x ≡ y) → (x == y) ≡ false → flag ≡ false
absent true x y h e = let same = h refl in absurd (ground arith)
absent false x y h e = refl

-- The last test of the three, and the last two.
abbrev rook_test : Color → Board → Board
rook_test c b =
    if read b.cells (make_coord (castling_row c) 7) == make_cell c rook
    then b
    else clear_kingside_castling b c

abbrev rook_tests : Color → Board → Board
rook_tests c b = rook_test c (
    if read b.cells (make_coord (castling_row c) 0) == make_cell c rook
    then b
    else clear_queenside_castling b c)

update_castling_of-same :
    (b : Board) (c : Color) → IsCoherent b → b.castling < 16 → update_castling_of b c ≡ b
unfolding update_castling_of
update_castling_of-same b c h lt =
    let kept = flags-Kept c b lt in
    let (at_king, at_queenside, at_kingside) = home_cells c in
    let x = castling_row c in
    let home =
      if_same (read b.cells (make_coord x 4) == make_cell c king) b (clear_castling b c) λ e.
        kept.neither (absent _ _ _ (λ f. ap (read b.cells) at_king ∙ (h.kingside c f).0) e)
          (absent _ _ _ (λ f. ap (read b.cells) at_king ∙ (h.queenside c f).0) e) in
    let queen_rook =
      if_same (read b.cells (make_coord x 0) == make_cell c rook) b (clear_queenside_castling b c)
        λ e.
          kept.no_queen
            (absent _ _ _ (λ f. ap (read b.cells) at_queenside ∙ (h.queenside c f).1) e) in
    let king_rook =
      if_same (read b.cells (make_coord x 7) == make_cell c rook) b (clear_kingside_castling b c)
        λ e.
          kept.no_king (absent _ _ _ (λ f. ap (read b.cells) at_kingside ∙ (h.kingside c f).1) e) in
    ap (rook_tests c) home ∙ ap (rook_test c) queen_rook ∙ king_rook

update_enpassant-same : (b : Board) → IsCoherent b → update_enpassant b ≡ b
unfolding update_enpassant
update_enpassant-same b h = elim h.passing [
  | inl none ↦ rw none refl
  | inr p ↦ elim (Bool-cases (b.enpassant_coord == invalid_coord)) [
    | inl e ↦ rw e refl
    | inr e ↦
        let pawn_there = (==_iff _ _).1 p.enemy_pawn in
        let way_free = (==_iff _ _).1 p.passed_empty in rw (e, pawn_there, way_free) refl
  ]
]

-- So `update` gives such a position back.
pub update-same :
    (z : Zobrist) (b : Board) → IsSynced z b → IsCoherent b → b.castling < 16 → update z b ≡ b
unfolding update refresh
update-same z b h c lt =
    ap (λ x. refresh z (update_castling_of (update_castling_of x white) black))
      (update_enpassant-same b c)
    ∙ ap (λ x. refresh z (update_castling_of x black)) (update_castling_of-same b white c lt)
    ∙ ap (refresh z) (update_castling_of-same b black c lt)
    ∙ refresh-eq_of_IsSynced z b h
