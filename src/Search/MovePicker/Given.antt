-- ===== src/Search/MovePicker/Given.antt =====
-- Every stage of `MovePicker` leaves its moves behind, so at the end all are given.
use sofcheck.Common.{◌≡◌, List, ◌<◌, arith, All, All-map, true, refl, inl, subst, ap, [], ◌∷◌}
use sofcheck.Core.Board.{Board}
use sofcheck.Core.Types.{Color}
use sofcheck.Core.Zobrist.{Zobrist}
use sofcheck.Core.Synced.{IsSynced}
use sofcheck.Core.Coherent.{IsCoherent}
use sofcheck.Core.Coherent.Playable.{IsPlayable}
use sofcheck.Core.MoveGen.Playable.{OneKing}
use sofcheck.Core.MoveGen.Generated.{Generators-All}
use sofcheck.Core.MoveGen.Quiets.{IsQuiet, gen_quiets-All}
use sofcheck.Core.MoveGen.Gen.{
  new_move_gen, gen_captures, gen_simple_promotes, gen_simple_moves_no_promote,
}
use sofcheck.Core.Move.{Move, null_move, is_well_formed}
use sofcheck.Core.Equality.{MoveFits}
use sofcheck.Core.Attacks.{MagicTables}
use sofcheck.Core.MoveGen.Captures.{new_move_gen-board, gen_captures-All}
use sofcheck.Search.Sort.{StdSort, Has-right}
use sofcheck.Search.MovePicker.{
  at_start, at_hash_move, at_capture, at_simple_promote, at_killer, at_history, at_end, stage_code,
  Memory, is_valid_killer, fill_stage, after_calls, new_move_picker, given,
}
use sofcheck.Search.MovePicker.Steps.{FillsKeep, picker-Follows, rest_empty}
use sofcheck.Search.MovePicker.Ends.{picker-Runs, at_end_rest}
use sofcheck.Search.MovePicker.Complete.{HasAll, HasHash}
use sofcheck.Search.MovePicker.Covers.{
  KillersFit, Covers, Covers-wider, captures, quiets, captures-shown, promotes-shown, quiets-shown,
  killers_shown,
}

module _ (s : StdSort) (t : MagicTables) (b : Board) (hash : Move)
    (tags : All (λ m. m.tag ≡ 0) (captures s t b hash))
    (facts : All (λ m. MoveFits m × (is_valid_killer s t b m ≡ true)) (quiets s t b hash)) where
  fills : FillsKeep s t b hash KillersFit (Covers s t b hash)
  unfolding fill_stage
  fills e at_start p out he gen same h = simp same (record {
    killers_fit = h.killers_fit;
    hash_done = λ le n. Has-right _ out _ (rw n (inl refl));
    captures_done = λ le. absurd (omega arith);
    promotes_done = λ le. absurd (omega arith);
    killers_done = λ le. absurd (omega arith);
    quiets_done = λ le. absurd (omega arith);
  })
  fills e at_hash_move p out he gen same h =
      let board = (new_move_gen-board t b).0 in
      let w = Covers-wider s t b hash out _ at_hash_move p.saved_first p.saved_second h in
      simp (gen, same, board)
        (record {
          killers_fit = h.killers_fit;
          hash_done = λ le. w.hash_done (omega arith);
          captures_done =
              λ le. captures-shown s t b hash tags facts out (h.hash_done (omega arith));
          promotes_done = λ le. absurd (omega arith);
          killers_done = λ le. absurd (omega arith);
          quiets_done = λ le. absurd (omega arith);
        })
  fills e at_capture p out he gen same h =
      let w = Covers-wider s t b hash out _ at_capture p.saved_first p.saved_second h in
      simp (gen, same)
        (record {
          killers_fit = h.killers_fit;
          hash_done = λ le. w.hash_done (omega arith);
          captures_done = λ le. w.captures_done (omega arith);
          promotes_done =
              λ le. promotes-shown s t b hash tags facts out (h.hash_done (omega arith));
          killers_done = λ le. absurd (omega arith);
          quiets_done = λ le. absurd (omega arith);
        })
  fills e at_simple_promote p out he gen same h =
      let board = (new_move_gen-board t b).0 in
      let w = Covers-wider s t b hash out _ at_simple_promote p.saved_first p.saved_second h in
      simp (gen, same, board)
        (record {
          killers_fit = he;
          hash_done = λ le. w.hash_done (omega arith);
          captures_done = λ le. w.captures_done (omega arith);
          promotes_done = λ le. w.promotes_done (omega arith);
          killers_done = λ le.
              killers_shown s t b hash tags facts e.killers.first e.killers.second out
                (h.hash_done (omega arith));
          quiets_done = λ le. absurd (omega arith);
        })
  fills e at_killer p out he gen same h =
      let w = Covers-wider s t b hash out _ at_killer p.saved_first p.saved_second h in
      simp (gen, same)
        (record {
          killers_fit = h.killers_fit;
          hash_done = λ le. w.hash_done (omega arith);
          captures_done = λ le. w.captures_done (omega arith);
          promotes_done = λ le. w.promotes_done (omega arith);
          killers_done = λ le. w.killers_done (omega arith);
          quiets_done = λ le.
              quiets-shown s t b hash tags facts p.saved_first p.saved_second out e.history
                (h.hash_done (omega arith)) h.killers_fit (h.killers_done (omega arith));
        })
  fills e at_history p out he gen same h =
      let w = Covers-wider s t b hash out _ at_history p.saved_first p.saved_second h in
      record {
        killers_fit = h.killers_fit;
        hash_done = λ le. w.hash_done (omega arith);
        captures_done = λ le. w.captures_done (omega arith);
        promotes_done = λ le. w.promotes_done (omega arith);
        killers_done = λ le. w.killers_done (omega arith);
        quiets_done = λ le. w.quiets_done (omega arith);
      }
  fills e at_end p out he gen same h =
      Covers-wider s t b hash out _ at_end p.saved_first p.saved_second h

  at_end-Covers :
      (es : List Memory)
      → All KillersFit es
      → let p = after_calls s t es (new_move_picker s t b hash) in
        p.stage ≡ at_end
        → Covers s t b hash
            (given s t es (new_move_picker s t b hash))
            p.stage
            p.saved_first
            p.saved_second
  at_end-Covers es fit ends =
      let p = after_calls s t es (new_move_picker s t b hash) in
      let null_fits : MoveFits null_move = record {
        src_lt = omega arith;
        dst_lt = omega arith;
        tag_lt = omega arith;
      } in
      let follows = picker-Follows s t b hash KillersFit (Covers s t b hash) fills es fit (record {
        killers_fit = (null_fits, null_fits);
        hash_done = λ le. absurd (omega arith);
        captures_done = λ le. absurd (omega arith);
        promotes_done = λ le. absurd (omega arith);
        killers_done = λ le. absurd (omega arith);
        quiets_done = λ le. absurd (omega arith);
      }) in
      let runs = picker-Runs s t b hash es in
      subst (λ ms. Covers s t b hash ms p.stage p.saved_first p.saved_second)
        (rest_empty _ p (at_end_rest s t (new_move_gen t b) hash p runs ends)) follows.holds

formed_lt : (m : Move) (c : Color) → is_well_formed m c ≡ true → (m.src < 64) × (m.dst < 64)
unfolding is_well_formed
formed_lt m c h = (ground arith, ground arith)

-- The moves of the history stage may be killers.
quiet-facts :
    (s : StdSort) (t : MagicTables) (b : Board) (ms : List Move)
    → All (IsPlayable t b) ms
    → All (IsQuiet b) ms
    → All (λ m. MoveFits m × (is_valid_killer s t b m ≡ true)) ms
unfolding is_valid_killer
quiet-facts s t b [] h k = tt
quiet-facts s t b (m ∷ ms) (hm, h) (km, k) =
    let (src_lt, dst_lt) = formed_lt m b.side hm.formed in
    (
      (
        record { src_lt = omega arith; dst_lt = omega arith; tag_lt = omega (arith, km.no_tag) },
        rw (km.no_capture, km.no_promotion, hm.valid) refl,
      ),
      quiet-facts s t b ms h k,
    )

-- In a position in sync, coherent and with one king of the side to move at most, once the picker is
-- at its end it has given every capture, every simple promotion and every other move that the
-- generators make, and the hash move if there is one, whatever valid or invalid killers and whatever
-- history it was shown at each call; the fields of the killers fit their bytes.
pub given-HasAll :
    (s : StdSort) (z : Zobrist) (t : MagicTables) (b : Board) (hash : Move) (es : List Memory)
    → IsSynced z b
    → IsCoherent b
    → OneKing b.side b.cells
    → All KillersFit es
    → (after_calls s t es (new_move_picker s t b hash)).stage ≡ at_end
    → let out = given s t es (new_move_picker s t b hash) in
      let g = new_move_gen t b in
      HasAll (gen_captures t g) out
      × HasAll (gen_simple_promotes t g) out
      × HasAll (gen_simple_moves_no_promote t g) out
      × HasHash hash out
given-HasAll s z t b hash es h c one fit ends =
    let (_, _, _, playable, _) = Generators-All z t b h c one in
    let tags = All-map (λ m p. p.1) _ (gen_captures-All z t b h) in
    let facts = quiet-facts s t b _ playable (gen_quiets-All z t b h) in
    let all = at_end-Covers s t b hash tags facts es fit ends in
    (
      all.captures_done (omega (arith, ap stage_code ends)),
      all.promotes_done (omega (arith, ap stage_code ends)),
      all.quiets_done (omega (arith, ap stage_code ends)),
      all.hash_done (omega (arith, ap stage_code ends)),
    )
