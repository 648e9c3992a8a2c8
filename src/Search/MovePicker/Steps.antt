-- ===== src/Search/MovePicker/Steps.antt =====
-- What a call of `MovePicker::next` does to a property of the moves given so far and of those that
-- wait in the buffer.
use mathlib.Core.List.{append-nil, append_assoc}
use sofcheck.Common.{
  ℕ, zero, suc, ◌+◌, ◌≤◌, ◌<◌, ◌≡◌, ◌∙◌, sym, ap, refl, subst, true, ◌&&◌, not, ◌==◌, ==_iff,
  if◌then◌else◌, List, [], ◌∷◌, ◌++◌, map, length, get_or, Bool-cases, ◌⊎◌, inl, inr, arith, All,
}
use sofcheck.Core.Board.{Board}
use sofcheck.Core.Move.{Move, null_move, invalid_move, move_eq}
use sofcheck.Core.Attacks.{MagicTables}
use sofcheck.Core.MoveGen.Gen.{new_move_gen}
use sofcheck.Search.Sort.{StdSort, drop, drop_next, drop_all}
use sofcheck.Search.MovePicker.{
  MovePicker, MovePickerStage, at_start, at_hash_move, at_capture, at_simple_promote, at_killer,
  at_history, at_end, stage_code, advance, Memory, new_move_picker, fill_stage, round,
  next_stage_loop, next_stage, next, after_calls, given,
}

-- How `next` shows a move of the buffer.
abbrev pub shown : Move → MovePickerStage → Move → Move
shown hash st m = if not (stage_code st == 1) && move_eq m hash then null_move else m

abbrev pub fresh : MovePicker → List Move
fresh p = map (shown p.hash_move p.stage) p.moves

abbrev pub rest : MovePicker → List Move
rest p = map (shown p.hash_move p.stage) (drop p.move_position p.moves)

module _ (s : StdSort) (t : MagicTables) where
  pub fill_stage_lem :
      (e : Memory) (st : MovePickerStage) (p : MovePicker)
      → let q = fill_stage s t e st p in
        (q.gen ≡ p.gen)
        × (q.hash_move ≡ p.hash_move)
        × (q.stage ≡ p.stage)
        × (q.move_position ≡ p.move_position)
  unfolding fill_stage
  fill_stage_lem e at_start p = (refl, refl, refl, refl)
  fill_stage_lem e at_hash_move p = (refl, refl, refl, refl)
  fill_stage_lem e at_capture p = (refl, refl, refl, refl)
  fill_stage_lem e at_simple_promote p = (refl, refl, refl, refl)
  fill_stage_lem e at_killer p = (refl, refl, refl, refl)
  fill_stage_lem e at_history p = (refl, refl, refl, refl)
  fill_stage_lem e at_end p = (refl, refl, refl, refl)

  pub filled :
      (e : Memory) (st : MovePickerStage) (p : MovePicker)
      → let q = fill_stage s t e (advance st) (record p { stage = advance st }) in
        ((stage_code q.stage ≡ suc (stage_code st)) × (stage_code st < 5))
        ⊎ (q.moves ≡ invalid_move ∷ [])
  unfolding fill_stage
  filled e at_start p = inl (refl, omega arith)
  filled e at_hash_move p = inl (refl, omega arith)
  filled e at_capture p = inl (refl, omega arith)
  filled e at_simple_promote p = inl (refl, omega arith)
  filled e at_killer p = inl (refl, omega arith)
  filled e at_history p = inr refl
  filled e at_end p = inr refl

  -- With a round for each of the stages left, the loop ends with a move in the buffer.
  pub loop_gives :
      (n : ℕ) (e : Memory) (p : MovePicker)
      → 5 ≤ stage_code p.stage + n
      → 0 < length (next_stage_loop s t (suc n) e p).moves
  unfolding next_stage_loop
  loop_gives zero e p le = elim (filled e p.stage p) [
    | inl (_, lt) ↦ absurd (omega arith)
    | inr ends ↦ rw ends (omega arith)
  ]
  loop_gives (suc n) e p le = elim (Bool-cases (length (round s t e p).moves == 0)) [
    | inl empty ↦ elim (filled e p.stage p) [
      | inl (up, _) ↦ rw empty (loop_gives n e (round s t e p) (omega (arith, up)))
      | inr ends ↦ rw ends (omega arith)
    ]
    | inr some ↦ rw some (ground arith)
  ]

empty_list : (ms : List Move) → (length ms == 0) ≡ true → ms ≡ []
empty_list [] e = refl
empty_list (m ∷ ms) e = absurd (ground arith)

rest-fresh : (p : MovePicker) → p.move_position ≡ 0 → rest p ≡ fresh p
rest-fresh p e = rw e refl

pub rest_empty : (out : List Move) (p : MovePicker) → rest p ≡ [] → out ++ rest p ≡ out
rest_empty out p e = rw e (append-nil out)

-- The move that `next` takes, before what is left of the buffer.
taken : MovePicker → Move
taken p = shown p.hash_move p.stage (get_or p.moves p.move_position null_move)

rest-taken :
    (out : List Move) (p : MovePicker)
    → p.move_position < length p.moves
    → out ++ rest p ≡ out ++ taken p ∷ [] ++ rest (record p { move_position = p.move_position + 1 })
unfolding taken
rest-taken out p lt =
    let up : suc p.move_position ≡ p.move_position + 1 = omega arith in
    ap (λ ms. out ++ map (shown p.hash_move p.stage) ms)
      (drop_next p.moves p.move_position lt
        ∙ ap (λ i. get_or p.moves p.move_position null_move ∷ drop i p.moves) up)
    ∙ sym (append_assoc out (taken p ∷ []) _)

-- A property of the moves and of the part of a picker that a call can change besides them.
abbrev pub Kept : Type 1
Kept = List Move → MovePickerStage → Move → Move → Type 0

module _ (s : StdSort) (t : MagicTables) (b : Board) (hash : Move) (E : Memory → Type 0)
    (K : Kept) where
  -- Each stage keeps it, with the moves that the stage gives, if what the references show is as the
  -- property asks.
  abbrev pub FillsKeep : Type 0
  FillsKeep =
      (e : Memory) (st : MovePickerStage) (p : MovePicker) (out : List Move)
      → E e
      → p.gen ≡ new_move_gen t b
      → p.hash_move ≡ hash
      → K out st p.saved_first p.saved_second
      → let q = fill_stage s t e (advance st) (record p { stage = advance st }) in
        K (out ++ fresh q) q.stage q.saved_first q.saved_second

  -- It holds of the moves given and of those that wait.
  pub record Follows (out : List Move) (p : MovePicker) : Type 0 where
    pub gen_eq : p.gen ≡ new_move_gen t b
    pub hash_eq : p.hash_move ≡ hash
    pub within : p.move_position ≤ length p.moves
    pub holds : K (out ++ rest p) p.stage p.saved_first p.saved_second

  module _ (fills : FillsKeep) where
    loop-Follows :
        (n : ℕ) (e : Memory) (p : MovePicker) (out : List Move)
        → E e
        → p.move_position ≡ 0
        → p.moves ≡ []
        → Follows out p
        → Follows out (next_stage_loop s t n e p) × ((next_stage_loop s t n e p).move_position ≡ 0)
    unfolding next_stage_loop
    loop-Follows zero e p out he at_zero empty f = (f, at_zero)
    loop-Follows (suc n) e p out he at_zero empty f =
        let q = round s t e p in
        let (gen, same_hash, _, position) =
          fill_stage_lem s t e (advance p.stage) (record p { stage = advance p.stage }) in
        let before : K out p.stage p.saved_first p.saved_second =
          subst (λ ms. K ms p.stage p.saved_first p.saved_second)
            (rest_empty out p (rw (at_zero, empty) refl)) f.holds in
        let after : Follows out q = record {
          gen_eq = gen ∙ f.gen_eq;
          hash_eq = same_hash ∙ f.hash_eq;
          within = omega (arith, position, at_zero);
          holds =
              subst (λ ms. K (out ++ ms) q.stage q.saved_first q.saved_second)
                (sym (rest-fresh q (position ∙ at_zero)))
                (fills e p.stage p out he f.gen_eq f.hash_eq before);
        } in
        elim (Bool-cases (length q.moves == 0)) [
          | inl none ↦
              rw none
                (loop-Follows n e q out he (position ∙ at_zero) (empty_list q.moves none) after)
          | inr some ↦ rw some (after, position ∙ at_zero)
        ]

    -- The picker whose move `next` takes.
    next_stage-Follows :
        (e : Memory) (p : MovePicker) (out : List Move)
        → E e
        → p.move_position ≡ length p.moves
        → Follows out p
        → Follows out (next_stage s t e p)
          × (0 < length (next_stage s t e p).moves)
          × ((next_stage s t e p).move_position ≡ 0)
    unfolding next_stage
    next_stage-Follows e p out he spent f =
        let p₀ = record p { moves = []; move_position = 0 } in
        let done : Follows out p₀ = record {
          gen_eq = f.gen_eq;
          hash_eq = f.hash_eq;
          within = omega arith;
          holds =
              subst (λ ms. K (out ++ ms) p.stage p.saved_first p.saved_second)
                (ap (map (shown p.hash_move p.stage))
                  (ap (λ i. drop i p.moves) spent ∙ drop_all p.moves))
                f.holds;
        } in
        let (kept, at_zero) = loop-Follows 6 e p₀ out he refl refl done in
        (kept, loop_gives s t 5 e p₀ (omega arith), at_zero)

    take-Follows :
        (p : MovePicker) (out : List Move)
        → p.move_position < length p.moves
        → Follows out p
        → Follows (out ++ taken p ∷ []) (record p { move_position = p.move_position + 1 })
    take-Follows p out lt f = record {
      gen_eq = f.gen_eq;
      hash_eq = f.hash_eq;
      within = omega arith;
      holds = subst (λ ms. K ms p.stage p.saved_first p.saved_second) (rest-taken out p lt) f.holds;
    }

    next-Follows :
        (e : Memory) (p : MovePicker) (out : List Move)
        → E e
        → Follows out p
        → Follows (out ++ (next s t e p).0 ∷ []) (next s t e p).1
    unfolding next taken
    next-Follows e p out he f = elim (Bool-cases (p.move_position == length p.moves)) [
      | inl spent ↦
          let (kept, some, at_zero) = next_stage-Follows e p out he ((==_iff _ _).0 spent) f in
          rw spent (take-Follows (next_stage s t e p) out (omega (arith, at_zero, some)) kept)
      | inr left ↦
          let lt : p.move_position < length p.moves = ground (arith, f.within) in
          rw left (take-Follows p out lt f)
    ]

    -- So it holds after any calls, whatever the killers and the history were.
    pub calls-Follows :
        (es : List Memory) (p : MovePicker) (out : List Move)
        → All E es
        → Follows out p
        → Follows (out ++ given s t es p) (after_calls s t es p)
    unfolding given after_calls
    calls-Follows [] p out hes f = rw append-nil f
    calls-Follows (e ∷ es) p out (he, hes) f =
        let (m, q) = next s t e p in
        subst (λ ms. Follows ms (after_calls s t es q)) (append_assoc out (m ∷ []) (given s t es q))
          (calls-Follows es q (out ++ m ∷ []) hes (next-Follows e p out he f))

    pub picker-Follows :
        (es : List Memory)
        → All E es
        → K [] at_start null_move null_move
        → Follows
            (given s t es (new_move_picker s t b hash))
            (after_calls s t es (new_move_picker s t b hash))
    unfolding new_move_picker
    picker-Follows es hes start =
        calls-Follows es _ [] hes
          (record { gen_eq = refl; hash_eq = refl; within = omega arith; holds = start })
