-- ===== src/Search/Quiescence.antt =====
-- search/private/move_picker.h and move_picker.cpp: `QuiescenseMovePicker`.
use sofcheck.Common.{
  ℕ, zero, suc, ◌+◌, ◌≤◌, ◌<◌, ◌≡◌, ◌∙◌, sym, ap, ap₂, refl, subst, Bool, true, ◌==◌, ==_iff,
  if◌then◌else◌, List, [], ◌∷◌, ◌++◌, length, get_or, replicate, Bool-cases, inl, inr, ◌⊎◌, arith,
}
use sofcheck.Core.Board.{Board}
use sofcheck.Core.Move.{Move, null_move, invalid_move}
use sofcheck.Core.Attacks.{MagicTables}
use sofcheck.Core.MoveGen.Gen.{MoveGen, new_move_gen, gen_captures, gen_simple_promotes}
use sofcheck.Search.Sort.{StdSort, drop, drop_next, drop_all}
use sofcheck.Search.MovePicker.{sort_mvv_lva, sort_promotes}

pub data Stage : Type 0 where
  taking promoting : Stage

pub record QuiescenseMovePicker : Type 0 where
  pub gen : MoveGen
  pub moves : List Move
  pub move_position : ℕ
  pub stage : Stage

module _ (s : StdSort) (t : MagicTables) where
  unfoldable pub new_quiescense_move_picker : Board → QuiescenseMovePicker
  new_quiescense_move_picker b =
      let g = new_move_gen t b in
      record {
        gen = g;
        moves = sort_mvv_lva s b (gen_captures t g);
        move_position = 0;
        stage = taking;
      }

  unfoldable pub add_simple_promotes : QuiescenseMovePicker → QuiescenseMovePicker
  add_simple_promotes p = record p {
    moves = sort_promotes s (gen_simple_promotes t p.gen);
    move_position = 0;
  }

  -- `if (stage_ == Stage::Capture) …`
  unfoldable pub leave_captures : Stage → QuiescenseMovePicker → QuiescenseMovePicker
  leave_captures taking p = add_simple_promotes (record p { stage = promoting })
  leave_captures promoting p = p

  abbrev pub is_spent : QuiescenseMovePicker → Bool
  is_spent p = p.move_position == length p.moves

  abbrev pub step_on : QuiescenseMovePicker → Move × QuiescenseMovePicker
  step_on p =
      (get_or p.moves p.move_position null_move, record p { move_position = p.move_position + 1 })

  unfoldable pub next_quiet : QuiescenseMovePicker → Move × QuiescenseMovePicker
  next_quiet p =
      let q = leave_captures p.stage p in
      if is_spent p then if is_spent q then (invalid_move, q) else step_on q else step_on p

  -- What a number of calls give.
  unfoldable pub given_quiet : ℕ → QuiescenseMovePicker → List Move
  given_quiet zero p = []
  given_quiet (suc n) p = let (m, q) = next_quiet p in m ∷ given_quiet n q

  abbrev promotes_of : QuiescenseMovePicker → List Move
  promotes_of p = sort_promotes s (gen_simple_promotes t p.gen)

  -- What is to come: the rest of the buffer, and the promotions before they are generated.
  to_come : Stage → QuiescenseMovePicker → List Move
  to_come taking p = drop p.move_position p.moves ++ promotes_of p
  to_come promoting p = drop p.move_position p.moves

  rest_step :
      (p : QuiescenseMovePicker)
      → p.move_position < length p.moves
      → drop p.move_position p.moves
        ≡ get_or p.moves p.move_position null_move ∷ drop (p.move_position + 1) p.moves
  rest_step p lt =
      let up : suc p.move_position ≡ p.move_position + 1 = omega arith in
      drop_next p.moves p.move_position lt
      ∙ ap (λ i. get_or p.moves p.move_position null_move ∷ drop i p.moves) up

  step_on-to_come :
      (st : Stage) (p : QuiescenseMovePicker)
      → p.move_position < length p.moves
      → to_come st p ≡ (step_on p).0 ∷ to_come st (step_on p).1
  unfolding to_come
  step_on-to_come taking p lt = ap (λ ms. ms ++ promotes_of p) (rest_step p lt)
  step_on-to_come promoting p lt = rest_step p lt

  rest_spent : (p : QuiescenseMovePicker) → is_spent p ≡ true → drop p.move_position p.moves ≡ []
  rest_spent p e = ap (λ i. drop i p.moves) ((==_iff _ _).0 e) ∙ drop_all p.moves

  -- Leaving the captures changes nothing of what is to come.
  leave-to_come :
      (st : Stage) (p : QuiescenseMovePicker)
      → p.stage ≡ st
      → is_spent p ≡ true
      → let q = leave_captures st p in
        (to_come st p ≡ to_come q.stage q)
        × (to_come q.stage q ≡ drop q.move_position q.moves)
        × (q.move_position ≤ length q.moves)
  unfolding to_come leave_captures add_simple_promotes
  leave-to_come taking p e spent =
      (ap (λ ms. ms ++ promotes_of p) (rest_spent p spent), refl, omega arith)
  leave-to_come promoting p e spent = (rw e refl, rw e refl, ground arith)

  -- A call gives the first of the moves to come, or the invalid move if there is none.
  record Gives (p : QuiescenseMovePicker) (ms : List Move) : Type 0 where
    within : p.move_position ≤ length p.moves
    coming : to_come p.stage p ≡ ms

  next-Gives :
      (p : QuiescenseMovePicker) (ms : List Move)
      → Gives p ms
      → let (m, q) = next_quiet p in
        ((ms ≡ []) × (m ≡ invalid_move) × Gives q [])
        ⊎ ((ns : List Move) × (ms ≡ m ∷ ns) × Gives q ns)
  unfolding next_quiet
  next-Gives p ms h = elim (Bool-cases (is_spent p)) [
    | inl spent ↦
        let q = leave_captures p.stage p in
        let (same, rest, within) = leave-to_come p.stage p refl spent in
        let later : to_come q.stage q ≡ ms = sym same ∙ h.coming in
        elim (Bool-cases (is_spent q)) [
          | inl over ↦
              let empty : to_come q.stage q ≡ [] = rest ∙ rest_spent q over in
              rw (spent, over)
                (inl (sym later ∙ empty, refl, record { within = within; coming = empty }))
          | inr some ↦
              let lt : q.move_position < length q.moves = ground (arith, within) in
              rw (spent, some)
                (inr (
                  to_come q.stage (step_on q).1,
                  sym later ∙ step_on-to_come q.stage q lt,
                  record { within = omega (arith, lt); coming = refl },
                ))
        ]
    | inr more ↦
        let lt : p.move_position < length p.moves = ground (arith, h.within) in
        rw more (
          inr (
            to_come p.stage (step_on p).1,
            sym h.coming ∙ step_on-to_come p.stage p lt,
            record { within = omega (arith, lt); coming = refl },
          ))
  ]

  -- When nothing is to come, every call gives the invalid move.
  given_over :
      (n : ℕ) (p : QuiescenseMovePicker) → Gives p [] → given_quiet n p ≡ replicate n invalid_move
  unfolding given_quiet
  given_over zero p h = refl
  given_over (suc n) p h = elim (next-Gives p [] h) [
    | inl (_, last, h') ↦ ap₂ ◌∷◌ last (given_over n _ h')
    | inr (ns, e, _) ↦ cc
  ]

  given_all :
      (ms : List Move) (n : ℕ) (p : QuiescenseMovePicker)
      → Gives p ms
      → given_quiet (length ms + n) p ≡ ms ++ replicate n invalid_move
  unfolding given_quiet
  given_all [] n p h = let same : 0 + n ≡ n = omega arith in rw same (given_over n p h)
  given_all (m ∷ ms) n p h =
      let same : suc (length ms) + n ≡ suc (length ms + n) = omega arith in
      rw same (elim (next-Gives p (m ∷ ms) h) [
        | inl (e, _, _) ↦ cc
        | inr (ns, e, h') ↦
            let rest : ns ≡ ms = cc in
            let first : (next_quiet p).0 ≡ m = cc in
            ap₂ ◌∷◌ first (given_all ms n _ (subst (Gives (next_quiet p).1) rest h'))
      ])

-- The calls of `next` give the captures of the position, sorted, then the simple promotions, sorted,
-- each once, and from then on the invalid move.
pub given_quiet_lem :
    (s : StdSort) (t : MagicTables) (b : Board) (n : ℕ)
    → let g = new_move_gen t b in
      let tried =
        sort_mvv_lva s b (gen_captures t g) ++ sort_promotes s (gen_simple_promotes t g) in
      given_quiet s t (length tried + n) (new_quiescense_move_picker s t b)
      ≡ tried ++ replicate n invalid_move
unfolding new_quiescense_move_picker to_come
given_quiet_lem s t b n =
    given_all s t _ n (new_quiescense_move_picker s t b)
      (record { within = omega arith; coming = refl })
