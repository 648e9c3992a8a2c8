-- ===== src/Search/MovePicker/Covers.antt =====
-- What `MovePicker` has given or keeps in its buffer, stage by stage.
use sofcheck.Common.{
  ℕ, ◌≤◌, ◌≡◌, ◌∙◌, sym, ap, refl, subst, true, List, [], ◌∷◌, ◌++◌, map, Bool-cases, ◌⊎◌, inl, inr,
  All, All-map, read,
}
use sofcheck.Core.Board.{Board}
use sofcheck.Core.Move.{Move, as_uint, move_eq}
use sofcheck.Core.Equality.{MoveFits, move_eq_iff}
use sofcheck.Core.Attacks.{MagicTables}
use sofcheck.Core.MoveGen.Gen.{
  new_move_gen, gen_captures, gen_simple_promotes, gen_simple_moves_no_promote,
}
use sofcheck.Search.Killers.{index_of}
use sofcheck.Search.Sort.{StdSort, Has, Has-left, Has-right, Rearranged-All}
use sofcheck.Search.MovePicker.{
  MovePickerStage, at_capture, at_simple_promote, at_killer, at_history, stage_code, Memory,
  is_valid_killer, drop_killer, sort_mvv_lva, sort_promotes, sort_history, one_if,
}
use sofcheck.Search.MovePicker.Order.{sort_mvv_lva_lem}
use sofcheck.Search.MovePicker.Complete.{HasAll, HasHash, wider, shown-Has, shown_all, sorted_all}
use sofcheck.Search.MovePicker.Steps.{shown}

-- The killer line holds moves whose fields fit their bytes.
abbrev pub KillersFit : Memory → Type 0
KillersFit e = MoveFits e.killers.first × MoveFits e.killers.second

module _ (s : StdSort) (t : MagicTables) (b : Board) (hash : Move) where
  abbrev pub captures : List Move
  captures = gen_captures t (new_move_gen t b)

  abbrev pub promotes : List Move
  promotes = gen_simple_promotes t (new_move_gen t b)

  abbrev pub quiets : List Move
  quiets = gen_simple_moves_no_promote t (new_move_gen t b)

  abbrev pub KillerDone : Move → List Move → Type 0
  KillerDone m out = is_valid_killer s t b m ≡ true → Has (as_uint m) out

  -- Each stage leaves its moves behind.
  pub record Covers (out : List Move) (st : MovePickerStage) (first second : Move) : Type 0 where
    pub killers_fit : MoveFits first × MoveFits second
    pub hash_done : 1 ≤ stage_code st → HasHash hash out
    pub captures_done : 2 ≤ stage_code st → HasAll captures out
    pub promotes_done : 3 ≤ stage_code st → HasAll promotes out
    pub killers_done : 4 ≤ stage_code st → KillerDone first out × KillerDone second out
    pub quiets_done : 5 ≤ stage_code st → HasAll quiets out

  -- Moves that come after take nothing away.
  pub Covers-wider :
      (out more : List Move) (st : MovePickerStage) (first second : Move)
      → Covers out st first second
      → Covers (out ++ more) st first second
  Covers-wider out more st first second h = record {
    killers_fit = h.killers_fit;
    hash_done = λ le e. Has-left _ out more (h.hash_done le e);
    captures_done = λ le. wider captures out more (h.captures_done le);
    promotes_done = λ le. wider promotes out more (h.promotes_done le);
    killers_done = λ le.
        let (k₁, k₂) = h.killers_done le in
        (λ v. Has-left _ out more (k₁ v), λ v. Has-left _ out more (k₂ v));
    quiets_done = λ le. wider quiets out more (h.quiets_done le);
  }

  -- A quiet move that the history stage drops was given as a killer.
  quiet_again :
      (first second m : Move) (out : List Move)
      → MoveFits first × MoveFits second
      → MoveFits m
      → KillerDone first out × KillerDone second out
      → is_valid_killer s t b m ≡ true
      → Has (as_uint m) out ⊎ (drop_killer first second m ≡ m)
  unfolding move_eq
  quiet_again first second m out (f₁, f₂) fits (k₁, k₂) v = elim (Bool-cases (move_eq m first)) [
    | inl e ↦
        let same = (move_eq_iff m first fits f₁).0 e in
        inl (
          subst (λ x. Has (as_uint x) out) (sym same)
            (k₁ (ap (is_valid_killer s t b) (sym same) ∙ v)))
    | inr n₁ ↦ elim (Bool-cases (move_eq m second)) [
      | inl e ↦
          let same = (move_eq_iff m second fits f₂).0 e in
          inl (
            subst (λ x. Has (as_uint x) out) (sym same)
              (k₂ (ap (is_valid_killer s t b) (sym same) ∙ v)))
      | inr n₂ ↦ inr (rw (n₁, n₂) refl)
    ]
  ]

  dropped :
      (first second : Move) (out ns : List Move) (c : ℕ)
      → MoveFits first × MoveFits second
      → KillerDone first out × KillerDone second out
      → All (λ m. MoveFits m × (is_valid_killer s t b m ≡ true)) ns
      → Has c ns
      → Has c out ⊎ Has c (map (drop_killer first second) ns)
  dropped first second out [] c fit done facts h = absurd h
  dropped first second out (m ∷ ns) c fit done ((mf, mv), facts) (inl e) =
      elim (quiet_again first second m out fit mf done mv) [
        | inl o ↦ inl (subst (λ x. Has x out) (sym e) o)
        | inr same ↦ inr (inl (e ∙ ap as_uint (sym same)))
      ]
  dropped first second out (m ∷ ns) c fit done (fact, facts) (inr h) =
      elim (dropped first second out ns c fit done facts h) [ inl o ↦ inl o | inr k ↦ inr (inr k) ]

  module _ (tags : All (λ m. m.tag ≡ 0) captures)
      (facts : All (λ m. MoveFits m × (is_valid_killer s t b m ≡ true)) quiets) where
    pub captures-shown :
        (out : List Move)
        → HasHash hash out
        → HasAll captures (out ++ map (shown hash at_capture) (sort_mvv_lva s b captures))
    captures-shown out before =
        shown_all hash at_capture out captures _ before
          (sorted_all captures _ (sort_mvv_lva_lem s b captures tags).0)

    pub promotes-shown :
        (out : List Move)
        → HasHash hash out
        → HasAll promotes (out ++ map (shown hash at_simple_promote) (sort_promotes s promotes))
    promotes-shown out before =
        shown_all hash at_simple_promote out promotes _ before
          (sorted_all promotes _ (s.sort-Rearranged _ promotes))

    pub quiets-shown :
        (first second : Move) (out : List Move) (history : List ℕ)
        → HasHash hash out
        → MoveFits first × MoveFits second
        → KillerDone first out × KillerDone second out
        → HasAll quiets (
            out
            ++ map
                (shown hash at_history)
                (map (drop_killer first second) (sort_history s history quiets)))
    quiets-shown first second out history before fit done =
        let p = s.sort-Rearranged (λ m. read history (index_of m)) quiets in
        let sorted = sort_history s history quiets in
        let sorted_facts =
          Rearranged-All (λ m. MoveFits m × (is_valid_killer s t b m ≡ true)) p facts in
        All-map
          (λ m h. elim (dropped first second out sorted (as_uint m) fit done sorted_facts h) [
            | inl o ↦ Has-left (as_uint m) out _ o
            | inr k ↦ shown-Has hash at_history out _ (as_uint m) before k
          ])
          quiets (sorted_all quiets sorted p)

    pub killers_shown :
        (first second : Move) (out : List Move)
        → HasHash hash out
        → let more = map (shown hash at_killer) (
            one_if (is_valid_killer s t b first) first
            ++ one_if (is_valid_killer s t b second) second) in
          KillerDone first (out ++ more) × KillerDone second (out ++ more)
    killers_shown first second out before = (
      λ v. shown-Has hash at_killer out _ (as_uint first) before (
          Has-left (as_uint first) (one_if (is_valid_killer s t b first) first) _
            (rw v (inl refl))),
      λ v. shown-Has hash at_killer out _ (as_uint second) before (
          Has-right (as_uint second) (one_if (is_valid_killer s t b first) first) _
            (rw v (inl refl))),
    )
