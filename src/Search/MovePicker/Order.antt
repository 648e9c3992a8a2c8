-- ===== src/Search/MovePicker/Order.antt =====
-- `sortMvvLva`: the captures in the order of what they take and of what takes.
use sofcheck.Common.{ℕ, ◌≤◌, ◌≡◌, sym, ap, ap₂, refl, subst, List, [], ◌∷◌, map, All, arith}
use sofcheck.Core.Board.{Board}
use sofcheck.Core.Move.{Move}
use sofcheck.Search.Sort.{StdSort, Rearranged, Rearranged-All, Rearranged-map, Descends}
use sofcheck.Search.MovePicker.{mvv_lva, with_tag, sort_mvv_lva}

abbrev tagged : Board → Move → Move
tagged b m = with_tag (mvv_lva b m) m

-- The tag is the order's number, and stays out of it.
tagged-All :
    (b : Board) (ms : List Move) → All (λ m. m.tag ≡ mvv_lva b (with_tag 0 m)) (map (tagged b) ms)
unfolding mvv_lva
tagged-All b [] = tt
tagged-All b (m ∷ ms) = (refl, tagged-All b ms)

cleared :
    (b : Board) (ms : List Move)
    → All (λ m. m.tag ≡ 0) ms
    → map (with_tag 0) (map (tagged b) ms) ≡ ms
cleared b [] h = refl
cleared b (m ∷ ms) (hm, h) = ap₂ ◌∷◌ (ap (λ n. with_tag n m) (sym hm)) (cleared b ms h)

below_map :
    (key : Move → ℕ) (m : Move) (ms : List Move)
    → m.tag ≡ key (with_tag 0 m)
    → All (λ n. n.tag ≡ key (with_tag 0 n)) ms
    → All (λ n. n.tag ≤ m.tag) ms
    → All (λ n. key n ≤ key (with_tag 0 m)) (map (with_tag 0) ms)
below_map key m [] e es h = tt
below_map key m (n ∷ ms) e (en, es) (hn, h) = (omega (arith, e, en), below_map key m ms e es h)

Descends-map :
    (key : Move → ℕ) (ms : List Move)
    → All (λ m. m.tag ≡ key (with_tag 0 m)) ms
    → Descends (λ m. m.tag) ms
    → Descends key (map (with_tag 0) ms)
Descends-map key [] es h = tt
Descends-map key (m ∷ ms) (e, es) (hm, h) = (below_map key m ms e es hm, Descends-map key ms es h)

-- Moves whose tags are 0 come out of `sortMvvLva` rearranged and otherwise unchanged, those of
-- greater value first: the value of the piece that is taken, then that of the piece that takes.
pub sort_mvv_lva_lem :
    (s : StdSort) (b : Board) (ms : List Move)
    → All (λ m. m.tag ≡ 0) ms
    → Rearranged ms (sort_mvv_lva s b ms) × Descends (mvv_lva b) (sort_mvv_lva s b ms)
unfolding sort_mvv_lva
sort_mvv_lva_lem s b ms h =
    let p = s.sort-Rearranged (λ m. m.tag) (map (tagged b) ms) in
    (
      subst (λ xs. Rearranged xs (sort_mvv_lva s b ms)) (cleared b ms h)
          (Rearranged-map (with_tag 0) p),
      Descends-map (mvv_lva b) _
          (Rearranged-All (λ m. m.tag ≡ mvv_lva b (with_tag 0 m)) p (tagged-All b ms))
          (s.sort-Descends (λ m. m.tag) (map (tagged b) ms)),
    )
