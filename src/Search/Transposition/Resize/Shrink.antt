-- ===== src/Search/Transposition/Resize/Shrink.antt =====
-- A table made smaller keeps the heaviest of the entries that fall into one cell.
use sofcheck.Common.{
  ℕ, suc, ◌+◌, ◌-◌, ◌*◌, ◌/◌, ◌<◌, ◌≤◌, ◌≡◌, ◌∙◌, refl, ltb, List, length, replicate,
  length-replicate, arith, sweep_lem, for_below_inv, sweep, ◌⊎◌, Bool-cases, inl, inr, ltb→lt,
}
use native.Mathlib.Nat.{le_refl}
use sofcheck.Search.Transposition.{Entry, clear_entry, weight}
use sofcheck.Search.Transposition.Resize.{at, keep_heavier, merge_segment, shrunk}

-- The entry weighs no less than any of the first `rounds + 1` entries of a cell, and is one of them.
pub record IsHeaviest (epoch : ℕ) (table : List Entry) (n rounds i : ℕ) (e : Entry) : Type 0 where
  pub heaviest :
      (q : ℕ) → q ≤ rounds → weight epoch (at table (i + q * n)).value ≤ weight epoch e.value
  pub which : ℕ
  pub in_range : which ≤ rounds
  pub found : e ≡ at table (i + which * n)

module _ (epoch : ℕ) (table : List Entry) (n : ℕ) where
  heavier-IsHeaviest :
      (rounds i : ℕ) (e : Entry)
      → IsHeaviest epoch table n rounds i e
      → IsHeaviest epoch table n
          (suc rounds)
          i
          (keep_heavier epoch (at table (i + suc rounds * n)) e)
  unfolding keep_heavier
  heavier-IsHeaviest rounds i e h =
      let old = at table (i + suc rounds * n) in
      elim (Bool-cases (ltb (weight epoch e.value) (weight epoch old.value))) [
        | inl more ↦ rw more (record {
          heaviest = λ q le.
              let split : (q ≤ rounds) ⊎ (q ≡ suc rounds) = omega arith in
              elim split [
                | inl before ↦ omega (arith, h.heaviest q before, ltb→lt _ _ more)
                | inr last ↦ rw last (le_refl _)
              ];
          which = suc rounds;
          in_range = le_refl _;
          found = refl;
        })
        | inr less ↦ rw less (record {
          heaviest = λ q le.
              let split : (q ≤ rounds) ⊎ (q ≡ suc rounds) = omega arith in
              elim split [ inl before ↦ h.heaviest q before | inr last ↦ rw last (ground arith) ];
          which = h.which;
          in_range = omega (arith, h.in_range);
          found = h.found;
        })
      ]

  first-IsHeaviest : (i : ℕ) → IsHeaviest epoch table n 0 i (at table i)
  first-IsHeaviest i = record {
    heaviest = λ q le.
        let none : q ≡ 0 = omega arith in
        rw none (let same : i + 0 * n ≡ i = omega arith in rw same (le_refl _));
    which = 0;
    in_range = le_refl _;
    found = let same : i + 0 * n ≡ i = omega arith in rw same refl;
  }

  Shrunk : ℕ → List Entry → Type 0
  Shrunk rounds new =
      (length new ≡ n) × ((i : ℕ) → i < n → IsHeaviest epoch table n rounds i (at new i))

  first_segment : Shrunk 0 (sweep (λ i new. at table i) clear_entry n (replicate n clear_entry))
  unfolding Shrunk
  first_segment =
      let (size, cells) = sweep_lem (λ i new. at table i) clear_entry n (replicate n clear_entry) in
      let full = length-replicate n clear_entry in
      (
        size ∙ full,
        λ i lt.
            let e : at (sweep (λ i new. at table i) clear_entry n (replicate n clear_entry)) i
                ≡ at table i =
              ground (arith, cells i, full) in
            rw e (first-IsHeaviest i),
      )

  next_segment :
      (rounds : ℕ) (new : List Entry)
      → Shrunk rounds new
      → Shrunk (suc rounds) (merge_segment epoch table n (suc rounds * n) new)
  unfolding Shrunk merge_segment
  next_segment rounds new (size, h) =
      let g = λ (i : ℕ) (e : Entry). keep_heavier epoch (at table (i + suc rounds * n)) e in
      let (size', cells) = sweep_lem g clear_entry n new in
      (
        size' ∙ size,
        λ i lt.
            let e : at (sweep g clear_entry n new) i ≡ g i (at new i) =
              ground (arith, cells i, size) in
            rw e (heavier-IsHeaviest rounds i (at new i) (h i lt)),
      )

  -- Every cell of the smaller table holds an entry of its cells in the old table, one of greatest
  -- weight: of the cells i, i + n, i + 2 n and so on below the old size.
  pub shrunk-IsHeaviest :
      (i : ℕ)
      → i < n
      → IsHeaviest epoch table n (length table / n - 1) i (at (shrunk epoch table n) i)
  unfolding shrunk Shrunk
  shrunk-IsHeaviest i lt =
      let (size, h) =
        for_below_inv Shrunk (λ q new. merge_segment epoch table n (suc q * n) new)
          (length table / n - 1)
          (sweep (λ i new. at table i) clear_entry n (replicate n clear_entry))
          (λ q new less h. next_segment q new h) first_segment in
      h i lt
