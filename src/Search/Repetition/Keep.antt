-- ===== src/Search/Repetition/Keep.antt =====
-- What finding, inserting and erasing keep of a table, as long as it does not grow.
use sofcheck.Common.{
  ℕ, zero, suc, ◌+◌, ◌<◌, ◌≤◌, ◌≡◌, ◌≢◌, ◌⊎◌, ap, Bool, true, ◌||◌, ◌==◌, List, read, write, length,
  none, some, bit_and, arith, inl, inr, Bool-cases, Option-cases, read-write,
}
use sofcheck.Search.Repetition.{bucket_size, find_cell, is_found, has_in}

-- A cell that was found holds the value, and the cells before it do not.
pub find_cell-some :
    (left : ℕ) (tab : List ℕ) (idx value i : ℕ)
    → find_cell left tab idx value ≡ some i
    → (idx ≤ i) × (i < idx + left) × (read tab i ≡ value)
unfolding find_cell
find_cell-some zero tab idx value i e = absurd (ground arith)
find_cell-some (suc left) tab idx value i e = elim (Bool-cases (read tab idx == value)) [
  | inl here ↦ ground arith
  | inr later ↦
      let rest : find_cell left tab (idx + 1) value ≡ some i = ground arith in
      let (lo, hi, found) = find_cell-some left tab (idx + 1) value i rest in
      (omega arith, omega arith, found)
]

pub find_cell-none :
    (left : ℕ) (tab : List ℕ) (idx value : ℕ)
    → find_cell left tab idx value ≡ none
    → (i : ℕ) → idx ≤ i
    → i < idx + left
    → read tab i ≢ value
unfolding find_cell
find_cell-none zero tab idx value e i lo hi = absurd (omega arith)
find_cell-none (suc left) tab idx value e i lo hi = elim (Bool-cases (read tab idx == value)) [
  | inl here ↦ absurd (ground arith)
  | inr later ↦
      let rest : find_cell left tab (idx + 1) value ≡ none = ground arith in
      let split : (idx ≡ i) ⊎ (idx + 1 ≤ i) = omega arith in
      elim split [
        | inl same ↦ ground arith
        | inr after ↦ find_cell-none left tab (idx + 1) value rest i after (omega arith)
      ]
]

-- The value stands in one of the cells.
abbrev pub Occurs : List ℕ → ℕ → ℕ → Type 0
Occurs tab mask v =
    (i : ℕ) × (bit_and v mask ≤ i) × (i < bit_and v mask + bucket_size) × (read tab i ≡ v)

pub has_in-Occurs : (tab : List ℕ) (mask v : ℕ) → has_in tab mask v ≡ true → Occurs tab mask v
unfolding has_in
has_in-Occurs tab mask v h = elim (Option-cases (find_cell bucket_size tab (bit_and v mask) v)) [
  | inl e ↦ absurd (let f = ap is_found e in ground arith)
  | inr (i, e) ↦
      (let f = find_cell-some bucket_size tab (bit_and v mask) v i e in (i, f.0, f.1, f.2))
]

pub has_in_of_Occurs : (tab : List ℕ) (mask v : ℕ) → Occurs tab mask v → has_in tab mask v ≡ true
unfolding has_in
has_in_of_Occurs tab mask v (i, lo, hi, at) =
    elim (Option-cases (find_cell bucket_size tab (bit_and v mask) v)) [
      | inl e ↦ absurd (find_cell-none bucket_size tab (bit_and v mask) v e i lo hi at)
      | inr (j, e) ↦ ap is_found e
    ]

same_truth : (a b : Bool) → (a ≡ true → b ≡ true) → (b ≡ true → a ≡ true) → a ≡ b
same_truth a b f g = ground arith

-- A write over a cell that holds something else.
pub has_in-write :
    (tab : List ℕ) (mask i v other : ℕ)
    → i < length tab
    → read tab i ≢ other
    → (v ≡ other → (bit_and other mask ≤ i) × (i < bit_and other mask + bucket_size))
    → has_in (write tab i v) mask other ≡ (has_in tab mask other || v == other)
has_in-write tab mask i v other inside ne place =
    same_truth _ _
      (λ h.
        let (j, lo, hi, at) = has_in-Occurs (write tab i v) mask other h in
        elim (Bool-cases (i == j)) [
          | inl same ↦ ground (arith, read-write tab i v j)
          | inr apart ↦
              let old : read tab j ≡ other = ground (arith, read-write tab i v j) in
              let found = has_in_of_Occurs tab mask other (j, lo, hi, old) in ground arith
        ])
      (λ h. elim (Bool-cases (v == other)) [
        | inl same ↦
            let (lo, hi) = place (ground arith) in
            has_in_of_Occurs (write tab i v) mask other
              (i, lo, hi, ground (arith, read-write tab i v i))
        | inr apart ↦
            let before : has_in tab mask other ≡ true = ground arith in
            let (j, lo, hi, at) = has_in-Occurs tab mask other before in
            has_in_of_Occurs (write tab i v) mask other
              (j, lo, hi, ground (arith, read-write tab i v j))
      ])
