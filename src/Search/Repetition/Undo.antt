-- ===== src/Search/Repetition/Undo.antt =====
-- `insert` into a bucket with an empty cell, and `erase` after it: the search does both around every
-- move.
use sofcheck.Common.{
  ℕ, suc, ◌<◌, ◌≡◌, ◌≢◌, ◌∙◌, ap, true, false, ◌||◌, ◌==◌, List, read, write, length, some, bit_and,
  arith, inl, inr, Bool-cases, Option-cases, read-write, length-write, read_ext,
}
use sofcheck.Search.Repetition.{
  RepetitionTable, bucket_size, find_cell, has, put, put_at, with_tab, insert_loop, inserted,
  insert, erase, erase_at, grow,
}
use sofcheck.Search.Repetition.Keep.{find_cell-some, find_cell-none, has_in_of_Occurs, has_in-write}

-- The first empty cell of the position's bucket, inside the table, for a position that is not in it.
pub record HasRoom (t : RepetitionTable) (board i : ℕ) : Type 0 where
  pub absent : has t board ≡ false
  pub first_empty : find_cell bucket_size t.tab (bit_and board t.mask) 0 ≡ some i
  pub inside : i < length t.tab

abbrev pub with_board : RepetitionTable → ℕ → ℕ → RepetitionTable
with_board t board i = record t { tab = write t.tab i board }

insert-found :
    (fuel : ℕ) (t : RepetitionTable) (board i : ℕ)
    → HasRoom t board i
    → insert (suc fuel) t board ≡ some (true, with_board t board i)
unfolding insert insert_loop put
insert-found fuel t board i h = rw (h.absent) (
    ap (λ o. inserted (with_tab t (insert_loop fuel (grow t) board) (put_at t.tab board o)))
      h.first_empty)

-- Where its bucket has room, a position that is not in the table is inserted, and exactly the
-- positions that were there and the new one are there afterwards; the hash 0 marks empty cells.
pub insert_lem :
    (fuel : ℕ) (t : RepetitionTable) (board i other : ℕ)
    → HasRoom t board i
    → other ≢ 0
    → (insert (suc fuel) t board ≡ some (true, with_board t board i))
      × (has (with_board t board i) other ≡ (has t other || board == other))
unfolding has
insert_lem fuel t board i other h ne =
    let (lo, hi, empty) =
      find_cell-some bucket_size t.tab (bit_and board t.mask) 0 i h.first_empty in
    (
      insert-found fuel t board i h,
      has_in-write t.tab t.mask i board other h.inside (omega arith) (λ e.
          let same : bit_and board t.mask ≡ bit_and other t.mask = ap (λ b. bit_and b t.mask) e in
          (omega arith, omega arith)),
    )

put_back : (tab : List ℕ) (i v : ℕ) → read tab i ≡ 0 → write (write tab i v) i 0 ≡ tab
put_back tab i v e =
    read_ext (write (write tab i v) i 0) tab
      (length-write (write tab i v) i 0 ∙ length-write tab i v)
      (λ j lt.
        ground
          (arith, read-write (write tab i v) i 0 j, read-write tab i v j, length-write tab i v))

found_again :
    (t : RepetitionTable) (board i : ℕ)
    → HasRoom t board i
    → find_cell bucket_size (write t.tab i board) (bit_and board t.mask) board ≡ some i
unfolding has
found_again t board i h =
    let (lo, hi, empty) =
      find_cell-some bucket_size t.tab (bit_and board t.mask) 0 i h.first_empty in
    let there : read (write t.tab i board) i ≡ board =
      ground (arith, read-write t.tab i board i, h.inside) in
    elim (Option-cases (find_cell bucket_size (write t.tab i board) (bit_and board t.mask) board)) [
      | inl e ↦ absurd (
          find_cell-none bucket_size (write t.tab i board) (bit_and board t.mask) board e i lo hi
            there)
      | inr (j, e) ↦
          let (lo', hi', at) =
            find_cell-some bucket_size (write t.tab i board) (bit_and board t.mask) board j e in
          elim (Bool-cases (i == j)) [
            | inl same ↦ e ∙ ap some (ground arith)
            | inr apart ↦
                let old : read t.tab j ≡ board = ground (arith, read-write t.tab i board j) in
                let again = has_in_of_Occurs t.tab t.mask board (j, lo', hi', old) in
                absurd (ground (arith, h.absent))
          ]
    ]

-- Where its bucket has room, erasing a position that was just inserted gives the table back.
pub erase-insert :
    (fuel : ℕ) (t : RepetitionTable) (board i : ℕ)
    → HasRoom t board i
    → (insert (suc fuel) t board ≡ some (true, with_board t board i))
      × (erase (with_board t board i) board ≡ t)
unfolding erase
erase-insert fuel t board i h =
    let (lo, hi, empty) =
      find_cell-some bucket_size t.tab (bit_and board t.mask) 0 i h.first_empty in
    (
      insert-found fuel t board i h,
      ap (erase_at (with_board t board i)) (found_again t board i h)
          ∙ ap (λ (l : List ℕ). record t { tab = l }) (put_back t.tab i board empty),
    )
