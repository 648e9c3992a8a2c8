-- ===== src/Search/Repetition.antt =====
-- search/private/util.h and util.cpp: `RepetitionTable`, a hash table with buckets of four cells.
pub mod Keep
pub mod Undo
use sofcheck.Common.{
  ℕ, zero, suc, ◌+◌, ◌-◌, ◌*◌, Bool, true, false, ◌||◌, ◌==◌, if◌then◌else◌, List, read, write,
  replicate, length, for_below, Option, none, some, bit_and,
}

abbrev pub bucket_size : ℕ
bucket_size = 4

abbrev pub initial_bucket_count : ℕ
initial_bucket_count = 32

pub record RepetitionTable : Type 0 where
  pub tab : List ℕ
  pub bucket_count : ℕ
  pub mask : ℕ

abbrev pub new_repetition_table : RepetitionTable
new_repetition_table = record {
  tab = replicate (initial_bucket_count * bucket_size) 0;
  bucket_count = initial_bucket_count;
  mask = (initial_bucket_count - 1) * bucket_size;
}

-- The first of the next cells that holds the value.
unfoldable pub find_cell : ℕ → List ℕ → ℕ → ℕ → Option ℕ
find_cell zero tab idx value = none
find_cell (suc left) tab idx value =
    let rest = find_cell left tab (idx + 1) value in
    if read tab idx == value then some idx else rest

abbrev pub is_found : Option ℕ → Bool
is_found none = false
is_found (some i) = true

unfoldable pub has_in : List ℕ → ℕ → ℕ → Bool
has_in tab mask board = is_found (find_cell bucket_size tab (bit_and board mask) board)

unfoldable pub has : RepetitionTable → ℕ → Bool
has t board = has_in t.tab t.mask board

abbrev pub put_at : List ℕ → ℕ → Option ℕ → Option (List ℕ)
put_at tab board none = none
put_at tab board (some i) = some (write tab i board)

-- Puts a value into the first empty cell of its bucket, if there is one.
unfoldable pub put : List ℕ → ℕ → ℕ → Option (List ℕ)
put tab mask board = put_at tab board (find_cell bucket_size tab (bit_and board mask) 0)

-- One round of the loop in `grow`; a value that finds its bucket full is dropped.
unfoldable pub move_item : List ℕ → ℕ → ℕ → List ℕ → List ℕ
move_item tab new_mask i new_tab =
    let item = read tab i in
    if item == 0 then new_tab else elim (put new_tab new_mask item) [ none ↦ new_tab | some t ↦ t ]

unfoldable pub grow : RepetitionTable → RepetitionTable
grow t =
    let new_bucket_count = t.bucket_count * 2 in
    let new_mask = (new_bucket_count - 1) * bucket_size in
    record {
      tab =
          for_below (t.bucket_count * bucket_size) (move_item t.tab new_mask)
            (replicate (new_bucket_count * bucket_size) 0);
      bucket_count = new_bucket_count;
      mask = new_mask;
    }

abbrev pub with_tab :
    RepetitionTable → Option RepetitionTable → Option (List ℕ) → Option RepetitionTable
with_tab t later none = later
with_tab t later (some tab) = some (record t { tab = tab })

-- The endless loop of `insert`, on fuel.
unfoldable pub insert_loop : ℕ → RepetitionTable → ℕ → Option RepetitionTable
insert_loop zero t board = none
insert_loop (suc fuel) t board =
    let later = insert_loop fuel (grow t) board in with_tab t later (put t.tab t.mask board)

-- The Boolean result and the table after it; no result means that the loop runs out of fuel.
abbrev pub inserted : Option RepetitionTable → Option (Bool × RepetitionTable)
inserted none = none
inserted (some t) = some (true, t)

unfoldable pub insert : ℕ → RepetitionTable → ℕ → Option (Bool × RepetitionTable)
insert fuel t board = if has t board then some (false, t) else inserted (insert_loop fuel t board)

abbrev pub erase_at : RepetitionTable → Option ℕ → RepetitionTable
erase_at t none = t
erase_at t (some i) = record t { tab = write t.tab i 0 }

unfoldable pub erase : RepetitionTable → ℕ → RepetitionTable
erase t board = erase_at t (find_cell bucket_size t.tab (bit_and board t.mask) board)
