-- ===== src/Search/Transposition/Resize.antt =====
-- search/private/transposition_table.cpp: `resize`. The segments that run in parallel cover the whole
-- range and are taken one after the other, from the first cell to the last.
pub mod Size
pub mod Shrink
use sofcheck.Common.{
  ℕ, zero, suc, ◌+◌, ◌-◌, ◌*◌, ◌/◌, ◌^◌, Bool, ltb, leb, ◌==◌, if◌then◌else◌, List, length, get_or,
  set, replicate, Option, none, some, bit_and, bit_xor, u64, for_below, sweep, max,
}
use sofcheck.Search.Transposition.{
  Data, Entry, TranspositionTable, clear_entry, data_as_uint, weight, clear,
}

-- `while (newSize <= maxSize) newSize <<= 1`, on fuel; the shift drops what leaves 64 bits.
unfoldable pub double_past : ℕ → ℕ → ℕ → Option ℕ
double_past zero new_size max_size = none
double_past (suc fuel) new_size max_size =
    let rest = double_past fuel (u64 (new_size * 2)) max_size in
    if leb new_size max_size then rest else some new_size

abbrev pub entry_size : ℕ
entry_size = 16

-- The number of entries for a size in bytes.
unfoldable pub new_table_size : ℕ → Option ℕ
new_table_size max_size = elim (double_past 65 1 (max max_size (2 ^ 20))) [
  | none ↦ none
  | some s ↦ some (s / 2 / entry_size)
]

abbrev pub at : List Entry → ℕ → Entry
at table i = get_or table i clear_entry

-- A larger table: every entry goes to the cell of its key.
unfoldable pub grown : List Entry → ℕ → List Entry
grown table new_size =
    for_below (length table)
      (λ i new.
        let e = at table i in
        set new (bit_and (bit_xor e.key (data_as_uint e.value)) (new_size - 1)) e)
      (replicate new_size clear_entry)

-- `if (oldEntry weighs more) newEntry.assignRelaxed(oldEntry)`.
unfoldable pub keep_heavier : ℕ → Entry → Entry → Entry
keep_heavier epoch old new =
    if ltb (weight epoch new.value) (weight epoch old.value) then old else new

-- One round of the loop over the offsets.
unfoldable pub merge_segment : ℕ → List Entry → ℕ → ℕ → List Entry → List Entry
merge_segment epoch table new_size offset =
    sweep (λ i new. keep_heavier epoch (at table (i + offset)) new) clear_entry new_size

-- A smaller table: the first segment, then the others merged into it. Both sizes are powers of two,
-- so the offsets below the old size are the multiples of the new one.
unfoldable pub shrunk : ℕ → List Entry → ℕ → List Entry
shrunk epoch table new_size =
    for_below (length table / new_size - 1)
      (λ q new. merge_segment epoch table new_size (suc q * new_size) new)
      (sweep (λ i new. at table i) clear_entry new_size (replicate new_size clear_entry))

unfoldable pub resize_to : TranspositionTable → ℕ → Bool → TranspositionTable
resize_to t new_size clear_table =
    if new_size == length t.table
    then if clear_table then clear t else t
    else if clear_table
    then record t { table = replicate new_size clear_entry }
    else if ltb (length t.table) new_size
    then record t { table = grown t.table new_size }
    else record t { table = shrunk t.epoch t.table new_size }

-- No result means that the loop for the size runs out of fuel.
unfoldable pub resize : TranspositionTable → ℕ → Bool → Option TranspositionTable
resize t max_size clear_table = elim (new_table_size max_size) [
  | none ↦ none
  | some n ↦ some (resize_to t n clear_table)
]
