-- ===== src/Search/Transposition.antt =====
-- search/private/transposition_table.h and transposition_table.cpp: entries, their packing into 64
-- bits, their weights, and reading and writing the table by one thread.
pub mod Packing
pub mod Access
pub mod Resize
use sofcheck.Common.{
  ℕ, ◌+◌, ◌-◌, ◌*◌, ◌^◌, ◌%◌, Bool, true, false, not, ltb, ◌==◌, if◌then◌else◌, List, [], ◌∷◌,
  length, get_or, set, bit_or, bit_and, bit_xor, u8, u16, ◌<<<◌, replicate,
}
use sofcheck.Core.Move.{Move, null_move, as_uint}

-- `SoFBotApi::PositionCostBound`.
pub data Bound : Type 0 where
  exact lowerbound upperbound : Bound

abbrev pub bound_code : Bound → ℕ
bound_code exact = 0
bound_code lowerbound = 1
bound_code upperbound = 2

-- `TranspositionTable::Data`; the score is the 16-bit pattern of `score_`.
pub record Data : Type 0 where
  pub move_ : Move
  pub score : ℕ
  pub flags : ℕ
  pub epoch : ℕ

abbrev pub flag_is_valid : ℕ
flag_is_valid = 8

unfoldable pub data_move : Data → Move
data_move d = record d.move_ { tag = 0 }

unfoldable pub depth : Data → ℕ
depth d = d.move_.tag

unfoldable pub is_valid : Data → Bool
is_valid d = not (bit_and d.flags flag_is_valid == 0)

-- The number of the bound.
unfoldable pub bound : Data → ℕ
bound d = bit_and d.flags 3

unfoldable pub make_data : Move → ℕ → ℕ → Bound → Data
make_data m score depth b = record {
  move_ = record m { tag = u8 depth };
  score = score;
  flags = bit_or (bound_code b) flag_is_valid;
  epoch = 0;
}

abbrev pub zero_data : Data
zero_data = record { move_ = null_move; score = 0; flags = 0; epoch = 0 }

unfoldable pub data_as_uint : Data → ℕ
data_as_uint d =
    bit_or (bit_or (bit_or (as_uint d.move_) (u16 d.score <<< 32)) (d.flags <<< 48))
      (d.epoch <<< 56)

-- `operator==` and, as it is written, `operator!=`.
unfoldable pub data_eq : Data → Data → Bool
data_eq a b = data_as_uint a == data_as_uint b

unfoldable pub data_ne : Data → Data → Bool
data_ne a b = data_as_uint a == data_as_uint b

-- The weight plus 511, which is positive for a valid entry; 0 stands for the least `int32_t`.
unfoldable pub weight : ℕ → Data → ℕ
weight cur_epoch d =
    if not (is_valid d)
    then 0
    else let age = u8 (cur_epoch + 2 ^ 8 - d.epoch) in
      let result = depth d + 511 - 2 * age in if bound d == 0 then result + 3 else result

pub record Entry : Type 0 where
  pub value : Data
  pub key : ℕ

abbrev pub clear_entry : Entry
clear_entry = record { value = zero_data; key = 0 }

-- The table; its size is the length of the list.
pub record TranspositionTable : Type 0 where
  pub table : List Entry
  pub epoch : ℕ

unfoldable pub index : TranspositionTable → ℕ → ℕ
index t key = bit_and key (length t.table - 1)

unfoldable pub clear : TranspositionTable → TranspositionTable
clear t = record t { table = replicate (length t.table) clear_entry }

unfoldable pub grow_epoch : TranspositionTable → ℕ → TranspositionTable
grow_epoch t amount = record t { epoch = u8 (t.epoch + amount) }

unfoldable pub reset_epoch : TranspositionTable → TranspositionTable
reset_epoch t = record t { epoch = u8 (t.epoch + 19) }

unfoldable pub is_current_epoch : TranspositionTable → Data → Bool
is_current_epoch t d = d.epoch == t.epoch

unfoldable pub load_entry : Entry → ℕ → Data
load_entry e key = if not (bit_xor e.key (data_as_uint e.value) == key) then zero_data else e.value

unfoldable pub load : TranspositionTable → ℕ → Data
load t key = load_entry (get_or t.table (index t key) clear_entry) key

-- Whether `store` keeps what is there.
unfoldable pub outweighs : TranspositionTable → ℕ → Data → Bool
outweighs t key value =
    ltb (weight t.epoch value) (weight t.epoch (get_or t.table (index t key) clear_entry).value)

unfoldable pub store : TranspositionTable → ℕ → Data → TranspositionTable
store t key value₀ =
    let value = record value₀ { epoch = t.epoch } in
    if outweighs t key value then t else record t {
      table =
          set t.table (index t key)
            (record { value = value; key = bit_xor key (data_as_uint value) });
    }
