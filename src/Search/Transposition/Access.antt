-- ===== src/Search/Transposition/Access.antt =====
-- What `load` finds after a `store`.
use sofcheck.Search.Transposition.{Data, TranspositionTable}

-- The stored value, with the table's epoch.
abbrev pub stored : TranspositionTable → Data → Data
stored t value = record value { epoch = t.epoch }
