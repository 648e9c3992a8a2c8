-- ===== src/Lib.antt =====
-- SoFCheck, a chess engine: the position and the making of moves, the text of both, and the tables,
-- limits and move order of the search.
--
-- The program. `src/core` is the chess library: `types.h` (cells, coordinates, colours, castling
-- flags), `board.h` and `board.cpp` (the position and the fields derived from it), `move.h` and
-- `move.cpp` (moves, making and unmaking them), `private/zobrist.cpp` (the hash keys). The search
-- makes and unmakes moves on one board, so everything rests on the derived fields staying equal to
-- what `Board::update` would compute, and on `moveUnmake` restoring the board. `src/search/private`
-- keeps searched positions in the transposition table under the board's hash, the positions on the
-- current line in the repetition table, and decides on the time for a move; the move pickers choose
-- the order in which the search tries moves; `src/eval/score.h` has the scores that are stored
-- there.
--
-- The files.
-- - Common and its children: the native numbers, lists as arrays, bits and words.
-- - Core/Types, Core/Geometry, Core/Zobrist: `src/core/types.h`, `src/core/private/geometry.h`,
--   `src/core/private/bitboard.h`, `src/core/private/zobrist.cpp`.
-- - Core/Board: `src/core/board.h` and `Board::update` of `src/core/board.cpp`; Core/Initial:
--   `Board::setInitialPosition`.
-- - Core/Move: `src/core/move.h` and `Move::isWellFormed`; Core/Make: the rest of
--   `src/core/move.cpp`. The children of Core/Make hold what a move asks of the position
--   (Applicable) and the proofs: bitboards (Simple, Castling), hash (Sums, Keys), both (Sync), and
--   undoing (Fields, Undo, Unmake).
-- - Core/Synced, Core/Hash: what it means that the derived fields agree with the essential ones.
-- - Core/Text: `src/core/strutil.h`, `moveToStr` of `src/core/strutil.cpp` and
--   `src/core/move_parser.cpp`; Core/Text/Trip and Core/Text/Parse: reading what was printed.
-- - Core/Bitboard, Core/Attacks: `src/core/bitboard.h`, `src/core/private/magic_util.h`,
--   `src/core/private/magic.h`, `src/core/private/between.h` and the generators of the tables,
--   `gen/core/near_attacks.cpp` and `gen/core/between_consts.cpp`.
-- - Core/MoveGen: `src/core/movegen.cpp` and `src/core/movegen.h`: attacked cells, then the
--   generators of pawn moves (Pawns) and of the other pieces (Pieces), the class `MoveGen` (Gen),
--   `isMoveValid` and `isMoveLegal` (Valid). The other children have the proofs: what a loop over
--   targets knows (Targets), pawns (PawnSteps, PawnMoves, PawnPassing, PawnSpecial), pieces
--   (PieceSteps, Playable), all of it (Checked, Generated), captures (Taken, Captures) and the
--   moves that are none (Quiets).
-- - Core/Coherent: what the castling flags and the passing pawn promise of the cells, and that a
--   valid move may be made. Core/Reach: the positions that play reaches, with the flags (Flags),
--   the homes of kings and rooks (Homes), the kings (Kings) and the fields (Made) that a move
--   leaves.
-- - Core/Validate: `Board::validate`, what `update` and it make of a board (Updated, Coherent, Kings) and
--   when it reports bad data (Errors).
-- - Core/Fen: `Board::asFen` and `Board::setFromFen` of `src/core/board.cpp`; its child Parse has
--   the reader. The other children have the proofs: printing then reading, by rows (Cells, Rows),
--   by fields (Fields, Update) and as a whole (Trip), and what the reader accepts, in its stages
--   (Accepts, Stages, Accepted).
-- - Util/Strutil: the character tests, the tokens and the numbers of `src/util/strutil.h` and
--   `src/util/strutil.cpp`.
-- - Util/Bit: `src/util/bit.h`; Lowest and Extract: the lowest bit, and the loops over the set
--   bits; Bytes and Count: the number of bits.
-- - Core/Draw: `isBoardDrawInsufficientMaterial` of `src/core/board.cpp`; Shades and
--   Exact: which positions it accepts.
-- - Core/Equality: comparison of moves through their packed form.
-- - Search/Transposition: `src/search/private/transposition_table.h` and the `.cpp` of that name;
--   its child Resize has `resize`, the others the proofs.
-- - Search/Repetition: `RepetitionTable` of `src/search/private/util.h` and `util.cpp`.
-- - Search/Killers: `KillerLine` and `HistoryTable` of `src/search/private/util.h`.
-- - Search/MovePicker: `MovePicker` of `src/search/private/move_picker.h` and `.cpp`, and
--   Search/Quiescence: `QuiescenseMovePicker` there. Search/Sort: what `std::sort` promises. The
--   children of Search/MovePicker have the proofs: one call (Steps, Given), many calls (Laps,
--   Ends), the order of captures (Order), which moves are given (Covers, Complete) and which may be
--   (Sound).
-- - Search/Limits: `src/search/private/limits.cpp`.
-- - Eval/Score, Eval/Mate: `src/eval/score.h`.
-- - Core/Tests and the other modules named Tests: concrete positions, tables, words and scores.
--
-- How code corresponds to definitions. A function that changes the board returns the new board; the
-- template parameters `C` and `Inverse` are arguments. The global key tables are a record `Zobrist`
-- that every function using them takes, and `init_zobrist` fills it from the sequence of random
-- numbers. Integers of w bits are numbers below 2 ^ w, with the wrap-around written out; negative
-- `coord_t` values are their 8-bit patterns (-1 is 255). An array is a list; a read out of bounds
-- gives 0 and a write out of bounds does nothing, where C++ has undefined behaviour. Loops over a
-- fixed range are `for_below`; a loop `while (x) { … extractLowest(x) … }` runs over the list
-- `bits_of x`, with 64 rounds, one for each bit. A list of moves is the list of what is written,
-- and the template parameters and filters of the generators are arguments. The magic constants,
-- which the build finds at random, and the contents of the shared look-up tables are a record
-- `MagicTables` that what uses them takes; the masks of their entries are computed as in the
-- source. `std::sort` is a parameter, `StdSort`, with a rearrangement in order as its promise, and
-- so are `std::to_chars` and `std::from_chars`, `Charconv`, with the reading of what was printed.
-- The killers and the history that a move picker refers to are passed to each call as a `Memory`,
-- since the search changes them between calls. Three loops have fuel: the skipping of empty stages
-- in `nextStage` has 6 rounds, more than a lap over the stages can take; the doubling of the table
-- size in `resize` has 65 rounds, one more than the bits of a size, and `RepetitionTable::insert`
-- takes its fuel as an argument, one unit for each doubling of the table. The tables of the search
-- are read and written by one thread. Entry weights are shifted by 511 so that they are natural
-- numbers.
--
-- Not modelled: the variants of the bit operations that the compiler or the processor provides,
-- such as `_pext_u64` in the look-up of attacks; `asPretty` and the wrapper `fromFen` of the board,
-- the filling of the magic look-up tables, the evaluation, the search itself, the bot protocol and
-- the tools; the races of several threads on one table entry.
pub mod Common
pub mod Core
pub mod Eval
pub mod Search
pub mod Util
