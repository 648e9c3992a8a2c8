-- ===== src/Core.antt =====
-- The chess core: src/core.
pub mod Types
pub mod Geometry
pub mod Zobrist
pub mod Board
pub mod Bitboard
pub mod Attacks
pub mod MoveGen
pub mod Coherent
pub mod Reach
pub mod Validate
pub mod Move
pub mod Make
pub mod Hash
pub mod Synced
pub mod Initial
pub mod Equality
pub mod Draw
pub mod Fen
pub mod Text
pub mod Tests
