-- ===== src/Search.antt =====
-- search/private: what the search keeps besides the position.
pub mod Transposition
pub mod Limits
pub mod Repetition
pub mod Killers
pub mod Sort
pub mod MovePicker
pub mod Quiescence
pub mod Tests
