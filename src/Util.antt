-- ===== src/Util.antt =====
-- src/util: what the modelled parts use of it.
pub mod Bit
pub mod Strutil
pub mod Tests
