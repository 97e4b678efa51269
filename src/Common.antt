-- ===== src/Common.antt =====
-- common/: what the programs share.
pub mod Variable
pub mod Stream
pub mod Conversions
pub mod Parameters
mod Tests
