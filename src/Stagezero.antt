-- ===== src/Stagezero.antt =====
-- The part of stagezero that is modelled: the symbols of processes.
pub mod Symbols
mod Tests
