-- ===== src/Capcom/Tests.antt =====
-- The theorems on concrete subsystems, and runs of the code.
pub mod Samples
mod Life
mod Ending
mod Sets
mod Edges
mod Progress
mod Registry
