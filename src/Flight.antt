-- ===== src/Flight.antt =====
-- flight/: the flight director, which loads a graph of subsystems and gives it to capcom.
pub mod Graph
pub mod Result
pub mod Director
pub mod Load
pub mod Linked
pub mod Startup
pub mod Registration
mod Tests
