-- ===== src/Capcom.antt =====
-- capcom/: the controller of the subsystems.
pub mod States
pub mod BitSet
pub mod Alarm
pub mod Umbilical
pub mod Process
pub mod Message
pub mod Subsystem
pub mod Machine
pub mod Restart
pub mod Handlers
pub mod Keeps
pub mod StateTable
pub mod Discipline
pub mod Lifecycle
pub mod Registry
pub mod Clients
pub mod Gates
pub mod Budget
pub mod Aborting
pub mod Waits
pub mod Connections
pub mod Parents
pub mod Progress
pub mod Tests
