-- ===== src/Capcom/Handlers.antt =====
-- capcom/state_machine.cc: the function of each operational state. `x_enter` is the code above its
-- call of RunSubsystemInState, `x_handler` the handler that it hands over, in three parts: the
-- switch over events, the switch over messages, and the code below them.
pub mod Common
pub mod Offline
pub mod Connecting
pub mod StartingChildren
pub mod StartingProcesses
pub mod Online
pub mod StoppingProcesses
pub mod StoppingChildren
pub mod Restarting
pub mod RestartingProcesses
pub mod Broken
