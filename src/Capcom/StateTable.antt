-- ===== src/Capcom/StateTable.antt =====
-- capcom/state_machine.cc: `state_funcs_`, the function of each operational state by its
-- enumerator. The degraded state runs the function of the broken one.
use adastra.Prelude.{ℕ, List}
use adastra.Capcom.States.{OperState}
use adastra.Capcom.Message.{Input}
use adastra.Capcom.Subsystem.{Env, Subsystem}
use adastra.Capcom.Machine.{Turn, Locals, Entry, Wake}
use adastra.Capcom.Handlers.Offline.{offline_enter, offline_handler}
use adastra.Capcom.Handlers.Connecting.{connecting_enter, connecting_handler}
use adastra.Capcom.Handlers.StartingChildren.{starting_children_enter, starting_children_handler}
use adastra.Capcom.Handlers.StartingProcesses.{starting_processes_enter, starting_processes_handler}
use adastra.Capcom.Handlers.Online.{online_enter, online_handler}
use adastra.Capcom.Handlers.StoppingProcesses.{stopping_processes_enter, stopping_processes_handler}
use adastra.Capcom.Handlers.StoppingChildren.{stopping_children_enter, stopping_children_handler}
use adastra.Capcom.Handlers.Restarting.{restarting_enter, restarting_handler}
use adastra.Capcom.Handlers.RestartingProcesses.{
  restarting_processes_enter, restarting_processes_handler,
}
use adastra.Capcom.Handlers.Broken.{broken_enter, broken_handler}

-- The code above the call of RunSubsystemInState.
unfoldable pub state_enter : Env → OperState → ℕ → Subsystem → Entry
state_enter env OperState.offline c s = offline_enter c s
state_enter env OperState.starting_children c s = starting_children_enter c s
state_enter env OperState.connecting c s = connecting_enter c s
state_enter env OperState.starting_processes c s = starting_processes_enter env c s
state_enter env OperState.online c s = online_enter c s
state_enter env OperState.stopping_processes c s = stopping_processes_enter c s
state_enter env OperState.stopping_children c s = stopping_children_enter c s
state_enter env OperState.restarting c s = restarting_enter c s
state_enter env OperState.restarting_processes c s = restarting_processes_enter c s
state_enter env OperState.broken c s = broken_enter c s
state_enter env OperState.degraded c s = broken_enter c s

-- The handler that the call is given, with the wake-ups of a restart wait that it may begin.
unfoldable pub state_handler : Env → List Wake → OperState → Subsystem → Locals → Input → Turn
state_handler env wakes OperState.offline = offline_handler
state_handler env wakes OperState.starting_children = starting_children_handler env
state_handler env wakes OperState.connecting = connecting_handler
state_handler env wakes OperState.starting_processes = starting_processes_handler env wakes
state_handler env wakes OperState.online = online_handler env wakes
state_handler env wakes OperState.stopping_processes = stopping_processes_handler
state_handler env wakes OperState.stopping_children = stopping_children_handler env
state_handler env wakes OperState.restarting = restarting_handler
state_handler env wakes OperState.restarting_processes = restarting_processes_handler env wakes
state_handler env wakes OperState.broken = broken_handler
state_handler env wakes OperState.degraded = broken_handler
