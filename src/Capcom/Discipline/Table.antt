-- ===== src/Capcom/Discipline/Table.antt =====
-- capcom/state_machine.cc: the discipline of every state's function, by `state_funcs_`.
use adastra.Prelude.{◌≡◌, true, false, List}
use adastra.Capcom.States.{OperState}
use adastra.Capcom.Message.{Input}
use adastra.Capcom.Subsystem.{Env, Subsystem}
use adastra.Capcom.Machine.{Locals, Wake}
use adastra.Capcom.StateTable.{state_handler}
use adastra.Capcom.Discipline.{next_ok, Disciplined}
use adastra.Capcom.Discipline.Waiting.{no_abort}
use adastra.Capcom.Discipline.Starting.{
  offline_handler-Disciplined, connecting_handler-Disciplined,
  starting_children_handler-Disciplined,
}
use adastra.Capcom.Discipline.Launching.{starting_processes_handler-Disciplined}
use adastra.Capcom.Discipline.Running.{online_handler-Disciplined}
use adastra.Capcom.Discipline.Stopping.{
  stopping_processes_handler-Disciplined, stopping_children_handler-Disciplined,
}
use adastra.Capcom.Discipline.Recovering.{
  restarting_handler-Disciplined, restarting_processes_handler-Disciplined,
}
use adastra.Capcom.Discipline.Broken.{broken_handler-Disciplined, degraded_handler-Disciplined}

-- Outside the test mode, with no abort in a restart wait and from an allowed next_state, one run of
-- any state's handler over any event, message or failed read implements the specification of a
-- turn: it stays with the same coroutines and operational state and an allowed next_state, or
-- leaves with exactly one coroutine handed over, for the state that the subsystem is then in, along
-- an edge of the diagram, or crashes or is still waiting with nothing handed over.
pub state_handler-Disciplined :
    (env : Env) (ws : List Wake) (q : OperState) (s : Subsystem) (l : Locals) (input : Input)
    → env.test_mode ≡ false
    → no_abort ws ≡ true
    → next_ok q l.next_state ≡ true
    → Disciplined q s (state_handler env ws q s l input)
unfolding state_handler
state_handler-Disciplined env ws OperState.offline s l i t w h = offline_handler-Disciplined s l i h
state_handler-Disciplined env ws OperState.starting_children s l i t w h =
    starting_children_handler-Disciplined env s l i h
state_handler-Disciplined env ws OperState.connecting s l i t w h =
    connecting_handler-Disciplined s l i h
state_handler-Disciplined env ws OperState.starting_processes s l i t w h =
    starting_processes_handler-Disciplined env ws s l i t w h
state_handler-Disciplined env ws OperState.online s l i t w h =
    online_handler-Disciplined env ws s l i t w h
state_handler-Disciplined env ws OperState.stopping_processes s l i t w h =
    stopping_processes_handler-Disciplined s l i h
state_handler-Disciplined env ws OperState.stopping_children s l i t w h =
    stopping_children_handler-Disciplined env s l i h
state_handler-Disciplined env ws OperState.restarting s l i t w h =
    restarting_handler-Disciplined s l i h
state_handler-Disciplined env ws OperState.restarting_processes s l i t w h =
    restarting_processes_handler-Disciplined env ws s l i t w h
state_handler-Disciplined env ws OperState.broken s l i t w h = broken_handler-Disciplined s l i h
state_handler-Disciplined env ws OperState.degraded s l i t w h = degraded_handler-Disciplined s l i
