-- ===== src/Capcom/Tests/Life.antt =====
-- The state machine's theorems on the sample subsystem (capcom/state_machine.cc).
use adastra.Prelude.{◌≡◌, refl, true, [], ◌∷◌, some, all_of, pos, lookup, modify}
use adastra.Capcom.States.{AdminState, OperState}
use adastra.Capcom.Message.{
  Input, from_pipe, from_stagezero, Event, stop, StopReason, status_event, send_message, blank,
  Code,
}
use adastra.Capcom.Subsystem.{
  Subsystem, no_client, all_processes_running, all_processes_stopped, find_process, clear_alarm,
  process_at, update_process, mark_stopped, delete_process_id, is_stopped,
}
use adastra.Capcom.Machine.{Turn, fresh_locals, enter_state}
use adastra.Capcom.StateTable.{state_enter, state_handler}
use adastra.Capcom.Handlers.StartingChildren.{starting_children_handler}
use adastra.Capcom.Handlers.StoppingChildren.{stopping_children_handler}
use adastra.Capcom.Handlers.StartingProcesses.{
  starting_processes_handler, starting_processes_event, starting_processes_rest,
  starting_processes_start,
}
use adastra.Capcom.Handlers.StoppingProcesses.{
  stopping_processes_handler, stopping_processes_event, stopping_processes_rest,
  stopping_processes_stop,
}
use adastra.Capcom.Discipline.{Disciplined}
use adastra.Capcom.Discipline.Table.{state_handler-Disciplined}
use adastra.Capcom.Discipline.Entry.{state_enter-EntersWell, EntersWell}
use adastra.Capcom.Gates.Processes.{online-needs-processes, stopping_children-needs-stopped}
use adastra.Capcom.Tests.Samples.{
  fresh, flying, in_state, calm, locals_for, go_online, go_offline, child_reports,
}
use adastra.Capcom.Process.{clear_raised, set_running, counts_as_running, set_stopped}

-- The sample when its offline coroutine waits for the first time.
abbrev parked : Subsystem
parked = record fresh {
  running = true;
  coroutines = (OperState.offline, no_client) ∷ [];
  effects =
      status_event AdminState.offline OperState.offline
      ∷ send_message 9 (record (blank Code.report_oper) { sender = 7 })
      ∷ [];
}

abbrev taking_off : Turn
taking_off =
    state_handler calm [] OperState.offline parked (fresh_locals no_client OperState.offline)
      (from_pipe (some go_online))

state_handler-Disciplined_example : Disciplined OperState.online flying (
    state_handler calm [] OperState.online flying
      (locals_for OperState.online)
      (from_pipe (some go_offline)))
state_handler-Disciplined_example =
    state_handler-Disciplined calm [] OperState.online flying (locals_for OperState.online)
      (from_pipe (some go_offline)) refl refl refl

state_enter-EntersWell_example :
    EntersWell OperState.starting_children
      (in_state OperState.starting_children flying)
      (state_enter calm OperState.starting_children 5 (in_state OperState.starting_children flying))
state_enter-EntersWell_example =
    state_enter-EntersWell calm OperState.starting_children 5
      (in_state OperState.starting_children flying) refl

abbrev rising : Subsystem
rising = in_state OperState.starting_children flying

abbrev risen : Turn
risen =
    starting_children_handler calm rising (locals_for OperState.connecting)
      (from_pipe (some (child_reports OperState.online)))

abbrev sinking : Subsystem
sinking = in_state OperState.stopping_children flying

abbrev sunk : Turn
sunk =
    stopping_children_handler calm sinking (locals_for OperState.offline)
      (from_pipe (some (child_reports OperState.offline)))

abbrev launching : Subsystem
launching = in_state OperState.starting_processes flying

abbrev started : Input
started = from_stagezero (some (Event.start 33))

online-needs-processes_example :
    all_processes_running
      (starting_processes_handler calm [] launching
        (record (locals_for OperState.online) { started_processes = 33 ∷ [] })
        started).sub
    ≡ true
unfolding starting_processes_handler starting_processes_event starting_processes_rest
    all_processes_running all_of starting_processes_start find_process lookup clear_alarm process_at
    update_process modify clear_raised set_running counts_as_running enter_state
online-needs-processes_example =
    online-needs-processes calm [] launching
      (record (locals_for OperState.online) { started_processes = 33 ∷ [] }) started refl refl refl
      refl

abbrev landing : Subsystem
landing = in_state OperState.stopping_processes flying

abbrev stopped : Input
stopped = from_stagezero (some (stop 33 StopReason.exit (pos 0)))

stopping_children-needs-stopped_example :
    all_processes_stopped
      (stopping_processes_handler landing (locals_for OperState.stopping_children) stopped).sub
    ≡ true
unfolding stopping_processes_handler stopping_processes_event stopping_processes_rest
    all_processes_stopped all_of stopping_processes_stop find_process lookup mark_stopped process_at
    delete_process_id update_process modify is_stopped set_stopped enter_state
stopping_children-needs-stopped_example =
    stopping_children-needs-stopped landing (locals_for OperState.stopping_children) stopped refl
      refl
