-- ===== src/Capcom/Handlers/Offline.antt =====
-- capcom/state_machine.cc: Subsystem::Offline.
use adastra.Prelude.{ℕ, true, false, none, some, if◌then◌else◌}
use adastra.Capcom.States.{AdminState, OperState, is_admin_offline, oper_eq}
use adastra.Capcom.Message.{Message, Code, Event, Input}
use adastra.Capcom.Subsystem.{
  Subsystem, notify_parents, send_status, send_to_children, each_process, no_client,
}
use adastra.Capcom.Subsystem.Processes.{offline_one}
use adastra.Capcom.Machine.{
  Turn, Locals, Flow, returns, breaks, Entry, runs, stays, leaves, fresh_locals, enter_state,
  forward, handle_admin_command, dispatch,
}

unfoldable pub offline_enter : ℕ → Subsystem → Entry
offline_enter client_id s =
    let t = record (send_status (notify_parents s)) {
      restart_count = 0;
      alarm_count = 0;
      num_restarts = 0;
    } in
    runs (each_process offline_one t) (fresh_locals client_id OperState.offline)

unfoldable pub offline_event : Event → Subsystem → Locals → Flow
offline_event e s l = breaks (forward e s) l

-- The admin command to go online, then what the message says of an interactive terminal.
unfoldable pub offline_go_online : Message → Subsystem → Locals → Flow
offline_go_online m s l =
    let (t, next) = handle_admin_command m OperState.starting_children OperState.offline s in
    let u =
      if oper_eq next OperState.starting_children
      then send_to_children m.admin m.client_id (record t { admin_state = AdminState.online })
      else t in
    breaks
      (if m.interactive
        then record u {
          interactive = true;
          interactive_output = some m.output_fd;
          interactive_terminal = m.terminal;
        }
        else record u { interactive = false; interactive_output = none })
      (record l { next_state = next })

unfoldable pub offline_message : Code → Message → Subsystem → Locals → Flow
offline_message Code.change_admin m s l =
    if is_admin_offline m.admin
    then returns (stays (notify_parents s) l)
    else offline_go_online m s l
offline_message Code.report_oper m s l =
    if oper_eq m.oper OperState.restarting
    then returns (leaves (enter_state OperState.restarting l.client_id s) l)
    else breaks (notify_parents s) l
offline_message _ m s l = breaks s l

unfoldable pub offline_rest : Subsystem → Locals → Turn
offline_rest s l =
    if oper_eq l.next_state OperState.offline
    then stays s l
    else leaves (enter_state l.next_state no_client s) l

unfoldable pub offline_handler : Subsystem → Locals → Input → Turn
offline_handler = dispatch offline_event (λ m. offline_message m.code m) offline_rest
