-- ===== src/Capcom/Handlers/Connecting.antt =====
-- capcom/state_machine.cc: Subsystem::Connecting.
use adastra.Prelude.{ℕ, if◌then◌else◌}
use adastra.Capcom.States.{AdminState, OperState, is_admin_offline}
use adastra.Capcom.Message.{Message, Code, Event, Input, stop}
use adastra.Capcom.Subsystem.{
  Subsystem, notify_parents, send_status, send_to_children, process_connect, each_process,
  all_processes_connected,
}
use adastra.Capcom.Machine.{
  Turn, Locals, Flow, returns, breaks, Entry, runs, finished, stays, leaves, fresh_locals,
  enter_state, forward, handle_admin_command, abort, dispatch,
}

unfoldable pub connecting_enter : ℕ → Subsystem → Entry
connecting_enter client_id s =
    let t = each_process process_connect (record s { oper_state = OperState.connecting }) in
    if all_processes_connected t
    then finished (enter_state OperState.starting_processes client_id t)
    else runs (send_status (notify_parents t)) (fresh_locals client_id OperState.connecting)

unfoldable pub connecting_event : Event → Subsystem → Locals → Flow
connecting_event (stop id reason status) s l = returns (stays s l)
connecting_event e s l = breaks (forward e s) l

unfoldable pub connecting_message : Code → Message → Subsystem → Locals → Flow
connecting_message Code.change_admin m s l =
    if is_admin_offline m.admin
    then (let (t, next) =
          handle_admin_command m OperState.stopping_processes OperState.stopping_processes s in
        returns
          (leaves (record (enter_state next m.client_id t) { admin_state = AdminState.offline }) l))
    else breaks s l
connecting_message Code.abort m s l = returns (abort m.emergency_abort s l)
connecting_message Code.restart m s l =
    returns (leaves (enter_state OperState.restarting l.client_id s) l)
connecting_message Code.restart_processes m s l = returns (stays s l)
connecting_message Code.restart_crashed_processes m s l = returns (stays s l)
connecting_message _ m s l = breaks s l

unfoldable pub connecting_rest : Subsystem → Locals → Turn
connecting_rest s l =
    if all_processes_connected s
    then leaves
        (send_to_children AdminState.online l.client_id
          (enter_state OperState.starting_processes l.client_id s))
        l
    else stays s l

unfoldable pub connecting_handler : Subsystem → Locals → Input → Turn
connecting_handler = dispatch connecting_event (λ m. connecting_message m.code m) connecting_rest
