-- ===== src/Capcom/Handlers/StartingChildren.antt =====
-- capcom/state_machine.cc: Subsystem::StartingChildren.
use adastra.Prelude.{ℕ, Bool, true, ◌&&◌, not, [], ◌∷◌, if◌then◌else◌, all_of, insert}
use adastra.Capcom.States.{AdminState, OperState, is_admin_offline, oper_eq}
use adastra.Capcom.Message.{Message, Code, Event, Input, stop}
use adastra.Capcom.Subsystem.{Env, Subsystem, notify_parents, send_status, send_to_children}
use adastra.Capcom.Machine.{
  Turn, Locals, Flow, returns, breaks, Entry, runs, finished, stays, leaves, fresh_locals,
  enter_state, forward, handle_admin_command, abort, dispatch,
}
use adastra.Capcom.Handlers.Common.{child_flags, all_notified}

unfoldable pub starting_children_enter : ℕ → Subsystem → Entry
starting_children_enter client_id s = elim s.children [
  | [] ↦ finished (enter_state OperState.connecting client_id s)
  | c ∷ cs ↦
      runs (send_status (notify_parents s)) (record (fresh_locals client_id OperState.connecting) {
        child_notified = child_flags (c ∷ cs);
      })
]

unfoldable pub starting_children_event : Event → Subsystem → Locals → Flow
starting_children_event (stop id reason status) s l = returns (stays s l)
starting_children_event e s l = breaks (forward e s) l

unfoldable pub starting_children_admin : Message → Subsystem → Locals → Flow
starting_children_admin m s l =
    let (t, next) = handle_admin_command m OperState.connecting OperState.stopping_children s in
    let u = send_to_children m.admin m.client_id t in
    breaks
      (if oper_eq next OperState.stopping_children
        then record u { admin_state = AdminState.offline }
        else u)
      (record l { next_state = next; client_id = m.client_id })

unfoldable pub starting_children_report : Message → Subsystem → Locals → Flow
starting_children_report m s l =
    let noted = record l { child_notified = insert m.sender true l.child_notified } in
    if oper_eq m.oper OperState.online
    then breaks (notify_parents s) noted
    else if is_admin_offline s.admin_state && oper_eq m.oper OperState.offline
    then breaks (notify_parents s) noted
    else if oper_eq m.oper OperState.broken
    then returns (leaves (enter_state OperState.broken l.client_id s) l)
    else breaks (notify_parents s) l

unfoldable pub starting_children_message : Code → Message → Subsystem → Locals → Flow
starting_children_message Code.change_admin m s l = starting_children_admin m s l
starting_children_message Code.report_oper m s l = starting_children_report m s l
starting_children_message Code.abort m s l = returns (abort m.emergency_abort s l)
starting_children_message Code.restart m s l =
    returns (leaves (enter_state OperState.restarting l.client_id s) l)
starting_children_message Code.restart_processes m s l = returns (stays s l)
starting_children_message Code.restart_crashed_processes m s l = returns (stays s l)
starting_children_message Code.send_telemetry_command m s l = breaks s l

-- The state of a child, as it is when the handler looks.
unfoldable pub child_online : Env → ℕ → Bool
child_online env c = oper_eq (env.oper_of c) OperState.online

unfoldable pub starting_children_rest : Env → Subsystem → Locals → Turn
starting_children_rest env s l =
    if not (all_notified l.child_notified)
    then stays s l
    else if is_admin_offline s.admin_state
    then leaves (enter_state OperState.offline l.client_id s) l
    else if not (oper_eq l.next_state OperState.connecting)
    then leaves (enter_state l.next_state l.client_id s) l
    else if not (all_of (child_online env) s.children)
    then stays s l
    else leaves (enter_state l.next_state l.client_id s) l

unfoldable pub starting_children_handler : Env → Subsystem → Locals → Input → Turn
starting_children_handler env =
    dispatch starting_children_event (λ m. starting_children_message m.code m)
      (starting_children_rest env)
