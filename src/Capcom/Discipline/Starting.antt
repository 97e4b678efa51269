-- ===== src/Capcom/Discipline/Starting.antt =====
-- capcom/state_machine.cc: the handlers of the states before the processes start are disciplined.
use adastra.Prelude.{◌≡◌, refl, true, arith}
use adastra.Capcom.States.{AdminState, OperState}
use adastra.Capcom.Message.{Message, Code, Event, Input, stop}
use adastra.Capcom.Subsystem.{Env, Subsystem}
use adastra.Capcom.Machine.{Locals, enter_state, handle_admin_command}
use adastra.Capcom.Handlers.Offline.{
  offline_event, offline_go_online, offline_message, offline_rest, offline_handler,
}
use adastra.Capcom.Handlers.Connecting.{
  connecting_event, connecting_message, connecting_rest, connecting_handler,
}
use adastra.Capcom.Handlers.StartingChildren.{
  starting_children_event, starting_children_admin, starting_children_report,
  starting_children_message, starting_children_rest, starting_children_handler,
}
use adastra.Capcom.Keeps.{forward-Keeps, notify_parents-Keeps, send_to_children-Keeps}
use adastra.Capcom.Discipline.{may_follow, next_ok, Disciplined, Reaches}
use adastra.Capcom.Discipline.Crash.{abort-Disciplined}
use adastra.Capcom.Discipline.Switch.{
  dispatch-Disciplined, handle_admin_command-Same, handle_admin_command-next,
}

offline_go_online-Reaches :
    (m : Message) (s : Subsystem) (l : Locals)
    → Reaches OperState.offline s (offline_go_online m s l)
unfolding offline_go_online
offline_go_online-Reaches m s l =
    let t = (handle_admin_command m OperState.starting_children OperState.offline s).0 in
    ground (
      arith,
      handle_admin_command-Same m OperState.starting_children OperState.offline s,
      handle_admin_command-next (next_ok OperState.offline) m OperState.starting_children
          OperState.offline s refl refl,
      send_to_children-Keeps m.admin m.client_id (record t { admin_state = AdminState.online }),
    )

offline_message-Reaches :
    (c : Code) (m : Message) (s : Subsystem) (l : Locals)
    → next_ok OperState.offline l.next_state ≡ true
    → Reaches OperState.offline s (offline_message c m s l)
unfolding offline_message enter_state
offline_message-Reaches Code.change_admin m s l h =
    ground (arith, offline_go_online-Reaches m s l, notify_parents-Keeps s)
offline_message-Reaches Code.report_oper m s l h = ground (arith, notify_parents-Keeps s)
offline_message-Reaches _ m s l h = ((refl, refl), h)

offline_rest-Disciplined :
    (s : Subsystem) (l : Locals)
    → next_ok OperState.offline l.next_state ≡ true
    → Disciplined OperState.offline s (offline_rest s l)
unfolding offline_rest enter_state
offline_rest-Disciplined s l h = ground arith

pub offline_handler-Disciplined :
    (s : Subsystem) (l : Locals) (input : Input)
    → next_ok OperState.offline l.next_state ≡ true
    → Disciplined OperState.offline s (offline_handler s l input)
unfolding offline_handler offline_event
offline_handler-Disciplined s l input h =
    dispatch-Disciplined OperState.offline s l offline_event (λ m. offline_message m.code m)
      offline_rest
      (record {
        start_ok = h;
        event_ok = λ e. let k = forward-Keeps e s in ((k.coroutines, k.oper_state), h);
        message_ok = λ m. offline_message-Reaches m.code m s l h;
        rest_ok = offline_rest-Disciplined;
      })
      input

connecting_event-Reaches :
    (e : Event) (s : Subsystem) (l : Locals)
    → next_ok OperState.connecting l.next_state ≡ true
    → Reaches OperState.connecting s (connecting_event e s l)
unfolding connecting_event enter_state
connecting_event-Reaches (stop id reason status) s l h = ((refl, refl), h)
connecting_event-Reaches e s l h = ground (arith, forward-Keeps e s)

connecting_message-Reaches :
    (c : Code) (m : Message) (s : Subsystem) (l : Locals)
    → next_ok OperState.connecting l.next_state ≡ true
    → Reaches OperState.connecting s (connecting_message c m s l)
unfolding connecting_message enter_state
connecting_message-Reaches Code.change_admin m s l h = ground (
  arith,
  handle_admin_command-Same m OperState.stopping_processes OperState.stopping_processes s,
  handle_admin_command-next (may_follow OperState.connecting) m OperState.stopping_processes
      OperState.stopping_processes s refl refl,
)
connecting_message-Reaches Code.abort m s l h =
    abort-Disciplined OperState.connecting m.emergency_abort s l refl h
connecting_message-Reaches Code.restart m s l h = ((refl, refl), refl)
connecting_message-Reaches _ m s l h = ((refl, refl), h)

connecting_rest-Disciplined :
    (s : Subsystem) (l : Locals)
    → next_ok OperState.connecting l.next_state ≡ true
    → Disciplined OperState.connecting s (connecting_rest s l)
unfolding connecting_rest enter_state
connecting_rest-Disciplined s l h = ground (
  arith,
  send_to_children-Keeps AdminState.online l.client_id
      (enter_state OperState.starting_processes l.client_id s),
)

pub connecting_handler-Disciplined :
    (s : Subsystem) (l : Locals) (input : Input)
    → next_ok OperState.connecting l.next_state ≡ true
    → Disciplined OperState.connecting s (connecting_handler s l input)
unfolding connecting_handler
connecting_handler-Disciplined s l input h =
    dispatch-Disciplined OperState.connecting s l connecting_event
      (λ m. connecting_message m.code m) connecting_rest
      (record {
        start_ok = h;
        event_ok = λ e. connecting_event-Reaches e s l h;
        message_ok = λ m. connecting_message-Reaches m.code m s l h;
        rest_ok = connecting_rest-Disciplined;
      })
      input

starting_children_event-Reaches :
    (e : Event) (s : Subsystem) (l : Locals)
    → next_ok OperState.starting_children l.next_state ≡ true
    → Reaches OperState.starting_children s (starting_children_event e s l)
unfolding starting_children_event enter_state
starting_children_event-Reaches (stop id reason status) s l h = ((refl, refl), h)
starting_children_event-Reaches e s l h = ground (arith, forward-Keeps e s)

starting_children_admin-Reaches :
    (m : Message) (s : Subsystem) (l : Locals)
    → Reaches OperState.starting_children s (starting_children_admin m s l)
unfolding starting_children_admin
starting_children_admin-Reaches m s l = ground (
  arith,
  handle_admin_command-Same m OperState.connecting OperState.stopping_children s,
  handle_admin_command-next (next_ok OperState.starting_children) m OperState.connecting
      OperState.stopping_children s refl refl,
  send_to_children-Keeps m.admin m.client_id
      (handle_admin_command m OperState.connecting OperState.stopping_children s).0,
)

starting_children_report-Reaches :
    (m : Message) (s : Subsystem) (l : Locals)
    → next_ok OperState.starting_children l.next_state ≡ true
    → Reaches OperState.starting_children s (starting_children_report m s l)
unfolding starting_children_report enter_state
starting_children_report-Reaches m s l h = ground (arith, notify_parents-Keeps s)

starting_children_message-Reaches :
    (c : Code) (m : Message) (s : Subsystem) (l : Locals)
    → next_ok OperState.starting_children l.next_state ≡ true
    → Reaches OperState.starting_children s (starting_children_message c m s l)
unfolding starting_children_message enter_state
starting_children_message-Reaches Code.change_admin m s l h = starting_children_admin-Reaches m s l
starting_children_message-Reaches Code.report_oper m s l h =
    starting_children_report-Reaches m s l h
starting_children_message-Reaches Code.abort m s l h =
    abort-Disciplined OperState.starting_children m.emergency_abort s l refl h
starting_children_message-Reaches Code.restart m s l h = ((refl, refl), refl)
starting_children_message-Reaches _ m s l h = ((refl, refl), h)

starting_children_rest-Disciplined :
    (env : Env) (s : Subsystem) (l : Locals)
    → next_ok OperState.starting_children l.next_state ≡ true
    → Disciplined OperState.starting_children s (starting_children_rest env s l)
unfolding starting_children_rest enter_state
starting_children_rest-Disciplined env s l h = ground (arith)

pub starting_children_handler-Disciplined :
    (env : Env) (s : Subsystem) (l : Locals) (input : Input)
    → next_ok OperState.starting_children l.next_state ≡ true
    → Disciplined OperState.starting_children s (starting_children_handler env s l input)
unfolding starting_children_handler
starting_children_handler-Disciplined env s l input h =
    dispatch-Disciplined OperState.starting_children s l starting_children_event
      (λ m. starting_children_message m.code m) (starting_children_rest env)
      (record {
        start_ok = h;
        event_ok = λ e. starting_children_event-Reaches e s l h;
        message_ok = λ m. starting_children_message-Reaches m.code m s l h;
        rest_ok = starting_children_rest-Disciplined env;
      })
      input
