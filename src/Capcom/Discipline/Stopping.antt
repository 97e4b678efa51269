-- ===== src/Capcom/Discipline/Stopping.antt =====
-- capcom/state_machine.cc: the handlers of the states on the way down are disciplined.
use adastra.Prelude.{ℕ, ◌≡◌, refl, true, arith, Option-cases, inl, inr}
use adastra.Capcom.States.{AdminState, OperState}
use adastra.Capcom.Message.{Message, Code, Event, Input, disconnect, stop}
use adastra.Capcom.Subsystem.{Env, Subsystem, find_process}
use adastra.Capcom.Machine.{Locals, enter_state}
use adastra.Capcom.Handlers.StoppingProcesses.{
  stopping_processes_stop, stopping_processes_event, stopping_processes_admin,
  stopping_processes_message, stopping_processes_rest, stopping_processes_handler,
}
use adastra.Capcom.Handlers.StoppingChildren.{
  stopping_children_event, stopping_children_admin, stopping_children_report,
  stopping_children_message, stopping_children_rest, stopping_children_handler,
}
use adastra.Capcom.Keeps.Loops.{disconnect_compute-Keeps}
use adastra.Capcom.Keeps.{
  forward-Keeps, notify_parents-Keeps, send_to_children-Keeps, mark_stopped-Keeps,
}
use adastra.Capcom.Discipline.{next_ok, Same, Disciplined, Reaches}
use adastra.Capcom.Discipline.Crash.{abort-Disciplined}
use adastra.Capcom.Discipline.Switch.{
  dispatch-Disciplined, handle_admin_command-Same, handle_admin_command-next,
}

stopping_processes_stop-Same : (id : ℕ) (s : Subsystem) → Same s (stopping_processes_stop id s)
unfolding stopping_processes_stop
stopping_processes_stop-Same id s = elim (Option-cases (find_process id s)) [
  | inl missing ↦ rw (missing, stopping_processes_stop) (refl, refl)
  | inr (i, found) ↦ rw (found, stopping_processes_stop) (ground (arith, mark_stopped-Keeps i s))
]

stopping_processes_event-Reaches :
    (e : Event) (s : Subsystem) (l : Locals)
    → next_ok OperState.stopping_processes l.next_state ≡ true
    → Reaches OperState.stopping_processes s (stopping_processes_event e s l)
unfolding stopping_processes_event enter_state
stopping_processes_event-Reaches (disconnect compute) s l h =
    ground (arith, disconnect_compute-Keeps compute s)
stopping_processes_event-Reaches (stop id reason status) s l h =
    (stopping_processes_stop-Same id s, h)
stopping_processes_event-Reaches e s l h = ground (arith, forward-Keeps e s)

stopping_processes_admin-Reaches :
    (m : Message) (s : Subsystem) (l : Locals)
    → Reaches OperState.stopping_processes s (stopping_processes_admin m s l)
unfolding stopping_processes_admin
stopping_processes_admin-Reaches m s l = ground (
  arith,
  handle_admin_command-Same m OperState.connecting OperState.stopping_children s,
  handle_admin_command-next (next_ok OperState.stopping_processes) m OperState.connecting
      OperState.stopping_children s refl refl,
)

stopping_processes_message-Reaches :
    (c : Code) (m : Message) (s : Subsystem) (l : Locals)
    → next_ok OperState.stopping_processes l.next_state ≡ true
    → Reaches OperState.stopping_processes s (stopping_processes_message c m s l)
unfolding stopping_processes_message enter_state
stopping_processes_message-Reaches Code.change_admin m s l h =
    stopping_processes_admin-Reaches m s l
stopping_processes_message-Reaches Code.report_oper m s l h = ground (arith, notify_parents-Keeps s)
stopping_processes_message-Reaches Code.abort m s l h =
    abort-Disciplined OperState.stopping_processes m.emergency_abort s l refl h
stopping_processes_message-Reaches Code.restart m s l h = ((refl, refl), refl)
stopping_processes_message-Reaches _ m s l h = ((refl, refl), h)

stopping_processes_rest-Disciplined :
    (s : Subsystem) (l : Locals)
    → next_ok OperState.stopping_processes l.next_state ≡ true
    → Disciplined OperState.stopping_processes s (stopping_processes_rest s l)
unfolding stopping_processes_rest enter_state
stopping_processes_rest-Disciplined s l h =
    ground (arith, send_to_children-Keeps AdminState.offline l.client_id s)

pub stopping_processes_handler-Disciplined :
    (s : Subsystem) (l : Locals) (input : Input)
    → next_ok OperState.stopping_processes l.next_state ≡ true
    → Disciplined OperState.stopping_processes s (stopping_processes_handler s l input)
unfolding stopping_processes_handler
stopping_processes_handler-Disciplined s l input h =
    dispatch-Disciplined OperState.stopping_processes s l stopping_processes_event
      (λ m. stopping_processes_message m.code m) stopping_processes_rest
      (record {
        start_ok = h;
        event_ok = λ e. stopping_processes_event-Reaches e s l h;
        message_ok = λ m. stopping_processes_message-Reaches m.code m s l h;
        rest_ok = stopping_processes_rest-Disciplined;
      })
      input

stopping_children_admin-Reaches :
    (m : Message) (s : Subsystem) (l : Locals)
    → Reaches OperState.stopping_children s (stopping_children_admin m s l)
unfolding stopping_children_admin
stopping_children_admin-Reaches m s l = ground (
  arith,
  handle_admin_command-Same m OperState.starting_children OperState.offline s,
  handle_admin_command-next (next_ok OperState.stopping_children) m OperState.starting_children
      OperState.offline s refl refl,
)

stopping_children_report-Reaches :
    (m : Message) (s : Subsystem) (l : Locals)
    → next_ok OperState.stopping_children l.next_state ≡ true
    → Reaches OperState.stopping_children s (stopping_children_report m s l)
unfolding stopping_children_report
stopping_children_report-Reaches m s l h = ground (arith, notify_parents-Keeps s)

stopping_children_message-Reaches :
    (c : Code) (m : Message) (s : Subsystem) (l : Locals)
    → next_ok OperState.stopping_children l.next_state ≡ true
    → Reaches OperState.stopping_children s (stopping_children_message c m s l)
unfolding stopping_children_message enter_state
stopping_children_message-Reaches Code.change_admin m s l h = stopping_children_admin-Reaches m s l
stopping_children_message-Reaches Code.report_oper m s l h =
    stopping_children_report-Reaches m s l h
stopping_children_message-Reaches Code.abort m s l h =
    abort-Disciplined OperState.stopping_children m.emergency_abort s l refl h
stopping_children_message-Reaches Code.restart m s l h = ((refl, refl), refl)
stopping_children_message-Reaches _ m s l h = ((refl, refl), h)

stopping_children_rest-Disciplined :
    (env : Env) (s : Subsystem) (l : Locals)
    → next_ok OperState.stopping_children l.next_state ≡ true
    → Disciplined OperState.stopping_children s (stopping_children_rest env s l)
unfolding stopping_children_rest enter_state
stopping_children_rest-Disciplined env s l h =
    ground (arith, send_to_children-Keeps AdminState.offline l.client_id s)

pub stopping_children_handler-Disciplined :
    (env : Env) (s : Subsystem) (l : Locals) (input : Input)
    → next_ok OperState.stopping_children l.next_state ≡ true
    → Disciplined OperState.stopping_children s (stopping_children_handler env s l input)
unfolding stopping_children_handler stopping_children_event
stopping_children_handler-Disciplined env s l input h =
    dispatch-Disciplined OperState.stopping_children s l stopping_children_event
      (λ m. stopping_children_message m.code m) (stopping_children_rest env)
      (record {
        start_ok = h;
        event_ok = λ e. let k = forward-Keeps e s in ((k.coroutines, k.oper_state), h);
        message_ok = λ m. stopping_children_message-Reaches m.code m s l h;
        rest_ok = stopping_children_rest-Disciplined env;
      })
      input
