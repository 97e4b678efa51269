-- ===== src/Capcom/Discipline/Broken.antt =====
-- capcom/state_machine.cc: the handler of the broken and degraded states is disciplined.
use adastra.Prelude.{◌≡◌, refl, Bool, true, arith}
use adastra.Capcom.States.{AdminState, OperState, is_admin_online}
use adastra.Capcom.Message.{Message, Code, Input}
use adastra.Capcom.Subsystem.{Subsystem}
use adastra.Capcom.Subsystem.Processes.{reset_process_restarts}
use adastra.Capcom.BitSet.{set, clear}
use adastra.Capcom.Machine.{Turn, Locals, enter_state}
use adastra.Capcom.Handlers.Broken.{
  broken_event, broken_reset, broken_recover, broken_message, broken_rest, broken_handler,
}
use adastra.Capcom.Keeps.{propagate_telemetry-Keeps, forward-Keeps, send_to_children-Keeps}
use adastra.Capcom.Discipline.{next_ok, Same, Disciplined, Reaches}
use adastra.Capcom.Discipline.Crash.{abort-Disciplined}
use adastra.Capcom.Discipline.Switch.{dispatch_checked-Disciplined}

broken_reset-Same : (s : Subsystem) → Same s (broken_reset s)
unfolding broken_reset reset_process_restarts
broken_reset-Same s = (refl, refl)

broken_recover-Disciplined :
    (up : Bool) (m : Message) (s : Subsystem) (l : Locals)
    → Disciplined OperState.broken s (broken_recover up m s l)
unfolding broken_recover enter_state
broken_recover-Disciplined up m s l =
    let t = broken_reset s in
    ground (
      arith,
      broken_reset-Same s,
      send_to_children-Keeps m.admin m.client_id (
          enter_state OperState.starting_children l.client_id
            (record t { active_clients = set l.client_id t.active_clients })),
      send_to_children-Keeps m.admin m.client_id (
          enter_state OperState.stopping_children l.client_id (record t {
            active_clients = clear l.client_id t.active_clients;
            admin_state = AdminState.offline;
          })),
    )

broken_message-Reaches :
    (c : Code) (m : Message) (s : Subsystem) (l : Locals)
    → next_ok OperState.broken l.next_state ≡ true
    → Reaches OperState.broken s (broken_message c m s l)
unfolding broken_message enter_state
broken_message-Reaches Code.change_admin m s l h =
    broken_recover-Disciplined (is_admin_online m.admin) m s l
broken_message-Reaches Code.restart m s l h = broken_recover-Disciplined true m s l
broken_message-Reaches Code.abort m s l h =
    abort-Disciplined OperState.broken m.emergency_abort s l refl h
broken_message-Reaches Code.restart_processes m s l h = ground (arith, broken_reset-Same s)
broken_message-Reaches Code.send_telemetry_command m s l h =
    ground (arith, propagate_telemetry-Keeps m s)
broken_message-Reaches _ m s l h = ((refl, refl), h)

broken_rest-Disciplined :
    (s : Subsystem) (l : Locals)
    → next_ok OperState.broken l.next_state ≡ true
    → Disciplined OperState.broken s (broken_rest s l)
unfolding broken_rest enter_state
broken_rest-Disciplined s l h = ground (arith)

pub broken_handler-Disciplined :
    (s : Subsystem) (l : Locals) (input : Input)
    → next_ok OperState.broken l.next_state ≡ true
    → Disciplined OperState.broken s (broken_handler s l input)
unfolding broken_handler broken_event
broken_handler-Disciplined s l input h =
    dispatch_checked-Disciplined OperState.broken s l broken_event (λ m. broken_message m.code m)
      broken_rest
      (record {
        start_ok = h;
        event_ok = λ e. let k = forward-Keeps e s in ((k.coroutines, k.oper_state), h);
        message_ok = λ m. broken_message-Reaches m.code m s l h;
        rest_ok = broken_rest-Disciplined;
      })
      input

-- The degraded state has the edges of the broken one.
degraded-EndsWell :
    (s : Subsystem) (t : Turn)
    → Disciplined OperState.broken s t
    → Disciplined OperState.degraded s t
degraded-EndsWell s t h = ground arith

pub degraded_handler-Disciplined :
    (s : Subsystem) (l : Locals) (input : Input)
    → Disciplined OperState.degraded s (broken_handler s l input)
degraded_handler-Disciplined s l input =
    degraded-EndsWell s (broken_handler s l input) (broken_handler-Disciplined s l input refl)
