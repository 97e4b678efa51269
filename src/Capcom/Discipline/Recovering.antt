-- ===== src/Capcom/Discipline/Recovering.antt =====
-- capcom/state_machine.cc: the handlers of the restarting states are disciplined.
use adastra.Prelude.{ℕ, ◌≡◌, refl, true, false, List, arith, Option-cases, inl, inr, pos, remove_of}
use adastra.Capcom.States.{AdminState, OperState}
use adastra.Capcom.Message.{Message, Code, Event, Input, start, stop}
use adastra.Capcom.Subsystem.{Env, Subsystem, update_process, find_process, process_at}
use adastra.Capcom.Process.{set_running}
use adastra.Capcom.Machine.{Locals, Wake, enter_state}
use adastra.Capcom.Restart.{restart_now}
use adastra.Capcom.Handlers.Restarting.{
  restarting_event, restarting_message, restarting_rest, restarting_handler,
}
use adastra.Capcom.Handlers.RestartingProcesses.{
  restarting_processes_start, restarting_processes_stop, restarting_processes_event,
  restarting_processes_message, restarting_processes_rest, restarting_processes_handler,
}
use adastra.Capcom.Keeps.{
  stop_found-Keeps, forward-Keeps, notify_parents-Keeps, send_to_children-Keeps, mark_stopped-Keeps,
  update_process-Keeps, clear_alarm-Keeps,
}
use adastra.Capcom.Discipline.{next_ok, Disciplined, Reaches}
use adastra.Capcom.Discipline.Waiting.{no_abort}
use adastra.Capcom.Discipline.Crash.{CrashState, restart_after_crash-Disciplined, abort-Disciplined}
use adastra.Capcom.Discipline.Switch.{dispatch-Disciplined, dispatch_checked-Disciplined}

restarting_event-Reaches :
    (e : Event) (s : Subsystem) (l : Locals)
    → next_ok OperState.restarting l.next_state ≡ true
    → Reaches OperState.restarting s (restarting_event e s l)
unfolding restarting_event enter_state
restarting_event-Reaches (stop id reason status) s l h = ground (arith, stop_found-Keeps id s)
restarting_event-Reaches e s l h = ground (arith, forward-Keeps e s)

restarting_message-Reaches :
    (c : Code) (m : Message) (s : Subsystem) (l : Locals)
    → next_ok OperState.restarting l.next_state ≡ true
    → Reaches OperState.restarting s (restarting_message c m s l)
unfolding restarting_message enter_state restart_now
restarting_message-Reaches Code.change_admin m s l h =
    ground (arith, notify_parents-Keeps s, send_to_children-Keeps AdminState.online l.client_id s)
restarting_message-Reaches Code.abort m s l h =
    abort-Disciplined OperState.restarting m.emergency_abort s l refl h
restarting_message-Reaches _ m s l h = ((refl, refl), h)

restarting_rest-Disciplined :
    (s : Subsystem) (l : Locals)
    → next_ok OperState.restarting l.next_state ≡ true
    → Disciplined OperState.restarting s (restarting_rest s l)
unfolding restarting_rest enter_state restart_now
restarting_rest-Disciplined s l h =
    ground (arith, notify_parents-Keeps s, send_to_children-Keeps AdminState.online l.client_id s)

pub restarting_handler-Disciplined :
    (s : Subsystem) (l : Locals) (input : Input)
    → next_ok OperState.restarting l.next_state ≡ true
    → Disciplined OperState.restarting s (restarting_handler s l input)
unfolding restarting_handler
restarting_handler-Disciplined s l input h =
    dispatch-Disciplined OperState.restarting s l restarting_event
      (λ m. restarting_message m.code m) restarting_rest
      (record {
        start_ok = h;
        event_ok = λ e. restarting_event-Reaches e s l h;
        message_ok = λ m. restarting_message-Reaches m.code m s l h;
        rest_ok = restarting_rest-Disciplined;
      })
      input

restarting_processes_edges : CrashState OperState.restarting_processes
restarting_processes_edges = record { to_broken = refl; to_degraded = refl; to_restarting = refl }

restarting_processes_start-Reaches :
    (id : ℕ) (s : Subsystem) (l : Locals)
    → Reaches OperState.restarting_processes s (restarting_processes_start id s l)
unfolding restarting_processes_start
restarting_processes_start-Reaches id s l = elim (Option-cases (find_process id s)) [
  | inl missing ↦ rw (missing, restarting_processes_start) ((refl, refl), refl)
  | inr (i, found) ↦
      rw (found, restarting_processes_start)
        (ground (
          arith,
          update_process-Keeps i set_running s,
          clear_alarm-Keeps i (update_process i set_running s),
        ))
]

restarting_processes_stop-Reaches :
    (env : Env) (ws : List Wake) (id : ℕ) (s : Subsystem) (l : Locals)
    → env.test_mode ≡ false
    → no_abort ws ≡ true
    → Reaches OperState.restarting_processes s (restarting_processes_stop env ws id s l)
unfolding restarting_processes_stop
restarting_processes_stop-Reaches env ws id s l t w = elim (Option-cases (find_process id s)) [
  | inl missing ↦ rw (missing, restarting_processes_stop) ((refl, refl), refl)
  | inr (i, found) ↦ elim (Option-cases (process_at i s)) [
    | inl missing ↦
        rw (found, missing, restarting_processes_stop) (ground (arith, mark_stopped-Keeps i s))
    | inr (p, there) ↦
        rw (found, there, restarting_processes_stop)
          (ground (
            arith,
            mark_stopped-Keeps i s,
            restart_after_crash-Disciplined OperState.restarting_processes
                restarting_processes_edges env ws p.process_id l.client_id false (pos 0) s
                (record l { started_processes = remove_of i l.started_processes }) t w refl,
          ))
  ]
]

restarting_processes_event-Reaches :
    (env : Env) (ws : List Wake) (e : Event) (s : Subsystem) (l : Locals)
    → env.test_mode ≡ false
    → no_abort ws ≡ true
    → next_ok OperState.restarting_processes l.next_state ≡ true
    → Reaches OperState.restarting_processes s (restarting_processes_event env ws e s l)
unfolding restarting_processes_event enter_state
restarting_processes_event-Reaches env ws (start id) s l t w h =
    restarting_processes_start-Reaches id s l
restarting_processes_event-Reaches env ws (stop id reason status) s l t w h =
    restarting_processes_stop-Reaches env ws id s l t w
restarting_processes_event-Reaches env ws e s l t w h = ground (arith, forward-Keeps e s)

restarting_processes_message-Reaches :
    (c : Code) (m : Message) (s : Subsystem) (l : Locals)
    → next_ok OperState.restarting_processes l.next_state ≡ true
    → Reaches OperState.restarting_processes s (restarting_processes_message c m s l)
unfolding restarting_processes_message enter_state
restarting_processes_message-Reaches Code.change_admin m s l h =
    ground (arith, notify_parents-Keeps s)
restarting_processes_message-Reaches Code.abort m s l h =
    abort-Disciplined OperState.restarting_processes m.emergency_abort s l refl h
restarting_processes_message-Reaches _ m s l h = ((refl, refl), h)

restarting_processes_rest-Disciplined :
    (s : Subsystem) (l : Locals)
    → next_ok OperState.restarting_processes l.next_state ≡ true
    → Disciplined OperState.restarting_processes s (restarting_processes_rest s l)
unfolding restarting_processes_rest enter_state
restarting_processes_rest-Disciplined s l h = ground (arith)

pub restarting_processes_handler-Disciplined :
    (env : Env) (ws : List Wake) (s : Subsystem) (l : Locals) (input : Input)
    → env.test_mode ≡ false
    → no_abort ws ≡ true
    → next_ok OperState.restarting_processes l.next_state ≡ true
    → Disciplined OperState.restarting_processes s (restarting_processes_handler env ws s l input)
unfolding restarting_processes_handler
restarting_processes_handler-Disciplined env ws s l input t w h =
    dispatch_checked-Disciplined OperState.restarting_processes s l
      (restarting_processes_event env ws) (λ m. restarting_processes_message m.code m)
      restarting_processes_rest
      (record {
        start_ok = h;
        event_ok = λ e. restarting_processes_event-Reaches env ws e s l t w h;
        message_ok = λ m. restarting_processes_message-Reaches m.code m s l h;
        rest_ok = restarting_processes_rest-Disciplined;
      })
      input
