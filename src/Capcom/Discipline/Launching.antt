-- ===== src/Capcom/Discipline/Launching.antt =====
-- capcom/state_machine.cc: the handler of the state that starts the processes is disciplined.
use adastra.Prelude.{ℕ, ◌≡◌, refl, true, false, List, arith, ℤ, Option-cases, inl, inr}
use adastra.Capcom.States.{OperState}
use adastra.Capcom.Message.{Message, Code, Event, Input, StopReason, start, stop}
use adastra.Capcom.Subsystem.{
  Env, Subsystem, update_process, mark_stopped, find_process, process_at,
}
use adastra.Capcom.Process.{set_running, set_exit}
use adastra.Capcom.Machine.{Locals, Wake, enter_state, handle_admin_command}
use adastra.Capcom.Handlers.Common.{exited_of}
use adastra.Capcom.Handlers.StartingProcesses.{
  starting_processes_start, starting_processes_stop, starting_processes_event,
  starting_processes_admin, starting_processes_message, starting_processes_rest,
  starting_processes_handler,
}
use adastra.Capcom.Keeps.{
  forward-Keeps, notify_parents-Keeps, send_to_children-Keeps, mark_stopped-Keeps,
  update_process-Keeps, clear_alarm-Keeps,
}
use adastra.Capcom.Discipline.{next_ok, Same, Disciplined, Reaches}
use adastra.Capcom.Discipline.Waiting.{no_abort}
use adastra.Capcom.Discipline.Crash.{CrashState, restart_after_crash-Disciplined, abort-Disciplined}
use adastra.Capcom.Discipline.Switch.{
  dispatch-Disciplined, handle_admin_command-Same, handle_admin_command-next,
}

starting_processes_edges : CrashState OperState.starting_processes
starting_processes_edges = record { to_broken = refl; to_degraded = refl; to_restarting = refl }

starting_processes_start-Same : (id : ℕ) (s : Subsystem) → Same s (starting_processes_start id s)
unfolding starting_processes_start
starting_processes_start-Same id s = elim (Option-cases (find_process id s)) [
  | inl missing ↦ rw (missing, starting_processes_start) (refl, refl)
  | inr (i, found) ↦
      rw (found, starting_processes_start)
        (ground (
          arith,
          update_process-Keeps i set_running s,
          clear_alarm-Keeps i (update_process i set_running s),
        ))
]

starting_processes_stop-Reaches :
    (env : Env) (ws : List Wake) (id : ℕ) (reason : StopReason) (status : ℤ) (s : Subsystem)
    (l : Locals)
    → env.test_mode ≡ false
    → no_abort ws ≡ true
    → next_ok OperState.starting_processes l.next_state ≡ true
    → Reaches OperState.starting_processes s (starting_processes_stop env ws id reason status s l)
unfolding starting_processes_stop
starting_processes_stop-Reaches env ws id reason status s l t w h =
    elim (Option-cases (find_process id s)) [
      | inl missing ↦ rw (missing, starting_processes_stop) (ground arith)
      | inr (i, found) ↦ elim (Option-cases (process_at i s)) [
        | inl missing ↦ rw (found, missing, starting_processes_stop) (ground arith)
        | inr (p, there) ↦
            rw (found, there, starting_processes_stop)
              (ground (
                arith,
                mark_stopped-Keeps i s,
                update_process-Keeps i (set_exit (exited_of reason) status) (mark_stopped i s),
                restart_after_crash-Disciplined OperState.starting_processes
                    starting_processes_edges env ws id l.client_id (exited_of reason) status s l t w
                    h,
              ))
      ]
    ]

starting_processes_event-Reaches :
    (env : Env) (ws : List Wake) (e : Event) (s : Subsystem) (l : Locals)
    → env.test_mode ≡ false
    → no_abort ws ≡ true
    → next_ok OperState.starting_processes l.next_state ≡ true
    → Reaches OperState.starting_processes s (starting_processes_event env ws e s l)
unfolding starting_processes_event enter_state
starting_processes_event-Reaches env ws (start id) s l t w h =
    (starting_processes_start-Same id s, h)
starting_processes_event-Reaches env ws (stop id reason status) s l t w h =
    starting_processes_stop-Reaches env ws id reason status s l t w h
starting_processes_event-Reaches env ws e s l t w h = ground (arith, forward-Keeps e s)

starting_processes_admin-Reaches :
    (m : Message) (s : Subsystem) (l : Locals)
    → Reaches OperState.starting_processes s (starting_processes_admin m s l)
unfolding starting_processes_admin
starting_processes_admin-Reaches m s l = ground (
  arith,
  handle_admin_command-Same m OperState.online OperState.stopping_processes s,
  handle_admin_command-next (next_ok OperState.starting_processes) m OperState.online
      OperState.stopping_processes s refl refl,
  send_to_children-Keeps m.admin m.client_id
      (handle_admin_command m OperState.online OperState.stopping_processes s).0,
)

starting_processes_message-Reaches :
    (c : Code) (m : Message) (s : Subsystem) (l : Locals)
    → next_ok OperState.starting_processes l.next_state ≡ true
    → Reaches OperState.starting_processes s (starting_processes_message c m s l)
unfolding starting_processes_message enter_state
starting_processes_message-Reaches Code.change_admin m s l h =
    starting_processes_admin-Reaches m s l
starting_processes_message-Reaches Code.report_oper m s l h = ground (arith, notify_parents-Keeps s)
starting_processes_message-Reaches Code.abort m s l h =
    abort-Disciplined OperState.starting_processes m.emergency_abort s l refl h
starting_processes_message-Reaches Code.restart m s l h = ((refl, refl), refl)
starting_processes_message-Reaches Code.restart_processes m s l h = ((refl, refl), refl)
starting_processes_message-Reaches Code.restart_crashed_processes m s l h = ((refl, refl), refl)
starting_processes_message-Reaches _ m s l h = ((refl, refl), h)

starting_processes_rest-Disciplined :
    (s : Subsystem) (l : Locals)
    → next_ok OperState.starting_processes l.next_state ≡ true
    → Disciplined OperState.starting_processes s (starting_processes_rest s l)
unfolding starting_processes_rest enter_state
starting_processes_rest-Disciplined s l h = ground (arith)

pub starting_processes_handler-Disciplined :
    (env : Env) (ws : List Wake) (s : Subsystem) (l : Locals) (input : Input)
    → env.test_mode ≡ false
    → no_abort ws ≡ true
    → next_ok OperState.starting_processes l.next_state ≡ true
    → Disciplined OperState.starting_processes s (starting_processes_handler env ws s l input)
unfolding starting_processes_handler
starting_processes_handler-Disciplined env ws s l input t w h =
    dispatch-Disciplined OperState.starting_processes s l (starting_processes_event env ws)
      (λ m. starting_processes_message m.code m) starting_processes_rest
      (record {
        start_ok = h;
        event_ok = λ e. starting_processes_event-Reaches env ws e s l t w h;
        message_ok = λ m. starting_processes_message-Reaches m.code m s l h;
        rest_ok = starting_processes_rest-Disciplined;
      })
      input
