-- ===== src/Capcom/Discipline/Running.antt =====
-- capcom/state_machine.cc: the handler of the online state is disciplined.
use adastra.Prelude.{ℕ, ◌≡◌, refl, true, false, List, arith, ℤ, Option-cases, inl, inr}
use adastra.Capcom.States.{OperState}
use adastra.Capcom.Message.{Message, Code, Event, Input, StopReason, disconnect, stop}
use adastra.Capcom.Subsystem.{Env, Subsystem, propagate_telemetry, find_process}
use adastra.Capcom.Machine.{Locals, Wake, enter_state}
use adastra.Capcom.Handlers.Common.{exited_of}
use adastra.Capcom.Handlers.Online.{
  online_interactive_stop, online_crash, online_stop, online_event, online_admin, online_message,
  online_rest, online_handler, telemetry_one,
}
use adastra.Capcom.Keeps.Loops.{
  restart_processes-Keeps, disconnect_compute-Keeps, each_process-Keeps, telemetry_one-Keeps,
}
use adastra.Capcom.Keeps.{
  propagate_telemetry-Keeps, forward-Keeps, notify_parents-Keeps, mark_stopped-Keeps,
}
use adastra.Capcom.Discipline.{next_ok, Disciplined, Reaches}
use adastra.Capcom.Discipline.Waiting.{no_abort}
use adastra.Capcom.Discipline.Crash.{CrashState, restart_after_crash-Disciplined, abort-Disciplined}
use adastra.Capcom.Discipline.Switch.{
  dispatch-Disciplined, handle_admin_command-Same, handle_admin_command-next,
}

online_edges : CrashState OperState.online
online_edges = record { to_broken = refl; to_degraded = refl; to_restarting = refl }

online_crash-Disciplined :
    (env : Env) (ws : List Wake) (id : ℕ) (reason : StopReason) (status : ℤ) (s : Subsystem)
    (l : Locals)
    → env.test_mode ≡ false
    → no_abort ws ≡ true
    → next_ok OperState.online l.next_state ≡ true
    → Disciplined OperState.online s (online_crash env ws id reason status s l)
unfolding online_crash
online_crash-Disciplined env ws id reason status s l t w h = ground (
  arith,
  restart_after_crash-Disciplined OperState.online online_edges env ws id l.client_id
      (exited_of reason) status s l t w h,
)

online_interactive_stop-Disciplined :
    (i : ℕ) (s : Subsystem) (l : Locals)
    → Disciplined OperState.online s (online_interactive_stop i s l)
unfolding online_interactive_stop enter_state
online_interactive_stop-Disciplined i s l = ground (arith, mark_stopped-Keeps i s)

online_stop-Disciplined :
    (env : Env) (ws : List Wake) (id : ℕ) (reason : StopReason) (status : ℤ) (s : Subsystem)
    (l : Locals)
    → env.test_mode ≡ false
    → no_abort ws ≡ true
    → next_ok OperState.online l.next_state ≡ true
    → Disciplined OperState.online s (online_stop env ws id reason status s l)
unfolding online_stop
online_stop-Disciplined env ws id reason status s l t w h =
    let crash = online_crash-Disciplined env ws id reason status s l t w h in
    elim (Option-cases (find_process id s)) [
      | inl missing ↦ rw (missing, online_stop) (ground (arith, crash))
      | inr (i, found) ↦
          rw (found, online_stop) (ground (arith, crash, online_interactive_stop-Disciplined i s l))
    ]

online_event-Reaches :
    (env : Env) (ws : List Wake) (e : Event) (s : Subsystem) (l : Locals)
    → env.test_mode ≡ false
    → no_abort ws ≡ true
    → next_ok OperState.online l.next_state ≡ true
    → Reaches OperState.online s (online_event env ws e s l)
unfolding online_event enter_state
online_event-Reaches env ws (disconnect compute) s l t w h =
    ground (arith, disconnect_compute-Keeps compute s)
online_event-Reaches env ws (stop id reason status) s l t w h =
    online_stop-Disciplined env ws id reason status s l t w h
online_event-Reaches env ws e s l t w h = ground (arith, forward-Keeps e s)

online_admin-Reaches :
    (env : Env) (m : Message) (s : Subsystem) (l : Locals)
    → next_ok OperState.online l.next_state ≡ true
    → Reaches OperState.online s (online_admin env m s l)
unfolding online_admin
online_admin-Reaches env m s l h = ground (
  arith,
  notify_parents-Keeps s,
  handle_admin_command-Same m OperState.online OperState.stopping_processes s,
  handle_admin_command-next (next_ok OperState.online) m OperState.online
      OperState.stopping_processes s refl refl,
)

online_message-Reaches :
    (env : Env) (c : Code) (m : Message) (s : Subsystem) (l : Locals)
    → next_ok OperState.online l.next_state ≡ true
    → Reaches OperState.online s (online_message env c m s l)
unfolding online_message enter_state
online_message-Reaches env Code.change_admin m s l h = online_admin-Reaches env m s l h
online_message-Reaches env Code.report_oper m s l h = ground arith
online_message-Reaches env Code.abort m s l h =
    abort-Disciplined OperState.online m.emergency_abort s l refl h
online_message-Reaches env Code.restart m s l h = ((refl, refl), refl)
online_message-Reaches env Code.restart_processes m s l h =
    ground (arith, restart_processes-Keeps m.processes s)
online_message-Reaches env Code.restart_crashed_processes m s l h = ((refl, refl), refl)
online_message-Reaches env Code.send_telemetry_command m s l h = ground (
  arith,
  propagate_telemetry-Keeps m s,
  each_process-Keeps telemetry_one telemetry_one-Keeps (propagate_telemetry m s),
)

online_rest-Disciplined :
    (s : Subsystem) (l : Locals)
    → next_ok OperState.online l.next_state ≡ true
    → Disciplined OperState.online s (online_rest s l)
unfolding online_rest enter_state
online_rest-Disciplined s l h = ground (arith)

pub online_handler-Disciplined :
    (env : Env) (ws : List Wake) (s : Subsystem) (l : Locals) (input : Input)
    → env.test_mode ≡ false
    → no_abort ws ≡ true
    → next_ok OperState.online l.next_state ≡ true
    → Disciplined OperState.online s (online_handler env ws s l input)
unfolding online_handler
online_handler-Disciplined env ws s l input t w h =
    dispatch-Disciplined OperState.online s l (online_event env ws)
      (λ m. online_message env m.code m) online_rest
      (record {
        start_ok = h;
        event_ok = λ e. online_event-Reaches env ws e s l t w h;
        message_ok = λ m. online_message-Reaches env m.code m s l h;
        rest_ok = online_rest-Disciplined;
      })
      input
