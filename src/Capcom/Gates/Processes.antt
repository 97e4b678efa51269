-- ===== src/Capcom/Gates/Processes.antt =====
-- capcom/state_machine.cc: a subsystem goes online only when all its processes count as running, and
-- stops its children only when all its processes have stopped.
use adastra.Prelude.{ℕ, ◌≡◌, refl, Bool, true, false, List, arith, Option-cases, inl, inr, ℤ}
use adastra.Capcom.States.{OperState}
use adastra.Capcom.Message.{Message, Code, Event, Input, StopReason, disconnect, stop}
use adastra.Capcom.Subsystem.{
  Env, Subsystem, all_processes_running, all_processes_stopped, find_process, process_at,
  send_to_children,
}
use adastra.Capcom.Machine.{Turn, Locals, Transition, Wake, enter_state, abort}
use adastra.Capcom.Restart.{restart_after_crash}
use adastra.Capcom.Handlers.Common.{exited_of}
use adastra.Capcom.Handlers.StartingProcesses.{
  starting_processes_stop, starting_processes_event, starting_processes_admin,
  starting_processes_message, starting_processes_rest, starting_processes_handler,
}
use adastra.Capcom.Handlers.StoppingProcesses.{
  stopping_processes_event, stopping_processes_admin, stopping_processes_message,
  stopping_processes_rest, stopping_processes_handler,
}
use adastra.Capcom.Discipline.{Disciplined}
use adastra.Capcom.Discipline.Waiting.{no_abort}
use adastra.Capcom.Discipline.Crash.{CrashState, restart_after_crash-Disciplined}
use adastra.Capcom.Gates.{Gate, SwitchGate, dispatch-Gate}

abbrev AllRunning : Turn → Type 0
AllRunning t = all_processes_running t.sub ≡ true

abbrev Anything : Subsystem → Type 0
Anything s = Unit

-- After a crash the subsystem is left for the restarting, degraded or broken state, never online.
not_online :
    (s : Subsystem) (t : Turn)
    → Disciplined OperState.restarting_processes s t
    → Gate OperState.online AllRunning t
not_online s t h = λ p q. ground arith

crash_edges : CrashState OperState.restarting_processes
crash_edges = record { to_broken = refl; to_degraded = refl; to_restarting = refl }

restart_after_crash-Gate :
    (env : Env) (ws : List Wake) (id c : ℕ) (exited : Bool) (status : ℤ) (s : Subsystem)
    (l : Locals)
    → env.test_mode ≡ false
    → no_abort ws ≡ true
    → Gate OperState.online AllRunning (restart_after_crash env ws id c exited status s l)
restart_after_crash-Gate env ws id c exited status s l t w =
    not_online s (restart_after_crash env ws id c exited status s l) (
      restart_after_crash-Disciplined OperState.restarting_processes crash_edges env ws id c exited
        status s l t w refl)

starting_processes_stop-Gate :
    (env : Env) (ws : List Wake) (id : ℕ) (reason : StopReason) (status : ℤ) (s : Subsystem)
    (l : Locals)
    → env.test_mode ≡ false
    → no_abort ws ≡ true
    → SwitchGate OperState.online AllRunning Anything
        (starting_processes_stop env ws id reason status s l)
unfolding starting_processes_stop
starting_processes_stop-Gate env ws id reason status s l t w =
    let crash = restart_after_crash-Gate env ws id l.client_id (exited_of reason) status s l t w in
    elim (Option-cases (find_process id s)) [
      | inl missing ↦ rw (missing, starting_processes_stop) (ground arith)
      | inr (i, found) ↦ elim (Option-cases (process_at i s)) [
        | inl missing ↦ rw (found, missing, starting_processes_stop) (ground arith)
        | inr (p, there) ↦ rw (found, there, starting_processes_stop) (ground (arith, crash))
      ]
    ]

starting_processes_event-Gate :
    (env : Env) (ws : List Wake) (e : Event) (s : Subsystem) (l : Locals)
    → env.test_mode ≡ false
    → no_abort ws ≡ true
    → SwitchGate OperState.online AllRunning Anything (starting_processes_event env ws e s l)
unfolding starting_processes_event
starting_processes_event-Gate env ws (stop id reason status) s l t w =
    starting_processes_stop-Gate env ws id reason status s l t w
starting_processes_event-Gate env ws e s l t w = tt

starting_processes_message-Gate :
    (c : Code) (m : Message) (s : Subsystem) (l : Locals)
    → SwitchGate OperState.online AllRunning Anything (starting_processes_message c m s l)
unfolding starting_processes_message starting_processes_admin enter_state abort
starting_processes_message-Gate Code.change_admin m s l = tt
starting_processes_message-Gate Code.report_oper m s l = tt
starting_processes_message-Gate Code.abort m s l = λ h k. ground arith
starting_processes_message-Gate Code.restart m s l = λ h k. cc
starting_processes_message-Gate Code.restart_processes m s l = λ h k. cc
starting_processes_message-Gate Code.restart_crashed_processes m s l = λ h k. cc
starting_processes_message-Gate Code.send_telemetry_command m s l = tt

starting_processes_rest-Gate :
    (s : Subsystem) (l : Locals) → Gate OperState.online AllRunning (starting_processes_rest s l)
unfolding starting_processes_rest enter_state all_processes_running
starting_processes_rest-Gate s l = λ h k. ground arith

-- In the starting-processes state, outside the test mode and with no abort in a restart wait, the
-- subsystem goes online only when AllProcessesRunning answers true.
pub online-needs-processes :
    (env : Env) (ws : List Wake) (s : Subsystem) (l : Locals) (input : Input)
    → env.test_mode ≡ false
    → no_abort ws ≡ true
    → (starting_processes_handler env ws s l input).next ≡ Transition.leave
    → (starting_processes_handler env ws s l input).sub.oper_state ≡ OperState.online
    → all_processes_running (starting_processes_handler env ws s l input).sub ≡ true
unfolding starting_processes_handler
online-needs-processes env ws s l input t w =
    dispatch-Gate OperState.online AllRunning Anything s l (starting_processes_event env ws)
      (λ m. starting_processes_message m.code m) starting_processes_rest
      (λ u k h. starting_processes_rest-Gate u k) input
      (λ e. starting_processes_event-Gate env ws e s l t w)
      (λ m e. starting_processes_message-Gate m.code m s l)

abbrev AllStopped : Turn → Type 0
AllStopped t = all_processes_stopped t.sub ≡ true

stopping_processes_event-Gate :
    (e : Event) (s : Subsystem) (l : Locals)
    → SwitchGate OperState.stopping_children AllStopped Anything (stopping_processes_event e s l)
unfolding stopping_processes_event
stopping_processes_event-Gate (disconnect compute) s l = tt
stopping_processes_event-Gate e s l = tt

stopping_processes_message-Gate :
    (c : Code) (m : Message) (s : Subsystem) (l : Locals)
    → SwitchGate OperState.stopping_children AllStopped Anything
        (stopping_processes_message c m s l)
unfolding stopping_processes_message stopping_processes_admin enter_state abort
stopping_processes_message-Gate Code.change_admin m s l = tt
stopping_processes_message-Gate Code.report_oper m s l = tt
stopping_processes_message-Gate Code.abort m s l = λ h k. ground arith
stopping_processes_message-Gate Code.restart m s l = λ h k. cc
stopping_processes_message-Gate Code.restart_processes m s l = λ h k. cc
stopping_processes_message-Gate Code.restart_crashed_processes m s l = λ h k. cc
stopping_processes_message-Gate Code.send_telemetry_command m s l = tt

stopping_processes_rest-Gate :
    (s : Subsystem) (l : Locals)
    → Gate OperState.stopping_children AllStopped (stopping_processes_rest s l)
unfolding stopping_processes_rest enter_state all_processes_stopped send_to_children
stopping_processes_rest-Gate s l = λ h k. ground arith

-- In the stopping-processes state, whatever comes in, the subsystem goes on to stop its children
-- only when every process has stopped.
pub stopping_children-needs-stopped :
    (s : Subsystem) (l : Locals) (input : Input)
    → (stopping_processes_handler s l input).next ≡ Transition.leave
    → (stopping_processes_handler s l input).sub.oper_state ≡ OperState.stopping_children
    → all_processes_stopped (stopping_processes_handler s l input).sub ≡ true
unfolding stopping_processes_handler
stopping_children-needs-stopped s l input =
    dispatch-Gate OperState.stopping_children AllStopped Anything s l stopping_processes_event
      (λ m. stopping_processes_message m.code m) stopping_processes_rest
      (λ u k h. stopping_processes_rest-Gate u k) input (λ e. stopping_processes_event-Gate e s l)
      (λ m e. stopping_processes_message-Gate m.code m s l)
