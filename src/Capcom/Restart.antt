-- ===== src/Capcom/Restart.antt =====
-- capcom/state_machine.cc: what follows the crash of a process.
use adastra.Prelude.{
  ℕ, ◌+◌, ◌*◌, Bool, true, false, ◌&&◌, ◌||◌, none, some, List, ℤ, equals_count, min_of,
  if◌then◌else◌,
}
use adastra.Capcom.States.{AdminState, OperState, is_admin_online, oper_eq}
use adastra.Capcom.Alarm.{Alarm, AlarmType, Severity, Reason, AlarmStatus}
use adastra.Capcom.Process.{
  Process, max_restart_delay, inc_num_restarts, inc_restart_delay, is_zero,
}
use adastra.Capcom.Message.{
  Message, Code, Event, Input, from_stagezero, from_pipe, stop, restart_timer, abort_coroutine,
  sleep,
}
use adastra.Capcom.Subsystem.{
  Env, Subsystem, RestartPolicy, emit, find_process, process_at, update_process, mark_stopped,
  stop_found, raise_alarm, send_to_children,
}
use adastra.Capcom.Machine.{
  Turn, Locals, Transition, Wake, Run, Outcome, stays, leaves, crashes, enter_state, forward, abort,
  run_in_state, fresh_locals,
}

-- The stop of another process during the wait.
unfoldable pub wait_event : Event → Subsystem → Subsystem
wait_event (stop id reason status) s = stop_found id s
wait_event e s = forward e s

unfoldable pub wait_message : Code → Message → Subsystem → Locals → Turn
wait_message Code.change_admin m s l = if is_admin_online m.admin then leaves s l else stays s l
wait_message Code.abort m s l = abort m.emergency_abort s l
wait_message _ m s l = stays s l

-- The handler that WaitForRestart runs.
unfoldable pub wait_handler : Subsystem → Locals → Input → Turn
wait_handler s l (from_stagezero none) = stays s l
wait_handler s l (from_stagezero (some e)) = stays (wait_event e s) l
wait_handler s l (from_pipe none) = crashes s l
wait_handler s l (from_pipe (some m)) = wait_message m.code m s l

-- `restart_delay_ = std::min(kMaxRestartDelay, restart_delay_ * 2); ++num_restarts_;`
unfoldable pub count_restart : Subsystem → Subsystem
count_restart s = record s {
  restart_delay = min_of max_restart_delay (s.restart_delay * 2);
  num_restarts = s.num_restarts + 1;
}

-- Subsystem::WaitForRestart over the wake-ups that come during the wait.
unfoldable pub wait_for_restart : List Wake → Subsystem → Run
wait_for_restart wakes s =
    run_in_state wait_handler s.restart_delay wakes (count_restart s)
      (fresh_locals 0 OperState.offline)

unfoldable pub crash_alarm : ℕ → Severity → Alarm
crash_alarm name severity = record {
  id = (name, AlarmType.process);
  name = name;
  type = AlarmType.process;
  severity = severity;
  reason = Reason.crashed;
  status = AlarmStatus.raised;
}

-- The end of RestartIfPossibleAfterProcessCrash: wait, then restart the subsystem.
unfoldable pub restart_subsystem : List Wake → ℕ → Subsystem → Locals → Turn
restart_subsystem wakes client_id s l =
    let run = wait_for_restart wakes s in
    elim run.outcome [
      | Outcome.waiting ↦ record { sub = run.sub; locals = l; next = Transition.blocked }
      | Outcome.crashed ↦ crashes run.sub l
      | _ ↦ leaves (enter_state OperState.restarting client_id run.sub) l
    ]

-- `proc->IncNumRestarts(); proc->IncRestartDelay();`. The delay to use is the one before it.
unfoldable pub delay_restart : Process → Process
delay_restart p = (inc_restart_delay (inc_num_restarts p)).0

-- The restart of the one process that crashed.
unfoldable pub restart_process : ℕ → Process → ℕ → Subsystem → Locals → Turn
unfolding crash_alarm delay_restart
restart_process i p client_id s l =
    if equals_count p.max_restarts p.num_restarts
    then leaves
        (enter_state OperState.degraded client_id
          (raise_alarm i (crash_alarm p.name Severity.critical) s))
        l
    else stays
        (emit (restart_timer p.restart_delay)
          (raise_alarm i (crash_alarm p.name Severity.warning) (update_process i delay_restart s)))
        l

is_process_only : RestartPolicy → Bool
is_process_only RestartPolicy.process_only = true
is_process_only _ = false

is_manual : RestartPolicy → Bool
is_manual RestartPolicy.manual = true
is_manual _ = false

-- From the test of the restart policy on.
unfoldable pub restart_by_policy : List Wake → ℕ → Process → ℕ → Subsystem → Locals → Turn
unfolding crash_alarm is_process_only is_manual
restart_by_policy wakes i p client_id s l =
    if is_process_only s.restart_policy || oper_eq s.oper_state OperState.restarting_processes
    then restart_process i p client_id s l
    else if is_manual s.restart_policy
    then leaves
        (enter_state OperState.degraded client_id
          (raise_alarm i (crash_alarm p.name Severity.warning) s))
        l
    else if equals_count s.max_restarts s.num_restarts
    then leaves
        (raise_alarm i (crash_alarm p.name Severity.critical)
          (enter_state OperState.broken client_id s))
        l
    else restart_subsystem wakes client_id (raise_alarm i (crash_alarm p.name Severity.warning) s) l

-- From the test of the test mode on.
unfoldable pub restart_unless_test_mode :
    Env → List Wake → ℕ → Process → ℕ → Subsystem → Locals → Turn
restart_unless_test_mode env wakes i p client_id s l =
    if env.test_mode
    then stays (emit abort_coroutine s) l
    else restart_by_policy wakes i p client_id s l

-- A oneshot that stopped: with success, or not.
unfoldable pub after_oneshot :
    Env → List Wake → ℕ → Process → ℕ → Bool → ℤ → Subsystem → Locals → Turn
unfolding crash_alarm
after_oneshot env wakes i p client_id exited status s l =
    if exited && is_zero status
    then stays s l
    else (let t = enter_state OperState.broken client_id s in
        if env.test_mode
        then restart_unless_test_mode env wakes i p client_id t l
        else leaves (raise_alarm i (crash_alarm p.name Severity.critical) t) l)

-- From the test of the critical subsystem on, for the process that was found.
unfoldable pub restart_found :
    Env → List Wake → ℕ → Process → ℕ → Bool → ℤ → Subsystem → Locals → Turn
restart_found env wakes i p client_id exited status s l =
    if s.critical
    then stays (emit abort_coroutine s) l
    else if p.oneshot
    then after_oneshot env wakes i p client_id exited status (mark_stopped i s) l
    else restart_unless_test_mode env wakes i p client_id (mark_stopped i s) l

-- Subsystem::RestartIfPossibleAfterProcessCrash, with the wake-ups of its wait.
unfoldable pub restart_after_crash : Env → List Wake → ℕ → ℕ → Bool → ℤ → Subsystem → Locals → Turn
restart_after_crash env wakes id client_id exited status s l =
    if env.emergency_aborting then stays s l else elim (find_process id s) [
      | none ↦ stays s l
      | some i ↦ elim (process_at i s) [
        | none ↦ stays s l
        | some p ↦ restart_found env wakes i p client_id exited status s l
      ]
    ]

-- Subsystem::RestartIfPossible, after a failed launch.
unfoldable pub restart_if_possible : ℕ → Subsystem → Subsystem
restart_if_possible client_id s =
    if equals_count s.max_restarts s.num_restarts
    then enter_state OperState.broken client_id s
    else (let t = count_restart s in
        enter_state OperState.restarting client_id (emit (sleep t.restart_delay) t))

-- Subsystem::RestartNow.
unfoldable pub restart_now : ℕ → Subsystem → Subsystem
restart_now client_id s =
    enter_state OperState.starting_children client_id
      (send_to_children AdminState.online client_id s)
