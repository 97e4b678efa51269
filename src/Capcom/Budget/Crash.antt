-- ===== src/Capcom/Budget/Crash.antt =====
-- capcom/state_machine.cc: RestartIfPossibleAfterProcessCrash keeps within the restart limits.
use adastra.Prelude.{ℕ, ◌≡◌, Bool, false, List, arith, ℤ, Option-cases, inl, inr, equals_count}
use adastra.Capcom.States.{OperState}
use adastra.Capcom.Alarm.{Severity}
use adastra.Capcom.Process.{Process}
use adastra.Capcom.Subsystem.{
  Env, Subsystem, emit, find_process, process_at, update_process, mark_stopped, raise_alarm,
}
use adastra.Capcom.Machine.{Locals, Wake, enter_state}
use adastra.Capcom.Restart.{
  restart_subsystem, restart_process, restart_by_policy, restart_unless_test_mode, after_oneshot,
  restart_found, restart_after_crash, crash_alarm, delay_restart,
}
use adastra.Capcom.Keeps.{mark_stopped-Keeps, raise_alarm-Keeps, update_process-Keeps}
use adastra.Capcom.Budget.{Budget, Keeps-Budget, wait_for_restart-Budget}

restart_subsystem-Budget :
    (n : ℕ) (ws : List Wake) (c : ℕ) (s : Subsystem) (l : Locals)
    → Budget n s
    → equals_count s.max_restarts s.num_restarts ≡ false
    → Budget n (restart_subsystem ws c s l).sub
unfolding restart_subsystem enter_state
restart_subsystem-Budget n ws c s l b h = ground (arith, wait_for_restart-Budget n ws s b h)

restart_process-Budget :
    (n i : ℕ) (p : Process) (c : ℕ) (s : Subsystem) (l : Locals)
    → Budget n s
    → Budget n (restart_process i p c s l).sub
unfolding restart_process enter_state emit
restart_process-Budget n i p c s l b = ground (
  arith,
  raise_alarm-Keeps i (crash_alarm p.name Severity.critical) s,
  raise_alarm-Keeps i (crash_alarm p.name Severity.warning) (update_process i delay_restart s),
  update_process-Keeps i delay_restart s,
)

restart_by_policy-Budget :
    (n : ℕ) (ws : List Wake) (i : ℕ) (p : Process) (c : ℕ) (s : Subsystem) (l : Locals)
    → Budget n s
    → Budget n (restart_by_policy ws i p c s l).sub
unfolding restart_by_policy enter_state
restart_by_policy-Budget n ws i p c s l b =
    let warned = raise_alarm i (crash_alarm p.name Severity.warning) s in
    let keeps = raise_alarm-Keeps i (crash_alarm p.name Severity.warning) s in
    let kept = Keeps-Budget n s warned keeps b in
    ground (
      arith,
      restart_process-Budget n i p c s l b,
      keeps,
      kept,
      raise_alarm-Keeps i (crash_alarm p.name Severity.critical) (enter_state OperState.broken c s),
      restart_subsystem-Budget n ws c warned l kept,
    )

after_oneshot-Budget :
    (n : ℕ) (env : Env) (ws : List Wake) (i : ℕ) (p : Process) (c : ℕ) (exited : Bool) (status : ℤ)
    (s : Subsystem) (l : Locals)
    → Budget n s
    → Budget n (after_oneshot env ws i p c exited status s l).sub
unfolding after_oneshot enter_state restart_unless_test_mode emit
after_oneshot-Budget n env ws i p c exited status s l b = ground (
  arith,
  raise_alarm-Keeps i (crash_alarm p.name Severity.critical) (enter_state OperState.broken c s),
)

restart_found-Budget :
    (n : ℕ) (env : Env) (ws : List Wake) (i : ℕ) (p : Process) (c : ℕ) (exited : Bool) (status : ℤ)
    (s : Subsystem) (l : Locals)
    → Budget n s
    → Budget n (restart_found env ws i p c exited status s l).sub
unfolding restart_found restart_unless_test_mode emit
restart_found-Budget n env ws i p c exited status s l b =
    let marked = mark_stopped i s in
    let kept = Keeps-Budget n s marked (mark_stopped-Keeps i s) b in
    ground (
      arith,
      after_oneshot-Budget n env ws i p c exited status marked l kept,
      restart_by_policy-Budget n ws i p c marked l kept,
    )

-- Whatever process stops, under whatever policy and wake-ups of the wait,
-- RestartIfPossibleAfterProcessCrash keeps the restarts of the subsystem within its limit, which is
-- not negative, and its restart delay between 1 and 32 seconds.
pub restart_after_crash-Budget :
    (n : ℕ) (env : Env) (ws : List Wake) (id c : ℕ) (exited : Bool) (status : ℤ) (s : Subsystem)
    (l : Locals)
    → Budget n s
    → Budget n (restart_after_crash env ws id c exited status s l).sub
unfolding restart_after_crash
restart_after_crash-Budget n env ws id c exited status s l b =
    elim (Option-cases (find_process id s)) [
      | inl missing ↦ rw (missing, restart_after_crash) (ground arith)
      | inr (i, found) ↦ elim (Option-cases (process_at i s)) [
        | inl missing ↦ rw (found, missing, restart_after_crash) (ground arith)
        | inr (p, there) ↦
            rw (found, there, restart_after_crash)
              (ground (arith, restart_found-Budget n env ws i p c exited status s l b))
      ]
    ]
