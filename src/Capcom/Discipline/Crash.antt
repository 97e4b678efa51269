-- ===== src/Capcom/Discipline/Crash.antt =====
-- capcom/state_machine.cc: RestartIfPossibleAfterProcessCrash and Abort hand over at most one state
-- coroutine.
use adastra.Prelude.{ℕ, ◌≡◌, Bool, true, false, List, arith, ℤ, Option-cases, inl, inr}
use adastra.Capcom.States.{OperState}
use adastra.Capcom.Process.{Process}
use adastra.Capcom.Alarm.{Severity}
use adastra.Capcom.Subsystem.{
  Env, Subsystem, emit, find_process, process_at, update_process, mark_stopped, raise_alarm,
}
use adastra.Capcom.Machine.{Turn, Locals, Wake, enter_state, abort}
use adastra.Capcom.Restart.{
  restart_subsystem, restart_process, restart_by_policy, restart_unless_test_mode, after_oneshot,
  restart_found, restart_after_crash, crash_alarm, delay_restart,
}
use adastra.Capcom.Keeps.{mark_stopped-Keeps, raise_alarm-Keeps, update_process-Keeps}
use adastra.Capcom.Discipline.{may_follow, next_ok, Same, Disciplined}
use adastra.Capcom.Discipline.Waiting.{no_abort, wait_for_restart-Same}

-- The states from which a crash may lead on.
pub record CrashState (q : OperState) : Type 0 where
  pub to_broken : may_follow q OperState.broken ≡ true
  pub to_degraded : may_follow q OperState.degraded ≡ true
  pub to_restarting : may_follow q OperState.restarting ≡ true

pub Disciplined-Same :
    (q : OperState) (s t : Subsystem) (u : Turn) → Same s t → Disciplined q t u → Disciplined q s u
Disciplined-Same q s t u h k = ground arith

module _ (q : OperState) (edges : CrashState q) where
  restart_subsystem-Disciplined :
      (ws : List Wake) (c : ℕ) (s : Subsystem) (l : Locals)
      → no_abort ws ≡ true
      → Disciplined q s (restart_subsystem ws c s l)
  unfolding restart_subsystem enter_state
  restart_subsystem-Disciplined ws c s l h = ground (arith, wait_for_restart-Same ws s h)

  restart_process-Disciplined :
      (i : ℕ) (p : Process) (c : ℕ) (s : Subsystem) (l : Locals)
      → next_ok q l.next_state ≡ true
      → Disciplined q s (restart_process i p c s l)
  unfolding restart_process enter_state emit
  restart_process-Disciplined i p c s l h = ground (
    arith,
    raise_alarm-Keeps i (crash_alarm p.name Severity.critical) s,
    raise_alarm-Keeps i (crash_alarm p.name Severity.warning) (update_process i delay_restart s),
    update_process-Keeps i delay_restart s,
  )

  restart_by_policy-Disciplined :
      (ws : List Wake) (i : ℕ) (p : Process) (c : ℕ) (s : Subsystem) (l : Locals)
      → no_abort ws ≡ true
      → next_ok q l.next_state ≡ true
      → Disciplined q s (restart_by_policy ws i p c s l)
  unfolding restart_by_policy enter_state
  restart_by_policy-Disciplined ws i p c s l h k =
      let warned = raise_alarm i (crash_alarm p.name Severity.warning) s in
      let keeps = raise_alarm-Keeps i (crash_alarm p.name Severity.warning) s in
      ground (
        arith,
        restart_process-Disciplined i p c s l k,
        keeps,
        raise_alarm-Keeps i (crash_alarm p.name Severity.critical)
            (enter_state OperState.broken c s),
        Disciplined-Same q s warned (restart_subsystem ws c warned l)
            (keeps.coroutines, keeps.oper_state) (restart_subsystem-Disciplined ws c warned l h),
      )

  after_oneshot-Disciplined :
      (env : Env) (ws : List Wake) (i : ℕ) (p : Process) (c : ℕ) (exited : Bool) (status : ℤ)
      (s : Subsystem) (l : Locals)
      → env.test_mode ≡ false
      → next_ok q l.next_state ≡ true
      → Disciplined q s (after_oneshot env ws i p c exited status s l)
  unfolding after_oneshot enter_state
  after_oneshot-Disciplined env ws i p c exited status s l t k = ground (
    arith,
    raise_alarm-Keeps i (crash_alarm p.name Severity.critical) (enter_state OperState.broken c s),
  )

  restart_found-Disciplined :
      (env : Env) (ws : List Wake) (i : ℕ) (p : Process) (c : ℕ) (exited : Bool) (status : ℤ)
      (s : Subsystem) (l : Locals)
      → env.test_mode ≡ false
      → no_abort ws ≡ true
      → next_ok q l.next_state ≡ true
      → Disciplined q s (restart_found env ws i p c exited status s l)
  unfolding restart_found restart_unless_test_mode emit
  restart_found-Disciplined env ws i p c exited status s l t h k =
      let marked = mark_stopped i s in
      let same : Same s marked =
        let keeps = mark_stopped-Keeps i s in (keeps.coroutines, keeps.oper_state) in
      ground (
        arith,
        Disciplined-Same q s marked (after_oneshot env ws i p c exited status marked l) same
            (after_oneshot-Disciplined env ws i p c exited status marked l t k),
        Disciplined-Same q s marked (restart_by_policy ws i p c marked l) same
            (restart_by_policy-Disciplined ws i p c marked l h k),
      )

  pub restart_after_crash-Disciplined :
      (env : Env) (ws : List Wake) (id c : ℕ) (exited : Bool) (status : ℤ) (s : Subsystem)
      (l : Locals)
      → env.test_mode ≡ false
      → no_abort ws ≡ true
      → next_ok q l.next_state ≡ true
      → Disciplined q s (restart_after_crash env ws id c exited status s l)
  unfolding restart_after_crash
  restart_after_crash-Disciplined env ws id c exited status s l t h k =
      elim (Option-cases (find_process id s)) [
        | inl missing ↦ rw (missing, restart_after_crash) (ground arith)
        | inr (i, found) ↦ elim (Option-cases (process_at i s)) [
          | inl missing ↦ rw (found, missing, restart_after_crash) (ground arith)
          | inr (p, there) ↦
              rw (found, there, restart_after_crash)
                (ground (arith, restart_found-Disciplined env ws i p c exited status s l t h k))
        ]
      ]

pub abort-Disciplined :
    (q : OperState) (emergency : Bool) (s : Subsystem) (l : Locals)
    → may_follow q OperState.offline ≡ true
    → next_ok q l.next_state ≡ true
    → Disciplined q s (abort emergency s l)
unfolding abort enter_state
abort-Disciplined q emergency s l h k = ground arith
