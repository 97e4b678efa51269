-- ===== src/Capcom/Process.antt =====
-- capcom/subsystem.h and subsystem.cc: a process of a subsystem, and the methods that touch only it.
-- Names, computes and process ids are strings that the code only compares: numbers here. What
-- ParseOptions and ParseStreams store is used by Launch alone and is left out.
use adastra.Prelude.{
  ℕ, ◌+◌, ◌*◌, Bool, true, false, ◌&&◌, ◌||◌, not, Option, none, some, ℤ, pos, ltb, ◌==◌,
  if◌then◌else◌,
}
use adastra.Capcom.Alarm.{Alarm, AlarmStatus}

pub data ProcessKind : Type 0 where
  static_process zygote virtual_process : ProcessKind

pub record Process : Type 0 where
  pub name : ℕ
  pub compute : ℕ
  pub kind : ProcessKind
  pub running : Bool
  pub maybe_connected : Bool
  pub process_id : ℕ
  pub pid : ℕ
  pub alarm : Alarm
  pub alarm_raised : Bool
  pub alarm_count : ℕ
  pub oneshot : Bool
  pub num_restarts : ℕ
  pub max_restarts : ℤ
  pub exited : Bool
  pub exit_status : ℤ
  pub restart_delay : ℕ

-- kMaxRestartDelay, in seconds.
abbrev pub max_restart_delay : ℕ
max_restart_delay = 32

abbrev pub is_zero : ℤ → Bool
is_zero (pos n) = n == 0
is_zero _ = false

-- Process::SetRunning, SetStopped, SetExit, ResetAlarmCount, ResetNumRestarts, IncNumRestarts.
unfoldable pub set_running : Process → Process
set_running p = record p { running = true }

unfoldable pub set_stopped : Process → Process
set_stopped p = record p { running = false }

unfoldable pub set_exit : Bool → ℤ → Process → Process
set_exit exited status p = record p { exited = exited; exit_status = status }

unfoldable pub reset_alarm_count : Process → Process
reset_alarm_count p = record p { alarm_count = 0 }

unfoldable pub reset_num_restarts : Process → Process
reset_num_restarts p = record p { num_restarts = 0 }

unfoldable pub inc_num_restarts : Process → Process
inc_num_restarts p = record p { num_restarts = p.num_restarts + 1 }

-- Process::IncRestartDelay: the process with the next delay, and the delay to use now.
unfoldable pub inc_restart_delay : Process → Process × ℕ
inc_restart_delay p =
    let doubled = p.restart_delay * 2 in
    (
      record p {
        restart_delay = if ltb max_restart_delay doubled then max_restart_delay else doubled;
      },
      p.restart_delay,
    )

-- Process::GetAlarm.
unfoldable pub get_alarm : Process → Option Alarm
get_alarm p = if p.alarm_raised then some p.alarm else none

-- Process::RaiseAlarm, up to the send: the process, and the alarm that is sent.
unfoldable pub raise : Alarm → Process → Process × Alarm
raise alarm p =
    let sent = record alarm { id = (alarm.name, alarm.type) } in
    (record p { alarm = sent; alarm_raised = true; alarm_count = p.alarm_count + 1 }, sent)

-- Process::ClearAlarm: the process, and the alarm that is sent, if one was raised.
unfoldable pub clear_raised : Process → Process × Option Alarm
clear_raised p =
    let sent = record p.alarm { status = AlarmStatus.cleared } in
    if p.alarm_raised
    then (record p { alarm = sent; alarm_raised = false }, some sent)
    else (p, none)

-- The test of AllProcessesRunning on one process.
unfoldable pub counts_as_running : Process → Bool
counts_as_running p = p.running || (p.oneshot && (not p.exited && is_zero p.exit_status))
