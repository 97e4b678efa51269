-- ===== src/Capcom/Message.antt =====
-- What reaches a subsystem's coroutine (capcom/subsystem.h, proto/control.proto), and what it does
-- to the rest of the system.
use adastra.Prelude.{ℕ, Bool, List, Option, ℤ}
use adastra.Capcom.States.{AdminState, OperState}
use adastra.Capcom.Alarm.{Alarm}

-- Message::Code.
pub data Code : Type 0 where
  change_admin report_oper abort restart : Code
  restart_processes restart_crashed_processes send_telemetry_command : Code

pub record Terminal : Type 0 where
  pub rows : ℕ
  pub cols : ℕ
  pub name : ℕ

-- `struct Message`. The union `state` is its two members; a sender that sets neither leaves them
-- zero-initialised. A process is named by its position in the receiver's `processes_`.
pub record Message : Type 0 where
  pub code : Code
  pub sender : ℕ
  pub client_id : ℕ
  pub admin : AdminState
  pub oper : OperState
  pub emergency_abort : Bool
  pub interactive : Bool
  pub output_fd : ℕ
  pub terminal : Terminal
  pub processes : List ℕ

-- A message with only its code set.
abbrev pub blank : Code → Message
blank code = record {
  code = code;
  sender = 0;
  client_id = 0;
  admin = AdminState.offline;
  oper = OperState.offline;
  emergency_abort = Bool.false;
  interactive = Bool.false;
  output_fd = 0;
  terminal = record { rows = 0; cols = 0; name = 0 };
  processes = List.[];
}

-- StopEvent::Reason.
pub data StopReason : Type 0 where
  unknown exit signal : StopReason

-- stagezero::control::Event. What is only passed on is a number that names its content.
pub data Event : Type 0 where
  connect : Event
  disconnect : ℕ → Event
  start : ℕ → Event
  stop : ℕ → StopReason → ℤ → Event
  output log parameter telemetry : ℕ → Event
  not_set : Event

-- The source of a wake-up with what the state's handler reads from it: an event or a message,
-- `none` where the read fails.
pub data Input : Type 0 where
  from_stagezero : Option Event → Input
  from_pipe : Option Message → Input

-- Calls that leave the subsystem.
pub data Effect : Type 0 where
  send_message : ℕ → Message → Effect
  status_event : AdminState → OperState → Effect
  output_event log_event parameter_event telemetry_event : ℕ → Effect
  write_output : ℕ → ℕ → Effect
  send_alarm : Alarm → Effect
  connect_coroutine : ℕ → Effect
  disconnect_main : ℕ → Effect
  stop_process : ℕ → Effect
  telemetry_command : ℕ → Effect
  restart_timer : ℕ → Effect
  abort_coroutine : Effect
  sleep : ℕ → Effect
