-- ===== src/Capcom/Tests/Samples.antt =====
-- A small system for the examples: subsystem 7 stands above the child 8 and below the parent 9, and
-- runs one process.
use adastra.Prelude.{true, false, none, some, [], ◌∷◌, pos}
use adastra.Capcom.States.{AdminState, OperState}
use adastra.Capcom.Alarm.{Alarm, AlarmType, Severity, Reason, AlarmStatus}
use adastra.Capcom.Umbilical.{Umbilical, UmbilicalState}
use adastra.Capcom.Process.{Process, ProcessKind}
use adastra.Capcom.Message.{Message, Code, blank}
use adastra.Capcom.Subsystem.{Env, Subsystem, RestartPolicy}
use adastra.Capcom.Machine.{Locals}

abbrev pub quiet : Alarm
quiet = record {
  id = (0, AlarmType.unknown);
  name = 0;
  type = AlarmType.unknown;
  severity = Severity.unknown;
  reason = Reason.unknown;
  status = AlarmStatus.unknown;
}

abbrev pub camera : Process
camera = record {
  name = 3;
  compute = 1;
  kind = ProcessKind.static_process;
  running = true;
  maybe_connected = true;
  process_id = 33;
  pid = 1033;
  alarm = quiet;
  alarm_raised = false;
  alarm_count = 0;
  oneshot = false;
  num_restarts = 0;
  max_restarts = pos 2;
  exited = false;
  exit_status = pos 0;
  restart_delay = 1;
}

abbrev pub up : Umbilical
up = record {
  state = UmbilicalState.connected;
  client_connected = true;
  static_refs = pos 1;
  dynamic_refs = pos 1;
  is_static = false;
}

-- As the constructor leaves it.
abbrev pub fresh : Subsystem
fresh = record {
  this = 7;
  running = false;
  admin_state = AdminState.offline;
  oper_state = OperState.offline;
  prev_oper_state = OperState.offline;
  processes = record camera { running = false; maybe_connected = false } ∷ [];
  process_map = (3, 0) ∷ [];
  process_id_map = [];
  children = 8 ∷ [];
  parents = 9 ∷ [];
  active_clients = [];
  num_restarts = 0;
  max_restarts = pos 3;
  critical = false;
  restart_count = 0;
  restart_policy = RestartPolicy.automatic;
  processes_to_restart = [];
  alarm_count = 0;
  restart_delay = 1;
  umbilicals = [];
  interactive = false;
  interactive_output = none;
  interactive_terminal = record { rows = 0; cols = 0; name = 0 };
  coroutines = [];
  effects = [];
}

-- Online for client 5, its process running.
abbrev pub flying : Subsystem
flying = record fresh {
  running = true;
  admin_state = AdminState.online;
  oper_state = OperState.online;
  prev_oper_state = OperState.starting_processes;
  processes = camera ∷ [];
  process_id_map = (33, 0) ∷ [];
  active_clients = 32 ∷ [];
  umbilicals = (1, up) ∷ [];
}

abbrev pub in_state : OperState → Subsystem → Subsystem
in_state q s = record s { oper_state = q }

-- Every other subsystem is online, and nobody aborts.
abbrev pub calm : Env
calm = record {
  emergency_aborting = false;
  test_mode = false;
  oper_of = λ id. OperState.online;
  admin_of = λ id. AdminState.online;
  clients_of = λ id. [];
  launch = λ p. some (33, 1033);
}

abbrev pub locals_for : OperState → Locals
locals_for q = record {
  client_id = 5;
  next_state = q;
  child_notified = (8, false) ∷ [];
  offline_requests = [];
  started_processes = [];
}

-- Client 5 asks the subsystem to go online, and to go offline.
abbrev pub go_online : Message
go_online = record (blank Code.change_admin) { client_id = 5; admin = AdminState.online }

abbrev pub go_offline : Message
go_offline = record (blank Code.change_admin) { client_id = 5; admin = AdminState.offline }

-- The child 8 reports that it is online.
abbrev pub child_reports : OperState → Message
child_reports q = record (blank Code.report_oper) { sender = 8; oper = q }
