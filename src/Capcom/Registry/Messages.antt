-- ===== src/Capcom/Registry/Messages.antt =====
-- proto/capcom.proto, AddSubsystemRequest, and what capcom/subsystem.h constructs of it.
use adastra.Prelude.{ℕ, Bool, true, false, none, List, [], ℤ, pos, Text}
use adastra.Common.Stream.Proto.{StreamControl}
use adastra.Capcom.States.{AdminState, OperState}
use adastra.Capcom.Alarm.{Alarm, AlarmType, Severity, Reason, AlarmStatus}
use adastra.Capcom.Process.{Process, ProcessKind}
use adastra.Capcom.Subsystem.{Subsystem, RestartPolicy}

-- The oneof `proc` of proto::Process.
pub data ProcCase : Type 0 where
  static_process : Text → ProcCase
  zygote : Text → ProcCase
  virtual_process : ℕ → Text → ProcCase
  not_set : ProcCase

-- proto::Process, with the options that Process keeps.
pub record ProcessRequest : Type 0 where
  pub name : ℕ
  pub oneshot : Bool
  pub proc : ProcCase
  pub compute : ℕ
  pub streams : List StreamControl
  pub max_restarts : ℤ

-- The enumerators of proto::AddSubsystemRequest::RestartPolicy, and other numbers.
pub data PolicyProto : Type 0 where
  automatic manual process_only other : PolicyProto

pub record AddSubsystemRequest : Type 0 where
  pub name : ℕ
  pub processes : List ProcessRequest
  pub streams : List StreamControl
  pub children : List ℕ
  pub max_restarts : ℤ
  pub critical : Bool
  pub restart_policy : PolicyProto

-- The errors of the response.
pub data AddError : Type 0 where
  unknown_child no_such_compute missing_executable zygote_exists : ℕ → AddError
  missing_zygote missing_main_func no_such_zygote : ℕ → AddError
  bad_stream bad_streams : AddError
  subsystem_exists : ℕ → AddError

abbrev pub is_unknown_child : AddError → Bool
is_unknown_child (AddError.unknown_child name) = true
is_unknown_child _ = false

unfoldable pub policy_of : PolicyProto → RestartPolicy
policy_of PolicyProto.manual = RestartPolicy.manual
policy_of PolicyProto.process_only = RestartPolicy.process_only
policy_of _ = RestartPolicy.automatic

abbrev pub no_alarm : Alarm
no_alarm = record {
  id = (0, AlarmType.unknown);
  name = 0;
  type = AlarmType.unknown;
  severity = Severity.unknown;
  reason = Reason.unknown;
  status = AlarmStatus.unknown;
}

-- A Process as constructed, with its options read and SetMaxRestarts called.
abbrev pub new_process : ProcessRequest → ℕ → ProcessKind → Process
new_process req compute kind = record {
  name = req.name;
  compute = compute;
  kind = kind;
  running = false;
  maybe_connected = false;
  process_id = 0;
  pid = 0;
  alarm = no_alarm;
  alarm_raised = false;
  alarm_count = 0;
  oneshot = req.oneshot;
  num_restarts = 0;
  max_restarts = req.max_restarts;
  exited = false;
  exit_status = pos 0;
  restart_delay = 1;
}

-- The constructor of Subsystem.
abbrev pub new_subsystem : ℕ → AddSubsystemRequest → Subsystem
new_subsystem address req = record {
  this = address;
  running = false;
  admin_state = AdminState.offline;
  oper_state = OperState.offline;
  prev_oper_state = OperState.offline;
  processes = [];
  process_map = [];
  process_id_map = [];
  children = [];
  parents = [];
  active_clients = [];
  num_restarts = 0;
  max_restarts = req.max_restarts;
  critical = req.critical;
  restart_count = 0;
  restart_policy = policy_of req.restart_policy;
  processes_to_restart = [];
  alarm_count = 0;
  restart_delay = 1;
  umbilicals = [];
  interactive = false;
  interactive_output = none;
  interactive_terminal = record { rows = 0; cols = 0; name = 0 };
  coroutines = [];
  effects = [];
}
