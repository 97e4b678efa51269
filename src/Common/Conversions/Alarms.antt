-- ===== src/Common/Conversions/Alarms.antt =====
-- common/alarm.cc: Alarm::ToProto and Alarm::FromProto, without the details.
use adastra.Prelude.{ℕ, ◌≡◌, arith}
use adastra.Capcom.Alarm.{Alarm, AlarmType, Severity, Reason, AlarmStatus}

pub data TypeProto : Type 0 where
  unknown_type subsystem process system other : TypeProto

pub data SeverityProto : Type 0 where
  unknown_severity warning error critical other : SeverityProto

pub data ReasonProto : Type 0 where
  unknown_reason crashed broken emergency_abort other : ReasonProto

pub data StatusProto : Type 0 where
  unknown_status raised cleared other : StatusProto

pub record AlarmProto : Type 0 where
  pub id : ℕ × AlarmType
  pub name : ℕ
  pub type : TypeProto
  pub severity : SeverityProto
  pub reason : ReasonProto
  pub status : StatusProto

unfoldable pub type_to_proto : AlarmType → TypeProto
type_to_proto AlarmType.process = TypeProto.process
type_to_proto AlarmType.subsystem = TypeProto.subsystem
type_to_proto AlarmType.system = TypeProto.system
type_to_proto AlarmType.unknown = TypeProto.unknown_type

unfoldable pub severity_to_proto : Severity → SeverityProto
severity_to_proto Severity.warning = SeverityProto.warning
severity_to_proto Severity.error = SeverityProto.error
severity_to_proto Severity.critical = SeverityProto.critical
severity_to_proto Severity.unknown = SeverityProto.unknown_severity

unfoldable pub reason_to_proto : Reason → ReasonProto
reason_to_proto Reason.crashed = ReasonProto.crashed
reason_to_proto Reason.broken = ReasonProto.broken
reason_to_proto Reason.emergency_abort = ReasonProto.emergency_abort
reason_to_proto Reason.unknown = ReasonProto.unknown_reason

unfoldable pub status_to_proto : AlarmStatus → StatusProto
status_to_proto AlarmStatus.raised = StatusProto.raised
status_to_proto AlarmStatus.cleared = StatusProto.cleared
status_to_proto AlarmStatus.unknown = StatusProto.unknown_status

-- Alarm::ToProto.
unfoldable pub alarm_to_proto : Alarm → AlarmProto
unfolding type_to_proto severity_to_proto reason_to_proto status_to_proto
alarm_to_proto a = record {
  id = a.id;
  name = a.name;
  type = type_to_proto a.type;
  severity = severity_to_proto a.severity;
  reason = reason_to_proto a.reason;
  status = status_to_proto a.status;
}

unfoldable pub type_from_proto : TypeProto → AlarmType
type_from_proto TypeProto.process = AlarmType.process
type_from_proto TypeProto.subsystem = AlarmType.subsystem
type_from_proto TypeProto.system = AlarmType.system
type_from_proto _ = AlarmType.unknown

unfoldable pub severity_from_proto : SeverityProto → Severity
severity_from_proto SeverityProto.warning = Severity.warning
severity_from_proto SeverityProto.error = Severity.error
severity_from_proto SeverityProto.critical = Severity.critical
severity_from_proto _ = Severity.unknown

unfoldable pub reason_from_proto : ReasonProto → Reason
reason_from_proto ReasonProto.crashed = Reason.crashed
reason_from_proto ReasonProto.broken = Reason.broken
reason_from_proto ReasonProto.emergency_abort = Reason.emergency_abort
reason_from_proto _ = Reason.unknown

unfoldable pub status_from_proto : StatusProto → AlarmStatus
status_from_proto StatusProto.raised = AlarmStatus.raised
status_from_proto StatusProto.cleared = AlarmStatus.cleared
status_from_proto _ = AlarmStatus.unknown

-- Alarm::FromProto.
unfoldable pub alarm_from_proto : AlarmProto → Alarm
unfolding type_from_proto severity_from_proto reason_from_proto status_from_proto
alarm_from_proto p = record {
  id = p.id;
  name = p.name;
  type = type_from_proto p.type;
  severity = severity_from_proto p.severity;
  reason = reason_from_proto p.reason;
  status = status_from_proto p.status;
}

pub alarm-roundtrip : (a : Alarm) → alarm_from_proto (alarm_to_proto a) ≡ a
unfolding alarm_from_proto alarm_to_proto
alarm-roundtrip a = ground arith
