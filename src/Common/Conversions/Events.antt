-- ===== src/Common/Conversions/Events.antt =====
-- common/event.h and event.cc: events, and which of them a mask lets through.
use adastra.Prelude.{ℕ, ◌%◌, ◌/◌, ◌^◌, Bool, not, Option, none, some, [], ℤ, Text, ◌==◌}
use adastra.Capcom.Alarm.{Alarm}
use adastra.Common.Conversions.Alarms.{AlarmProto, alarm_to_proto, alarm_from_proto}
use adastra.Common.Conversions.Statuses.{
  SubsystemStatus, SubsystemStatusProto, subsystem_status_to_proto, subsystem_status_from_proto,
}
use adastra.Common.Conversions.Logs.{LogMessage, LogMessageProto, log_to_proto, log_from_proto}
use adastra.Common.Conversions.Values.{
  Parameter, ParameterProto, parameter_to_proto, parameter_from_proto,
}

pub record Output : Type 0 where
  pub process_id : Text
  pub data_of : Text
  pub fd : ℤ
  pub name : Text

-- Event: its type and the alternative of the variant that goes with it. A telemetry event is only
-- copied.
pub data Event : Type 0 where
  subsystem_status : SubsystemStatus → Event
  alarm : Alarm → Event
  output : Output → Event
  log : LogMessage → Event
  parameter_update : Parameter → Event
  parameter_delete : Text → Event
  telemetry : ℕ → Event

-- proto::parameters::ParameterEvent.
pub data ParameterEventProto : Type 0 where
  not_set : ParameterEventProto
  update : ParameterProto → ParameterEventProto
  delete : Text → ParameterEventProto

pub data EventProto : Type 0 where
  not_set : EventProto
  subsystem_status : SubsystemStatusProto → EventProto
  alarm : AlarmProto → EventProto
  output : Output → EventProto
  log : LogMessageProto → EventProto
  parameter : ParameterEventProto → EventProto
  telemetry : ℕ → EventProto

-- Event::ToProto.
unfoldable pub event_to_proto : Event → Option EventProto
event_to_proto (Event.subsystem_status s) =
    some (EventProto.subsystem_status (subsystem_status_to_proto s))
event_to_proto (Event.alarm a) = some (EventProto.alarm (alarm_to_proto a))
event_to_proto (Event.output o) = some (EventProto.output o)
event_to_proto (Event.log m) = some (EventProto.log (log_to_proto m))
event_to_proto (Event.parameter_update p) = elim (parameter_to_proto p) [
  | none ↦ none
  | some q ↦ some (EventProto.parameter (update q))
]
event_to_proto (Event.parameter_delete name) = some (EventProto.parameter (delete name))
event_to_proto (Event.telemetry t) = some (EventProto.telemetry t)

unfoldable pub parameter_event_from_proto : ParameterEventProto → Option Event
parameter_event_from_proto ParameterEventProto.not_set = none
parameter_event_from_proto (update q) = some (Event.parameter_update (parameter_from_proto q))
parameter_event_from_proto (delete name) = some (Event.parameter_delete name)

-- Event::FromProto; none for an error.
unfoldable pub event_from_proto : EventProto → Option Event
unfolding parameter_event_from_proto
event_from_proto EventProto.not_set = none
event_from_proto (EventProto.subsystem_status p) = elim (subsystem_status_from_proto p []) [
  | none ↦ none
  | some s ↦ some (Event.subsystem_status s)
]
event_from_proto (EventProto.alarm p) = some (Event.alarm (alarm_from_proto p))
event_from_proto (EventProto.output o) = some (Event.output o)
event_from_proto (EventProto.log p) = some (Event.log (log_from_proto p))
event_from_proto (EventProto.parameter p) = parameter_event_from_proto p
event_from_proto (EventProto.telemetry t) = some (Event.telemetry t)

-- `(mask & (1 << bit)) != 0`, for a mask read as an unsigned word.
abbrev pub has_bit : ℕ → ℕ → Bool
has_bit mask bit = not (mask / 2 ^ bit % 2 == 0)

-- Event::IsMaskedIn, the constants as positions of bits.
unfoldable pub is_masked_in : ℕ → Event → Bool
is_masked_in mask (Event.subsystem_status s) = has_bit mask 0
is_masked_in mask (Event.alarm a) = has_bit mask 1
is_masked_in mask (Event.log m) = has_bit mask 2
is_masked_in mask (Event.output o) = has_bit mask 3
is_masked_in mask (Event.parameter_update p) = has_bit mask 4
is_masked_in mask (Event.parameter_delete name) = has_bit mask 4
is_masked_in mask (Event.telemetry t) = has_bit mask 5
