-- ===== src/Common/Conversions/Statuses.antt =====
-- common/subsystem_status.h and subsystem_status.cc.
use adastra.Prelude.{◌≡◌, refl, Bool, Option, none, some, List, [], ◌∷◌, ◌++◌, map, ℤ, Text, arith}
use adastra.Capcom.States.{AdminState, OperState}

pub data ProcessType : Type 0 where
  static zygote virtual : ProcessType

pub record ProcessStatus : Type 0 where
  pub name : Text
  pub process_id : Text
  pub pid : ℤ
  pub running : Bool
  pub type : ProcessType
  pub compute : Text
  pub subsystem : Text
  pub alarm_count : ℤ

pub record SubsystemStatus : Type 0 where
  pub subsystem : Text
  pub admin_state : AdminState
  pub oper_state : OperState
  pub processes : List ProcessStatus
  pub alarm_count : ℤ
  pub restart_count : ℤ

pub data AdminStateProto : Type 0 where
  no_admin_state admin_offline admin_online other : AdminStateProto

pub data OperStateProto : Type 0 where
  no_oper_state oper_offline oper_starting_children oper_starting_processes oper_online :
      OperStateProto
  oper_stopping_processes oper_stopping_children oper_restarting oper_broken : OperStateProto
  oper_degraded oper_restarting_processes oper_connecting other : OperStateProto

pub data ProcessTypeProto : Type 0 where
  static zygote virtual other : ProcessTypeProto

pub record ProcessProto : Type 0 where
  pub name : Text
  pub process_id : Text
  pub pid : ℤ
  pub running : Bool
  pub type : ProcessTypeProto
  pub compute : Text
  pub subsystem : Text
  pub alarm_count : ℤ

pub record SubsystemStatusProto : Type 0 where
  pub name : Text
  pub admin_state : AdminStateProto
  pub oper_state : OperStateProto
  pub processes : List ProcessProto
  pub alarm_count : ℤ
  pub restart_count : ℤ

unfoldable pub admin_to_proto : AdminState → AdminStateProto
admin_to_proto AdminState.offline = AdminStateProto.admin_offline
admin_to_proto AdminState.online = AdminStateProto.admin_online

unfoldable pub oper_to_proto : OperState → OperStateProto
oper_to_proto OperState.broken = OperStateProto.oper_broken
oper_to_proto OperState.degraded = OperStateProto.oper_degraded
oper_to_proto OperState.offline = OperStateProto.oper_offline
oper_to_proto OperState.online = OperStateProto.oper_online
oper_to_proto OperState.restarting = OperStateProto.oper_restarting
oper_to_proto OperState.restarting_processes = OperStateProto.oper_restarting_processes
oper_to_proto OperState.starting_children = OperStateProto.oper_starting_children
oper_to_proto OperState.starting_processes = OperStateProto.oper_starting_processes
oper_to_proto OperState.connecting = OperStateProto.oper_connecting
oper_to_proto OperState.stopping_children = OperStateProto.oper_stopping_children
oper_to_proto OperState.stopping_processes = OperStateProto.oper_stopping_processes

unfoldable pub process_type_to_proto : ProcessType → ProcessTypeProto
process_type_to_proto ProcessType.static = ProcessTypeProto.static
process_type_to_proto ProcessType.zygote = ProcessTypeProto.zygote
process_type_to_proto ProcessType.virtual = ProcessTypeProto.virtual

unfoldable pub process_to_proto : ProcessStatus → ProcessProto
unfolding process_type_to_proto
process_to_proto p = record {
  name = p.name;
  process_id = p.process_id;
  pid = p.pid;
  running = p.running;
  type = process_type_to_proto p.type;
  compute = p.compute;
  subsystem = p.subsystem;
  alarm_count = p.alarm_count;
}

-- SubsystemStatus::ToProto into a message with no field set.
unfoldable pub subsystem_status_to_proto : SubsystemStatus → SubsystemStatusProto
unfolding admin_to_proto oper_to_proto process_to_proto
subsystem_status_to_proto s = record {
  name = s.subsystem;
  admin_state = admin_to_proto s.admin_state;
  oper_state = oper_to_proto s.oper_state;
  processes = map process_to_proto s.processes;
  alarm_count = s.alarm_count;
  restart_count = s.restart_count;
}

unfoldable pub admin_from_proto : AdminStateProto → Option AdminState
admin_from_proto AdminStateProto.admin_offline = some AdminState.offline
admin_from_proto AdminStateProto.admin_online = some AdminState.online
admin_from_proto _ = none

unfoldable pub oper_from_proto : OperStateProto → Option OperState
oper_from_proto OperStateProto.oper_offline = some OperState.offline
oper_from_proto OperStateProto.oper_starting_children = some OperState.starting_children
oper_from_proto OperStateProto.oper_connecting = some OperState.connecting
oper_from_proto OperStateProto.oper_starting_processes = some OperState.starting_processes
oper_from_proto OperStateProto.oper_online = some OperState.online
oper_from_proto OperStateProto.oper_stopping_children = some OperState.stopping_children
oper_from_proto OperStateProto.oper_stopping_processes = some OperState.stopping_processes
oper_from_proto OperStateProto.oper_restarting = some OperState.restarting
oper_from_proto OperStateProto.oper_restarting_processes = some OperState.restarting_processes
oper_from_proto OperStateProto.oper_broken = some OperState.broken
oper_from_proto OperStateProto.oper_degraded = some OperState.degraded
oper_from_proto _ = none

unfoldable pub process_type_from_proto : ProcessTypeProto → ProcessType
process_type_from_proto ProcessTypeProto.zygote = ProcessType.zygote
process_type_from_proto ProcessTypeProto.virtual = ProcessType.virtual
process_type_from_proto _ = ProcessType.static

unfoldable pub process_from_proto : ProcessProto → ProcessStatus
unfolding process_type_from_proto
process_from_proto p = record {
  name = p.name;
  process_id = p.process_id;
  pid = p.pid;
  running = p.running;
  type = process_type_from_proto p.type;
  compute = p.compute;
  subsystem = p.subsystem;
  alarm_count = p.alarm_count;
}

-- SubsystemStatus::FromProto, which appends to the processes that the status has; none for an error.
unfoldable pub subsystem_status_from_proto :
    SubsystemStatusProto → List ProcessStatus → Option SubsystemStatus
unfolding admin_from_proto oper_from_proto process_from_proto
subsystem_status_from_proto p before = elim (admin_from_proto p.admin_state) [
  | none ↦ none
  | some admin ↦ elim (oper_from_proto p.oper_state) [
    | none ↦ none
    | some oper ↦ some (record {
      subsystem = p.name;
      admin_state = admin;
      oper_state = oper;
      processes = before ++ map process_from_proto p.processes;
      alarm_count = p.alarm_count;
      restart_count = p.restart_count;
    })
  ]
]

process-roundtrip : (p : ProcessStatus) → process_from_proto (process_to_proto p) ≡ p
unfolding process_from_proto process_to_proto
process-roundtrip p = ground arith

processes-roundtrip :
    (ps : List ProcessStatus) → map process_from_proto (map process_to_proto ps) ≡ ps
processes-roundtrip [] = refl
processes-roundtrip (p ∷ ps) = cc (process-roundtrip p, processes-roundtrip ps)

admin-roundtrip : (a : AdminState) → admin_from_proto (admin_to_proto a) ≡ some a
unfolding admin_from_proto admin_to_proto
admin-roundtrip a = ground arith

oper-roundtrip : (o : OperState) → oper_from_proto (oper_to_proto o) ≡ some o
unfolding oper_from_proto oper_to_proto
oper-roundtrip o = ground arith

pub subsystem_status-roundtrip :
    (s : SubsystemStatus) → subsystem_status_from_proto (subsystem_status_to_proto s) [] ≡ some s
unfolding subsystem_status_from_proto subsystem_status_to_proto
subsystem_status-roundtrip s = ground (
  arith,
  admin-roundtrip s.admin_state,
  oper-roundtrip s.oper_state,
  processes-roundtrip s.processes,
)
