-- ===== src/Capcom/Subsystem.antt =====
-- capcom/subsystem.h and subsystem.cc: the state of a subsystem and the methods that its state
-- machine calls. Log lines are left out; a call that leaves the subsystem is put in front of
-- `effects`, so the newest stands first.
pub mod Processes
pub mod Laws
use adastra.Prelude.{
  ℕ, zero, suc, ◌+◌, Bool, true, false, ◌&&◌, not, Option, none, some, List, [], ◌∷◌, ℤ, ◌==◌,
  if◌then◌else◌, get_elem?, modify, all_of, lookup, insert, erase,
}
use adastra.Capcom.States.{AdminState, OperState}
use adastra.Capcom.BitSet.{BitSet}
use adastra.Capcom.Alarm.{Alarm}
use adastra.Capcom.Umbilical.{Umbilical, precondition, disconnect, is_connected}
use adastra.Capcom.Process.{
  Process, set_stopped, set_running, set_exit, raise, clear_raised, counts_as_running,
  reset_num_restarts, reset_alarm_count,
}
use adastra.Capcom.Message.{
  Message, Terminal, Effect, Code, Event, blank, send_message, status_event, output_event,
  log_event, parameter_event, telemetry_event, write_output, send_alarm, connect_coroutine,
  disconnect_main, stop_process, telemetry_command,
}

pub data RestartPolicy : Type 0 where
  automatic manual process_only : RestartPolicy

-- The rest of the system as the coroutine of one subsystem reads it.
pub record Env : Type 0 where
  pub emergency_aborting : Bool
  pub test_mode : Bool
  pub oper_of : ℕ → OperState
  pub admin_of : ℕ → AdminState
  pub clients_of : ℕ → BitSet
  -- The answer of the stagezero client to the launch of a process: its id and pid.
  pub launch : Process → Option (ℕ × ℕ)

pub record Subsystem : Type 0 where
  pub this : ℕ
  pub running : Bool
  pub admin_state : AdminState
  pub oper_state : OperState
  pub prev_oper_state : OperState
  pub processes : List Process
  -- Positions in `processes`, by name and by process id.
  pub process_map : List (ℕ × ℕ)
  pub process_id_map : List (ℕ × ℕ)
  pub children : List ℕ
  pub parents : List ℕ
  pub active_clients : BitSet
  pub num_restarts : ℕ
  pub max_restarts : ℤ
  pub critical : Bool
  pub restart_count : ℕ
  pub restart_policy : RestartPolicy
  pub processes_to_restart : List ℕ
  pub alarm_count : ℕ
  pub restart_delay : ℕ
  pub umbilicals : List (ℕ × Umbilical)
  pub interactive : Bool
  pub interactive_output : Option ℕ
  pub interactive_terminal : Terminal
  -- The state coroutines handed to the scheduler, with the client that each is entered for.
  pub coroutines : List (OperState × ℕ)
  pub effects : List Effect

-- kNoClient.
abbrev pub no_client : ℕ
no_client = 4294967295

unfoldable pub emit : Effect → Subsystem → Subsystem
emit e s = record s { effects = e ∷ s.effects }

-- capcom_.SendSubsystemStatusEvent(this).
unfoldable pub send_status : Subsystem → Subsystem
send_status s = record s { effects = status_event s.admin_state s.oper_state ∷ s.effects }

unfoldable pub send_all : Message → List ℕ → List Effect → List Effect
send_all m [] effects = effects
send_all m (d ∷ ds) effects = send_all m ds (send_message d m ∷ effects)

-- Subsystem::NotifyParents.
unfoldable pub notify_parents : Subsystem → Subsystem
notify_parents s =
    let m = record (blank Code.report_oper) { sender = s.this; oper = s.oper_state } in
    record s { effects = send_all m s.parents s.effects }

-- Subsystem::SendToChildren.
unfoldable pub send_to_children : AdminState → ℕ → Subsystem → Subsystem
send_to_children admin client_id s =
    let m = record (blank Code.change_admin) {
      sender = s.this;
      client_id = client_id;
      admin = admin;
    } in
    record s { effects = send_all m s.children s.effects }

-- Subsystem::PropagateTelemetryCommandMessage.
unfoldable pub propagate_telemetry : Message → Subsystem → Subsystem
propagate_telemetry m s = record s { effects = send_all m s.children s.effects }

-- Subsystem::SendOutput.
unfoldable pub send_output : ℕ → Subsystem → Subsystem
send_output payload s = elim s.interactive_output [
  | none ↦ record s { effects = output_event payload ∷ s.effects }
  | some fd ↦ record s { effects = write_output fd payload ∷ s.effects }
]

-- Subsystem::FindUmbilical.
unfoldable pub find_umbilical : ℕ → Subsystem → Option Umbilical
find_umbilical compute s = lookup compute s.umbilicals

-- Subsystem::ConnectUmbilical up to the coroutine that it spawns.
unfoldable pub connect_umbilical : ℕ → Subsystem → Subsystem
unfolding find_umbilical
connect_umbilical compute s = elim (find_umbilical compute s) [
  | none ↦ s
  | some u ↦
      let (u', was_closed) = precondition u in
      let t = record s { umbilicals = insert compute u' s.umbilicals } in
      if was_closed then record t { effects = connect_coroutine compute ∷ t.effects } else t
]

-- Subsystem::DisconnectUmbilical.
unfoldable pub disconnect_umbilical : ℕ → Subsystem → Subsystem
unfolding find_umbilical
disconnect_umbilical compute s = elim (find_umbilical compute s) [
  | none ↦ s
  | some u ↦ record s {
    umbilicals = insert compute (disconnect false u) s.umbilicals;
    effects = disconnect_main compute ∷ s.effects;
  }
]

-- Process::Connect and Process::Disconnect, on a process of the subsystem.
unfoldable pub process_connect : Process → Subsystem → Process × Subsystem
process_connect p s =
    if p.maybe_connected
    then (p, s)
    else (record p { maybe_connected = true }, connect_umbilical p.compute s)

unfoldable pub process_disconnect : Process → Subsystem → Process × Subsystem
process_disconnect p s =
    if p.maybe_connected
    then (record p { running = false; maybe_connected = false }, disconnect_umbilical p.compute s)
    else (p, s)

-- Process::Stop. A failed call of the client is only logged by the callers.
unfoldable pub process_stop : Process → Subsystem → Process × Subsystem
unfolding find_umbilical
process_stop p s = (
  reset_num_restarts p,
  elim (find_umbilical p.compute s) [
    | none ↦ s
    | some u ↦ record s { effects = stop_process p.process_id ∷ s.effects }
  ],
)

-- Process::IsConnected.
unfoldable pub process_connected : Subsystem → Process → Bool
unfolding find_umbilical
process_connected s p = elim (find_umbilical p.compute s) [ none ↦ false | some u ↦ is_connected u ]

-- `for (auto &proc : processes_)` with a body that updates the process and the subsystem around it.
unfoldable pub walk :
    (Process → Subsystem → Process × Subsystem)
    → List Process
    → Subsystem
    → List Process × Subsystem
walk f [] s = ([], s)
walk f (p ∷ ps) s = let (p', t) = f p s in let (ps', u) = walk f ps t in (p' ∷ ps', u)

unfoldable pub each_process : (Process → Subsystem → Process × Subsystem) → Subsystem → Subsystem
each_process f s = let (ps, t) = walk f s.processes s in record t { processes = ps }

unfoldable pub map_process : (Process → Process) → List Process → List Process
map_process f [] = []
map_process f (p ∷ ps) = f p ∷ map_process f ps

-- A write through a shared pointer to a process.
unfoldable pub update_process : ℕ → (Process → Process) → Subsystem → Subsystem
update_process i f s = record s { processes = modify i f s.processes }

-- Subsystem::FindProcess: the position of the process with an id.
unfoldable pub find_process : ℕ → Subsystem → Option ℕ
find_process id s = lookup id s.process_id_map

-- The process behind a pointer.
unfoldable pub process_at : ℕ → Subsystem → Option Process
process_at i s = get_elem? s.processes i

-- Subsystem::RecordProcessId and DeleteProcessId. The latter erases from the map by name.
unfoldable pub record_process_id : ℕ → ℕ → Subsystem → Subsystem
record_process_id id i s = record s { process_id_map = insert id i s.process_id_map }

unfoldable pub delete_process_id : ℕ → Subsystem → Subsystem
delete_process_id id s = record s { process_map = erase id s.process_map }

-- `proc->SetStopped(); DeleteProcessId(proc->GetProcessId());`
unfoldable pub mark_stopped : ℕ → Subsystem → Subsystem
mark_stopped i s = elim (process_at i s) [
  | none ↦ s
  | some p ↦ delete_process_id p.process_id (update_process i set_stopped s)
]

-- A stop event that only marks the process, if its id is known.
unfoldable pub stop_found : ℕ → Subsystem → Subsystem
stop_found id s = elim (find_process id s) [ none ↦ s | some i ↦ mark_stopped i s ]

-- Process::RaiseAlarm and ClearAlarm behind a pointer, with the send to capcom.
unfoldable pub raise_alarm : ℕ → Alarm → Subsystem → Subsystem
raise_alarm i alarm s = elim (process_at i s) [
  | none ↦ s
  | some p ↦ let (p', sent) = raise alarm p in emit (send_alarm sent) (update_process i (λ _. p') s)
]

unfoldable pub clear_alarm : ℕ → Subsystem → Subsystem
clear_alarm i s = elim (process_at i s) [
  | none ↦ s
  | some p ↦
      let (p', sent) = clear_raised p in
      let t = update_process i (λ _. p') s in
      elim sent [ none ↦ t | some a ↦ emit (send_alarm a) t ]
]

-- AllProcessesRunning, AllProcessesStopped and AllProcessesConnected.
unfoldable pub all_processes_running : Subsystem → Bool
all_processes_running s = all_of counts_as_running s.processes

unfoldable pub is_stopped : Process → Bool
is_stopped p = not p.running

unfoldable pub all_processes_stopped : Subsystem → Bool
all_processes_stopped s = all_of is_stopped s.processes

unfoldable pub stopped_at : List Process → ℕ → Bool
stopped_at ps i = elim (get_elem? ps i) [ none ↦ true | some p ↦ is_stopped p ]

unfoldable pub all_stopped_of : List ℕ → Subsystem → Bool
all_stopped_of is s = all_of (stopped_at s.processes) is

unfoldable pub all_processes_connected : Subsystem → Bool
all_processes_connected s = all_of (process_connected s) s.processes
