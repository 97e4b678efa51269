-- ===== src/Capcom/Keeps.antt =====
-- capcom/subsystem.cc: what the methods of a subsystem that work on its processes, its umbilicals
-- and its messages leave alone: its states, its coroutines, its clients and its restart counters.
pub mod Loops
use adastra.Prelude.{ℕ, ◌≡◌, refl, ◌∙◌, Bool, true, false, Option, none, some, List, [], ◌∷◌, arith}
use adastra.Capcom.Alarm.{Alarm}
use adastra.Capcom.States.{AdminState, OperState}
use adastra.Capcom.Process.{Process, set_stopped, raise, clear_raised}
use adastra.Capcom.Message.{
  Message, Effect, Event, connect, disconnect, start, stop, output, log, parameter, telemetry,
  not_set,
}
use adastra.Capcom.Subsystem.{
  Subsystem, RestartPolicy, emit, send_status, notify_parents, send_to_children,
  propagate_telemetry, send_output, connect_umbilical, disconnect_umbilical, process_connect,
  process_disconnect, process_stop, update_process, record_process_id, delete_process_id,
  mark_stopped, stop_found, raise_alarm, clear_alarm, process_at, find_umbilical,
}
use adastra.Capcom.Machine.{forward}

pub record Keeps (s t : Subsystem) : Type 0 where
  pub this : t.this ≡ s.this
  pub running : t.running ≡ s.running
  pub admin_state : t.admin_state ≡ s.admin_state
  pub oper_state : t.oper_state ≡ s.oper_state
  pub children : t.children ≡ s.children
  pub parents : t.parents ≡ s.parents
  pub active_clients : t.active_clients ≡ s.active_clients
  pub critical : t.critical ≡ s.critical
  pub num_restarts : t.num_restarts ≡ s.num_restarts
  pub max_restarts : t.max_restarts ≡ s.max_restarts
  pub restart_policy : t.restart_policy ≡ s.restart_policy
  pub restart_delay : t.restart_delay ≡ s.restart_delay
  pub coroutines : t.coroutines ≡ s.coroutines

pub Keeps-refl : (s : Subsystem) → Keeps s s
Keeps-refl s = ground arith

pub Keeps-trans : (s t u : Subsystem) → Keeps s t → Keeps t u → Keeps s u
Keeps-trans s t u h k = record {
  this = k.this ∙ h.this;
  running = k.running ∙ h.running;
  admin_state = k.admin_state ∙ h.admin_state;
  oper_state = k.oper_state ∙ h.oper_state;
  children = k.children ∙ h.children;
  parents = k.parents ∙ h.parents;
  active_clients = k.active_clients ∙ h.active_clients;
  critical = k.critical ∙ h.critical;
  num_restarts = k.num_restarts ∙ h.num_restarts;
  max_restarts = k.max_restarts ∙ h.max_restarts;
  restart_policy = k.restart_policy ∙ h.restart_policy;
  restart_delay = k.restart_delay ∙ h.restart_delay;
  coroutines = k.coroutines ∙ h.coroutines;
}

pub emit-Keeps : (e : Effect) (s : Subsystem) → Keeps s (emit e s)
unfolding emit
emit-Keeps e s = ground arith

pub send_status-Keeps : (s : Subsystem) → Keeps s (send_status s)
unfolding send_status
send_status-Keeps s = ground arith

pub notify_parents-Keeps : (s : Subsystem) → Keeps s (notify_parents s)
unfolding notify_parents
notify_parents-Keeps s = ground arith

pub send_to_children-Keeps :
    (a : AdminState) (c : ℕ) (s : Subsystem) → Keeps s (send_to_children a c s)
unfolding send_to_children
send_to_children-Keeps a c s = ground arith

pub propagate_telemetry-Keeps : (m : Message) (s : Subsystem) → Keeps s (propagate_telemetry m s)
unfolding propagate_telemetry
propagate_telemetry-Keeps m s = ground arith

pub send_output-Keeps : (n : ℕ) (s : Subsystem) → Keeps s (send_output n s)
unfolding send_output
send_output-Keeps n s = ground arith

pub forward-Keeps : (e : Event) (s : Subsystem) → Keeps s (forward e s)
unfolding forward
forward-Keeps (output n) s = send_output-Keeps n s
forward-Keeps (log n) s = emit-Keeps _ s
forward-Keeps (parameter n) s = emit-Keeps _ s
forward-Keeps (telemetry n) s = emit-Keeps _ s
forward-Keeps connect s = Keeps-refl s
forward-Keeps (disconnect n) s = Keeps-refl s
forward-Keeps (start n) s = Keeps-refl s
forward-Keeps (stop n r k) s = Keeps-refl s
forward-Keeps not_set s = Keeps-refl s

pub connect_umbilical-Keeps : (c : ℕ) (s : Subsystem) → Keeps s (connect_umbilical c s)
unfolding connect_umbilical
connect_umbilical-Keeps c s = ground arith

pub disconnect_umbilical-Keeps : (c : ℕ) (s : Subsystem) → Keeps s (disconnect_umbilical c s)
unfolding disconnect_umbilical
disconnect_umbilical-Keeps c s = ground arith

pub process_connect-Keeps : (p : Process) (s : Subsystem) → Keeps s (process_connect p s).1
unfolding process_connect
process_connect-Keeps p s = ground (arith, connect_umbilical-Keeps p.compute s)

pub process_disconnect-Keeps : (p : Process) (s : Subsystem) → Keeps s (process_disconnect p s).1
unfolding process_disconnect
process_disconnect-Keeps p s = ground (arith, disconnect_umbilical-Keeps p.compute s)

pub process_stop-Keeps : (p : Process) (s : Subsystem) → Keeps s (process_stop p s).1
unfolding process_stop
process_stop-Keeps p s = ground arith

pub update_process-Keeps :
    (i : ℕ) (f : Process → Process) (s : Subsystem) → Keeps s (update_process i f s)
unfolding update_process
update_process-Keeps i f s = ground arith

pub record_process_id-Keeps : (id i : ℕ) (s : Subsystem) → Keeps s (record_process_id id i s)
unfolding record_process_id
record_process_id-Keeps id i s = ground arith

pub mark_stopped-Keeps : (i : ℕ) (s : Subsystem) → Keeps s (mark_stopped i s)
unfolding mark_stopped delete_process_id update_process
mark_stopped-Keeps i s = ground arith

pub stop_found-Keeps : (id : ℕ) (s : Subsystem) → Keeps s (stop_found id s)
unfolding stop_found mark_stopped delete_process_id update_process
stop_found-Keeps id s = ground arith

pub raise_alarm-Keeps : (i : ℕ) (a : Alarm) (s : Subsystem) → Keeps s (raise_alarm i a s)
unfolding raise_alarm emit update_process
raise_alarm-Keeps i a s = ground arith

pub clear_alarm-Keeps : (i : ℕ) (s : Subsystem) → Keeps s (clear_alarm i s)
unfolding clear_alarm emit update_process clear_raised
clear_alarm-Keeps i s = ground arith
