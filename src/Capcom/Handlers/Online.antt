-- ===== src/Capcom/Handlers/Online.antt =====
-- capcom/state_machine.cc: Subsystem::Online.
use adastra.Prelude.{ℕ, Bool, ◌&&◌, not, none, some, List, ℤ, if◌then◌else◌, all_of}
use adastra.Capcom.States.{AdminState, OperState, is_admin_offline, oper_eq}
use adastra.Capcom.Process.{Process}
use adastra.Capcom.Message.{
  Message, Code, Event, Input, StopReason, disconnect, stop, telemetry_command,
}
use adastra.Capcom.Subsystem.{
  Env, Subsystem, emit, notify_parents, send_status, propagate_telemetry, each_process,
  find_process, mark_stopped, find_umbilical, no_client,
}
use adastra.Capcom.Subsystem.Processes.{restart_processes}
use adastra.Capcom.Machine.{
  Turn, Locals, Flow, returns, breaks, Entry, runs, Wake, stays, leaves, fresh_locals, enter_state,
  forward, handle_admin_command, abort, dispatch,
}
use adastra.Capcom.Restart.{restart_after_crash}
use adastra.Capcom.Handlers.Common.{exited_of, disconnect_compute}

unfoldable pub online_enter : ℕ → Subsystem → Entry
online_enter client_id s =
    runs (send_status (notify_parents s)) (fresh_locals client_id OperState.online)

-- The stop of an interactive process takes its subsystem offline.
unfoldable pub online_interactive_stop : ℕ → Subsystem → Locals → Turn
online_interactive_stop i s l =
    leaves
      (enter_state OperState.offline no_client
        (record (mark_stopped i s) { interactive_output = none; admin_state = AdminState.offline }))
      l

unfoldable pub online_crash : Env → List Wake → ℕ → StopReason → ℤ → Subsystem → Locals → Turn
online_crash env wakes id reason status s l =
    if env.emergency_aborting
    then stays s l
    else restart_after_crash env wakes id l.client_id (exited_of reason) status s l

unfoldable pub online_stop : Env → List Wake → ℕ → StopReason → ℤ → Subsystem → Locals → Turn
online_stop env wakes id reason status s l =
    if s.interactive
    then elim (find_process id s) [
      | none ↦ online_crash env wakes id reason status s l
      | some i ↦ online_interactive_stop i s l
    ]
    else online_crash env wakes id reason status s l

unfoldable pub online_event : Env → List Wake → Event → Subsystem → Locals → Flow
online_event env wakes (disconnect compute) s l =
    returns (leaves (enter_state OperState.restarting no_client (disconnect_compute compute s)) l)
online_event env wakes (stop id reason status) s l =
    returns (online_stop env wakes id reason status s l)
online_event env wakes e s l = breaks (forward e s) l

unfoldable pub admin_offline_at : Env → ℕ → Bool
admin_offline_at env parent = is_admin_offline (env.admin_of parent)

unfoldable pub online_admin : Env → Message → Subsystem → Locals → Flow
online_admin env m s l =
    if is_admin_offline m.admin && not (all_of (admin_offline_at env) s.parents)
    then returns (stays (notify_parents s) l)
    else (let (t, next) = handle_admin_command m OperState.online OperState.stopping_processes s in
        breaks
          (if oper_eq next OperState.stopping_processes
            then record t { admin_state = AdminState.offline }
            else t)
          (record l { next_state = next; client_id = m.client_id }))

-- Process::SendTelemetryCommand: only over an umbilical whose client is connected.
unfoldable pub telemetry_one : Process → Subsystem → Process × Subsystem
telemetry_one p s = (
  p,
  elim (find_umbilical p.compute s) [
    | none ↦ s
    | some u ↦ if u.client_connected then emit (telemetry_command p.process_id) s else s
  ],
)

unfoldable pub online_message : Env → Code → Message → Subsystem → Locals → Flow
online_message env Code.change_admin m s l = online_admin env m s l
online_message env Code.report_oper m s l =
    if oper_eq m.oper OperState.restarting
    then returns (leaves (enter_state OperState.restarting l.client_id s) l)
    else if oper_eq m.oper OperState.broken
    then returns (leaves (enter_state OperState.broken l.client_id s) l)
    else breaks s l
online_message env Code.abort m s l = returns (abort m.emergency_abort s l)
online_message env Code.restart m s l =
    returns (leaves (enter_state OperState.restarting l.client_id s) l)
online_message env Code.restart_processes m s l = returns (
    leaves
      (enter_state OperState.restarting_processes m.client_id (restart_processes m.processes s)) l)
online_message env Code.restart_crashed_processes m s l =
    returns (leaves (enter_state OperState.connecting m.client_id s) l)
online_message env Code.send_telemetry_command m s l =
    breaks (each_process telemetry_one (propagate_telemetry m s)) l

unfoldable pub online_rest : Subsystem → Locals → Turn
online_rest s l =
    if oper_eq l.next_state OperState.online
    then stays s l
    else leaves (enter_state l.next_state l.client_id s) l

unfoldable pub online_handler : Env → List Wake → Subsystem → Locals → Input → Turn
online_handler env wakes =
    dispatch (online_event env wakes) (λ m. online_message env m.code m) online_rest
