-- ===== src/Capcom/Handlers/RestartingProcesses.antt =====
-- capcom/state_machine.cc: Subsystem::RestartingProcesses.
use adastra.Prelude.{
  ℕ, ◌+◌, false, not, none, some, List, [], ◌∷◌, pos, if◌then◌else◌, elem_of, remove_of,
}
use adastra.Capcom.States.{OperState, is_admin_online}
use adastra.Capcom.Process.{set_running}
use adastra.Capcom.Message.{Message, Code, Event, Input, start, stop}
use adastra.Capcom.Subsystem.{
  Env, Subsystem, notify_parents, send_status, find_process, process_at, update_process,
  mark_stopped, clear_alarm, all_stopped_of,
}
use adastra.Capcom.Machine.{
  Turn, Locals, Flow, returns, breaks, Entry, runs, finished, Wake, stays, leaves, fresh_locals,
  enter_state, forward, abort, dispatch_checked,
}
use adastra.Capcom.Restart.{restart_after_crash}

unfoldable pub restarting_processes_enter : ℕ → Subsystem → Entry
restarting_processes_enter client_id s =
    let t = send_status (record s { restart_count = s.restart_count + 1 }) in
    if all_stopped_of t.processes_to_restart t
    then (elim t.parents [
      | [] ↦ finished (enter_state OperState.connecting client_id t)
      | p ∷ ps ↦ runs (notify_parents t) (fresh_locals client_id OperState.restarting_processes)
    ])
    else runs t (fresh_locals client_id OperState.restarting_processes)

unfoldable pub restarting_processes_start : ℕ → Subsystem → Locals → Flow
restarting_processes_start id s l = elim (find_process id s) [
  | none ↦ breaks s l
  | some i ↦
      breaks (clear_alarm i (update_process i set_running s))
        (record l { started_processes = i ∷ remove_of i l.started_processes })
]

-- A stop event: of a process that started in this state it is a crash.
unfoldable pub restarting_processes_stop : Env → List Wake → ℕ → Subsystem → Locals → Flow
restarting_processes_stop env wakes id s l = elim (find_process id s) [
  | none ↦ breaks s l
  | some i ↦
      if elem_of i l.started_processes
      then (elim (process_at i s) [
        | none ↦ breaks s l
        | some p ↦ returns (
            restart_after_crash env wakes p.process_id l.client_id false (pos 0) s
              (record l { started_processes = remove_of i l.started_processes }))
      ])
      else breaks (mark_stopped i s) l
]

unfoldable pub restarting_processes_event : Env → List Wake → Event → Subsystem → Locals → Flow
restarting_processes_event env wakes (start id) s l = restarting_processes_start id s l
restarting_processes_event env wakes (stop id reason status) s l =
    restarting_processes_stop env wakes id s l
restarting_processes_event env wakes e s l = breaks (forward e s) l

unfoldable pub restarting_processes_message : Code → Message → Subsystem → Locals → Flow
restarting_processes_message Code.change_admin m s l =
    if is_admin_online m.admin
    then returns (leaves (enter_state OperState.connecting l.client_id s) l)
    else breaks (notify_parents s) l
restarting_processes_message Code.report_oper m s l = breaks s l
restarting_processes_message Code.abort m s l = returns (abort m.emergency_abort s l)
restarting_processes_message Code.restart m s l = returns (stays s l)
restarting_processes_message Code.restart_processes m s l = breaks s l
restarting_processes_message Code.restart_crashed_processes m s l = returns (stays s l)
restarting_processes_message Code.send_telemetry_command m s l = breaks s l

unfoldable pub restarting_processes_rest : Subsystem → Locals → Turn
restarting_processes_rest s l =
    if not (all_stopped_of s.processes_to_restart s)
    then stays s l
    else leaves (enter_state OperState.connecting l.client_id s) l

unfoldable pub restarting_processes_handler : Env → List Wake → Subsystem → Locals → Input → Turn
restarting_processes_handler env wakes =
    dispatch_checked (restarting_processes_event env wakes)
      (λ m. restarting_processes_message m.code m) restarting_processes_rest
