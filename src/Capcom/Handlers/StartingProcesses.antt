-- ===== src/Capcom/Handlers/StartingProcesses.antt =====
-- capcom/state_machine.cc: Subsystem::StartingProcesses.
use adastra.Prelude.{
  ℕ, Bool, true, false, ◌&&◌, ◌||◌, not, none, some, List, [], ◌∷◌, ℤ, if◌then◌else◌,
}
use adastra.Capcom.States.{AdminState, OperState, is_admin_offline, oper_eq}
use adastra.Capcom.Process.{Process, set_running, set_exit}
use adastra.Capcom.Message.{Message, Code, Event, Input, StopReason, start, stop}
use adastra.Capcom.Subsystem.{
  Env, Subsystem, notify_parents, send_status, send_to_children, find_process, process_at,
  update_process, mark_stopped, clear_alarm, all_processes_running,
}
use adastra.Capcom.Subsystem.Processes.{launch_processes}
use adastra.Capcom.Machine.{
  Turn, Locals, Flow, returns, breaks, Entry, runs, finished, Wake, stays, leaves, fresh_locals,
  enter_state, forward, handle_admin_command, abort, dispatch,
}
use adastra.Capcom.Restart.{restart_after_crash, restart_if_possible}
use adastra.Capcom.Handlers.Common.{exited_of}

unfoldable pub no_processes : List Process → Bool
no_processes [] = true
no_processes (p ∷ ps) = false

unfoldable pub starting_processes_enter : Env → ℕ → Subsystem → Entry
starting_processes_enter env client_id s =
    if is_admin_offline s.admin_state || no_processes s.processes
    then finished (
        notify_parents (
          enter_state
            (if is_admin_offline s.admin_state then OperState.offline else OperState.online)
            client_id (send_status s)))
    else (let (t, launched) =
          launch_processes env (record s { oper_state = OperState.starting_processes }) in
        if launched
        then runs (send_status (notify_parents t)) (fresh_locals client_id OperState.online)
        else finished (restart_if_possible client_id t))

unfoldable pub starting_processes_start : ℕ → Subsystem → Subsystem
starting_processes_start id s = elim (find_process id s) [
  | none ↦ s
  | some i ↦ clear_alarm i (update_process i set_running s)
]

-- A stop event while the processes start: a oneshot that exits is noted, any other stop is a crash.
unfoldable pub starting_processes_stop :
    Env → List Wake → ℕ → StopReason → ℤ → Subsystem → Locals → Flow
starting_processes_stop env wakes id reason status s l =
    if env.emergency_aborting then breaks s l else elim (find_process id s) [
      | none ↦ returns (stays s l)
      | some i ↦ elim (process_at i s) [
        | none ↦ returns (stays s l)
        | some p ↦
            if p.oneshot && exited_of reason
            then breaks (update_process i (set_exit (exited_of reason) status) (mark_stopped i s)) l
            else returns
                (restart_after_crash env wakes id l.client_id (exited_of reason) status s l)
      ]
    ]

unfoldable pub starting_processes_event : Env → List Wake → Event → Subsystem → Locals → Flow
starting_processes_event env wakes (start id) s l = breaks (starting_processes_start id s) l
starting_processes_event env wakes (stop id reason status) s l =
    starting_processes_stop env wakes id reason status s l
starting_processes_event env wakes e s l = breaks (forward e s) l

unfoldable pub starting_processes_admin : Message → Subsystem → Locals → Flow
starting_processes_admin m s l =
    let (t, next) = handle_admin_command m OperState.online OperState.stopping_processes s in
    let u = send_to_children m.admin m.client_id t in
    breaks
      (if oper_eq next OperState.stopping_processes
        then record u { admin_state = AdminState.offline }
        else u)
      (record l { next_state = next; client_id = m.client_id })

unfoldable pub starting_processes_message : Code → Message → Subsystem → Locals → Flow
starting_processes_message Code.change_admin m s l = starting_processes_admin m s l
starting_processes_message Code.report_oper m s l = breaks (notify_parents s) l
starting_processes_message Code.abort m s l = returns (abort m.emergency_abort s l)
starting_processes_message Code.restart m s l =
    returns (leaves (enter_state OperState.restarting l.client_id s) l)
starting_processes_message Code.restart_processes m s l =
    returns (leaves (enter_state OperState.starting_processes m.client_id s) l)
starting_processes_message Code.restart_crashed_processes m s l =
    returns (leaves (enter_state OperState.starting_processes m.client_id s) l)
starting_processes_message Code.send_telemetry_command m s l = breaks s l

unfoldable pub starting_processes_rest : Subsystem → Locals → Turn
starting_processes_rest s l =
    if not (all_processes_running s)
    then stays s l
    else leaves (enter_state l.next_state l.client_id s) l

unfoldable pub starting_processes_handler : Env → List Wake → Subsystem → Locals → Input → Turn
starting_processes_handler env wakes =
    dispatch (starting_processes_event env wakes) (λ m. starting_processes_message m.code m)
      starting_processes_rest
