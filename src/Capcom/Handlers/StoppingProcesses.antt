-- ===== src/Capcom/Handlers/StoppingProcesses.antt =====
-- capcom/state_machine.cc: Subsystem::StoppingProcesses.
use adastra.Prelude.{ℕ, ◌+◌, not, none, some, List, [], ◌∷◌, ◌==◌, if◌then◌else◌}
use adastra.Capcom.States.{AdminState, OperState}
use adastra.Capcom.Process.{Process}
use adastra.Capcom.Message.{Message, Code, Event, Input, disconnect, stop}
use adastra.Capcom.Subsystem.{
  Subsystem, notify_parents, send_status, send_to_children, find_process, mark_stopped,
  all_processes_stopped,
}
use adastra.Capcom.Subsystem.Processes.{stop_processes}
use adastra.Capcom.Machine.{
  Turn, Locals, Flow, returns, breaks, Entry, runs, finished, stays, leaves, fresh_locals,
  enter_state, forward, handle_admin_command, abort, dispatch,
}
use adastra.Capcom.Handlers.Common.{disconnect_compute}

-- `num_running_processes`.
unfoldable pub count_running : List Process → ℕ
count_running [] = 0
count_running (p ∷ ps) = (if p.running then 1 else 0) + count_running ps

unfoldable pub stopping_processes_enter : ℕ → Subsystem → Entry
stopping_processes_enter client_id s =
    if count_running s.processes == 0
    then finished (
        enter_state OperState.stopping_children client_id
          (send_to_children AdminState.offline client_id s))
    else runs (send_status (notify_parents (stop_processes s)))
        (fresh_locals client_id OperState.stopping_children)

-- Process stopped OK.
unfoldable pub stopping_processes_stop : ℕ → Subsystem → Subsystem
stopping_processes_stop id s = elim (find_process id s) [
  | none ↦ s
  | some i ↦
      let t = mark_stopped i s in
      if t.interactive then record t { interactive_output = none } else t
]

unfoldable pub stopping_processes_event : Event → Subsystem → Locals → Flow
stopping_processes_event (disconnect compute) s l = breaks (disconnect_compute compute s) l
stopping_processes_event (stop id reason status) s l = breaks (stopping_processes_stop id s) l
stopping_processes_event e s l = breaks (forward e s) l

unfoldable pub stopping_processes_admin : Message → Subsystem → Locals → Flow
stopping_processes_admin m s l =
    let (t, next) = handle_admin_command m OperState.connecting OperState.stopping_children s in
    breaks t (record l { next_state = next; client_id = m.client_id })

unfoldable pub stopping_processes_message : Code → Message → Subsystem → Locals → Flow
stopping_processes_message Code.change_admin m s l = stopping_processes_admin m s l
stopping_processes_message Code.report_oper m s l = breaks (notify_parents s) l
stopping_processes_message Code.abort m s l = returns (abort m.emergency_abort s l)
stopping_processes_message Code.restart m s l =
    returns (leaves (enter_state OperState.restarting l.client_id s) l)
stopping_processes_message Code.restart_processes m s l = returns (stays s l)
stopping_processes_message Code.restart_crashed_processes m s l = returns (stays s l)
stopping_processes_message Code.send_telemetry_command m s l = breaks s l

unfoldable pub stopping_processes_rest : Subsystem → Locals → Turn
stopping_processes_rest s l =
    if not (all_processes_stopped s)
    then stays s l
    else leaves
        (enter_state l.next_state l.client_id (send_to_children AdminState.offline l.client_id s)) l

unfoldable pub stopping_processes_handler : Subsystem → Locals → Input → Turn
stopping_processes_handler =
    dispatch stopping_processes_event (λ m. stopping_processes_message m.code m)
      stopping_processes_rest
