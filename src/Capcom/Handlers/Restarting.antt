-- ===== src/Capcom/Handlers/Restarting.antt =====
-- capcom/state_machine.cc: Subsystem::Restarting.
use adastra.Prelude.{ℕ, ◌+◌, Bool, true, false, not, [], ◌∷◌, if◌then◌else◌}
use adastra.Capcom.States.{OperState, is_admin_online}
use adastra.Capcom.Message.{Message, Code, Event, Input, stop}
use adastra.Capcom.Subsystem.{
  Subsystem, notify_parents, send_status, stop_found, all_processes_stopped,
}
use adastra.Capcom.Subsystem.Processes.{stop_processes}
use adastra.Capcom.Machine.{
  Turn, Locals, Flow, returns, breaks, Entry, runs, finished, stays, leaves, fresh_locals, forward,
  abort, dispatch,
}
use adastra.Capcom.Restart.{restart_now}

abbrev pub no_parents : Subsystem → Bool
no_parents s = elim s.parents [ [] ↦ true | p ∷ ps ↦ false ]

unfoldable pub restarting_enter : ℕ → Subsystem → Entry
restarting_enter client_id s =
    let t = send_status (record s { restart_count = s.restart_count + 1 }) in
    if all_processes_stopped t
    then (if no_parents t
        then finished (restart_now client_id t)
        else runs (stop_processes (notify_parents t)) (fresh_locals client_id OperState.restarting))
    else runs (stop_processes t) (fresh_locals client_id OperState.restarting)

unfoldable pub restarting_event : Event → Subsystem → Locals → Flow
restarting_event (stop id reason status) s l = breaks (stop_found id s) l
restarting_event e s l = breaks (forward e s) l

unfoldable pub restarting_message : Code → Message → Subsystem → Locals → Flow
restarting_message Code.change_admin m s l =
    if is_admin_online m.admin
    then returns (leaves (restart_now l.client_id s) l)
    else breaks (notify_parents s) l
restarting_message Code.report_oper m s l = breaks s l
restarting_message Code.abort m s l = returns (abort m.emergency_abort s l)
restarting_message Code.restart m s l = returns (stays s l)
restarting_message Code.restart_processes m s l = returns (stays s l)
restarting_message Code.restart_crashed_processes m s l = returns (stays s l)
restarting_message Code.send_telemetry_command m s l = breaks s l

unfoldable pub restarting_rest : Subsystem → Locals → Turn
restarting_rest s l =
    if not (all_processes_stopped s)
    then stays s l
    else if no_parents s
    then leaves (restart_now l.client_id s) l
    else stays (notify_parents s) l

unfoldable pub restarting_handler : Subsystem → Locals → Input → Turn
restarting_handler = dispatch restarting_event (λ m. restarting_message m.code m) restarting_rest
