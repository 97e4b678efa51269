-- ===== src/Capcom/Handlers/Broken.antt =====
-- capcom/state_machine.cc: Subsystem::Broken, which also serves the degraded state.
use adastra.Prelude.{ℕ, Bool, true, if◌then◌else◌}
use adastra.Capcom.States.{AdminState, OperState, is_admin_online}
use adastra.Capcom.BitSet.{set, clear}
use adastra.Capcom.Message.{Message, Code, Event, Input}
use adastra.Capcom.Subsystem.{
  Subsystem, notify_parents, send_status, send_to_children, propagate_telemetry,
}
use adastra.Capcom.Subsystem.Processes.{reset_process_restarts}
use adastra.Capcom.Machine.{
  Turn, Locals, Flow, returns, breaks, Entry, runs, stays, leaves, fresh_locals, enter_state,
  forward, abort, dispatch_checked,
}

unfoldable pub broken_enter : ℕ → Subsystem → Entry
broken_enter client_id s =
    runs (send_status (notify_parents s)) (fresh_locals client_id OperState.broken)

unfoldable pub broken_event : Event → Subsystem → Locals → Flow
broken_event e s l = breaks (forward e s) l

-- The restart counters start again.
unfoldable pub broken_reset : Subsystem → Subsystem
broken_reset s = reset_process_restarts (record s { num_restarts = 0; restart_count = 0 })

-- The code that kChangeAdmin and kRestart share; `up` is its test.
unfoldable pub broken_recover : Bool → Message → Subsystem → Locals → Turn
broken_recover up m s l =
    let t = broken_reset s in
    let u =
      if up
      then enter_state OperState.starting_children l.client_id
          (record t { active_clients = set l.client_id t.active_clients })
      else enter_state OperState.stopping_children l.client_id (record t {
        active_clients = clear l.client_id t.active_clients;
        admin_state = AdminState.offline;
      }) in
    leaves (send_to_children m.admin m.client_id u) l

unfoldable pub broken_message : Code → Message → Subsystem → Locals → Flow
broken_message Code.change_admin m s l = returns (broken_recover (is_admin_online m.admin) m s l)
broken_message Code.restart m s l = returns (broken_recover true m s l)
broken_message Code.report_oper m s l = breaks s l
broken_message Code.abort m s l = returns (abort m.emergency_abort s l)
broken_message Code.restart_processes m s l =
    let t = broken_reset s in
    returns (
      leaves
        (enter_state OperState.connecting l.client_id
          (record t { active_clients = set l.client_id t.active_clients }))
        l)
broken_message Code.restart_crashed_processes m s l = returns (stays s l)
broken_message Code.send_telemetry_command m s l = breaks (propagate_telemetry m s) l

unfoldable pub broken_rest : Subsystem → Locals → Turn
broken_rest s l = stays s l

unfoldable pub broken_handler : Subsystem → Locals → Input → Turn
broken_handler = dispatch_checked broken_event (λ m. broken_message m.code m) broken_rest
