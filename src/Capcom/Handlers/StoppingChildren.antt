-- ===== src/Capcom/Handlers/StoppingChildren.antt =====
-- capcom/state_machine.cc: Subsystem::StoppingChildren.
use adastra.Prelude.{
  ℕ, Bool, true, ◌||◌, not, List, [], ◌∷◌, if◌then◌else◌, all_of, insert, remove_of,
}
use adastra.Capcom.States.{AdminState, OperState, is_admin_online, is_admin_offline, oper_eq}
use adastra.Capcom.BitSet.{contains}
use adastra.Capcom.Message.{Message, Code, Event, Input}
use adastra.Capcom.Subsystem.{Env, Subsystem, notify_parents, send_status, send_to_children}
use adastra.Capcom.Machine.{
  Turn, Locals, Flow, returns, breaks, Entry, runs, finished, stays, leaves, fresh_locals,
  enter_state, forward, handle_admin_command, abort, dispatch,
}
use adastra.Capcom.Handlers.Common.{child_flags, all_notified}

unfoldable pub stopping_children_enter : ℕ → Subsystem → Entry
stopping_children_enter client_id s = elim s.children [
  | [] ↦ finished (enter_state OperState.offline client_id s)
  | c ∷ cs ↦
      runs (send_status (notify_parents s)) (record (fresh_locals client_id OperState.offline) {
        child_notified = child_flags (c ∷ cs);
        offline_requests = client_id ∷ [];
      })
]

unfoldable pub stopping_children_event : Event → Subsystem → Locals → Flow
stopping_children_event e s l = breaks (forward e s) l

unfoldable pub stopping_children_admin : Message → Subsystem → Locals → Flow
stopping_children_admin m s l =
    let (t, next) = handle_admin_command m OperState.starting_children OperState.offline s in
    breaks t (record l {
      next_state = next;
      client_id = m.client_id;
      offline_requests =
          if is_admin_offline m.admin
          then m.client_id ∷ remove_of m.client_id l.offline_requests
          else remove_of m.client_id l.offline_requests;
    })

unfoldable pub stopping_children_report : Message → Subsystem → Locals → Flow
stopping_children_report m s l = breaks (notify_parents s) (
    if oper_eq m.oper OperState.online || oper_eq m.oper OperState.offline
    then record l { child_notified = insert m.sender true l.child_notified }
    else l)

unfoldable pub stopping_children_message : Code → Message → Subsystem → Locals → Flow
stopping_children_message Code.change_admin m s l = stopping_children_admin m s l
stopping_children_message Code.report_oper m s l = stopping_children_report m s l
stopping_children_message Code.abort m s l = returns (abort m.emergency_abort s l)
stopping_children_message Code.restart m s l =
    returns (leaves (enter_state OperState.restarting l.client_id s) l)
stopping_children_message Code.restart_processes m s l = returns (stays s l)
stopping_children_message Code.restart_crashed_processes m s l = returns (stays s l)
stopping_children_message Code.send_telemetry_command m s l = breaks s l

unfoldable pub request_released : Env → ℕ → ℕ → Bool
request_released env c id = not (contains id (env.clients_of c))

-- A child stays online, or has let go of every client that asked to go offline.
unfoldable pub child_released : Env → List ℕ → ℕ → Bool
child_released env requests c =
    is_admin_online (env.admin_of c) || all_of (request_released env c) requests

unfoldable pub stopping_children_rest : Env → Subsystem → Locals → Turn
stopping_children_rest env s l =
    if not (all_notified l.child_notified)
    then stays s l
    else if oper_eq l.next_state OperState.starting_children
    then leaves (enter_state l.next_state l.client_id s) l
    else if not (all_of (child_released env l.offline_requests) s.children)
    then stays s l
    else leaves
        (enter_state l.next_state l.client_id (send_to_children AdminState.offline l.client_id s)) l

unfoldable pub stopping_children_handler : Env → Subsystem → Locals → Input → Turn
stopping_children_handler env =
    dispatch stopping_children_event (λ m. stopping_children_message m.code m)
      (stopping_children_rest env)
