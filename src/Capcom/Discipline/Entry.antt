-- ===== src/Capcom/Discipline/Entry.antt =====
-- capcom/state_machine.cc: what a state's function does before its event loop.
use adastra.Prelude.{ℕ, ◌≡◌, refl, true, ◌+◌, arith, if◌then◌else◌}
use adastra.Capcom.States.{AdminState, OperState, is_admin_offline}
use adastra.Capcom.Subsystem.{
  Env, Subsystem, notify_parents, send_status, each_process, process_connect, emit,
}
use adastra.Capcom.Subsystem.Processes.{launch_processes, stop_processes, offline_one}
use adastra.Capcom.Machine.{Entry, runs, finished, enter_state}
use adastra.Capcom.Restart.{restart_if_possible, restart_now, count_restart}
use adastra.Capcom.StateTable.{state_enter}
use adastra.Capcom.Handlers.Offline.{offline_enter}
use adastra.Capcom.Handlers.Connecting.{connecting_enter}
use adastra.Capcom.Handlers.StartingChildren.{starting_children_enter}
use adastra.Capcom.Handlers.StartingProcesses.{starting_processes_enter}
use adastra.Capcom.Handlers.Online.{online_enter}
use adastra.Capcom.Handlers.StoppingProcesses.{stopping_processes_enter}
use adastra.Capcom.Handlers.StoppingChildren.{stopping_children_enter}
use adastra.Capcom.Handlers.Restarting.{restarting_enter}
use adastra.Capcom.Handlers.RestartingProcesses.{restarting_processes_enter}
use adastra.Capcom.Handlers.Broken.{broken_enter}
use adastra.Capcom.Keeps.{
  Keeps, notify_parents-Keeps, send_status-Keeps, send_to_children-Keeps, process_connect-Keeps,
}
use adastra.Capcom.Keeps.Loops.{
  each_process-Keeps, stop_processes-Keeps, launch_processes-Keeps, offline_one-Keeps,
}
use adastra.Capcom.Discipline.{may_follow, next_ok, HandedOver}

-- The entry reaches the event loop in its own state, or hands over one coroutine along an edge.
abbrev pub EntersWell : OperState → Subsystem → Entry → Type 0
EntersWell q s (runs t l) =
    (t.coroutines ≡ s.coroutines) × (t.oper_state ≡ q) × (next_ok q l.next_state ≡ true)
EntersWell q s (finished t) =
    HandedOver t.oper_state s.coroutines t.coroutines × (may_follow q t.oper_state ≡ true)

-- The notice and the status that most entries begin with.
announced-Keeps : (s : Subsystem) → Keeps s (send_status (notify_parents s))
unfolding send_status notify_parents
announced-Keeps s = ground arith

offline_enter-EntersWell :
    (c : ℕ) (s : Subsystem)
    → s.oper_state ≡ OperState.offline
    → EntersWell OperState.offline s (offline_enter c s)
unfolding offline_enter
offline_enter-EntersWell c s h =
    let t = record (send_status (notify_parents s)) {
      restart_count = 0;
      alarm_count = 0;
      num_restarts = 0;
    } in
    ground (arith, announced-Keeps s, each_process-Keeps offline_one offline_one-Keeps t)

connecting_enter-EntersWell :
    (c : ℕ) (s : Subsystem) → EntersWell OperState.connecting s (connecting_enter c s)
unfolding connecting_enter enter_state
connecting_enter-EntersWell c s =
    let up = record s { oper_state = OperState.connecting } in
    ground (
      arith,
      each_process-Keeps process_connect process_connect-Keeps up,
      announced-Keeps (each_process process_connect up),
    )

starting_children_enter-EntersWell :
    (c : ℕ) (s : Subsystem)
    → s.oper_state ≡ OperState.starting_children
    → EntersWell OperState.starting_children s (starting_children_enter c s)
unfolding starting_children_enter enter_state
starting_children_enter-EntersWell c s h = ground (arith, announced-Keeps s)

restart_if_possible-EntersWell :
    (c : ℕ) (s t : Subsystem)
    → t.coroutines ≡ s.coroutines
    → EntersWell OperState.starting_processes s (finished (restart_if_possible c t))
unfolding restart_if_possible enter_state emit count_restart
restart_if_possible-EntersWell c s t h = ground arith

starting_processes_enter-EntersWell :
    (env : Env) (c : ℕ) (s : Subsystem)
    → EntersWell OperState.starting_processes s (starting_processes_enter env c s)
unfolding starting_processes_enter enter_state
starting_processes_enter-EntersWell env c s =
    let up = record s { oper_state = OperState.starting_processes } in
    let launched = (launch_processes env up).0 in
    let next = if is_admin_offline s.admin_state then OperState.offline else OperState.online in
    ground (
      arith,
      launch_processes-Keeps env up,
      announced-Keeps launched,
      restart_if_possible-EntersWell c s launched,
      send_status-Keeps s,
      notify_parents-Keeps (enter_state next c (send_status s)),
    )

online_enter-EntersWell :
    (c : ℕ) (s : Subsystem)
    → s.oper_state ≡ OperState.online
    → EntersWell OperState.online s (online_enter c s)
unfolding online_enter
online_enter-EntersWell c s h = ground (arith, announced-Keeps s)

stopping_processes_enter-EntersWell :
    (c : ℕ) (s : Subsystem)
    → s.oper_state ≡ OperState.stopping_processes
    → EntersWell OperState.stopping_processes s (stopping_processes_enter c s)
unfolding stopping_processes_enter enter_state
stopping_processes_enter-EntersWell c s h = ground (
  arith,
  stop_processes-Keeps s,
  announced-Keeps (stop_processes s),
  send_to_children-Keeps AdminState.offline c s,
)

stopping_children_enter-EntersWell :
    (c : ℕ) (s : Subsystem)
    → s.oper_state ≡ OperState.stopping_children
    → EntersWell OperState.stopping_children s (stopping_children_enter c s)
unfolding stopping_children_enter enter_state
stopping_children_enter-EntersWell c s h = ground (arith, announced-Keeps s)

restarting_enter-EntersWell :
    (c : ℕ) (s : Subsystem)
    → s.oper_state ≡ OperState.restarting
    → EntersWell OperState.restarting s (restarting_enter c s)
unfolding restarting_enter enter_state restart_now
restarting_enter-EntersWell c s h =
    let t = send_status (record s { restart_count = s.restart_count + 1 }) in
    ground (
      arith,
      send_status-Keeps (record s { restart_count = s.restart_count + 1 }),
      send_to_children-Keeps AdminState.online c t,
      notify_parents-Keeps t,
      stop_processes-Keeps t,
      stop_processes-Keeps (notify_parents t),
    )

restarting_processes_enter-EntersWell :
    (c : ℕ) (s : Subsystem)
    → s.oper_state ≡ OperState.restarting_processes
    → EntersWell OperState.restarting_processes s (restarting_processes_enter c s)
unfolding restarting_processes_enter enter_state
restarting_processes_enter-EntersWell c s h =
    let t = send_status (record s { restart_count = s.restart_count + 1 }) in
    ground (
      arith,
      send_status-Keeps (record s { restart_count = s.restart_count + 1 }),
      notify_parents-Keeps t,
    )

broken_enter-EntersWell :
    (q : OperState) (c : ℕ) (s : Subsystem)
    → next_ok q OperState.broken ≡ true
    → s.oper_state ≡ q
    → EntersWell q s (broken_enter c s)
unfolding broken_enter
broken_enter-EntersWell q c s k h = ground (arith, announced-Keeps s)

-- A state's function that is run in its own operational state reaches its event loop there with
-- nothing handed over, or hands over exactly one coroutine, for the state it has moved to along the
-- diagram.
pub state_enter-EntersWell :
    (env : Env) (q : OperState) (c : ℕ) (s : Subsystem)
    → s.oper_state ≡ q
    → EntersWell q s (state_enter env q c s)
unfolding state_enter
state_enter-EntersWell env OperState.offline c s h = offline_enter-EntersWell c s h
state_enter-EntersWell env OperState.starting_children c s h =
    starting_children_enter-EntersWell c s h
state_enter-EntersWell env OperState.connecting c s h = connecting_enter-EntersWell c s
state_enter-EntersWell env OperState.starting_processes c s h =
    starting_processes_enter-EntersWell env c s
state_enter-EntersWell env OperState.online c s h = online_enter-EntersWell c s h
state_enter-EntersWell env OperState.stopping_processes c s h =
    stopping_processes_enter-EntersWell c s h
state_enter-EntersWell env OperState.stopping_children c s h =
    stopping_children_enter-EntersWell c s h
state_enter-EntersWell env OperState.restarting c s h = restarting_enter-EntersWell c s h
state_enter-EntersWell env OperState.restarting_processes c s h =
    restarting_processes_enter-EntersWell c s h
state_enter-EntersWell env OperState.broken c s h =
    broken_enter-EntersWell OperState.broken c s refl h
state_enter-EntersWell env OperState.degraded c s h =
    broken_enter-EntersWell OperState.degraded c s refl h
