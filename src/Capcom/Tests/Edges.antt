-- ===== src/Capcom/Tests/Edges.antt =====
-- Aborts, waits, oneshots, commands to go offline and umbilicals of the sample subsystem.
use adastra.Prelude.{
  ℕ, ◌≡◌, ◌≢◌, refl, true, false, not, ◌&&◌, [], ◌∷◌, some, pos, arith, all_of, lookup, insert,
}
use adastra.Capcom.States.{AdminState, OperState}
use adastra.Capcom.BitSet.{contains, is_empty}
use adastra.Capcom.Umbilical.{Umbilical, UmbilicalState, disconnect}
use adastra.Capcom.Message.{Message, Code, blank, from_pipe, from_stagezero, stop, StopReason}
use adastra.Capcom.Subsystem.{
  Subsystem, no_client, all_processes_stopped, each_process, process_connect, find_umbilical,
  notify_parents, find_process, process_at, walk, process_disconnect, disconnect_umbilical,
}
use adastra.Capcom.Subsystem.Processes.{stop_processes, offline_one}
use adastra.Capcom.Machine.{Turn, Locals, Transition, Wake, woken, interrupted, abort, run_in_state}
use adastra.Capcom.Restart.{restart_subsystem}
use adastra.Capcom.StateTable.{state_handler}
use adastra.Capcom.Handlers.Common.{disconnect_compute}
use adastra.Capcom.Handlers.Online.{online_handler, admin_offline_at}
use adastra.Capcom.Handlers.StartingProcesses.{starting_processes_handler}
use adastra.Capcom.Discipline.Loop.{LoopEndsWell, state_loop-EndsWell}
use adastra.Capcom.Aborting.{abort_lem, aborted_wait-restarts}
use adastra.Capcom.Parents.{online-goes-offline}
use adastra.Capcom.Gates.Oneshots.{oneshot_exit-stays}
use adastra.Capcom.Connections.{holds, holders, IsCounted, connections-IsCounted, offline-releases}
use adastra.Capcom.Tests.Samples.{flying, in_state, calm, locals_for, go_offline, camera}

abbrev online_locals : Locals
online_locals = locals_for OperState.online

abort_lem_example :
    ((not true && flying.critical) ≡ false
      → ((abort true flying online_locals).next ≡ Transition.leave)
        × ((abort true flying online_locals).sub.oper_state ≡ OperState.offline)
        × ((abort true flying online_locals).sub.admin_state ≡ AdminState.offline)
        × (is_empty (abort true flying online_locals).sub.active_clients ≡ true)
        × (all_processes_stopped (abort true flying online_locals).sub ≡ true))
    × ((not true && flying.critical) ≡ true
        → ((abort true flying online_locals).next ≡ Transition.stay)
          × ((abort true flying online_locals).sub ≡ flying))
abort_lem_example = abort_lem true flying online_locals

abbrev abort_message : Message
abort_message = record (blank Code.abort) { emergency_abort = true }

abbrev abort_wake : Wake
abort_wake = woken 1 (from_pipe (some abort_message))

aborted_wait-restarts_example :
    ((restart_subsystem (abort_wake ∷ []) 5 flying online_locals).next ≡ Transition.leave)
    × ((restart_subsystem (abort_wake ∷ []) 5 flying online_locals).sub.coroutines
        ≡ (OperState.restarting, 5) ∷ (OperState.offline, no_client) ∷ [])
    × ((restart_subsystem (abort_wake ∷ []) 5 flying online_locals).sub.oper_state
        ≡ OperState.restarting)
    × ((restart_subsystem (abort_wake ∷ []) 5 flying online_locals).sub.admin_state
        ≡ AdminState.offline)
aborted_wait-restarts_example =
    aborted_wait-restarts 1 5 abort_message [] flying online_locals (refl, refl) refl

abbrev told_offline : Turn
told_offline = online_handler calm [] flying online_locals (from_pipe (some go_offline))

online-goes-offline_example :
    (all_of (admin_offline_at calm) (9 ∷ []) ≡ false
      → told_offline
        ≡ record { sub = notify_parents flying; locals = online_locals; next = Transition.stay })
    × (all_of (admin_offline_at calm) (9 ∷ []) ≡ true
        → (j : ℕ) → j ≢ 5
        → contains j (32 ∷ []) ≡ true
        → told_offline.next ≡ Transition.stay)
    × (all_of (admin_offline_at calm) (9 ∷ []) ≡ true
        → ((j : ℕ) → j ≢ 5 → contains j (32 ∷ []) ≡ false)
        → (told_offline.next ≡ Transition.leave)
          × (told_offline.sub.oper_state ≡ OperState.stopping_processes)
          × (told_offline.sub.admin_state ≡ AdminState.offline))
online-goes-offline_example =
    online-goes-offline calm [] go_offline flying online_locals refl refl (ground arith)
      (ground arith, tt)

abbrev launching : Subsystem
launching = record (in_state OperState.starting_processes flying) {
  processes = record camera { oneshot = true } ∷ [];
}

oneshot_exit-stays_example :
    (starting_processes_handler calm [] launching online_locals
      (from_stagezero (some (stop 33 StopReason.exit (pos 0))))).next
    ≡ Transition.stay
unfolding find_process lookup process_at
oneshot_exit-stays_example =
    oneshot_exit-stays calm [] 33 0 (record camera { oneshot = true }) StopReason.exit (pos 0)
      launching online_locals refl refl refl refl refl

-- The one umbilical of the sample counts its one process.
counted :
    (compute : ℕ) (u : Umbilical)
    → find_umbilical compute flying ≡ some u
    → u.dynamic_refs ≡ pos (holders compute flying.processes)
unfolding find_umbilical lookup holders holds
counted compute u e = ground arith

connections-IsCounted_example :
    IsCounted (each_process process_connect flying)
    × IsCounted (stop_processes flying)
    × ((compute : ℕ) → IsCounted (disconnect_compute compute flying))
    × IsCounted (each_process offline_one flying)
connections-IsCounted_example = connections-IsCounted flying counted

abbrev released : Umbilical
released = record {
  state = UmbilicalState.closed;
  client_connected = false;
  static_refs = pos 1;
  dynamic_refs = pos 0;
  is_static = false;
}

one_umbilical : find_umbilical 1 (each_process offline_one flying) ≡ some released
unfolding find_umbilical lookup each_process walk offline_one process_disconnect
    disconnect_umbilical insert disconnect
one_umbilical = refl

offline-releases_example : released.dynamic_refs ≡ pos 0
offline-releases_example = offline-releases flying 1 released counted one_umbilical

state_loop-EndsWell_example :
    LoopEndsWell
      (run_in_state
        (state_handler calm [] OperState.online)
        0
        (interrupted 2 ∷ woken 1 (from_pipe (some go_offline)) ∷ [])
        flying
        online_locals).outcome
      OperState.online
      flying
      (run_in_state
        (state_handler calm [] OperState.online)
        0
        (interrupted 2 ∷ woken 1 (from_pipe (some go_offline)) ∷ [])
        flying
        online_locals).sub
state_loop-EndsWell_example =
    state_loop-EndsWell calm [] OperState.online 0
      (interrupted 2 ∷ woken 1 (from_pipe (some go_offline)) ∷ []) flying online_locals refl refl
      refl
