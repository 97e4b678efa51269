-- ===== src/Capcom/Gates/Oneshots.antt =====
-- capcom/state_machine.cc and subsystem.h: a oneshot process that exits while its subsystem starts.
use adastra.Prelude.{
  ℕ, zero, suc, ◌≡◌, refl, true, false, List, [], ◌∷◌, some, arith, all_of, get_elem?, ℤ,
}
use adastra.Capcom.Process.{Process, set_stopped, set_exit, counts_as_running}
use adastra.Capcom.Message.{from_stagezero, stop, StopReason}
use adastra.Capcom.Subsystem.{
  Env, Subsystem, find_process, process_at, mark_stopped, update_process, all_processes_running,
}
use adastra.Capcom.Subsystem.Laws.{get_elem?-modify, process_at-mark_stopped}
use adastra.Capcom.Machine.{Locals, Transition, Wake}
use adastra.Capcom.Handlers.Common.{exited_of}
use adastra.Capcom.Handlers.StartingProcesses.{
  starting_processes_handler, starting_processes_event, starting_processes_stop,
  starting_processes_rest,
}

-- A process that does not count as running holds up all.
held_up :
    (ps : List Process) (i : ℕ) (p : Process)
    → get_elem? ps i ≡ some p
    → counts_as_running p ≡ false
    → all_of counts_as_running ps ≡ false
unfolding all_of
held_up [] i p h k = cc
held_up (q ∷ ps) zero p h k = ground arith
held_up (q ∷ ps) (suc i) p h k = ground (arith, held_up ps i p h k)

exited_not_counted :
    (p : Process) (status : ℤ) → counts_as_running (set_exit true status (set_stopped p)) ≡ false
unfolding counts_as_running set_exit set_stopped
exited_not_counted p status = ground arith

exit_holds_up :
    (i : ℕ) (p : Process) (status : ℤ) (s : Subsystem)
    → process_at i s ≡ some p
    → all_processes_running (update_process i (set_exit true status) (mark_stopped i s)) ≡ false
unfolding all_processes_running process_at update_process
exit_holds_up i p status s h =
    held_up _ i (set_exit true status (set_stopped p))
      (get_elem?-modify i (set_exit true status) (mark_stopped i s).processes (set_stopped p)
        (process_at-mark_stopped i s p h))
      (exited_not_counted p status)

-- A oneshot that FindProcess knows and that exits in the starting-processes state, with whatever
-- status and outside an emergency abort, keeps the subsystem in that state.
pub oneshot_exit-stays :
    (env : Env) (ws : List Wake) (id i : ℕ) (p : Process) (reason : StopReason) (status : ℤ)
    (s : Subsystem) (l : Locals)
    → env.emergency_aborting ≡ false
    → find_process id s ≡ some i
    → process_at i s ≡ some p
    → p.oneshot ≡ true
    → exited_of reason ≡ true
    → (starting_processes_handler env ws s l (from_stagezero (some (stop id reason status)))).next
      ≡ Transition.stay
unfolding starting_processes_handler starting_processes_event starting_processes_stop
    starting_processes_rest
oneshot_exit-stays env ws id i p reason status s l a f h o x =
    let held = exit_holds_up i p status s h in
    rw (starting_processes_stop, a, f, h, o, x) (rw held refl)
