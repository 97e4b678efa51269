-- ===== src/Capcom/Tests/Progress.antt =====
-- capcom/state_machine.cc: two processes that start, and that stop, in whatever order.
use adastra.Prelude.{zero, suc, refl, Bool, true, false, [], ◌∷◌, pos, elem_of, lookup, all_of}
use adastra.Capcom.States.{OperState}
use adastra.Capcom.Process.{counts_as_running}
use adastra.Capcom.Message.{StopReason}
use adastra.Capcom.Subsystem.{
  Subsystem, find_process, all_processes_running, all_processes_stopped, is_stopped,
}
use adastra.Capcom.Machine.{run_in_state}
use adastra.Capcom.Handlers.StartingProcesses.{starting_processes_handler}
use adastra.Capcom.Handlers.StoppingProcesses.{stopping_processes_handler}
use adastra.Capcom.Progress.{Covers, LeavesWith}
use adastra.Capcom.Progress.Starting.{start_events, run_in_state-start_events}
use adastra.Capcom.Progress.Stopping.{stop_events, run_in_state-stop_events}
use adastra.Capcom.Tests.Samples.{camera, flying, in_state, calm, locals_for}

abbrev crew : Bool → Subsystem
crew up = record flying {
  processes =
      record camera { running = up }
      ∷ record camera { name = 4; process_id = 44; running = up }
      ∷ [];
  process_id_map = (33, 0) ∷ (44, 1) ∷ [];
}

abbrev waiting_crew : Subsystem
waiting_crew = in_state OperState.starting_processes (crew false)

abbrev leaving_crew : Subsystem
leaving_crew = in_state OperState.stopping_processes (crew true)

waiting_crew-Covers :
    Covers counts_as_running
      (44 ∷ 33 ∷ [])
      (λ id. find_process id waiting_crew)
      waiting_crew.processes
unfolding find_process lookup elem_of
waiting_crew-Covers zero p at fails = (33, (refl, refl))
waiting_crew-Covers (suc zero) p at fails = (44, (refl, refl))
waiting_crew-Covers (suc (suc i)) p at fails = absurd (cc)

leaving_crew-Covers :
    Covers is_stopped
      (33 ∷ 99 ∷ 44 ∷ [])
      (λ id. find_process id leaving_crew)
      leaving_crew.processes
unfolding find_process lookup elem_of
leaving_crew-Covers zero p at fails = (33, (refl, refl))
leaving_crew-Covers (suc zero) p at fails = (44, (refl, refl))
leaving_crew-Covers (suc (suc i)) p at fails = absurd (cc)

run_in_state-start_events_example :
    LeavesWith all_processes_running OperState.online 5 waiting_crew (
      run_in_state
        (starting_processes_handler calm [])
        0
        (start_events (44 ∷ 33 ∷ []))
        waiting_crew
        (locals_for OperState.online))
unfolding all_processes_running all_of counts_as_running
run_in_state-start_events_example =
    run_in_state-start_events calm [] (44 ∷ 33 ∷ []) waiting_crew (locals_for OperState.online) refl
      refl waiting_crew-Covers

run_in_state-stop_events_example :
    LeavesWith all_processes_stopped OperState.stopping_children 5 leaving_crew (
      run_in_state stopping_processes_handler 0
        (stop_events (λ id. StopReason.exit) (λ id. pos 0) (33 ∷ 99 ∷ 44 ∷ []))
        leaving_crew
        (locals_for OperState.stopping_children))
unfolding all_processes_stopped all_of is_stopped
run_in_state-stop_events_example =
    run_in_state-stop_events (λ id. StopReason.exit) (λ id. pos 0) (33 ∷ 99 ∷ 44 ∷ []) leaving_crew
      (locals_for OperState.stopping_children) refl refl leaving_crew-Covers
