-- ===== src/Capcom/Progress/Stopping.antt =====
-- capcom/state_machine.cc: the stopping-processes state is left once every process has stopped.
use adastra.Prelude.{
  ℕ, ◌≡◌, refl, true, false, List, [], ◌∷◌, none, some, arith, get_elem?, modify, elem_of, ◌==◌,
  inl, inr, Bool-cases, Option-cases, ℤ,
}
use adastra.Capcom.States.{AdminState}
use adastra.Capcom.Process.{Process, set_stopped}
use adastra.Capcom.Message.{from_stagezero, stop, StopReason}
use adastra.Capcom.Subsystem.{
  Subsystem, find_process, process_at, update_process, mark_stopped, delete_process_id, is_stopped,
  all_processes_stopped, send_to_children,
}
use adastra.Capcom.Subsystem.Laws.{get_elem?-modify}
use adastra.Capcom.Machine.{Locals, Wake, woken, Outcome, run_in_state, enter_state}
use adastra.Capcom.Handlers.StoppingProcesses.{
  stopping_processes_stop, stopping_processes_event, stopping_processes_rest,
  stopping_processes_handler,
}
use adastra.Capcom.Progress.{
  get_elem?-modify_other, get_elem?-modify_missing, modify-missing, failing, Covers, uncovered,
  passed, LeavesWith,
}

-- A stop event changes neither the map from ids, nor `running_`, nor the coroutines.
find_process-stop :
    (id j : ℕ) (s : Subsystem) → find_process j (stopping_processes_stop id s) ≡ find_process j s
unfolding find_process stopping_processes_stop mark_stopped delete_process_id update_process
find_process-stop id j s = ground arith

stop-running : (id : ℕ) (s : Subsystem) → (stopping_processes_stop id s).running ≡ s.running
unfolding stopping_processes_stop mark_stopped delete_process_id update_process
stop-running id s = ground arith

stop-coroutines :
    (id : ℕ) (s : Subsystem) → (stopping_processes_stop id s).coroutines ≡ s.coroutines
unfolding stopping_processes_stop mark_stopped delete_process_id update_process
stop-coroutines id s = ground arith

stop_unknown :
    (id : ℕ) (s : Subsystem) → find_process id s ≡ none → stopping_processes_stop id s ≡ s
unfolding stopping_processes_stop
stop_unknown id s h = rw (h, stopping_processes_stop) refl

mark_stopped-processes :
    (k : ℕ) (s : Subsystem) → (mark_stopped k s).processes ≡ modify k set_stopped s.processes
unfolding mark_stopped delete_process_id update_process process_at
mark_stopped-processes k s = elim (Option-cases (process_at k s)) [
  | inl missing ↦ rw (missing, mark_stopped) (cc (modify-missing k set_stopped s.processes missing))
  | inr (p, there) ↦ rw (there, mark_stopped) refl
]

stop-processes :
    (id k : ℕ) (s : Subsystem)
    → find_process id s ≡ some k
    → (stopping_processes_stop id s).processes ≡ modify k set_stopped s.processes
unfolding stopping_processes_stop
stop-processes id k s found =
    rw (found, stopping_processes_stop) (ground (arith, mark_stopped-processes k s))

stop-other :
    (id k i : ℕ) (s : Subsystem)
    → find_process id s ≡ some k
    → (k == i) ≡ false
    → get_elem? (stopping_processes_stop id s).processes i ≡ get_elem? s.processes i
stop-other id k i s found other =
    cc (stop-processes id k s found, get_elem?-modify_other k i set_stopped s.processes other)

-- The process that the event names counts as stopped.
stop-counts :
    (id k : ℕ) (s : Subsystem) (q : Process)
    → find_process id s ≡ some k
    → get_elem? (stopping_processes_stop id s).processes k ≡ some q
    → is_stopped q ≡ true
unfolding is_stopped set_stopped
stop-counts id k s q found at =
    let opened : get_elem? (modify k set_stopped s.processes) k ≡ some q =
      cc (at, stop-processes id k s found) in
    elim (Option-cases (get_elem? s.processes k)) [
      | inl missing ↦
          absurd (cc (opened, get_elem?-modify_missing k set_stopped s.processes missing))
      | inr (p, there) ↦
          let same : some q ≡ some (set_stopped p) =
            cc (opened, get_elem?-modify k set_stopped s.processes p there) in
          ground (arith, same)
    ]

-- The ids after a stop event cover the processes that have not stopped yet.
stop-Covers :
    (id : ℕ) (ids : List ℕ) (s : Subsystem)
    → Covers is_stopped (id ∷ ids) (λ j. find_process j s) s.processes
    → Covers is_stopped ids
        (λ j. find_process j (stopping_processes_stop id s))
        (stopping_processes_stop id s).processes
stop-Covers id ids s covers =
    let t = stopping_processes_stop id s in
    let found_in = λ (j : ℕ). find_process j s in
    let left : Covers is_stopped ids found_in t.processes =
      elim (Option-cases (find_process id s)) [
        | inl missing ↦
            rw (stop_unknown id s missing)
              (uncovered is_stopped found_in id ids s.processes missing covers)
        | inr (k, found) ↦
            passed is_stopped found_in id k ids s.processes t.processes found covers
              (λ q at. stop-counts id k s q found at) (λ i other. stop-other id k i s found other)
      ] in
    λ i p at fails.
      let (j, (among, found)) = left i p at fails in
      (j, (among, cc (find_process-stop id j s, found)))

-- The wake-ups that bring the stop events, each for its own reason.
abbrev pub stop_events : (ℕ → StopReason) → (ℕ → ℤ) → List ℕ → List Wake
stop_events reason status [] = []
stop_events reason status (id ∷ ids) =
    woken 0 (from_stagezero (some (stop id (reason id) (status id))))
    ∷ stop_events reason status ids

-- The subsystem after the stop event that leaves the state.
abbrev after_stop : ℕ → Subsystem → Locals → Subsystem
after_stop id s l =
    enter_state l.next_state l.client_id
      (send_to_children AdminState.offline l.client_id (stopping_processes_stop id s))

-- The run over one stop event that leaves the state, and over one that does not.
last_event :
    (id : ℕ) (reason : StopReason) (status : ℤ) (ws : List Wake) (s : Subsystem) (l : Locals)
    → s.running ≡ true
    → all_processes_stopped (stopping_processes_stop id s) ≡ true
    → run_in_state stopping_processes_handler 0
        (woken 0 (from_stagezero (some (stop id reason status))) ∷ ws)
        s
        l
      ≡ record { sub = after_stop id s l; locals = l; outcome = Outcome.handled; remaining = 0 }
unfolding run_in_state stopping_processes_handler stopping_processes_event stopping_processes_rest
last_event id reason status ws s l run done = rw (done, stopping_processes_rest, run) refl

stopped_now :
    (id : ℕ) (s : Subsystem) (l : Locals)
    → all_processes_stopped (stopping_processes_stop id s) ≡ true
    → (all_processes_stopped (after_stop id s l) ≡ true)
      × (((after_stop id s l).oper_state ≡ l.next_state)
          × ((after_stop id s l).coroutines ≡ (l.next_state, l.client_id) ∷ s.coroutines))
unfolding all_processes_stopped enter_state send_to_children
stopped_now id s l done = (done, (refl, cc (stop-coroutines id s)))

early_event :
    (id : ℕ) (reason : StopReason) (status : ℤ) (ws : List Wake) (s : Subsystem) (l : Locals)
    → s.running ≡ true
    → all_processes_stopped (stopping_processes_stop id s) ≡ false
    → run_in_state stopping_processes_handler 0
        (woken 0 (from_stagezero (some (stop id reason status))) ∷ ws)
        s
        l
      ≡ run_in_state stopping_processes_handler 0 ws (stopping_processes_stop id s) l
unfolding run_in_state stopping_processes_handler stopping_processes_event stopping_processes_rest
early_event id reason status ws s l run more = rw (more, stopping_processes_rest, run) refl

-- Shutdown of the processes ends: if the loop of the stopping-processes state runs, not every
-- process has stopped, and stop events come, for any reasons, in any order and with unknown ids
-- among them, for every process that runs, then the handler leaves the state with all processes
-- stopped, for the state that it was told, with that one coroutine handed over.
pub run_in_state-stop_events :
    (reason : ℕ → StopReason) (status : ℕ → ℤ) (ids : List ℕ) (s : Subsystem) (l : Locals)
    → s.running ≡ true
    → all_processes_stopped s ≡ false
    → Covers is_stopped ids (λ id. find_process id s) s.processes
    → LeavesWith all_processes_stopped l.next_state l.client_id s
        (run_in_state stopping_processes_handler 0 (stop_events reason status ids) s l)
unfolding all_processes_stopped elem_of
run_in_state-stop_events reason status [] s l run not_all covers =
    let (i, (p, (at, fails))) = failing is_stopped s.processes not_all in
    absurd (cc (covers i p at fails).1.0)
run_in_state-stop_events reason status (id ∷ ids) s l run not_all covers =
    let t = stopping_processes_stop id s in
    elim (Bool-cases (all_processes_stopped t)) [
      | inl done ↦
          rw (last_event id (reason id) (status id) (stop_events reason status ids) s l run done)
            (refl, stopped_now id s l done)
      | inr more ↦
          let (ended, (all, (state, added))) =
            run_in_state-stop_events reason status ids t l (cc (stop-running id s, run)) more
              (stop-Covers id ids s covers) in
          rw (early_event id (reason id) (status id) (stop_events reason status ids) s l run more)
            (ended, (all, (state, cc (added, stop-coroutines id s))))
    ]
