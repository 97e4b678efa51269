-- ===== src/Capcom/Progress/Starting.antt =====
-- capcom/state_machine.cc: the starting-processes state is left once every process has started.
use adastra.Prelude.{
  ℕ, ◌≡◌, refl, true, false, List, [], ◌∷◌, none, some, arith, get_elem?, modify, elem_of, ◌==◌,
  inl, inr, Bool-cases, Option-cases,
}
use adastra.Capcom.States.{OperState}
use adastra.Capcom.Process.{Process, set_running, clear_raised, counts_as_running}
use adastra.Capcom.Message.{from_stagezero, start}
use adastra.Capcom.Subsystem.{
  Env, Subsystem, emit, find_process, process_at, update_process, clear_alarm,
  all_processes_running,
}
use adastra.Capcom.Subsystem.Laws.{get_elem?-modify}
use adastra.Capcom.Machine.{Locals, Wake, woken, Outcome, run_in_state, enter_state}
use adastra.Capcom.Handlers.StartingProcesses.{
  starting_processes_start, starting_processes_event, starting_processes_rest,
  starting_processes_handler,
}
use adastra.Capcom.Progress.{
  get_elem?-modify_other, get_elem?-modify_missing, failing, Covers, uncovered, passed, LeavesWith,
}

-- A start event changes neither the map from ids nor `running_`.
find_process-start :
    (id j : ℕ) (s : Subsystem) → find_process j (starting_processes_start id s) ≡ find_process j s
unfolding find_process starting_processes_start clear_alarm update_process emit
find_process-start id j s = ground arith

started-running : (id : ℕ) (s : Subsystem) → (starting_processes_start id s).running ≡ s.running
unfolding starting_processes_start clear_alarm update_process emit
started-running id s = ground arith

start_unknown :
    (id : ℕ) (s : Subsystem) → find_process id s ≡ none → starting_processes_start id s ≡ s
unfolding starting_processes_start
start_unknown id s h = rw (h, starting_processes_start) refl

clear_alarm-missing : (k : ℕ) (s : Subsystem) → process_at k s ≡ none → clear_alarm k s ≡ s
unfolding clear_alarm
clear_alarm-missing k s h = rw (h, clear_alarm) refl

clear_alarm-processes :
    (k : ℕ) (s : Subsystem) (p : Process)
    → process_at k s ≡ some p
    → (clear_alarm k s).processes ≡ modify k (λ _. (clear_raised p).0) s.processes
unfolding clear_alarm update_process emit clear_raised
clear_alarm-processes k s p h = rw (h, clear_alarm) (ground arith)

clear_raised-running : (p : Process) → (clear_raised p).0.running ≡ p.running
unfolding clear_raised
clear_raised-running p = ground arith

start_known :
    (id k : ℕ) (s : Subsystem)
    → find_process id s ≡ some k
    → starting_processes_start id s ≡ clear_alarm k (update_process k set_running s)
unfolding starting_processes_start
start_known id k s h = rw (h, starting_processes_start) refl

started-coroutines :
    (id : ℕ) (s : Subsystem) → (starting_processes_start id s).coroutines ≡ s.coroutines
unfolding starting_processes_start clear_alarm update_process emit
started-coroutines id s = ground arith

-- An alarm that is cleared leaves the other processes as they are.
clear_alarm-other :
    (k i : ℕ) (s : Subsystem)
    → (k == i) ≡ false
    → get_elem? (clear_alarm k s).processes i ≡ get_elem? s.processes i
clear_alarm-other k i s h = elim (Option-cases (process_at k s)) [
  | inl missing ↦ rw (clear_alarm-missing k s missing) refl
  | inr (p, there) ↦
      rw (clear_alarm-processes k s p there)
        (get_elem?-modify_other k i (λ _. (clear_raised p).0) s.processes h)
]

started-other :
    (id k i : ℕ) (s : Subsystem)
    → find_process id s ≡ some k
    → (k == i) ≡ false
    → get_elem? (starting_processes_start id s).processes i ≡ get_elem? s.processes i
unfolding starting_processes_start update_process
started-other id k i s found other =
    let first = clear_alarm-other k i (update_process k set_running s) other in
    let second = get_elem?-modify_other k i set_running s.processes other in
    rw (found, starting_processes_start) (cc)

-- The process that the event names counts as running.
started-counts :
    (id k : ℕ) (s : Subsystem) (q : Process)
    → find_process id s ≡ some k
    → get_elem? (starting_processes_start id s).processes k ≡ some q
    → counts_as_running q ≡ true
unfolding starting_processes_start update_process counts_as_running process_at set_running
started-counts id k s q found at =
    let t = update_process k set_running s in
    let opened : get_elem? (clear_alarm k t).processes k ≡ some q =
      cc (at, start_known id k s found) in
    elim (Option-cases (get_elem? s.processes k)) [
      | inl missing ↦
          let gone : process_at k t ≡ none =
            get_elem?-modify_missing k set_running s.processes missing in
          absurd (cc (opened, clear_alarm-missing k t gone, gone))
      | inr (p, there) ↦
          let runs : process_at k t ≡ some (set_running p) =
            get_elem?-modify k set_running s.processes p there in
          let cleared =
            get_elem?-modify k (λ _. (clear_raised (set_running p)).0) t.processes (set_running p)
              runs in
          let keeps = clear_raised-running (set_running p) in
          let same : some q ≡ some ((clear_raised (set_running p)).0) =
            cc (opened, cleared, clear_alarm-processes k t (set_running p) runs) in
          ground (arith, same, keeps)
    ]

-- The wake-ups that bring the start events.
abbrev pub start_events : List ℕ → List Wake
start_events [] = []
start_events (id ∷ ids) = woken 0 (from_stagezero (some (start id))) ∷ start_events ids

-- The run over one start event that leaves the state, and over one that does not.
last_event :
    (env : Env) (inner : List Wake) (id : ℕ) (ws : List Wake) (s : Subsystem) (l : Locals)
    → s.running ≡ true
    → all_processes_running (starting_processes_start id s) ≡ true
    → run_in_state
        (starting_processes_handler env inner)
        0
        (woken 0 (from_stagezero (some (start id))) ∷ ws)
        s
        l
      ≡ record {
        sub = enter_state l.next_state l.client_id (starting_processes_start id s);
        locals = l;
        outcome = Outcome.handled;
        remaining = 0;
      }
unfolding run_in_state starting_processes_handler starting_processes_event starting_processes_rest
last_event env inner id ws s l run done = rw (done, starting_processes_rest, run) refl

early_event :
    (env : Env) (inner : List Wake) (id : ℕ) (ws : List Wake) (s : Subsystem) (l : Locals)
    → s.running ≡ true
    → all_processes_running (starting_processes_start id s) ≡ false
    → run_in_state
        (starting_processes_handler env inner)
        0
        (woken 0 (from_stagezero (some (start id))) ∷ ws)
        s
        l
      ≡ run_in_state (starting_processes_handler env inner) 0 ws (starting_processes_start id s) l
unfolding run_in_state starting_processes_handler starting_processes_event starting_processes_rest
early_event env inner id ws s l run more = rw (more, starting_processes_rest, run) refl

-- The ids after a start event cover the processes that are not running yet.
started-Covers :
    (id : ℕ) (ids : List ℕ) (s : Subsystem)
    → Covers counts_as_running (id ∷ ids) (λ j. find_process j s) s.processes
    → Covers counts_as_running ids
        (λ j. find_process j (starting_processes_start id s))
        (starting_processes_start id s).processes
started-Covers id ids s covers =
    let t = starting_processes_start id s in
    let found_in = λ (j : ℕ). find_process j s in
    let left : Covers counts_as_running ids found_in t.processes =
      elim (Option-cases (find_process id s)) [
        | inl missing ↦
            rw (start_unknown id s missing)
              (uncovered counts_as_running found_in id ids s.processes missing covers)
        | inr (k, found) ↦
            passed counts_as_running found_in id k ids s.processes t.processes found covers
              (λ q at. started-counts id k s q found at)
              (λ i other. started-other id k i s found other)
      ] in
    λ i p at fails.
      let (j, (among, found)) = left i p at fails in
      (j, (among, cc (find_process-start id j s, found)))

started_now :
    (id : ℕ) (s : Subsystem) (next : OperState) (c : ℕ)
    → all_processes_running (starting_processes_start id s) ≡ true
    → let t = enter_state next c (starting_processes_start id s) in
      (all_processes_running t ≡ true)
      × ((t.oper_state ≡ next) × (t.coroutines ≡ (next, c) ∷ s.coroutines))
unfolding all_processes_running enter_state starting_processes_start update_process clear_alarm emit
started_now id s next c done = (done, (refl, ground arith))

-- Start-up ends: if the loop of the starting-processes state runs, not every process counts as
-- running, and start events come, in any order and with unknown ids among them, for every process
-- that does not, then the handler leaves the state with all processes running, for the state that
-- it was told, with that one coroutine handed over.
pub run_in_state-start_events :
    (env : Env) (inner : List Wake) (ids : List ℕ) (s : Subsystem) (l : Locals)
    → s.running ≡ true
    → all_processes_running s ≡ false
    → Covers counts_as_running ids (λ id. find_process id s) s.processes
    → LeavesWith all_processes_running l.next_state l.client_id s
        (run_in_state (starting_processes_handler env inner) 0 (start_events ids) s l)
unfolding all_processes_running elem_of
run_in_state-start_events env inner [] s l run not_all covers =
    let (i, (p, (at, fails))) = failing counts_as_running s.processes not_all in
    absurd (cc (covers i p at fails).1.0)
run_in_state-start_events env inner (id ∷ ids) s l run not_all covers =
    let t = starting_processes_start id s in
    elim (Bool-cases (all_processes_running t)) [
      | inl done ↦
          rw (last_event env inner id (start_events ids) s l run done)
            (refl, started_now id s l.next_state l.client_id done)
      | inr more ↦
          let (ended, (all, (state, added))) =
            run_in_state-start_events env inner ids t l (cc (started-running id s, run)) more
              (started-Covers id ids s covers) in
          rw (early_event env inner id (start_events ids) s l run more)
            (ended, (all, (state, cc (added, started-coroutines id s))))
    ]
