-- ===== src/Capcom/Keeps/Loops.antt =====
-- capcom/subsystem.cc: the loops over the processes, by what their bodies leave alone.
use adastra.Prelude.{ℕ, suc, List, [], ◌∷◌, arith}
use adastra.Capcom.Process.{Process}
use adastra.Capcom.Subsystem.{
  Env, Subsystem, each_process, walk, update_process, process_stop, record_process_id, emit,
}
use adastra.Capcom.Subsystem.Processes.{
  launch_one, launch_from, launch_processes, stop_one, stop_processes, restart_one, restart_each,
  restart_processes, offline_one, positions,
}
use adastra.Capcom.Handlers.Common.{disconnect_on, disconnect_compute}
use adastra.Capcom.Handlers.Online.{telemetry_one}
use adastra.Capcom.Keeps.{
  Keeps, Keeps-refl, Keeps-trans, process_disconnect-Keeps, process_stop-Keeps,
}

-- The body of a loop keeps the subsystem around the process.
abbrev pub BodyKeeps : (Process → Subsystem → Process × Subsystem) → Type 0
BodyKeeps f = (p : Process) (s : Subsystem) → Keeps s (f p s).1

walk-Keeps :
    (f : Process → Subsystem → Process × Subsystem)
    → BodyKeeps f
    → (ps : List Process) (s : Subsystem) → Keeps s (walk f ps s).1
unfolding walk
walk-Keeps f h [] s = Keeps-refl s
walk-Keeps f h (p ∷ ps) s =
    Keeps-trans s (f p s).1 (walk f ps (f p s).1).1 (h p s) (walk-Keeps f h ps (f p s).1)

pub each_process-Keeps :
    (f : Process → Subsystem → Process × Subsystem)
    → BodyKeeps f
    → (s : Subsystem) → Keeps s (each_process f s)
unfolding each_process
each_process-Keeps f h s = ground (arith, walk-Keeps f h s.processes s)

stop_one-Keeps : BodyKeeps stop_one
unfolding stop_one
stop_one-Keeps p s = ground (arith, process_stop-Keeps p s, process_disconnect-Keeps p s)

pub stop_processes-Keeps : (s : Subsystem) → Keeps s (stop_processes s)
unfolding stop_processes
stop_processes-Keeps s = each_process-Keeps stop_one stop_one-Keeps s

pub offline_one-Keeps : BodyKeeps offline_one
unfolding offline_one
offline_one-Keeps p s = process_disconnect-Keeps p s

disconnect_on-Keeps : (c : ℕ) → BodyKeeps (disconnect_on c)
unfolding disconnect_on
disconnect_on-Keeps c p s = ground (arith, process_disconnect-Keeps p s)

pub disconnect_compute-Keeps : (c : ℕ) (s : Subsystem) → Keeps s (disconnect_compute c s)
unfolding disconnect_compute
disconnect_compute-Keeps c s = each_process-Keeps (disconnect_on c) (disconnect_on-Keeps c) s

pub telemetry_one-Keeps : BodyKeeps telemetry_one
unfolding telemetry_one emit
telemetry_one-Keeps p s = ground arith

launch_one-Keeps :
    (env : Env) (i : ℕ) (p : Process) (s : Subsystem) → Keeps s (launch_one env i p s).1
unfolding launch_one record_process_id
launch_one-Keeps env i p s = ground arith

launch_from-Keeps :
    (env : Env) (i : ℕ) (ps : List Process) (s : Subsystem) → Keeps s (launch_from env i ps s).1
unfolding launch_from
launch_from-Keeps env i [] s = Keeps-refl s
launch_from-Keeps env i (p ∷ ps) s =
    let here = launch_one-Keeps env i p s in
    let rest = launch_from-Keeps env (suc i) ps (launch_one env i p s).1 in
    ground (arith, Keeps-trans s (launch_one env i p s).1 _ here rest)

pub launch_processes-Keeps : (env : Env) (s : Subsystem) → Keeps s (launch_processes env s).0
unfolding launch_processes
launch_processes-Keeps env s = ground (arith, launch_from-Keeps env 0 s.processes s)

restart_one-Keeps : (i : ℕ) (s : Subsystem) → Keeps s (restart_one i s)
unfolding restart_one update_process process_stop
restart_one-Keeps i s = ground arith

restart_each-Keeps : (is : List ℕ) (s : Subsystem) → Keeps s (restart_each is s)
unfolding restart_each
restart_each-Keeps [] s = Keeps-refl s
restart_each-Keeps (i ∷ is) s =
    let t = record (restart_one i s) {
      processes_to_restart = i ∷ (restart_one i s).processes_to_restart;
    } in
    Keeps-trans s t (restart_each is t) (ground (arith, restart_one-Keeps i s))
      (restart_each-Keeps is t)

pub restart_processes-Keeps : (is : List ℕ) (s : Subsystem) → Keeps s (restart_processes is s)
unfolding restart_processes
restart_processes-Keeps [] s =
    ground
      (arith, stop_processes-Keeps (record s { processes_to_restart = positions 0 s.processes }))
restart_processes-Keeps (i ∷ is) s =
    ground (arith, restart_each-Keeps (i ∷ is) (record s { processes_to_restart = [] }))
