-- ===== src/Capcom/Subsystem/Processes.antt =====
-- The loops over the processes of a subsystem (capcom/subsystem.cc): launch, stop, restart.
use adastra.Prelude.{ℕ, suc, Bool, true, false, none, some, List, [], ◌∷◌, negsuc, if◌then◌else◌}
use adastra.Capcom.Process.{Process, set_exit, reset_num_restarts, reset_alarm_count}
use adastra.Capcom.Subsystem.{
  Env, Subsystem, find_umbilical, record_process_id, process_disconnect, process_stop, each_process,
  process_at, update_process, map_process,
}

-- Launch of one process in the loop of LaunchProcesses: its answer, and whether it succeeded.
unfoldable pub launch_one : Env → ℕ → Process → Subsystem → Process × Subsystem × Bool
launch_one env i p s =
    let q = set_exit false (negsuc 0) p in
    elim p.running [
      | true ↦ (p, s, true)
      | false ↦ elim (find_umbilical p.compute s) [
        | none ↦ (q, s, false)
        | some u ↦ elim (env.launch q) [
          | none ↦ (q, s, false)
          | some (id, pid) ↦
              (record q { process_id = id; pid = pid }, record_process_id id i s, true)
        ]
      ]
    ]

-- The first failure ends the loop.
unfoldable pub launch_from : Env → ℕ → List Process → Subsystem → List Process × Subsystem × Bool
launch_from env i [] s = ([], s, true)
launch_from env i (p ∷ ps) s =
    let (p', t, launched) = launch_one env i p s in
    let (ps', u, rest_ok) = launch_from env (suc i) ps t in
    elim launched [ true ↦ (p' ∷ ps', u, rest_ok) | false ↦ (p' ∷ ps, t, false) ]

-- Subsystem::LaunchProcesses.
unfoldable pub launch_processes : Env → Subsystem → Subsystem × Bool
launch_processes env s =
    let (ps, t, all_ok) = launch_from env 0 s.processes s in (record t { processes = ps }, all_ok)

-- The body of the loop of StopProcesses.
unfoldable pub stop_one : Process → Subsystem → Process × Subsystem
stop_one p s = if p.running then process_stop p s else process_disconnect p s

-- Subsystem::StopProcesses.
unfoldable pub stop_processes : Subsystem → Subsystem
stop_processes s = each_process stop_one s

-- Subsystem::ResetProcessRestarts.
unfoldable pub reset_process_restarts : Subsystem → Subsystem
reset_process_restarts s = record s { processes = map_process reset_num_restarts s.processes }

-- The body of the loop of RestartProcesses over the processes that are named.
unfoldable pub restart_one : ℕ → Subsystem → Subsystem
restart_one i s = elim (process_at i s) [
  | none ↦ s
  | some p ↦ let (p', t) = process_stop p s in if p.running then update_process i (λ _. p') t else s
]

unfoldable pub restart_each : List ℕ → Subsystem → Subsystem
restart_each [] s = s
restart_each (i ∷ is) s =
    let t = restart_one i s in
    restart_each is (record t { processes_to_restart = i ∷ t.processes_to_restart })

-- The positions of a list of processes.
unfoldable pub positions : ℕ → List Process → List ℕ
positions i [] = []
positions i (p ∷ ps) = i ∷ positions (suc i) ps

-- Subsystem::RestartProcesses. The order of `processes_to_restart` does not matter to its only
-- reader, AllProcessesStopped: it is kept newest first.
unfoldable pub restart_processes : List ℕ → Subsystem → Subsystem
restart_processes [] s =
    stop_processes (record s { processes_to_restart = positions 0 s.processes })
restart_processes (i ∷ is) s = restart_each (i ∷ is) (record s { processes_to_restart = [] })

-- The body of the loop of Offline.
unfoldable pub offline_one : Process → Subsystem → Process × Subsystem
offline_one p s =
    let (q, t) = process_disconnect p s in (reset_num_restarts (reset_alarm_count q), t)
