-- ===== src/Capcom/Connections.antt =====
-- capcom/subsystem.cc and umbilical.cc: the dynamic references of a subsystem's umbilicals against
-- the processes that hold them.
use adastra.Prelude.{
  ℕ, ◌+◌, ◌≡◌, refl, false, ◌&&◌, ◌==◌, List, [], ◌∷◌, some, arith, pos, lookup, insert,
  lookup-insert, if◌then◌else◌, Bool-cases, Option-cases, inl, inr,
}
use adastra.Capcom.Umbilical.{Umbilical, precondition, disconnect}
use adastra.Capcom.Process.{Process, reset_num_restarts, reset_alarm_count}
use adastra.Capcom.Subsystem.{
  Subsystem, find_umbilical, connect_umbilical, disconnect_umbilical, process_connect,
  process_disconnect, process_stop, walk, each_process,
}
use adastra.Capcom.Subsystem.Processes.{stop_one, stop_processes, offline_one}
use adastra.Capcom.Handlers.Common.{disconnect_on, disconnect_compute}

-- Whether a process holds a reference to the umbilical of a compute.
unfoldable pub holds : ℕ → Process → ℕ
holds compute p = if p.maybe_connected && p.compute == compute then 1 else 0

unfoldable pub holders : ℕ → List Process → ℕ
holders compute [] = 0
holders compute (p ∷ ps) = holds compute p + holders compute ps

-- The umbilical of the compute, if there is one, counts n dynamic references.
abbrev pub Counts : ℕ → ℕ → Subsystem → Type 0
Counts compute n s = (u : Umbilical) → find_umbilical compute s ≡ some u → u.dynamic_refs ≡ pos n

-- Every umbilical counts the processes that hold it.
abbrev pub IsCounted : Subsystem → Type 0
IsCounted s = (compute : ℕ) → Counts compute (holders compute s.processes) s

-- The umbilicals after a change of one of them.
changed :
    (d compute n k : ℕ) (v w : Umbilical) (s t : Subsystem)
    → Counts compute n s
    → find_umbilical d s ≡ some v
    → t.umbilicals ≡ insert d w s.umbilicals
    → (d ≡ compute → v.dynamic_refs ≡ pos n → w.dynamic_refs ≡ pos k)
    → ((d == compute) ≡ false → n ≡ k)
    → Counts compute k t
unfolding find_umbilical
changed d compute n k v w s t h found e same other u at =
    let found_in : lookup compute (insert d w s.umbilicals) ≡ some u = rw (← e) at in
    let law = lookup-insert d compute w s.umbilicals in
    elim (Bool-cases (d == compute)) [
      | inl eq ↦ ground (arith, law, h v, same)
      | inr ne ↦ ground (arith, law, h u, other)
    ]

connect_umbilical-Counts :
    (d compute n : ℕ) (s : Subsystem)
    → Counts compute n s
    → Counts compute (n + (if d == compute then 1 else 0)) (connect_umbilical d s)
unfolding connect_umbilical precondition
connect_umbilical-Counts d compute n s h = elim (Option-cases (find_umbilical d s)) [
  | inl missing ↦ λ u e. ground (arith, h u)
  | inr (v, found) ↦
      changed d compute n (n + (if d == compute then 1 else 0)) v (precondition v).0 s
        (connect_umbilical d s) h found (ground arith) (λ e r. ground arith) (λ e. ground arith)
]

disconnect_umbilical-Counts :
    (d compute n : ℕ) (s : Subsystem)
    → Counts compute (n + (if d == compute then 1 else 0)) s
    → Counts compute n (disconnect_umbilical d s)
unfolding disconnect_umbilical disconnect
disconnect_umbilical-Counts d compute n s h = elim (Option-cases (find_umbilical d s)) [
  | inl missing ↦ λ u e. ground (arith, h u)
  | inr (v, found) ↦
      changed d compute (n + (if d == compute then 1 else 0)) n v (disconnect false v) s
        (disconnect_umbilical d s) h found (ground arith) (λ e r. ground arith) (λ e. ground arith)
]

-- A loop's body that keeps the count: whatever else is counted, the process's own reference before
-- is exchanged for its reference after.
abbrev pub IsExchange : (Process → Subsystem → Process × Subsystem) → Type 0
IsExchange f =
    (compute n : ℕ) (p : Process) (s : Subsystem)
    → Counts compute (n + holds compute p) s
    → Counts compute (n + holds compute (f p s).0) (f p s).1

walk-Counts :
    (f : Process → Subsystem → Process × Subsystem)
    → IsExchange f
    → (compute n : ℕ) (ps : List Process) (s : Subsystem)
    → Counts compute (n + holders compute ps) s
    → Counts compute (n + holders compute (walk f ps s).0) (walk f ps s).1
unfolding walk holders
walk-Counts f x compute n [] s h = h
walk-Counts f x compute n (p ∷ ps) s h =
    let first = x compute (n + holders compute ps) p s (λ u e. ground (arith, h u e)) in
    let rest =
      walk-Counts f x compute (n + holds compute (f p s).0) ps (f p s).1
        (λ u e. ground (arith, first u e)) in
    λ u e. ground (arith, rest u e)

each_process-IsCounted :
    (f : Process → Subsystem → Process × Subsystem)
    → IsExchange f
    → (s : Subsystem) → IsCounted s
    → IsCounted (each_process f s)
unfolding each_process find_umbilical
each_process-IsCounted f x s h compute u e =
    let walked =
      walk-Counts f x compute 0 s.processes s (λ v k. ground (arith, h compute v k)) u e in
    ground (arith, walked)

process_connect-IsExchange : IsExchange process_connect
unfolding process_connect holds
process_connect-IsExchange compute n p s h u e = elim (Bool-cases p.maybe_connected) [
  | inl held ↦ ground (arith, h u)
  | inr free ↦
      ground
        (arith, connect_umbilical-Counts p.compute compute n s (λ v k. ground (arith, h v k)) u)
]

process_disconnect-IsExchange : IsExchange process_disconnect
unfolding process_disconnect holds
process_disconnect-IsExchange compute n p s h u e = elim (Bool-cases p.maybe_connected) [
  | inl held ↦
      ground
        (arith, disconnect_umbilical-Counts p.compute compute n s (λ v k. ground (arith, h v k)) u)
  | inr free ↦ ground (arith, h u)
]

disconnect_on-IsExchange : (compute : ℕ) → IsExchange (disconnect_on compute)
unfolding disconnect_on
disconnect_on-IsExchange d compute n p s h u e =
    ground (arith, h u, process_disconnect-IsExchange compute n p s h u)

stop_one-IsExchange : IsExchange stop_one
unfolding stop_one process_stop holds reset_num_restarts find_umbilical
stop_one-IsExchange compute n p s h u e =
    ground (arith, h u, process_disconnect-IsExchange compute n p s h u)

offline_one-IsExchange : IsExchange offline_one
unfolding offline_one holds reset_num_restarts reset_alarm_count
offline_one-IsExchange compute n p s h u e =
    ground (arith, process_disconnect-IsExchange compute n p s h u e)

-- If the dynamic references of every umbilical of a subsystem are the number of its processes that
-- hold it, they are so after connecting the processes, after StopProcesses, after
-- DisconnectProcessesForCompute, and after the loop of the offline state.
pub connections-IsCounted :
    (s : Subsystem)
    → IsCounted s
    → IsCounted (each_process process_connect s)
      × IsCounted (stop_processes s)
      × ((compute : ℕ) → IsCounted (disconnect_compute compute s))
      × IsCounted (each_process offline_one s)
unfolding stop_processes disconnect_compute
connections-IsCounted s h = (
  each_process-IsCounted process_connect process_connect-IsExchange s h,
  each_process-IsCounted stop_one stop_one-IsExchange s h,
  λ compute. each_process-IsCounted (disconnect_on compute) (disconnect_on-IsExchange compute) s h,
  each_process-IsCounted offline_one offline_one-IsExchange s h,
)

offline_walk-holders :
    (compute : ℕ) (ps : List Process) (s : Subsystem)
    → holders compute (walk offline_one ps s).0 ≡ 0
unfolding walk holders offline_one holds reset_num_restarts reset_alarm_count process_disconnect
offline_walk-holders compute [] s = refl
offline_walk-holders compute (p ∷ ps) s =
    ground (arith, offline_walk-holders compute ps (offline_one p s).1)

-- If the umbilicals are counted as above, then after the loop of the offline state no umbilical has
-- a dynamic reference left.
pub offline-releases :
    (s : Subsystem) (compute : ℕ) (u : Umbilical)
    → IsCounted s
    → find_umbilical compute (each_process offline_one s) ≡ some u
    → u.dynamic_refs ≡ pos 0
unfolding each_process
offline-releases s compute u h e =
    ground
      (arith, (connections-IsCounted s h).3 compute u e, offline_walk-holders compute s.processes s)
