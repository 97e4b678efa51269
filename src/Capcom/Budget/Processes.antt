-- ===== src/Capcom/Budget/Processes.antt =====
-- capcom/subsystem.h and subsystem.cc: the restarts of one process.
use adastra.Prelude.{ℕ, zero, suc, ◌+◌, ◌*◌, ◌^◌, ◌≡◌, arith, min_of, ltb, if◌then◌else◌}
use native.Mathlib.Nat.{pow-suc}
use adastra.Capcom.Process.{Process, max_restart_delay, inc_restart_delay, inc_num_restarts}
use adastra.Capcom.Restart.{delay_restart}

-- k restarts of a process in a row.
unfoldable pub process_restarts : ℕ → Process → Process
process_restarts zero p = p
process_restarts (suc k) p = delay_restart (process_restarts k p)

doubled : (q d : ℕ) → d ≡ min_of 32 q → (if ltb 32 (d * 2) then 32 else d * 2) ≡ min_of 32 (q * 2)
doubled q d h = ground arith

-- From a restart delay of one second, the delay that the next restart of a process uses after k
-- restarts of it is 2 ^ k seconds, capped at 32, and all k are counted.
pub process_restarts-delay :
    (k : ℕ) (p : Process)
    → p.restart_delay ≡ 1
    → ((inc_restart_delay (process_restarts k p)).1 ≡ min_of max_restart_delay (2 ^ k))
      × ((process_restarts k p).num_restarts ≡ p.num_restarts + k)
unfolding process_restarts delay_restart inc_restart_delay inc_num_restarts
process_restarts-delay zero p h = (ground arith, ground arith)
process_restarts-delay (suc k) p h =
    let ih = process_restarts-delay k p h in
    (
      rw (pow-suc 2 k) (doubled (2 ^ k) (process_restarts k p).restart_delay ih.0),
      ground (arith, ih),
    )
