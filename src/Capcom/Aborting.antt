-- ===== src/Capcom/Aborting.antt =====
-- capcom/state_machine.cc: Subsystem::Abort, in a state's handler and in the wait before a restart.
use adastra.Prelude.{ℕ, ◌≡◌, refl, Bool, true, false, not, ◌&&◌, List, [], ◌∷◌, some, arith, all_of}
use adastra.Capcom.States.{AdminState, OperState}
use adastra.Capcom.BitSet.{is_empty, clear_all, BitSet}
use adastra.Capcom.Process.{Process, set_stopped}
use adastra.Capcom.Message.{Message, Code, from_pipe}
use adastra.Capcom.Subsystem.{Subsystem, no_client, map_process, is_stopped, all_processes_stopped}
use adastra.Capcom.Machine.{
  Locals, Transition, Wake, woken, Outcome, abort, enter_state, run_in_state, fresh_locals,
}
use adastra.Capcom.Restart.{
  wait_for_restart, wait_handler, wait_message, restart_subsystem, count_restart,
}

clear_all-is_empty : (bits : BitSet) → is_empty (clear_all bits) ≡ true
unfolding clear_all is_empty
clear_all-is_empty [] = refl
clear_all-is_empty (w ∷ bits) = clear_all-is_empty bits

all_stopped : (ps : List Process) → all_of is_stopped (map_process set_stopped ps) ≡ true
unfolding map_process all_of is_stopped set_stopped
all_stopped [] = refl
all_stopped (p ∷ ps) = all_stopped ps

-- Abort leaves for the offline state, admin and operational, with no client and no running process,
-- unless the subsystem is critical and the abort no emergency, when it stays with nothing changed.
pub abort_lem :
    (emergency : Bool) (s : Subsystem) (l : Locals)
    → ((not emergency && s.critical) ≡ false
        → ((abort emergency s l).next ≡ Transition.leave)
          × ((abort emergency s l).sub.oper_state ≡ OperState.offline)
          × ((abort emergency s l).sub.admin_state ≡ AdminState.offline)
          × (is_empty (abort emergency s l).sub.active_clients ≡ true)
          × (all_processes_stopped (abort emergency s l).sub ≡ true))
      × ((not emergency && s.critical) ≡ true
          → ((abort emergency s l).next ≡ Transition.stay) × ((abort emergency s l).sub ≡ s))
unfolding abort enter_state all_processes_stopped
abort_lem emergency s l = (
  λ h. ground (arith, clear_all-is_empty s.active_clients, all_stopped s.processes),
  λ h. ground arith,
)

-- A message of abort, in an emergency.
abbrev pub IsEmergency : Message → Type 0
IsEmergency m = (m.code ≡ Code.abort) × (m.emergency_abort ≡ true)

aborted_wait :
    (t : ℕ) (m : Message) (ws : List Wake) (s : Subsystem)
    → IsEmergency m
    → s.running ≡ true
    → ((wait_for_restart (woken t (from_pipe (some m)) ∷ ws) s).outcome ≡ Outcome.handled)
      × ((wait_for_restart (woken t (from_pipe (some m)) ∷ ws) s).sub
          ≡ (abort true (count_restart s) (fresh_locals 0 OperState.offline)).sub)
unfolding wait_for_restart run_in_state wait_handler wait_message abort enter_state count_restart
aborted_wait t m ws s h r = rw (h.0, h.1, r) (refl, refl)

-- An emergency abort that comes first in the wait of a running subsystem before a restart does not
-- stop the restart: two coroutines are handed over, for the offline and the restarting state, and
-- the subsystem is restarting although it is admin offline.
pub aborted_wait-restarts :
    (t c : ℕ) (m : Message) (ws : List Wake) (s : Subsystem) (l : Locals)
    → IsEmergency m
    → s.running ≡ true
    → ((restart_subsystem (woken t (from_pipe (some m)) ∷ ws) c s l).next ≡ Transition.leave)
      × ((restart_subsystem (woken t (from_pipe (some m)) ∷ ws) c s l).sub.coroutines
          ≡ (OperState.restarting, c) ∷ (OperState.offline, no_client) ∷ s.coroutines)
      × ((restart_subsystem (woken t (from_pipe (some m)) ∷ ws) c s l).sub.oper_state
          ≡ OperState.restarting)
      × ((restart_subsystem (woken t (from_pipe (some m)) ∷ ws) c s l).sub.admin_state
          ≡ AdminState.offline)
unfolding restart_subsystem enter_state abort count_restart
aborted_wait-restarts t c m ws s l h r =
    let w = aborted_wait t m ws s h r in rw (restart_subsystem, w.0, w.1) (refl, refl, refl, refl)
