-- ===== src/Capcom/Budget.antt =====
-- capcom/state_machine.cc and subsystem.h: how often, and after which delays, things are restarted.
pub mod Crash
pub mod Processes
use adastra.Prelude.{
  ℕ, zero, suc, ◌+◌, ◌*◌, ◌^◌, ◌≤◌, ◌<◌, ◌≡◌, refl, Bool, true, false, List, [], ◌∷◌, arith, some,
  none, Option, ℤ, pos, equals_count, min_of,
}
use native.Mathlib.Nat.{pow-suc}
use adastra.Capcom.States.{OperState}
use adastra.Capcom.Process.{Process, max_restart_delay, inc_restart_delay}
use adastra.Capcom.Message.{Message, Code, Event, Input, from_stagezero, from_pipe, stop}
use adastra.Capcom.Subsystem.{Subsystem, emit}
use adastra.Capcom.Machine.{
  Turn, Locals, Wake, timed_out, interrupted, stopped, unknown_fd, woken, time_left, run_in_state,
  abort, enter_state, forward, fresh_locals,
}
use adastra.Capcom.Restart.{
  wait_event, wait_message, wait_handler, wait_for_restart, count_restart, restart_if_possible,
}
use adastra.Capcom.Keeps.{Keeps, forward-Keeps, stop_found-Keeps}

-- The restarts stay within a limit that is not negative, and the delay between 1 and 32 seconds.
pub record Budget (m : ℕ) (s : Subsystem) : Type 0 where
  pub limit : s.max_restarts ≡ pos m
  pub within : s.num_restarts ≤ m
  pub delay_low : 1 ≤ s.restart_delay
  pub delay_high : s.restart_delay ≤ max_restart_delay

pub Keeps-Budget : (m : ℕ) (s t : Subsystem) → Keeps s t → Budget m s → Budget m t
Keeps-Budget m s t k b = ground arith

pub count_restart-Budget :
    (m : ℕ) (s : Subsystem)
    → Budget m s
    → equals_count s.max_restarts s.num_restarts ≡ false
    → Budget m (count_restart s)
unfolding count_restart
count_restart-Budget m s b h = ground arith

wait_message-Budget :
    (n : ℕ) (c : Code) (m : Message) (s : Subsystem) (l : Locals)
    → Budget n s
    → Budget n (wait_message c m s l).sub
unfolding wait_message abort enter_state
wait_message-Budget n Code.change_admin m s l b = ground arith
wait_message-Budget n Code.abort m s l b = ground arith
wait_message-Budget n _ m s l b = b

wait_event-Budget : (n : ℕ) (e : Event) (s : Subsystem) → Budget n s → Budget n (wait_event e s)
unfolding wait_event
wait_event-Budget n (stop id reason status) s b = Keeps-Budget n s _ (stop_found-Keeps id s) b
wait_event-Budget n e s b = Keeps-Budget n s _ (forward-Keeps e s) b

wait_handler-Budget :
    (n : ℕ) (s : Subsystem) (l : Locals) (input : Input)
    → Budget n s
    → Budget n (wait_handler s l input).sub
unfolding wait_handler
wait_handler-Budget n s l (from_stagezero none) b = b
wait_handler-Budget n s l (from_stagezero (some e)) b = wait_event-Budget n e s b
wait_handler-Budget n s l (from_pipe none) b = b
wait_handler-Budget n s l (from_pipe (some m)) b = wait_message-Budget n m.code m s l b

waiting-Budget :
    (n : ℕ) (ws : List Wake) (r : ℕ) (s : Subsystem) (l : Locals)
    → Budget n s
    → Budget n (run_in_state wait_handler r ws s l).sub
unfolding run_in_state
waiting-Budget n [] r s l b = b
waiting-Budget n (timed_out t ∷ ws) r s l b = ground (arith, waiting-Budget n ws r s l b)
waiting-Budget n (interrupted t ∷ ws) r s l b =
    ground (arith, waiting-Budget n ws (time_left r t) s l b)
waiting-Budget n (stopped t ∷ ws) r s l b =
    let halted = record s { running = false } in
    let kept : Budget n halted = ground arith in
    ground (arith, waiting-Budget n ws (time_left r t) halted l kept)
waiting-Budget n (unknown_fd t ∷ ws) r s l b =
    ground (arith, waiting-Budget n ws (time_left r t) s l b)
waiting-Budget n (woken t input ∷ ws) r s l b =
    let turn = wait_handler s l input in
    let kept = wait_handler-Budget n s l input b in
    ground (arith, kept, waiting-Budget n ws (time_left r t) turn.sub turn.locals kept)

pub wait_for_restart-Budget :
    (n : ℕ) (ws : List Wake) (s : Subsystem)
    → Budget n s
    → equals_count s.max_restarts s.num_restarts ≡ false
    → Budget n (wait_for_restart ws s).sub
unfolding wait_for_restart
wait_for_restart-Budget n ws s b h =
    waiting-Budget n ws s.restart_delay (count_restart s) (fresh_locals 0 OperState.offline)
      (count_restart-Budget n s b h)

-- After a failed launch RestartIfPossible keeps the restarts within the limit and the delay between
-- 1 and 32 seconds: with the restarts used up the subsystem is broken and none is counted, and with
-- fewer it is restarting and one more is counted.
pub restart_if_possible-Budget :
    (n c : ℕ) (s : Subsystem)
    → Budget n s
    → Budget n (restart_if_possible c s)
      × (s.num_restarts ≡ n
          → ((restart_if_possible c s).oper_state ≡ OperState.broken)
            × ((restart_if_possible c s).num_restarts ≡ n))
      × (s.num_restarts < n
          → ((restart_if_possible c s).oper_state ≡ OperState.restarting)
            × ((restart_if_possible c s).num_restarts ≡ s.num_restarts + 1))
unfolding restart_if_possible enter_state emit count_restart
restart_if_possible-Budget n c s b = (ground arith, λ h. ground arith, λ h. ground arith)

-- k restarts in a row.
unfoldable pub restarts : ℕ → Subsystem → Subsystem
restarts zero s = s
restarts (suc k) s = count_restart (restarts k s)

double_capped : (p d : ℕ) → d ≡ min_of 32 p → min_of 32 (d * 2) ≡ min_of 32 (p * 2)
double_capped p d h = ground arith

-- From a restart delay of one second, the delay of the subsystem after k restarts is 2 ^ k seconds,
-- capped at 32, and all k restarts are counted.
pub restarts-delay :
    (k : ℕ) (s : Subsystem)
    → s.restart_delay ≡ 1
    → ((restarts k s).restart_delay ≡ min_of max_restart_delay (2 ^ k))
      × ((restarts k s).num_restarts ≡ s.num_restarts + k)
unfolding restarts count_restart
restarts-delay zero s h = (ground arith, ground arith)
restarts-delay (suc k) s h =
    let ih = restarts-delay k s h in
    (rw (pow-suc 2 k) (double_capped (2 ^ k) (restarts k s).restart_delay ih.0), ground (arith, ih))
