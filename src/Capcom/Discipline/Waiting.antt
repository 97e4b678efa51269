-- ===== src/Capcom/Discipline/Waiting.antt =====
-- capcom/state_machine.cc: WaitForRestart hands over no coroutine unless an abort comes in the wait.
use adastra.Prelude.{
  ℕ, ◌≡◌, refl, ◌∙◌, Bool, true, false, not, ◌&&◌, List, [], ◌∷◌, arith, some, none,
}
use adastra.Capcom.States.{OperState}
use adastra.Capcom.Message.{Message, Code, Event, Input, from_stagezero, from_pipe, stop}
use adastra.Capcom.Subsystem.{Subsystem}
use adastra.Capcom.Machine.{
  Locals, Wake, timed_out, interrupted, stopped, unknown_fd, woken, run_in_state, time_left,
  fresh_locals,
}
use adastra.Capcom.Restart.{wait_event, wait_message, wait_handler, wait_for_restart, count_restart}
use adastra.Capcom.Keeps.{forward-Keeps, stop_found-Keeps}
use adastra.Capcom.Discipline.{Same}

abbrev pub is_abort : Code → Bool
is_abort Code.abort = true
is_abort _ = false

abbrev pub brings_abort : Input → Bool
brings_abort (from_pipe (some m)) = is_abort m.code
brings_abort _ = false

abbrev pub wakes_abort : Wake → Bool
wakes_abort (woken t input) = brings_abort input
wakes_abort _ = false

-- No abort message is among the wake-ups.
abbrev pub no_abort : List Wake → Bool
no_abort [] = true
no_abort (w ∷ ws) = not (wakes_abort w) && no_abort ws

wait_event-Same : (e : Event) (s : Subsystem) → Same s (wait_event e s)
unfolding wait_event
wait_event-Same (stop id reason status) s = ground (arith, stop_found-Keeps id s)
wait_event-Same e s = ground (arith, forward-Keeps e s)

wait_message-Same :
    (c : Code) (m : Message) (s : Subsystem) (l : Locals)
    → is_abort c ≡ false
    → Same s (wait_message c m s l).sub
unfolding wait_message
wait_message-Same Code.change_admin m s l h = ground arith
wait_message-Same Code.abort m s l h = cc
wait_message-Same _ m s l h = (refl, refl)

wait_handler-Same :
    (s : Subsystem) (l : Locals) (input : Input)
    → brings_abort input ≡ false
    → Same s (wait_handler s l input).sub
unfolding wait_handler
wait_handler-Same s l (from_stagezero none) h = (refl, refl)
wait_handler-Same s l (from_stagezero (some e)) h = wait_event-Same e s
wait_handler-Same s l (from_pipe none) h = (refl, refl)
wait_handler-Same s l (from_pipe (some m)) h = wait_message-Same m.code m s l h

Same-trans : (s t u : Subsystem) → Same s t → Same t u → Same s u
Same-trans s t u h k = (k.0 ∙ h.0, k.1 ∙ h.1)

waiting-Same :
    (ws : List Wake) (r : ℕ) (s : Subsystem) (l : Locals)
    → no_abort ws ≡ true
    → Same s (run_in_state wait_handler r ws s l).sub
unfolding run_in_state
waiting-Same [] r s l h = (refl, refl)
waiting-Same (timed_out t ∷ ws) r s l h = ground (arith, waiting-Same ws r s l h)
waiting-Same (interrupted t ∷ ws) r s l h = ground (arith, waiting-Same ws (time_left r t) s l h)
waiting-Same (stopped t ∷ ws) r s l h =
    ground (arith, waiting-Same ws (time_left r t) (record s { running = false }) l h)
waiting-Same (unknown_fd t ∷ ws) r s l h = ground (arith, waiting-Same ws (time_left r t) s l h)
waiting-Same (woken t input ∷ ws) r s l h =
    let turn = wait_handler s l input in
    ground (
      arith,
      wait_handler-Same s l input (ground arith),
      waiting-Same ws (time_left r t) turn.sub turn.locals (ground arith),
    )

-- The wait itself hands over nothing.
pub wait_for_restart-Same :
    (ws : List Wake) (s : Subsystem) → no_abort ws ≡ true → Same s (wait_for_restart ws s).sub
unfolding wait_for_restart count_restart
wait_for_restart-Same ws s h =
    ground (
      arith,
      waiting-Same ws s.restart_delay (count_restart s) (fresh_locals 0 OperState.offline) h,
    )
