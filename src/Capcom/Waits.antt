-- ===== src/Capcom/Waits.antt =====
-- capcom/state_machine.cc: the timeout of RunSubsystemInState, which WaitForRestart relies on.
use adastra.Prelude.{ℕ, ◌-◌, ◌≤◌, ◌≡◌, ◌≢◌, Bool, true, false, List, [], ◌∷◌, arith}
use adastra.Capcom.Message.{Input}
use adastra.Capcom.Subsystem.{Subsystem}
use adastra.Capcom.Machine.{
  Turn, Locals, Wake, timed_out, interrupted, stopped, unknown_fd, woken, Outcome, run_in_state,
}
use adastra.Capcom.Restart.{wait_for_restart, wait_handler, count_restart}

-- The time that a wake-up took.
abbrev pub took : Wake → ℕ
took (timed_out t) = t
took (interrupted t) = t
took (stopped t) = t
took (unknown_fd t) = t
took (woken t input) = t

-- With no time remaining, the loop cannot end by a timeout, whatever comes.
pub spent_loop-untimed :
    (h : Subsystem → Locals → Input → Turn) (ws : List Wake) (s : Subsystem) (l : Locals)
    → (run_in_state h 0 ws s l).outcome ≢ Outcome.timeout
unfolding run_in_state
spent_loop-untimed h [] s l = λ e. ground arith
spent_loop-untimed h (timed_out t ∷ ws) s l = λ e. ground (arith, spent_loop-untimed h ws s l)
spent_loop-untimed h (interrupted t ∷ ws) s l = λ e. ground (arith, spent_loop-untimed h ws s l)
spent_loop-untimed h (stopped t ∷ ws) s l =
    λ e. ground (arith, spent_loop-untimed h ws (record s { running = false }) l)
spent_loop-untimed h (unknown_fd t ∷ ws) s l = λ e. ground (arith, spent_loop-untimed h ws s l)
spent_loop-untimed h (woken t input ∷ ws) s l =
    λ e. ground (arith, spent_loop-untimed h ws (h s l input).sub (h s l input).locals)

abbrev pub is_timeout : Wake → Bool
is_timeout (timed_out t) = true
is_timeout (interrupted t) = false
is_timeout (stopped t) = false
is_timeout (unknown_fd t) = false
is_timeout (woken t input) = false

late_loop-untimed :
    (h : Subsystem → Locals → Input → Turn) (r : ℕ) (w : Wake) (ws : List Wake) (s : Subsystem)
    (l : Locals)
    → is_timeout w ≡ false
    → r ≤ took w
    → (run_in_state h r (w ∷ ws) s l).outcome ≢ Outcome.timeout
unfolding run_in_state
late_loop-untimed h r (timed_out t) ws s l i k = λ e. ground arith
late_loop-untimed h r (interrupted t) ws s l i k =
    let spent : r - t ≡ 0 = omega arith in λ e. ground (arith, spent_loop-untimed h ws s l, spent)
late_loop-untimed h r (stopped t) ws s l i k =
    let spent : r - t ≡ 0 = omega arith in
    λ e. ground (arith, spent_loop-untimed h ws (record s { running = false }) l, spent)
late_loop-untimed h r (unknown_fd t) ws s l i k =
    let spent : r - t ≡ 0 = omega arith in λ e. ground (arith, spent_loop-untimed h ws s l, spent)
late_loop-untimed h r (woken t input) ws s l i k =
    let spent : r - t ≡ 0 = omega arith in
    λ e. ground (arith, spent_loop-untimed h ws (h s l input).sub (h s l input).locals, spent)

-- A wait before a restart whose first wake-up is no timeout but comes when the delay is over does
-- not end by a timeout.
pub late_wake-untimed :
    (w : Wake) (ws : List Wake) (s : Subsystem)
    → is_timeout w ≡ false
    → s.restart_delay ≤ took w
    → (wait_for_restart (w ∷ ws) s).outcome ≢ Outcome.timeout
unfolding wait_for_restart
late_wake-untimed w ws s i k =
    late_loop-untimed wait_handler s.restart_delay w ws (count_restart s) _ i k
