-- ===== src/Capcom/Discipline/Loop.antt =====
-- capcom/state_machine.cc: the whole event loop of a state, RunSubsystemInState over its handler.
use adastra.Prelude.{ℕ, ◌≡◌, refl, ◌∙◌, Bool, true, false, List, [], ◌∷◌, Bool-cases, inl, inr, ltb}
use adastra.Capcom.States.{OperState}
use adastra.Capcom.Message.{Input}
use adastra.Capcom.Subsystem.{Env, Subsystem}
use adastra.Capcom.Machine.{
  Turn, Locals, Transition, Wake, timed_out, interrupted, stopped, unknown_fd, woken, Outcome, Run,
  run_in_state, time_left, end_of_turn, end_of_wait, while_running,
}
use adastra.Capcom.StateTable.{state_handler}
use adastra.Capcom.Discipline.{next_ok, may_follow, HandedOver, Same, Disciplined, EndsWell}
use adastra.Capcom.Discipline.Waiting.{no_abort}
use adastra.Capcom.Discipline.Table.{state_handler-Disciplined}

-- The specification of a loop: it hands over nothing, or, when the handler leaves it, exactly one
-- coroutine for the state that the subsystem is then in.
abbrev pub LoopEndsWell : Outcome → OperState → Subsystem → Subsystem → Type 0
LoopEndsWell Outcome.handled q s t =
    HandedOver t.oper_state s.coroutines t.coroutines × (may_follow q t.oper_state ≡ true)
LoopEndsWell Outcome.timeout q s t = Same s t
LoopEndsWell Outcome.not_running q s t = Same s t
LoopEndsWell Outcome.crashed q s t = Same s t
LoopEndsWell Outcome.waiting q s t = Same s t

from_before :
    (o : Outcome) (q : OperState) (s u t : Subsystem)
    → Same s u
    → LoopEndsWell o q u t
    → LoopEndsWell o q s t
from_before Outcome.handled q s u t h k = rw (← h.0) k
from_before Outcome.timeout q s u t h k = (k.0 ∙ h.0, k.1 ∙ h.1)
from_before Outcome.not_running q s u t h k = (k.0 ∙ h.0, k.1 ∙ h.1)
from_before Outcome.crashed q s u t h k = (k.0 ∙ h.0, k.1 ∙ h.1)
from_before Outcome.waiting q s u t h k = (k.0 ∙ h.0, k.1 ∙ h.1)

end_of_turn-EndsWell :
    (n : Transition) (q : OperState) (s u : Subsystem) (l : Locals) (remaining : ℕ) (rest : Run)
    → EndsWell n q s u l
    → (next_ok q l.next_state ≡ true → LoopEndsWell rest.outcome q u rest.sub)
    → LoopEndsWell
        (end_of_turn n u l remaining rest).outcome
        q
        s
        (end_of_turn n u l remaining rest).sub
end_of_turn-EndsWell Transition.stay q s u l remaining rest h k =
    from_before rest.outcome q s u rest.sub h.0 (k h.1)
end_of_turn-EndsWell Transition.leave q s u l remaining rest h k = h
end_of_turn-EndsWell Transition.crash q s u l remaining rest h k = h
end_of_turn-EndsWell Transition.blocked q s u l remaining rest h k = h

end_of_wait-EndsWell :
    (b : Bool) (q : OperState) (s : Subsystem) (l : Locals) (rest : Run)
    → LoopEndsWell rest.outcome q s rest.sub
    → LoopEndsWell (end_of_wait b s l rest).outcome q s (end_of_wait b s l rest).sub
end_of_wait-EndsWell true q s l rest h = (refl, refl)
end_of_wait-EndsWell false q s l rest h = h

while_running-EndsWell :
    (b : Bool) (q : OperState) (s : Subsystem) (l : Locals) (r : ℕ) (body : Run)
    → LoopEndsWell body.outcome q s body.sub
    → LoopEndsWell (while_running b s l r body).outcome q s (while_running b s l r body).sub
while_running-EndsWell true q s l r body h = h
while_running-EndsWell false q s l r body h = (refl, refl)

-- A handler that keeps the discipline of a state.
abbrev pub IsDisciplined : OperState → (Subsystem → Locals → Input → Turn) → Type 0
IsDisciplined q h =
    (s : Subsystem) (l : Locals) (input : Input)
    → next_ok q l.next_state ≡ true
    → Disciplined q s (h s l input)

-- The loop under a handler that keeps the discipline keeps the loop's.
run_in_state-EndsWell :
    (q : OperState) (h : Subsystem → Locals → Input → Turn)
    → IsDisciplined q h
    → (r : ℕ) (ws : List Wake) (s : Subsystem) (l : Locals) → next_ok q l.next_state ≡ true
    → LoopEndsWell (run_in_state h r ws s l).outcome q s (run_in_state h r ws s l).sub
unfolding run_in_state
run_in_state-EndsWell q h d r [] s l k = elim (Bool-cases s.running) [
  | inl e ↦ rw e (refl, refl)
  | inr e ↦ rw e (refl, refl)
]
run_in_state-EndsWell q h d r (timed_out t ∷ ws) s l k =
    while_running-EndsWell s.running q s l r _ (
      end_of_wait-EndsWell (ltb 0 r) q s l (run_in_state h r ws s l)
        (run_in_state-EndsWell q h d r ws s l k))
run_in_state-EndsWell q h d r (interrupted t ∷ ws) s l k =
    while_running-EndsWell s.running q s l r _
      (run_in_state-EndsWell q h d (time_left r t) ws s l k)
run_in_state-EndsWell q h d r (stopped t ∷ ws) s l k = while_running-EndsWell s.running q s l r _ (
    from_before (run_in_state h (time_left r t) ws (record s { running = false }) l).outcome q s
      (record s { running = false })
      (run_in_state h (time_left r t) ws (record s { running = false }) l).sub (refl, refl)
      (run_in_state-EndsWell q h d (time_left r t) ws (record s { running = false }) l k))
run_in_state-EndsWell q h d r (unknown_fd t ∷ ws) s l k =
    while_running-EndsWell s.running q s l r _
      (run_in_state-EndsWell q h d (time_left r t) ws s l k)
run_in_state-EndsWell q h d r (woken t input ∷ ws) s l k =
    let turn = h s l input in
    while_running-EndsWell s.running q s l r _ (
      end_of_turn-EndsWell turn.next q s turn.sub turn.locals (time_left r t)
        (run_in_state h (time_left r t) ws turn.sub turn.locals) (d s l input k)
        (run_in_state-EndsWell q h d (time_left r t) ws turn.sub turn.locals))

-- Under the same conditions the whole event loop of any state, over any sequence of timeouts,
-- interrupts, stops, unknown sources and inputs, hands over exactly one coroutine when the handler
-- leaves it, for the state that the subsystem is then in and along the diagram, and otherwise hands
-- over none and leaves the operational state alone.
pub state_loop-EndsWell :
    (env : Env) (inner : List Wake) (q : OperState) (r : ℕ) (ws : List Wake) (s : Subsystem)
    (l : Locals)
    → env.test_mode ≡ false
    → no_abort inner ≡ true
    → next_ok q l.next_state ≡ true
    → LoopEndsWell
        (run_in_state (state_handler env inner q) r ws s l).outcome
        q
        s
        (run_in_state (state_handler env inner q) r ws s l).sub
state_loop-EndsWell env inner q r ws s l t w k =
    run_in_state-EndsWell q (state_handler env inner q)
      (λ u m input ok. state_handler-Disciplined env inner q u m input t w ok) r ws s l k
