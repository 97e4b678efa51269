-- ===== src/Capcom/Lifecycle.antt =====
-- capcom/state_machine.cc: the life of a subsystem as a step relation. At any time one state
-- coroutine is live: it is about to enter its state's function, or inside its event loop. The rest
-- of the system, `env`, may differ from step to step.
use adastra.Prelude.{ℕ, ◌≡◌, true, false, List, [], ◌∷◌, ◌⊎◌}
use adastra.Capcom.States.{AdminState, OperState}
use adastra.Capcom.Message.{Input}
use adastra.Capcom.Subsystem.{Env, Subsystem, no_client}
use adastra.Capcom.Machine.{Turn, Locals, Transition, runs, finished, Wake, enter_state}
use adastra.Capcom.StateTable.{state_enter, state_handler}
use adastra.Capcom.Discipline.{may_follow, next_ok}
use adastra.Capcom.Discipline.Waiting.{no_abort}

-- Subsystem::Run, on a subsystem that has just been constructed.
unfoldable pub run : Subsystem → Subsystem
run s = enter_state OperState.offline no_client (record s {
  running = true;
  admin_state = AdminState.offline;
  prev_oper_state = OperState.offline;
})

pub data Phase : Type 0 where
  entering : OperState → ℕ → Phase
  inside : OperState → Locals → Phase

-- The newest coroutine is the next to run.
pub data Newest (s : Subsystem) (q : OperState) (c : ℕ) : Type 0 where
  newest : (rest : List (OperState × ℕ)) → s.coroutines ≡ (q, c) ∷ rest → Newest s q c

-- One step of the live coroutine. A turn that crashes or is left waiting ends the history.
pub data Step (s : Subsystem) : Phase → Subsystem → Phase → Type 0 where
  begin :
      (env : Env) {q : OperState} {c : ℕ} {t : Subsystem} {l : Locals}
      → state_enter env q c s ≡ runs t l
      → Step s (entering q c) t (inside q l)
  pass :
      (env : Env) {q r : OperState} {c d : ℕ} {t : Subsystem}
      → state_enter env q c s ≡ finished t
      → Newest t r d
      → Step s (entering q c) t (entering r d)
  stay :
      (env : Env) (ws : List Wake) (input : Input) {q : OperState} {l : Locals} {t : Turn}
      → env.test_mode ≡ false
      → no_abort ws ≡ true
      → state_handler env ws q s l input ≡ t
      → t.next ≡ Transition.stay
      → Step s (inside q l) t.sub (inside q t.locals)
  leave :
      (env : Env) (ws : List Wake) (input : Input) {q r : OperState} {l : Locals} {d : ℕ} {t : Turn}
      → env.test_mode ≡ false
      → no_abort ws ≡ true
      → state_handler env ws q s l input ≡ t
      → t.next ≡ Transition.leave
      → Newest t.sub r d
      → Step s (inside q l) t.sub (entering r d)

-- The live coroutine is that of the subsystem's operational state.
abbrev pub IsLive : Subsystem → Phase → Type 0
IsLive s (entering q c) = s.oper_state ≡ q
IsLive s (inside q l) = (s.oper_state ≡ q) × (next_ok q l.next_state ≡ true)

abbrev pub state_of : Phase → OperState
state_of (entering q c) = q
state_of (inside q l) = q

-- What a step does to the coroutines: none is added while the state's function goes on, and exactly
-- one when the subsystem moves on, to a state that follows in the diagram.
abbrev pub Advances : Subsystem → Phase → Subsystem → Phase → Type 0
Advances s p t (inside q l) = (state_of p ≡ q) × (t.coroutines ≡ s.coroutines)
Advances s p t (entering r d) =
    (may_follow (state_of p) r ≡ true) × (t.coroutines ≡ (r, d) ∷ s.coroutines)

-- A history of steps.
pub data Reach (s : Subsystem) (p : Phase) : Subsystem → Phase → Type 0 where
  here : Reach s p s p
  next : {t u : Subsystem} {p' p'' : Phase} → Reach s p t p' → Step t p' u p'' → Reach s p u p''

-- The coroutines of a history, newest first, follow the diagram down to those it began with.
abbrev pub IsPath : List (OperState × ℕ) → OperState → List (OperState × ℕ) → Type 0
IsPath start q [] = ⊥
IsPath start q ((r, c) ∷ []) = (r ≡ q) × (((r, c) ∷ []) ≡ start)
IsPath start q ((r, c) ∷ (r', c') ∷ rest) =
    (r ≡ q)
    × ((((r, c) ∷ (r', c') ∷ rest) ≡ start)
        ⊎ ((may_follow r' r ≡ true) × IsPath start r' ((r', c') ∷ rest)))
