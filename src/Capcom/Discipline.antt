-- ===== src/Capcom/Discipline.antt =====
-- The specification of one run of a state's handler (capcom/state_machine.cc): it either stays, and
-- has handed over nothing, or leaves, and has handed over exactly one state coroutine, for the
-- state that the subsystem is then in, along an edge of the state diagram.
pub mod Waiting
pub mod Crash
pub mod Switch
pub mod Starting
pub mod Launching
pub mod Running
pub mod Recovering
pub mod Broken
pub mod Stopping
pub mod Table
pub mod Loop
pub mod Entry
use adastra.Prelude.{ℕ, ◌≡◌, refl, ◌∙◌, Bool, true, false, List, [], ◌∷◌, arith}
use adastra.Capcom.States.{OperState}
use adastra.Capcom.Message.{Event, Message, Input}
use adastra.Capcom.Subsystem.{Subsystem}
use adastra.Capcom.Machine.{Turn, Locals, Transition, Flow, returns, breaks, after_switch}

-- The state diagram.
abbrev pub may_follow : OperState → OperState → Bool
may_follow OperState.offline OperState.starting_children = true
may_follow OperState.offline OperState.restarting = true
may_follow OperState.starting_children OperState.connecting = true
may_follow OperState.starting_children OperState.stopping_children = true
may_follow OperState.starting_children OperState.broken = true
may_follow OperState.starting_children OperState.offline = true
may_follow OperState.starting_children OperState.restarting = true
may_follow OperState.connecting OperState.starting_processes = true
may_follow OperState.connecting OperState.stopping_processes = true
may_follow OperState.connecting OperState.offline = true
may_follow OperState.connecting OperState.restarting = true
may_follow OperState.starting_processes OperState.online = true
may_follow OperState.starting_processes OperState.stopping_processes = true
may_follow OperState.starting_processes OperState.starting_processes = true
may_follow OperState.starting_processes OperState.offline = true
may_follow OperState.starting_processes OperState.restarting = true
may_follow OperState.starting_processes OperState.broken = true
may_follow OperState.starting_processes OperState.degraded = true
may_follow OperState.online OperState.offline = true
may_follow OperState.online OperState.connecting = true
may_follow OperState.online OperState.stopping_processes = true
may_follow OperState.online OperState.restarting = true
may_follow OperState.online OperState.restarting_processes = true
may_follow OperState.online OperState.broken = true
may_follow OperState.online OperState.degraded = true
may_follow OperState.stopping_processes OperState.stopping_children = true
may_follow OperState.stopping_processes OperState.connecting = true
may_follow OperState.stopping_processes OperState.offline = true
may_follow OperState.stopping_processes OperState.restarting = true
may_follow OperState.stopping_children OperState.offline = true
may_follow OperState.stopping_children OperState.starting_children = true
may_follow OperState.stopping_children OperState.restarting = true
may_follow OperState.restarting OperState.starting_children = true
may_follow OperState.restarting OperState.offline = true
may_follow OperState.restarting_processes OperState.connecting = true
may_follow OperState.restarting_processes OperState.offline = true
may_follow OperState.restarting_processes OperState.restarting = true
may_follow OperState.restarting_processes OperState.broken = true
may_follow OperState.restarting_processes OperState.degraded = true
may_follow OperState.broken OperState.starting_children = true
may_follow OperState.broken OperState.stopping_children = true
may_follow OperState.broken OperState.connecting = true
may_follow OperState.broken OperState.offline = true
may_follow OperState.degraded OperState.starting_children = true
may_follow OperState.degraded OperState.stopping_children = true
may_follow OperState.degraded OperState.connecting = true
may_follow OperState.degraded OperState.offline = true
may_follow _ _ = false

-- The values that `next_state` takes in the state's handler.
abbrev pub next_ok : OperState → OperState → Bool
next_ok OperState.offline OperState.offline = true
next_ok OperState.offline OperState.starting_children = true
next_ok OperState.starting_children OperState.connecting = true
next_ok OperState.starting_children OperState.stopping_children = true
next_ok OperState.starting_processes OperState.online = true
next_ok OperState.starting_processes OperState.stopping_processes = true
next_ok OperState.online OperState.online = true
next_ok OperState.online OperState.stopping_processes = true
next_ok OperState.stopping_processes OperState.stopping_children = true
next_ok OperState.stopping_processes OperState.connecting = true
next_ok OperState.stopping_children OperState.offline = true
next_ok OperState.stopping_children OperState.starting_children = true
next_ok OperState.connecting q = true
next_ok OperState.restarting q = true
next_ok OperState.restarting_processes q = true
next_ok OperState.broken q = true
next_ok OperState.degraded q = true
next_ok _ _ = false

-- Exactly one coroutine was handed over, for the state q.
abbrev pub HandedOver : OperState → List (OperState × ℕ) → List (OperState × ℕ) → Type 0
HandedOver q before [] = ⊥
HandedOver q before ((r, c) ∷ rest) = (r ≡ q) × (rest ≡ before)

-- The same coroutines and the same operational state.
abbrev pub Same : Subsystem → Subsystem → Type 0
Same s t = (t.coroutines ≡ s.coroutines) × (t.oper_state ≡ s.oper_state)

-- The specification, by how the handler ends.
abbrev pub EndsWell : Transition → OperState → Subsystem → Subsystem → Locals → Type 0
EndsWell Transition.stay q s t l = Same s t × (next_ok q l.next_state ≡ true)
EndsWell Transition.leave q s t l =
    HandedOver t.oper_state s.coroutines t.coroutines × (may_follow q t.oper_state ≡ true)
EndsWell Transition.crash q s t l = Same s t
EndsWell Transition.blocked q s t l = Same s t

abbrev pub Disciplined : OperState → Subsystem → Turn → Type 0
Disciplined q s t = EndsWell t.next q s t.sub t.locals

-- What a switch guarantees to the code below it: `next_state` is a state that may follow, or the
-- one to stay in.
abbrev pub Reaches : OperState → Subsystem → Flow → Type 0
Reaches q s (returns t) = Disciplined q s t
Reaches q s (breaks t l) = Same s t × (next_ok q l.next_state ≡ true)

pub after_switch-Disciplined :
    (q : OperState) (s : Subsystem) (f : Flow) (rest : Subsystem → Locals → Turn)
    → ((t : Subsystem) (l : Locals)
        → Same s t
        → next_ok q l.next_state ≡ true
        → Disciplined q s (rest t l))
    → Reaches q s f
    → Disciplined q s (after_switch f rest)
after_switch-Disciplined q s (returns t) rest h k = k
after_switch-Disciplined q s (breaks t l) rest h k = h t l k.0 k.1
