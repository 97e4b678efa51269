-- ===== src/Capcom/Gates/Children.antt =====
-- capcom/state_machine.cc: a subsystem starts only above online children, and goes offline only when
-- its children have let go.
use adastra.Prelude.{ℕ, ◌≡◌, true, List, all_of}
use adastra.Capcom.Message.{Message}
use adastra.Capcom.Subsystem.{Env, Subsystem}
use adastra.Capcom.Machine.{Turn}
use adastra.Capcom.Handlers.StartingChildren.{child_online}
use adastra.Capcom.Handlers.StoppingChildren.{child_released}
use adastra.Capcom.Handlers.Common.{all_notified}

-- The subsystem's children are these.
abbrev HasChildren : List ℕ → Subsystem → Type 0
HasChildren cs s = s.children ≡ cs

-- Every child has reported, and every child is online.
abbrev ChildrenUp : Env → List ℕ → Turn → Type 0
ChildrenUp env cs t =
    (all_notified t.locals.child_notified ≡ true) × (all_of (child_online env) cs ≡ true)

-- Every child has reported, and is kept online by others or has none of the clients that want to go
-- offline.
abbrev ChildrenReleased : Env → List ℕ → Turn → Type 0
ChildrenReleased env cs t =
    (all_notified t.locals.child_notified ≡ true)
    × (all_of (child_released env t.locals.offline_requests) cs ≡ true)
