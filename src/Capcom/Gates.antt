-- ===== src/Capcom/Gates.antt =====
-- capcom/state_machine.cc: what must hold when a handler moves the subsystem to the next state.
pub mod Children
pub mod Processes
pub mod Oneshots
use adastra.Prelude.{◌≡◌, List, Bool}
use adastra.Capcom.States.{OperState}
use adastra.Capcom.Message.{Event, Message, Input, from_stagezero, from_pipe}
use adastra.Capcom.Subsystem.{Subsystem}
use adastra.Capcom.Machine.{Turn, Locals, Transition, Flow, returns, breaks, after_switch, dispatch}
use mathlib.Core.Path.{refl}
use mathlib.Core.Option.{none, some}

-- A turn that leaves for the state q does so only where P holds of it.
abbrev pub Gate : OperState → (Turn → Type 0) → Turn → Type 0
Gate q P t = t.next ≡ Transition.leave → t.sub.oper_state ≡ q → P t

-- The same for a switch, with what the code below it may rely on.
abbrev pub SwitchGate : OperState → (Turn → Type 0) → (Subsystem → Type 0) → Flow → Type 0
SwitchGate q P R (returns t) = Gate q P t
SwitchGate q P R (breaks t l) = R t

pub after_switch-Gate :
    (q : OperState) (P : Turn → Type 0) (R : Subsystem → Type 0) (f : Flow)
    (rest : Subsystem → Locals → Turn)
    → ((t : Subsystem) (l : Locals) → R t → Gate q P (rest t l))
    → SwitchGate q P R f
    → Gate q P (after_switch f rest)
after_switch-Gate q P R (returns t) rest h k = k
after_switch-Gate q P R (breaks t l) rest h k = h t l k

module _ (q : OperState) (P : Turn → Type 0) (R : Subsystem → Type 0) (s : Subsystem) (l : Locals)
    (on_event : Event → Subsystem → Locals → Flow)
    (on_message : Message → Subsystem → Locals → Flow) (rest : Subsystem → Locals → Turn)
    (rest_gate : (t : Subsystem) (k : Locals) → R t → Gate q P (rest t k)) where
  pub dispatch-Gate :
      (input : Input)
      → ((e : Event) → SwitchGate q P R (on_event e s l))
      → ((m : Message) → input ≡ from_pipe (some m) → SwitchGate q P R (on_message m s l))
      → Gate q P (dispatch on_event on_message rest s l input)
  dispatch-Gate (from_stagezero none) on_e on_m = λ h k. cc
  dispatch-Gate (from_stagezero (some e)) on_e on_m =
      after_switch-Gate q P R (on_event e s l) rest rest_gate (on_e e)
  dispatch-Gate (from_pipe none) on_e on_m = λ h k. cc
  dispatch-Gate (from_pipe (some m)) on_e on_m =
      after_switch-Gate q P R (on_message m s l) rest rest_gate (on_m m refl)
