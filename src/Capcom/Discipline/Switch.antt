-- ===== src/Capcom/Discipline/Switch.antt =====
-- capcom/state_machine.cc: a handler is disciplined when its three parts are; and what an admin
-- command keeps.
use adastra.Prelude.{◌≡◌, refl, Bool, true, arith, some, none}
use adastra.Capcom.States.{OperState}
use adastra.Capcom.Message.{Message, Event, Input, from_stagezero, from_pipe}
use adastra.Capcom.Subsystem.{Subsystem}
use adastra.Capcom.Machine.{
  Turn, Locals, Flow, dispatch, dispatch_checked, record_client, handle_admin_command,
}
use adastra.Capcom.Keeps.{notify_parents-Keeps}
use adastra.Capcom.Discipline.{next_ok, Same, Disciplined, Reaches, after_switch-Disciplined}
use adastra.Capcom.Discipline.Crash.{Disciplined-Same}

-- The three parts of a handler, each as the specification wants it.
pub record Parts (q : OperState) (s : Subsystem) (l : Locals)
    (on_event : Event → Subsystem → Locals → Flow)
    (on_message : Message → Subsystem → Locals → Flow) (rest : Subsystem → Locals → Turn)
    : Type 0 where
  pub start_ok : next_ok q l.next_state ≡ true
  pub event_ok : (e : Event) → Reaches q s (on_event e s l)
  pub message_ok : (m : Message) → Reaches q s (on_message m s l)
  pub rest_ok :
      (t : Subsystem) (k : Locals) → next_ok q k.next_state ≡ true → Disciplined q t (rest t k)

module _ (q : OperState) (s : Subsystem) (l : Locals) (on_event : Event → Subsystem → Locals → Flow)
    (on_message : Message → Subsystem → Locals → Flow) (rest : Subsystem → Locals → Turn)
    (parts : Parts q s l on_event on_message rest) where
  rest_from :
      (t : Subsystem) (k : Locals)
      → Same s t
      → next_ok q k.next_state ≡ true
      → Disciplined q s (rest t k)
  rest_from t k same ok = Disciplined-Same q s t (rest t k) same (parts.rest_ok t k ok)

  pub dispatch-Disciplined :
      (input : Input) → Disciplined q s (dispatch on_event on_message rest s l input)
  dispatch-Disciplined (from_stagezero none) = (refl, refl)
  dispatch-Disciplined (from_stagezero (some e)) =
      after_switch-Disciplined q s (on_event e s l) rest rest_from (parts.event_ok e)
  dispatch-Disciplined (from_pipe none) = (refl, refl)
  dispatch-Disciplined (from_pipe (some m)) =
      after_switch-Disciplined q s (on_message m s l) rest rest_from (parts.message_ok m)

  pub dispatch_checked-Disciplined :
      (input : Input) → Disciplined q s (dispatch_checked on_event on_message rest s l input)
  dispatch_checked-Disciplined (from_stagezero none) = ((refl, refl), parts.start_ok)
  dispatch_checked-Disciplined (from_stagezero (some e)) =
      after_switch-Disciplined q s (on_event e s l) rest rest_from (parts.event_ok e)
  dispatch_checked-Disciplined (from_pipe none) = (refl, refl)
  dispatch_checked-Disciplined (from_pipe (some m)) =
      after_switch-Disciplined q s (on_message m s l) rest rest_from (parts.message_ok m)

record_client-Same : (m : Message) (s : Subsystem) → Same s (record_client m s)
unfolding record_client
record_client-Same m s = ground arith

pub handle_admin_command-Same :
    (m : Message) (a b : OperState) (s : Subsystem) → Same s (handle_admin_command m a b s).0
unfolding handle_admin_command
handle_admin_command-Same m a b s =
    ground (arith, record_client-Same m s, notify_parents-Keeps (record_client m s))

-- The next state is one of the two that the caller offers.
pub handle_admin_command-next :
    (ok : OperState → Bool) (m : Message) (a b : OperState) (s : Subsystem)
    → ok a ≡ true
    → ok b ≡ true
    → ok (handle_admin_command m a b s).1 ≡ true
unfolding handle_admin_command
handle_admin_command-next ok m a b s h k = ground arith
