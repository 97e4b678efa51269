-- ===== src/Capcom/Machine.antt =====
-- capcom/state_machine.cc: what the handlers of all the states share. A handler's run over one
-- input is a `Turn`; the variables that the state's function captures by reference are `Locals`.
use adastra.Prelude.{
  ℕ, ◌-◌, Bool, true, false, ◌&&◌, not, none, some, List, [], ◌∷◌, ltb, ◌==◌, if◌then◌else◌,
}
use adastra.Capcom.States.{AdminState, OperState, is_admin_online, oper_eq}
use adastra.Capcom.BitSet.{set, clear, clear_all, is_empty}
use adastra.Capcom.Process.{set_stopped}
use adastra.Capcom.Message.{
  Message, Event, Input, from_stagezero, from_pipe, log_event, parameter_event, telemetry_event,
  connect, disconnect, start, stop, output, log, parameter, telemetry, not_set,
}
use adastra.Capcom.Subsystem.{Subsystem, emit, notify_parents, send_output, no_client, map_process}

-- `crash`: the handler reads through a StatusOr that holds an error. `blocked`: it is still in the
-- wait of WaitForRestart when the given wake-ups end.
pub data Transition : Type 0 where
  stay leave crash blocked : Transition

pub record Locals : Type 0 where
  pub client_id : ℕ
  pub next_state : OperState
  pub child_notified : List (ℕ × Bool)
  pub offline_requests : List ℕ
  pub started_processes : List ℕ

pub record Turn : Type 0 where
  pub sub : Subsystem
  pub locals : Locals
  pub next : Transition

abbrev pub stays : Subsystem → Locals → Turn
stays s l = record { sub = s; locals = l; next = Transition.stay }

abbrev pub leaves : Subsystem → Locals → Turn
leaves s l = record { sub = s; locals = l; next = Transition.leave }

abbrev pub crashes : Subsystem → Locals → Turn
crashes s l = record { sub = s; locals = l; next = Transition.crash }

-- The end of the `switch` in a handler: an early return, or the code below it.
pub data Flow : Type 0 where
  returns : Turn → Flow
  breaks : Subsystem → Locals → Flow

abbrev pub after_switch : Flow → (Subsystem → Locals → Turn) → Turn
after_switch (returns t) rest = t
after_switch (breaks s l) rest = rest s l

-- What a state's function has done when it reaches RunSubsystemInState, or returns before it.
pub data Entry : Type 0 where
  runs : Subsystem → Locals → Entry
  finished : Subsystem → Entry

abbrev pub fresh_locals : ℕ → OperState → Locals
fresh_locals client_id next_state = record {
  client_id = client_id;
  next_state = next_state;
  child_notified = [];
  offline_requests = [];
  started_processes = [];
}

-- Subsystem::EnterState.
unfoldable pub enter_state : OperState → ℕ → Subsystem → Subsystem
enter_state state client_id s = record s {
  prev_oper_state = s.oper_state;
  oper_state = state;
  coroutines = (state, client_id) ∷ s.coroutines;
}

-- The cases of every handler's switch over events that only pass the event on.
unfoldable pub forward : Event → Subsystem → Subsystem
forward (output payload) s = send_output payload s
forward (log payload) s = emit (log_event payload) s
forward (parameter payload) s = emit (parameter_event payload) s
forward (telemetry payload) s = emit (telemetry_event payload) s
forward connect s = s
forward (disconnect compute) s = s
forward (start id) s = s
forward (stop id reason status) s = s
forward not_set s = s

-- The clients after an admin command.
unfoldable pub record_client : Message → Subsystem → Subsystem
record_client m s =
    if m.client_id == no_client
    then s
    else (if is_admin_online m.admin
        then record s { active_clients = set m.client_id s.active_clients }
        else record s { active_clients = clear m.client_id s.active_clients })

-- Subsystem::HandleAdminCommand: the subsystem, and the next state.
unfoldable pub handle_admin_command :
    Message → OperState → OperState → Subsystem → Subsystem × OperState
handle_admin_command m active no_active s =
    let t = record_client m s in
    let next = if is_empty t.active_clients then no_active else active in
    (if oper_eq next t.oper_state then notify_parents t else t, next)

-- Subsystem::Abort.
unfoldable pub abort : Bool → Subsystem → Locals → Turn
abort emergency s l =
    if not emergency && s.critical
    then stays s l
    else leaves
        (enter_state OperState.offline no_client (record s {
          admin_state = AdminState.offline;
          active_clients = clear_all s.active_clients;
          processes = map_process set_stopped s.processes;
        }))
        l

-- The outer switch of a handler, over the source of the input, then the code below it.
abbrev pub dispatch :
    (Event → Subsystem → Locals → Flow)
    → (Message → Subsystem → Locals → Flow)
    → (Subsystem → Locals → Turn)
    → Subsystem
    → Locals
    → Input
    → Turn
dispatch on_event on_message rest s l (from_stagezero none) = crashes s l
dispatch on_event on_message rest s l (from_stagezero (some e)) = after_switch (on_event e s l) rest
dispatch on_event on_message rest s l (from_pipe none) = crashes s l
dispatch on_event on_message rest s l (from_pipe (some m)) = after_switch (on_message m s l) rest

-- The same where the handler returns after a failed read of an event.
abbrev pub dispatch_checked :
    (Event → Subsystem → Locals → Flow)
    → (Message → Subsystem → Locals → Flow)
    → (Subsystem → Locals → Turn)
    → Subsystem
    → Locals
    → Input
    → Turn
dispatch_checked on_event on_message rest s l (from_stagezero none) = stays s l
dispatch_checked on_event on_message rest s l (from_stagezero (some e)) =
    after_switch (on_event e s l) rest
dispatch_checked on_event on_message rest s l (from_pipe none) = crashes s l
dispatch_checked on_event on_message rest s l (from_pipe (some m)) =
    after_switch (on_message m s l) rest

-- What the Wait in RunSubsystemInState returns with, and the time that it took. `stopped` is a
-- wake-up by Subsystem::Stop, which clears `running_` and triggers the interrupt.
pub data Wake : Type 0 where
  timed_out : ℕ → Wake
  interrupted : ℕ → Wake
  stopped : ℕ → Wake
  unknown_fd : ℕ → Wake
  woken : ℕ → Input → Wake

-- How the loop of RunSubsystemInState ended.
pub data Outcome : Type 0 where
  timeout handled not_running crashed waiting : Outcome

pub record Run : Type 0 where
  pub sub : Subsystem
  pub locals : Locals
  pub outcome : Outcome
  pub remaining : ℕ

-- `if (time_remaining > 0s) time_remaining -= end - start`. What is left matters only if positive.
abbrev pub time_left : ℕ → ℕ → ℕ
time_left remaining elapsed = remaining - elapsed

-- The test of the loop.
abbrev pub while_running : Bool → Subsystem → Locals → ℕ → Run → Run
while_running true s l remaining body = body
while_running false s l remaining body = record {
  sub = s;
  locals = l;
  outcome = Outcome.not_running;
  remaining = remaining;
}

-- The loop after a timeout, which comes only if there is a time to wait.
abbrev pub end_of_wait : Bool → Subsystem → Locals → Run → Run
end_of_wait true s l rest = record { sub = s; locals = l; outcome = Outcome.timeout; remaining = 0 }
end_of_wait false s l rest = rest

-- The loop after a call of the handler: on, or out with an outcome.
abbrev pub end_of_turn : Transition → Subsystem → Locals → ℕ → Run → Run
end_of_turn Transition.stay s l remaining rest = rest
end_of_turn Transition.leave s l remaining rest = record {
  sub = s;
  locals = l;
  outcome = Outcome.handled;
  remaining = remaining;
}
end_of_turn Transition.crash s l remaining rest = record {
  sub = s;
  locals = l;
  outcome = Outcome.crashed;
  remaining = remaining;
}
end_of_turn Transition.blocked s l remaining rest = record {
  sub = s;
  locals = l;
  outcome = Outcome.waiting;
  remaining = remaining;
}

-- RunSubsystemInState over the wake-ups that come; `waiting` where there are no more. With no time
-- remaining the Wait has no timeout, and a `timed_out` cannot come.
unfoldable pub run_in_state :
    (Subsystem → Locals → Input → Turn) → ℕ → List Wake → Subsystem → Locals → Run
run_in_state handler remaining [] s l = record {
  sub = s;
  locals = l;
  outcome = if s.running then Outcome.waiting else Outcome.not_running;
  remaining = remaining;
}
run_in_state handler remaining (w ∷ ws) s l = while_running s.running s l remaining (elim w [
  | timed_out t ↦
      let rest = run_in_state handler remaining ws s l in end_of_wait (ltb 0 remaining) s l rest
  | interrupted t ↦ run_in_state handler (time_left remaining t) ws s l
  | stopped t ↦ run_in_state handler (time_left remaining t) ws (record s { running = false }) l
  | unknown_fd t ↦ run_in_state handler (time_left remaining t) ws s l
  | woken t input ↦
      let turn = handler s l input in
      let rest = run_in_state handler (time_left remaining t) ws turn.sub turn.locals in
      end_of_turn turn.next turn.sub turn.locals (time_left remaining t) rest
])
