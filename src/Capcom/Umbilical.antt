-- ===== src/Capcom/Umbilical.antt =====
-- capcom/umbilical.h and umbilical.cc: the counted connection to the stagezero of one compute.
pub mod Refs
use adastra.Prelude.{
  ℕ, Bool, true, false, ◌&&◌, Option, none, some, ℤ, pos, incr, decr, is_positive, if◌then◌else◌,
}

pub data UmbilicalState : Type 0 where
  closed connecting connected : UmbilicalState

abbrev pub is_closed : UmbilicalState → Bool
is_closed UmbilicalState.closed = true
is_closed UmbilicalState.connecting = false
is_closed UmbilicalState.connected = false

abbrev pub is_connecting : UmbilicalState → Bool
is_connecting UmbilicalState.connecting = true
is_connecting UmbilicalState.closed = false
is_connecting UmbilicalState.connected = false

abbrev pub is_connected_state : UmbilicalState → Bool
is_connected_state UmbilicalState.connected = true
is_connected_state UmbilicalState.closed = false
is_connected_state UmbilicalState.connecting = false

-- `client_connected` is what the stagezero client answers to IsConnected.
pub record Umbilical : Type 0 where
  pub state : UmbilicalState
  pub client_connected : Bool
  pub static_refs : ℤ
  pub dynamic_refs : ℤ
  pub is_static : Bool

unfoldable pub new_umbilical : Umbilical
new_umbilical = record {
  state = UmbilicalState.closed;
  client_connected = false;
  static_refs = pos 0;
  dynamic_refs = pos 0;
  is_static = false;
}

-- Umbilical::Precondition: the new umbilical, and whether it was closed.
unfoldable pub precondition : Umbilical → Umbilical × Bool
precondition u = (
  record u { state = UmbilicalState.connecting; dynamic_refs = incr u.dynamic_refs },
  is_closed u.state,
)

-- Umbilical::Fail.
unfoldable pub fail : Umbilical → Umbilical
fail u = record u { state = UmbilicalState.closed }

-- Umbilical::Connect, given whether the client's Init succeeds. The client is Reset first.
unfoldable pub connect : Bool → Umbilical → Umbilical × Bool
connect init_ok u =
    if is_connecting u.state
    then (if init_ok
        then (record u { state = UmbilicalState.connected; client_connected = true }, true)
        else (record u { client_connected = false }, false))
    else (u, false)

-- Umbilical::Disconnect.
unfoldable pub disconnect : Bool → Umbilical → Umbilical
disconnect dynamic_only u =
    let v = record u { dynamic_refs = decr u.dynamic_refs } in
    if dynamic_only && v.is_static
    then v
    else if is_positive v.dynamic_refs
    then v
    else record v { client_connected = false; state = UmbilicalState.closed }

-- Umbilical::IsConnected.
unfoldable pub is_connected : Umbilical → Bool
is_connected u = u.client_connected && is_connected_state u.state
