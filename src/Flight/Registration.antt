-- ===== src/Flight/Registration.antt =====
-- flight/flight_director.cc, RegisterSubsystem, RegisterCompute and the coroutine of Run that calls
-- them, with the requests that Client::AddSubsystem of capcom/client/client.cc makes of them.
pub mod Order
pub mod Startup
use adastra.Prelude.{
  ℕ, Bool, true, false, Option, none, some, List, [], ◌∷◌, ◌++◌, pos, Text, if◌then◌else◌,
}
use adastra.Common.Stream.{Stream}
use adastra.Common.Stream.Proto.{StreamControl, stream_to_proto}
use adastra.Capcom.Registry.{Registry, add_compute}
use adastra.Capcom.Registry.Building.{handle_add_subsystem}
use adastra.Capcom.Registry.Messages.{
  ProcCase, ProcessRequest, PolicyProto, AddSubsystemRequest, AddError,
}
use adastra.Flight.Director.{Process, ProcessType, Subsystem, Director, Compute, find_subsystem}
use adastra.Flight.Load.{default_max_restarts}

-- Stream::ToProto of every stream; none where it throws.
unfoldable pub streams_to_proto : List Stream → Option (List StreamControl)
streams_to_proto [] = some []
streams_to_proto (s ∷ streams) = elim (stream_to_proto s) [
  | none ↦ none
  | some p ↦ elim (streams_to_proto streams) [ none ↦ none | some ps ↦ some (p ∷ ps) ]
]

-- The oneof of a process.
unfoldable pub proc_of : Process → ProcessType → ProcCase
proc_of p ProcessType.static = ProcCase.static_process p.executable
proc_of p ProcessType.zygote = ProcCase.zygote p.executable
proc_of p ProcessType.module_process = ProcCase.virtual_process p.zygote_name p.main_func

-- Only static processes can be oneshots.
abbrev pub oneshot_of : Process → ProcessType → Bool
oneshot_of p ProcessType.static = p.oneshot
oneshot_of p _ = false

unfoldable pub process_request : Process → Option ProcessRequest
process_request p = elim (streams_to_proto p.streams) [
  | none ↦ none
  | some streams ↦ some (record {
    name = p.name;
    oneshot = oneshot_of p p.type;
    proc = proc_of p p.type;
    compute = p.compute;
    streams = streams;
    max_restarts = default_max_restarts;
  })
]

unfoldable pub process_requests : List Process → Option (List ProcessRequest)
process_requests [] = some []
process_requests (p ∷ ps) = elim (process_request p) [
  | none ↦ none
  | some req ↦ elim (process_requests ps) [ none ↦ none | some reqs ↦ some (req ∷ reqs) ]
]

abbrev pub same_type : ProcessType → ProcessType → Bool
same_type ProcessType.static ProcessType.static = true
same_type ProcessType.zygote ProcessType.zygote = true
same_type ProcessType.module_process ProcessType.module_process = true
same_type _ _ = false

unfoldable pub of_type : ProcessType → List Process → List Process
of_type type [] = []
of_type type (p ∷ ps) =
    let rest = of_type type ps in if same_type p.type type then p ∷ rest else rest

-- The order of the request: static processes, zygotes, modules.
abbrev pub grouped : List Process → List Process
grouped ps =
    of_type ProcessType.static ps
    ++ (of_type ProcessType.zygote ps ++ of_type ProcessType.module_process ps)

-- The request of Client::AddSubsystem for the options that RegisterSubsystem fills in.
unfoldable pub request_of : ℕ → Subsystem → Option AddSubsystemRequest
request_of name s = elim (process_requests (grouped s.processes)) [
  | none ↦ none
  | some reqs ↦ some (record {
    name = name;
    processes = reqs;
    streams = [];
    children = s.deps;
    max_restarts = s.max_restarts;
    critical = s.critical;
    restart_policy = PolicyProto.automatic;
  })
]

-- How one registration ends.
pub data Outcome : Type 0 where
  registered skipped threw : Outcome
  not_registered : AddError → Outcome

abbrev pub outcome_of : Option AddError → Outcome
outcome_of none = registered
outcome_of (some e) = not_registered e

abbrev pub send_request : Option AddSubsystemRequest → Registry → Registry × Outcome
send_request none r = (r, threw)
send_request (some req) r =
    let answer = handle_add_subsystem req r in (answer.0, outcome_of answer.1)

-- RegisterSubsystem, over a connection on which requests and responses arrive.
unfoldable pub register_subsystem : ℕ → Subsystem → Registry → Registry × Outcome
register_subsystem name s r =
    if s.disabled then (r, skipped) else send_request (request_of name s) r

abbrev pub register_found : Option Subsystem → ℕ → Registry → Registry × Outcome
register_found none name r = (r, skipped)
register_found (some s) name r = register_subsystem name s r

-- The loop of Run over the flattened graph: an error is printed, and the loop goes on.
unfoldable pub register_each : Director → List ℕ → Registry → Registry × List Outcome
register_each d [] r = (r, [])
register_each d (name ∷ names) r =
    let one = register_found (find_subsystem name d) name r in
    let rest = register_each d names one.0 in (rest.0, one.1 ∷ rest.1)

-- The loop of Run over the computes.
unfoldable pub register_computes : List (ℕ × Compute) → Registry → Registry
register_computes [] r = r
register_computes ((name, c) ∷ computes) r =
    register_computes computes (add_compute name c.addr r).0
