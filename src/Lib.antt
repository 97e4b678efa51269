-- ===== src/Lib.antt =====
-- AdAstra: the part of Capcom that runs one subsystem, its registry of subsystems, the graph of
-- subsystems that the flight director loads and registers there, the symbols of stagezero, the tree of
-- parameters, and the messages for streams and events.
--
-- Capcom runs subsystems of processes, spread over computes on each of which a stagezero launches
-- the processes. A subsystem is a coroutine per state: Subsystem::EnterState spawns the coroutine
-- of the next state, the state's function prepares it and runs an event loop over the events of the
-- umbilicals to the stagezeros and the messages of the subsystem's pipe, and the loop's handler
-- says whether to stay or to leave. Parents and children talk through these pipes; clients are
-- counted in a bit set; umbilicals are connections counted by the processes that hold them.
--
-- Capcom registers subsystems, zygotes, computes and the main umbilicals of computes under their
-- names. Clients add and remove subsystems: a subsystem comes with its processes, may use zygotes
-- that are registered, and names its children, which must be there; parents and children keep
-- pointers to each other.
--
-- A stagezero gives each process a table of symbols, inside a global one, by which it replaces
-- names in the texts of a launch and builds the environment of the process.
--
-- A parameter server keeps values under names like paths, in a tree whose inner nodes read as maps.
--
-- The flight director reads graphs of subsystems from files, checks them for loops, and registers
-- the subsystems with capcom, dependencies first; it keeps the last events for new clients.
--
-- Streams, events, statuses, alarms and log messages travel between the parts as protobuf messages.
--
-- Files and code:
--   Prelude           lists by position over the native numbers, association lists for the hash
--                     maps, tests into Bool, and the signed counters of the C++ `int`s
--   Capcom/States     common/states.h
--   Capcom/BitSet     capcom/bitset.h: test_bit, set_bit and clear_bit are the shifts and masks of
--                     one word, set, clear, contains, is_empty, clear_all and allocate the methods
--   Capcom/Alarm      common/alarm.h
--   Capcom/Umbilical  capcom/umbilical.h and umbilical.cc: precondition, connect, disconnect, fail,
--                     is_connected
--   Capcom/Process    capcom/subsystem.h, class Process, and its alarms in subsystem.cc
--   Capcom/Message    capcom/subsystem.h, struct Message; the events of proto/control.proto
--   Capcom/Subsystem  capcom/subsystem.h and subsystem.cc: the record Subsystem has the members that
--                     the state machine reads; Subsystem/Processes has LaunchProcesses,
--                     StopProcesses and RestartProcesses
--   Capcom/Machine    capcom/state_machine.cc: EnterState, HandleAdminCommand, Abort and
--                     RunSubsystemInState
--   Capcom/Restart    capcom/state_machine.cc: RestartNow, WaitForRestart, RestartIfPossible and
--                     RestartIfPossibleAfterProcessCrash, cut at its tests
--   Capcom/Handlers   capcom/state_machine.cc, a file per state: x_enter is the code of the state's
--                     function above RunSubsystemInState, x_event and x_message the two cases of its
--                     handler's switch, x_rest the code below the switch, x_handler the handler
--   Capcom/StateTable capcom/state_machine.cc: state_funcs_
--   Capcom/Registry   capcom/capcom.h: the maps of Capcom. Registry/Messages is proto/capcom.proto
--                     and the constructors of capcom/subsystem.h, Registry/Building HandleAddSubsystem
--                     of capcom/client_handler.cc, and Registry/Removal HandleRemoveSubsystem, each with
--                     the methods of capcom/subsystem.cc that it calls; Registry/Requests is a sequence
--                     of such requests
--   Stagezero/Symbols stagezero/symbols.h and symbols.cc: AddSymbol, FindSymbol and
--                     GetEnvironmentSymbols; Symbols/Codec has Encode and Decode, Symbols/Replace
--                     ReplaceSymbols
--   Common/Parameters common/parameters.h and parameters.cc: values, nodes and ParseParameterName;
--                     Parameters/Server has SetParameter, GetParameter, HasParameter,
--                     DeleteParameter, MakeMap and ExpandMap
--   Common/Stream     common/stream.h and stream.cc: Stream/Proto has ToProto and FromProto,
--                     Stream/Validation ValidateStreams; Common/Variable is common/vars.h
--   Common/Conversions  ToProto and FromProto of common/alarm.cc (Alarms), subsystem_status.cc
--                     (Statuses), log.h (Logs), parameters.cc (Values) and event.cc (Events)
--   Flight/Director   flight/subsystem.h and flight_director.h; Director/Cache has CacheEvent
--   Flight/Load       flight/flight_director.cc, LoadSubsystemGraph: Load/Processes has the loops over
--                     one subsystem, Load/Graphs those over a graph and over the graphs; Flight/Result
--                     is its absl::Status
--   Flight/Graph      flight/flight_director.cc: CheckForSubsystemLoops and FlattenSubsystemGraph
--   Flight/Startup    flight/flight_director.cc: what Run does with the two
--   Flight/Registration  flight/flight_director.cc, RegisterSubsystem, RegisterCompute and the coroutine
--                     of Run that calls them, and Client::AddSubsystem of capcom/client/client.cc
--
-- The proofs: Discipline and Lifecycle (one live coroutine, the state diagram), Gates (what a state
-- waits for), Progress (that it then goes on), Clients and Parents (admin commands), Budget
-- (restarts), Aborting and Waits, Keeps (what methods leave alone), Connections (references of
-- umbilicals); for the symbols, Scopes, Environment, RoundTrip and Expansion; for the parameters,
-- Laws, Access and Frame; for streams and events, RoundTrip and Stream/Validation; for the flight
-- director, Linked (what loading leaves), Graph/Paths, Graph/Loops, Graph/Order and Graph/Inside (the
-- searches), Startup/Acyclic (their composition), and Registration/Order and Registration/Startup (what
-- capcom answers); for the registry, Links and Views (a registry as names and links, and the changes
-- of these), Wired (that every method keeps them in agreement), Offline (CheckRemove) and Faults;
-- Tests has examples of all.
--
-- How the code is modelled. A handler is a function from the subsystem, the variables that its
-- lambda captures and one input to a Turn: the subsystem after it, the variables, and whether it
-- stays, leaves, crashes (it reads through a StatusOr that holds an error) or is blocked in a wait
-- when the given wake-ups end. A switch ends in a Flow: an early return, or the code below. A loop
-- is recursion over the list of wake-ups that come, and ends as waiting where the list does, so
-- that no fuel is needed; the loops over processes and messages are structural. A call that leaves
-- the subsystem is recorded in `effects`, newest first; the coroutines handed to the scheduler are
-- in `coroutines`, newest first. The rest of the system as a handler reads it, the states and
-- clients of other subsystems, the test mode, the emergency abort and the answers of a stagezero to
-- a launch, is the record Env, an argument, which may differ from step to step. Names, ids,
-- computes and texts that are only compared or passed on are numbers. The two members of the
-- message's union are two fields, zero where the sender did not set them, since the code sets one
-- of them only. Restart counters start at 0 and only grow or are reset, and are natural numbers;
-- limits and references are signed. Delays are in seconds. A position in `processes` stands for a
-- shared pointer to a process.
--
-- A table of symbols is the list of its scope and its parents' scopes; a text is the list of its
-- bytes, and a stream the bytes that are left. ReplaceSymbols has fuel, the length of its text:
-- every round consumes a byte.
--
-- A search through the graph of subsystems has fuel, and `none` is a search that ran out of it; Run's
-- searches get one more than there are subsystems, which is enough, since every call but the first
-- visits one more of them. A pointer to a subsystem is its name. The hash maps of the flight director
-- are walked in the order of their lists. A message is the record of its fields, and a oneof a sum; an
-- enumerator's number that the schema does not name is `other`.
--
-- The registry keeps subsystems in a store by their address; addresses are given out in order, and a
-- subsystem that is removed stays in the store, as the pointers of its parents keep it. A zygote is the
-- address of the subsystem whose process it is. CheckRemove and Remove have fuel, the next address: the
-- children of a subsystem are older than it, so that each call down has a smaller address. The empty
-- name is 0, and <localhost> is 1.
--
-- A map of parameter nodes is a list of its entries, in which a key may stand over a null pointer,
-- as operator[] leaves it; a node's parent pointer, which only its full name needs, is left out. A
-- std::map is the list of its entries in the order of the keys. A double is its bit pattern.
--
-- Not modelled: log lines and the text of alarms; failed sends to a pipe and failed stops, which
-- the code only logs; the options of a launch; the coroutine that connects an umbilical and retries
-- (its steps are those of Umbilical.connect); wrap-around of the counters; SendInput,
-- CloseFd, BuildStatus and CollectAlarms (capcom/subsystem.cc); of Capcom itself, what is no registry
-- (capcom/capcom.cc), static computes and the other requests of clients (capcom/client_handler.cc,
-- capcom/client); the rest of stagezero; of flight, the reading of files, global variables, the
-- autostart and its clients (flight/client_handler.cc); fido, module and the robot example; the lists of parameters; the details
-- of alarms; in common/, cgroups, capabilities, namespaces, telemetry and the TCP client and handler.
pub mod Capcom
pub mod Common
pub mod Flight
pub mod Prelude
pub mod Stagezero
