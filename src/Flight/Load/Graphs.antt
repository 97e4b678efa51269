-- ===== src/Flight/Load/Graphs.antt =====
-- flight/flight_director.cc: LoadAllSubsystemGraphs, over the graphs of the files that were parsed.
use adastra.Prelude.{ℕ, false, none, some, List, [], ◌∷◌, ◌++◌, pos, elem_of, if◌then◌else◌}
use adastra.Flight.Result.{
  Result, ok, err, ◌>>=◌, for_each, duplicate_subsystem, duplicate_compute, not_preloaded,
  no_such_interface, already_interface, no_such_autostart, already_autostarted,
}
use adastra.Flight.Director.{
  Subsystem, Director, find_subsystem, find_compute, put_subsystem, add_compute,
  add_global_variable,
}
use adastra.Flight.Load.{SubsystemProto, SubsystemGraph, ComputeProto, VariableProto, variable_of}
use adastra.Flight.Load.Processes.{load_into}

-- As `Subsystem` is constructed; its limit is set when it is loaded.
abbrev pub blank : Subsystem
blank = record {
  processes = [];
  deps = [];
  vars = [];
  args = [];
  max_restarts = pos 0;
  critical = false;
  disabled = false;
}

-- The loop of PreloadSubsystemGraph.
unfoldable pub preload_subsystem : SubsystemProto → Director → Result Director
preload_subsystem p d = elim (find_subsystem p.name d) [
  | some s ↦ err (duplicate_subsystem p.name)
  | none ↦ ok (put_subsystem p.name blank d)
]

unfoldable pub preload_graph : SubsystemGraph → Director → Result Director
preload_graph g = for_each preload_subsystem g.subsystem

unfoldable pub load_compute : ComputeProto → Director → Result Director
load_compute c d = if c.disabled then ok d else elim (find_compute c.name d) [
  | some old ↦ err (duplicate_compute c.name)
  | none ↦ ok (add_compute c.name (record { addr = c.addr; cgroups = c.cgroups }) d)
]

unfoldable pub load_variable : VariableProto → Director → Result Director
load_variable v d = if v.disabled then ok d else ok (add_global_variable (variable_of v) d)

unfoldable pub load_subsystem : SubsystemProto → Director → Result Director
load_subsystem p d = elim (find_subsystem p.name d) [
  | none ↦ err (not_preloaded p.name)
  | some s ↦ elim (load_into d p s) [ err e ↦ err e | ok t ↦ ok (put_subsystem p.name t d) ]
]

unfoldable pub load_interface : ℕ → Director → Result Director
load_interface name d = elim (find_subsystem name d) [
  | none ↦ err (no_such_interface name)
  | some s ↦
      if elem_of name d.interfaces
      then err (already_interface name)
      else ok (record d { interfaces = d.interfaces ++ name ∷ [] })
]

unfoldable pub load_autostart : ℕ → Director → Result Director
load_autostart name d = elim (find_subsystem name d) [
  | none ↦ err (no_such_autostart name)
  | some s ↦
      if elem_of name d.autostarts
      then err (already_autostarted name)
      else ok (record d { autostarts = d.autostarts ++ name ∷ [] })
]

-- LoadSubsystemGraph.
unfoldable pub load_graph : SubsystemGraph → Director → Result Director
load_graph g d = do
  computes ← for_each load_compute g.compute d
  variables ← for_each load_variable g.var computes
  subsystems ← for_each load_subsystem g.subsystem variables
  interfaces ← for_each load_interface g.interface subsystems
  for_each load_autostart g.autostart interfaces

-- LoadAllSubsystemGraphs: all the graphs are preloaded before one is loaded.
unfoldable pub load_all : List SubsystemGraph → Director → Result Director
load_all graphs d = do
  preloaded ← for_each preload_graph graphs d
  for_each load_graph graphs preloaded
