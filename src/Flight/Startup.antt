-- ===== src/Flight/Startup.antt =====
-- flight/flight_director.cc: what Run does with the subsystems before and while it registers them.
-- The searches get as much fuel as there are subsystems, and one.
pub mod Acyclic
use adastra.Prelude.{ℕ, suc, Option, none, some, List, length}
use adastra.Flight.Result.{Result, ok, err}
use adastra.Flight.Director.{Director, names_of, deps_of}
use adastra.Flight.Graph.{Check, Flat, check_for_subsystem_loops, flatten_graph}
use adastra.Flight.Load.{SubsystemGraph}
use adastra.Flight.Load.Graphs.{load_all}

abbrev pub search_fuel : Director → ℕ
search_fuel d = suc (length (names_of d.subsystems))

-- CheckForSubsystemLoops.
unfoldable pub check_loops : Director → Option Check
check_loops d = check_for_subsystem_loops (deps_of d) (search_fuel d) (names_of d.subsystems)

-- The order in which Run registers the subsystems.
unfoldable pub registration_order : Director → Option Flat
registration_order d = flatten_graph (deps_of d) (search_fuel d) d.interfaces

-- The start of Run: an error of either step ends it.
pub data Start : Type 0 where
  failed : Start
  loop_found : List ℕ → Start
  registers : List ℕ → Director → Start

unfoldable pub start_order : Director → Option Start
start_order d = elim (registration_order d) [
  | none ↦ none
  | some order ↦ some (registers order.vec d)
]

unfoldable pub start_checked : Director → Option Start
start_checked d = elim (check_loops d) [
  | none ↦ none
  | some (Check.looped path) ↦ some (loop_found path)
  | some (Check.clear visited) ↦ start_order d
]

unfoldable pub start_up : List SubsystemGraph → Director → Option Start
start_up graphs d = elim (load_all graphs d) [
  | err e ↦ some failed
  | ok loaded ↦ start_checked loaded
]
