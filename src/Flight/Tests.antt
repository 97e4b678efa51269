-- ===== src/Flight/Tests.antt =====
-- flight/flight_director.cc: the theorems on a small graph.
use adastra.Prelude.{
  ℕ, ◌≡◌, refl, false, none, some, List, [], ◌∷◌, ◌⊎◌, arith, elem_of, insert, lookup, ◌-◌, ◌∙◌,
}
use adastra.Flight.Result.{ok, err, for_each}
use adastra.Flight.Director.{
  Director, find_subsystem, find_compute, add_compute, add_global_variable, deps_of,
}
use adastra.Flight.Director.Cache.{Cache, Holds, cache_all, cache_all-Holds, max_events}
use adastra.Flight.Graph.{
  clear, looped, check_each, flatten_each, check_from, check_root, check_for_subsystem_loops,
  flatten_from, flatten_graph,
}
use adastra.Flight.Graph.Paths.{Leads, Within}
use adastra.Flight.Graph.Order.{Follows}
use adastra.Flight.Load.{
  OptionsProto, StaticProcessProto, ModuleProto, SubsystemProto, SubsystemGraph, enabled_variables,
  all_variables, disposition_of, parse_stream,
}
use adastra.Flight.Load.Processes.{
  has_process, parse_options, static_process_of, add_static_process, zygote_of, add_zygote,
  module_of, add_module, link_dep, link_subspace, set_options, check_interactive, load_into,
}
use adastra.Flight.Load.Graphs.{
  preload_subsystem, preload_graph, load_compute, load_variable, load_subsystem, load_interface,
  load_autostart, load_graph, load_all,
}
use adastra.Flight.Linked.{IsLinked}
use adastra.Flight.Linked.Graphs.{load_all-IsLinked}
use adastra.Flight.Startup.{
  check_loops, registration_order, loop_found, registers, start_order, start_checked, start_up,
}
use adastra.Capcom.Registry.Requests.{empty_registry}
use adastra.Flight.Registration.{register_each}
use adastra.Flight.Registration.Order.{RegistersAll}
use adastra.Flight.Registration.Startup.{start_up-RegistersAll}
use adastra.Flight.Startup.Acyclic.{start_up-Follows, check_loops-decides}

abbrev empty_director : Director
empty_director = record {
  subsystems = [];
  autostarts = [];
  interfaces = [];
  computes = [];
  global_variables = [];
}

empty_director-IsLinked : IsLinked empty_director
unfolding find_subsystem lookup elem_of
empty_director-IsLinked = record {
  subsystems_well = λ name s h. absurd (cc);
  interfaces_known = λ x m. absurd (cc);
}

abbrev plain_options : OptionsProto
plain_options = record {
  vars = [];
  args = [];
  sigint_shutdown_timeout_secs = none;
  sigterm_shutdown_timeout_secs = none;
  startup_timeout_secs = none;
  notify = none;
  user = 0;
  group = 0;
  cgroup = 0;
}

abbrev zygote_process : StaticProcessProto
zygote_process = record {
  name = 21;
  executable = 122 ∷ [];
  options = plain_options;
  compute = 0;
  stdin = none;
  stdout = none;
  stderr = none;
  interactive = false;
  oneshot = false;
  disabled = false;
}

abbrev module_process : ModuleProto
module_process = record {
  name = 31;
  dso = [];
  zygote = 1;
  options = plain_options;
  compute = 0;
  stdin = none;
  stdout = none;
  stderr = none;
  main_func = [];
  disabled = false;
}

-- Subsystem 1 is a zygote, 2 a module in it, and 3 depends on both.
abbrev subsystem_with : ℕ → List StaticProcessProto → List ModuleProto → List ℕ → SubsystemProto
subsystem_with name zygotes modules deps = record {
  name = name;
  static_process = [];
  modules = modules;
  zygote = zygotes;
  var = [];
  arg = [];
  dep = deps;
  max_restarts = none;
  critical = false;
}

abbrev graph_of : List SubsystemProto → SubsystemGraph
graph_of subsystems = record {
  subsystem = subsystems;
  interface = 3 ∷ [];
  autostart = [];
  compute = [];
  var = [];
}

abbrev small_graph : SubsystemGraph
small_graph = graph_of (
    subsystem_with 3 [] [] (2 ∷ 1 ∷ [])
    ∷ subsystem_with 2 [] (module_process ∷ []) []
    ∷ subsystem_with 1 (zygote_process ∷ []) [] []
    ∷ [])

-- 2 depends on 3 here.
abbrev looped_graph : SubsystemGraph
looped_graph = graph_of (
    subsystem_with 3 [] [] (2 ∷ 1 ∷ [])
    ∷ subsystem_with 2 [] (module_process ∷ []) (3 ∷ [])
    ∷ subsystem_with 1 (zygote_process ∷ []) [] []
    ∷ [])

abbrev loaded_from : SubsystemGraph → Director
unfolding load_all load_graph load_autostart load_interface load_subsystem load_variable
    load_compute preload_graph preload_subsystem load_into check_interactive set_options
    link_subspace link_dep add_module add_zygote add_static_process module_of zygote_of
    static_process_of parse_options has_process for_each find_subsystem find_compute add_compute
    add_global_variable parse_stream disposition_of enabled_variables all_variables insert lookup
    elem_of
loaded_from g = elim (load_all (g ∷ []) empty_director) [ err e ↦ empty_director | ok d ↦ d ]

loads : load_all (small_graph ∷ []) empty_director ≡ ok (loaded_from small_graph)
unfolding loaded_from
loads = refl

loads_loop : load_all (looped_graph ∷ []) empty_director ≡ ok (loaded_from looped_graph)
unfolding loaded_from
loads_loop = refl

load_all-IsLinked_example : IsLinked (loaded_from small_graph)
load_all-IsLinked_example =
    load_all-IsLinked (small_graph ∷ []) empty_director (loaded_from small_graph)
      empty_director-IsLinked loads

abbrev StartsUp : SubsystemGraph → Type 0
StartsUp g =
    ((order : List ℕ) × ((start_up (g ∷ []) empty_director ≡ some (registers order (loaded_from g)))
        × (((v : ℕ) → Leads (deps_of (loaded_from g)) v v → ⊥)
            × (Within (loaded_from g).interfaces order
                × Follows (deps_of (loaded_from g)) [] order))))
    ⊎ ((path : List ℕ) × ((start_up (g ∷ []) empty_director ≡ some (loop_found path))
          × ((v : ℕ) × Leads (deps_of (loaded_from g)) v v)))

start_up-Follows_example : StartsUp small_graph
start_up-Follows_example =
    start_up-Follows (small_graph ∷ []) empty_director (loaded_from small_graph)
      empty_director-IsLinked loads

start_up_loop : StartsUp looped_graph
start_up_loop =
    start_up-Follows (looped_graph ∷ []) empty_director (loaded_from looped_graph)
      empty_director-IsLinked loads_loop

-- The module of subsystem 2 depends on its zygote, which is registered first.
order_of_graph :
    start_checked (loaded_from small_graph)
    ≡ some (registers (1 ∷ 2 ∷ 3 ∷ []) (loaded_from small_graph))
unfolding start_checked start_order check_loops registration_order check_for_subsystem_loops
    check_root check_from check_each flatten_graph flatten_from flatten_each loaded_from elem_of
    lookup find_subsystem
order_of_graph = refl

loop_of_graph : start_checked (loaded_from looped_graph) ≡ some (loop_found (3 ∷ 2 ∷ 3 ∷ []))
unfolding start_checked start_order check_loops registration_order check_for_subsystem_loops
    check_root check_from check_each flatten_graph flatten_from flatten_each loaded_from elem_of
    lookup find_subsystem
loop_of_graph = refl

abbrev empty_cache : Cache
empty_cache = record { event_cache = []; num_cached_events = 0 }

empty_cache-Holds : Holds [] empty_cache
empty_cache-Holds = record {
  kept = let nothing : 0 - max_events ≡ 0 = omega arith in rw nothing refl;
  counted = refl;
  bounded = omega arith;
}

cache_all-Holds_example : Holds (1 ∷ 2 ∷ 3 ∷ []) (cache_all (1 ∷ 2 ∷ 3 ∷ []) empty_cache)
cache_all-Holds_example = cache_all-Holds [] (1 ∷ 2 ∷ 3 ∷ []) empty_cache empty_cache-Holds

check_loops-decides_example :
    ((more : List ℕ) × ((check_loops (loaded_from looped_graph) ≡ some (clear more))
        × ((v : ℕ) → Leads (deps_of (loaded_from looped_graph)) v v → ⊥)))
    ⊎ ((path : List ℕ) × ((check_loops (loaded_from looped_graph) ≡ some (looped path))
          × ((v : ℕ) × Leads (deps_of (loaded_from looped_graph)) v v)))
check_loops-decides_example = check_loops-decides (loaded_from looped_graph) (
    load_all-IsLinked (looped_graph ∷ []) empty_director (loaded_from looped_graph)
      empty_director-IsLinked loads_loop)

start_up_loaded :
    (graphs : List SubsystemGraph) (d e : Director)
    → load_all graphs d ≡ ok e
    → start_up graphs d ≡ start_checked e
unfolding start_up
start_up_loaded graphs d e h = rw (h, start_up) refl

start_of_graph :
    start_up (small_graph ∷ []) empty_director
    ≡ some (registers (1 ∷ 2 ∷ 3 ∷ []) (loaded_from small_graph))
start_of_graph =
    start_up_loaded (small_graph ∷ []) empty_director (loaded_from small_graph) loads
    ∙ order_of_graph

start_up-RegistersAll_example :
    RegistersAll
      (1 ∷ 2 ∷ 3 ∷ [])
      (register_each (loaded_from small_graph) (1 ∷ 2 ∷ 3 ∷ []) empty_registry)
start_up-RegistersAll_example =
    start_up-RegistersAll (small_graph ∷ []) empty_director (loaded_from small_graph)
      (1 ∷ 2 ∷ 3 ∷ []) empty_registry empty_director-IsLinked loads start_of_graph
