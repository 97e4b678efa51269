-- ===== src/Flight/Registration/Startup.antt =====
-- flight/flight_director.cc: Run from the loaded graphs to the subsystems that capcom has registered.
use adastra.Prelude.{ℕ, ◌≡◌, sym, some, List, [], elem_of, arith, inl, inr}
use adastra.Capcom.Registry.{Registry}
use adastra.Flight.Result.{ok}
use adastra.Flight.Director.{Director, find_subsystem, names_of, deps_of}
use adastra.Flight.Graph.{Flat}
use adastra.Flight.Graph.Inside.{flatten_graph-Within}
use adastra.Flight.Load.{SubsystemGraph}
use adastra.Flight.Load.Graphs.{load_all}
use adastra.Flight.Linked.{IsLinked}
use adastra.Flight.Linked.Graphs.{load_all-IsLinked}
use adastra.Flight.Startup.{
  search_fuel, registration_order, registers, start_order, start_checked, start_up,
}
use adastra.Flight.Startup.Acyclic.{
  elem_of-lookup, known-named, deps-closed, check_loops-decides, registration_order-Follows,
}
use adastra.Flight.Registration.{register_each}
use adastra.Flight.Registration.Order.{IsEnabled, RegistersAll, register_each-after}

order-IsEnabled :
    (d : Director) (order : Flat)
    → IsLinked d
    → registration_order d ≡ some order
    → IsEnabled d order.vec
unfolding registration_order find_subsystem
order-IsEnabled d order l h x m =
    let named =
      flatten_graph-Within (deps_of d) (names_of d.subsystems) (deps-closed d l) (search_fuel d)
        d.interfaces order (λ y k. known-named d l y (l.interfaces_known y k)) h x m in
    let (s, found) = elem_of-lookup x d.subsystems named in
    (s, (found, (l.subsystems_well x s found).enabled))

-- If loading succeeds on a well-formed flight director and Run finds an order, then, with capcom
-- answering each request over a connection that does not fail, the registrations in that order all
-- succeed and every subsystem of the order is registered, or the first that fails does so for a
-- stream that cannot be sent or a fault of its own request, and not for a child that capcom does
-- not know.
pub start_up-RegistersAll :
    (graphs : List SubsystemGraph) (d e : Director) (order : List ℕ) (r : Registry)
    → IsLinked d
    → load_all graphs d ≡ ok e
    → start_up graphs d ≡ some (registers order e)
    → RegistersAll order (register_each e order r)
unfolding start_up start_checked start_order elem_of
start_up-RegistersAll graphs d e order r l h started =
    let linked = load_all-IsLinked graphs d e l h in
    elim (check_loops-decides e linked) [
      | inr (path, (q, found)) ↦ absurd (cc (rw (h, start_up, q, start_checked) at started))
      | inl (more, (q, acyclic)) ↦
          let (flat, (o, (interfaces, sorted))) = registration_order-Follows e linked acyclic in
          let k : some (registers flat.vec e) ≡ some (registers order e) =
            rw (h, start_up, q, start_checked, o, start_order) at started in
          let same : flat.vec ≡ order = ground arith in
          rw (sym same) (
            register_each-after e [] flat.vec r (order-IsEnabled e flat linked o) sorted
              (λ x m. absurd (cc)))
    ]
