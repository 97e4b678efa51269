-- ===== src/Flight/Startup/Acyclic.antt =====
-- flight/flight_director.cc: the subsystems that were loaded are checked for loops, and are then put
-- in an order that respects their dependencies.
use adastra.Prelude.{
  ℕ, ◌<◌, ◌≡◌, refl, true, some, List, [], ◌∷◌, ◌==◌, elem_of, arith, lookup, Bool-cases,
  Option-cases, inl, inr, ◌⊎◌,
}
use adastra.Flight.Result.{ok}
use adastra.Flight.Director.{Director, find_subsystem, names_of, deps_of}
use adastra.Flight.Graph.{Flat, clear, looped}
use adastra.Flight.Graph.Paths.{Leads, edge, onward, Within, unvisited, unvisited-bound}
use adastra.Flight.Graph.Order.{Follows, flatten_graph-Follows}
use adastra.Flight.Graph.Loops.{check-decides}
use adastra.Flight.Load.{SubsystemGraph}
use adastra.Flight.Load.Graphs.{load_all}
use adastra.Flight.Linked.{IsKnown, IsLinked}
use adastra.Flight.Linked.Graphs.{load_all-IsLinked}
use adastra.Flight.Startup.{
  search_fuel, check_loops, registration_order, loop_found, registers, start_order, start_checked,
  start_up,
}

lookup-elem_of {ℓ} :
    {A : Type ℓ} (name : ℕ) (a : A) (entries : List (ℕ × A))
    → lookup name entries ≡ some a
    → elem_of name (names_of entries) ≡ true
unfolding lookup elem_of
lookup-elem_of name a [] h = absurd (cc)
lookup-elem_of name a ((other, b) ∷ rest) h = ground (arith, lookup-elem_of name a rest)

pub elem_of-lookup {ℓ} :
    {A : Type ℓ} (name : ℕ) (entries : List (ℕ × A))
    → elem_of name (names_of entries) ≡ true
    → (a : A) × (lookup name entries ≡ some a)
unfolding lookup elem_of
elem_of-lookup name [] h = absurd (cc)
elem_of-lookup name ((other, b) ∷ rest) h = elim (Bool-cases (other == name)) [
  | inl same ↦ (b, rw (same, lookup) refl)
  | inr different ↦
      let (a, found) = elem_of-lookup name rest (ground arith) in (a, rw (different, lookup) found)
]

module _ (d : Director) (linked : IsLinked d) where
  pub known-named : (x : ℕ) → IsKnown d x → elem_of x (names_of d.subsystems) ≡ true
  unfolding find_subsystem
  known-named x (s, found) = lookup-elem_of x s d.subsystems found

  pub deps-closed :
      (v : ℕ)
      → elem_of v (names_of d.subsystems) ≡ true
      → Within (deps_of d v) (names_of d.subsystems)
  unfolding find_subsystem
  deps-closed v m x k =
      let (s, found) = elem_of-lookup v d.subsystems m in
      known-named x ((linked.subsystems_well v s found).deps_known x (rw found at k))

  -- A subsystem that leads anywhere is one of the director.
  Leads-named : (v x : ℕ) → Leads (deps_of d) v x → elem_of v (names_of d.subsystems) ≡ true
  unfolding find_subsystem elem_of
  Leads-named v x (onward l m) = Leads-named v _ l
  Leads-named v x (edge m) = elim (Option-cases (lookup v d.subsystems)) [
    | inl missing ↦ absurd (cc (rw missing at m))
    | inr (s, found) ↦ lookup-elem_of v s d.subsystems found
  ]

  enough : unvisited (names_of d.subsystems) [] < search_fuel d
  enough = omega (arith, unvisited-bound (names_of d.subsystems) [])

  -- In a well-formed flight director CheckForSubsystemLoops returns ok exactly where no subsystem
  -- leads back to itself along a path of dependencies: with the fuel given it returns, ok if there
  -- is no such subsystem and a loop only if there is one.
  pub check_loops-decides :
      ((more : List ℕ) × ((check_loops d ≡ some (clear more))
          × ((v : ℕ) → Leads (deps_of d) v v → ⊥)))
      ⊎ ((path : List ℕ) × ((check_loops d ≡ some (looped path))
            × ((v : ℕ) × Leads (deps_of d) v v)))
  unfolding check_loops
  check_loops-decides =
      elim (check-decides (deps_of d) (names_of d.subsystems) deps-closed (search_fuel d)
        (names_of d.subsystems) (λ x m. m) enough) [
          | inl (more, (e, free)) ↦ inl (more, (e, λ v l. free v (Leads-named v v l) l))
          | inr (path, (e, (v, (m, l)))) ↦ inr (path, (e, (v, l)))
        ]

  pub registration_order-Follows :
      ((v : ℕ) → Leads (deps_of d) v v → ⊥)
      → (r : Flat) × ((registration_order d ≡ some r)
          × (Within d.interfaces r.vec × Follows (deps_of d) [] r.vec))
  unfolding registration_order
  registration_order-Follows acyclic =
      flatten_graph-Follows (deps_of d) (names_of d.subsystems) deps-closed acyclic (search_fuel d)
        d.interfaces (λ x m. known-named x (linked.interfaces_known x m)) enough

-- If LoadAllSubsystemGraphs succeeds on a well-formed flight director, Run does not run out of
-- fuel: either CheckForSubsystemLoops reports a loop, and then some subsystem depends on itself
-- through its dependencies, or no subsystem does, and the order in which Run registers the
-- subsystems has every interface, each subsystem once, and each after all its dependencies.
pub start_up-Follows :
    (graphs : List SubsystemGraph) (d e : Director)
    → IsLinked d
    → load_all graphs d ≡ ok e
    → ((order : List ℕ) × ((start_up graphs d ≡ some (registers order e))
          × (((v : ℕ) → Leads (deps_of e) v v → ⊥)
              × (Within e.interfaces order × Follows (deps_of e) [] order))))
      ⊎ ((path : List ℕ) × ((start_up graphs d ≡ some (loop_found path))
            × ((v : ℕ) × Leads (deps_of e) v v)))
unfolding start_up start_checked start_order
start_up-Follows graphs d e l h =
    let linked = load_all-IsLinked graphs d e l h in
    elim (check_loops-decides e linked) [
      | inr (path, (q, found)) ↦ inr (path, (rw (h, start_up, q, start_checked) refl, found))
      | inl (more, (q, acyclic)) ↦
          let (r, (o, listed)) = registration_order-Follows e linked acyclic in
          inl (r.vec, (rw (h, start_up, q, start_checked, o, start_order) refl, (acyclic, listed)))
    ]
