-- ===== src/Flight/Graph.antt =====
-- flight/flight_director.cc: the searches through the graph of subsystems. A subsystem is its name,
-- a number, and `deps` gives the dependencies of each. The searches have fuel: `none` is a search
-- that ran out of it.
pub mod Paths
pub mod Loops
pub mod Order
pub mod Inside
use adastra.Prelude.{
  ℕ, zero, suc, Bool, true, false, Option, none, some, List, [], ◌∷◌, ◌++◌, ◌==◌, elem_of,
}

-- What CheckForSubsystemLoopsRecurse returns, with the set of the visited ones.
pub data Check : Type 0 where
  clear : List ℕ → Check
  looped : List ℕ → Check

-- `visited` and `vec` of FlattenSubsystemGraph.
pub record Flat : Type 0 where
  pub visited : List ℕ
  pub vec : List ℕ

-- A loop over the dependencies that returns at the first error.
unfoldable pub check_each : (ℕ → List ℕ → Option Check) → List ℕ → List ℕ → Option Check
check_each check [] visited = some (clear visited)
check_each check (d ∷ ds) visited = elim (check d visited) [
  | none ↦ none
  | some (looped path) ↦ some (looped path)
  | some (clear more) ↦ check_each check ds more
]

unfoldable pub flatten_each : (ℕ → Flat → Option Flat) → List ℕ → Flat → Option Flat
flatten_each flatten [] s = some s
flatten_each flatten (d ∷ ds) s = elim (flatten d s) [
  | none ↦ none
  | some t ↦ flatten_each flatten ds t
]

module _ (deps : ℕ → List ℕ) where
  -- CheckForSubsystemLoopsRecurse at a dependency. The path is the list of its names.
  unfoldable pub check_from : ℕ → ℕ → List ℕ → ℕ → List ℕ → Option Check
  check_from zero root path v visited = none
  check_from (suc fuel) root path v visited = elim (elem_of v visited) [
    | true ↦ some (clear visited)
    | false ↦ elim (v == root) [
      | true ↦ some (looped (path ++ v ∷ []))
      | false ↦ check_each (check_from fuel root (path ++ v ∷ [])) (deps v) (v ∷ visited)
    ]
  ]

  -- The same where `subsystem` is null: the dependencies of the root.
  unfoldable pub check_root : ℕ → ℕ → Option Check
  check_root fuel root = check_each (check_from fuel root (root ∷ [])) (deps root) []

  -- CheckForSubsystemLoops, over the names of the subsystems.
  unfoldable pub check_for_subsystem_loops : ℕ → List ℕ → Option Check
  check_for_subsystem_loops fuel [] = some (clear [])
  check_for_subsystem_loops fuel (v ∷ vs) = elim (check_root fuel v) [
    | none ↦ none
    | some (looped path) ↦ some (looped path)
    | some (clear visited) ↦ check_for_subsystem_loops fuel vs
  ]

  -- FlattenSubsystemGraph.
  unfoldable pub flatten_from : ℕ → ℕ → Flat → Option Flat
  flatten_from zero v s = none
  flatten_from (suc fuel) v s = elim (elem_of v s.visited) [
    | true ↦ some s
    | false ↦
        elim (flatten_each (flatten_from fuel) (deps v)
          (record { visited = v ∷ s.visited; vec = s.vec })) [
            | none ↦ none
            | some t ↦ some (record { visited = t.visited; vec = t.vec ++ v ∷ [] })
          ]
  ]

  -- The loop over the interfaces in Run.
  unfoldable pub flatten_graph : ℕ → List ℕ → Option Flat
  flatten_graph fuel interfaces =
      flatten_each (flatten_from fuel) interfaces (record { visited = []; vec = [] })
