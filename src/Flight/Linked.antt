-- ===== src/Flight/Linked.antt =====
-- flight/flight_director.cc: what holds of the subsystems that are loaded without an error.
pub mod Steps
pub mod Graphs
use adastra.Prelude.{
  ℕ, ◌≡◌, refl, Bool, true, false, ◌&&◌, ◌||◌, not, Option, none, some, List, [], ◌∷◌, ◌++◌, ◌==◌,
  elem_of, arith, if◌then◌else◌,
}
use adastra.Flight.Director.{Process, Subsystem, Director, find_subsystem}

abbrev pub distinct : List ℕ → Bool
distinct [] = true
distinct (x ∷ xs) = not (elem_of x xs) && distinct xs

abbrev pub process_names : List Process → List ℕ
process_names [] = []
process_names (p ∷ ps) = p.name ∷ process_names ps

abbrev pub IsKnown : Director → ℕ → Type 0
IsKnown d name = (s : Subsystem) × (find_subsystem name d ≡ some s)

-- The dependencies of a subsystem are distinct subsystems of the director, its processes have
-- distinct names, and it is enabled.
pub record IsWell (d : Director) (s : Subsystem) : Type 0 where
  pub deps_known : (x : ℕ) → elem_of x s.deps ≡ true → IsKnown d x
  pub deps_distinct : distinct s.deps ≡ true
  pub processes_distinct : distinct (process_names s.processes) ≡ true
  pub enabled : s.disabled ≡ false

-- So of all the subsystems, and the interfaces are among them.
pub record IsLinked (d : Director) : Type 0 where
  pub subsystems_well : (name : ℕ) (s : Subsystem) → find_subsystem name d ≡ some s → IsWell d s
  pub interfaces_known : (x : ℕ) → elem_of x d.interfaces ≡ true → IsKnown d x

elem_of-snoc : (y : ℕ) (xs : List ℕ) (x : ℕ) → elem_of y (xs ++ x ∷ []) ≡ (elem_of y xs || x == y)
unfolding elem_of
elem_of-snoc y [] x = ground arith
elem_of-snoc y (z ∷ xs) x = ground (arith, elem_of-snoc y xs x)

pub distinct-snoc :
    (xs : List ℕ) (x : ℕ)
    → elem_of x xs ≡ false
    → distinct xs ≡ true
    → distinct (xs ++ x ∷ []) ≡ true
unfolding elem_of
distinct-snoc [] x new h = refl
distinct-snoc (y ∷ xs) x new h = ground (arith, distinct-snoc xs x, elem_of-snoc y xs x)

pub names-snoc :
    (ps : List Process) (p : Process)
    → process_names (ps ++ p ∷ []) ≡ process_names ps ++ p.name ∷ []
names-snoc [] p = refl
names-snoc (q ∷ ps) p = cc (names-snoc ps p)
