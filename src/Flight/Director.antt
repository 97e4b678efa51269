-- ===== src/Flight/Director.antt =====
-- flight/subsystem.h and flight_director.h: the subsystems that the flight director loads. Names of
-- subsystems, processes and computes are only compared: numbers here. The addresses, cgroups, users
-- and groups that it passes on are numbers as well.
pub mod Cache
use adastra.Prelude.{
  ℕ, ◌+◌, ◌==◌, Bool, true, false, Option, none, some, List, [], ◌∷◌, ◌++◌, ℤ, Text, lookup, insert,
  if◌then◌else◌,
}
use adastra.Common.Variable.{Variable}
use adastra.Common.Stream.{Stream}

pub data ProcessType : Type 0 where
  static zygote module_process : ProcessType

-- Process and its subclasses; a field of another subclass is empty.
pub record Process : Type 0 where
  pub type : ProcessType
  pub name : ℕ
  pub executable : Text
  pub dso : Text
  pub zygote_name : ℕ
  pub main_func : Text
  pub compute : ℕ
  pub vars : List Variable
  pub args : List Text
  pub startup_timeout_secs : ℤ
  pub sigint_shutdown_timeout_secs : ℤ
  pub sigterm_shutdown_timeout_secs : ℤ
  pub notify : Bool
  pub streams : List Stream
  pub user : ℕ
  pub group : ℕ
  pub cgroup : ℕ
  pub interactive : Bool
  pub oneshot : Bool

-- A dependency is the name of the subsystem that the pointer leads to.
pub record Subsystem : Type 0 where
  pub processes : List Process
  pub deps : List ℕ
  pub vars : List Variable
  pub args : List Text
  pub max_restarts : ℤ
  pub critical : Bool
  pub disabled : Bool

pub record Compute : Type 0 where
  pub addr : ℕ × ℕ
  pub cgroups : List ℕ

pub record Director : Type 0 where
  pub subsystems : List (ℕ × Subsystem)
  pub autostarts : List ℕ
  pub interfaces : List ℕ
  pub computes : List (ℕ × Compute)
  pub global_variables : List Variable

-- FlightDirector::FindSubsystem and FindCompute.
unfoldable pub find_subsystem : ℕ → Director → Option Subsystem
find_subsystem name d = lookup name d.subsystems

unfoldable pub find_compute : ℕ → Director → Option Compute
find_compute name d = lookup name d.computes

-- A write through the pointer to a subsystem.
abbrev pub put_subsystem : ℕ → Subsystem → Director → Director
put_subsystem name s d = record d { subsystems = insert name s d.subsystems }

-- FlightDirector::AddCompute and AddGlobalVariable.
unfoldable pub add_compute : ℕ → Compute → Director → Director
add_compute name c d = elim (lookup name d.computes) [
  | none ↦ record d { computes = insert name c d.computes }
  | some old ↦ d
]

unfoldable pub add_global_variable : Variable → Director → Director
add_global_variable v d = record d { global_variables = d.global_variables ++ v ∷ [] }

-- The names of the subsystems, and the dependencies of each.
abbrev pub names_of {ℓ} : {A : Type ℓ} → List (ℕ × A) → List ℕ
names_of [] = []
names_of ((name, s) ∷ rest) = name ∷ names_of rest

abbrev pub deps_or_none : Option Subsystem → List ℕ
deps_or_none none = []
deps_or_none (some s) = s.deps

abbrev pub deps_of : Director → ℕ → List ℕ
deps_of d name = deps_or_none (find_subsystem name d)
