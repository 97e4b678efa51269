-- ===== src/Flight/Load.antt =====
-- flight/flight_director.cc: PreloadSubsystemGraph, once the file is parsed, and LoadSubsystemGraph.
-- The messages of proto/flight.proto are the records of their fields; a field that the code asks
-- for is an option.
pub mod Processes
pub mod Graphs
use adastra.Prelude.{
  ℕ, ◌+◌, Bool, true, false, ◌&&◌, ◌||◌, not, Option, none, some, List, [], ◌∷◌, ◌++◌, ℤ, pos,
  int_eq, Text, ◌==◌, if◌then◌else◌,
}
use adastra.Common.Variable.{Variable}
use adastra.Common.Stream.{Stream, Disposition, Direction, StreamData, new_stream}

pub data Where : Type 0 where
  logger stagezero file close other : Where

pub record StreamProto : Type 0 where
  pub where_to : Where
  pub tty : Bool
  pub filename : Text

pub record VariableProto : Type 0 where
  pub name : Text
  pub value : Text
  pub exported : Bool
  pub disabled : Bool

-- ProcessOptions, and ModuleOptions, which has no `notify`.
pub record OptionsProto : Type 0 where
  pub vars : List VariableProto
  pub args : List Text
  pub sigint_shutdown_timeout_secs : Option ℤ
  pub sigterm_shutdown_timeout_secs : Option ℤ
  pub startup_timeout_secs : Option ℤ
  pub notify : Option Bool
  pub user : ℕ
  pub group : ℕ
  pub cgroup : ℕ

pub record StaticProcessProto : Type 0 where
  pub name : ℕ
  pub executable : Text
  pub options : OptionsProto
  pub compute : ℕ
  pub stdin : Option StreamProto
  pub stdout : Option StreamProto
  pub stderr : Option StreamProto
  pub interactive : Bool
  pub oneshot : Bool
  pub disabled : Bool

pub record ModuleProto : Type 0 where
  pub name : ℕ
  pub dso : Text
  pub zygote : ℕ
  pub options : OptionsProto
  pub compute : ℕ
  pub stdin : Option StreamProto
  pub stdout : Option StreamProto
  pub stderr : Option StreamProto
  pub main_func : Text
  pub disabled : Bool

pub record SubsystemProto : Type 0 where
  pub name : ℕ
  pub static_process : List StaticProcessProto
  pub modules : List ModuleProto
  pub zygote : List StaticProcessProto
  pub var : List VariableProto
  pub arg : List Text
  pub dep : List ℕ
  pub max_restarts : Option ℤ
  pub critical : Bool

pub record ComputeProto : Type 0 where
  pub name : ℕ
  pub addr : ℕ × ℕ
  pub cgroups : List ℕ
  pub disabled : Bool

pub record SubsystemGraph : Type 0 where
  pub subsystem : List SubsystemProto
  pub interface : List ℕ
  pub autostart : List ℕ
  pub compute : List ComputeProto
  pub var : List VariableProto

-- kDefaultStartupTimeout, kDefaultSigIntTimeout, kDefaultSigTermTimeout and kDefaultMaxRestarts.
abbrev pub default_startup_timeout : ℤ
default_startup_timeout = pos 10

abbrev pub default_sigint_timeout : ℤ
default_sigint_timeout = pos 2

abbrev pub default_sigterm_timeout : ℤ
default_sigterm_timeout = pos 15

abbrev pub default_max_restarts : ℤ
default_max_restarts = pos 3

abbrev pub or_default {ℓ} : {A : Type ℓ} → A → Option A → A
or_default d none = d
or_default d (some a) = a

abbrev pub variable_of : VariableProto → Variable
variable_of v = record { name = v.name; value = v.value; exported = v.exported }

-- The variables that are not disabled.
unfoldable pub enabled_variables : List VariableProto → List Variable
enabled_variables [] = []
enabled_variables (v ∷ vs) =
    let rest = enabled_variables vs in if v.disabled then rest else variable_of v ∷ rest

unfoldable pub all_variables : List VariableProto → List Variable
all_variables [] = []
all_variables (v ∷ vs) = variable_of v ∷ all_variables vs

-- An absent stream reads as one to the logger.
abbrev pub no_stream : StreamProto
no_stream = record { where_to = Where.logger; tty = false; filename = [] }

unfoldable pub disposition_of : Where → Option Disposition
disposition_of Where.stagezero = some Disposition.stage_zero
disposition_of Where.logger = some Disposition.log
disposition_of Where.file = some Disposition.file
disposition_of Where.close = some Disposition.close
disposition_of Where.other = none

abbrev pub data_for : Disposition → Text → StreamData
data_for Disposition.file name = StreamData.filename name
data_for _ name = StreamData.filename []

abbrev pub is_log : Disposition → Bool
is_log Disposition.log = true
is_log _ = false

-- ParseStream: the streams after it.
unfoldable pub parse_stream : Option StreamProto → ℤ → List Stream → List Stream
parse_stream proto fd streams =
    let p = or_default no_stream proto in
    elim (disposition_of p.where_to) [
      | none ↦ streams
      | some disposition ↦
          let is_stdin = int_eq fd (pos 0) in
          let s = new_stream fd in
          if is_stdin && is_log disposition
          then streams
          else streams
            ++ record s {
              disposition = disposition;
              data_of = data_for disposition p.filename;
              direction = if is_stdin then Direction.input else Direction.output;
              tty = p.tty;
            }
              ∷ []
    ]

abbrev pub parse_streams :
    Option StreamProto → Option StreamProto → Option StreamProto → List Stream
parse_streams stdin stdout stderr =
    parse_stream stderr (pos 2) (parse_stream stdout (pos 1) (parse_stream stdin (pos 0) []))
