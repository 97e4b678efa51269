-- ===== src/Flight/Load/Processes.antt =====
-- flight/flight_director.cc: the loops of LoadSubsystemGraph over one subsystem's dependencies and
-- processes.
use adastra.Prelude.{
  ℕ, ◌+◌, Bool, true, false, ◌&&◌, ◌||◌, Option, none, some, List, [], ◌∷◌, ◌++◌, Text, ◌==◌,
  elem_of, ltb, if◌then◌else◌,
}
use adastra.Flight.Result.{
  Result, ok, err, ◌>>=◌, for_each, no_such_dep, already_dep, process_exists, zygote_exists,
  module_exists, streams_of_interactive, interactive_zygote, no_such_zygote, too_many_interactive,
}
use adastra.Flight.Director.{Process, ProcessType, Subsystem, Director, find_subsystem}
use adastra.Flight.Load.{
  StaticProcessProto, ModuleProto, SubsystemProto, OptionsProto, default_startup_timeout,
  default_sigint_timeout, default_sigterm_timeout, default_max_restarts, or_default, all_variables,
  enabled_variables, parse_streams,
}

-- CheckProcessUniqueness.
unfoldable pub has_process : ℕ → List Process → Bool
has_process name [] = false
has_process name (p ∷ ps) = p.name == name || has_process name ps

-- A Process with its name, after ParseProcessOptions or ParseModuleOptions.
unfoldable pub parse_options : ProcessType → ℕ → OptionsProto → Bool → Process
parse_options type name o notify = record {
  type = type;
  name = name;
  executable = [];
  dso = [];
  zygote_name = 0;
  main_func = [];
  compute = 0;
  vars = all_variables o.vars;
  args = o.args;
  startup_timeout_secs = or_default default_startup_timeout o.startup_timeout_secs;
  sigint_shutdown_timeout_secs = or_default default_sigint_timeout o.sigint_shutdown_timeout_secs;
  sigterm_shutdown_timeout_secs =
      or_default default_sigterm_timeout o.sigterm_shutdown_timeout_secs;
  notify = notify;
  streams = [];
  user = o.user;
  group = o.group;
  cgroup = o.cgroup;
  interactive = false;
  oneshot = false;
}

abbrev pub is_some {ℓ} : {A : Type ℓ} → Option A → Bool
is_some none = false
is_some (some a) = true

-- `subsystem->processes.push_back`.
abbrev pub push_process : Process → Subsystem → Subsystem
push_process p s = record s { processes = s.processes ++ p ∷ [] }

-- The process that is made for a static process, its streams if it is not interactive.
unfoldable pub static_process_of : StaticProcessProto → Process
unfolding parse_options
static_process_of proc =
    record (parse_options ProcessType.static proc.name proc.options
      (or_default true proc.options.notify)) {
        executable = proc.executable;
        compute = proc.compute;
        oneshot = proc.oneshot;
        interactive = proc.interactive;
        streams = if proc.interactive then [] else parse_streams proc.stdin proc.stdout proc.stderr;
      }

abbrev pub has_streams : StaticProcessProto → Bool
has_streams proc = is_some proc.stdin || (is_some proc.stdout || is_some proc.stderr)

-- The subsystem that is loaded, and `num_interactive_procs`.
unfoldable pub add_static_process : ℕ → StaticProcessProto → Subsystem × ℕ → Result (Subsystem × ℕ)
unfolding has_process
add_static_process name proc (s, count) =
    if proc.disabled
    then ok (s, count)
    else if has_process proc.name s.processes
    then err (process_exists proc.name name)
    else if proc.interactive && has_streams proc
    then err (streams_of_interactive proc.name)
    else ok (push_process (static_process_of proc) s, if proc.interactive then count + 1 else count)

unfoldable pub zygote_of : StaticProcessProto → Process
unfolding parse_options
zygote_of z =
    record (parse_options ProcessType.zygote z.name z.options (or_default true z.options.notify)) {
      executable = z.executable;
      compute = z.compute;
      streams = parse_streams z.stdin z.stdout z.stderr;
    }

unfoldable pub add_zygote : ℕ → StaticProcessProto → Subsystem → Result Subsystem
unfolding has_process
add_zygote name z s =
    if z.disabled
    then ok s
    else if has_process z.name s.processes
    then err (zygote_exists z.name name)
    else if z.interactive
    then err (interactive_zygote z.name)
    else ok (push_process (zygote_of z) s)

-- A dependency on a subsystem, unless it is there.
abbrev pub add_dep : ℕ → Subsystem → Subsystem
add_dep name s = if elem_of name s.deps then s else record s { deps = s.deps ++ name ∷ [] }

-- "ModuleMain".
abbrev pub module_main : Text
module_main = b'M' ∷ b'o' ∷ b'd' ∷ b'u' ∷ b'l' ∷ b'e' ∷ b'M' ∷ b'a' ∷ b'i' ∷ b'n' ∷ []

abbrev pub main_func_of : Text → Text
main_func_of [] = module_main
main_func_of (c ∷ name) = c ∷ name

unfoldable pub module_of : ModuleProto → Process
unfolding parse_options
module_of mo = record (parse_options ProcessType.module_process mo.name mo.options false) {
  zygote_name = mo.zygote;
  dso = mo.dso;
  compute = mo.compute;
  main_func = main_func_of mo.main_func;
  streams = parse_streams mo.stdin mo.stdout mo.stderr;
}

unfoldable pub add_module : Director → ℕ → ModuleProto → Subsystem → Result Subsystem
unfolding has_process
add_module d name mo s =
    if mo.disabled
    then ok s
    else if has_process mo.name s.processes
    then err (module_exists mo.name name)
    else elim (find_subsystem mo.zygote d) [
      | none ↦ err (no_such_zygote mo.name mo.zygote)
      | some z ↦ ok (push_process (module_of mo) (add_dep mo.zygote s))
    ]

-- The loop over `s.dep()`.
unfoldable pub link_dep : Director → ℕ → ℕ → Subsystem → Result Subsystem
link_dep d name dep s = elim (find_subsystem dep d) [
  | none ↦ err (no_such_dep dep name)
  | some found ↦
      if elem_of dep s.deps
      then err (already_dep dep name)
      else ok (record s { deps = s.deps ++ dep ∷ [] })
]

-- The name "subspace".
abbrev pub subspace : ℕ
subspace = 0

abbrev pub has_modules : List ModuleProto → Bool
has_modules [] = false
has_modules (m ∷ ms) = true

unfoldable pub link_subspace : Director → SubsystemProto → Subsystem → Subsystem
link_subspace d p s =
    if has_modules p.modules
    then elim (find_subsystem subspace d) [ none ↦ s | some found ↦ add_dep subspace s ]
    else s

-- The arguments, variables and limits of a subsystem.
unfoldable pub set_options : SubsystemProto → Subsystem → Subsystem
set_options p s = record s {
  args = s.args ++ p.arg;
  vars = s.vars ++ enabled_variables p.var;
  max_restarts = or_default default_max_restarts p.max_restarts;
  critical = p.critical;
}

unfoldable pub check_interactive : ℕ → Subsystem × ℕ → Result Subsystem
check_interactive name (s, count) =
    if ltb 1 count then err (too_many_interactive name count) else ok s

-- The body of the loop over the subsystems of a graph, on the subsystem that the pointer leads to.
-- The interactive processes are counted in the loop over the static ones.
unfoldable pub load_into : Director → SubsystemProto → Subsystem → Result Subsystem
load_into d p s = do
  linked ← for_each (link_dep d p.name) p.dep s
  counted ←
      for_each (add_static_process p.name) p.static_process
        (set_options p (link_subspace d p linked), 0)
  zygotes ← for_each (add_zygote p.name) p.zygote counted.0
  modules ← for_each (add_module d p.name) p.modules zygotes
  check_interactive p.name (modules, counted.1)
