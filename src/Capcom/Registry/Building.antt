-- ===== src/Capcom/Registry/Building.antt =====
-- capcom/client_handler.cc, HandleAddSubsystem, and the methods of capcom/subsystem.cc that it calls.
-- Of a process the model has what Process keeps for its state; variables, arguments, streams and
-- parameters are only stored for the launch.
use adastra.Prelude.{
  ℕ, suc, Bool, true, false, not, Option, none, some, List, [], ◌∷◌, ◌++◌, pos, incr, Text, ◌==◌,
  if◌then◌else◌, lookup, insert, length,
}
use adastra.Common.Stream.{is_empty, new_stream}
use adastra.Common.Stream.Proto.{StreamControl, stream_from_proto}
use adastra.Common.Stream.Validation.{validate_streams}
use adastra.Capcom.Umbilical.{new_umbilical}
use adastra.Capcom.Process.{Process, ProcessKind}
use adastra.Capcom.Subsystem.{Subsystem}
use adastra.Capcom.Lifecycle.{run}
use adastra.Capcom.Registry.{
  Registry, no_name, find_compute, find_subsystem, add_subsystem, find_zygote, add_zygote,
  add_umbilical, modify_object,
}
use adastra.Capcom.Registry.Messages.{
  ProcCase, ProcessRequest, AddSubsystemRequest, AddError, new_process, new_subsystem, bad_stream,
  bad_streams, not_set,
}

-- What the loop over the children finds.
pub data Children : Type 0 where
  unknown : ℕ → Children
  known : List ℕ → Children

unfoldable pub find_children : List ℕ → Registry → Children
find_children [] r = known []
find_children (name ∷ names) r = elim (find_subsystem name r) [
  | none ↦ unknown name
  | some child ↦ elim (find_children names r) [
    | unknown missing ↦ unknown missing
    | known rest ↦ known (child ∷ rest)
  ]
]

-- Whether FromProto reads every stream.
unfoldable pub all_streams_read : List StreamControl → Bool
all_streams_read [] = true
all_streams_read (s ∷ streams) = elim (stream_from_proto s (new_stream (pos 0))) [
  | none ↦ false
  | some stream ↦ all_streams_read streams
]

-- Subsystem::AddProcess: `insert` leaves a name that is there.
unfoldable pub add_process : Process → Subsystem → Subsystem
add_process p s = elim (lookup p.name s.process_map) [
  | none ↦ record s {
    process_map = insert p.name (length s.processes) s.process_map;
    processes = s.processes ++ p ∷ [];
  }
  | some old ↦ record s { processes = s.processes ++ p ∷ [] }
]

-- Subsystem::AddUmbilicalReference.
unfoldable pub add_umbilical_reference : ℕ → Subsystem → Registry → Subsystem × Registry
unfolding new_umbilical
add_umbilical_reference compute s r = elim (lookup compute s.umbilicals) [
  | some u ↦ (
    record s {
      umbilicals = insert compute (record u { static_refs = incr u.static_refs }) s.umbilicals;
    },
    r,
  )
  | none ↦ (
    record s {
      umbilicals = insert compute (record new_umbilical { static_refs = pos 1 }) s.umbilicals;
    },
    add_umbilical compute false r,
  )
]

-- A subsystem under construction, or the error that ended it, and the registry.
pub data Built : Type 0 where
  built : Subsystem → Registry → Built
  refused : AddError → Registry → Built

-- Subsystem::AddStaticProcess.
unfoldable pub add_static_process : ProcessRequest → Text → ℕ → Subsystem → Registry → Built
add_static_process req executable compute s r =
    if is_empty executable
    then refused (AddError.missing_executable req.name) r
    else built (add_process (new_process req compute ProcessKind.static_process) s) r

-- Subsystem::AddZygote.
unfoldable pub add_zygote_process : ProcessRequest → Text → ℕ → Subsystem → Registry → Built
add_zygote_process req executable compute s r =
    if is_empty executable
    then refused (AddError.missing_executable req.name) r
    else elim (find_zygote req.name r) [
      | some z ↦ refused (AddError.zygote_exists req.name) r
      | none ↦
          built (add_process (new_process req compute ProcessKind.zygote) s)
            (add_zygote req.name s.this r).0
    ]

-- Subsystem::AddVirtualProcess.
unfoldable pub add_virtual_process : ProcessRequest → ℕ → Text → ℕ → Subsystem → Registry → Built
add_virtual_process req zygote_name main_func compute s r =
    if zygote_name == no_name
    then refused (AddError.missing_zygote req.name) r
    else if is_empty main_func
    then refused (AddError.missing_main_func req.name) r
    else elim (find_zygote zygote_name r) [
      | none ↦ refused (AddError.no_such_zygote zygote_name) r
      | some z ↦ built (add_process (new_process req compute ProcessKind.virtual_process) s) r
    ]

unfoldable pub add_by_case : ProcessRequest → ProcCase → ℕ → Subsystem → Registry → Built
add_by_case req (ProcCase.static_process executable) compute s r =
    add_static_process req executable compute s r
add_by_case req (ProcCase.zygote executable) compute s r =
    add_zygote_process req executable compute s r
add_by_case req (ProcCase.virtual_process zygote_name main_func) compute s r =
    add_virtual_process req zygote_name main_func compute s r
add_by_case req not_set compute s r = built s r

-- The body of the loop over the processes.
unfoldable pub build_process : ProcessRequest → Subsystem → Registry → Built
build_process req s r = elim (find_compute req.compute r) [
  | none ↦ refused (AddError.no_such_compute req.compute) r
  | some compute ↦
      let referred = add_umbilical_reference compute s r in
      if not (validate_streams req.streams)
      then refused bad_streams referred.1
      else add_by_case req req.proc compute referred.0 referred.1
]

unfoldable pub build_processes : List ProcessRequest → Subsystem → Registry → Built
build_processes [] s r = built s r
build_processes (req ∷ reqs) s r = elim (build_process req s r) [
  | refused e q ↦ refused e q
  | built t q ↦ build_processes reqs t q
]

-- AddChild and AddParent.
abbrev pub add_child : ℕ → Subsystem → Subsystem
add_child child s = record s { children = s.children ++ child ∷ [] }

abbrev pub add_parent : ℕ → Subsystem → Subsystem
add_parent parent s = record s { parents = s.parents ++ parent ∷ [] }

unfoldable pub link_children : ℕ → List ℕ → Registry → Registry
link_children address [] r = r
link_children address (child ∷ children) r =
    link_children address children
      (modify_object child (add_parent address) (modify_object address (add_child child) r))

-- The end of HandleAddSubsystem, once the processes are added.
unfoldable pub register_subsystem :
    AddSubsystemRequest → List ℕ → Subsystem → Registry → Registry × Option AddError
unfolding add_subsystem
register_subsystem req children s r =
    let (q, inserted) = add_subsystem req.name s.this r in
    if inserted
    then (
      modify_object s.this run (
          link_children s.this children
            (record q { objects = insert s.this (record { name = req.name; sub = s }) q.objects })),
      none,
    )
    else (q, some (AddError.subsystem_exists req.name))

-- HandleAddSubsystem once the children are found.
unfoldable pub build_subsystem :
    AddSubsystemRequest → List ℕ → Registry → Registry × Option AddError
build_subsystem req children r =
    if not (all_streams_read req.streams)
    then (r, some bad_stream)
    else elim (build_processes req.processes (new_subsystem r.next req)
        (record r { next = suc r.next })) [
          | refused e q ↦ (q, some e)
          | built s q ↦ register_subsystem req children s q
        ]

-- HandleAddSubsystem: the registry, and the error of the response.
unfoldable pub handle_add_subsystem : AddSubsystemRequest → Registry → Registry × Option AddError
handle_add_subsystem req r = elim (find_children req.children r) [
  | unknown name ↦ (r, some (AddError.unknown_child name))
  | known children ↦ build_subsystem req children r
]
