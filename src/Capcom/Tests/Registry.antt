-- ===== src/Capcom/Tests/Registry.antt =====
-- capcom/client_handler.cc: the theorems on a registry of two subsystems.
use adastra.Prelude.{
  ℕ, ◌≡◌, refl, true, false, none, some, List, [], ◌∷◌, arith, lookup, insert, pos,
}
use adastra.Common.Stream.Validation.{validate_streams}
use adastra.Capcom.Lifecycle.{run}
use adastra.Capcom.Machine.{enter_state}
use adastra.Capcom.Registry.{
  Object, Registry, find_compute, find_subsystem, find_zygote, add_subsystem, add_zygote,
  add_umbilical, modify_object,
}
use adastra.Capcom.Registry.Building.{
  refused, find_children, all_streams_read, add_process, add_umbilical_reference,
  add_zygote_process, add_by_case, build_process, build_processes, link_children,
  register_subsystem, build_subsystem, handle_add_subsystem,
}
use adastra.Capcom.Registry.Messages.{
  ProcCase, ProcessRequest, PolicyProto, AddSubsystemRequest, AddError, policy_of, new_subsystem,
}
use adastra.Capcom.Registry.Removal.{check_remove, handle_remove_subsystem}
use adastra.Capcom.Registry.Wired.{IsWired}
use adastra.Capcom.Registry.Wired.Removal.{is_answered, handle_remove_subsystem-IsWired}
use adastra.Capcom.Registry.Offline.{Below, Decides, check_remove-Decides}
use adastra.Capcom.Registry.Requests.{
  Request, empty_registry, handle_request, handle_requests, handle_requests-IsWired,
}
use adastra.Capcom.Registry.Faults.{after_one_leaves, umbilical-dropped, zygote-outlives}

-- A zygote on the local compute, and a process on a compute that is not there.
abbrev zygote_request : ProcessRequest
zygote_request = record {
  name = 21;
  oneshot = false;
  proc = ProcCase.zygote (122 ∷ []);
  compute = 0;
  streams = [];
  max_restarts = pos 3;
}

abbrev lost_request : ProcessRequest
lost_request = record zygote_request { name = 22; compute = 7 }

abbrev request_for : ℕ → List ProcessRequest → List ℕ → AddSubsystemRequest
request_for name processes children = record {
  name = name;
  processes = processes;
  streams = [];
  children = children;
  max_restarts = pos 3;
  critical = false;
  restart_policy = PolicyProto.automatic;
}

-- Subsystem 12 has 11 as its child.
abbrev two_requests : List Request
two_requests =
    Request.adding_subsystem (request_for 11 (zygote_request ∷ []) [])
    ∷ Request.adding_subsystem (request_for 12 [] (11 ∷ []))
    ∷ []

abbrev two_registered : Registry
two_registered = handle_requests two_requests empty_registry

handle_requests-IsWired_example : IsWired two_registered
handle_requests-IsWired_example = handle_requests-IsWired two_requests

handle_remove_subsystem-IsWired_example :
    (IsWired (handle_remove_subsystem two_registered.next 12 true two_registered).0)
    × (is_answered (handle_remove_subsystem two_registered.next 12 true two_registered).1 ≡ true)
handle_remove_subsystem-IsWired_example =
    handle_remove_subsystem-IsWired 12 true two_registered (handle_requests-IsWired two_requests)

umbilical-dropped_example : lookup 5 (after_one_leaves 5 empty_registry).stagezero_umbilicals ≡ none
unfolding lookup
umbilical-dropped_example = umbilical-dropped 5 empty_registry refl

zygote-outlives_example :
    (q : Registry) × ((build_processes
          (zygote_request ∷ lost_request ∷ [])
          (new_subsystem 0 (request_for 11 [] []))
          empty_registry
        ≡ refused (AddError.no_such_compute 7) q)
      × (find_zygote 21 q ≡ some 0))
unfolding lookup find_compute find_zygote validate_streams
zygote-outlives_example =
    zygote-outlives zygote_request lost_request (122 ∷ []) 1
      (new_subsystem 0 (request_for 11 [] [])) empty_registry refl refl refl refl refl refl

-- The two subsystems stand at the addresses 0 and 1.
abbrev parent_object : Object
unfolding handle_requests handle_request handle_add_subsystem find_children find_subsystem lookup
    build_subsystem all_streams_read build_processes build_process find_compute
    add_umbilical_reference add_umbilical insert add_by_case add_zygote_process find_zygote
    add_zygote add_process register_subsystem add_subsystem link_children modify_object run
    enter_state policy_of validate_streams
parent_object = elim (lookup 1 two_registered.objects) [
  | none ↦ record { name = 0; sub = new_subsystem 0 (request_for 0 [] []) }
  | some o ↦ o
]

check_remove-Decides_example :
    Decides two_registered (Below two_registered 1) (check_remove 2 true two_registered 1)
unfolding parent_object
check_remove-Decides_example =
    check_remove-Decides two_registered (handle_requests-IsWired two_requests) 2 1 parent_object
      (omega arith) refl
