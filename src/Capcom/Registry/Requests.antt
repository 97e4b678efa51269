-- ===== src/Capcom/Registry/Requests.antt =====
-- capcom/client_handler.cc: requests that change what Capcom registers, one after another.
use adastra.Prelude.{ℕ, Bool, List, [], ◌∷◌, lookup, arith}
use adastra.Capcom.Registry.{Registry, find_subsystem, add_compute, remove_compute}
use adastra.Capcom.Registry.Building.{handle_add_subsystem}
use adastra.Capcom.Registry.Messages.{AddSubsystemRequest}
use adastra.Capcom.Registry.Removal.{handle_remove_subsystem}
use adastra.Capcom.Registry.Wired.{IsWired, Alike-IsWired}
use adastra.Capcom.Registry.Wired.Adding.{handle_add_subsystem-IsWired}
use adastra.Capcom.Registry.Wired.Removal.{handle_remove_subsystem-IsWired}

pub data Request : Type 0 where
  adding_compute : ℕ → ℕ × ℕ → Request
  removing_compute : ℕ → Request
  adding_subsystem : AddSubsystemRequest → Request
  removing_subsystem : ℕ → Bool → Request

-- The registry of a Capcom that has just been constructed.
abbrev pub empty_registry : Registry
empty_registry = record {
  objects = [];
  next = 0;
  subsystems = [];
  zygotes = [];
  computes = [];
  stagezero_umbilicals = [];
}

-- The state that HandleAddCompute for a dynamic compute, HandleRemoveCompute, HandleAddSubsystem and
-- HandleRemoveSubsystem leave.
unfoldable pub handle_request : Request → Registry → Registry
handle_request (adding_compute name addr) r = (add_compute name addr r).0
handle_request (removing_compute name) r = (remove_compute name r).0
handle_request (adding_subsystem req) r = (handle_add_subsystem req r).0
handle_request (removing_subsystem name recursive) r =
    (handle_remove_subsystem r.next name recursive r).0

unfoldable pub handle_requests : List Request → Registry → Registry
handle_requests [] r = r
handle_requests (req ∷ reqs) r = handle_requests reqs (handle_request req r)

handle_request-IsWired : (req : Request) (r : Registry) → IsWired r → IsWired (handle_request req r)
unfolding handle_request add_compute remove_compute
handle_request-IsWired (adding_compute name addr) r w =
    Alike-IsWired r (add_compute name addr r).0
      (record { next = ground arith; subsystems = ground arith; shapes = λ x. ground arith }) w
handle_request-IsWired (removing_compute name) r w =
    Alike-IsWired r (remove_compute name r).0
      (record { next = ground arith; subsystems = ground arith; shapes = λ x. ground arith }) w
handle_request-IsWired (adding_subsystem req) r w = handle_add_subsystem-IsWired req r w
handle_request-IsWired (removing_subsystem name recursive) r w =
    (handle_remove_subsystem-IsWired name recursive r w).0

requests-after : (reqs : List Request) (r : Registry) → IsWired r → IsWired (handle_requests reqs r)
unfolding handle_requests
requests-after [] r w = w
requests-after (req ∷ reqs) r w =
    requests-after reqs (handle_request req r) (handle_request-IsWired req r w)

empty_registry-IsWired : IsWired empty_registry
unfolding lookup find_subsystem
empty_registry-IsWired = record {
  fresh = λ x s h. absurd (cc);
  named = λ n x h. absurd (cc);
  older = λ x c s h m. absurd (cc);
  known = λ x p s h m. absurd (cc);
  linked = λ x c s t h k. absurd (cc);
}

-- Whatever requests to add and remove dynamic computes and subsystems a new Capcom answers, in any
-- order and failed ones among them, a name leads to a subsystem of that name, children are
-- subsystems that were made before their parents, so that there is no cycle, and a subsystem has
-- another among its children as often as that has it among its parents.
pub handle_requests-IsWired : (reqs : List Request) → IsWired (handle_requests reqs empty_registry)
handle_requests-IsWired reqs = requests-after reqs empty_registry empty_registry-IsWired
