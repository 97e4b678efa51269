-- ===== src/Flight/Registration/Order.antt =====
-- flight/flight_director.cc: the flattened graph is registered with capcom so that no subsystem is
-- refused for a child that is not there, unless another registration failed before.
use adastra.Prelude.{
  ℕ, ◌≡◌, refl, sym, ◌∙◌, Bool, true, false, not, Option, none, some, List, [], ◌∷◌, ◌++◌, ◌==◌,
  if◌then◌else◌, elem_of, arith, Bool-cases, Option-cases, ◌⊎◌, inl, inr, append-nil, append_assoc,
}
use adastra.Capcom.Registry.{Registry, find_subsystem as find_registered}
use adastra.Capcom.Registry.Building.{handle_add_subsystem}
use adastra.Capcom.Registry.Messages.{AddSubsystemRequest, is_unknown_child}
use adastra.Capcom.Registry.Wired.Names.{
  Adds-new, IsRegistered, handle_add_subsystem-Adds, handle_add_subsystem-known,
}
use adastra.Flight.Director.{Subsystem, Director, find_subsystem, deps_of}
use adastra.Flight.Graph.Paths.{elem_of-append}
use adastra.Flight.Graph.Order.{Follows}
use adastra.Flight.Registration.{
  Outcome, registered, skipped, threw, not_registered, send_request, request_of, process_requests,
  grouped, register_subsystem, register_found, register_each,
}

-- The first registration that did not succeed.
abbrev pub first_failure : List Outcome → Option Outcome
first_failure [] = none
first_failure (registered ∷ outcomes) = first_failure outcomes
first_failure (o ∷ outcomes) = some o

-- What a first failure can be.
abbrev pub is_own_fault : Outcome → Bool
is_own_fault (not_registered e) = not (is_unknown_child e)
is_own_fault threw = true
is_own_fault _ = false

-- The subsystems that are to be registered are the director's, and enabled.
abbrev pub IsEnabled : Director → List ℕ → Type 0
IsEnabled d names =
    (x : ℕ)
    → elem_of x names ≡ true
    → (s : Subsystem) × ((find_subsystem x d ≡ some s) × (s.disabled ≡ false))

request_of-name :
    (name : ℕ) (s : Subsystem) (req : AddSubsystemRequest)
    → request_of name s ≡ some req
    → (req.name ≡ name) × (req.children ≡ s.deps)
unfolding request_of
request_of-name name s req h = elim (Option-cases (process_requests (grouped s.processes))) [
  | inl thrown ↦ absurd (cc (rw (thrown, request_of) at h))
  | inr (reqs, made) ↦ let k = rw (made, request_of) at h in ground arith
]

-- One registration: it succeeds and adds its name, or fails for itself.
abbrev Registers : Registry → ℕ → Registry × Outcome → Type 0
Registers r name (q, o) =
    ((o ≡ registered) × ((n : ℕ) → (n ≡ name) ⊎ IsRegistered r n → IsRegistered q n))
    ⊎ ((is_own_fault o ≡ true) × (first_failure (o ∷ []) ≡ some o))

names-IsRegistered :
    (req : AddSubsystemRequest) (r q : Registry) (n : ℕ)
    → ((m : ℕ) → find_registered m q ≡ (if req.name == m then some r.next else find_registered m r))
    → (n ≡ req.name) ⊎ IsRegistered r n
    → IsRegistered q n
names-IsRegistered req r q n names h = elim (Bool-cases (req.name == n)) [
  | inl same ↦ (r.next, rw (names n, same) refl)
  | inr other ↦ elim h [
    | inl e ↦ absurd (ground arith)
    | inr (a, found) ↦ (a, rw (names n, other) found)
  ]
]

send_request-Registers :
    (name : ℕ) (s : Subsystem) (r : Registry)
    → ((x : ℕ) → elem_of x s.deps ≡ true → IsRegistered r x)
    → Registers r name (send_request (request_of name s) r)
send_request-Registers name s r ready = elim (Option-cases (request_of name s)) [
  | inl thrown ↦ rw thrown (inr (refl, refl))
  | inr (req, made) ↦
      let (named, children) = request_of-name name s req made in
      elim (Option-cases (handle_add_subsystem req r).1) [
        | inl fine ↦
            let names =
              Adds-new req r (handle_add_subsystem req r) (handle_add_subsystem-Adds req r) fine in
            rw (made, fine)
              (inl (
                refl,
                λ n m.
                    names-IsRegistered req r (handle_add_subsystem req r).0 n names
                      (elim m [ inl e ↦ inl (e ∙ sym named) | inr k ↦ inr k ]),
              ))
        | inr (e, refused) ↦
            let own =
              handle_add_subsystem-known req r e (λ n m. ready n (rw children at m)) refused in
            rw (made, refused) (inr (ground arith, refl))
      ]
]

register_found-Registers :
    (d : Director) (name : ℕ) (s : Subsystem) (r : Registry)
    → find_subsystem name d ≡ some s
    → s.disabled ≡ false
    → ((x : ℕ) → elem_of x (deps_of d name) ≡ true → IsRegistered r x)
    → Registers r name (register_found (find_subsystem name d) name r)
unfolding register_subsystem
register_found-Registers d name s r found on ready =
    let one = send_request-Registers name s r (λ x m. ready x (rw found m)) in
    let same : register_found (find_subsystem name d) name r ≡ send_request (request_of name s) r =
      rw (found, on, register_subsystem) refl in
    rw same one

first_failure-cons :
    (o : Outcome) (outcomes : List Outcome)
    → first_failure (o ∷ []) ≡ some o
    → first_failure (o ∷ outcomes) ≡ some o
first_failure-cons registered outcomes h = absurd (cc)
first_failure-cons skipped outcomes h = refl
first_failure-cons threw outcomes h = refl
first_failure-cons (not_registered e) outcomes h = refl

-- All succeed, or the first that does not fails for itself.
abbrev pub RegistersAll : List ℕ → Registry × List Outcome → Type 0
RegistersAll names (q, outcomes) =
    ((first_failure outcomes ≡ none) × ((x : ℕ) → elem_of x names ≡ true → IsRegistered q x))
    ⊎ ((o : Outcome) × ((first_failure outcomes ≡ some o) × (is_own_fault o ≡ true)))

-- After one that succeeded.
RegistersAll-cons :
    (names : List ℕ) (o : Outcome) (q : Registry) (outcomes : List Outcome)
    → o ≡ registered
    → RegistersAll names (q, outcomes)
    → RegistersAll names (q, o ∷ outcomes)
RegistersAll-cons names o q outcomes fine h = rw fine h

pub register_each-after :
    (d : Director) (before order : List ℕ) (r : Registry)
    → IsEnabled d order
    → Follows (deps_of d) before order
    → ((x : ℕ) → elem_of x before ≡ true → IsRegistered r x)
    → RegistersAll (before ++ order) (register_each d order r)
unfolding register_each elem_of
register_each-after d before [] r enabled sorted ready = rw (append-nil before) (inl (refl, ready))
register_each-after d before (name ∷ names) r enabled (new, (deps, sorted)) ready =
    let (s, (found, on)) = enabled name (ground arith) in
    let (q, o) = register_found (find_subsystem name d) name r in
    elim (register_found-Registers d name s r found on (λ x m. ready x (deps x m))) [
      | inr (fault, first) ↦
          inr (o, (first_failure-cons o (register_each d names q).1 first, fault))
      | inl (fine, keeps) ↦
          let rest : RegistersAll ((before ++ name ∷ []) ++ names) (register_each d names q) =
            register_each-after d (before ++ name ∷ []) names q (λ x m. enabled x (ground arith))
              sorted
              (λ x m. keeps x (elim (Bool-cases (name == x)) [
                | inl same ↦ inl (ground arith)
                | inr other ↦ inr (ready x (ground (arith, elem_of-append x before (name ∷ []))))
              ])) in
          RegistersAll-cons (before ++ name ∷ names) o (register_each d names q).0
            (register_each d names q).1 fine (rw (append_assoc before (name ∷ []) names) at rest)
    ]
