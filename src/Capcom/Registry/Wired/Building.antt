-- ===== src/Capcom/Registry/Wired/Building.antt =====
-- capcom/client_handler.cc, HandleAddSubsystem: building a subsystem leaves the registered ones alone,
-- and registering it keeps their links in agreement.
use adastra.Prelude.{
  ℕ, ◌≡◌, refl, ◌∙◌, Bool, false, List, [], ◌∷◌, ◌==◌, lookup, Bool-cases, Option-cases, ◌⊎◌, inl,
  inr,
}
use adastra.Common.Stream.{is_empty}
use adastra.Common.Stream.Validation.{validate_streams}
use adastra.Capcom.Process.{Process}
use adastra.Capcom.Subsystem.{Subsystem}
use adastra.Capcom.Registry.{
  Registry, add_zygote, add_umbilical, find_compute, find_zygote, no_name,
}
use adastra.Capcom.Registry.Building.{
  Built, built, refused, add_process, add_umbilical_reference, add_static_process,
  add_zygote_process, add_virtual_process, add_by_case, build_process, build_processes,
}
use adastra.Capcom.Registry.Messages.{ProcessRequest, ProcCase, AddError, is_unknown_child}
use adastra.Capcom.Registry.Wired.{Alike, Alike-refl, Alike-trans}

pub record SameLinks (s t : Subsystem) : Type 0 where
  pub this : s.this ≡ t.this
  pub children : s.children ≡ t.children
  pub parents : s.parents ≡ t.parents

SameLinks-trans : (s t u : Subsystem) → SameLinks s t → SameLinks t u → SameLinks s u
SameLinks-trans s t u a b = record {
  this = a.this ∙ b.this;
  children = a.children ∙ b.children;
  parents = a.parents ∙ b.parents;
}

abbrev pub Builds : Subsystem → Registry → Built → Type 0
Builds s r (built t q) = SameLinks s t × Alike r q
Builds s r (refused e q) = (is_unknown_child e ≡ false) × Alike r q

add_umbilical-Alike : (c : ℕ) (b : Bool) (r : Registry) → Alike r (add_umbilical c b r)
unfolding add_umbilical
add_umbilical-Alike c b r = elim (Option-cases (lookup c r.stagezero_umbilicals)) [
  | inl missing ↦
      rw (missing, add_umbilical) record { next = refl; subsystems = refl; shapes = λ x. refl }
  | inr (u, found) ↦
      rw (found, add_umbilical) record { next = refl; subsystems = refl; shapes = λ x. refl }
]

add_zygote-Alike : (n a : ℕ) (r : Registry) → Alike r (add_zygote n a r).0
unfolding add_zygote
add_zygote-Alike n a r = elim (Option-cases (lookup n r.zygotes)) [
  | inl missing ↦
      rw (missing, add_zygote) record { next = refl; subsystems = refl; shapes = λ x. refl }
  | inr (u, found) ↦ rw (found, add_zygote) (Alike-refl r)
]

add_umbilical_reference-Builds :
    (c : ℕ) (s : Subsystem) (r : Registry)
    → Builds s r (built (add_umbilical_reference c s r).0 (add_umbilical_reference c s r).1)
unfolding add_umbilical_reference
add_umbilical_reference-Builds c s r = elim (Option-cases (lookup c s.umbilicals)) [
  | inl missing ↦
      rw (missing, add_umbilical_reference)
        (record { this = refl; children = refl; parents = refl }, add_umbilical-Alike c false r)
  | inr (u, found) ↦
      rw (found, add_umbilical_reference)
        (record { this = refl; children = refl; parents = refl }, Alike-refl r)
]

add_process-SameLinks : (p : Process) (s : Subsystem) → SameLinks s (add_process p s)
unfolding add_process
add_process-SameLinks p s = elim (Option-cases (lookup p.name s.process_map)) [
  | inl missing ↦ rw (missing, add_process) record { this = refl; children = refl; parents = refl }
  | inr (u, found) ↦ rw (found, add_process) record { this = refl; children = refl; parents = refl }
]

add_by_case-Builds :
    (req : ProcessRequest) (proc : ProcCase) (c : ℕ) (s : Subsystem) (r : Registry)
    → Builds s r (add_by_case req proc c s r)
unfolding add_by_case add_static_process add_zygote_process add_virtual_process
add_by_case-Builds req (ProcCase.static_process x) c s r = elim (Bool-cases (is_empty x)) [
  | inl missing ↦ rw missing (refl, Alike-refl r)
  | inr given ↦ rw given (add_process-SameLinks _ s, Alike-refl r)
]
add_by_case-Builds req (ProcCase.zygote x) c s r = elim (Bool-cases (is_empty x)) [
  | inl missing ↦ rw missing (refl, Alike-refl r)
  | inr given ↦ elim (Option-cases (find_zygote req.name r)) [
    | inr (z, found) ↦ rw (given, found, add_zygote_process) (refl, Alike-refl r)
    | inl free ↦
        rw (given, free, add_zygote_process)
          (add_process-SameLinks _ s, add_zygote-Alike req.name s.this r)
  ]
]
add_by_case-Builds req (ProcCase.virtual_process z f) c s r = elim (Bool-cases (z == no_name)) [
  | inl missing ↦ rw missing (refl, Alike-refl r)
  | inr named ↦ elim (Bool-cases (is_empty f)) [
    | inl missing ↦ rw (named, missing) (refl, Alike-refl r)
    | inr given ↦ elim (Option-cases (find_zygote z r)) [
      | inl absent ↦ rw (named, given, absent, add_virtual_process) (refl, Alike-refl r)
      | inr (a, found) ↦
          rw (named, given, found, add_virtual_process) (add_process-SameLinks _ s, Alike-refl r)
    ]
  ]
]
add_by_case-Builds req ProcCase.not_set c s r =
    (record { this = refl; children = refl; parents = refl }, Alike-refl r)

-- A step after another.
Builds-after :
    (s t : Subsystem) (r q : Registry) (b : Built)
    → SameLinks s t
    → Alike r q
    → Builds t q b
    → Builds s r b
Builds-after s t r q (built u v) same alike (k, h) =
    (SameLinks-trans s t u same k, Alike-trans r q v alike h)
Builds-after s t r q (refused e v) same alike (other, h) = (other, Alike-trans r q v alike h)

build_process-Builds :
    (req : ProcessRequest) (s : Subsystem) (r : Registry) → Builds s r (build_process req s r)
unfolding build_process
build_process-Builds req s r = elim (Option-cases (find_compute req.compute r)) [
  | inl missing ↦ rw (missing, build_process) (refl, Alike-refl r)
  | inr (c, found) ↦
      let (same, alike) = add_umbilical_reference-Builds c s r in
      elim (Bool-cases (validate_streams req.streams)) [
        | inr bad ↦ rw (found, bad, build_process) (refl, alike)
        | inl good ↦
            rw (found, good, build_process)
              (Builds-after s (add_umbilical_reference c s r).0 r (add_umbilical_reference c s r).1
                _ same alike
                (add_by_case-Builds req req.proc c (add_umbilical_reference c s r).0
                  (add_umbilical_reference c s r).1))
      ]
]

pub Built-cases :
    (b : Built)
    → ((e : AddError) × ((q : Registry) × (b ≡ refused e q)))
      ⊎ ((t : Subsystem) × ((q : Registry) × (b ≡ built t q)))
Built-cases (refused e q) = inl (e, (q, refl))
Built-cases (built t q) = inr (t, (q, refl))

pub build_processes-Builds :
    (reqs : List ProcessRequest) (s : Subsystem) (r : Registry)
    → Builds s r (build_processes reqs s r)
unfolding build_processes
build_processes-Builds [] s r =
    (record { this = refl; children = refl; parents = refl }, Alike-refl r)
build_processes-Builds (req ∷ reqs) s r =
    let one = build_process-Builds req s r in
    elim (Built-cases (build_process req s r)) [
      | inl (e, (q, failed)) ↦ rw (failed, build_processes) (rw failed at one)
      | inr (t, (q, done)) ↦
          let (same, alike) : SameLinks s t × Alike r q = rw done at one in
          rw (done, build_processes)
            (Builds-after s t r q (build_processes reqs t q) same alike
              (build_processes-Builds reqs t q))
    ]
