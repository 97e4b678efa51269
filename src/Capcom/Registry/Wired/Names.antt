-- ===== src/Capcom/Registry/Wired/Names.antt =====
-- capcom/client_handler.cc, HandleAddSubsystem: which names are registered after it.
use adastra.Prelude.{
  ℕ, ◌≡◌, refl, sym, ◌∙◌, true, false, Option, none, some, List, [], ◌∷◌, ◌==◌, if◌then◌else◌,
  elem_of, arith, lookup, insert, lookup-insert, Bool-cases, Option-cases, inl, inr,
}
use adastra.Capcom.Subsystem.{Subsystem}
use adastra.Capcom.Lifecycle.{run}
use adastra.Capcom.Registry.{Registry, modify_object, find_subsystem, add_subsystem}
use adastra.Capcom.Registry.Building.{
  known, find_children, all_streams_read, build_processes, add_child, add_parent, link_children,
  register_subsystem, build_subsystem, handle_add_subsystem,
}
use adastra.Capcom.Registry.Messages.{
  AddSubsystemRequest, AddError, bad_stream, is_unknown_child, new_subsystem,
}
use adastra.Capcom.Registry.Wired.{Alike, modify-subsystems}
use adastra.Capcom.Registry.Wired.Building.{SameLinks, Built-cases}
use adastra.Capcom.Registry.Wired.Adding.{after_next, store, Builds-built, Builds-refused}
use adastra.Capcom.Registry.Wired.Linking.{Children-cases}

-- A request that is refused leaves the names; one that is not adds its own, which was free.
abbrev pub Adds : AddSubsystemRequest → Registry → Registry × Option AddError → Type 0
Adds req r (q, some e) = (n : ℕ) → find_subsystem n q ≡ find_subsystem n r
Adds req r (q, none) =
    (find_subsystem req.name r ≡ none)
    × ((n : ℕ) → find_subsystem n q ≡ (if req.name == n then some r.next else find_subsystem n r))

pub Adds-new :
    (req : AddSubsystemRequest) (r : Registry) (answer : Registry × Option AddError)
    → Adds req r answer
    → answer.1 ≡ none
    → (n : ℕ)
    → find_subsystem n answer.0 ≡ (if req.name == n then some r.next else find_subsystem n r)
Adds-new req r (q, none) (free, h) e n = h n
Adds-new req r (q, some f) h e n = absurd (cc)

link_children-subsystems :
    (a : ℕ) (cs : List ℕ) (r : Registry) → (link_children a cs r).subsystems ≡ r.subsystems
unfolding link_children
link_children-subsystems a [] r = refl
link_children-subsystems a (c ∷ cs) r =
    link_children-subsystems a cs (modify_object c (add_parent a) (modify_object a (add_child c) r))
    ∙ (modify-subsystems c (add_parent a) (modify_object a (add_child c) r)
        ∙ modify-subsystems a (add_child c) r)

register-Adds :
    (req : AddSubsystemRequest) (cs : List ℕ) (r q : Registry) (s : Subsystem)
    → SameLinks (new_subsystem r.next req) s
    → Alike (after_next r) q
    → Adds req r (register_subsystem req cs s q)
unfolding register_subsystem add_subsystem find_subsystem
register-Adds req cs r q s same alike = elim (Option-cases (lookup req.name q.subsystems)) [
  | inr (a, taken) ↦ rw (taken, register_subsystem, add_subsystem) (λ n. rw alike.subsystems refl)
  | inl free ↦
      let stored = store req.name s q in
      let linked = link_children s.this cs stored in
      let kept : (modify_object s.this run linked).subsystems
          ≡ insert req.name s.this q.subsystems =
        modify-subsystems s.this run linked ∙ link_children-subsystems s.this cs stored in
      rw (free, register_subsystem, add_subsystem)
        (
          rw alike.subsystems free,
          λ n.
              rw (kept, lookup-insert req.name n s.this q.subsystems, alike.subsystems, same.this)
                refl,
        )
]

pub handle_add_subsystem-Adds :
    (req : AddSubsystemRequest) (r : Registry) → Adds req r (handle_add_subsystem req r)
unfolding handle_add_subsystem build_subsystem find_subsystem
handle_add_subsystem-Adds req r = elim (Children-cases (find_children req.children r)) [
  | inl (n, missing) ↦ rw (missing, handle_add_subsystem) (λ m. refl)
  | inr (cs, found) ↦ elim (Bool-cases (all_streams_read req.streams)) [
    | inr bad ↦ rw (found, bad, handle_add_subsystem, build_subsystem) (λ m. refl)
    | inl good ↦
        elim (Built-cases
          (build_processes req.processes (new_subsystem r.next req) (after_next r))) [
            | inl (e, (q, failed)) ↦
                rw (found, good, failed, handle_add_subsystem, build_subsystem)
                  (λ m. rw (sym (Builds-refused req r q e failed).1.subsystems) refl)
            | inr (t, (q, done)) ↦
                let (same, alike) = Builds-built req r q t done in
                rw (found, good, done, handle_add_subsystem, build_subsystem)
                  (register-Adds req cs r q t same alike)
          ]
  ]
]

abbrev pub IsRegistered : Registry → ℕ → Type 0
IsRegistered r n = (a : ℕ) × (find_subsystem n r ≡ some a)

find_children-known :
    (names : List ℕ) (r : Registry)
    → ((n : ℕ) → elem_of n names ≡ true → IsRegistered r n)
    → (cs : List ℕ) × (find_children names r ≡ known cs)
unfolding find_children elem_of
find_children-known [] r all = ([], refl)
find_children-known (n ∷ ns) r all =
    let (a, found) = all n (ground arith) in
    let (cs, rest) = find_children-known ns r (λ m k. all m (ground arith)) in
    (a ∷ cs, rw (found, rest, find_children) refl)

register-known :
    (req : AddSubsystemRequest) (cs : List ℕ) (s : Subsystem) (q : Registry) (e : AddError)
    → (register_subsystem req cs s q).1 ≡ some e
    → is_unknown_child e ≡ false
unfolding register_subsystem add_subsystem
register-known req cs s q e h = elim (Option-cases (lookup req.name q.subsystems)) [
  | inl free ↦ absurd (cc (rw (free, register_subsystem, add_subsystem) at h))
  | inr (a, taken) ↦
      let k : some (AddError.subsystem_exists req.name) ≡ some e =
        rw (taken, register_subsystem, add_subsystem) at h in
      ground arith
]

-- Where all the children are registered, that is not what the response complains of.
pub handle_add_subsystem-known :
    (req : AddSubsystemRequest) (r : Registry) (e : AddError)
    → ((n : ℕ) → elem_of n req.children ≡ true → IsRegistered r n)
    → (handle_add_subsystem req r).1 ≡ some e
    → is_unknown_child e ≡ false
unfolding handle_add_subsystem build_subsystem
handle_add_subsystem-known req r e all h =
    let (cs, found) = find_children-known req.children r all in
    elim (Bool-cases (all_streams_read req.streams)) [
      | inr bad ↦
          let k : some bad_stream ≡ some e =
            rw (found, bad, handle_add_subsystem, build_subsystem) at h in
          ground arith
      | inl good ↦
          elim (Built-cases
            (build_processes req.processes (new_subsystem r.next req) (after_next r))) [
              | inl (f, (q, failed)) ↦
                  let k : some f ≡ some e =
                    rw (found, good, failed, handle_add_subsystem, build_subsystem) at h in
                  let (other, alike) = Builds-refused req r q f failed in ground arith
              | inr (t, (q, done)) ↦
                  register-known req cs t q e
                    (rw (found, good, done, handle_add_subsystem, build_subsystem) at h)
            ]
    ]
