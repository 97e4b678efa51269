-- ===== src/Capcom/Registry/Wired.antt =====
-- capcom/client_handler.cc, HandleAddSubsystem: the links between the subsystems of a registry agree,
-- whatever request comes in.
pub mod Building
pub mod Linking
pub mod Adding
pub mod Names
pub mod Removing
pub mod Unlinking
pub mod Recursion
pub mod Removal
use adastra.Prelude.{
  ℕ, suc, ◌+◌, ◌<◌, ◌≤◌, ◌≡◌, refl, sym, ◌∙◌, ap, Bool, true, false, not, Option, none, some, List,
  [], ◌∷◌, ◌++◌, ◌==◌, if◌then◌else◌, elem_of, arith, lookup, insert, lookup-insert, Bool-cases,
  Option-cases, inl, inr, All, Text,
}
use adastra.Capcom.Subsystem.{Subsystem}
use adastra.Capcom.Lifecycle.{run}
use adastra.Capcom.Registry.{
  Object, Registry, change_object, modify_object, find_subsystem, add_subsystem, add_zygote,
  add_umbilical, find_compute, find_zygote,
}
use adastra.Capcom.Registry.Building.{
  Children, unknown, known, find_children, Built, built, refused, add_process,
  add_umbilical_reference, add_static_process, add_zygote_process, add_virtual_process, add_by_case,
  build_process, build_processes, add_child, add_parent, link_children, register_subsystem,
  build_subsystem, handle_add_subsystem,
}
use adastra.Capcom.Registry.Messages.{
  ProcessRequest, ProcCase, AddSubsystemRequest, AddError, new_subsystem,
}
use adastra.Capcom.Registry.Links.{changed, lookup-modify}
use adastra.Capcom.Registry.Views.{Shape, Wired, Wired-ext, Wired-new, stands, change, relinked}
use adastra.Capcom.Registry.Views.Steps.{with_child, linked-Wired}

abbrev pub shape_of : Object → Shape
shape_of o = record { name = o.name; children = o.sub.children; parents = o.sub.parents }

abbrev pub shape : Option Object → Option Shape
shape none = none
shape (some o) = some (shape_of o)

abbrev pub shape_at : Registry → ℕ → Option Shape
shape_at r x = shape (lookup x r.objects)

abbrev pub name_at : Registry → ℕ → Option ℕ
name_at r n = find_subsystem n r

-- The links between the subsystems agree, and names lead to them.
abbrev pub IsWired : Registry → Type 0
IsWired r = Wired r.next (name_at r) (shape_at r)

-- The same subsystems, names and links.
pub record Alike (r q : Registry) : Type 0 where
  pub next : r.next ≡ q.next
  pub subsystems : r.subsystems ≡ q.subsystems
  pub shapes : (x : ℕ) → shape_at r x ≡ shape_at q x

pub Alike-refl : (r : Registry) → Alike r r
Alike-refl r = record { next = refl; subsystems = refl; shapes = λ x. refl }

pub Alike-trans : (r q t : Registry) → Alike r q → Alike q t → Alike r t
Alike-trans r q t a b = record {
  next = a.next ∙ b.next;
  subsystems = a.subsystems ∙ b.subsystems;
  shapes = λ x. a.shapes x ∙ b.shapes x;
}

pub Alike-IsWired : (r q : Registry) → Alike r q → IsWired r → IsWired q
unfolding find_subsystem
Alike-IsWired r q a w = rw (sym a.next) (
    Wired-ext r.next (name_at r) (name_at q) (shape_at r) (shape_at q)
      (λ n x h. rw (a.subsystems) h) a.shapes w)

-- What a change of one subsystem does to the links.
pub shape-modify :
    (x a : ℕ) (f : Subsystem → Subsystem) (r : Registry)
    → shape_at (modify_object a f r) x
      ≡ (if a == x then shape (changed f (lookup a r.objects)) else shape_at r x)
shape-modify x a f r = rw (lookup-modify x a f r) (ground arith)

pub modify-next :
    (a : ℕ) (f : Subsystem → Subsystem) (r : Registry) → (modify_object a f r).next ≡ r.next
unfolding modify_object
modify-next a f r = ground arith

pub modify-subsystems :
    (a : ℕ) (f : Subsystem → Subsystem) (r : Registry)
    → (modify_object a f r).subsystems ≡ r.subsystems
unfolding modify_object
modify-subsystems a f r = ground arith

pub modify-Alike :
    (a : ℕ) (f : Subsystem → Subsystem) (r : Registry)
    → ((s : Subsystem) → (f s).children ≡ s.children)
    → ((s : Subsystem) → (f s).parents ≡ s.parents)
    → Alike r (modify_object a f r)
modify-Alike a f r h k = record {
  next = sym (modify-next a f r);
  subsystems = sym (modify-subsystems a f r);
  shapes = λ x. elim (Bool-cases (a == x)) [
    | inr other ↦ rw (shape-modify x a f r, other) refl
    | inl same ↦
        let q : x ≡ a = ground arith in
        rw (shape-modify x a f r, same, q)
          (elim (Option-cases (lookup a r.objects)) [
            | inl missing ↦ rw missing refl
            | inr (o, found) ↦ rw found (cc (h o.sub, k o.sub))
          ])
  ];
}
