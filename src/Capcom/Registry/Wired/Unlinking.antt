-- ===== src/Capcom/Registry/Wired/Unlinking.antt =====
-- capcom/subsystem.cc, Remove: unlinking the children, and the recursion.
use adastra.Prelude.{
  ℕ, ◌≡◌, refl, sym, ap, ◌∙◌, true, Option, none, some, List, ◌∷◌, ◌==◌, elem_of, arith, lookup,
  Bool-cases, Option-cases, inl, inr,
}
use adastra.Capcom.Registry.{Object, Registry, modify_object, find_subsystem}
use adastra.Capcom.Registry.Removal.{erase_first, remove_parent}
use adastra.Capcom.Registry.Links.{count, elem_of-count, count-elem_of, erase_first-found}
use adastra.Capcom.Registry.Views.{Shape, Wired, Wired-ext, change, relink, relinked}
use adastra.Capcom.Registry.Views.Steps.{with_left, without_parent, unlinked-Wired}
use adastra.Capcom.Registry.Wired.{shape_of, shape_at, name_at, shape-modify}

-- The links while a subsystem has some of its children left to unlink.
abbrev pub left_view : ℕ → List ℕ → Registry → ℕ → Option Shape
left_view a cs r = relinked (with_left a cs) (λ x parents. parents) (shape_at r)

abbrev pub Unlinking : ℕ → List ℕ → Registry → Type 0
Unlinking a cs r = Wired r.next (name_at r) (left_view a cs r)

abbrev pub Found : Registry → ℕ → Type 0
Found r a = (s : Shape) × (shape_at r a ≡ some s)

-- The registry after RemoveParent.
abbrev pub dropped : ℕ → ℕ → Registry → Registry
dropped a c r = (remove_parent a c r).0

dropped-missing : (a c : ℕ) (r : Registry) → lookup c r.objects ≡ none → dropped a c r ≡ r
unfolding remove_parent
dropped-missing a c r h = rw (h, dropped, remove_parent) refl

dropped-there :
    (a c : ℕ) (r : Registry) (p : Object)
    → lookup c r.objects ≡ some p
    → dropped a c r
      ≡ modify_object c (λ s. record s { parents = (erase_first a p.sub.parents).0 }) r
unfolding remove_parent
dropped-there a c r p h = rw (h, dropped, remove_parent) refl

pub shape-dropped :
    (a c : ℕ) (r : Registry) (x : ℕ)
    → shape_at (dropped a c r) x
      ≡ relinked (λ y children. children) (without_parent a c) (shape_at r) x
unfolding remove_parent
shape-dropped a c r x = elim (Option-cases (lookup c r.objects)) [
  | inl missing ↦ elim (Option-cases (lookup x r.objects)) [
    | inl absent ↦ rw (dropped-missing a c r missing, absent) refl
    | inr (o, found) ↦ elim (Bool-cases (c == x)) [
      | inr other ↦ rw (dropped-missing a c r missing, found) (ground arith)
      | inl same ↦ let q : c ≡ x = ground arith in absurd (cc (rw q at missing, found))
    ]
  ]
  | inr (p, there) ↦
      rw
        (
          dropped-there a c r p there,
          shape-modify x c (λ s. record s { parents = (erase_first a p.sub.parents).0 }) r,
        )
        (elim (Bool-cases (c == x)) [
          | inr other ↦ elim (Option-cases (lookup x r.objects)) [
            | inl absent ↦ rw (other, absent) refl
            | inr (o, found) ↦ rw (other, found) (ground arith)
          ]
          | inl same ↦ let q : x ≡ c = ground arith in rw (same, q, there) (ground arith)
        ])
]

dropped-next : (a c : ℕ) (r : Registry) → (dropped a c r).next ≡ r.next
unfolding remove_parent modify_object
dropped-next a c r = ground arith

dropped-subsystems : (a c : ℕ) (r : Registry) → (dropped a c r).subsystems ≡ r.subsystems
unfolding remove_parent modify_object
dropped-subsystems a c r = ground arith

left-step :
    (a c : ℕ) (cs : List ℕ) (o : Option Shape) (x : ℕ)
    → change
        (relink (with_left a cs) (without_parent a c) x)
        (change (relink (with_left a (c ∷ cs)) (λ y parents. parents) x) o)
      ≡ change
          (relink (with_left a cs) (λ y parents. parents) x)
          (change (relink (λ y children. children) (without_parent a c) x) o)
left-step a c cs none x = refl
left-step a c cs (some s) x = ground arith

pub unlink_one :
    (a c : ℕ) (cs : List ℕ) (r : Registry)
    → Unlinking a (c ∷ cs) r
    → Found r a
    → Unlinking a cs (dropped a c r)
unfolding find_subsystem
unlink_one a c cs r w (s, at_a) =
    let view = left_view a (c ∷ cs) r in
    let top : Shape = relink (with_left a (c ∷ cs)) (λ y parents. parents) a s in
    let itself : (a == a) ≡ true = ground arith in
    rw (dropped-next a c r) (
      Wired-ext r.next (name_at r) (name_at (dropped a c r))
        (relinked (with_left a cs) (without_parent a c) view) (left_view a cs (dropped a c r))
        (λ n x h. rw (dropped-subsystems a c r) at h)
        (λ x. rw (shape-dropped a c r x) (left-step a c cs (shape_at r x) x))
        (unlinked-Wired r.next (name_at r) view a c cs w (top, (rw at_a refl, rw itself refl))))

-- A child that is left to unlink has the subsystem as a parent.
pub dropped-Found :
    (a c : ℕ) (cs : List ℕ) (r : Registry)
    → Unlinking a (c ∷ cs) r
    → Found r a
    → (remove_parent a c r).1 ≡ true
unfolding remove_parent elem_of count
dropped-Found a c cs r w (s, at_a) =
    let top : Shape = relink (with_left a (c ∷ cs)) (λ y parents. parents) a s in
    let itself : (a == a) ≡ true = ground arith in
    let m : elem_of c top.children ≡ true = rw itself (ground arith) in
    let at_top : left_view a (c ∷ cs) r a ≡ some top = rw at_a refl in
    let (less, (t, at_c)) = w.older a c top at_top m in
    let balance : count c top.children ≡ count a t.parents = w.linked a c top t at_top at_c in
    elim (Option-cases (lookup c r.objects)) [
      | inl missing ↦ absurd (cc (rw missing at at_c))
      | inr (p, there) ↦
          let same : t.parents ≡ p.sub.parents =
            let k : some (relink (with_left a (c ∷ cs)) (λ y parents. parents) c (shape_of p))
                ≡ some t =
              rw there at at_c in
            let q : relink (with_left a (c ∷ cs)) (λ y parents. parents) c (shape_of p) ≡ t = cc in
            sym (ap (λ (u : Shape). u.parents) q) in
          rw (there, remove_parent)
            (erase_first-found a p.sub.parents ∙ elim (Bool-cases (elem_of a p.sub.parents)) [
              | inl fine ↦ fine
              | inr absent ↦
                  let level : count c top.children ≡ count a p.sub.parents = rw same at balance in
                  absurd (
                    omega (
                      arith,
                      elem_of-count c top.children m,
                      level,
                      count-elem_of a p.sub.parents absent,
                    ))
            ])
    ]
