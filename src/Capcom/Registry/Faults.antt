-- ===== src/Capcom/Registry/Faults.antt =====
-- capcom/capcom.h and client_handler.cc: what a refused request leaves behind, and the references of the
-- main umbilicals.
use adastra.Prelude.{
  ℕ, ◌≡◌, refl, ap, ◌∙◌, true, false, none, some, [], ◌∷◌, ◌==◌, lookup, lookup-insert,
  lookup-erase, arith, Text, pos,
}
use adastra.Common.Stream.{is_empty}
use adastra.Common.Stream.Validation.{validate_streams}
use adastra.Capcom.Umbilical.{new_umbilical}
use adastra.Capcom.Subsystem.{Subsystem}
use adastra.Capcom.Registry.{
  Registry, find_compute, find_zygote, add_zygote, add_umbilical, remove_umbilical,
}
use adastra.Capcom.Registry.Building.{
  refused, add_umbilical_reference, add_zygote_process, add_by_case, build_process, build_processes,
}
use adastra.Capcom.Registry.Messages.{ProcessRequest, ProcCase, AddError}

-- The main umbilical of a compute after two subsystems refer to it and one of them no longer does.
abbrev pub after_one_leaves : ℕ → Registry → Registry
after_one_leaves compute r =
    remove_umbilical compute true (add_umbilical compute false (add_umbilical compute false r))

first-user :
    (c : ℕ) (r : Registry)
    → lookup c r.stagezero_umbilicals ≡ none
    → lookup c (add_umbilical c false r).stagezero_umbilicals ≡ some new_umbilical
unfolding add_umbilical new_umbilical
first-user c r h =
    let itself : (c == c) ≡ true = ground arith in
    rw (h, add_umbilical, lookup-insert c c new_umbilical r.stagezero_umbilicals, itself) refl

second-user :
    (c : ℕ) (r : Registry)
    → lookup c r.stagezero_umbilicals ≡ some new_umbilical
    → lookup c (add_umbilical c false r).stagezero_umbilicals
      ≡ some (record new_umbilical { static_refs = pos 1 })
unfolding add_umbilical new_umbilical
second-user c r h =
    let itself : (c == c) ≡ true = ground arith in
    rw
      (
        h,
        add_umbilical,
        lookup-insert c c (record new_umbilical { static_refs = pos 1 }) r.stagezero_umbilicals,
        itself,
      )
      refl

last-user :
    (c : ℕ) (r : Registry)
    → lookup c r.stagezero_umbilicals ≡ some (record new_umbilical { static_refs = pos 1 })
    → lookup c (remove_umbilical c true r).stagezero_umbilicals ≡ none
unfolding remove_umbilical new_umbilical
last-user c r h =
    let itself : (c == c) ≡ true = ground arith in
    rw (h, remove_umbilical, lookup-erase c c r.stagezero_umbilicals, itself) refl

-- When two subsystems refer to the main umbilical of a compute that had none and one of them gives
-- its reference up, the umbilical is gone.
pub umbilical-dropped :
    (compute : ℕ) (r : Registry)
    → lookup compute r.stagezero_umbilicals ≡ none
    → lookup compute (after_one_leaves compute r).stagezero_umbilicals ≡ none
umbilical-dropped compute r h =
    let one = add_umbilical compute false r in
    last-user compute (add_umbilical compute false one)
      (second-user compute one (first-user compute r h))

record Elsewhere (r q : Registry) : Type 0 where
  zygotes : q.zygotes ≡ r.zygotes
  computes : q.computes ≡ r.computes

add_umbilical_reference-Elsewhere :
    (c : ℕ) (s : Subsystem) (r : Registry)
    → (Elsewhere r (add_umbilical_reference c s r).1)
      × ((add_umbilical_reference c s r).0.this ≡ s.this)
unfolding add_umbilical_reference add_umbilical
add_umbilical_reference-Elsewhere c s r =
    (record { zygotes = ground arith; computes = ground arith }, ground arith)

add_zygote-new :
    (n a : ℕ) (r : Registry)
    → find_zygote n r ≡ none
    → (find_zygote n (add_zygote n a r).0 ≡ some a) × ((add_zygote n a r).0.computes ≡ r.computes)
unfolding add_zygote find_zygote
add_zygote-new n a r h =
    let itself : (n == n) ≡ true = ground arith in
    rw (h, add_zygote, lookup-insert n n a r.zygotes, itself) (refl, refl)

-- If the processes of a request are a zygote that can be added and one on a compute that is not
-- there, the request is refused, and the name of the zygote leads to the refused subsystem all the
-- same.
pub zygote-outlives :
    (zygote other : ProcessRequest) (executable : Text) (compute : ℕ) (s : Subsystem) (r : Registry)
    → zygote.proc ≡ ProcCase.zygote executable
    → is_empty executable ≡ false
    → validate_streams zygote.streams ≡ true
    → find_compute zygote.compute r ≡ some compute
    → find_zygote zygote.name r ≡ none
    → find_compute other.compute r ≡ none
    → (q : Registry) × ((build_processes (zygote ∷ other ∷ []) s r
          ≡ refused (AddError.no_such_compute other.compute) q)
        × (find_zygote zygote.name q ≡ some s.this))
unfolding build_processes build_process add_by_case add_zygote_process find_zygote find_compute
zygote-outlives zygote other executable compute s r p filled valid there free missing =
    let referred = add_umbilical_reference compute s r in
    let (same, this) = add_umbilical_reference-Elsewhere compute s r in
    let q = (add_zygote zygote.name referred.0.this referred.1).0 in
    let open_name : find_zygote zygote.name referred.1 ≡ none = rw same.zygotes free in
    let (named, computes) = add_zygote-new zygote.name referred.0.this referred.1 open_name in
    let still : find_compute other.compute q ≡ none = rw (computes, same.computes) missing in
    (
      q,
      (
        rw
            (
              there, valid, p, filled, open_name, still, build_processes, build_process,
              add_by_case, add_zygote_process,
            )
            refl,
        named ∙ ap some this,
      ),
    )
