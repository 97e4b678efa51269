-- ===== src/Capcom/Registry/Wired/Removing.antt =====
-- capcom/subsystem.cc, Remove: the links between the subsystems of a registry agree after it, also where
-- it ends with an error.
use adastra.Prelude.{
  ℕ, ◌≡◌, refl, Bool, true, false, List, [], ◌∷◌, arith, lookup, insert, erase, decr, is_positive,
  Bool-cases, Option-cases, inl, inr,
}
use adastra.Capcom.Process.{Process}
use adastra.Capcom.Umbilical.{Umbilical}
use adastra.Capcom.Subsystem.{Subsystem}
use adastra.Capcom.Registry.{Registry, modify_object, remove_zygote, remove_umbilical}
use adastra.Capcom.Registry.Removal.{
  RemoveError, Removal, removed, failed, stuck, is_zygote, remove_umbilical_reference,
  remove_processes,
}
use adastra.Capcom.Registry.Wired.{Alike, Alike-refl, Alike-trans, modify-Alike}

remove_umbilical-Alike : (c : ℕ) (b : Bool) (r : Registry) → Alike r (remove_umbilical c b r)
unfolding remove_umbilical
remove_umbilical-Alike c b r = record {
  next = ground arith;
  subsystems = ground arith;
  shapes = λ x. ground arith;
}

remove_zygote-Alike : (n : ℕ) (r : Registry) → Alike r (remove_zygote n r).0
unfolding remove_zygote
remove_zygote-Alike n r = record {
  next = ground arith;
  subsystems = ground arith;
  shapes = λ x. ground arith;
}

umbilicals-Alike :
    (a : ℕ) (f : Subsystem → List (ℕ × Umbilical)) (r : Registry)
    → Alike r (modify_object a (λ s. record s { umbilicals = f s }) r)
umbilicals-Alike a f r =
    modify-Alike a (λ s. record s { umbilicals = f s }) r (λ s. refl) (λ s. refl)

remove_umbilical_reference-Alike :
    (a c : ℕ) (r : Registry) → Alike r (remove_umbilical_reference a c r)
unfolding remove_umbilical_reference
remove_umbilical_reference-Alike a c r = elim (Option-cases (lookup a r.objects)) [
  | inl missing ↦ rw (missing, remove_umbilical_reference) (Alike-refl r)
  | inr (o, found) ↦ elim (Option-cases (lookup c o.sub.umbilicals)) [
    | inl none_there ↦ rw (found, none_there, remove_umbilical_reference) (Alike-refl r)
    | inr (u, there) ↦
        let v = record u { static_refs = decr u.static_refs } in
        elim (Bool-cases (is_positive v.static_refs)) [
          | inl more ↦
              rw (found, there, more, remove_umbilical_reference)
                (umbilicals-Alike a (λ s. insert c v s.umbilicals) r)
          | inr last ↦
              rw (found, there, last, remove_umbilical_reference)
                (Alike-trans r
                  (modify_object a (λ s. record s { umbilicals = erase c s.umbilicals }) r) _
                  (umbilicals-Alike a (λ s. erase c s.umbilicals) r)
                  (remove_umbilical-Alike c true
                    (modify_object a (λ s. record s { umbilicals = erase c s.umbilicals }) r)))
        ]
  ]
]

abbrev pub is_link_error : RemoveError → Bool
is_link_error (RemoveError.not_a_parent c) = true
is_link_error _ = false

abbrev pub Leaves : Registry → Removal → Type 0
Leaves r (removed q) = Alike r q
Leaves r (failed e q) = Alike r q × (is_link_error e ≡ false)
Leaves r stuck = ⊥

pub Leaves-after : (r q : Registry) (x : Removal) → Alike r q → Leaves q x → Leaves r x
Leaves-after r q (removed t) a b = Alike-trans r q t a b
Leaves-after r q (failed e t) a (b, k) = (Alike-trans r q t a b, k)
Leaves-after r q stuck a b = b

pub remove_processes-Leaves :
    (a : ℕ) (ps : List Process) (r : Registry) → Leaves r (remove_processes a ps r)
unfolding remove_processes
remove_processes-Leaves a [] r = Alike-refl r
remove_processes-Leaves a (p ∷ ps) r = elim (Bool-cases (is_zygote p.kind)) [
  | inr plain ↦
      rw (plain, remove_processes)
        (Leaves-after r (remove_umbilical_reference a p.compute r) _
          (remove_umbilical_reference-Alike a p.compute r)
          (remove_processes-Leaves a ps (remove_umbilical_reference a p.compute r)))
  | inl zygote ↦ elim (Bool-cases (remove_zygote p.name r).1) [
    | inr missing ↦ rw (zygote, missing, remove_processes) (Alike-refl r, refl)
    | inl found ↦
        let q = (remove_zygote p.name r).0 in
        rw (zygote, found, remove_processes)
          (Leaves-after r (remove_umbilical_reference a p.compute q) _
            (Alike-trans r q _ (remove_zygote-Alike p.name r)
              (remove_umbilical_reference-Alike a p.compute q))
            (remove_processes-Leaves a ps (remove_umbilical_reference a p.compute q)))
  ]
]
