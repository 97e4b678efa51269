-- ===== src/Capcom/Registry/Wired/Recursion.antt =====
-- capcom/subsystem.cc, Remove: with enough fuel it ends, and leaves links that agree.
use adastra.Prelude.{
  ℕ, ◌≡◌, refl, sym, ◌∙◌, false, List, [], ◌∷◌, ◌==◌, arith, lookup, Bool-cases, Option-cases, ◌⊎◌,
  inl, inr,
}
use adastra.Capcom.Registry.{Registry, modify_object, find_subsystem}
use adastra.Capcom.Registry.Removal.{
  RemoveError, Removal, removed, failed, stuck, children_of, unlink_children, retire, unlink,
}
use adastra.Capcom.Registry.Views.{Wired-ext, relink, change-found}
use adastra.Capcom.Registry.Views.Steps.{with_left, without_parent}
use adastra.Capcom.Registry.Wired.{
  shape_at, name_at, IsWired, Alike, shape-modify, modify-next, modify-subsystems,
}
use adastra.Capcom.Registry.Wired.Removing.{is_link_error}
use adastra.Capcom.Registry.Wired.Unlinking.{
  left_view, Unlinking, Found, dropped, shape-dropped, unlink_one, dropped-Found,
}

-- No subsystem is lost: the store keeps what was removed.
abbrev pub Persists : Registry → Registry → Type 0
Persists r q = (x : ℕ) → Found r x → Found q x

abbrev Unlinked : ℕ → Registry → Removal → Type 0
Unlinked a r (removed q) = Unlinking a [] q × Persists r q
Unlinked a r _ = ⊥

Unlinked-after :
    (a : ℕ) (r q : Registry) (x : Removal) → Persists r q → Unlinked a q x → Unlinked a r x
Unlinked-after a r q (removed t) keep (w, more) = (w, λ x k. more x (keep x k))
Unlinked-after a r q (failed e t) keep h = h
Unlinked-after a r q stuck keep h = h

dropped-Persists : (a c : ℕ) (r : Registry) → Persists r (dropped a c r)
dropped-Persists a c r x (s, h) =
    let (t, k) =
      change-found (relink (λ y children. children) (without_parent a c) x) (shape_at r x) s h in
    (t, shape-dropped a c r x ∙ k)

unlink_children-Unlinked :
    (a : ℕ) (cs : List ℕ) (r : Registry)
    → Unlinking a cs r
    → Found r a
    → Unlinked a r (unlink_children a cs r)
unfolding unlink_children
unlink_children-Unlinked a [] r w at_a = (w, λ x k. k)
unlink_children-Unlinked a (c ∷ cs) r w at_a =
    rw (dropped-Found a c cs r w at_a, unlink_children)
      (Unlinked-after a r (dropped a c r) _ (dropped-Persists a c r) (
        unlink_children-Unlinked a cs (dropped a c r) (unlink_one a c cs r w at_a)
          (dropped-Persists a c r a at_a)))

-- With all its children left, a subsystem has its links.
Unlinking-start :
    (a : ℕ) (r : Registry) → IsWired r → Unlinking a (children_of (lookup a r.objects)) r
Unlinking-start a r w =
    Wired-ext r.next (name_at r) (name_at r) (shape_at r)
      (left_view a (children_of (lookup a r.objects)) r) (λ n x h. h)
      (λ x. elim (Option-cases (lookup x r.objects)) [
        | inl missing ↦ rw missing refl
        | inr (o, found) ↦ elim (Bool-cases (a == x)) [
          | inr other ↦ rw (found, other) refl
          | inl same ↦ let q : a ≡ x = ground arith in rw (q, found) (ground arith)
        ]
      ])
      w

retire-shape :
    (a : ℕ) (r : Registry) (x : ℕ) → left_view a [] r x ≡ shape_at (modify_object a retire r) x
retire-shape a r x = rw (shape-modify x a retire r) (elim (Bool-cases (a == x)) [
  | inr other ↦ elim (Option-cases (lookup x r.objects)) [
    | inl missing ↦ rw (other, missing) refl
    | inr (o, found) ↦ rw (other, found) (ground arith)
  ]
  | inl same ↦
      let q : x ≡ a = ground arith in
      elim (Option-cases (lookup a r.objects)) [
        | inl missing ↦ rw (same, q, missing) refl
        | inr (o, found) ↦ rw (same, q, found) (ground arith)
      ]
])

-- How a removal ends: with links that agree, nothing lost, and no missing parent.
abbrev pub Removes : Registry → Removal → Type 0
Removes r (removed q) = IsWired q × Persists r q
Removes r (failed e q) = IsWired q × (is_link_error e ≡ false)
Removes r stuck = ⊥

pub Removes-after : (r q : Registry) (x : Removal) → Persists r q → Removes q x → Removes r x
Removes-after r q (removed t) keep (w, more) = (w, λ x k. more x (keep x k))
Removes-after r q (failed e t) keep h = h
Removes-after r q stuck keep h = h

pub Alike-Persists : (r q : Registry) → Alike r q → Persists r q
Alike-Persists r q alike x (s, h) = (s, sym (alike.shapes x) ∙ h)

retire-Removes :
    (a : ℕ) (q : Registry) → Unlinking a [] q → Removes q (removed (modify_object a retire q))
unfolding find_subsystem
retire-Removes a q w = (
  rw (modify-next a retire q) (
      Wired-ext q.next (name_at q) (name_at (modify_object a retire q)) (left_view a [] q)
        (shape_at (modify_object a retire q)) (λ n x h. rw (modify-subsystems a retire q) at h)
        (retire-shape a q) w),
  λ x (s, h).
      let (t, k) =
        change-found (relink (with_left a []) (λ y parents. parents) x) (shape_at q x) s h in
      (t, sym (retire-shape a q x) ∙ k),
)

pub Removal-cases :
    (x : Removal)
    → ((q : Registry) × (x ≡ removed q))
      ⊎ (((e : RemoveError) × ((q : Registry) × (x ≡ failed e q))) ⊎ (x ≡ stuck))
Removal-cases (removed q) = inl (q, refl)
Removal-cases (failed e q) = inr (inl (e, (q, refl)))
Removal-cases stuck = inr (inr refl)

pub unlink-Removes : (a : ℕ) (r : Registry) → IsWired r → Found r a → Removes r (unlink a r)
unfolding unlink
unlink-Removes a r w at_a =
    let cs = children_of (lookup a r.objects) in
    let h = unlink_children-Unlinked a cs r (Unlinking-start a r w) at_a in
    elim (Removal-cases (unlink_children a cs r)) [
      | inl (q, done) ↦
          let (left, keep) : Unlinking a [] q × Persists r q = rw done at h in
          rw (done, unlink)
            (Removes-after r q (removed (modify_object a retire q)) keep (retire-Removes a q left))
      | inr (inl (e, (q, fault))) ↦ absurd (rw fault at h)
      | inr (inr out) ↦ absurd (rw out at h)
    ]
