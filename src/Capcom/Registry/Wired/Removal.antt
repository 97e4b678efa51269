-- ===== src/Capcom/Registry/Wired/Removal.antt =====
-- capcom/client_handler.cc, HandleRemoveSubsystem, and Remove of capcom/subsystem.cc.
use adastra.Prelude.{
  ℕ, zero, suc, ◌<◌, ◌≡◌, refl, Bool, true, false, some, List, [], ◌∷◌, elem_of, arith, lookup,
  erase, lookup-erase, Bool-cases, Option-cases, inl, inr,
}
use adastra.Capcom.Registry.{Object, Registry, modify_object, find_subsystem, remove_subsystem}
use adastra.Capcom.Registry.Removal.{
  is_offline, check_remove, RemoveAnswer, out_of_fuel, unlink, unregister, forget_names,
  remove_processes, remove_one, remove_children, remove, handle_remove_subsystem,
}
use adastra.Capcom.Registry.Views.{Wired-ext}
use adastra.Capcom.Registry.Wired.{
  shape_of, shape_at, name_at, IsWired, Alike, Alike-IsWired, modify-Alike,
}
use adastra.Capcom.Registry.Wired.Removing.{is_link_error, Leaves-after, remove_processes-Leaves}
use adastra.Capcom.Registry.Wired.Unlinking.{Found}
use adastra.Capcom.Registry.Wired.Recursion.{
  Persists, Removes, Removes-after, Alike-Persists, Removal-cases, unlink-Removes,
}
use adastra.Capcom.Registry.Offline.{Stands, shape-Object, check_remove-Decides}

remove_subsystem-IsWired : (n : ℕ) (r : Registry) → IsWired r → IsWired (remove_subsystem n r).0
unfolding remove_subsystem find_subsystem
remove_subsystem-IsWired n r w = elim (Option-cases (lookup n r.subsystems)) [
  | inl missing ↦ rw (missing, remove_subsystem) w
  | inr (a, found) ↦
      rw (found, remove_subsystem)
        (Wired-ext r.next (name_at r) (λ m. lookup m (erase n r.subsystems)) (shape_at r)
          (shape_at r) (λ m x h. ground (arith, lookup-erase n m r.subsystems)) (λ x. refl) w)
]

remove_subsystem-objects : (n : ℕ) (r : Registry) → (remove_subsystem n r).0.objects ≡ r.objects
unfolding remove_subsystem
remove_subsystem-objects n r = ground arith

unregister-Removes :
    (a : ℕ) (o : Object) (r : Registry) → IsWired r → Found r a → Removes r (unregister a o r)
unfolding unregister
unregister-Removes a o r w at_a =
    let q = (remove_subsystem o.name r).0 in
    let keep : Persists r q = λ x k. rw (remove_subsystem-objects o.name r) k in
    elim (Bool-cases (remove_subsystem o.name r).1) [
      | inr missing ↦ rw (missing, unregister) (w, refl)
      | inl found ↦
          rw (found, unregister)
            (Removes-after r q (unlink a q) keep
              (unlink-Removes a q (remove_subsystem-IsWired o.name r w) (keep a at_a)))
    ]

remove_one-Removes :
    (a : ℕ) (o : Object) (r : Registry) → IsWired r → Found r a → Removes r (remove_one a o r)
unfolding remove_one
remove_one-Removes a o r w at_a =
    let nameless = modify_object a forget_names r in
    let h =
      Leaves-after r nameless (remove_processes a o.sub.processes nameless)
        (modify-Alike a forget_names r (λ s. refl) (λ s. refl))
        (remove_processes-Leaves a o.sub.processes nameless) in
    elim (Removal-cases (remove_processes a o.sub.processes nameless)) [
      | inl (q, done) ↦
          let alike : Alike r q = rw done at h in
          rw (done, remove_one)
            (Removes-after r q (unregister a o q) (Alike-Persists r q alike) (
              unregister-Removes a o q (Alike-IsWired r q alike w)
                (Alike-Persists r q alike a at_a)))
      | inr (inl (e, (q, fault))) ↦
          let (alike, other) : Alike r q × (is_link_error e ≡ false) = rw fault at h in
          rw (fault, remove_one) (Alike-IsWired r q alike w, other)
      | inr (inr out) ↦ absurd (rw out at h)
    ]

-- A removal of anything below an address.
abbrev RemovesBelow : ℕ → ℕ → Bool → Type 0
RemovesBelow fuel a recursive =
    (c : ℕ) (r : Registry) → c < a → IsWired r → Found r c → Removes r (remove fuel recursive c r)

remove_children-Removes :
    (fuel a : ℕ) (recursive : Bool) (cs : List ℕ) (r : Registry)
    → RemovesBelow fuel a recursive
    → IsWired r
    → ((c : ℕ) → elem_of c cs ≡ true → (c < a) × Found r c)
    → Removes r (remove_children (remove fuel recursive) cs r)
unfolding remove_children elem_of
remove_children-Removes fuel a recursive [] r below w older = (w, λ x k. k)
remove_children-Removes fuel a recursive (c ∷ cs) r below w older =
    let (less, at_c) = older c (ground arith) in
    let h = below c r less w at_c in
    elim (Removal-cases (remove fuel recursive c r)) [
      | inl (q, done) ↦
          let (wired, keep) : IsWired q × Persists r q = rw done at h in
          rw (done, remove_children)
            (Removes-after r q (remove_children (remove fuel recursive) cs q) keep (
              remove_children-Removes fuel a recursive cs q below wired
                (λ d m. let (k, at_d) = older d (ground arith) in (k, keep d at_d))))
      | inr (inl (e, (q, fault))) ↦ rw (fault, remove_children) (rw fault at h)
      | inr (inr out) ↦ absurd (rw out at h)
    ]

-- What is left to do once the children are removed.
remove-last :
    (a : ℕ) (q : Registry)
    → IsWired q
    → Found q a
    → (now : Object) × (Stands q a now × Removes q (remove_one a now q))
remove-last a q w (s, at_a) =
    let (now, stands) = shape-Object q a s at_a in
    (now, (stands, remove_one-Removes a now q w (s, at_a)))

remove-Removes :
    (fuel a : ℕ) (recursive : Bool) (r : Registry)
    → a < fuel
    → IsWired r
    → Found r a
    → Removes r (remove fuel recursive a r)
unfolding remove
remove-Removes zero a recursive r less w at_a = absurd (omega arith)
remove-Removes (suc fuel) a false r less w at_a =
    let (o, stands) = shape-Object r a at_a.0 at_a.1 in
    let (now, (there, h)) = remove-last a r w at_a in rw (stands, remove, there) h
remove-Removes (suc fuel) a true r less w at_a =
    let (o, stands) = shape-Object r a at_a.0 at_a.1 in
    let below =
      remove_children-Removes fuel a true o.sub.children r
        (λ c q k v at_c. remove-Removes fuel c true q (omega arith) v at_c) w
        (λ c m. w.older a c (shape_of o) (rw stands refl) m) in
    elim (Removal-cases (remove_children (remove fuel true) o.sub.children r)) [
      | inl (q, done) ↦
          let (wired, keep) : IsWired q × Persists r q = rw done at below in
          let (now, (there, h)) = remove-last a q wired (keep a at_a) in
          rw (stands, done, there, remove) (Removes-after r q (remove_one a now q) keep h)
      | inr (inl (e, (q, fault))) ↦ rw (stands, fault, remove) (rw fault at below)
      | inr (inr out) ↦ absurd (rw out at below)
    ]

check_remove-answers :
    (fuel a : ℕ) (recursive : Bool) (r : Registry) (o : Object)
    → a < fuel
    → IsWired r
    → Stands r a o
    → (b : Bool) × (check_remove fuel recursive r a ≡ some b)
unfolding check_remove
check_remove-answers zero a recursive r o less w stands = absurd (omega arith)
check_remove-answers (suc fuel) a false r o less w stands =
    (is_offline o.sub, rw (stands, check_remove) refl)
check_remove-answers (suc fuel) a true r o less w stands =
    elim (check_remove-Decides r w (suc fuel) a o less stands) [
      | inl (e, fine) ↦ (true, e)
      | inr (e, online) ↦ (false, e)
    ]

abbrev pub is_answered : RemoveAnswer → Bool
is_answered out_of_fuel = false
is_answered _ = true

-- In a registry whose links agree as above, HandleRemoveSubsystem with the next address as its fuel
-- does not run out of it, recursive or not and whatever the name, and leaves the links in
-- agreement, also where it fails.
pub handle_remove_subsystem-IsWired :
    (name : ℕ) (recursive : Bool) (r : Registry)
    → IsWired r
    → (IsWired (handle_remove_subsystem r.next name recursive r).0)
      × (is_answered (handle_remove_subsystem r.next name recursive r).1 ≡ true)
unfolding handle_remove_subsystem
handle_remove_subsystem-IsWired name recursive r w = elim (Option-cases (find_subsystem name r)) [
  | inl missing ↦ rw (missing, handle_remove_subsystem) (w, refl)
  | inr (a, named) ↦
      let (s, (at_a, q)) = w.named name a named in
      let (o, stands) = shape-Object r a s at_a in
      let less = w.fresh a s at_a in
      let (b, answer) = check_remove-answers r.next a recursive r o less w stands in
      elim (Bool-cases b) [
        | inr online ↦ rw (named, answer, online, handle_remove_subsystem) (w, refl)
        | inl all_offline ↦
            let h = remove-Removes r.next a recursive r less w (s, at_a) in
            elim (Removal-cases (remove r.next recursive a r)) [
              | inl (t, done) ↦
                  let (wired, keep) : IsWired t × Persists r t = rw done at h in
                  rw (named, answer, all_offline, done, handle_remove_subsystem) (wired, refl)
              | inr (inl (e, (t, fault))) ↦
                  let (wired, other) : IsWired t × (is_link_error e ≡ false) = rw fault at h in
                  rw (named, answer, all_offline, fault, handle_remove_subsystem) (wired, refl)
              | inr (inr out) ↦ absurd (rw out at h)
            ]
      ]
]
