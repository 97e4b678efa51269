-- ===== src/Capcom/Registry/Wired/Linking.antt =====
-- capcom/client_handler.cc, HandleAddSubsystem: the loop that links a subsystem and its children.
use adastra.Prelude.{
  ℕ, ◌<◌, ◌≡◌, refl, sym, ◌∙◌, false, some, List, [], ◌∷◌, ◌==◌, arith, lookup, Bool-cases,
  Option-cases, ◌⊎◌, inl, inr, All,
}
use adastra.Capcom.Registry.{Registry, modify_object, find_subsystem}
use adastra.Capcom.Registry.Building.{
  Children, unknown, known, add_child, add_parent, link_children,
}
use adastra.Capcom.Registry.Links.{lookup-modify}
use adastra.Capcom.Registry.Views.{Shape, Wired-ext, relink, relinked, change-found}
use adastra.Capcom.Registry.Views.Steps.{with_child, linked-Wired}
use adastra.Capcom.Registry.Wired.{
  shape_at, name_at, IsWired, shape-modify, modify-next, modify-subsystems,
}

-- A subsystem that is registered, and older than an address.
abbrev pub IsOlder : Registry → ℕ → ℕ → Type 0
IsOlder r a c = (c < a) × ((s : Shape) × (shape_at r c ≡ some s))

-- One link, between two different subsystems.
link_one : ℕ → ℕ → Registry → Registry
link_one a c r = modify_object c (add_parent a) (modify_object a (add_child c) r)

shape-link_one :
    (a c : ℕ) (r : Registry)
    → c < a
    → (x : ℕ)
    → relinked (with_child a c) (with_child c a) (shape_at r) x ≡ shape_at (link_one a c r) x
unfolding link_one
shape-link_one a c r less x = elim (Bool-cases (c == x)) [
  | inl same ↦
      let q : x ≡ c = ground arith in
      let other : (a == c) ≡ false = ground arith in
      rw
        (
          shape-modify x c (add_parent a) (modify_object a (add_child c) r),
          same,
          lookup-modify c a (add_child c) r,
          other,
          q,
        )
        (elim (Option-cases (lookup c r.objects)) [
          | inl missing ↦ rw missing refl
          | inr (o, found) ↦ rw found (ground arith)
        ])
  | inr other ↦
      rw
        (
          shape-modify x c (add_parent a) (modify_object a (add_child c) r),
          other,
          shape-modify x a (add_child c) r,
        )
        (elim (Bool-cases (a == x)) [
          | inl same ↦
              let q : x ≡ a = ground arith in
              rw (same, q)
                (elim (Option-cases (lookup a r.objects)) [
                  | inl missing ↦ rw missing refl
                  | inr (o, found) ↦ rw found (ground arith)
                ])
          | inr another ↦ (elim (Option-cases (lookup x r.objects)) [
            | inl missing ↦ rw missing (ground arith)
            | inr (o, found) ↦ rw found (ground arith)
          ])
        ])
]

pub All-map {ℓ κ κ'} :
    {A : Type ℓ} {P : A → Type κ} {Q : A → Type κ'} (xs : List A)
    → ((x : A) → P x → Q x)
    → All P xs
    → All Q xs
All-map [] f all = tt
All-map (x ∷ xs) f (p, all) = (f x p, All-map xs f all)

pub Children-cases : (o : Children) → ((n : ℕ) × (o ≡ unknown n)) ⊎ ((cs : List ℕ) × (o ≡ known cs))
Children-cases (unknown n) = inl (n, refl)
Children-cases (known cs) = inr (cs, refl)

link_one-IsWired :
    (a c : ℕ) (r : Registry)
    → IsWired r
    → IsOlder r a c
    → (s : Shape) × (shape_at r a ≡ some s)
    → IsWired (link_one a c r)
unfolding link_one find_subsystem
link_one-IsWired a c r w (less, at_c) at_a =
    let middle = modify_object a (add_child c) r in
    let e : r.next ≡ (link_one a c r).next =
      sym (modify-next c (add_parent a) middle ∙ modify-next a (add_child c) r) in
    let f = modify-subsystems c (add_parent a) middle ∙ modify-subsystems a (add_child c) r in
    rw (sym e) (
      Wired-ext r.next (name_at r) (name_at (link_one a c r))
        (relinked (with_child a c) (with_child c a) (shape_at r)) (shape_at (link_one a c r))
        (λ n x h. rw (f) at h) (shape-link_one a c r less)
        (linked-Wired r.next (name_at r) (shape_at r) a c w less at_a at_c))

link_one-found :
    (a c x : ℕ) (r : Registry)
    → c < a
    → (s : Shape) × (shape_at r x ≡ some s)
    → (s : Shape) × (shape_at (link_one a c r) x ≡ some s)
link_one-found a c x r less (s, h) =
    let (t, k) = change-found (relink (with_child a c) (with_child c a) x) (shape_at r x) s h in
    (t, rw (sym (shape-link_one a c r less x)) k)

pub link_children-IsWired :
    (a : ℕ) (cs : List ℕ) (r : Registry)
    → IsWired r
    → All (IsOlder r a) cs
    → (s : Shape) × (shape_at r a ≡ some s)
    → IsWired (link_children a cs r)
unfolding link_children link_one
link_children-IsWired a [] r w older at_a = w
link_children-IsWired a (c ∷ cs) r w ((less, at_c), older) at_a =
    link_children-IsWired a cs (link_one a c r) (link_one-IsWired a c r w (less, at_c) at_a)
      (All-map cs (λ d (below, at_d). (below, link_one-found a c d r less at_d)) older)
      (link_one-found a c a r less at_a)
