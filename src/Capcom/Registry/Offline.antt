-- ===== src/Capcom/Registry/Offline.antt =====
-- capcom/subsystem.cc, CheckRemove: the recursion over the children of registered subsystems.
use adastra.Prelude.{
  ℕ, zero, suc, ◌<◌, ◌≡◌, refl, sym, ◌∙◌, Bool, true, false, Option, some, List, [], ◌∷◌, ◌==◌,
  elem_of, arith, lookup, Bool-cases, Option-cases, ◌⊎◌, inl, inr,
}
use adastra.Capcom.Registry.{Object, Registry}
use adastra.Capcom.Registry.Removal.{is_offline, check_children, check_remove}
use adastra.Capcom.Registry.Views.{Shape}
use adastra.Capcom.Registry.Wired.{shape_of, shape_at, IsWired}

abbrev pub Stands : Registry → ℕ → Object → Type 0
Stands r a o = lookup a r.objects ≡ some o

-- A subsystem, its children, their children, and so on.
pub data Below (r : Registry) (a : ℕ) : ℕ → Type 0 where
  itself : Below r a a
  under :
      {b c : ℕ} {o : Object}
      → Below r a b
      → Stands r b o
      → elem_of c o.sub.children ≡ true
      → Below r a c

Below-trans : (r : Registry) (a b c : ℕ) → Below r a b → Below r b c → Below r a c
Below-trans r a b c above itself = above
Below-trans r a b c above (under below stands m) = under (Below-trans r a b _ above below) stands m

abbrev pub AllOffline : Registry → (ℕ → Type 0) → Type 0
AllOffline r P = (x : ℕ) (o : Object) → P x → Stands r x o → is_offline o.sub ≡ true

abbrev pub SomeOnline : Registry → (ℕ → Type 0) → Type 0
SomeOnline r P = (x : ℕ) × ((o : Object) × (P x × (Stands r x o × (is_offline o.sub ≡ false))))

-- A subsystem below one of a list.
abbrev BelowAny : Registry → List ℕ → ℕ → Type 0
BelowAny r cs x = (c : ℕ) × ((elem_of c cs ≡ true) × Below r c x)

abbrev pub Decides : Registry → (ℕ → Type 0) → Option Bool → Type 0
Decides r P answer =
    ((answer ≡ some true) × AllOffline r P) ⊎ ((answer ≡ some false) × SomeOnline r P)

pub shape-Object :
    (r : Registry) (c : ℕ) (s : Shape) → shape_at r c ≡ some s → (o : Object) × Stands r c o
shape-Object r c s h = elim (Option-cases (lookup c r.objects)) [
  | inl missing ↦ absurd (cc (rw missing at h))
  | inr found ↦ found
]

child-Stands :
    (r : Registry) (a c : ℕ) (o : Object)
    → IsWired r
    → Stands r a o
    → elem_of c o.sub.children ≡ true
    → (c < a) × ((p : Object) × Stands r c p)
child-Stands r a c o w stands m =
    let (less, (s, found)) = w.older a c (shape_of o) (rw stands refl) m in
    (less, shape-Object r c s found)

module _ (r : Registry) (wired : IsWired r) where
  check_children-Decides :
      (fuel : ℕ) (cs : List ℕ)
      → ((c : ℕ) → elem_of c cs ≡ true → Decides r (Below r c) (check_remove fuel true r c))
      → Decides r (BelowAny r cs) (check_children (check_remove fuel true r) cs)
  unfolding check_children elem_of
  check_children-Decides fuel [] each = inl (refl, λ x o (c, (m, below)) stands. absurd (cc))
  check_children-Decides fuel (c ∷ cs) each = elim (each c (ground arith)) [
    | inr (answer, (x, (o, (below, found)))) ↦
        inr (rw (answer, check_children) refl, (x, (o, ((c, (ground arith, below)), found))))
    | inl (answer, fine) ↦ elim (check_children-Decides fuel cs (λ d m. each d (ground arith))) [
      | inr (rest, (x, (o, ((d, (m, below)), found)))) ↦
          inr (rw (answer, check_children) rest, (x, (o, ((d, (ground arith, below)), found))))
      | inl (rest, others) ↦ inl (
        rw (answer, check_children) rest,
        λ x o (d, (m, below)) stands. elim (Bool-cases (c == d)) [
          | inl same ↦ let q : d ≡ c = ground arith in fine x o (rw q at below) stands
          | inr other ↦ others x o (d, (ground arith, below)) stands
        ],
      )
    ]
  ]

  -- Below a subsystem stand itself and what is below its children.
  Below-split :
      (a x : ℕ) (o : Object) → Stands r a o → Below r a x → (x ≡ a) ⊎ BelowAny r o.sub.children x
  Below-split a x o stands itself = inl refl
  Below-split a x o stands (under {b = b} {o = p} below there m) =
      elim (Below-split a b o stands below) [
        | inr (c, (k, further)) ↦ inr (c, (k, under further there m))
        | inl e ↦
            let q : some p ≡ some o = sym (rw e at there) ∙ stands in
            let same : p ≡ o = cc in inr (x, (rw same at m, itself))
      ]

  -- In a registry whose links agree as above, the recursive CheckRemove of a subsystem, with fuel
  -- above its address, answers true exactly where the subsystem, its children, their children and
  -- so on are all offline, admin and operational, and false only where one of them is not.
  pub check_remove-Decides :
      (fuel a : ℕ) (o : Object)
      → a < fuel
      → Stands r a o
      → Decides r (Below r a) (check_remove fuel true r a)
  unfolding check_remove
  check_remove-Decides zero a o less stands = absurd (omega arith)
  check_remove-Decides (suc fuel) a o less stands =
      elim (check_children-Decides fuel o.sub.children (λ c m.
        let (younger, (p, there)) = child-Stands r a c o wired stands m in
        check_remove-Decides fuel c p (omega arith) there)) [
          | inr (answer, (x, (p, ((c, (m, below)), found)))) ↦ inr (
            rw (stands, answer, check_remove) refl,
            (x, (p, (Below-trans r a c x (under itself stands m) below, found))),
          )
          | inl (answer, fine) ↦ elim (Bool-cases (is_offline o.sub)) [
            | inr online ↦ inr (
              rw (stands, answer, check_remove, online) refl,
              (a, (o, (itself, (stands, online)))),
            )
            | inl offline ↦ inl (
              rw (stands, answer, check_remove, offline) refl,
              λ x p below there. elim (Below-split a x o stands below) [
                | inr any ↦ fine x p any there
                | inl e ↦
                    let q : some p ≡ some o = sym (rw e at there) ∙ stands in
                    let same : p ≡ o = cc in rw same offline
              ],
            )
          ]
        ]
