-- ===== src/Capcom/Registry.antt =====
-- capcom/capcom.h: what Capcom registers, its subsystems, zygotes, computes and main umbilicals, each
-- under its name. Subsystems are shared: they stand in a store by their address, which is `this`.
pub mod Messages
pub mod Building
pub mod Removal
pub mod Links
pub mod Views
pub mod Wired
pub mod Offline
pub mod Requests
pub mod Faults
use adastra.Prelude.{
  ℕ, suc, Bool, true, false, ◌&&◌, Option, none, some, List, [], ◌∷◌, ◌++◌, ℤ, pos, incr, decr,
  is_positive, ◌==◌, if◌then◌else◌, lookup, insert, erase,
}
use adastra.Capcom.Umbilical.{Umbilical, new_umbilical}
use adastra.Capcom.Subsystem.{Subsystem}

-- A Subsystem with the name that it is constructed with.
pub record Object : Type 0 where
  pub name : ℕ
  pub sub : Subsystem

-- A zygote is a pointer to a process of a subsystem: the address of the subsystem. A compute is its
-- address and port. Objects stay in the store after they are removed.
pub record Registry : Type 0 where
  pub objects : List (ℕ × Object)
  pub next : ℕ
  pub subsystems : List (ℕ × ℕ)
  pub zygotes : List (ℕ × ℕ)
  pub computes : List (ℕ × (ℕ × ℕ))
  pub stagezero_umbilicals : List (ℕ × Umbilical)

-- The empty name, and "<localhost>".
abbrev pub no_name : ℕ
no_name = 0

abbrev pub localhost : ℕ
localhost = 1

-- The name of what FindCompute finds.
unfoldable pub find_compute : ℕ → Registry → Option ℕ
find_compute name r =
    if name == no_name
    then some localhost
    else elim (lookup name r.computes) [ none ↦ none | some addr ↦ some name ]

-- AddCompute: the registry, and whether the compute was inserted.
unfoldable pub add_compute : ℕ → ℕ × ℕ → Registry → Registry × Bool
add_compute name addr r = elim (lookup name r.computes) [
  | none ↦ (record r { computes = insert name addr r.computes }, true)
  | some old ↦ (r, false)
]

-- RemoveCompute, and whether it was there.
unfoldable pub remove_compute : ℕ → Registry → Registry × Bool
remove_compute name r = elim (lookup name r.computes) [
  | none ↦ (r, false)
  | some old ↦ (record r { computes = erase name r.computes }, true)
]

-- FindSubsystem, AddSubsystem and RemoveSubsystem.
unfoldable pub find_subsystem : ℕ → Registry → Option ℕ
find_subsystem name r = lookup name r.subsystems

unfoldable pub add_subsystem : ℕ → ℕ → Registry → Registry × Bool
add_subsystem name address r = elim (lookup name r.subsystems) [
  | none ↦ (record r { subsystems = insert name address r.subsystems }, true)
  | some old ↦ (r, false)
]

unfoldable pub remove_subsystem : ℕ → Registry → Registry × Bool
remove_subsystem name r = elim (lookup name r.subsystems) [
  | none ↦ (r, false)
  | some old ↦ (record r { subsystems = erase name r.subsystems }, true)
]

-- FindZygote, AddZygote and RemoveZygote.
unfoldable pub find_zygote : ℕ → Registry → Option ℕ
find_zygote name r = lookup name r.zygotes

unfoldable pub add_zygote : ℕ → ℕ → Registry → Registry × Bool
add_zygote name owner r = elim (lookup name r.zygotes) [
  | none ↦ (record r { zygotes = insert name owner r.zygotes }, true)
  | some old ↦ (r, false)
]

unfoldable pub remove_zygote : ℕ → Registry → Registry × Bool
remove_zygote name r = elim (lookup name r.zygotes) [
  | none ↦ (r, false)
  | some old ↦ (record r { zygotes = erase name r.zygotes }, true)
]

-- AddUmbilical and RemoveUmbilical.
unfoldable pub add_umbilical : ℕ → Bool → Registry → Registry
unfolding new_umbilical
add_umbilical compute is_static r = elim (lookup compute r.stagezero_umbilicals) [
  | some u ↦ record r {
    stagezero_umbilicals =
        insert compute (record u { static_refs = incr u.static_refs }) r.stagezero_umbilicals;
  }
  | none ↦ record r {
    stagezero_umbilicals =
        insert compute (record new_umbilical { is_static = is_static }) r.stagezero_umbilicals;
  }
]

unfoldable pub remove_umbilical : ℕ → Bool → Registry → Registry
remove_umbilical compute dynamic_only r = elim (lookup compute r.stagezero_umbilicals) [
  | none ↦ r
  | some u ↦
      let v = record u { static_refs = decr u.static_refs } in
      let kept = record r { stagezero_umbilicals = insert compute v r.stagezero_umbilicals } in
      if dynamic_only && v.is_static
      then kept
      else if is_positive v.static_refs
      then kept
      else record r { stagezero_umbilicals = erase compute r.stagezero_umbilicals }
]

-- A change of the subsystem at an address.
abbrev pub change_object : (Subsystem → Subsystem) → Option Object → ℕ → Registry → Registry
change_object f none a r = r
change_object f (some o) a r = record r {
  objects = insert a (record o { sub = f o.sub }) r.objects;
}

unfoldable pub modify_object : ℕ → (Subsystem → Subsystem) → Registry → Registry
modify_object a f r = change_object f (lookup a r.objects) a r
