-- ===== src/Capcom/Registry/Links.antt =====
-- capcom/subsystem.h: the links between the subsystems of a registry. A subsystem is constructed after
-- its children, so that its address is larger.
use adastra.Prelude.{
  ℕ, ◌+◌, ◌-◌, ◌<◌, ◌≡◌, refl, true, false, ◌||◌, Option, none, some, List, [], ◌∷◌, ◌++◌, ◌==◌,
  if◌then◌else◌, lookup, lookup-insert, elem_of, arith, Option-cases, inl, inr,
}
use adastra.Capcom.Subsystem.{Subsystem}
use adastra.Capcom.Registry.{Object, Registry, modify_object}
use adastra.Capcom.Registry.Removal.{erase_first}

-- How often an address stands in a list.
unfoldable pub count : ℕ → List ℕ → ℕ
count a [] = 0
count a (x ∷ xs) = (if x == a then 1 else 0) + count a xs

pub count-snoc :
    (a : ℕ) (xs : List ℕ) (x : ℕ) → count a (xs ++ x ∷ []) ≡ count a xs + (if x == a then 1 else 0)
unfolding count
count-snoc a [] x = omega arith
count-snoc a (y ∷ xs) x = omega (arith, count-snoc a xs x)

pub elem_of-snoc :
    (y : ℕ) (xs : List ℕ) (x : ℕ) → elem_of y (xs ++ x ∷ []) ≡ (elem_of y xs || x == y)
unfolding elem_of
elem_of-snoc y [] x = ground arith
elem_of-snoc y (z ∷ xs) x = ground (arith, elem_of-snoc y xs x)

pub count-elem_of : (a : ℕ) (xs : List ℕ) → elem_of a xs ≡ false → count a xs ≡ 0
unfolding count elem_of
count-elem_of a [] h = refl
count-elem_of a (x ∷ xs) h = ground (arith, count-elem_of a xs)

pub elem_of-count : (a : ℕ) (xs : List ℕ) → elem_of a xs ≡ true → 0 < count a xs
unfolding count elem_of
elem_of-count a [] h = absurd (cc)
elem_of-count a (x ∷ xs) h = ground (arith, elem_of-count a xs)

-- erase_first takes one copy away, if there is one.
pub count-erase_first :
    (a b : ℕ) (xs : List ℕ)
    → count b (erase_first a xs).0
      ≡ count b xs - (if a == b then (if elem_of a xs then 1 else 0) else 0)
unfolding count erase_first elem_of
count-erase_first a b [] = ground arith
count-erase_first a b (x ∷ xs) = ground (arith, count-erase_first a b xs, elem_of-count a xs)

pub erase_first-found : (a : ℕ) (xs : List ℕ) → (erase_first a xs).1 ≡ elem_of a xs
unfolding erase_first elem_of
erase_first-found a [] = refl
erase_first-found a (x ∷ xs) = ground (arith, erase_first-found a xs)

pub erase_first-elem_of :
    (a b : ℕ) (xs : List ℕ) → elem_of b (erase_first a xs).0 ≡ true → elem_of b xs ≡ true
unfolding erase_first elem_of
erase_first-elem_of a b [] h = h
erase_first-elem_of a b (x ∷ xs) h = ground (arith, erase_first-elem_of a b xs)

abbrev pub changed : (Subsystem → Subsystem) → Option Object → Option Object
changed f none = none
changed f (some o) = some (record o { sub = f o.sub })

pub lookup-modify :
    (x a : ℕ) (f : Subsystem → Subsystem) (r : Registry)
    → lookup x (modify_object a f r).objects
      ≡ (if a == x then changed f (lookup a r.objects) else lookup x r.objects)
unfolding modify_object
lookup-modify x a f r = elim (Option-cases (lookup a r.objects)) [
  | inl missing ↦ rw (missing, modify_object) (ground arith)
  | inr (o, found) ↦
      rw (found, modify_object) (lookup-insert a x (record o { sub = f o.sub }) r.objects)
]
