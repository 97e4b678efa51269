-- ===== src/Prelude/Lists.antt =====
-- Lists by position over the native numbers, tests over lists, and association lists.
use Prim.Native.Nat.{ℕ, zero, suc}
use mathlib.Core.Path.{◌≡◌, refl}
use mathlib.Core.Bool.{Bool, true, false, ◌&&◌, ◌||◌}
use mathlib.Core.Option.{Option, none, some}
use mathlib.Core.List.{List, [], ◌∷◌}
use native.Mathlib.Omega.{arith}
use adastra.Prelude.Tests.{◌==◌, if◌then◌else◌}

module _ {ℓ} {A : Type ℓ} where
  abbrev pub length : List A → ℕ
  length [] = 0
  length (x ∷ xs) = suc (length xs)

  abbrev pub get_elem? : List A → ℕ → Option A
  get_elem? [] i = none
  get_elem? (x ∷ xs) zero = some x
  get_elem? (x ∷ xs) (suc i) = get_elem? xs i

  -- A write through a reference to the element at a position; out of range nothing changes.
  unfoldable pub modify : ℕ → (A → A) → List A → List A
  modify i f [] = []
  modify zero f (x ∷ xs) = f x ∷ xs
  modify (suc i) f (x ∷ xs) = x ∷ modify i f xs

  unfoldable pub all_of : (A → Bool) → List A → Bool
  all_of p [] = true
  all_of p (x ∷ xs) = p x && all_of p xs

  -- Every element satisfies the predicate.
  abbrev pub All {κ} : (A → Type κ) → List A → Type κ
  All P [] = Unit
  All P (x ∷ xs) = P x × All P xs

  pub all_of_sound : (p : A → Bool) (xs : List A) → all_of p xs ≡ true → All (λ x. p x ≡ true) xs
  unfolding all_of
  all_of_sound p [] h = tt
  all_of_sound p (x ∷ xs) h = (ground arith, all_of_sound p xs (ground arith))

  pub All-all_of : (p : A → Bool) (xs : List A) → All (λ x. p x ≡ true) xs → all_of p xs ≡ true
  unfolding all_of
  All-all_of p [] h = refl
  All-all_of p (x ∷ xs) h = ground (arith, All-all_of p xs h.1)

  pub length-modify : (i : ℕ) (f : A → A) (xs : List A) → length (modify i f xs) ≡ length xs
  unfolding modify
  length-modify i f [] = refl
  length-modify zero f (x ∷ xs) = refl
  length-modify (suc i) f (x ∷ xs) = omega (arith, length-modify i f xs)

unfoldable pub elem_of : ℕ → List ℕ → Bool
elem_of a [] = false
elem_of a (x ∷ xs) = (x == a) || elem_of a xs

-- Removes every copy of a key.
unfoldable pub remove_of : ℕ → List ℕ → List ℕ
remove_of a [] = []
remove_of a (x ∷ xs) = let rest = remove_of a xs in if x == a then rest else x ∷ rest

-- A hash map as an association list, a key at most once.
module _ {ℓ} {B : Type ℓ} where
  unfoldable pub erase : ℕ → List (ℕ × B) → List (ℕ × B)
  erase key [] = []
  erase key ((other, y) ∷ rest) =
      let later = erase key rest in if other == key then later else (other, y) ∷ later

  unfoldable pub insert : ℕ → B → List (ℕ × B) → List (ℕ × B)
  insert key x [] = (key, x) ∷ []
  insert key x ((other, y) ∷ rest) =
      let later = insert key x rest in if other == key then (key, x) ∷ rest else (other, y) ∷ later

  unfoldable pub lookup : ℕ → List (ℕ × B) → Option B
  lookup key [] = none
  lookup key ((other, y) ∷ rest) =
      let later = lookup key rest in if other == key then some y else later

  pub lookup-erase :
      (gone key : ℕ) (entries : List (ℕ × B))
      → lookup key (erase gone entries) ≡ (if gone == key then none else lookup key entries)
  unfolding lookup erase
  lookup-erase gone key [] = ground arith
  lookup-erase gone key (e ∷ rest) = ground (arith, lookup-erase gone key rest)

  pub lookup-insert :
      (new key : ℕ) (x : B) (entries : List (ℕ × B))
      → lookup key (insert new x entries) ≡ (if new == key then some x else lookup key entries)
  unfolding lookup insert
  lookup-insert new key x [] = refl
  lookup-insert new key x (e ∷ rest) = ground (arith, lookup-insert new key x rest)
