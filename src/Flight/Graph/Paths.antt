-- ===== src/Flight/Graph/Paths.antt =====
-- flight/flight_director.cc: what a path of dependencies is, and how many subsystems are not visited.
use adastra.Prelude.{
  ℕ, ◌+◌, ◌≤◌, ◌<◌, ◌≡◌, refl, true, false, List, [], ◌∷◌, ◌++◌, ◌||◌, elem_of, arith,
  if◌then◌else◌, length,
}

-- One subsystem depends on another, directly or through others.
pub data Leads (deps : ℕ → List ℕ) (v : ℕ) : ℕ → Type 0 where
  edge : {d : ℕ} → elem_of d (deps v) ≡ true → Leads deps v d
  onward : {d e : ℕ} → Leads deps v d → elem_of e (deps d) ≡ true → Leads deps v e

-- All of one list stands in another.
abbrev pub Within : List ℕ → List ℕ → Type 0
Within xs ys = (x : ℕ) → elem_of x xs ≡ true → elem_of x ys ≡ true

pub elem_of-append :
    (x : ℕ) (xs ys : List ℕ) → elem_of x (xs ++ ys) ≡ (elem_of x xs || elem_of x ys)
unfolding elem_of
elem_of-append x [] ys = refl
elem_of-append x (y ∷ xs) ys = ground (arith, elem_of-append x xs ys)

-- How many of the subsystems are not visited.
pub unvisited : List ℕ → List ℕ → ℕ
unvisited [] seen = 0
unvisited (v ∷ vs) seen = (if elem_of v seen then 0 else 1) + unvisited vs seen

pub unvisited_mono : (vs old new : List ℕ) → Within old new → unvisited vs new ≤ unvisited vs old
unfolding unvisited
unvisited_mono [] old new h = omega arith
unvisited_mono (v ∷ vs) old new h = ground (arith, h v, unvisited_mono vs old new h)

pub Within-cons : (v : ℕ) (seen : List ℕ) → Within seen (v ∷ seen)
unfolding elem_of
Within-cons v seen x h = ground arith

-- A visit of a subsystem that was not visited leaves fewer.
pub unvisited-visit :
    (v : ℕ) (vs seen : List ℕ)
    → elem_of v vs ≡ true
    → elem_of v seen ≡ false
    → unvisited vs (v ∷ seen) < unvisited vs seen
unfolding unvisited elem_of
unvisited-visit v [] seen h k = absurd (cc)
unvisited-visit v (w ∷ vs) seen h k =
    ground
      (arith, unvisited_mono vs seen (v ∷ seen) (Within-cons v seen), unvisited-visit v vs seen)

pub unvisited-bound : (vs seen : List ℕ) → unvisited vs seen ≤ length vs
unfolding unvisited
unvisited-bound [] seen = omega arith
unvisited-bound (v ∷ vs) seen = ground (arith, unvisited-bound vs seen)
