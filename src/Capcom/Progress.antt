-- ===== src/Capcom/Progress.antt =====
-- capcom/state_machine.cc: states that are left once the events they wait for have come.
pub mod Starting
pub mod Stopping
use adastra.Prelude.{
  ℕ, zero, suc, ◌≡◌, refl, ap, Bool, true, false, List, [], ◌∷◌, Option, none, some, arith,
  get_elem?, modify, all_of, elem_of, ◌==◌, Bool-cases, inl, inr, ◌||◌, ◌&&◌,
}
use adastra.Capcom.States.{OperState}
use adastra.Capcom.Subsystem.{Subsystem}
use adastra.Capcom.Machine.{Run, Outcome}

module _ {ℓ} {A : Type ℓ} where
  pub get_elem?-modify_other :
      (k i : ℕ) (f : A → A) (xs : List A)
      → (k == i) ≡ false
      → get_elem? (modify k f xs) i ≡ get_elem? xs i
  unfolding modify
  get_elem?-modify_other k i f [] h = refl
  get_elem?-modify_other zero zero f (x ∷ xs) h = ground arith
  get_elem?-modify_other zero (suc i) f (x ∷ xs) h = refl
  get_elem?-modify_other (suc k) zero f (x ∷ xs) h = refl
  get_elem?-modify_other (suc k) (suc i) f (x ∷ xs) h =
      get_elem?-modify_other k i f xs (ground arith)

  pub get_elem?-modify_missing :
      (k : ℕ) (f : A → A) (xs : List A) → get_elem? xs k ≡ none → get_elem? (modify k f xs) k ≡ none
  unfolding modify
  get_elem?-modify_missing k f [] h = refl
  get_elem?-modify_missing zero f (x ∷ xs) h = absurd (cc)
  get_elem?-modify_missing (suc k) f (x ∷ xs) h = get_elem?-modify_missing k f xs h

  pub modify-missing :
      (k : ℕ) (f : A → A) (xs : List A) → get_elem? xs k ≡ none → modify k f xs ≡ xs
  unfolding modify
  modify-missing k f [] h = refl
  modify-missing zero f (x ∷ xs) h = absurd (cc)
  modify-missing (suc k) f (x ∷ xs) h = ap (λ ys. x ∷ ys) (modify-missing k f xs h)

  -- An element that fails a test that not all pass.
  pub failing :
      (test : A → Bool) (xs : List A)
      → all_of test xs ≡ false
      → (i : ℕ) × ((x : A) × ((get_elem? xs i ≡ some x) × (test x ≡ false)))
  unfolding all_of
  failing test [] h = absurd (cc)
  failing test (x ∷ xs) h = elim (Bool-cases (test x)) [
    | inl passes ↦
        let (i, (y, (at, fails))) = failing test xs (ground arith) in (suc i, (y, (at, fails)))
    | inr fails ↦ (zero, (x, (refl, fails)))
  ]

-- Every process that fails the test has an id among those given.
abbrev pub Covers {ℓ} : {P : Type ℓ} → (P → Bool) → List ℕ → (ℕ → Option ℕ) → List P → Type ℓ
Covers {P = P} test ids find ps =
    (i : ℕ) (p : P)
    → get_elem? ps i ≡ some p
    → test p ≡ false
    → (id : ℕ) × ((elem_of id ids ≡ true) × (find id ≡ some i))

module _ {ℓ} {P : Type ℓ} (test : P → Bool) (find : ℕ → Option ℕ) where
  -- An id that is not known covers nothing.
  pub uncovered :
      (id : ℕ) (ids : List ℕ) (ps : List P)
      → find id ≡ none
      → Covers test (id ∷ ids) find ps
      → Covers test ids find ps
  unfolding elem_of
  uncovered id ids ps missing h i p at fails =
      let (j, (among, found)) = h i p at fails in
      elim (Bool-cases (id == j)) [
        | inl same ↦ absurd (ground arith)
        | inr other ↦ (j, (ground arith, found))
      ]

  -- Once the process of an id passes, the other ids cover the rest.
  pub passed :
      (id k : ℕ) (ids : List ℕ) (ps qs : List P)
      → find id ≡ some k
      → Covers test (id ∷ ids) find ps
      → ((q : P) → get_elem? qs k ≡ some q → test q ≡ true)
      → ((i : ℕ) → (k == i) ≡ false → get_elem? qs i ≡ get_elem? ps i)
      → Covers test ids find qs
  unfolding elem_of
  passed id k ids ps qs found h now same i q at fails = elim (Bool-cases (k == i)) [
    | inl here ↦ absurd (ground (arith, now q))
    | inr there ↦
        let (j, (among, found_j)) = h i q (ground (arith, same i there)) fails in
        elim (Bool-cases (id == j)) [
          | inl e ↦ absurd (ground arith)
          | inr other ↦ (j, (ground arith, found_j))
        ]
  ]

-- The loop ends by a handler's exit, with the test passed, the state entered for the client, and one
-- coroutine handed over.
abbrev pub LeavesWith : (Subsystem → Bool) → OperState → ℕ → Subsystem → Run → Type 0
LeavesWith ready next c s r =
    (r.outcome ≡ Outcome.handled)
    × ((ready r.sub ≡ true)
        × ((r.sub.oper_state ≡ next) × (r.sub.coroutines ≡ (next, c) ∷ s.coroutines)))
