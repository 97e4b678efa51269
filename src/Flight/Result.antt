-- ===== src/Flight/Result.antt =====
-- flight/flight_director.cc: the errors of loading, and the chain of steps that may fail.
use mathlib.Core.Path.{subst}
use adastra.Prelude.{ℕ, ◌≡◌, refl, List, [], ◌∷◌, ◌⊎◌, inl, inr, arith}

-- The statuses that end the loading, with the names in their texts.
pub data LoadError : Type 0 where
  duplicate_subsystem duplicate_compute : ℕ → LoadError
  no_such_dep already_dep : ℕ → ℕ → LoadError
  process_exists zygote_exists module_exists : ℕ → ℕ → LoadError
  streams_of_interactive interactive_zygote : ℕ → LoadError
  no_such_zygote : ℕ → ℕ → LoadError
  too_many_interactive : ℕ → ℕ → LoadError
  no_such_interface already_interface no_such_autostart already_autostarted : ℕ → LoadError
  -- The assertion that a subsystem was preloaded.
  not_preloaded : ℕ → LoadError

pub data Result {ℓ} (A : Type ℓ) : Type ℓ where
  ok : A → Result A
  err : LoadError → Result A

infixl 5 ◌>>=◌
abbrev pub ◌>>=◌ {ℓ κ} : {A : Type ℓ} {B : Type κ} → Result A → (A → Result B) → Result B
ok a >>= f = f a
err e >>= f = err e

-- A chain that succeeds: its first step did.
pub >>=-eq-ok {ℓ κ} :
    {A : Type ℓ} {B : Type κ} (r : Result A) (f : A → Result B) {b : B}
    → (r >>= f) ≡ ok b
    → (a : A) × ((r ≡ ok a) × (f a ≡ ok b))
>>=-eq-ok (ok a) f h = (a, (refl, h))
>>=-eq-ok (err e) f h = absurd (cc)

-- `for` over a list with a body that may return an error.
unfoldable pub for_each {ℓ κ} :
    {A : Type ℓ} {B : Type κ} → (A → B → Result B) → List A → B → Result B
for_each f [] b = ok b
for_each f (x ∷ xs) b = elim (f x b) [ err e ↦ err e | ok c ↦ for_each f xs c ]

pub Result-cases {ℓ} :
    {A : Type ℓ} (r : Result A) → ((e : LoadError) × (r ≡ err e)) ⊎ ((a : A) × (r ≡ ok a))
Result-cases (ok a) = inr (a, refl)
Result-cases (err e) = inl (e, refl)

-- What holds of every result of the body holds of the loop's.
pub for_each_inv {ℓ κ ℓ'} :
    {A : Type ℓ} {B : Type κ} (P : B → Type ℓ') (f : A → B → Result B)
    → ((x : A) (b c : B) → P b → f x b ≡ ok c → P c)
    → (xs : List A) (b c : B) → P b
    → for_each f xs b ≡ ok c
    → P c
unfolding for_each
for_each_inv P f keep [] b c p h = subst P (ground arith) p
for_each_inv P f keep (x ∷ xs) b c p h = elim (Result-cases (f x b)) [
  | inl (e, failed) ↦ absurd (ground arith)
  | inr (d, done) ↦ for_each_inv P f keep xs d c (keep x b d p done) (rw (done, for_each) at h)
]
