-- ===== src/Stagezero/Symbols/Expansion.antt =====
-- stagezero/symbols.cc: what ReplaceSymbols makes of a string.
use adastra.Prelude.{ℕ, zero, suc, ◌≤◌, ◌≡◌, ◌≢◌, refl, [], ◌∷◌, arith, Text, length}
use adastra.Stagezero.Symbols.{SymbolTable}
use adastra.Stagezero.Symbols.Replace.{until_brace, while_name, symbol_name, replace_from}

until_brace-length : (s : Text) → length (until_brace s).1 ≤ length s
unfolding until_brace
until_brace-length [] = omega arith
until_brace-length (c ∷ s) = ground (arith, until_brace-length s)

while_name-length : (s : Text) → length (while_name s).1 ≤ length s
unfolding while_name
while_name-length [] = omega arith
while_name-length (c ∷ s) = ground (arith, while_name-length s)

symbol_name-length : (s : Text) → length (symbol_name s).1 ≤ length s
unfolding symbol_name
symbol_name-length [] = omega arith
symbol_name-length (c ∷ s) = ground (arith, until_brace-length s, while_name-length (c ∷ s))

-- Fuel of at least the length of the string gives ReplaceSymbols the same result whatever it is:
-- every round of its loop consumes a byte.
pub replace_from_enough :
    (n m : ℕ) (table : SymbolTable) (s : Text)
    → length s ≤ n
    → length s ≤ m
    → replace_from n table s ≡ replace_from m table s
unfolding replace_from
replace_from_enough zero zero table s h k = refl
replace_from_enough zero (suc m) table [] h k = refl
replace_from_enough zero (suc m) table (c ∷ s) h k = absurd (omega arith)
replace_from_enough (suc n) zero table [] h k = refl
replace_from_enough (suc n) zero table (c ∷ s) h k = absurd (omega arith)
replace_from_enough (suc n) (suc m) table [] h k = refl
replace_from_enough (suc n) (suc m) table (c ∷ s) h k =
    let shorter = symbol_name-length s in
    let replaced = replace_from_enough n m table (symbol_name s).1 (omega arith) (omega arith) in
    let plain = replace_from_enough n m table s (omega arith) (omega arith) in
    rw (replaced, plain) refl

-- A byte that is neither the end of the string nor a dollar sign.
abbrev pub IsPlain : ℕ → Type 0
IsPlain c = (c ≢ 0) × (c ≢ 36)

-- A byte that can stand between braces.
abbrev pub IsBraced : ℕ → Type 0
IsBraced c = (c ≢ 0) × (c ≢ 125)
