-- ===== src/Stagezero/Symbols/Replace.antt =====
-- stagezero/symbols.cc: ReplaceSymbols. A string ends at its first zero byte.
use adastra.Prelude.{
  ℕ, zero, suc, Bool, ◌&&◌, ◌||◌, none, some, [], ◌∷◌, ◌++◌, Text, length, ◌==◌, leb, if◌then◌else◌,
}
use adastra.Stagezero.Symbols.{SymbolTable, find_symbol}

-- isalpha and isalnum of the C locale, and the underscore.
abbrev pub starts_name : ℕ → Bool
starts_name c = leb 65 c && leb c 90 || (leb 97 c && leb c 122 || c == 95)

abbrev pub in_name : ℕ → Bool
in_name c = starts_name c || (leb 48 c && leb c 57)

-- The name up to a closing brace or the end, and what follows.
unfoldable pub until_brace : Text → Text × Text
until_brace [] = ([], [])
until_brace (c ∷ s) =
    let (name, rest) = until_brace s in
    if c == 0 then ([], c ∷ s) else if c == 125 then ([], s) else (c ∷ name, rest)

-- The longest prefix of name characters, and what follows.
unfoldable pub while_name : Text → Text × Text
while_name [] = ([], [])
while_name (c ∷ s) =
    let (name, rest) = while_name s in if in_name c then (c ∷ name, rest) else ([], c ∷ s)

-- The name after a dollar sign.
unfoldable pub symbol_name : Text → Text × Text
unfolding until_brace while_name
symbol_name [] = ([], [])
symbol_name (c ∷ s) =
    if c == 123 then until_brace s else if starts_name c then while_name (c ∷ s) else ([], c ∷ s)

-- What a name is replaced with.
unfoldable pub expansion : Text → SymbolTable → Text
unfolding find_symbol
expansion name table = elim (find_symbol name table) [ none ↦ name | some s ↦ s.value ]

-- The loop of SymbolTable::ReplaceSymbols, with fuel.
unfoldable pub replace_from : ℕ → SymbolTable → Text → Text
unfolding symbol_name expansion
replace_from zero table s = []
replace_from (suc n) table [] = []
replace_from (suc n) table (c ∷ s) =
    let (name, rest) = symbol_name s in
    let replaced = replace_from n table rest in
    let plain = replace_from n table s in
    if c == 0 then [] else if c == 36 then expansion name table ++ replaced else c ∷ plain

-- SymbolTable::ReplaceSymbols. Every round consumes a byte.
unfoldable pub replace_symbols : SymbolTable → Text → Text
unfolding replace_from
replace_symbols table s = replace_from (length s) table s
