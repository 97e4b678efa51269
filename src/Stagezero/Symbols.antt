-- ===== src/Stagezero/Symbols.antt =====
-- stagezero/symbols.h and symbols.cc: symbols in nested scopes. A table is its own scope and, from
-- the inside out, those of the tables that its parent pointers lead to; none is a null pointer.
pub mod Codec
pub mod Replace
pub mod RoundTrip
pub mod Scopes
pub mod Environment
pub mod Expansion
use adastra.Prelude.{
  ℕ, Bool, true, false, Option, none, some, List, [], ◌∷◌, ◌++◌, Text, text_eq, if◌then◌else◌,
}

pub record Symbol : Type 0 where
  pub name : Text
  pub value : Text
  pub exported : Bool

-- `exported_symbols_` points into `symbols_`: the names of the symbols that it points to.
pub record Scope : Type 0 where
  pub symbols : List Symbol
  pub exported_symbols : List Text

abbrev pub SymbolTable : Type 0
SymbolTable = List Scope

-- `symbols_.find`.
unfoldable pub find_in : Text → List Symbol → Option Symbol
find_in name [] = none
find_in name (s ∷ symbols) =
    let later = find_in name symbols in if text_eq s.name name then some s else later

-- `symbols_.emplace`, which leaves a symbol of that name alone.
unfoldable pub emplace : Symbol → List Symbol → List Symbol
unfolding find_in
emplace s symbols = elim (find_in s.name symbols) [ none ↦ symbols ++ s ∷ [] | some old ↦ symbols ]

-- SymbolTable::AddSymbol.
unfoldable pub add_symbol : Text → Text → Bool → Scope → Scope
unfolding emplace
add_symbol name value exported scope = record {
  symbols = emplace (record { name = name; value = value; exported = exported }) scope.symbols;
  exported_symbols =
      if exported then scope.exported_symbols ++ name ∷ [] else scope.exported_symbols;
}

-- SymbolTable::FindSymbol.
unfoldable pub find_symbol : Text → SymbolTable → Option Symbol
unfolding find_in
find_symbol name [] = none
find_symbol name (scope ∷ parents) =
    let outer = find_symbol name parents in
    elim (find_in name scope.symbols) [ none ↦ outer | some s ↦ some s ]

-- `symbols[name] = symbol` on the map that GetEnvironmentSymbols builds.
unfoldable pub assign : Symbol → List Symbol → List Symbol
assign s [] = s ∷ []
assign s (t ∷ env) =
    let later = assign s env in if text_eq t.name s.name then s ∷ env else t ∷ later

unfoldable pub assign_exported : List Symbol → List Text → List Symbol → List Symbol
unfolding find_in assign
assign_exported symbols [] env = env
assign_exported symbols (name ∷ names) env =
    assign_exported symbols names
      (elim (find_in name symbols) [ none ↦ env | some s ↦ assign s env ])

-- SymbolTable::GetEnvironmentSymbols.
unfoldable pub environment : SymbolTable → List Symbol
unfolding assign_exported
environment [] = []
environment (scope ∷ parents) =
    assign_exported scope.symbols scope.exported_symbols (environment parents)
