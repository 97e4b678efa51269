-- ===== src/Stagezero/Symbols/Environment.antt =====
-- stagezero/symbols.cc: GetEnvironmentSymbols.
use adastra.Prelude.{
  ◌≡◌, ◌≢◌, refl, sym, ◌∙◌, Bool, true, false, none, some, List, [], ◌∷◌, ◌++◌, arith, Text,
  text_eq, text_eq_refl, text_eq_sound, if◌then◌else◌, Option-cases, Bool-cases, inl, inr, ◌||◌,
  All,
}
use adastra.Stagezero.Symbols.{
  Symbol, Scope, SymbolTable, find_in, emplace, add_symbol, assign, assign_exported, environment,
}
use adastra.Stagezero.Symbols.Scopes.{find_in-emplace}

unfoldable pub named_in : Text → List Text → Bool
named_in name [] = false
named_in name (n ∷ names) = text_eq n name || named_in name names

-- What is exported is there.
abbrev pub IsScope : Scope → Type 0
IsScope scope = All (λ name. find_in name scope.symbols ≢ none) scope.exported_symbols

found_name :
    (name : Text) (symbols : List Symbol) (s : Symbol)
    → find_in name symbols ≡ some s
    → s.name ≡ name
unfolding find_in
found_name name [] s h = absurd (cc)
found_name name (t ∷ symbols) s h = elim (Bool-cases (text_eq t.name name)) [
  | inl same ↦ let e : t ≡ s = ground arith in cc (e, text_eq_sound t.name name same)
  | inr differ ↦ found_name name symbols s (ground arith)
]

find_in-assign :
    (s : Symbol) (env : List Symbol) (name : Text)
    → find_in name (assign s env) ≡ (if text_eq s.name name then some s else find_in name env)
unfolding find_in assign
find_in-assign s [] name = refl
find_in-assign s (t ∷ env) name = elim (Bool-cases (text_eq t.name s.name)) [
  | inl same ↦ let e = text_eq_sound t.name s.name same in ground (arith, e)
  | inr differ ↦
      ground
        (arith, find_in-assign s env name, text_eq_sound t.name name, text_eq_sound s.name name)
]

assign_found :
    (name other : Text) (symbols env : List Symbol)
    → find_in name symbols ≢ none
    → find_in other (elim (find_in name symbols) [ none ↦ env | some s ↦ assign s env ])
      ≡ (if text_eq name other then find_in other symbols else find_in other env)
assign_found name other symbols env h = elim (Option-cases (find_in name symbols)) [
  | inl absent ↦ absurd (h absent)
  | inr (s, there) ↦
      let e = found_name name symbols s there in
      elim (Bool-cases (text_eq name other)) [
        | inl same ↦
            let o : find_in other symbols ≡ some s = rw (← text_eq_sound name other same) there in
            let q : text_eq s.name other ≡ true = rw e same in
            rw (there, same) (find_in-assign s env other ∙ rw q (sym o))
        | inr differ ↦
            let q : text_eq s.name other ≡ false = rw e differ in
            rw (there, differ) (find_in-assign s env other ∙ rw q refl)
      ]
]

find_in-assign_exported :
    (symbols : List Symbol) (names : List Text) (env : List Symbol) (other : Text)
    → All (λ name. find_in name symbols ≢ none) names
    → find_in other (assign_exported symbols names env)
      ≡ (if named_in other names then find_in other symbols else find_in other env)
unfolding assign_exported named_in
find_in-assign_exported symbols [] env other h = refl
find_in-assign_exported symbols (name ∷ names) env other h =
    let first = assign_found name other symbols env h.0 in
    let rest =
      find_in-assign_exported symbols names
        (elim (find_in name symbols) [ none ↦ env | some s ↦ assign s env ]) other h.1 in
    ground (arith, first, rest)

-- If what a table exports is among its symbols, then in its environment a name that it exports has
-- the table's symbol, and any other name has what it has in the environment of the parent.
pub environment_innermost :
    (scope : Scope) (parents : SymbolTable) (name : Text)
    → IsScope scope
    → find_in name (environment (scope ∷ parents)) ≡ (
        if named_in name scope.exported_symbols
        then find_in name scope.symbols
        else find_in name (environment parents))
unfolding environment
environment_innermost scope parents name h =
    find_in-assign_exported scope.symbols scope.exported_symbols (environment parents) name h

still_there :
    (s : Symbol) (symbols : List Symbol) (names : List Text)
    → All (λ name. find_in name symbols ≢ none) names
    → All (λ name. find_in name (emplace s symbols) ≢ none) names
still_there s symbols [] h = tt
still_there s symbols (name ∷ names) h =
    (λ e. ground (arith, find_in-emplace s symbols name, h.0), still_there s symbols names h.1)

All-append :
    (symbols : List Symbol) (names : List Text) (name : Text)
    → All (λ n. find_in n symbols ≢ none) names
    → find_in name symbols ≢ none
    → All (λ n. find_in n symbols ≢ none) (names ++ name ∷ [])
All-append symbols [] name h k = (k, tt)
All-append symbols (n ∷ names) name h k = (h.0, All-append symbols names name h.1 k)

-- AddSymbol keeps what is exported among the symbols.
pub add_symbol-IsScope :
    (name value : Text) (exported : Bool) (scope : Scope)
    → IsScope scope
    → IsScope (add_symbol name value exported scope)
unfolding add_symbol
add_symbol-IsScope name value true scope h =
    let s : Symbol = record { name = name; value = value; exported = true } in
    All-append (emplace s scope.symbols) scope.exported_symbols name
      (still_there s scope.symbols scope.exported_symbols h)
      (λ e. ground (arith, find_in-emplace s scope.symbols name, text_eq_refl name))
add_symbol-IsScope name value false scope h =
    still_there (record { name = name; value = value; exported = false }) scope.symbols
      scope.exported_symbols h
