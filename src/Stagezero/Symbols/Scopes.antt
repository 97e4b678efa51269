-- ===== src/Stagezero/Symbols/Scopes.antt =====
-- stagezero/symbols.cc: what AddSymbol, FindSymbol and GetEnvironmentSymbols mean for a name.
use adastra.Prelude.{
  ◌≡◌, refl, Bool, false, none, some, List, [], ◌∷◌, ◌++◌, arith, Text, text_eq, text_eq_refl,
  text_eq_sound, if◌then◌else◌, Option-cases, Bool-cases, inl, inr,
}
use adastra.Stagezero.Symbols.{
  Symbol, Scope, SymbolTable, find_in, emplace, add_symbol, find_symbol,
}

find_in-append :
    (name : Text) (symbols : List Symbol) (s : Symbol)
    → find_in name (symbols ++ s ∷ []) ≡ elim (find_in name symbols) [
      | none ↦ if text_eq s.name name then some s else none
      | some old ↦ some old
    ]
unfolding find_in
find_in-append name [] s = refl
find_in-append name (t ∷ symbols) s = ground (arith, find_in-append name symbols s)

pub emplace_absent :
    (s : Symbol) (symbols : List Symbol)
    → find_in s.name symbols ≡ none
    → emplace s symbols ≡ symbols ++ s ∷ []
unfolding emplace
emplace_absent s symbols h = rw (emplace, h) refl

emplace_present :
    (s old : Symbol) (symbols : List Symbol)
    → find_in s.name symbols ≡ some old
    → emplace s symbols ≡ symbols
unfolding emplace
emplace_present s old symbols h = rw (emplace, h) refl

pub find_in-emplace :
    (s : Symbol) (symbols : List Symbol) (name : Text)
    → find_in name (emplace s symbols) ≡ elim (find_in name symbols) [
      | none ↦ if text_eq s.name name then some s else none
      | some old ↦ some old
    ]
find_in-emplace s symbols name = elim (Option-cases (find_in s.name symbols)) [
  | inl absent ↦ rw (emplace_absent s symbols absent) (find_in-append name symbols s)
  | inr (old, there) ↦
      rw (emplace_present s old symbols there) (elim (Bool-cases (text_eq s.name name)) [
        | inl same ↦
            let e : find_in name symbols ≡ some old = rw (← text_eq_sound s.name name same) there in
            ground (arith, e)
        | inr differ ↦ ground arith
      ])
]

-- A name that its table has keeps its symbol when AddSymbol is called with it again, a name that
-- the table does not have gets the new symbol, and what FindSymbol answers to other names does not
-- change.
pub find_symbol-add_symbol :
    (name value : Text) (exported : Bool) (scope : Scope) (parents : SymbolTable) (other : Text)
    → (find_in name scope.symbols ≡ none
        → find_symbol name (add_symbol name value exported scope ∷ parents)
          ≡ some (record { name = name; value = value; exported = exported }))
      × ((s : Symbol)
          → find_in name scope.symbols ≡ some s
          → find_symbol name (add_symbol name value exported scope ∷ parents) ≡ some s)
      × (text_eq name other ≡ false
          → find_symbol other (add_symbol name value exported scope ∷ parents)
            ≡ find_symbol other (scope ∷ parents))
unfolding find_symbol add_symbol
find_symbol-add_symbol name value exported scope parents other =
    let new : Symbol = record { name = name; value = value; exported = exported } in
    let found = find_in-emplace new scope.symbols in
    (
      λ h. ground (arith, found name, text_eq_refl name),
      λ s h. ground (arith, found name),
      λ d. ground (arith, found other),
    )
