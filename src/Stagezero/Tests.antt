-- ===== src/Stagezero/Tests.antt =====
-- Symbol tables of stagezero/symbols.cc on small texts.
use adastra.Prelude.{◌≡◌, refl, true, false, [], ◌∷◌, ◌++◌, arith, Text, if◌then◌else◌}
use adastra.Stagezero.Symbols.{Symbol, Scope, find_in, add_symbol, environment}
use adastra.Stagezero.Symbols.Codec.{encode, decode}
use adastra.Stagezero.Symbols.Replace.{replace_from}
use adastra.Stagezero.Symbols.RoundTrip.{decode-encode}
use adastra.Stagezero.Symbols.Environment.{IsScope, named_in, environment_innermost}
use adastra.Stagezero.Symbols.Expansion.{replace_from_enough}

-- "log" stands for "/l", exported, and "a" for "b".
abbrev log : Text
log = b'l' ∷ b'o' ∷ b'g' ∷ []

abbrev logdir : Symbol
logdir = record { name = log; value = b'/' ∷ b'l' ∷ []; exported = true }

abbrev other : Symbol
other = record { name = b'a' ∷ []; value = b'b' ∷ []; exported = false }

abbrev globals : Scope
globals = record { symbols = logdir ∷ other ∷ []; exported_symbols = log ∷ [] }

abbrev no_symbols : Scope
no_symbols = record { symbols = []; exported_symbols = [] }

decode-encode_example :
    decode (encode globals ++ b'!' ∷ []) no_symbols
    ≡ (record { symbols = logdir ∷ other ∷ []; exported_symbols = [] }, b'!' ∷ [])
unfolding find_in
decode-encode_example =
    decode-encode globals (b'!' ∷ []) (ground arith)
      ((ground arith, ground arith), ((ground arith, ground arith), tt)) (refl, (refl, tt))

-- Adding "log" again with another value.
abbrev again : Scope
again = add_symbol log (b'x' ∷ []) false globals

exported_there : IsScope globals
unfolding find_in
exported_there = (λ e. cc, tt)

environment_innermost_example : find_in log (environment (globals ∷ no_symbols ∷ [])) ≡ (
    if named_in log (log ∷ [])
    then find_in log (logdir ∷ other ∷ [])
    else find_in log (environment (no_symbols ∷ [])))
environment_innermost_example = environment_innermost globals (no_symbols ∷ []) log exported_there

replace_from_enough_example :
    replace_from 9 (globals ∷ []) (36 ∷ b'a' ∷ []) ≡ replace_from 2 (globals ∷ []) (36 ∷ b'a' ∷ [])
replace_from_enough_example =
    replace_from_enough 9 2 (globals ∷ []) (36 ∷ b'a' ∷ []) (ground arith) (ground arith)
