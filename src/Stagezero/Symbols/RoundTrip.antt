-- ===== src/Stagezero/Symbols/RoundTrip.antt =====
-- stagezero/symbols.cc: what is encoded is decoded again.
use adastra.Prelude.{
  ℕ, ◌+◌, ◌*◌, ◌/◌, ◌%◌, ◌<◌, ◌^◌, ◌≡◌, refl, ap, ◌∙◌, Bool, none, some, List, [], ◌∷◌, ◌++◌, arith,
  Text, length, if◌then◌else◌, not, ◌==◌,
}
use mathlib.Core.List.{append_assoc, append-nil}
use adastra.Stagezero.Symbols.{Symbol, Scope, find_in, emplace}
use adastra.Stagezero.Symbols.Scopes.{emplace_absent}
use adastra.Stagezero.Symbols.Codec.{
  write_int, read_int, write_string, read_bytes, read_string, encode_symbol, decode_symbol,
  encode_symbols, decode_symbols, encode, decode,
}

pub read_int-write_int :
    (n : ℕ) (rest : Text) → n < 2 ^ 32 → read_int (write_int n ++ rest) ≡ (n, rest)
unfolding read_int write_int
read_int-write_int n rest h =
    let e : n % 256 + n / 256 % 256 * 256 + n / 65536 % 256 * 65536 + n / 16777216 % 256 * 16777216
        ≡ n =
      omega arith in
    ap (λ k. (k, rest)) e

read_bytes-append : (s rest : Text) → read_bytes (length s) (s ++ rest) ≡ (some s, rest)
unfolding read_bytes
read_bytes-append [] rest = refl
read_bytes-append (c ∷ s) rest = rw (read_bytes-append s rest) refl

write_string_split : (s rest : Text) → write_string s ++ rest ≡ write_int (length s) ++ (s ++ rest)
unfolding write_string
write_string_split s rest = append_assoc (write_int (length s)) s rest

-- A string that is written is read back, with what follows it left in the stream.
pub read_string-write_string :
    (s rest : Text) → length s < 2 ^ 32 → read_string (write_string s ++ rest) ≡ (s, rest)
unfolding read_string
read_string-write_string s rest h =
    rw
      (
        write_string_split s rest,
        read_string,
        read_int-write_int (length s) (s ++ rest) h,
        read_bytes-append s rest,
      )
      refl

-- A symbol whose name and value have a length of 32 bits.
abbrev pub Fits : Symbol → Type 0
Fits s = (length s.name < 2 ^ 32) × (length s.value < 2 ^ 32)

encode_symbol_split :
    (s : Symbol) (rest : Text)
    → encode_symbol s ++ rest
      ≡ write_string s.name ++ (write_string s.value ++ ((if s.exported then 1 else 0) ∷ rest))
unfolding encode_symbol
encode_symbol_split s rest = rw (append_assoc, append_assoc) refl

flag_back : (b : Bool) → not ((if b then 1 else 0) == 0) ≡ b
flag_back b = ground arith

pub decode_symbol-encode_symbol :
    (s : Symbol) (rest : Text) → Fits s → decode_symbol (encode_symbol s ++ rest) ≡ (s, rest)
unfolding decode_symbol
decode_symbol-encode_symbol s rest h =
    let tail = (if s.exported then 1 else 0) ∷ rest in
    rw
      (
        encode_symbol_split s rest,
        decode_symbol,
        read_string-write_string s.name (write_string s.value ++ tail) h.0,
        read_string-write_string s.value tail h.1,
        flag_back s.exported,
      )
      refl

-- Symbols whose names are all different, and different from those already there.
abbrev pub IsFresh : List Symbol → List Symbol → Type 0
IsFresh before [] = Unit
IsFresh before (s ∷ symbols) = (find_in s.name before ≡ none) × IsFresh (before ++ s ∷ []) symbols

abbrev pub AllFit : List Symbol → Type 0
AllFit [] = Unit
AllFit (s ∷ symbols) = Fits s × AllFit symbols

decode_symbols-encode_symbols :
    (symbols before : List Symbol) (rest : Text)
    → AllFit symbols
    → IsFresh before symbols
    → decode_symbols (length symbols) (encode_symbols symbols ++ rest) before
      ≡ (before ++ symbols, rest)
unfolding decode_symbols encode_symbols
decode_symbols-encode_symbols [] before rest f d = rw append-nil refl
decode_symbols-encode_symbols (s ∷ symbols) before rest f d =
    let stream = encode_symbols symbols ++ rest in
    let first : decode_symbol (encode_symbol s ++ encode_symbols symbols ++ rest) ≡ (s, stream) =
      rw (append_assoc (encode_symbol s) (encode_symbols symbols) rest)
        (decode_symbol-encode_symbol s stream f.0) in
    ap (λ r. decode_symbols (length symbols) r.1 (emplace r.0 before)) first
    ∙ ap (decode_symbols (length symbols) stream) (emplace_absent s before d.0)
    ∙ decode_symbols-encode_symbols symbols (before ++ s ∷ []) rest f.1 d.1
    ∙ ap (λ l. (l, rest)) (append_assoc before (s ∷ []) symbols)

encode_split :
    (scope : Scope) (rest : Text)
    → encode scope ++ rest
      ≡ write_int (length scope.symbols) ++ (encode_symbols scope.symbols ++ rest)
unfolding encode
encode_split scope rest =
    append_assoc (write_int (length scope.symbols)) (encode_symbols scope.symbols) rest

abbrev into_empty : List Symbol × Text → Scope × Text
into_empty (symbols, rest) = (record { symbols = symbols; exported_symbols = [] }, rest)

-- A table of fewer than 2 ^ 32 symbols with different names, whose names and values are shorter
-- than 2 ^ 32 bytes, is decoded from its encoding into an empty table with all its symbols, and
-- with what follows it left in the stream; nothing is exported from the decoded table.
pub decode-encode :
    (scope : Scope) (rest : Text)
    → length scope.symbols < 2 ^ 32
    → AllFit scope.symbols
    → IsFresh [] scope.symbols
    → decode (encode scope ++ rest) (record { symbols = []; exported_symbols = [] })
      ≡ (record { symbols = scope.symbols; exported_symbols = [] }, rest)
unfolding decode
decode-encode scope rest n f d =
    let stream = encode_symbols scope.symbols ++ rest in
    let count : read_int (encode scope ++ rest) ≡ (length scope.symbols, stream) =
      rw (encode_split scope rest) (read_int-write_int (length scope.symbols) stream n) in
    ap (λ r. into_empty (decode_symbols r.0 r.1 [])) count
    ∙ ap into_empty (decode_symbols-encode_symbols scope.symbols [] rest f d)
