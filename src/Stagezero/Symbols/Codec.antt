-- ===== src/Stagezero/Symbols/Codec.antt =====
-- stagezero/symbols.cc: symbols written to a stream and read back. A stream is the bytes that are
-- left; `get` at its end fails, which is what `eof()` then answers.
use adastra.Prelude.{
  ℕ, zero, suc, ◌+◌, ◌*◌, ◌/◌, ◌%◌, Bool, true, Option, none, some, List, [], ◌∷◌, ◌++◌, Text,
  length, ◌==◌, if◌then◌else◌, not,
}
use adastra.Stagezero.Symbols.{Symbol, Scope, emplace}

-- WriteInt, on a 32-bit length.
unfoldable pub write_int : ℕ → Text
write_int n = n % 256 ∷ n / 256 % 256 ∷ n / 65536 % 256 ∷ n / 16777216 % 256 ∷ []

-- ReadInt: 0 where the stream ends early.
unfoldable pub read_int : Text → ℕ × Text
read_int (a ∷ b ∷ c ∷ d ∷ rest) = (a + b * 256 + c * 65536 + d * 16777216, rest)
read_int _ = (0, [])

-- WriteString.
unfoldable pub write_string : Text → Text
unfolding write_int
write_string s = write_int (length s) ++ s

-- The loop of ReadString over the bytes that are left to read: `none` where the stream ends early.
unfoldable pub read_bytes : ℕ → Text → Option Text × Text
read_bytes zero stream = (some [], stream)
read_bytes (suc n) [] = (none, [])
read_bytes (suc n) (c ∷ stream) =
    let (s, rest) = read_bytes n stream in
    (elim s [ none ↦ none | some bytes ↦ some (c ∷ bytes) ], rest)

-- ReadString: the empty string where the stream ends early.
unfoldable pub read_string : Text → Text × Text
unfolding read_int read_bytes
read_string stream =
    let (n, rest) = read_int stream in
    let (s, left) = read_bytes n rest in (elim s [ none ↦ [] | some bytes ↦ bytes ], left)

-- Symbol::Encode.
unfoldable pub encode_symbol : Symbol → Text
unfolding write_string
encode_symbol s = write_string s.name ++ write_string s.value ++ (if s.exported then 1 else 0) ∷ []

-- `bool exported = str.get()`. At the end of the stream `get` answers -1, which is true.
abbrev pub read_bool : Text → Bool × Text
read_bool [] = (true, [])
read_bool (c ∷ rest) = (not (c == 0), rest)

-- Symbol::Decode.
unfoldable pub decode_symbol : Text → Symbol × Text
decode_symbol stream =
    let (name, after_name) = read_string stream in
    let (value, after_value) = read_string after_name in
    let (exported, rest) = read_bool after_value in
    (record { name = name; value = value; exported = exported }, rest)

unfoldable pub encode_symbols : List Symbol → Text
unfolding encode_symbol
encode_symbols [] = []
encode_symbols (s ∷ symbols) = encode_symbol s ++ encode_symbols symbols

-- SymbolTable::Encode, in the order in which the map yields its symbols.
unfoldable pub encode : Scope → Text
unfolding encode_symbols write_int
encode scope = write_int (length scope.symbols) ++ encode_symbols scope.symbols

-- The loop of SymbolTable::Decode.
unfoldable pub decode_symbols : ℕ → Text → List Symbol → List Symbol × Text
unfolding decode_symbol emplace
decode_symbols zero stream symbols = (symbols, stream)
decode_symbols (suc n) stream symbols =
    let (s, rest) = decode_symbol stream in decode_symbols n rest (emplace s symbols)

-- SymbolTable::Decode.
unfoldable pub decode : Text → Scope → Scope × Text
unfolding decode_symbols read_int
decode stream scope =
    let (n, rest) = read_int stream in
    let (symbols, left) = decode_symbols n rest scope.symbols in
    (record scope { symbols = symbols }, left)
