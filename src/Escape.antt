-- ===== src/Escape.antt =====
-- The ADC escapes of adclib/adclib.cpp, `escape` and `unescape`, on the bytes of a Lua string.
pub mod RoundTrip
pub mod Unknown
mod Tests
use luadch.Common.{ℕ, List, [], ◌∷◌, ◌++◌, true, false, ◌==◌, if◌then◌else◌}

-- The bytes that the `switch` of `escape` appends for one byte.
pub escape_byte : ℕ → List ℕ
escape_byte c =
    if c == b' '
    then b'\\' ∷ b's' ∷ []
    else if c == b'\n'
    then b'\\' ∷ b'n' ∷ []
    else if c == b'\\'
    then b'\\' ∷ b'\\' ∷ []
    else c ∷ []

-- The loop of `escape`, with `out`.
pub escape_loop : List ℕ → List ℕ → List ℕ
escape_loop [] out = out
escape_loop (c ∷ s) out = escape_loop s (out ++ escape_byte c)

pub escape : List ℕ → List ℕ
escape s = escape_loop s []

-- What `unescape` appends for the byte behind a backslash.
pub unescape_byte : ℕ → List ℕ
unescape_byte c =
    if c == b's'
    then b' ' ∷ []
    else if c == b'n'
    then b'\n' ∷ []
    else if c == b'\\'
    then b'\\' ∷ []
    else b'\\' ∷ c ∷ []

-- The loop of `unescape`, with `out`; the iterator steps over a backslash and the byte behind it.
pub unescape_loop : List ℕ → List ℕ → List ℕ
unescape_loop [] out = out
unescape_loop (c ∷ []) out = out ++ ((if c == b'\\' then b'\\' else c) ∷ [])
unescape_loop (c ∷ d ∷ s) out = elim (c == b'\\') [
  | true ↦ unescape_loop s (out ++ unescape_byte d)
  | false ↦ unescape_loop (d ∷ s) (out ++ (c ∷ []))
]

pub unescape : List ℕ → List ℕ
unescape s = unescape_loop s []
