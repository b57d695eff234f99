-- ===== src/Escape/Tests.antt =====
-- Runs of `escape` and `unescape`, and the theorems at concrete inputs.
use luadch.Common.{ℕ, ◌*◌, ◌≤◌, List, [], ◌∷◌, length, ◌≡◌, refl, All}
use luadch.Escape.{escape, escape_loop, escape_byte, unescape, unescape_loop, unescape_byte}
use luadch.Escape.RoundTrip.{IsPlain, unescape-escape}

-- "a b", a line feed and a backslash.
abbrev chat : List ℕ
chat = b'a' ∷ b' ' ∷ b'b' ∷ b'\n' ∷ b'\\' ∷ []

escaped : escape chat ≡ b'a' ∷ b'\\' ∷ b's' ∷ b'b' ∷ b'\\' ∷ b'n' ∷ b'\\' ∷ b'\\' ∷ []
unfolding escape escape_loop escape_byte
escaped = refl

-- "admin\q" does not become "admin".
kept : unescape (b'n' ∷ b'\\' ∷ b'q' ∷ b'\\' ∷ []) ≡ b'n' ∷ b'\\' ∷ b'q' ∷ b'\\' ∷ []
unfolding unescape unescape_loop unescape_byte
kept = refl

unescape-escape_example :
    (unescape (escape chat) ≡ chat)
    × All IsPlain (escape chat)
    × (length chat ≤ length (escape chat))
    × (length (escape chat) ≤ 2 * length chat)
unescape-escape_example = unescape-escape chat
