-- ===== src/Http.antt =====
-- The framer of HTTP requests, `newhttpstage` of core/iostream.lua. A pattern of Lua is the scan that
-- it stands for, with the character classes of the C locale; a header's table is an association list.
pub mod Head
pub mod Framer
pub mod Find
pub mod Chunks
pub mod Names
pub mod Accepts
mod Tests
use luadch.Common.{
  ℕ, zero, suc, ◌+◌, ◌*◌, ◌-◌, Bool, true, false, not, ◌&&◌, ◌||◌, List, [], ◌∷◌, ◌++◌, Option,
  none, some, ltb, leb, ◌==◌, if◌then◌else◌, length, take, drop, map,
}

abbrev pub Bytes : Type 0
Bytes = List ℕ

-- `MAXREQ`, `MAXLINE`, `MAXTARGET`, `MAXHDRS`, `MAXHDRLINE` and `MAXBODY`.
abbrev pub max_req : ℕ
max_req = 16384

abbrev pub max_line : ℕ
max_line = 8192

abbrev pub max_target : ℕ
max_target = 2048

abbrev pub max_hdrs : ℕ
max_hdrs = 100

abbrev pub max_hdr_line : ℕ
max_hdr_line = 8192

abbrev pub max_body : ℕ
max_body = 65536

pub record Request : Type 0 where
  pub method : Bytes
  pub target : Bytes
  pub version : Bytes
  pub headers : List (Bytes × Bytes)
  pub body : Bytes

-- The unit of the stage: a request, or `{ reject = status }`.
pub data Reply : Type 0 where
  request : Request → Reply
  reject : ℕ → Reply

-- `==` of two strings.
unfoldable pub equal : Bytes → Bytes → Bool
equal [] [] = true
equal [] (b ∷ t) = false
equal (a ∷ s) [] = false
equal (a ∷ s) (b ∷ t) = a == b && equal s t

unfoldable pub starts_with : Bytes → Bytes → Bool
starts_with [] s = true
starts_with (a ∷ pat) [] = false
starts_with (a ∷ pat) (b ∷ s) = a == b && starts_with pat s

-- `string_find( s, pat, 1, true )`, from 0.
unfoldable pub find : Bytes → Bytes → Option ℕ
find pat [] = if starts_with pat [] then some 0 else none
find pat (b ∷ s) =
    if starts_with pat (b ∷ s)
    then some 0
    else elim (find pat s) [ none ↦ none | some i ↦ some (suc i) ]

abbrev pub is_some : {A : Type 0} → Option A → Bool
is_some none = false
is_some (some a) = true

abbrev pub crlf : Bytes
crlf = b'\r' ∷ b'\n' ∷ []

abbrev pub end_of_headers : Bytes
end_of_headers = b'\r' ∷ b'\n' ∷ b'\r' ∷ b'\n' ∷ []

abbrev pub dot_dot : Bytes
dot_dot = b'.' ∷ b'.' ∷ []

-- `%c`, `%u`, `%s` and `%d`.
abbrev pub is_control : ℕ → Bool
is_control b = ltb b 32 || (b == 127)

abbrev pub is_upper : ℕ → Bool
is_upper b = leb b'A' b && leb b b'Z'

abbrev pub is_space : ℕ → Bool
is_space b = (b == b' ') || (leb 9 b && leb b 13)

abbrev pub is_digit : ℕ → Bool
is_digit b = leb b'0' b && leb b b'9'

-- `[ \t]`, and `[^:%c ]`.
abbrev pub is_blank : ℕ → Bool
is_blank b = (b == b' ') || (b == b'\t')

abbrev pub is_name_byte : ℕ → Bool
is_name_byte b = not ((b == b':') || (is_control b || (b == b' ')))

-- A byte of the string passes the test; all of them do.
unfoldable pub any_byte : (ℕ → Bool) → Bytes → Bool
any_byte test [] = false
any_byte test (b ∷ s) = test b || any_byte test s

unfoldable pub all_bytes : (ℕ → Bool) → Bytes → Bool
all_bytes test [] = true
all_bytes test (b ∷ s) = test b && all_bytes test s

-- The longest front part that passes the test, and what follows it.
unfoldable pub span : (ℕ → Bool) → Bytes → Bytes × Bytes
span test [] = ([], [])
span test (b ∷ s) = let (run, rest) = span test s in if test b then (b ∷ run, rest) else ([], b ∷ s)

-- `HTTP/%d%.%d`
unfoldable pub is_version : Bytes → Bool
is_version (h ∷ (t ∷ (t' ∷ (p ∷ (slash ∷ (major ∷ (dot ∷ (minor ∷ [])))))))) =
    equal (h ∷ (t ∷ (t' ∷ (p ∷ (slash ∷ []))))) (b'H' ∷ b'T' ∷ b'T' ∷ b'P' ∷ b'/' ∷ [])
    && (is_digit major && ((dot == b'.') && is_digit minor))
is_version s = false
