-- ===== src/Http/Head.antt =====
-- The request line and the headers, as `push` of the framer of HTTP requests reads them.
use luadch.Common.{
  ℕ, suc, ◌+◌, ◌*◌, ◌-◌, Bool, true, false, not, ◌&&◌, ◌||◌, List, [], ◌∷◌, ◌++◌, Option, none,
  some, ltb, ◌==◌, if◌then◌else◌, length, take, drop, map,
}
use luadch.Http.{
  Bytes, Request, max_line, max_target, max_hdrs, max_hdr_line, max_body, equal, starts_with, find,
  is_some, crlf, dot_dot, is_control, is_upper, is_space, is_digit, is_blank, is_name_byte,
  any_byte, all_bytes, span, is_version,
}

-- A value, or the status of a rejection.
pub data Result (A : Type 0) : Type 0 where
  rejected : ℕ → Result A
  accepted : A → Result A

infixl 5 ◌>>=◌
abbrev pub ◌>>=◌ : {A B : Type 0} → Result A → (A → Result B) → Result B
rejected status >>= f = rejected status
accepted a >>= f = f a

-- `if bad then return emit{ reject = status } end`
unfoldable pub guard : Bool → ℕ → Result Unit
guard bad status = if bad then rejected status else accepted tt

abbrev pub empty : Bytes → Bool
empty [] = true
empty (b ∷ s) = false

-- `string_match( requestline, "^(%u+) (%S+) (HTTP/%d%.%d)$" )`
abbrev behind_space : Bytes → Option Bytes
behind_space [] = none
behind_space (b ∷ s) = if b == b' ' then some s else none

unfoldable pub match_target : Bytes → Bytes → Option (Bytes × Bytes × Bytes)
match_target method s =
    let (target, rest) = span (λ b. not (is_space b)) s in
    if empty target then none else elim (behind_space rest) [
      | none ↦ none
      | some version ↦ if is_version version then some (method, target, version) else none
    ]

unfoldable pub match_request_line : Bytes → Option (Bytes × Bytes × Bytes)
match_request_line line =
    let (method, rest) = span is_upper line in
    if empty method
    then none
    else elim (behind_space rest) [ none ↦ none | some s ↦ match_target method s ]

-- `string_gmatch( s, "(.-)\r\n" )`
abbrev on_first : ℕ → List Bytes → List Bytes
on_first b [] = []
on_first b (l ∷ ls) = (b ∷ l) ∷ ls

unfoldable pub crlf_lines : Bytes → List Bytes
crlf_lines [] = []
crlf_lines (b ∷ []) = []
crlf_lines (b ∷ (c ∷ s)) =
    let behind = crlf_lines s in
    let rest = crlf_lines (c ∷ s) in
    if (b == b'\r') && (c == b'\n') then [] ∷ behind else on_first b rest

-- `(.-)[ \t]*$`
unfoldable pub without_blanks : Bytes → Bytes
without_blanks [] = []
without_blanks (b ∷ s) =
    let rest = without_blanks s in if is_blank b && empty rest then [] else b ∷ rest

-- `string_match( line, "^([^:%c ]+):[ \t]*(.-)[ \t]*$" )`
unfoldable pub behind_colon : Bytes → Bytes → Option (Bytes × Bytes)
behind_colon name [] = none
behind_colon name (b ∷ s) =
    if b == b':' then some (name, without_blanks (span is_blank s).1) else none

unfoldable pub match_header : Bytes → Option (Bytes × Bytes)
match_header line =
    let (name, rest) = span is_name_byte line in if empty name then none else behind_colon name rest

-- `string_lower( s )`
unfoldable pub lower : Bytes → Bytes
lower s = map (λ b. if is_upper b then b + 32 else b) s

-- `headers[ name ] = value`, and `headers[ name ]`.
unfoldable pub set_header : List (Bytes × Bytes) → Bytes → Bytes → List (Bytes × Bytes)
set_header [] name value = (name, value) ∷ []
set_header ((n, v) ∷ headers) name value =
    if equal n name then (n, value) ∷ headers else (n, v) ∷ set_header headers name value

unfoldable pub get_header : List (Bytes × Bytes) → Bytes → Option Bytes
get_header [] name = none
get_header ((n, v) ∷ headers) name = if equal n name then some v else get_header headers name

abbrev pub content_length : Bytes
content_length =
    b'c' ∷ b'o' ∷ b'n' ∷ b't' ∷ b'e' ∷ b'n' ∷ b't' ∷ b'-' ∷ b'l' ∷ b'e' ∷ b'n' ∷ b'g' ∷ b't' ∷ b'h'
    ∷ []

abbrev pub transfer_encoding : Bytes
transfer_encoding =
    b't' ∷ b'r' ∷ b'a' ∷ b'n' ∷ b's' ∷ b'f' ∷ b'e' ∷ b'r' ∷ b'-' ∷ b'e' ∷ b'n' ∷ b'c' ∷ b'o' ∷ b'd'
    ∷ b'i' ∷ b'n' ∷ b'g' ∷ []

-- The variables of the loop over the header lines.
pub record Headers : Type 0 where
  pub headers : List (Bytes × Bytes)
  pub count : ℕ
  pub cl_count : ℕ
  pub te_seen : Bool

-- The end of the loop's body, with the name in lower case.
unfoldable pub add_header : Headers → Bytes → Bytes → Headers
add_header h name value = record h {
  headers = set_header h.headers name value;
  count = suc h.count;
  cl_count = if equal name content_length then suc h.cl_count else h.cl_count;
  te_seen =
      if equal name content_length
      then h.te_seen
      else (if equal name transfer_encoding then true else h.te_seen);
}

-- The loop's body on a line that is not empty.
abbrev pub named : Headers → Option (Bytes × Bytes) → Result Headers
named h none = rejected 400
named h (some (name, value)) =
    guard (any_byte is_control value) 400 >>= λ u. accepted (add_header h (lower name) value)

unfoldable pub header_line : Headers → Bytes → Result Headers
header_line h [] = accepted h
header_line h (b ∷ line) = guard (ltb max_hdrs (suc h.count)) 431 >>= λ u.
    guard (ltb max_hdr_line (length (b ∷ line))) 431 >>= λ u'. named h (match_header (b ∷ line))

unfoldable pub header_lines : Headers → List Bytes → Result Headers
header_lines h [] = accepted h
header_lines h (line ∷ lines) = header_line h line >>= λ h'. header_lines h' lines

-- `tonumber( s )` of digits.
unfoldable pub number : ℕ → Bytes → ℕ
number n [] = n
number n (b ∷ s) = number (n * 10 + (b - b'0')) s

-- `cl_num`, where `string_match( cl_str, "^%d+$" )` holds.
abbrev pub declared : Option Bytes → Result ℕ
declared none = accepted 0
declared (some s) = guard (empty s || not (all_bytes is_digit s)) 400 >>= λ u. accepted (number 0 s)

-- `method ~= "POST" and method ~= "PUT" and method ~= "PATCH" and method ~= "DELETE"`
abbrev pub takes_body : Bytes → Bool
takes_body method =
    equal method (b'P' ∷ b'O' ∷ b'S' ∷ b'T' ∷ [])
    || (equal method (b'P' ∷ b'U' ∷ b'T' ∷ [])
        || (equal method (b'P' ∷ b'A' ∷ b'T' ∷ b'C' ∷ b'H' ∷ [])
            || equal method (b'D' ∷ b'E' ∷ b'L' ∷ b'E' ∷ b'T' ∷ b'E' ∷ [])))

abbrev pub http_1_0 : Bytes
http_1_0 = b'H' ∷ b'T' ∷ b'T' ∷ b'P' ∷ b'/' ∷ b'1' ∷ b'.' ∷ b'0' ∷ []

abbrev pub http_1_1 : Bytes
http_1_1 = b'H' ∷ b'T' ∷ b'T' ∷ b'P' ∷ b'/' ∷ b'1' ∷ b'.' ∷ b'1' ∷ []

-- The request line's part of `push`.
abbrev pub matched : Option (Bytes × Bytes × Bytes) → Result (Bytes × Bytes × Bytes)
matched none = rejected 400
matched (some (method, target, version)) =
    guard (not (equal version http_1_0) && not (equal version http_1_1)) 505 >>= λ u.
    guard (ltb max_target (length target)) 414 >>= λ u.
    guard (not (starts_with (b'/' ∷ []) target)) 400 >>= λ u.
    guard (is_some (find dot_dot target)) 400 >>= λ u. accepted (method, target, version)

unfoldable pub request_line : Bytes → Result (Bytes × Bytes × Bytes)
request_line line = guard (ltb max_line (length line)) 414 >>= λ u.
    guard (any_byte is_control line) 400 >>= λ u. matched (match_request_line line)

-- The part behind the loop over the headers: the request with no body yet, and `cl_num`.
unfoldable pub framed_by : Bytes × Bytes × Bytes → Headers → Result (Request × ℕ)
framed_by (method, target, version) h = guard h.te_seen 400 >>= λ u.
    guard (ltb 1 h.cl_count) 400 >>= λ u.
    declared (get_header h.headers content_length) >>= λ cl_num.
    guard (ltb 0 cl_num && not (takes_body method)) 400 >>= λ u.
    guard (ltb max_body cl_num) 413 >>= λ u. accepted (
      record {
        method = method;
        target = target;
        version = version;
        headers = h.headers;
        body = [];
      },
      cl_num,
    )

-- The request line and the rest of the head.
abbrev pub split_head : Bytes → Option ℕ → Bytes × Bytes
split_head head none = (head, [])
split_head head (some rlend) = (take rlend head, drop (suc (suc rlend)) head)

-- `string_gmatch( rest .. "\r\n", ... )`, where there is a rest.
abbrev pub header_part : Bytes → List Bytes
header_part [] = []
header_part (b ∷ rest) = crlf_lines ((b ∷ rest) ++ crlf)

unfoldable pub parse_head : Bytes → Result (Request × ℕ)
parse_head head =
    let (line, rest) = split_head head (find crlf head) in
    request_line line >>= λ parts.
    header_lines (record { headers = []; count = 0; cl_count = 0; te_seen = false })
      (header_part rest)
    >>= λ h. framed_by parts h
