-- ===== src/Ipmatch/V4.antt =====
-- `_parse_ipv4`, and `format_bytes` for the family 4.
use luadch.Common.{
  ℕ, Bool, true, false, ◌&&◌, ◌||◌, List, [], ◌∷◌, ◌++◌, Option, none, some, ltb, leb, ◌==◌,
  if◌then◌else◌,
}
use luadch.Hub.Pid.{digits, number}

-- The bytes, or an error.
pub data V4 : Type 0 where
  parsed : List ℕ → V4
  not_dotted_quad octet_too_large : V4
  leading_zero : List ℕ → V4

-- A pattern of digits and dots divides its string at the dots.
abbrev pub on_first : ℕ → List (List ℕ) → List (List ℕ)
on_first c [] = []
on_first c (p ∷ ps) = (c ∷ p) ∷ ps

unfoldable pub split_dots : List ℕ → List (List ℕ)
split_dots [] = [] ∷ []
split_dots (c ∷ s) = let rest = split_dots s in if c == b'.' then [] ∷ rest else on_first c rest

-- `%d+`
abbrev pub is_digit : ℕ → Bool
is_digit c = leb b'0' c && leb c b'9'

abbrev pub all_digits : List ℕ → Bool
all_digits [] = true
all_digits (c ∷ s) = is_digit c && all_digits s

abbrev pub is_number : List ℕ → Bool
is_number [] = false
is_number (c ∷ s) = all_digits (c ∷ s)

-- `#oct > 1 and string_sub( oct, 1, 1 ) == "0"`
abbrev pub has_leading_zero : List ℕ → Bool
has_leading_zero (c ∷ d ∷ s) = c == b'0'
has_leading_zero _ = false

-- The tests on the four captures.
abbrev pub check_octets : List ℕ → List ℕ → List ℕ → List ℕ → V4
check_octets a b c d =
    if has_leading_zero a
    then leading_zero a
    else if has_leading_zero b
    then leading_zero b
    else if has_leading_zero c
    then leading_zero c
    else if has_leading_zero d
    then leading_zero d
    else if ltb 255 (number 0 a)
        || (ltb 255 (number 0 b) || (ltb 255 (number 0 c) || ltb 255 (number 0 d)))
    then octet_too_large
    else parsed (number 0 a ∷ number 0 b ∷ number 0 c ∷ number 0 d ∷ [])

abbrev pub parse_parts : List (List ℕ) → V4
parse_parts (a ∷ b ∷ c ∷ d ∷ []) =
    if is_number a && (is_number b && (is_number c && is_number d))
    then check_octets a b c d
    else not_dotted_quad
parse_parts _ = not_dotted_quad

unfoldable pub parse_ipv4 : List ℕ → V4
parse_ipv4 s = parse_parts (split_dots s)

-- `string_format( "%d.%d.%d.%d", ... )`
abbrev pub v4_normalize : ℕ → ℕ → ℕ → ℕ → List ℕ
v4_normalize a b c d =
    digits 20 a ++ (b'.' ∷ (digits 20 b ++ (b'.' ∷ (digits 20 c ++ (b'.' ∷ digits 20 d)))))

unfoldable pub format_v4 : List ℕ → Option (List ℕ)
format_v4 (a ∷ b ∷ c ∷ d ∷ []) = some (v4_normalize a b c d)
format_v4 _ = none
