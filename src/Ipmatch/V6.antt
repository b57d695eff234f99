-- ===== src/Ipmatch/V6.antt =====
-- `_parse_ipv6` of core/ipmatch.lua.
use luadch.Common.{
  ℕ, ◌+◌, ◌-◌, ◌*◌, ◌/◌, ◌%◌, Bool, true, false, not, ◌&&◌, ◌||◌, List, [], ◌∷◌, ◌++◌, Option, none,
  some, ltb, leb, ◌==◌, if◌then◌else◌, length, replicate,
}
use luadch.Ipmatch.V4.{V4, parsed, not_dotted_quad, octet_too_large, leading_zero, parse_ipv4}

pub data Fault : Type 0 where
  whitespace dot_no_colon multiple_dcolon malformed_colon bad_hex_group too_many_groups : Fault
  group_out_of_range empty_input : Fault
  needs_groups internal_length : ℕ → Fault
  bad_v4 : V4 → Fault

-- The bytes, or `nil` with a message.
pub data V6 : Type 0 where
  parsed6 : List ℕ → V6
  refused : Fault → V6

-- `%s`
abbrev pub is_space : ℕ → Bool
is_space c = (leb 9 c && leb c 13) || (c == b' ')

abbrev pub has_space : List ℕ → Bool
has_space [] = false
has_space (c ∷ s) = is_space c || has_space s

abbrev pub cons_first : ℕ → Option (List ℕ × List ℕ) → Option (List ℕ × List ℕ)
cons_first c none = none
cons_first c (some (a, b)) = some (c ∷ a, b)

-- What stands before the first dot, and the rest from the dot on.
unfoldable pub at_dot : List ℕ → Option (List ℕ × List ℕ)
at_dot [] = none
at_dot (c ∷ s) = let rest = cons_first c (at_dot s) in if c == b'.' then some ([], c ∷ s) else rest

-- What stands before and behind the last colon.
unfoldable pub at_last_colon : List ℕ → Option (List ℕ × List ℕ)
at_last_colon [] = none
at_last_colon (c ∷ s) = elim (at_last_colon s) [
  | some p ↦ cons_first c (some p)
  | none ↦ if c == b':' then some ([], s) else none
]

-- What stands before and behind the first "::".
unfoldable pub at_dcolon : List ℕ → Option (List ℕ × List ℕ)
at_dcolon [] = none
at_dcolon (c ∷ []) = none
at_dcolon (c ∷ d ∷ s) =
    let rest = cons_first c (at_dcolon (d ∷ s)) in
    if (c == b':') && (d == b':') then some ([], s) else rest

abbrev pub emit : List ℕ → List (List ℕ) → List (List ℕ)
emit [] rest = rest
emit (c ∷ r) rest = (c ∷ r) ∷ rest

-- `string_gmatch( part, "([^:]+)" )`, with the run that is being read.
unfoldable pub runs : List ℕ → List ℕ → List (List ℕ)
runs run [] = emit run []
runs run (c ∷ s) =
    let next = runs [] s in
    let on = runs (run ++ (c ∷ [])) s in if c == b':' then emit run next else on

abbrev pub last_is_colon : List ℕ → Bool
last_is_colon [] = false
last_is_colon (c ∷ []) = c == b':'
last_is_colon (c ∷ d ∷ s) = last_is_colon (d ∷ s)

abbrev pub first_is_colon : List ℕ → Bool
first_is_colon [] = false
first_is_colon (c ∷ s) = c == b':'

unfoldable pub split_groups : List ℕ → Option (List (List ℕ))
split_groups part = if first_is_colon part || last_is_colon part then none else some (runs [] part)

-- The value of a digit, 16 for another byte.
abbrev pub hex_value : ℕ → ℕ
hex_value c =
    if leb b'0' c && leb c b'9'
    then c - b'0'
    else if leb b'a' c && leb c b'f'
    then c - b'a' + 10
    else if leb b'A' c && leb c b'F'
    then c - b'A' + 10
    else 16

abbrev pub all_hex : List ℕ → Bool
all_hex [] = true
all_hex (c ∷ s) = ltb (hex_value c) 16 && all_hex s

abbrev pub check_groups : List (List ℕ) → Bool
check_groups [] = true
check_groups (g ∷ gs) = (leb 1 (length g) && (leb (length g) 4 && all_hex g)) && check_groups gs

-- `tonumber( h, 16 )`
abbrev pub hex_number : ℕ → List ℕ → ℕ
hex_number n [] = n
hex_number n (c ∷ s) = hex_number (n * 16 + hex_value c) s

unfoldable pub hex16_to_bytes : List ℕ → Option (List ℕ)
hex16_to_bytes h =
    let n = hex_number 0 h in if ltb 0xffff n then none else some ((n / 256 % 256) ∷ (n % 256) ∷ [])

unfoldable pub materialise : List (List ℕ) → Option (List ℕ)
materialise [] = some []
materialise (g ∷ gs) = elim (hex16_to_bytes g) [
  | none ↦ none
  | some two ↦ elim (materialise gs) [ none ↦ none | some rest ↦ some (two ++ rest) ]
]

-- `table_concat( out )` and the test of its length.
abbrev pub concat_parts : Option (List ℕ) → List ℕ → Option (List ℕ) → List ℕ → V6
concat_parts (some left) zeros (some right) v4bytes =
    let bytes = left ++ (zeros ++ (right ++ v4bytes)) in
    if length bytes == 16 then parsed6 bytes else refused (internal_length (length bytes))
concat_parts _ zeros _ v4bytes = refused group_out_of_range

abbrev pub groups_or_empty : Option (List (List ℕ)) → List (List ℕ)
groups_or_empty none = []
groups_or_empty (some gs) = gs

-- Behind the tests of the groups; `right` is there behind a "::", and the bytes of an IPv4 suffix make
-- two groups.
unfoldable pub finish : List (List ℕ) → Option (List (List ℕ)) → List ℕ → V6
finish left right v4bytes =
    let total = length left + length (groups_or_empty right) + length v4bytes / 2 in
    let out = λ (zeros : ℕ).
      concat_parts (materialise left) (replicate (2 * zeros) 0)
        (materialise (groups_or_empty right)) v4bytes in
    elim right [
      | some gs ↦ if ltb 8 total then refused too_many_groups else out (8 - total)
      | none ↦ if not (total == 8) then refused (needs_groups total) else out 0
    ]

-- The IPv4 suffix.
abbrev pub with_v4 : Option (List ℕ) → (List ℕ → V6) → V6
with_v4 none next = next []
with_v4 (some suffix) next = elim (parse_ipv4 suffix) [
  | parsed b ↦ next b
  | not_dotted_quad ↦ refused (bad_v4 not_dotted_quad)
  | octet_too_large ↦ refused (bad_v4 octet_too_large)
  | leading_zero o ↦ refused (bad_v4 (leading_zero o))
]

abbrev pub checked : Option (List (List ℕ)) → Option (List (List ℕ)) → Option (List ℕ) → Bool → V6
checked none right suffix dcolon = refused malformed_colon
checked (some left) none suffix true = refused malformed_colon
checked (some left) (some right) suffix true =
    if not (check_groups left)
    then refused bad_hex_group
    else if not (check_groups right)
    then refused bad_hex_group
    else with_v4 suffix (finish left (some right))
checked (some left) right suffix false =
    if not (check_groups left) then refused bad_hex_group else with_v4 suffix (finish left none)

-- Without the IPv4 suffix and the colon before it.
unfoldable pub parse_groups : List ℕ → Option (List ℕ) → V6
parse_groups s suffix = elim (at_dcolon s) [
  | none ↦ checked (split_groups s) none suffix false
  | some (l, r) ↦ elim (at_dcolon r) [
    | none ↦ checked (split_groups l) (split_groups r) suffix true
    | some p ↦ refused multiple_dcolon
  ]
]

abbrev pub behind_dot : List ℕ → Option (List ℕ × List ℕ) → V6
behind_dot rest none = refused dot_no_colon
behind_dot rest (some (front, back)) = parse_groups front (some (back ++ rest))

unfoldable pub parse_ipv6 : List ℕ → V6
parse_ipv6 s = if has_space s then refused whitespace else elim (at_dot s) [
  | none ↦ parse_groups s none
  | some (front, rest) ↦ behind_dot rest (at_last_colon front)
]
