-- ===== src/Ipmatch/Address.antt =====
-- `parse_ip` of core/ipmatch.lua.
use luadch.Common.{
  ℕ, Bool, true, false, ◌&&◌, ◌||◌, List, [], ◌∷◌, ◌==◌, if◌then◌else◌, length, ◌≡◌, refl, All,
  IsByte,
}
use luadch.Ipmatch.V4.{V4, parsed, not_dotted_quad, octet_too_large, leading_zero, parse_ipv4}
use luadch.Ipmatch.V6.{Fault, V6, parsed6, refused, empty_input, parse_ipv6}
use luadch.Ipmatch.Sizes.{is_reachable, IsSized6, parse_ipv6-IsSized6, parsed-size}

-- A family with its bytes, or `nil` with a message.
pub data Ip : Type 0 where
  ip4 ip6 : List ℕ → Ip
  failed4 : V4 → Ip
  failed6 : Fault → Ip

abbrev pub of_v4 : V4 → Ip
of_v4 (parsed b) = ip4 b
of_v4 (leading_zero o) = failed4 (leading_zero o)
of_v4 not_dotted_quad = failed4 not_dotted_quad
of_v4 octet_too_large = failed4 octet_too_large

abbrev pub of_v6 : V6 → Ip
of_v6 (parsed6 b) = ip6 b
of_v6 (refused f) = failed6 f

abbrev pub has_colon : List ℕ → Bool
has_colon [] = false
has_colon (c ∷ s) = (c == b':') || has_colon s

-- `string_sub( s, 2, -2 )` of a string in brackets.
abbrev pub last_or : ℕ → List ℕ → ℕ
last_or d [] = d
last_or d (c ∷ s) = last_or c s

abbrev pub without_last : List ℕ → List ℕ
without_last [] = []
without_last (c ∷ []) = []
without_last (c ∷ d ∷ s) = c ∷ without_last (d ∷ s)

abbrev pub strip_brackets : List ℕ → List ℕ
strip_brackets [] = []
strip_brackets (c ∷ s) = if (c == b'[') && (last_or c s == b']') then without_last s else c ∷ s

abbrev pub parse_stripped : List ℕ → Ip
parse_stripped s = if has_colon s then of_v6 (parse_ipv6 s) else of_v4 (parse_ipv4 s)

unfoldable pub parse_ip : List ℕ → Ip
parse_ip [] = failed6 empty_input
parse_ip (c ∷ s) = parse_stripped (strip_brackets (c ∷ s))

-- The size of the family, or an error that can come up.
abbrev pub IsSized : Ip → Type 0
IsSized (ip4 b) = (length b ≡ 4) × All IsByte b
IsSized (ip6 b) = (length b ≡ 16) × All IsByte b
IsSized (failed4 v) = Unit {0}
IsSized (failed6 f) = is_reachable f ≡ true

of_v6-IsSized : (r : V6) → IsSized6 r → IsSized (of_v6 r)
of_v6-IsSized (parsed6 b) h = h
of_v6-IsSized (refused f) h = h

of_v4-IsSized :
    (r : V4) → ((b : List ℕ) → r ≡ parsed b → (length b ≡ 4) × All IsByte b) → IsSized (of_v4 r)
of_v4-IsSized (parsed b) h = h b refl
of_v4-IsSized not_dotted_quad h = tt
of_v4-IsSized octet_too_large h = tt
of_v4-IsSized (leading_zero o) h = tt

choose-IsSized : (b : Bool) (x y : Ip) → IsSized x → IsSized y → IsSized (if b then x else y)
choose-IsSized true x y h k = h
choose-IsSized false x y h k = k

-- On any string `parse_ip` gives 4 bytes for IPv4 and 16 bytes for IPv6, or an error that is
-- neither the one for a group out of range nor the one for an internal length.
pub parse_ip-IsSized : (s : List ℕ) → IsSized (parse_ip s)
unfolding parse_ip
parse_ip-IsSized [] = refl
parse_ip-IsSized (c ∷ s) =
    let t = strip_brackets (c ∷ s) in
    let six = of_v6-IsSized (parse_ipv6 t) (parse_ipv6-IsSized6 t) in
    let four = of_v4-IsSized (parse_ipv4 t) (parsed-size t) in
    choose-IsSized (has_colon t) _ _ six four
