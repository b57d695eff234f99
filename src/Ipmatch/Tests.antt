-- ===== src/Ipmatch/Tests.antt =====
-- Addresses, and the theorems at concrete inputs.
use luadch.Common.{
  ℕ, Bool, true, false, List, [], ◌∷◌, ◌++◌, some, Option, replicate, take, drop, length, ◌⊎◌, ◌≡◌,
  refl, ◌↔◌, arith, All, IsByte,
}
use luadch.Ipmatch.{match_bytes, same_bytes}
use luadch.Hub.Pid.{number}
use luadch.Common.Ints.{pos}
use luadch.Ipmatch.Cidr.{Num, whole, Cidr, host_bits_set, at_slash, mask_bytes, parse_cidr}
use luadch.Ipmatch.Network.{match_bytes-parse_cidr}
use luadch.Ipmatch.Bits.{bits}
use luadch.Ipmatch.V4.{
  parsed, leading_zero, octet_too_large, not_dotted_quad, split_dots, parse_ipv4, format_v4,
}
use luadch.Ipmatch.RoundTrip.{parse_ipv4_iff}
use luadch.Ipmatch.V6.{
  malformed_colon, runs, at_dot, at_last_colon, at_dcolon, split_groups, hex16_to_bytes,
  materialise, finish, parse_groups, parse_ipv6,
}
use luadch.Ipmatch.Address.{ip6, failed6, parse_ip, IsSized, parse_ip-IsSized}

abbrev host : List ℕ
host = 10 ∷ 1 ∷ 130 ∷ 7 ∷ []

abbrev network : List ℕ
network = 10 ∷ 1 ∷ 128 ∷ 0 ∷ []

matches : (match_bytes host network 17 ≡ some true) × (match_bytes host network 23 ≡ some false)
unfolding match_bytes same_bytes
matches = (refl, refl)

-- "10.1.130.7"
abbrev text : List ℕ
text = b'1' ∷ b'0' ∷ b'.' ∷ b'1' ∷ b'.' ∷ b'1' ∷ b'3' ∷ b'0' ∷ b'.' ∷ b'7' ∷ []

parses :
    (parse_ipv4 text ≡ parsed host)
    × (parse_ipv4 (b'0' ∷ text) ≡ leading_zero (b'0' ∷ b'1' ∷ b'0' ∷ []))
    × (parse_ipv4 (text ++ text) ≡ not_dotted_quad)
    × (parse_ipv4 (text ++ (b'7' ∷ b'7' ∷ [])) ≡ octet_too_large)
unfolding parse_ipv4 split_dots
parses = (refl, refl, refl, refl)

parse_ipv4_iff_example :
    (parse_ipv4 text ≡ parsed host) ↔ (All IsByte host × (format_v4 host ≡ some text))
parse_ipv4_iff_example = parse_ipv4_iff text host

-- "[::ffff:1.2.3.4]", and "::1.2.3.4", which is a valid address too.
abbrev quad : List ℕ
quad = b'1' ∷ b'.' ∷ b'2' ∷ b'.' ∷ b'3' ∷ b'.' ∷ b'4' ∷ []

abbrev mapped : List ℕ
mapped = b'[' ∷ b':' ∷ b':' ∷ b'f' ∷ b'f' ∷ b'f' ∷ b'f' ∷ b':' ∷ (quad ++ (b']' ∷ []))

parses_v6 :
    (parse_ip mapped ≡ ip6 (replicate 10 0 ++ (255 ∷ 255 ∷ 1 ∷ 2 ∷ 3 ∷ 4 ∷ [])))
    × (parse_ip (b':' ∷ b':' ∷ quad) ≡ failed6 malformed_colon)
unfolding parse_ip parse_ipv6 parse_groups finish materialise hex16_to_bytes split_groups at_dcolon
    at_last_colon at_dot runs parse_ipv4 split_dots
parses_v6 = (refl, refl)

parse_ip-IsSized_example : IsSized (parse_ip mapped)
parse_ip-IsSized_example = parse_ip-IsSized mapped

-- What `tonumber` makes of digits.
abbrev decimal : List ℕ → Option Num
decimal s = some (whole (pos (number 0 s)))

-- "10.1.128.0/17", and "10.1.130.7/17" with bits behind its prefix.
abbrev slash_17 : List ℕ
slash_17 = b'/' ∷ b'1' ∷ b'7' ∷ []

abbrev cidr : List ℕ
cidr = b'1' ∷ b'0' ∷ b'.' ∷ b'1' ∷ b'.' ∷ b'1' ∷ b'2' ∷ b'8' ∷ b'.' ∷ b'0' ∷ slash_17

parse_cidr-cidr : parse_cidr decimal cidr ≡ Cidr.network network 17
unfolding parse_cidr at_slash mask_bytes same_bytes parse_ip parse_ipv4 split_dots
parse_cidr-cidr = refl

host_bits_refused : parse_cidr decimal (text ++ slash_17) ≡ host_bits_set
unfolding parse_cidr at_slash mask_bytes same_bytes parse_ip parse_ipv4 split_dots
host_bits_refused = refl

match_bytes-parse_cidr_example :
    ((length network ≡ 4) ⊎ (length network ≡ 16))
    × All (λ d. d ≡ 0) (drop 17 (bits network))
    × (b : Bool) × (match_bytes host network 17 ≡ some b)
    × ((b ≡ true) ↔ (take 17 (bits host) ≡ take 17 (bits network)))
match_bytes-parse_cidr_example =
    match_bytes-parse_cidr decimal cidr network host 17 parse_cidr-cidr (ground arith) refl
