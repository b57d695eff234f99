-- ===== src/Ipmatch/TextTests.antt =====
-- The texts of addresses of IPv6.
use luadch.Common.{ℕ, List, [], ◌∷◌, some, ◌≡◌, refl}
use luadch.Hub.Pid.{digits}
use luadch.Ipmatch.V6.{
  at_dot, at_dcolon, runs, split_groups, hex16_to_bytes, materialise, finish, parse_groups,
  parse_ipv6,
}
use luadch.Ipmatch.Address.{parse_ip}
use luadch.Ipmatch.Text.{
  format_x, groups_of, zero_step, zero_run, join_groups, compressed, compress, v6_normalize,
  normalize,
}
use luadch.Ipmatch.Canonical.{normalize-parse_ip}

-- "2001:0DB8:0:0:1:0:0:1", where the first of the two runs is left out.
abbrev long_text : List ℕ
long_text =
    b'2' ∷ b'0' ∷ b'0' ∷ b'1' ∷ b':' ∷ b'0' ∷ b'D' ∷ b'B' ∷ b'8' ∷ b':' ∷ b'0' ∷ b':' ∷ b'0' ∷ b':'
    ∷ b'1' ∷ b':' ∷ b'0' ∷ b':' ∷ b'0' ∷ b':' ∷ b'1' ∷ []

abbrev short_text : List ℕ
short_text =
    b'2' ∷ b'0' ∷ b'0' ∷ b'1' ∷ b':' ∷ b'd' ∷ b'b' ∷ b'8' ∷ b':' ∷ b':' ∷ b'1' ∷ b':' ∷ b'0' ∷ b':'
    ∷ b'0' ∷ b':' ∷ b'1' ∷ []

shortens : normalize long_text ≡ some short_text
unfolding normalize parse_ip parse_ipv6 parse_groups at_dot at_dcolon split_groups runs finish
    materialise hex16_to_bytes v6_normalize compress compressed zero_run zero_step join_groups
    groups_of format_x
shortens = refl

-- The mapped form keeps its four bytes: "::FFFF:C000:201".
abbrev mapped_text : List ℕ
mapped_text =
    b':' ∷ b':' ∷ b'F' ∷ b'F' ∷ b'F' ∷ b'F' ∷ b':' ∷ b'C' ∷ b'0' ∷ b'0' ∷ b'0' ∷ b':' ∷ b'2' ∷ b'0'
    ∷ b'1' ∷ []

abbrev dotted_text : List ℕ
dotted_text =
    b':' ∷ b':' ∷ b'f' ∷ b'f' ∷ b'f' ∷ b'f' ∷ b':' ∷ b'1' ∷ b'9' ∷ b'2' ∷ b'.' ∷ b'0' ∷ b'.' ∷ b'2'
    ∷ b'.' ∷ b'1' ∷ []

maps : normalize mapped_text ≡ some dotted_text
unfolding normalize parse_ip parse_ipv6 parse_groups at_dot at_dcolon split_groups runs finish
    materialise hex16_to_bytes v6_normalize digits
maps = refl

normalize-parse_ip_example :
    (parse_ip short_text ≡ parse_ip long_text) × (normalize short_text ≡ some short_text)
normalize-parse_ip_example = normalize-parse_ip long_text short_text shortens
