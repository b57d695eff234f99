-- ===== src/Ipmatch/Cidr.antt =====
-- `parse_cidr` of core/ipmatch.lua. `tonumber` is a parameter: `none` for `nil`, and whether a number is
-- whole.
use luadch.Common.{
  ℕ, zero, suc, ◌/◌, ◌%◌, not, List, [], ◌∷◌, Option, none, some, ltb, ◌==◌, if◌then◌else◌, bit_and,
}
use luadch.Common.Ints.{ℤ, pos}
use luadch.Ipmatch.{same_bytes, tail_mask}
use luadch.Ipmatch.Address.{Ip, ip4, ip6, failed4, failed6, parse_ip}

pub data Num : Type 0 where
  whole : ℤ → Num
  fraction : Num

-- The network with its prefix, or `nil` with a message.
pub data Cidr : Type 0 where
  network : List ℕ → ℕ → Cidr
  empty_cidr not_a_prefix host_bits_set : Cidr
  prefix_too_long : ℕ → Cidr
  bad_ip : Ip → Cidr

abbrev pub cons_front : ℕ → List ℕ × Option (List ℕ) → List ℕ × Option (List ℕ)
cons_front c (a, b) = (c ∷ a, b)

-- What stands before the first slash, and behind it.
unfoldable pub at_slash : List ℕ → List ℕ × Option (List ℕ)
at_slash [] = ([], none)
at_slash (c ∷ s) = let rest = cons_front c (at_slash s) in if c == b'/' then ([], some s) else rest

-- The loop over the bytes, for the full bytes that are left and the bits behind them.
unfoldable pub mask_bytes : ℕ → ℕ → List ℕ → List ℕ
mask_bytes full tail_bits [] = []
mask_bytes (suc full) tail_bits (b ∷ bs) = b ∷ mask_bytes full tail_bits bs
mask_bytes zero tail_bits (b ∷ bs) =
    (if ltb 0 tail_bits then bit_and b (tail_mask tail_bits) else 0) ∷ mask_bytes zero 0 bs

abbrev pub check_network : List ℕ → ℕ → Cidr
check_network bytes prefix =
    let network_bytes = mask_bytes (prefix / 8) (prefix % 8) bytes in
    if not (same_bytes network_bytes bytes) then host_bits_set else network network_bytes prefix

-- The prefix of a single address is the largest one.
abbrev pub with_prefix : List ℕ → ℕ → Option ℕ → Cidr
with_prefix bytes max_prefix none = check_network bytes max_prefix
with_prefix bytes max_prefix (some prefix) =
    if ltb max_prefix prefix then prefix_too_long prefix else check_network bytes prefix

abbrev pub of_ip : Ip → Option ℕ → Cidr
of_ip (ip4 b) prefix = with_prefix b 32 prefix
of_ip (ip6 b) prefix = with_prefix b 128 prefix
of_ip (failed4 v) prefix = bad_ip (failed4 v)
of_ip (failed6 f) prefix = bad_ip (failed6 f)

abbrev pub with_number : List ℕ → Option Num → Cidr
with_number ip_part (some (whole (pos n))) = of_ip (parse_ip ip_part) (some n)
with_number ip_part _ = not_a_prefix

abbrev pub with_slash : (List ℕ → Option Num) → List ℕ × Option (List ℕ) → Cidr
with_slash tonumber (ip_part, none) = of_ip (parse_ip ip_part) none
with_slash tonumber (ip_part, some digits) = with_number ip_part (tonumber digits)

unfoldable pub parse_cidr : (List ℕ → Option Num) → List ℕ → Cidr
parse_cidr tonumber [] = empty_cidr
parse_cidr tonumber (c ∷ s) = with_slash tonumber (at_slash (c ∷ s))
