-- ===== src/Ipmatch.antt =====
-- core/ipmatch.lua: `match`; its children are the parsers and the texts of addresses. A Lua string is
-- the list of its bytes; a Lua error gives `none`.
pub mod Prefix
pub mod Bits
pub mod V4
pub mod V6
pub mod Sizes
pub mod Address
pub mod Cidr
pub mod Network
pub mod Octets
pub mod RoundTrip
pub mod Text
pub mod Groups
pub mod Joined
pub mod ZeroRuns
pub mod Normal
pub mod Compressed
pub mod Mapped
pub mod Canonical
mod Tests
mod TextTests
use luadch.Common.{
  ℕ, ◌+◌, ◌-◌, ◌*◌, ◌/◌, ◌%◌, ◌^◌, Bool, true, false, not, ◌&&◌, ◌||◌, List, [], ◌∷◌, ◌++◌, Option,
  none, some, ltb, leb, ◌==◌, if◌then◌else◌, length, get_elem?, take, bit_and,
}

-- `==` on two strings.
unfoldable pub same_bytes : List ℕ → List ℕ → Bool
same_bytes [] [] = true
same_bytes [] (y ∷ ys) = false
same_bytes (x ∷ xs) [] = false
same_bytes (x ∷ xs) (y ∷ ys) = (x == y) && same_bytes xs ys

-- `(0xff << (8 - tail_bits)) & 0xff`
abbrev pub tail_mask : ℕ → ℕ
tail_mask tail_bits = bit_and (255 * 2 ^ (8 - tail_bits)) 255

-- The test of the last byte; `nil & m` is an error.
abbrev pub tail_matches : ℕ → Option ℕ → Option ℕ → Option Bool
tail_matches m (some x) (some y) = some (bit_and x m == bit_and y m)
tail_matches m _ _ = none

unfoldable pub match_bytes : List ℕ → List ℕ → ℕ → Option Bool
match_bytes ip_bytes network_bytes prefix_len =
    let full_bytes = prefix_len / 8 in
    let tail_bits = prefix_len % 8 in
    if not (length ip_bytes == length network_bytes)
    then some false
    else if prefix_len == 0
    then some true
    else if not (same_bytes (take full_bytes ip_bytes) (take full_bytes network_bytes))
    then some false
    else if ltb 0 tail_bits
    then tail_matches (tail_mask tail_bits) (get_elem? ip_bytes full_bytes)
        (get_elem? network_bytes full_bytes)
    else some true
