-- ===== src/Bloom.antt =====
-- core/bloom.lua: the filter that `newfilter` makes, and its `contains`. A Lua string is the list of
-- its bytes; a Lua error, such as a modulo by 0 or an operation on `nil`, gives `none`. An integer of Lua
-- is its 64 bits.
pub mod Inserted
mod Tests
use luadch.Common.{
  ℕ, zero, suc, ◌+◌, ◌-◌, ◌*◌, ◌/◌, ◌%◌, ◌^◌, Bool, true, false, not, List, [], ◌∷◌, Option, none,
  some, ◌==◌, if◌then◌else◌, length, get_elem?, bit_and, bit_or, ◌>>=◌, u64, ltb,
}

-- The loop that reads a slice, from `j` on with `left` rounds to go.
unfoldable pub read_slice : List ℕ → ℕ → ℕ → ℕ → ℕ → Option ℕ
read_slice tth offset j zero pos = some pos
read_slice tth offset j (suc left) pos =
    let rest = λ (b : ℕ). read_slice tth offset (j + 1) left (bit_or pos (u64 (b * 2 ^ (8 * j)))) in
    get_elem? tth (offset + j) >>= rest

-- The test of the bit `pos` of the filter.
abbrev pub bit_set : Option ℕ → ℕ → Bool
bit_set none pos = false
bit_set (some b_byte) pos = not (bit_and b_byte (2 ^ (pos % 8)) == 0)

abbrev pub tests_bit : List ℕ → ℕ → Bool
tests_bit bytes pos = bit_set (get_elem? bytes (pos / 8)) pos

-- `pos % m`, which rounds down: the upper half of the 64 bits is negative.
abbrev pub floor_mod : ℕ → ℕ → ℕ
floor_mod pos m = if ltb pos (2 ^ 63) then pos % m else (m - (2 ^ 64 - pos) % m) % m

abbrev pub reduce : ℕ → ℕ → Option ℕ
reduce m pos = if m == 0 then none else some (floor_mod pos m)

-- The loop over the slices, from `i` on with `left` rounds to go.
unfoldable pub contains_loop : List ℕ → ℕ → ℕ → List ℕ → ℕ → ℕ → Option Bool
contains_loop bytes per_slice m tth i zero = some true
contains_loop bytes per_slice m tth i (suc left) =
    let rest = contains_loop bytes per_slice m tth (i + 1) left in
    read_slice tth (i * per_slice) 0 per_slice 0
    >>= (λ slice. reduce m slice >>= (λ pos. if tests_bit bytes pos then rest else some false))

-- `newfilter( bytes, k, h, m )`, and `contains` of the filter.
pub record Filter : Type 0 where
  pub bytes : List ℕ
  pub k : ℕ
  pub h : ℕ
  pub m : ℕ

unfoldable pub contains : Filter → List ℕ → Option Bool
contains f tth =
    if not (length tth == 24) then some false else contains_loop f.bytes (f.h / 8) f.m tth 0 f.k
