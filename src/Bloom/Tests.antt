-- ===== src/Bloom/Tests.antt =====
-- Filters with one bit, and the theorem at a concrete input.
use luadch.Common.{
  ℕ, Bool, true, false, List, [], ◌∷◌, ◌++◌, some, replicate, ◌≡◌, refl, ◌↔◌, arith, All,
}
use luadch.Bloom.{Filter, contains, contains_loop, read_slice}
use luadch.Bloom.Inserted.{positions, bit_at, contains_iff}

-- The first slice of two bytes is 5, the second 0.
abbrev tth : List ℕ
tth = 5 ∷ replicate 23 0

abbrev filter : Filter
filter = record { bytes = 0x21 ∷ replicate 7 0; k = 2; h = 16; m = 64 }

abbrev other : Filter
other = record { bytes = 0x20 ∷ replicate 7 0; k = 2; h = 16; m = 64 }

found : (contains filter tth ≡ some true) × (contains other tth ≡ some false)
unfolding contains contains_loop read_slice
found = (refl, refl)

contains_iff_example :
    (b : Bool) × (contains filter tth ≡ some b)
    × ((b ≡ true) ↔ All (λ pos. bit_at filter.bytes pos ≡ 1) (positions 2 64 tth 0 2))
contains_iff_example =
    contains_iff filter tth 2 refl (omega arith) (omega arith) (omega arith) (ground arith)
      (ground arith) refl

-- A slice of 64 bits with its top bit set: the extension's position is 128, of 192, and its bit is set,
-- but the remainder of the negative number is 64.
abbrev top : List ℕ
top = replicate 7 0 ++ (0x80 ∷ replicate 16 0)

abbrev wide : Filter
wide = record { bytes = replicate 16 0 ++ (1 ∷ replicate 7 0); k = 1; h = 64; m = 192 }

false_negative :
    (positions 8 192 top 0 1 ≡ 128 ∷ [])
    × (bit_at wide.bytes 128 ≡ 1)
    × (contains wide top ≡ some false)
unfolding contains contains_loop read_slice
false_negative = (refl, refl, refl)
