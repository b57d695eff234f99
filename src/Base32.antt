-- ===== src/Base32.antt =====
-- adclib/base32.cpp: `TOBASE32` and `FROMBASE32`. Buffers are lists of bytes; `unsigned long`
-- counters stay below the buffers' lengths and do not wrap.
pub mod Steps
pub mod Rounds
pub mod Alphabet
pub mod RoundTrip
pub mod Decode
pub mod Letters
mod Tests
use luadch.Common.{
  ℕ, zero, suc, ◌+◌, ◌-◌, ◌*◌, ◌/◌, ◌%◌, ◌^◌, bit_and, bit_or, Bool, true, false, ◌&&◌, List, [],
  ◌∷◌, ◌++◌, Option, none, some, ltb, leb, ◌==◌, if◌then◌else◌, get_or, set, replicate, length, u8,
}

-- `BASE32_alpha`: "A" to "Z", then "2" to "7".
unfoldable pub base32_alpha : List ℕ
base32_alpha =
    0x41 ∷ 0x42 ∷ 0x43 ∷ 0x44 ∷ 0x45 ∷ 0x46 ∷ 0x47 ∷ 0x48 ∷ 0x49 ∷ 0x4a ∷ 0x4b ∷ 0x4c ∷ 0x4d ∷ 0x4e
    ∷ 0x4f ∷ 0x50 ∷ 0x51 ∷ 0x52 ∷ 0x53 ∷ 0x54 ∷ 0x55 ∷ 0x56 ∷ 0x57 ∷ 0x58 ∷ 0x59 ∷ 0x5a ∷ 0x32
    ∷ 0x33 ∷ 0x34 ∷ 0x35 ∷ 0x36 ∷ 0x37 ∷ []

-- The loop of `TOBASE32` at `src[i]`, whose tail is the list; `key` is the number of bits of
-- `src[i]` that are written already. `none` is fuel that ran out.
unfoldable pub to_base32_loop : ℕ → List ℕ → ℕ → List ℕ → Option (List ℕ)
to_base32_loop fuel [] key ret = some ret
to_base32_loop zero (b ∷ src) key ret = none
to_base32_loop (suc fuel) (b ∷ src) key ret = elim (ltb 3 key) [
  | true ↦
      let key' = (key + 5) % 8 in
      let high = u8 (bit_and b (0xff / 2 ^ key) * 2 ^ key') in
      let chr : ℕ = elim src [ [] ↦ high | next ∷ _ ↦ bit_or high (next / 2 ^ (8 - key')) ] in
      to_base32_loop fuel src key' (ret ++ (get_or base32_alpha chr 0 ∷ []))
  | false ↦
      let chr = bit_and (u8 (b / 2 ^ (8 - (key + 5)))) 0x1f in
      let key' = (key + 5) % 8 in
      let rest = if key' == 0 then src else b ∷ src in
      to_base32_loop fuel rest key' (ret ++ (get_or base32_alpha chr 0 ∷ []))
]

-- Each byte takes two rounds at most.
unfoldable pub to_base32 : List ℕ → Option (List ℕ)
to_base32 src = to_base32_loop (2 * length src) src 0 []

values : ℕ → ℕ → List (Option ℕ)
values zero from = []
values (suc n) from = some from ∷ values n (from + 1)

-- `BASE32_table`, with `none` for its -1.
pub base32_table : List (Option ℕ)
unfolding values
base32_table =
    replicate 50 none
    ++ (values 6 26
        ++ (replicate 9 none
            ++ (values 26 0 ++ (replicate 6 none ++ (values 26 0 ++ replicate 133 none)))))

-- What a round of `FROMBASE32` does with a digit: leave the loop with the buffer, or go on with a
-- new `key`, `set` and buffer.
pub data Round : Type 0 where
  leave : List ℕ → Round
  go_on : ℕ → ℕ → List ℕ → Round

-- `buffer[i] |= v`; with `i` behind the end of the list nothing changes.
pub or_into : List ℕ → ℕ → ℕ → List ℕ
or_into buffer i v = set buffer i (u8 (bit_or (get_or buffer i 0) v))

pub put_digit : ℕ → ℕ → ℕ → List ℕ → ℕ → Round
put_digit size key at buffer temp =
    let key' = (key + 5) % 8 in
    if leb key 3
    then if key' == 0
      then if at + 1 == size
        then leave (or_into buffer at temp)
        else go_on key' (at + 1) (or_into buffer at temp)
      else go_on key' at (or_into buffer at (temp * 2 ^ (8 - key')))
    else if at + 1 == size
    then leave (or_into buffer at (temp / 2 ^ key'))
    else go_on key' (at + 1)
        (or_into (or_into buffer at (temp / 2 ^ key')) (at + 1) (temp * 2 ^ (8 - key')))

-- The loop of `FROMBASE32`; a NUL or the end of the string ends it. `at` is the source's `set`.
pub from_base32_loop : List ℕ → ℕ → ℕ → ℕ → List ℕ → List ℕ
from_base32_loop [] size key at buffer = buffer
from_base32_loop (c ∷ src) size key at buffer = elim (c == 0) [
  | true ↦ buffer
  | false ↦ elim (get_or base32_table c none) [
    | none ↦ from_base32_loop src size key at buffer
    | some temp ↦ elim (put_digit size key at buffer temp) [
      | leave buffer' ↦ buffer'
      | go_on key' at' buffer' ↦ from_base32_loop src size key' at' buffer'
    ]
  ]
]

pub from_base32 : List ℕ → ℕ → List ℕ
from_base32 src size = from_base32_loop src size 0 0 (replicate size 0)
