-- ===== src/Utf8/Encode.antt =====
-- `wcToUtf8` in plain arithmetic, and `utf8ToWc` on what it writes.
use luadch.Common.{
  ℕ, ◌+◌, ◌/◌, ◌%◌, ◌<◌, ◌≤◌, bit_or, false, List, [], ◌∷◌, ◌++◌, length, ◌≡◌, refl, arith, ◌⊎◌,
}
use native.Mathlib.Decide.{dec_lt}
use luadch.Common.Bits.{bit_or_join, bit_and_low}
use luadch.Utf8.{good, is_invalid_code_point, check_code_point, utf8_to_wc, utf8_bytes}
use luadch.Utf8.Decode.{utf8_to_wc-ascii, utf8_to_wc-two, utf8_to_wc-three, utf8_to_wc-four}

abbrev pub IsScalar : ℕ → Type 0
IsScalar c = (c ≤ 0x10ffff) × ((c < 0xd800) ⊎ (0xdfff < c))

pub IsScalar-iff : (c : ℕ) → IsScalar c → is_invalid_code_point c ≡ false
unfolding is_invalid_code_point
IsScalar-iff c h = ground arith

tail_bits : (x : ℕ) → bit_or 0x80 (x % 64) ≡ 128 + x % 64
tail_bits x = omega (arith, bit_or_join 6 2 (x % 64))

pub utf8_bytes_1 : (c : ℕ) → c < 0x80 → utf8_bytes c ≡ c ∷ []
unfolding utf8_bytes
utf8_bytes_1 c h = ground arith

pub utf8_bytes_2 :
    (c : ℕ) → 0x80 ≤ c → c < 0x800 → utf8_bytes c ≡ (192 + c / 64) ∷ (128 + c % 64) ∷ []
unfolding utf8_bytes
utf8_bytes_2 c lo hi = ground (arith, bit_and_low 6 c, tail_bits c, bit_or_join 6 3 (c / 64))

pub utf8_bytes_3 :
    (c : ℕ)
    → 0x800 ≤ c
    → c < 0x10000
    → utf8_bytes c ≡ (224 + c / 4096) ∷ (128 + c / 64 % 64) ∷ (128 + c % 64) ∷ []
unfolding utf8_bytes
utf8_bytes_3 c lo hi = ground (
  arith,
  bit_and_low 6 c,
  bit_and_low 6 (c / 64),
  tail_bits c,
  tail_bits (c / 64),
  bit_or_join 4 14 (c / 4096),
)

pub utf8_bytes_4 :
    (c : ℕ)
    → 0x10000 ≤ c
    → c ≤ 0x10ffff
    → utf8_bytes c
      ≡ (240 + c / 262144) ∷ (128 + c / 4096 % 64) ∷ (128 + c / 64 % 64) ∷ (128 + c % 64) ∷ []
unfolding utf8_bytes
utf8_bytes_4 c lo hi = ground (
  arith,
  bit_and_low 6 c,
  bit_and_low 6 (c / 64),
  bit_and_low 6 (c / 4096),
  tail_bits c,
  tail_bits (c / 64),
  tail_bits (c / 4096),
  bit_or_join 3 30 (c / 262144),
)

-- The four lengths of an encoding.
pub data Size (c : ℕ) : Type 0 where
  one : c < 0x80 → Size c
  two : 0x80 ≤ c → c < 0x800 → Size c
  three : 0x800 ≤ c → c < 0x10000 → Size c
  four : 0x10000 ≤ c → c ≤ 0x10ffff → Size c

pub Size-of : (c : ℕ) → c ≤ 0x10ffff → Size c
Size-of c h = elim (dec_lt c 0x80) [
  | yes p ↦ one p
  | no p ↦ elim (dec_lt c 0x800) [
    | yes q ↦ two (omega arith) q
    | no q ↦ elim (dec_lt c 0x10000) [ yes r ↦ three (omega arith) r | no r ↦ four (omega arith) h ]
  ]
]

-- Decoding reads back a code point that was encoded, whatever follows it.
decode_sized :
    (c : ℕ) (rest : List ℕ)
    → IsScalar c
    → Size c
    → utf8_to_wc (utf8_bytes c ++ rest) ≡ good c (length (utf8_bytes c))
unfolding check_code_point
decode_sized c rest h (one lo) = rw (utf8_bytes_1 c lo) (utf8_to_wc-ascii c rest lo)
decode_sized c rest h (two lo hi) = rw (utf8_bytes_2 c lo hi) (
    rw
      (utf8_to_wc-two (192 + c / 64) (128 + c % 64) _ refl (omega arith) (omega arith)
        (omega arith))
      (ground (arith, IsScalar-iff c)))
decode_sized c rest h (three lo hi) = rw (utf8_bytes_3 c lo hi) (
    rw
      (utf8_to_wc-three (224 + c / 4096) (128 + c / 64 % 64) _ refl (omega arith) (128 + c % 64)
        refl (omega arith) (omega arith) (omega arith))
      (ground (arith, IsScalar-iff c)))
decode_sized c rest h (four lo hi) = rw (utf8_bytes_4 c lo hi) (
    rw
      (utf8_to_wc-four (240 + c / 262144) (128 + c / 4096 % 64) _ refl (omega arith)
        (128 + c / 64 % 64) refl (omega arith) (128 + c % 64) refl (omega arith) (omega arith)
        (omega arith))
      (ground (arith, IsScalar-iff c)))

-- `utf8ToWc` reads the bytes of a scalar value back with their number, whatever follows.
pub utf8_to_wc-utf8_bytes :
    (c : ℕ) (rest : List ℕ)
    → IsScalar c
    → utf8_to_wc (utf8_bytes c ++ rest) ≡ good c (length (utf8_bytes c))
utf8_to_wc-utf8_bytes c rest h = decode_sized c rest h (Size-of c h.0)
