-- ===== src/Base32/Steps.antt =====
-- One round of each base32 loop, in plain arithmetic. Both loops move `key` through the same
-- residues, so that a round of the decoder meets the digit of the encoder's round.
use luadch.Common.{
  ℕ, suc, ◌+◌, ◌-◌, ◌*◌, ◌/◌, ◌%◌, ◌^◌, ◌<◌, bit_and, bit_or, List, [], ◌∷◌, ◌++◌, Option, ltb, leb,
  if◌then◌else◌, get_or, u8, ◌≡◌, ap, arith, IsByte,
}
use native.Mathlib.Nat.{div-le_self, mod-eq_of_lt}
use luadch.Common.Bits.{bit_or_join, bit_and_low}
use luadch.Base32.{base32_alpha, to_base32_loop}

-- The eight positions in a byte at which a digit can begin.
pub data Key : ℕ → Type 0 where
  k0 : Key 0
  k1 : Key 1
  k2 : Key 2
  k3 : Key 3
  k4 : Key 4
  k5 : Key 5
  k6 : Key 6
  k7 : Key 7

abbrev pub first : List ℕ → ℕ
first [] = 0
first (b ∷ s) = b

-- The digit that a round writes.
abbrev pub digit : ℕ → ℕ → ℕ → ℕ
digit b next key =
    if leb key 3
    then b / 2 ^ (3 - key) % 32
    else b % 2 ^ (8 - key) * 2 ^ (key - 3) + next / 2 ^ (11 - key)

low_chr : (b k : ℕ) → IsByte b → bit_and (u8 (b / k)) 31 ≡ b / k % 32
low_chr b k h = rw (bit_and_low 5) (ap (λ x. x % 32) (byte_part b k h))
  where
    byte_part : (b k : ℕ) → IsByte b → u8 (b / k) ≡ b / k
    byte_part b k h = omega (arith, div-le_self b k)

-- The digit is a number below 32 at each position.
pub digit-lt : (b next key : ℕ) → Key key → IsByte b → IsByte next → digit b next key < 32
digit-lt b next key k0 h g = omega arith
digit-lt b next key k1 h g = omega arith
digit-lt b next key k2 h g = omega arith
digit-lt b next key k3 h g = omega arith
digit-lt b next key k4 h g = omega arith
digit-lt b next key k5 h g = omega arith
digit-lt b next key k6 h g = omega arith
digit-lt b next key k7 h g = omega arith

-- The character that the source puts together over two bytes, by the tail of the input.
high_chr : (b key : ℕ) → List ℕ → ℕ
high_chr b key src =
    let high = u8 (bit_and b (0xff / 2 ^ key) * 2 ^ (key - 3)) in
    elim src [ [] ↦ high | next ∷ _ ↦ bit_or high (next / 2 ^ (8 - (key - 3))) ]

two_parts : (x k y : ℕ) → x * 2 ^ k < 256 → y < 2 ^ k → bit_or (u8 (x * 2 ^ k)) y ≡ x * 2 ^ k + y
two_parts x k y fits low = rw (mod-eq_of_lt fits) (bit_or_join k x y low)

high_chr_lem :
    (b key : ℕ) (src : List ℕ)
    → Key key
    → 3 < key
    → IsByte b
    → IsByte (first src)
    → high_chr b key src ≡ digit b (first src) key
unfolding high_chr
high_chr_lem b key [] k4 lt h g = rw (bit_and_low 4) (omega arith)
high_chr_lem b key [] k5 lt h g = rw (bit_and_low 3) (omega arith)
high_chr_lem b key [] k6 lt h g = rw (bit_and_low 2) (omega arith)
high_chr_lem b key [] k7 lt h g = rw (bit_and_low 1) (omega arith)
high_chr_lem b key (n ∷ s) k4 lt h g =
    rw (bit_and_low 4) (two_parts (b % 16) 1 (n / 128) (omega arith) (omega arith))
high_chr_lem b key (n ∷ s) k5 lt h g =
    rw (bit_and_low 3) (two_parts (b % 8) 2 (n / 64) (omega arith) (omega arith))
high_chr_lem b key (n ∷ s) k6 lt h g =
    rw (bit_and_low 2) (two_parts (b % 4) 3 (n / 32) (omega arith) (omega arith))
high_chr_lem b key (n ∷ s) k7 lt h g =
    rw (bit_and_low 1) (two_parts (b % 2) 4 (n / 16) (omega arith) (omega arith))
high_chr_lem b key src k0 lt h g = absurd (omega arith)
high_chr_lem b key src k1 lt h g = absurd (omega arith)
high_chr_lem b key src k2 lt h g = absurd (omega arith)
high_chr_lem b key src k3 lt h g = absurd (omega arith)

abbrev written : ℕ → List ℕ → ℕ → List ℕ → ℕ → Option (List ℕ)
written fuel rest key ret d = to_base32_loop fuel rest key (ret ++ (get_or base32_alpha d 0 ∷ []))

-- A round of the encoder: it appends the digit's character, and leaves the byte from key 3 on.
pub to_base32_round :
    (fuel b : ℕ) (src : List ℕ) (key : ℕ) (ret : List ℕ)
    → Key key
    → IsByte b
    → IsByte (first src)
    → to_base32_loop (suc fuel) (b ∷ src) key ret
      ≡ written fuel
          (if ltb key 3 then b ∷ src else src)
          ((key + 5) % 8)
          ret
          (digit b (first src) key)
unfolding to_base32_loop high_chr
to_base32_round fuel b src key ret k0 h g = ap (written fuel (b ∷ src) 5 ret) (low_chr b 8 h)
to_base32_round fuel b src key ret k1 h g = ap (written fuel (b ∷ src) 6 ret) (low_chr b 4 h)
to_base32_round fuel b src key ret k2 h g = ap (written fuel (b ∷ src) 7 ret) (low_chr b 2 h)
to_base32_round fuel b src key ret k3 h g = ap (written fuel src 0 ret) (low_chr b 1 h)
to_base32_round fuel b src key ret k4 h g =
    ap (written fuel src 1 ret) (high_chr_lem b 4 src k4 (omega arith) h g)
to_base32_round fuel b src key ret k5 h g =
    ap (written fuel src 2 ret) (high_chr_lem b 5 src k5 (omega arith) h g)
to_base32_round fuel b src key ret k6 h g =
    ap (written fuel src 3 ret) (high_chr_lem b 6 src k6 (omega arith) h g)
to_base32_round fuel b src key ret k7 h g =
    ap (written fuel src 4 ret) (high_chr_lem b 7 src k7 (omega arith) h g)
