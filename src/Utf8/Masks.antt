-- ===== src/Utf8/Masks.antt =====
-- The masks of `utf8ToWc` on one byte, as arithmetic: tables over all bytes, by evaluation.
use luadch.Common.{
  ℕ, ◌-◌, ◌<◌, ◌≤◌, bit_and, Bool, true, false, ◌&&◌, ltb, leb, ◌==◌, if◌then◌else◌, ◌≡◌, refl,
  arith,
}
use luadch.Common.Tables.{all_below, all_below_lem}
use luadch.Utf8.{sequence_length}

same : Bool → Bool → Bool
same true b = b
same false true = false
same false false = true

same→eq : (a b : Bool) → same a b ≡ true → a ≡ b
unfolding same
same→eq true true h = refl
same→eq true false h = cc
same→eq false true h = cc
same→eq false false h = refl

-- Two tests, or two numbers, agree at every byte.
tests_agree : (ℕ → Bool) → (ℕ → Bool) → ℕ → Bool
unfolding same all_below
tests_agree p q = all_below (λ b. same (p b) (q b))

tests_agree_lem : (p q : ℕ → Bool) (n : ℕ) → tests_agree p q n ≡ true → (b : ℕ) → b < n → p b ≡ q b
unfolding tests_agree
tests_agree_lem p q n h b lt = same→eq (p b) (q b) (all_below_lem (λ b. same (p b) (q b)) n h b lt)

numbers_agree_lem :
    (f g : ℕ → ℕ) (n : ℕ)
    → tests_agree (λ b. f b == g b) (λ b. true) n ≡ true
    → (b : ℕ) → b < n
    → f b ≡ g b
numbers_agree_lem f g n h b lt =
    ground (arith, tests_agree_lem (λ b. f b == g b) (λ b. true) n h b lt)

is_multibyte : (b : ℕ) → b < 256 → (bit_and b 0xc0 == 0xc0) ≡ leb 192 b
unfolding tests_agree
is_multibyte = tests_agree_lem _ _ 256 refl

pub no_lead : (b : ℕ) → b < 192 → (bit_and b 0xc0 == 0xc0) ≡ false
no_lead b h = ground (arith, is_multibyte b)

pub is_continuation : (b : ℕ) → b < 256 → (bit_and b 0xc0 == 0x80) ≡ (leb 128 b && ltb b 192)
unfolding tests_agree
is_continuation = tests_agree_lem _ _ 256 refl

pub is_ascii : (b : ℕ) → b < 256 → (bit_and b 0x80 == 0) ≡ ltb b 128
unfolding tests_agree
is_ascii = tests_agree_lem _ _ 256 refl

-- The length by the lead byte; the first test is of no account below 192.
abbrev length_of_lead : ℕ → ℕ
length_of_lead b =
    if ltb b 192 then sequence_length b else if ltb b 224 then 2 else if ltb b 240 then 3 else 4

sequence_length_lem : (b : ℕ) → b < 256 → sequence_length b ≡ length_of_lead b
unfolding tests_agree sequence_length
sequence_length_lem = numbers_agree_lem sequence_length length_of_lead 256 refl

-- Two functions agree at every byte from `lo` on.
from_lem :
    (f g : ℕ → ℕ) (lo n : ℕ)
    → tests_agree
        (λ b. (if leb lo b then f b else 0) == (if leb lo b then g b else 0))
        (λ b. true)
        n
      ≡ true
    → (b : ℕ) → lo ≤ b
    → b < n
    → f b ≡ g b
from_lem f g lo n table b from below = ground (
  arith,
  numbers_agree_lem (λ b. if leb lo b then f b else 0) (λ b. if leb lo b then g b else 0) n table b
      below,
)

-- What the code reads off the lead byte of a sequence: its length, that the bit behind the leading
-- ones is clear, and the bits of the code point in it.
pub record Lead (b bytes check_bit payload : ℕ) : Type 0 where
  pub multibyte : (bit_and b 0xc0 == 0xc0) ≡ true
  pub length : sequence_length b ≡ bytes
  pub clear : bit_and b check_bit ≡ 0
  pub bits : bit_and (check_bit - 1) b ≡ payload

pub Lead-2 : (b : ℕ) → 192 ≤ b → b < 224 → Lead b 2 32 (b - 192)
Lead-2 b lo hi = record {
  multibyte = ground (arith, is_multibyte b);
  length = ground (arith, sequence_length_lem b);
  clear = from_lem (λ b. bit_and b 32) (λ b. 0) 192 224 (unfold tests_agree in refl) b lo hi;
  bits = from_lem (bit_and 31) (λ b. b - 192) 192 224 (unfold tests_agree in refl) b lo hi;
}

pub Lead-3 : (b : ℕ) → 224 ≤ b → b < 240 → Lead b 3 16 (b - 224)
Lead-3 b lo hi = record {
  multibyte = ground (arith, is_multibyte b);
  length = ground (arith, sequence_length_lem b);
  clear = from_lem (λ b. bit_and b 16) (λ b. 0) 224 240 (unfold tests_agree in refl) b lo hi;
  bits = from_lem (bit_and 15) (λ b. b - 224) 224 240 (unfold tests_agree in refl) b lo hi;
}

pub Lead-4 : (b : ℕ) → 240 ≤ b → b < 248 → Lead b 4 8 (b - 240)
Lead-4 b lo hi = record {
  multibyte = ground (arith, is_multibyte b);
  length = ground (arith, sequence_length_lem b);
  clear = from_lem (λ b. bit_and b 8) (λ b. 0) 240 248 (unfold tests_agree in refl) b lo hi;
  bits = from_lem (bit_and 7) (λ b. b - 240) 240 248 (unfold tests_agree in refl) b lo hi;
}

-- A lead byte with five or more leading ones fails the check of the clear bit.
pub too_many_ones :
    (b : ℕ)
    → 248 ≤ b
    → b < 256
    → ((bit_and b 0xc0 == 0xc0) ≡ true) × (sequence_length b ≡ 4) × (bit_and b 8 ≡ 8)
too_many_ones b lo hi = (
  ground (arith, is_multibyte b),
  ground (arith, sequence_length_lem b),
  from_lem (λ b. bit_and b 8) (λ b. 8) 248 256 (unfold tests_agree in refl) b lo hi,
)
