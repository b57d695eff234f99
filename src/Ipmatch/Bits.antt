-- ===== src/Ipmatch/Bits.antt =====
-- The bits of an address, the most significant first, and the masks of its bytes.
use luadch.Common.{
  ℕ, ◌+◌, ◌-◌, ◌*◌, ◌/◌, ◌%◌, ◌^◌, ◌<◌, Bool, true, ◌&&◌, List, [], ◌∷◌, ◌++◌, ◌==◌, take, bit_and,
  ◌≡◌, refl, ap, sym, ◌∙◌, arith, IsByte,
}
use luadch.Common.Tables.{all_below, all_below_lem}
use luadch.Ipmatch.{same_bytes, tail_mask}

abbrev pub byte_bits : ℕ → List ℕ
byte_bits b =
    (b / 128 % 2)
    ∷ (b / 64 % 2)
    ∷ (b / 32 % 2)
    ∷ (b / 16 % 2)
    ∷ (b / 8 % 2)
    ∷ (b / 4 % 2)
    ∷ (b / 2 % 2)
    ∷ (b % 2)
    ∷ []

abbrev pub bits : List ℕ → List ℕ
bits [] = []
bits (b ∷ bs) = byte_bits b ++ bits bs

abbrev from_bits : ℕ → List ℕ → ℕ
from_bits n [] = n
from_bits n (d ∷ ds) = from_bits (n * 2 + d) ds

byte_of_bits : (b : ℕ) → IsByte b → from_bits 0 (byte_bits b) ≡ b
byte_of_bits b lt = omega arith

pub byte_bits-injective : (b c : ℕ) → IsByte b → IsByte c → byte_bits b ≡ byte_bits c → b ≡ c
byte_bits-injective b c p q e = sym (byte_of_bits b p) ∙ ap (from_bits 0) e ∙ byte_of_bits c q

pub same_bytes→eq : (xs ys : List ℕ) → same_bytes xs ys ≡ true → xs ≡ ys
unfolding same_bytes
same_bytes→eq [] [] h = refl
same_bytes→eq [] (y ∷ ys) h = cc
same_bytes→eq (x ∷ xs) [] h = cc
same_bytes→eq (x ∷ xs) (y ∷ ys) h =
    let e : x ≡ y = ground arith in
    let rest : same_bytes xs ys ≡ true = ground arith in
    ap (λ n. n ∷ xs) e ∙ ap (◌∷◌ y) (same_bytes→eq xs ys rest)

pub same_bytes_refl : (xs : List ℕ) → same_bytes xs xs ≡ true
unfolding same_bytes
same_bytes_refl [] = refl
same_bytes_refl (x ∷ xs) = ground (arith, same_bytes_refl xs)

-- For each number of bits below 8 and each byte, the mask keeps these bits and clears the others.
mask_keeps : ℕ → ℕ → Bool
unfolding same_bytes
mask_keeps t b =
    (bit_and b (tail_mask t) == from_bits 0 (take t (byte_bits b)) * 2 ^ (8 - t))
    && same_bytes (take t (byte_bits (bit_and b (tail_mask t)))) (take t (byte_bits b))

mask_keeps_all : (t : ℕ) → t < 8 → (b : ℕ) → b < 256 → mask_keeps t b ≡ true
unfolding mask_keeps all_below same_bytes
mask_keeps_all t lt b small =
    all_below_lem (mask_keeps t) 256 (all_below_lem (λ t. all_below (mask_keeps t) 256) 8 refl t lt)
      b small

pub masks-bits :
    (t x y : ℕ)
    → t < 8
    → IsByte x
    → IsByte y
    → take t (byte_bits x) ≡ take t (byte_bits y)
    → bit_and x (tail_mask t) ≡ bit_and y (tail_mask t)
unfolding mask_keeps
masks-bits t x y lt p q e =
    let a : bit_and x (tail_mask t) ≡ from_bits 0 (take t (byte_bits x)) * 2 ^ (8 - t) =
      ground (arith, mask_keeps_all t lt x p) in
    let b : bit_and y (tail_mask t) ≡ from_bits 0 (take t (byte_bits y)) * 2 ^ (8 - t) =
      ground (arith, mask_keeps_all t lt y q) in
    a ∙ ap (λ l. from_bits 0 l * 2 ^ (8 - t)) e ∙ sym b

pub bits-masks :
    (t x y : ℕ)
    → t < 8
    → IsByte x
    → IsByte y
    → bit_and x (tail_mask t) ≡ bit_and y (tail_mask t)
    → take t (byte_bits x) ≡ take t (byte_bits y)
unfolding mask_keeps
bits-masks t x y lt p q e =
    let a : same_bytes (take t (byte_bits (bit_and x (tail_mask t)))) (take t (byte_bits x))
        ≡ true =
      ground (arith, mask_keeps_all t lt x p) in
    let b : same_bytes (take t (byte_bits (bit_and y (tail_mask t)))) (take t (byte_bits y))
        ≡ true =
      ground (arith, mask_keeps_all t lt y q) in
    sym (same_bytes→eq _ _ a) ∙ ap (λ m. take t (byte_bits m)) e ∙ same_bytes→eq _ _ b
