-- ===== src/Hashes/Compare.antt =====
-- `constant_time_eq` compares.
use luadch.Common.{
  ℕ, bit_or, bit_xor, true, List, [], ◌∷◌, length, u8, ◌≡◌, refl, ap, ap₂, sym, ◌∙◌, ◌↔◌, arith,
  IsByte, All,
}
use luadch.Common.Bits.{bit_or-eq-zero, bit_or-lt, bit_xor-lt, eq_of_bit_xor-zero, bit_xor_self}
use luadch.Hashes.{accumulate, constant_time_eq}

-- One round of the loop, on bytes, loses no bit to the accumulator's width.
round_lem :
    (diff x y : ℕ)
    → IsByte diff
    → IsByte x
    → IsByte y
    → u8 (bit_or diff (u8 (bit_xor x y))) ≡ bit_or diff (bit_xor x y)
round_lem diff x y d h i =
    let narrow : u8 (bit_xor x y) ≡ bit_xor x y = omega (arith, bit_xor-lt 8 x y h i) in
    ap (λ v. u8 (bit_or diff v)) narrow
    ∙ omega (arith, bit_or-lt 8 diff (bit_xor x y) d (bit_xor-lt 8 x y h i))

-- The accumulator ends at 0 for two texts of one length, if it was 0 and they are equal.
accumulate-zero :
    (a b : List ℕ) (diff : ℕ)
    → IsByte diff
    → All IsByte a
    → All IsByte b
    → length a ≡ length b
    → accumulate diff a b ≡ 0
    → (diff ≡ 0) × (a ≡ b)
unfolding accumulate
accumulate-zero [] [] diff d h i e z = (z, refl)
accumulate-zero [] (y ∷ b) diff d h i e z = absurd (omega arith)
accumulate-zero (x ∷ a) [] diff d h i e z = absurd (omega arith)
accumulate-zero (x ∷ a) (y ∷ b) diff d (hx, h) (iy, i) e z =
    let (none_set, same) = accumulate-zero a b _ (omega arith) h i (omega arith) z in
    let (was_zero, no_difference) =
      bit_or-eq-zero diff (bit_xor x y) (sym (round_lem diff x y d hx iy) ∙ none_set) in
    (was_zero, ap₂ (λ v s. v ∷ s) (eq_of_bit_xor-zero x y no_difference) same)

accumulate_self : (a : List ℕ) → accumulate 0 a a ≡ 0
unfolding accumulate
accumulate_self [] = refl
accumulate_self (x ∷ a) =
    ap (λ v. accumulate (u8 (bit_or 0 (u8 v))) a a) (bit_xor_self x) ∙ accumulate_self a

lengths_equal :
    (a b : List ℕ) → constant_time_eq a b ≡ true → (length a ≡ length b) × (accumulate 0 a b ≡ 0)
unfolding constant_time_eq
lengths_equal a b e = ground arith

equal_texts : (a b : List ℕ) → a ≡ b → constant_time_eq a b ≡ true
unfolding constant_time_eq
equal_texts a b e =
    let same : accumulate 0 a b ≡ 0 = ap (accumulate 0 a) (sym e) ∙ accumulate_self a in
    let size = ap length e in ground arith

-- For byte strings `constant_time_eq` is true exactly when they are equal.
pub constant_time_eq_iff :
    (a b : List ℕ) → All IsByte a → All IsByte b → (constant_time_eq a b ≡ true) ↔ (a ≡ b)
constant_time_eq_iff a b h i = (
  λ e. let (size, z) = lengths_equal a b e in (accumulate-zero a b 0 (omega arith) h i size z).1,
  equal_texts a b,
)
