-- ===== src/Common/Bits/Digits.antt =====
-- One equation for the lowest digit of each native bit operation: the recursion on binary digits
-- that the operation stands for, with its count of digits removed.
use Prim.Native.Nat.{
  ℕ, zero, suc, ◌+◌, ◌*◌, ◌/◌, ◌%◌, ◌≤◌, min, max, bit_and, bit_or, bit_xor, digits, bitwise,
  differ, bit_and-bitwise, bit_or-bitwise, bit_xor-bitwise,
}
use mathlib.Core.Path.{◌≡◌, refl}
use native.Mathlib.Omega.{arith}

module _ (stop : ℕ → ℕ) (digit : ℕ → ℕ → ℕ) where
  -- More digits than the first number has change nothing.
  enough : (k l a b : ℕ) → a ≤ k → a ≤ l → digits stop digit k a b ≡ digits stop digit l a b
  enough zero zero zero b p q = refl
  enough zero (suc l) zero b p q = refl
  enough (suc k) zero zero b p q = refl
  enough (suc k) (suc l) zero b p q = refl
  enough zero l (suc a) b p q = absurd (omega arith)
  enough (suc k) zero (suc a) b p q = absurd (omega arith)
  enough (suc k) (suc l) (suc a) b p q =
      rw (enough k l (suc a / 2) (b / 2) (omega arith) (omega arith))

  split_suc :
      (a b : ℕ)
      → bitwise stop digit (suc a) b
        ≡ bitwise stop digit (suc a / 2) (b / 2) * 2 + digit (suc a % 2) (b % 2)
  split_suc a b = rw (enough a (suc a / 2) (suc a / 2) (b / 2) (omega arith) (omega arith))

pub bit_or_split : (a b : ℕ) → bit_or a b ≡ bit_or (a / 2) (b / 2) * 2 + max (a % 2) (b % 2)
bit_or_split zero b = simp bit_or-bitwise (omega arith)
bit_or_split (suc a) b = simp bit_or-bitwise (split_suc (λ y. y) max a b)

pub bit_and_split : (a b : ℕ) → bit_and a b ≡ bit_and (a / 2) (b / 2) * 2 + min (a % 2) (b % 2)
bit_and_split zero b = simp bit_and-bitwise (omega arith)
bit_and_split (suc a) b = simp bit_and-bitwise (split_suc (λ y. 0) min a b)

pub bit_xor_split : (a b : ℕ) → bit_xor a b ≡ bit_xor (a / 2) (b / 2) * 2 + differ (a % 2) (b % 2)
bit_xor_split zero b = simp bit_xor-bitwise (omega arith)
bit_xor_split (suc a) b = simp bit_xor-bitwise (split_suc (λ y. y) differ a b)

-- Digits that do not differ are the same.
pub eq_of_differ-zero : (a b : ℕ) → differ a b ≡ 0 → a ≡ b
eq_of_differ-zero zero b h = omega arith
eq_of_differ-zero (suc a) zero h = h
eq_of_differ-zero (suc a) (suc b) h = omega (arith, eq_of_differ-zero a b h)

pub differ_self : (a : ℕ) → differ a a ≡ 0
differ_self zero = refl
differ_self (suc a) = differ_self a

pub differ-le : (a b : ℕ) → differ a b ≤ max a b
differ-le zero b = omega arith
differ-le (suc a) zero = omega arith
differ-le (suc a) (suc b) = omega (arith, differ-le a b)
