-- ===== src/Common/Bits.antt =====
-- `&`, `|` and `^` on bit fields as arithmetic, at every width.
mod Digits
use Digits.{bit_and_split, bit_or_split, bit_xor_split, eq_of_differ-zero, differ_self, differ-le}
use Prim.Native.Nat.{
  ℕ, zero, suc, ◌+◌, ◌-◌, ◌*◌, ◌/◌, ◌%◌, ◌^◌, ◌≤◌, ◌<◌, bit_and, bit_or, bit_xor, bit_or-bitwise,
}
use mathlib.Core.Path.{◌≡◌, refl, ap}
use native.Mathlib.Nat.{pow-suc, one-le-pow}
use native.Mathlib.Omega.{arith}

or_zero_upto : (n a : ℕ) → a ≤ n → bit_or a 0 ≡ a
or_zero_upto n zero h = refl
or_zero_upto zero (suc a) h = absurd (omega arith)
or_zero_upto (suc n) (suc a) h =
    omega (arith, bit_or_split (suc a) 0, or_zero_upto n (suc a / 2) (omega arith))

and_zero_upto : (n a : ℕ) → a ≤ n → bit_and a 0 ≡ 0
and_zero_upto n zero h = refl
and_zero_upto zero (suc a) h = absurd (omega arith)
and_zero_upto (suc n) (suc a) h =
    omega (arith, bit_and_split (suc a) 0, and_zero_upto n (suc a / 2) (omega arith))

pub bit_or-zero : (a : ℕ) → bit_or a 0 ≡ a
bit_or-zero a = or_zero_upto a a (omega arith)

or_comm_upto : (n a b : ℕ) → a ≤ n → b ≤ n → bit_or a b ≡ bit_or b a
or_comm_upto zero a b p q =
    let x : a ≡ 0 = omega arith in let y : b ≡ 0 = omega arith in rw (x, y) refl
or_comm_upto (suc n) a b p q = omega (
  arith,
  bit_or_split a b,
  bit_or_split b a,
  or_comm_upto n (a / 2) (b / 2) (omega arith) (omega arith),
)

pub bit_or_comm : (a b : ℕ) → bit_or a b ≡ bit_or b a
bit_or_comm a b = or_comm_upto (a + b) a b (omega arith) (omega arith)

pub zero-bit_or : (b : ℕ) → bit_or 0 b ≡ b
zero-bit_or b = bit_or-bitwise 0 b

pub bit_and-zero : (a : ℕ) → bit_and a 0 ≡ 0
bit_and-zero a = and_zero_upto a a (omega arith)

double_pow : (q k : ℕ) → q * 2 ^ suc k ≡ 2 * (q * 2 ^ k)
double_pow q k = omega (arith, ap (λ (t : ℕ). q * t) (pow-suc 2 k))

-- A high field `q` and a low field `r` of `k` bits do not overlap.
pub bit_or_join : (k q r : ℕ) → r < 2 ^ k → bit_or (q * 2 ^ k) r ≡ q * 2 ^ k + r
bit_or_join zero q r h = ground (arith, bit_or-zero q)
bit_or_join (suc k) q r h = ground (
  arith,
  bit_or_split (q * 2 ^ suc k) r,
  double_pow q k,
  pow-suc 2 k,
  bit_or_join k q (r / 2) (omega (arith, pow-suc 2 k)),
)

mask_fields : (k q r : ℕ) → r < 2 ^ k → bit_and (q * 2 ^ k + r) (2 ^ k - 1) ≡ r
mask_fields zero q r h = rw bit_and-zero (omega arith)
mask_fields (suc k) q r h = ground (
  arith,
  bit_and_split (q * 2 ^ suc k + r) (2 ^ suc k - 1),
  double_pow q k,
  pow-suc 2 k,
  mask_fields k q (r / 2) (omega (arith, pow-suc 2 k)),
)

-- A mask of `k` ones is the remainder by `2 ^ k`.
pub bit_and_low : (k a : ℕ) → bit_and a (2 ^ k - 1) ≡ a % 2 ^ k
bit_and_low k a = ground (arith, one-le-pow k 2, mask_fields k (a / 2 ^ k) (a % 2 ^ k))

xor_zero_upto : (n a b : ℕ) → a ≤ n → b ≤ n → bit_xor a b ≡ 0 → a ≡ b
xor_zero_upto zero a b p q h = omega arith
xor_zero_upto (suc n) a b p q h = omega (
  arith,
  eq_of_differ-zero (a % 2) (b % 2) (omega (arith, bit_xor_split a b)),
  xor_zero_upto n (a / 2) (b / 2) (omega arith) (omega arith) (omega (arith, bit_xor_split a b)),
)

-- Only equal numbers have no differing bit.
pub eq_of_bit_xor-zero : (a b : ℕ) → bit_xor a b ≡ 0 → a ≡ b
eq_of_bit_xor-zero a b = xor_zero_upto (a + b) a b (omega arith) (omega arith)

self_upto : (n a : ℕ) → a ≤ n → bit_xor a a ≡ 0
self_upto n zero h = refl
self_upto zero (suc a) h = absurd (omega arith)
self_upto (suc n) (suc a) h = omega (
  arith,
  bit_xor_split (suc a) (suc a),
  self_upto n (suc a / 2) (omega arith),
  differ_self (suc a % 2),
)

pub bit_xor_self : (a : ℕ) → bit_xor a a ≡ 0
bit_xor_self a = self_upto a a (omega arith)

or_zero_parts_upto : (n a b : ℕ) → a ≤ n → b ≤ n → bit_or a b ≡ 0 → (a ≡ 0) × (b ≡ 0)
or_zero_parts_upto zero a b p q h = omega arith
or_zero_parts_upto (suc n) a b p q h = omega (
  arith,
  bit_or_split a b,
  or_zero_parts_upto n (a / 2) (b / 2) (omega arith) (omega arith)
      (omega (arith, bit_or_split a b)),
)

-- A union of bits is empty only when both parts are.
pub bit_or-eq-zero : (a b : ℕ) → bit_or a b ≡ 0 → (a ≡ 0) × (b ≡ 0)
bit_or-eq-zero a b = or_zero_parts_upto (a + b) a b (omega arith) (omega arith)

-- The union and the differences of two numbers of `k` bits have `k` bits.
pub bit_or-lt : (k a b : ℕ) → a < 2 ^ k → b < 2 ^ k → bit_or a b < 2 ^ k
bit_or-lt zero zero b h i = omega (arith, zero-bit_or b)
bit_or-lt zero (suc a) b h i = absurd (omega arith)
bit_or-lt (suc k) a b h i = omega (
  arith,
  pow-suc 2 k,
  bit_or_split a b,
  bit_or-lt k (a / 2) (b / 2) (omega (arith, pow-suc 2 k)) (omega (arith, pow-suc 2 k)),
)

pub bit_xor-lt : (k a b : ℕ) → a < 2 ^ k → b < 2 ^ k → bit_xor a b < 2 ^ k
bit_xor-lt zero zero zero h i = omega arith
bit_xor-lt zero zero (suc b) h i = absurd (omega arith)
bit_xor-lt zero (suc a) b h i = absurd (omega arith)
bit_xor-lt (suc k) a b h i = omega (
  arith,
  pow-suc 2 k,
  bit_xor_split a b,
  differ-le (a % 2) (b % 2),
  bit_xor-lt k (a / 2) (b / 2) (omega (arith, pow-suc 2 k)) (omega (arith, pow-suc 2 k)),
)
