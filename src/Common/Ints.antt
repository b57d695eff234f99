-- ===== src/Common/Ints.antt =====
-- Signed integers: `lua_Integer`, and the cast to a 32-bit `int`.
use Prim.Native.Nat.{ℕ, ◌-◌, ◌%◌, ◌^◌, ◌≤◌, ◌<◌}
use mathlib.Core.Path.{◌≡◌, refl}
use mathlib.Core.Bool.{Bool, true, false}
use native.Mathlib.Omega.{arith}
use luadch.Common.Tests.{ltb, if◌then◌else◌}

-- `negsuc n` is -(n + 1).
pub data ℤ : Type 0 where
  pos : ℕ → ℤ
  negsuc : ℕ → ℤ

-- The `int` with these 32 bits.
abbrev pub int_of_bits : ℕ → ℤ
int_of_bits m = if ltb m (2 ^ 31) then pos m else negsuc (2 ^ 32 - 1 - m)

-- `(int)n`
abbrev pub to_int : ℤ → ℤ
to_int (pos n) = int_of_bits (n % 2 ^ 32)
to_int (negsuc n) = int_of_bits (2 ^ 32 - 1 - n % 2 ^ 32)

-- `n < lo || n > hi`, for bounds that are not negative.
abbrev pub is_outside : ℕ → ℕ → ℤ → Bool
is_outside lo hi (pos n) = if ltb n lo then true else ltb hi n
is_outside lo hi (negsuc n) = true

-- What passes such a test is a natural number between the bounds, and one below 2 ^ 31 keeps its value
-- as an `int`.
pub is_outside-between :
    (lo hi : ℕ) (n : ℤ) → is_outside lo hi n ≡ false → (m : ℕ) × (n ≡ pos m) × (lo ≤ m) × (m ≤ hi)
is_outside-between lo hi (pos n) h = (n, refl, ground arith, ground arith)
is_outside-between lo hi (negsuc n) h = absurd (ground arith)

pub to_int_small : (n : ℕ) → n < 2 ^ 31 → to_int (pos n) ≡ pos n
to_int_small n h = ground arith
