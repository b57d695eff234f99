-- ===== src/Base32/Tests.antt =====
-- Runs of the Base32 routines, and the theorems at concrete inputs.
use luadch.Common.{ℕ, ◌+◌, ◌*◌, ◌/◌, List, [], ◌∷◌, ◌++◌, some, length, ◌≡◌, refl, arith}
use luadch.Base32.{
  base32_alpha, values, base32_table, to_base32, to_base32_loop, from_base32, from_base32_loop,
  put_digit, or_into,
}
use luadch.Base32.RoundTrip.{from_base32-to_base32}
use luadch.Base32.Decode.{Kept, from_base32_loop-append}

-- "fo" and "MZXQ".
abbrev fo : List ℕ
fo = 0x66 ∷ 0x6f ∷ []

abbrev mzxq : List ℕ
mzxq = b'M' ∷ b'Z' ∷ b'X' ∷ b'Q' ∷ []

encoded : to_base32 fo ≡ some mzxq
unfolding to_base32 to_base32_loop base32_alpha
encoded = refl

-- Small letters and signs that stand for no digit.
decoded : from_base32 (b'm' ∷ b'-' ∷ b'z' ∷ b'x' ∷ b'q' ∷ []) 2 ≡ fo
unfolding from_base32 from_base32_loop put_digit or_into base32_table values
decoded = refl

from_base32-to_base32_example :
    (text : List ℕ) × (to_base32 fo ≡ some text)
    × (length text ≡ (8 * length fo + 4) / 5)
    × (from_base32 (text ++ mzxq) (length fo) ≡ fo)
from_base32-to_base32_example = from_base32-to_base32 fo mzxq (omega arith) (omega arith)

from_base32_loop-append_example :
    Kept 2 (7 ∷ 9 ∷ []) (from_base32 mzxq 2) (from_base32_loop mzxq 2 0 0 (0 ∷ 0 ∷ 7 ∷ 9 ∷ []))
from_base32_loop-append_example = from_base32_loop-append mzxq (7 ∷ 9 ∷ []) 2 (omega arith)
