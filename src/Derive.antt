-- ===== src/Derive.antt =====
-- `random_bytes` and `pbkdf2_sha256` of adclib/adclib.cpp. OpenSSL is a parameter: `clear` is
-- `ERR_clear_error`, `rand` and `kdf` are `RAND_bytes` and `PKCS5_PBKDF2_HMAC` with the bytes that they
-- write, and `none` for a return that is not 1.
pub mod Guards
mod Tests
use luadch.Common.{
  ℕ, ◌-◌, ◌^◌, Bool, true, false, ◌||◌, List, Option, none, some, ltb, if◌then◌else◌, length, take,
}
use luadch.Common.Ints.{ℤ, pos, negsuc, to_int, is_outside}

-- A string on the Lua stack, or one of the Lua errors; the first names a number.
pub data Outcome : Type 0 where
  pushed : List ℕ → Outcome
  bad_count : ℤ → Outcome
  not_seeded too_large bad_iterations bad_length kdf_failed : Outcome

-- `(size_t)n` for an `n` that is not negative.
abbrev pub size_of : ℤ → ℕ
size_of (pos n) = n
size_of (negsuc n) = 0

abbrev pub max_random : ℕ
max_random = 4096

abbrev pub max_iterations : ℕ
max_iterations = 100000000

abbrev pub max_dklen : ℕ
max_dklen = 1024

abbrev pub max_int : ℕ
max_int = 2 ^ 31 - 1

module _ {W : Type 0} (clear : W → W) where
  -- The end of `random_bytes`, behind the call of `RAND_bytes`.
  abbrev pub push_random : ℕ → Option (List ℕ) × W → Outcome × W
  push_random n (none, w) = (not_seeded, clear w)
  push_random n (some buf, w) = (pushed (take n buf), w)

  unfoldable pub random_bytes : (ℤ → W → Option (List ℕ) × W) → ℤ → W → Outcome × W
  random_bytes rand n w =
      if is_outside 1 max_random n
      then (bad_count (to_int n), clear w)
      else push_random (size_of n) (rand (to_int n) (clear w))

  -- The end of `pbkdf2_sha256`, behind the call of `PKCS5_PBKDF2_HMAC`.
  abbrev pub push_key : ℕ → Option (List ℕ) × W → Outcome × W
  push_key n (none, w) = (kdf_failed, w)
  push_key n (some out, w) = (pushed (take n out), w)

  unfoldable pub pbkdf2_sha256 :
      (List ℕ → ℤ → List ℕ → ℤ → ℤ → ℤ → W → Option (List ℕ) × W)
      → List ℕ
      → List ℕ
      → ℤ
      → ℤ
      → W
      → Outcome × W
  pbkdf2_sha256 kdf pw salt iters dklen w =
      if ltb max_int (length pw) || ltb max_int (length salt)
      then (too_large, clear w)
      else if is_outside 1 max_iterations iters
      then (bad_iterations, clear w)
      else if is_outside 1 max_dklen dklen
      then (bad_length, clear w)
      else push_key (size_of dklen) (
          kdf pw (to_int (pos (length pw))) salt (to_int (pos (length salt))) (to_int iters)
            (to_int dklen) (clear w))
