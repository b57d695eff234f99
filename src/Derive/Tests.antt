-- ===== src/Derive/Tests.antt =====
-- The theorems on `random_bytes` and `pbkdf2_sha256` at concrete inputs.
use luadch.Common.{
  ℕ, ◌+◌, ◌≤◌, List, [], ◌∷◌, Option, none, some, length, replicate, ◌≡◌, refl, ap, sym, ◌∙◌, ◌⊎◌,
  length-replicate, some-injective,
}
use luadch.Common.Ints.{ℤ, pos, to_int}
use luadch.Derive.{
  pushed, bad_count, not_seeded, kdf_failed, size_of, random_bytes, pbkdf2_sha256, max_random,
}
use luadch.Derive.Guards.{
  Fills, Between, AreShort, IsRefused, random_bytes_cases, pbkdf2_sha256_cases,
}

-- A generator of zeros that counts its calls.
abbrev zeros : ℤ → ℕ → Option (List ℕ) × ℕ
zeros n w = (some (replicate (size_of n) 0), w + 1)

abbrev key_of : List ℕ → ℤ → List ℕ → ℤ → ℤ → ℤ → ℕ → Option (List ℕ) × ℕ
key_of pw j salt k i n w = zeros n w

abbrev same : ℕ → ℕ
same w = w

zeros-Fills : Fills zeros
zeros-Fills n w w' s e =
    ap length (sym (some-injective (replicate n 0) s (ap (λ p. p.0) e))) ∙ length-replicate n 0

three : (random_bytes same zeros (pos 3) 0).0 ≡ pushed (0 ∷ 0 ∷ 0 ∷ [])
unfolding random_bytes
three = refl

-- The error names what the cast to `int` leaves of 2 ^ 32 + 5.
cast : (random_bytes same zeros (pos 4294967301) 0).0 ≡ bad_count (pos 5)
unfolding random_bytes
cast = refl

random_bytes_cases_example :
    ((¬ Between 1 max_random (pos 3))
      × ((random_bytes same zeros (pos 3) 0).0 ≡ bad_count (to_int (pos 3))))
    ⊎ ((m : ℕ) × (pos 3 ≡ pos m)
        × (1 ≤ m)
        × (m ≤ max_random)
        × ((((zeros (pos m) 0).0 ≡ none) × ((random_bytes same zeros (pos 3) 0).0 ≡ not_seeded))
            ⊎ ((s : List ℕ) × ((zeros (pos m) 0).0 ≡ some s)
                × ((random_bytes same zeros (pos 3) 0).0 ≡ pushed s)
                × (length s ≡ m))))
random_bytes_cases_example = random_bytes_cases same zeros (pos 3) 0 zeros-Fills

abbrev pw : List ℕ
pw = 1 ∷ 2 ∷ []

pbkdf2_sha256_cases_example :
    IsRefused pw pw (pos 9) (pos 4) (pbkdf2_sha256 same key_of pw pw (pos 9) (pos 4) 0).0
    ⊎ ((i : ℕ) × (d : ℕ) × (pos 9 ≡ pos i)
        × (pos 4 ≡ pos d)
        × AreShort pw pw
        × ((1 ≤ i) × (i ≤ 100000000))
        × ((1 ≤ d) × (d ≤ 1024))
        × ((((key_of pw (pos 2) pw (pos 2) (pos i) (pos d) 0).0 ≡ none)
              × ((pbkdf2_sha256 same key_of pw pw (pos 9) (pos 4) 0).0 ≡ kdf_failed))
            ⊎ ((s : List ℕ) × ((key_of pw (pos 2) pw (pos 2) (pos i) (pos d) 0).0 ≡ some s)
                × ((pbkdf2_sha256 same key_of pw pw (pos 9) (pos 4) 0).0 ≡ pushed s)
                × (length s ≡ d))))
pbkdf2_sha256_cases_example =
    pbkdf2_sha256_cases same key_of pw pw (pos 9) (pos 4) 0 (λ j k i. zeros-Fills)
