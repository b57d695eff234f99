-- ===== src/Hashes/Tests.antt =====
-- The theorems on the hash functions at concrete inputs.
use luadch.Common.{ℕ, List, [], ◌∷◌, ◌++◌, some, true, false, replicate, ◌≡◌, refl, ◌⊎◌, ◌↔◌, arith}
use luadch.Base32.{to_base32, to_base32_loop, base32_alpha, from_base32}
use luadch.Hashes.{out_of_range, refuses, hash_pid, hash_pas, hash_pas_oldschool, constant_time_eq}
use luadch.Hashes.Digest.{Digest}
use luadch.Hashes.Logins.{hash_pid-Digest, hash_pas_cases, hash_pas-Digest}
use luadch.Hashes.Compare.{constant_time_eq_iff}

abbrev memory : List ℕ
memory = replicate 64 0xcc

abbrev zeros : List ℕ
zeros = replicate 24 0

-- 39 times "A".
abbrev zeros_text : List ℕ
zeros_text = replicate 39 b'A'

zeros_encoded : to_base32 zeros ≡ some zeros_text
unfolding to_base32 to_base32_loop base32_alpha
zeros_encoded = refl

hash_pid-Digest_example : Digest (hash_pid memory zeros_text) zeros
hash_pid-Digest_example =
    hash_pid-Digest memory zeros zeros_text refl (omega arith) refl zeros_encoded

hash_pas-Digest_example :
    Digest (hash_pas memory (b'p' ∷ b'w' ∷ []) zeros_text) ((b'p' ∷ b'w' ∷ []) ++ zeros)
hash_pas-Digest_example =
    hash_pas-Digest memory (b'p' ∷ b'w' ∷ []) zeros zeros_text refl (omega arith) (omega arith)
      (omega arith) zeros_encoded

hash_pas_cases_example :
    ((refuses 1 ≡ true)
      × (hash_pas memory [] (b'A' ∷ b'A' ∷ []) ≡ some (out_of_range 1))
      × (hash_pas_oldschool memory [] (b'A' ∷ b'A' ∷ []) zeros_text ≡ some (out_of_range 1)))
    ⊎ ((refuses 1 ≡ false)
        × Digest (hash_pas memory [] (b'A' ∷ b'A' ∷ [])) ([] ++ from_base32 (b'A' ∷ b'A' ∷ []) 1)
        × Digest
            (hash_pas_oldschool memory [] (b'A' ∷ b'A' ∷ []) zeros_text)
            ((from_base32 zeros_text 24 ++ []) ++ from_base32 (b'A' ∷ b'A' ∷ []) 1))
hash_pas_cases_example = hash_pas_cases memory [] (b'A' ∷ b'A' ∷ []) zeros_text refl

abbrev cid : List ℕ
cid = 1 ∷ 2 ∷ []

abbrev other : List ℕ
other = 1 ∷ 3 ∷ []

constant_time_eq_iff_example : (constant_time_eq cid other ≡ true) ↔ (cid ≡ other)
constant_time_eq_iff_example = constant_time_eq_iff cid other (omega arith) (omega arith)
