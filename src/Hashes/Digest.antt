-- ===== src/Hashes/Digest.antt =====
-- What the hash functions push: the Base32 text of the hash of some bytes.
use luadch.Common.{
  ℕ, zero, suc, ◌/◌, List, ◌++◌, Option, some, length, ◌≡◌, ◌∙◌, arith, IsByte, All, All-append,
  length-append,
}
use luadch.Base32.{to_base32, from_base32}
use luadch.Tiger.Compress.{Words3}
use luadch.Tiger.Hash.{to_bytes, get_result}
use luadch.Tiger.Spec.{tiger}
use luadch.Tiger.Finalize.{length-to_bytes}
use luadch.Hashes.{Outcome, pushed}

to_bytes-IsByte : (count x : ℕ) → All IsByte (to_bytes count x)
unfolding to_bytes
to_bytes-IsByte zero x = tt
to_bytes-IsByte (suc count) x = (omega arith, to_bytes-IsByte count (x / 256))

get_result-IsHash : (r : Words3) → (length (get_result r) ≡ 24) × All IsByte (get_result r)
unfolding get_result
get_result-IsHash r = (
  length-append (to_bytes 8 r.a) (to_bytes 8 r.b ++ to_bytes 8 r.c)
      ∙ omega (
        arith,
        length-append (to_bytes 8 r.b) (to_bytes 8 r.c),
        length-to_bytes 8 r.a,
        length-to_bytes 8 r.b,
        length-to_bytes 8 r.c,
      ),
  All-append IsByte (to_bytes 8 r.a) (to_bytes 8 r.b ++ to_bytes 8 r.c) (to_bytes-IsByte 8 r.a) (
      All-append IsByte (to_bytes 8 r.b) (to_bytes 8 r.c) (to_bytes-IsByte 8 r.b)
        (to_bytes-IsByte 8 r.c)),
)

pub tiger-IsHash : (msg : List ℕ) → (length (tiger msg) ≡ 24) × All IsByte (tiger msg)
unfolding tiger
tiger-IsHash msg = get_result-IsHash _

-- The outcome is the text of 39 characters that encodes the hash of `msg`.
abbrev pub Digest : Option Outcome → List ℕ → Type 0
Digest r msg =
    (text : List ℕ) × (r ≡ some (pushed text))
    × (to_base32 (tiger msg) ≡ some text)
    × (length text ≡ 39)
    × (from_base32 text 24 ≡ tiger msg)
