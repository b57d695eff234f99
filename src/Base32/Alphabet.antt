-- ===== src/Base32/Alphabet.antt =====
-- The characters of the 32 digits, and how a round of `FROMBASE32` reads one.
use luadch.Common.{
  ℕ, ◌<◌, Bool, true, false, not, ◌&&◌, List, ◌∷◌, none, some, ◌==◌, get_or, map, ◌≡◌, refl, arith,
}
use luadch.Common.Tables.{all_below, all_below_lem}
use luadch.Base32.{base32_alpha, base32_table, values, leave, go_on, put_digit, from_base32_loop}

unfoldable pub char_of : ℕ → ℕ
char_of d = get_or base32_alpha d 0

abbrev pub chars : List ℕ → List ℕ
chars = map char_of

holds : ℕ → Bool
holds d =
    not (char_of d == 0)
    && elim (get_or base32_table (char_of d) none) [ none ↦ false | some v ↦ v == d ]

-- Both tables agree on the 32 digits.
pub table-char_of :
    (d : ℕ) → d < 32 → ((char_of d == 0) ≡ false) × (get_or base32_table (char_of d) none ≡ some d)
table-char_of d h = parts (
    all_below_lem holds 32 (unfold all_below holds char_of base32_alpha base32_table values in refl)
      d h)
  where
    parts :
        holds d ≡ true
        → ((char_of d == 0) ≡ false) × (get_or base32_table (char_of d) none ≡ some d)
    parts e = unfold holds in ground arith

module _ (d : ℕ) (small : d < 32) (s : List ℕ) (size key at : ℕ) (buffer : List ℕ) where
  pub from_base32_loop-leave :
      (out : List ℕ)
      → put_digit size key at buffer d ≡ leave out
      → from_base32_loop (char_of d ∷ s) size key at buffer ≡ out
  unfolding from_base32_loop
  from_base32_loop-leave out e =
      let (z, t) = table-char_of d small in
      rw (z, from_base32_loop) (rw (t, from_base32_loop) (rw (e, from_base32_loop) refl))

  pub from_base32_loop-go_on :
      (key' at' : ℕ) (buffer' : List ℕ)
      → put_digit size key at buffer d ≡ go_on key' at' buffer'
      → from_base32_loop (char_of d ∷ s) size key at buffer
        ≡ from_base32_loop s size key' at' buffer'
  unfolding from_base32_loop
  from_base32_loop-go_on key' at' buffer' e =
      let (z, t) = table-char_of d small in
      rw (z, from_base32_loop) (rw (t, from_base32_loop) (rw (e, from_base32_loop) refl))
