-- ===== src/Base32/Rounds.antt =====
-- A round of the decoder on the digit that the encoder wrote at the same `key`: the buffer holds the
-- bytes that are done, then the bits that are read of the current byte, then zeros.
use luadch.Common.{
  ℕ, ◌+◌, ◌-◌, ◌*◌, ◌/◌, ◌%◌, ◌^◌, ◌<◌, ◌≤◌, bit_or, true, false, List, [], ◌∷◌, ◌++◌, ◌==◌, length,
  length-append, u8, ◌≡◌, sym, ap, ◌∙◌, arith, IsByte, get_or-append, set-append, append_assoc, ◌≢◌,
}
use native.Mathlib.Nat.{mod-eq_of_lt}
use luadch.Common.Bits.{bit_or_join, zero-bit_or}
use luadch.Base32.{leave, go_on, or_into, put_digit}
use luadch.Base32.Steps.{Key, k0, k1, k2, k3, k4, k5, k6, k7, digit}

-- The `key` high bits of a byte, in their place.
abbrev pub cell : ℕ → ℕ → ℕ
cell b key = b / 2 ^ (8 - key) * 2 ^ (8 - key)

or_into_at :
    (done : List ℕ) (v x w at : ℕ) (rest : List ℕ)
    → at ≡ length done
    → u8 (bit_or v x) ≡ w
    → or_into (done ++ (v ∷ rest)) at x ≡ done ++ (w ∷ rest)
unfolding or_into
or_into_at done v x w at rest e f =
    rw (get_or-append done v 0 rest at e, f) (set-append done v w rest at e)

join : (k q r w : ℕ) → r < 2 ^ k → q * 2 ^ k + r ≡ w → IsByte w → u8 (bit_or (q * 2 ^ k) r) ≡ w
join k q r w h e b = rw (bit_or_join k q r h, e) (mod-eq_of_lt b)

module _ (done : List ℕ) (at size b next : ℕ) (here : at ≡ length done) (hb : IsByte b)
    (hn : IsByte next) where
  -- Two digits begin in a byte at most before its end is reached.
  pub put_digit-inside :
      (key : ℕ) (rest : List ℕ)
      → Key key
      → key < 3
      → put_digit size key at (done ++ (cell b key ∷ rest)) (digit b next key)
        ≡ go_on (key + 5) at (done ++ (cell b (key + 5) ∷ rest))
  unfolding put_digit
  put_digit-inside key rest k0 h = ap (go_on 5 at) (
      or_into_at done _ _ _ at rest here
        (join 8 (b / 256) (b / 8 % 32 * 8) _ (omega arith) (omega arith) (omega arith)))
  put_digit-inside key rest k1 h = ap (go_on 6 at) (
      or_into_at done _ _ _ at rest here
        (join 7 (b / 128) (b / 4 % 32 * 4) _ (omega arith) (omega arith) (omega arith)))
  put_digit-inside key rest k2 h = ap (go_on 7 at) (
      or_into_at done _ _ _ at rest here
        (join 6 (b / 64) (b / 2 % 32 * 2) _ (omega arith) (omega arith) (omega arith)))
  put_digit-inside key rest k3 h = absurd (omega arith)
  put_digit-inside key rest k4 h = absurd (omega arith)
  put_digit-inside key rest k5 h = absurd (omega arith)
  put_digit-inside key rest k6 h = absurd (omega arith)
  put_digit-inside key rest k7 h = absurd (omega arith)

  -- The part of the digit that ends the byte.
  ends :
      (key : ℕ) (rest : List ℕ)
      → Key key
      → 3 ≤ key
      → or_into (done ++ (cell b key ∷ rest)) at (digit b next key / 2 ^ (key - 3))
        ≡ done ++ (b ∷ rest)
  ends key rest k0 h = absurd (omega arith)
  ends key rest k1 h = absurd (omega arith)
  ends key rest k2 h = absurd (omega arith)
  ends key rest k3 h =
      or_into_at done _ _ _ at rest here
        (join 5 (b / 32) (b / 1 % 32 / 1) b (omega arith) (omega arith) hb)
  ends key rest k4 h =
      or_into_at done _ _ _ at rest here
        (join 4 (b / 16) ((b % 16 * 2 + next / 128) / 2) b (omega arith) (omega arith) hb)
  ends key rest k5 h =
      or_into_at done _ _ _ at rest here
        (join 3 (b / 8) ((b % 8 * 4 + next / 64) / 4) b (omega arith) (omega arith) hb)
  ends key rest k6 h =
      or_into_at done _ _ _ at rest here
        (join 2 (b / 4) ((b % 4 * 8 + next / 32) / 8) b (omega arith) (omega arith) hb)
  ends key rest k7 h =
      or_into_at done _ _ _ at rest here
        (join 1 (b / 2) ((b % 2 * 16 + next / 16) / 16) b (omega arith) (omega arith) hb)

  ends_exactly :
      (rest : List ℕ) → or_into (done ++ (cell b 3 ∷ rest)) at (digit b next 3) ≡ done ++ (b ∷ rest)
  ends_exactly rest =
      or_into_at done _ _ _ at rest here
        (join 5 (b / 32) (b / 1 % 32) b (omega arith) (omega arith) hb)

  seam : at + 1 ≡ length (done ++ (b ∷ []))
  seam = rw length-append (omega arith)

  -- The part that begins the next byte.
  begins :
      (key : ℕ) (rest : List ℕ)
      → Key key
      → 4 ≤ key
      → or_into ((done ++ (b ∷ [])) ++ (0 ∷ rest)) (at + 1) (digit b next key * 2 ^ (8 - (key - 3)))
        ≡ (done ++ (b ∷ [])) ++ (cell next (key - 3) ∷ rest)
  begins key rest k0 h = absurd (omega arith)
  begins key rest k1 h = absurd (omega arith)
  begins key rest k2 h = absurd (omega arith)
  begins key rest k3 h = absurd (omega arith)
  begins key rest k4 h =
      or_into_at (done ++ (b ∷ [])) 0 _ _ (at + 1) rest seam (rw zero-bit_or (omega arith))
  begins key rest k5 h =
      or_into_at (done ++ (b ∷ [])) 0 _ _ (at + 1) rest seam (rw zero-bit_or (omega arith))
  begins key rest k6 h =
      or_into_at (done ++ (b ∷ [])) 0 _ _ (at + 1) rest seam (rw zero-bit_or (omega arith))
  begins key rest k7 h =
      or_into_at (done ++ (b ∷ [])) 0 _ _ (at + 1) rest seam (rw zero-bit_or (omega arith))

  -- The round that ends the last byte leaves the loop.
  pub put_digit-last :
      (key : ℕ)
      → Key key
      → 3 ≤ key
      → at + 1 ≡ size
      → put_digit size key at (done ++ (cell b key ∷ [])) (digit b next key)
        ≡ leave (done ++ (b ∷ []))
  unfolding put_digit
  put_digit-last key k h e = last key k h (ground arith)
    where
      last :
          (key : ℕ)
          → Key key
          → 3 ≤ key
          → (at + 1 == size) ≡ true
          → put_digit size key at (done ++ (cell b key ∷ [])) (digit b next key)
            ≡ leave (done ++ (b ∷ []))
      last key k0 h e = absurd (omega arith)
      last key k1 h e = absurd (omega arith)
      last key k2 h e = absurd (omega arith)
      last key k3 h e = rw e (ap leave (ends_exactly []))
      last key k4 h e = rw e (ap leave (ends key [] k4 h))
      last key k5 h e = rw e (ap leave (ends key [] k5 h))
      last key k6 h e = rw e (ap leave (ends key [] k6 h))
      last key k7 h e = rw e (ap leave (ends key [] k7 h))

  step_over : (v : ℕ) (rest : List ℕ) → done ++ (b ∷ v ∷ rest) ≡ (done ++ (b ∷ [])) ++ (v ∷ rest)
  step_over v rest = sym (append_assoc done (b ∷ []) (v ∷ rest))

  crosses :
      (key : ℕ) (rest : List ℕ)
      → Key key
      → 4 ≤ key
      → or_into
          (or_into (done ++ (cell b key ∷ 0 ∷ rest)) at (digit b next key / 2 ^ (key - 3)))
          (at + 1)
          (digit b next key * 2 ^ (8 - (key - 3)))
        ≡ (done ++ (b ∷ [])) ++ (cell next (key - 3) ∷ rest)
  crosses key rest k h =
      rw (ends key (0 ∷ rest) k (omega arith), step_over 0 rest) (begins key rest k h)

  -- The round that ends a byte before the last puts the rest of its digit into the next byte.
  pub put_digit-next :
      (key : ℕ) (rest : List ℕ)
      → Key key
      → 3 ≤ key
      → at + 1 ≢ size
      → put_digit size key at (done ++ (cell b key ∷ 0 ∷ rest)) (digit b next key)
        ≡ go_on (key - 3) (at + 1) ((done ++ (b ∷ [])) ++ (cell next (key - 3) ∷ rest))
  unfolding put_digit
  put_digit-next key rest k h e = across key k h (ground arith)
    where
      across :
          (key : ℕ)
          → Key key
          → 3 ≤ key
          → (at + 1 == size) ≡ false
          → put_digit size key at (done ++ (cell b key ∷ 0 ∷ rest)) (digit b next key)
            ≡ go_on (key - 3) (at + 1) ((done ++ (b ∷ [])) ++ (cell next (key - 3) ∷ rest))
      across key k0 h e = absurd (omega arith)
      across key k1 h e = absurd (omega arith)
      across key k2 h e = absurd (omega arith)
      across key k3 h e = rw e (
          ap (go_on 0 (at + 1)) (
            ends_exactly (0 ∷ rest)
            ∙ step_over 0 rest
            ∙ ap (λ v. (done ++ (b ∷ [])) ++ (v ∷ rest)) (omega arith)))
      across key k4 h e = rw e (ap (go_on 1 (at + 1)) (crosses key rest k4 (omega arith)))
      across key k5 h e = rw e (ap (go_on 2 (at + 1)) (crosses key rest k5 (omega arith)))
      across key k6 h e = rw e (ap (go_on 3 (at + 1)) (crosses key rest k6 (omega arith)))
      across key k7 h e = rw e (ap (go_on 4 (at + 1)) (crosses key rest k7 (omega arith)))
