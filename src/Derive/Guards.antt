-- ===== src/Derive/Guards.antt =====
-- The guards let only numbers through that the casts to `int` keep and that the buffers hold.
use luadch.Common.{
  ℕ, ◌≤◌, true, false, ◌||◌, List, Option, none, some, ltb, length, ◌≡◌, refl, ap, ap₂, sym, ◌∙◌,
  ◌⊎◌, inl, inr, arith, Bool-cases, take_all,
}
use luadch.Common.Ints.{ℤ, pos, to_int, is_outside, is_outside-between, to_int_small}
use luadch.Derive.{
  Outcome, pushed, bad_count, not_seeded, too_large, bad_iterations, bad_length, kdf_failed,
  max_random, max_iterations, max_dklen, max_int, push_random, random_bytes, push_key,
  pbkdf2_sha256,
}

-- What `RAND_bytes` and `PKCS5_PBKDF2_HMAC` promise: a success writes the bytes asked for.
abbrev pub Fills : {W : Type 0} → (ℤ → W → Option (List ℕ) × W) → Type 0
Fills {W} f = (n : ℕ) (w w' : W) (s : List ℕ) → f (pos n) w ≡ (some s, w') → length s ≡ n

-- A natural number from `lo` to `hi`.
abbrev pub Between : ℕ → ℕ → ℤ → Type 0
Between lo hi n = (m : ℕ) × (n ≡ pos m) × (lo ≤ m) × (m ≤ hi)

outside-Between : (lo hi : ℕ) (n : ℤ) → is_outside lo hi n ≡ true → ¬ Between lo hi n
outside-Between lo hi n e (m, same, least, most) =
    let inside : is_outside lo hi (pos m) ≡ false = ground arith in
    let both : true ≡ false = sym e ∙ (ap (is_outside lo hi) same ∙ inside) in ground arith

module _ {W : Type 0} (clear : W → W) where
  -- What is pushed of the bytes that a call wrote.
  random_cases :
      (m : ℕ) (r : Option (List ℕ) × W)
      → ((s : List ℕ) (w' : W) → r ≡ (some s, w') → length s ≡ m)
      → ((r.0 ≡ none) × ((push_random clear m r).0 ≡ not_seeded))
        ⊎ ((s : List ℕ) × (r.0 ≡ some s) × ((push_random clear m r).0 ≡ pushed s) × (length s ≡ m))
  random_cases m (none, w) h = inl (refl, refl)
  random_cases m (some s, w) h =
      inr (s, refl, ap pushed (take_all m s (omega (arith, h s w refl))), h s w refl)

  key_cases :
      (m : ℕ) (r : Option (List ℕ) × W)
      → ((s : List ℕ) (w' : W) → r ≡ (some s, w') → length s ≡ m)
      → ((r.0 ≡ none) × ((push_key clear m r).0 ≡ kdf_failed))
        ⊎ ((s : List ℕ) × (r.0 ≡ some s) × ((push_key clear m r).0 ≡ pushed s) × (length s ≡ m))
  key_cases m (none, w) h = inl (refl, refl)
  key_cases m (some s, w) h =
      inr (s, refl, ap pushed (take_all m s (omega (arith, h s w refl))), h s w refl)

  random_bytes_lem :
      (rand : ℤ → W → Option (List ℕ) × W) (m : ℕ) (w : W)
      → 1 ≤ m
      → m ≤ max_random
      → random_bytes clear rand (pos m) w ≡ push_random clear m (rand (pos m) (clear w))
  unfolding random_bytes
  random_bytes_lem rand m w lo hi =
      let inside : is_outside 1 max_random (pos m) ≡ false = ground arith in
      rw (inside, random_bytes)
        (ap (λ k. push_random clear m (rand k (clear w))) (to_int_small m (omega arith)))

  pbkdf2_lem :
      (kdf : List ℕ → ℤ → List ℕ → ℤ → ℤ → ℤ → W → Option (List ℕ) × W) (pw salt : List ℕ) (i d : ℕ)
      (w : W)
      → length pw ≤ max_int
      → length salt ≤ max_int
      → 1 ≤ i
      → i ≤ max_iterations
      → 1 ≤ d
      → d ≤ max_dklen
      → pbkdf2_sha256 clear kdf pw salt (pos i) (pos d) w
        ≡ push_key clear d
            (kdf pw (pos (length pw)) salt (pos (length salt)) (pos i) (pos d) (clear w))
  unfolding pbkdf2_sha256
  pbkdf2_lem kdf pw salt i d w p q lo hi least most =
      let fits : (ltb max_int (length pw) || ltb max_int (length salt)) ≡ false = ground arith in
      let inside : is_outside 1 max_iterations (pos i) ≡ false = ground arith in
      let sized : is_outside 1 max_dklen (pos d) ≡ false = ground arith in
      rw (fits, inside, sized, pbkdf2_sha256)
        (rw
          (
            to_int_small (length pw) (omega arith),
            to_int_small (length salt) (omega arith),
            to_int_small i (omega arith),
            to_int_small d (omega arith),
          )
          refl)

-- For a generator that writes the bytes asked for on success, `random_bytes` raises an error
-- that names the `int` of the count when the count is not a number from 1 to 4096; and else it
-- asks the generator for that many bytes, and raises an error when the generator fails or
-- pushes the bytes that it writes, as many as were asked for.
pub random_bytes_cases :
    {W : Type 0} (clear : W → W) (rand : ℤ → W → Option (List ℕ) × W) (n : ℤ) (w : W)
    → Fills rand
    → ((¬ Between 1 max_random n) × ((random_bytes clear rand n w).0 ≡ bad_count (to_int n)))
      ⊎ ((m : ℕ) × (n ≡ pos m)
          × (1 ≤ m)
          × (m ≤ max_random)
          × ((((rand (pos m) (clear w)).0 ≡ none) × ((random_bytes clear rand n w).0 ≡ not_seeded))
              ⊎ ((s : List ℕ) × ((rand (pos m) (clear w)).0 ≡ some s)
                  × ((random_bytes clear rand n w).0 ≡ pushed s)
                  × (length s ≡ m))))
unfolding random_bytes
random_bytes_cases clear rand n w fills = elim (Bool-cases (is_outside 1 max_random n)) [
  | inl e ↦ inl (outside-Between 1 max_random n e, rw (e, random_bytes) refl)
  | inr e ↦
      let (m, same, lo, hi) = is_outside-between 1 max_random n e in
      let run : random_bytes clear rand n w ≡ push_random clear m (rand (pos m) (clear w)) =
        ap (λ k. random_bytes clear rand k w) same ∙ random_bytes_lem clear rand m w lo hi in
      inr (
        m,
        same,
        lo,
        hi,
        rw run (random_cases clear m (rand (pos m) (clear w)) (λ s w' f. fills m (clear w) w' s f)),
      )
]

-- Strings whose lengths are values of an `int`.
abbrev pub AreShort : List ℕ → List ℕ → Type 0
AreShort pw salt = (length pw ≤ max_int) × (length salt ≤ max_int)

-- The refusals of `pbkdf2_sha256`, each with what the tests before it found.
abbrev pub IsRefused : List ℕ → List ℕ → ℤ → ℤ → Outcome → Type 0
IsRefused pw salt iters dklen out =
    ((¬ AreShort pw salt) × (out ≡ too_large))
    ⊎ ((AreShort pw salt × (¬ Between 1 max_iterations iters) × (out ≡ bad_iterations))
        ⊎ (AreShort pw salt
            × Between 1 max_iterations iters
            × (¬ Between 1 max_dklen dklen)
            × (out ≡ bad_length)))

-- For a derivation that writes the bytes asked for on success, `pbkdf2_sha256` refuses a string
-- longer than an `int` can say; else a number of iterations that is not in 1 to 100000000; else
-- a length that is not in 1 to 1024, each with its error; and else it calls the derivation with
-- these numbers, uncut by the casts to `int`, and raises an error when that fails or pushes the
-- key that it writes, which has the length asked for.
pub pbkdf2_sha256_cases :
    {W : Type 0} (clear : W → W) (kdf : List ℕ → ℤ → List ℕ → ℤ → ℤ → ℤ → W → Option (List ℕ) × W)
    (pw salt : List ℕ) (iters dklen : ℤ) (w : W)
    → ((j : ℤ) (k : ℤ) (i : ℤ) → Fills (kdf pw j salt k i))
    → IsRefused pw salt iters dklen (pbkdf2_sha256 clear kdf pw salt iters dklen w).0
      ⊎ ((i : ℕ) × (d : ℕ) × (iters ≡ pos i)
          × (dklen ≡ pos d)
          × AreShort pw salt
          × ((1 ≤ i) × (i ≤ max_iterations))
          × ((1 ≤ d) × (d ≤ max_dklen))
          × ((((kdf pw (pos (length pw)) salt (pos (length salt)) (pos i) (pos d) (clear w)).0
                  ≡ none)
                × ((pbkdf2_sha256 clear kdf pw salt iters dklen w).0 ≡ kdf_failed))
              ⊎ ((s : List ℕ) × ((kdf pw
                      (pos (length pw))
                      salt
                      (pos (length salt))
                      (pos i)
                      (pos d)
                      (clear w)).0
                    ≡ some s)
                  × ((pbkdf2_sha256 clear kdf pw salt iters dklen w).0 ≡ pushed s)
                  × (length s ≡ d))))
unfolding pbkdf2_sha256
pbkdf2_sha256_cases clear kdf pw salt iters dklen w fills =
    elim (Bool-cases (ltb max_int (length pw) || ltb max_int (length salt))) [
      | inl a ↦ inl (inl (λ short. ground arith, rw (a, pbkdf2_sha256) refl))
      | inr a ↦
          let short : AreShort pw salt = (ground arith, ground arith) in
          elim (Bool-cases (is_outside 1 max_iterations iters)) [
            | inl b ↦
                let out = outside-Between 1 max_iterations iters b in
                inl (inr (inl (short, out, rw (a, b, pbkdf2_sha256) refl)))
            | inr b ↦ elim (Bool-cases (is_outside 1 max_dklen dklen)) [
              | inl c ↦
                  let inside = is_outside-between 1 max_iterations iters b in
                  let out = outside-Between 1 max_dklen dklen c in
                  inl (inr (inr (short, inside, out, rw (a, b, c, pbkdf2_sha256) refl)))
              | inr c ↦
                  let (i, same, lo, hi) = is_outside-between 1 max_iterations iters b in
                  let (d, same', least, most) = is_outside-between 1 max_dklen dklen c in
                  let r =
                    kdf pw (pos (length pw)) salt (pos (length salt)) (pos i) (pos d) (clear w) in
                  let run : pbkdf2_sha256 clear kdf pw salt iters dklen w ≡ push_key clear d r =
                    ap₂ (λ x y. pbkdf2_sha256 clear kdf pw salt x y w) same same'
                    ∙ pbkdf2_lem clear kdf pw salt i d w short.0 short.1 lo hi least most in
                  inr (
                    i,
                    d,
                    same,
                    same',
                    short,
                    (lo, hi),
                    (least, most),
                    rw run (
                        key_cases clear d r (λ s w' f.
                          fills (pos (length pw)) (pos (length salt)) (pos i) d (clear w) w' s f)),
                  )
            ]
          ]
    ]
