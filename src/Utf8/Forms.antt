-- ===== src/Utf8/Forms.antt =====
-- What `utf8ToWc` accepts, read backwards: the byte sequences behind a `good` answer, and how many
-- bytes a `bad` answer skips.
use luadch.Common.{
  ℕ, ◌+◌, ◌-◌, ◌*◌, ◌/◌, ◌%◌, ◌<◌, ◌≤◌, true, false, List, [], ◌∷◌, ◌++◌, ltb, ◌==◌, drop, length,
  ◌≡◌, refl, arith, IsByte, All, inl, inr, Bool-cases, ap₂, ◌&&◌, ◌||◌,
}
use native.Mathlib.Decide.{dec_lt}
use luadch.Utf8.{
  Decoded, good, bad, is_invalid_code_point, check_code_point, utf8_to_wc, utf8_bytes,
}
use luadch.Utf8.Decode.{
  is_cont, utf8_to_wc-ascii, utf8_to_wc-two, utf8_to_wc-three, utf8_to_wc-four, utf8_to_wc-stray,
  utf8_to_wc-invalid, Range, Range-of, ascii, stray, two, three, four, invalid,
}
use luadch.Utf8.Encode.{IsScalar, utf8_bytes_1, utf8_bytes_2, utf8_bytes_3, utf8_bytes_4}

-- A code point is written in its shortest form, or in four bytes though fewer would do.
pub data Form : Type 0 where
  shortest padded : ℕ → Form

abbrev pub code_point : Form → ℕ
code_point (shortest c) = c
code_point (padded c) = c

abbrev pub form_bytes : Form → List ℕ
form_bytes (shortest c) = utf8_bytes c
form_bytes (padded c) = 240 ∷ (128 + c / 4096) ∷ (128 + c / 64 % 64) ∷ (128 + c % 64) ∷ []

abbrev pub IsForm : Form → Type 0
IsForm (shortest c) = IsScalar c × Unit {0}
IsForm (padded c) = IsScalar c × (c < 0x10000)

-- `s` begins with the bytes of a form of the code point `c`, `n` of them.
pub record Reads (s : List ℕ) (c n : ℕ) : Type 0 where
  pub form : Form
  pub valid : IsForm form
  pub of_code : code_point form ≡ c
  pub split : s ≡ form_bytes form ++ drop n s
  pub count : n ≡ length (form_bytes form)

-- `Answer s d`: `d` reads a form off the front of `s`, or skips some of its bytes.
abbrev pub Answer : List ℕ → Decoded → Type 0
Answer s (good c n) = Reads s c n
Answer s (bad n) = (1 ≤ n) × (n ≤ length s)

checked :
    (s : List ℕ) (c n : ℕ)
    → (is_invalid_code_point c ≡ false → (n ≡ 2 → 0x80 ≤ c) → (n ≡ 3 → 0x800 ≤ c) → Reads s c n)
    → 1 ≤ n
    → n ≤ length s
    → Answer s (check_code_point (good c n))
unfolding check_code_point
checked s c n h lo hi = elim (Bool-cases (is_invalid_code_point c)) [
  | inl e ↦ rw e (lo, hi)
  | inr e ↦ rw e (elim (Bool-cases ((n == 2 && ltb c 0x80) || (n == 3 && ltb c 0x800))) [
    | inl f ↦ rw f (lo, hi)
    | inr f ↦ rw f (h e (λ p. ground arith) (λ p. ground arith))
  ])
]

IsScalar-of : (c : ℕ) → is_invalid_code_point c ≡ false → IsScalar c
unfolding is_invalid_code_point
IsScalar-of c h = ground arith

ascii_Reads : (b : ℕ) (s : List ℕ) → b < 128 → Reads (b ∷ s) b 1
ascii_Reads b s h = record {
  form = shortest b;
  valid = (omega arith, tt);
  of_code = refl;
  split = rw (utf8_bytes_1 b h) refl;
  count = rw (utf8_bytes_1 b h) refl;
}

two_Reads :
    (b0 b1 c : ℕ) (s : List ℕ)
    → 192 ≤ b0
    → b0 < 224
    → 128 ≤ b1
    → b1 < 192
    → c ≡ (b0 - 192) * 64 + b1 % 64
    → 0x80 ≤ c
    → IsScalar c
    → Reads (b0 ∷ b1 ∷ s) c 2
two_Reads b0 b1 c s lo hi lo1 hi1 e h v = record {
  form = shortest c;
  valid = (v, tt);
  of_code = refl;
  split = rw (utf8_bytes_2 c h (omega arith)) (ap₂ (λ x y. x ∷ y ∷ s) (omega arith) (omega arith));
  count = rw (utf8_bytes_2 c h (omega arith)) refl;
}

three_Reads :
    (b0 b1 b2 c : ℕ) (s : List ℕ)
    → 224 ≤ b0
    → b0 < 240
    → 128 ≤ b1
    → b1 < 192
    → 128 ≤ b2
    → b2 < 192
    → c ≡ ((b0 - 224) * 64 + b1 % 64) * 64 + b2 % 64
    → 0x800 ≤ c
    → IsScalar c
    → Reads (b0 ∷ b1 ∷ b2 ∷ s) c 3
three_Reads b0 b1 b2 c s lo hi lo1 hi1 lo2 hi2 e h v = record {
  form = shortest c;
  valid = (v, tt);
  of_code = refl;
  split = rw (utf8_bytes_3 c h (omega arith)) (ground arith);
  count = rw (utf8_bytes_3 c h (omega arith)) refl;
}

four_Reads :
    (b0 b1 b2 b3 c : ℕ) (s : List ℕ)
    → 240 ≤ b0
    → b0 < 248
    → 128 ≤ b1
    → b1 < 192
    → 128 ≤ b2
    → b2 < 192
    → 128 ≤ b3
    → b3 < 192
    → c ≡ (((b0 - 240) * 64 + b1 % 64) * 64 + b2 % 64) * 64 + b3 % 64
    → IsScalar c
    → Reads (b0 ∷ b1 ∷ b2 ∷ b3 ∷ s) c 4
four_Reads b0 b1 b2 b3 c s lo hi lo1 hi1 lo2 hi2 lo3 hi3 e v = elim (dec_lt c 0x10000) [
  | yes p ↦ record {
    form = padded c;
    valid = (v, p);
    of_code = refl;
    split = ground arith;
    count = refl;
  }
  | no p ↦ record {
    form = shortest c;
    valid = (v, tt);
    of_code = refl;
    split = rw (utf8_bytes_4 c (omega arith) v.0) (ground arith);
    count = rw (utf8_bytes_4 c (omega arith) v.0) refl;
  }
]

cont_bounds : (b : ℕ) → is_cont b ≡ true → (128 ≤ b) × (b < 192)
cont_bounds b h = ground arith

-- Each kind of sequence, with the text cut at each place.
module _ (b0 : ℕ) where
  answer_2 :
      (s : List ℕ) → All IsByte s → 192 ≤ b0 → b0 < 224 → Answer (b0 ∷ s) (utf8_to_wc (b0 ∷ s))
  answer_2 [] h lo hi = rw (utf8_to_wc-two b0 0 [] refl (omega arith) lo hi) (omega arith)
  answer_2 (b1 ∷ s) h lo hi =
      rw (utf8_to_wc-two b0 b1 (b1 ∷ s) refl h.0 lo hi) (elim (Bool-cases (is_cont b1)) [
        | inr f ↦ rw f (omega arith)
        | inl f ↦ rw f (
            let (p, q) = cont_bounds b1 f in
            checked _ _ 2 (λ v m _. two_Reads b0 b1 _ s lo hi p q refl (m refl) (IsScalar-of _ v))
              (omega arith) (omega arith))
      ])

  answer_3 :
      (s : List ℕ) → All IsByte s → 224 ≤ b0 → b0 < 240 → Answer (b0 ∷ s) (utf8_to_wc (b0 ∷ s))
  answer_3 [] h lo hi =
      rw (utf8_to_wc-three b0 0 [] refl (omega arith) 0 refl (omega arith) lo hi) (omega arith)
  answer_3 (b1 ∷ []) h lo hi =
      rw (utf8_to_wc-three b0 b1 (b1 ∷ []) refl h.0 0 refl (omega arith) lo hi)
        (elim (Bool-cases (is_cont b1)) [ inr f ↦ rw f (omega arith) | inl f ↦ rw f (omega arith) ])
  answer_3 (b1 ∷ b2 ∷ s) h lo hi =
      rw (utf8_to_wc-three b0 b1 (b1 ∷ b2 ∷ s) refl h.0 b2 refl h.1.0 lo hi)
        (elim (Bool-cases (is_cont b1)) [
          | inr f ↦ rw f (omega arith)
          | inl f ↦ rw f (elim (Bool-cases (is_cont b2)) [
            | inr g ↦ rw g (omega arith)
            | inl g ↦ rw g (
                let (p, q) = cont_bounds b1 f in
                let (p', q') = cont_bounds b2 g in
                checked _ _ 3
                  (λ v _ m.
                    three_Reads b0 b1 b2 _ s lo hi p q p' q' refl (m refl) (IsScalar-of _ v))
                  (omega arith) (omega arith))
          ])
        ])

  answer_4 :
      (s : List ℕ) → All IsByte s → 240 ≤ b0 → b0 < 248 → Answer (b0 ∷ s) (utf8_to_wc (b0 ∷ s))
  answer_4 [] h lo hi =
      rw
        (utf8_to_wc-four b0 0 [] refl (omega arith) 0 refl (omega arith) 0 refl (omega arith) lo hi)
        (omega arith)
  answer_4 (b1 ∷ []) h lo hi =
      rw (utf8_to_wc-four b0 b1 (b1 ∷ []) refl h.0 0 refl (omega arith) 0 refl (omega arith) lo hi)
        (elim (Bool-cases (is_cont b1)) [ inr f ↦ rw f (omega arith) | inl f ↦ rw f (omega arith) ])
  answer_4 (b1 ∷ b2 ∷ []) h lo hi =
      rw (utf8_to_wc-four b0 b1 (b1 ∷ b2 ∷ []) refl h.0 b2 refl h.1.0 0 refl (omega arith) lo hi)
        (elim (Bool-cases (is_cont b1)) [
          | inr f ↦ rw f (omega arith)
          | inl f ↦ rw f (elim (Bool-cases (is_cont b2)) [
            | inr g ↦ rw g (omega arith)
            | inl g ↦ rw g (omega arith)
          ])
        ])
  answer_4 (b1 ∷ b2 ∷ b3 ∷ s) h lo hi =
      rw (utf8_to_wc-four b0 b1 (b1 ∷ b2 ∷ b3 ∷ s) refl h.0 b2 refl h.1.0 b3 refl h.1.1.0 lo hi)
        (elim (Bool-cases (is_cont b1)) [
          | inr f ↦ rw f (omega arith)
          | inl f ↦ rw f (elim (Bool-cases (is_cont b2)) [
            | inr g ↦ rw g (omega arith)
            | inl g ↦ rw g (elim (Bool-cases (is_cont b3)) [
              | inr k ↦ rw k (omega arith)
              | inl k ↦ rw k (
                  let (p, q) = cont_bounds b1 f in
                  let (p', q') = cont_bounds b2 g in
                  let (r, t) = cont_bounds b3 k in
                  checked _ _ 4
                    (λ v _ _. four_Reads b0 b1 b2 b3 _ s lo hi p q p' q' r t refl (IsScalar-of _ v))
                    (omega arith) (omega arith))
            ])
          ])
        ])

answer_by_range :
    (b : ℕ) (s : List ℕ) → All IsByte s → Range b → Answer (b ∷ s) (utf8_to_wc (b ∷ s))
answer_by_range b s h (ascii p) = rw (utf8_to_wc-ascii b s p) (ascii_Reads b s p)
answer_by_range b s h (stray p q) = rw (utf8_to_wc-stray b s p q) (omega arith)
answer_by_range b s h (two p q) = answer_2 b s h p q
answer_by_range b s h (three p q) = answer_3 b s h p q
answer_by_range b s h (four p q) = answer_4 b s h p q
answer_by_range b s h (invalid p q) = rw (utf8_to_wc-invalid b s p q) (omega arith)

-- On any byte string that is not empty, a positive return of `utf8ToWc` has read a valid form
-- off its front, and a negative one skips one byte at least and none past the end.
pub utf8_to_wc-Answer :
    (b : ℕ) (s : List ℕ) → IsByte b → All IsByte s → Answer (b ∷ s) (utf8_to_wc (b ∷ s))
utf8_to_wc-Answer b s h hs = answer_by_range b s hs (Range-of b h)
