-- ===== src/Utf8/Decode.antt =====
-- `utf8ToWc` by the value of the lead byte, in plain arithmetic.
use luadch.Common.{
  ℕ, zero, suc, ◌+◌, ◌-◌, ◌*◌, ◌%◌, ◌^◌, ◌<◌, ◌≤◌, Bool, ◌&&◌, List, [], ◌∷◌, ltb, leb,
  if◌then◌else◌, get_or, ◌≡◌, refl, arith, IsByte, All,
}
use native.Mathlib.Decide.{dec_lt}
use luadch.Common.Bits.{bit_or_join, bit_and_low}
use luadch.Utf8.{Decoded, good, bad, read_rest, check_code_point, utf8_to_wc}
use luadch.Utf8.Masks.{
  Lead, Lead-2, Lead-3, Lead-4, too_many_ones, no_lead, is_continuation, is_ascii,
}

abbrev pub is_cont : ℕ → Bool
is_cont b = leb 128 b && ltb b 192

pub get_or-IsByte : (s : List ℕ) (i : ℕ) → All IsByte s → IsByte (get_or s i 0)
get_or-IsByte [] i h = omega arith
get_or-IsByte (b ∷ s) zero h = h.0
get_or-IsByte (b ∷ s) (suc i) h = get_or-IsByte s i h.1

-- One round of the loop over the continuation bytes.
read_rest-suc :
    (str : List ℕ) (left i c b : ℕ)
    → get_or str i 0 ≡ b
    → IsByte b
    → read_rest str (suc left) i c
      ≡ (if is_cont b then read_rest str left (i + 1) (c * 64 + b % 64) else bad i)
unfolding read_rest
read_rest-suc str left i c b e h =
    rw (e, is_continuation b h, bit_and_low 6 b, bit_or_join 6 c (b % 64) (omega arith)) refl

abbrev pub decode_2 : ℕ → ℕ → Decoded
decode_2 b0 b1 = if is_cont b1 then check_code_point (good ((b0 - 192) * 64 + b1 % 64) 2) else bad 1

abbrev pub decode_3 : ℕ → ℕ → ℕ → Decoded
decode_3 b0 b1 b2 =
    if is_cont b1
    then if is_cont b2
      then check_code_point (good (((b0 - 224) * 64 + b1 % 64) * 64 + b2 % 64) 3)
      else bad 2
    else bad 1

abbrev pub decode_4 : ℕ → ℕ → ℕ → ℕ → Decoded
decode_4 b0 b1 b2 b3 =
    if is_cont b1
    then if is_cont b2
      then if is_cont b3
        then check_code_point (good ((((b0 - 240) * 64 + b1 % 64) * 64 + b2 % 64) * 64 + b3 % 64) 4)
        else bad 3
      else bad 2
    else bad 1

pub utf8_to_wc-ascii : (b : ℕ) (s : List ℕ) → b < 128 → utf8_to_wc (b ∷ s) ≡ good b 1
unfolding utf8_to_wc
utf8_to_wc-ascii b s h = ground (arith, no_lead b, is_ascii b)

pub utf8_to_wc-stray : (b : ℕ) (s : List ℕ) → 128 ≤ b → b < 192 → utf8_to_wc (b ∷ s) ≡ bad 1
unfolding utf8_to_wc
utf8_to_wc-stray b s lo hi = ground (arith, no_lead b, is_ascii b)

pub utf8_to_wc-invalid : (b : ℕ) (s : List ℕ) → 248 ≤ b → b < 256 → utf8_to_wc (b ∷ s) ≡ bad 1
unfolding utf8_to_wc
utf8_to_wc-invalid b s lo hi =
    let (multi, len, ones) = too_many_ones b lo hi in rw (multi, len, ones) refl

-- With a lead byte that passes its checks, the loop runs over `bytes - 1` continuation bytes.
utf8_to_wc-Lead :
    (b bytes payload : ℕ) (s : List ℕ)
    → Lead b bytes (2 ^ (7 - bytes)) payload
    → utf8_to_wc (b ∷ s) ≡ check_code_point (read_rest (b ∷ s) (bytes - 1) 1 payload)
unfolding utf8_to_wc
utf8_to_wc-Lead b bytes payload s l = rw (l.multibyte, l.length, l.clear, l.bits) refl

read_rest-zero : (str : List ℕ) (i c : ℕ) → read_rest str 0 i c ≡ good c i
unfolding read_rest
read_rest-zero str i c = refl

check-bad : (n : ℕ) → check_code_point (bad n) ≡ bad n
unfolding check_code_point
check-bad n = refl

module _ (b0 b1 : ℕ) (s : List ℕ) (e1 : get_or s 0 0 ≡ b1) (h1 : IsByte b1) where
  pub utf8_to_wc-two : 192 ≤ b0 → b0 < 224 → utf8_to_wc (b0 ∷ s) ≡ decode_2 b0 b1
  utf8_to_wc-two lo hi = rw (utf8_to_wc-Lead b0 2 (b0 - 192) s (Lead-2 b0 lo hi)) (
      ground (
        arith,
        read_rest-suc (b0 ∷ s) 0 1 (b0 - 192) b1 e1 h1,
        read_rest-zero (b0 ∷ s) 2 ((b0 - 192) * 64 + b1 % 64),
        check-bad 1,
      ))

  module _ (b2 : ℕ) (e2 : get_or s 1 0 ≡ b2) (h2 : IsByte b2) where
    pub utf8_to_wc-three : 224 ≤ b0 → b0 < 240 → utf8_to_wc (b0 ∷ s) ≡ decode_3 b0 b1 b2
    utf8_to_wc-three lo hi =
        let c = (b0 - 224) * 64 + b1 % 64 in
        rw (utf8_to_wc-Lead b0 3 (b0 - 224) s (Lead-3 b0 lo hi)) (
          ground (
            arith,
            read_rest-suc (b0 ∷ s) 1 1 (b0 - 224) b1 e1 h1,
            read_rest-suc (b0 ∷ s) 0 2 c b2 e2 h2,
            read_rest-zero (b0 ∷ s) 3 (c * 64 + b2 % 64),
            check-bad 1,
            check-bad 2,
          ))

    pub utf8_to_wc-four :
        (b3 : ℕ)
        → get_or s 2 0 ≡ b3
        → IsByte b3
        → 240 ≤ b0
        → b0 < 248
        → utf8_to_wc (b0 ∷ s) ≡ decode_4 b0 b1 b2 b3
    utf8_to_wc-four b3 e3 h3 lo hi =
        let c = (b0 - 240) * 64 + b1 % 64 in
        rw (utf8_to_wc-Lead b0 4 (b0 - 240) s (Lead-4 b0 lo hi)) (
          ground (
            arith,
            read_rest-suc (b0 ∷ s) 2 1 (b0 - 240) b1 e1 h1,
            read_rest-suc (b0 ∷ s) 1 2 c b2 e2 h2,
            read_rest-suc (b0 ∷ s) 0 3 (c * 64 + b2 % 64) b3 e3 h3,
            read_rest-zero (b0 ∷ s) 4 ((c * 64 + b2 % 64) * 64 + b3 % 64),
            check-bad 1,
            check-bad 2,
            check-bad 3,
          ))

-- Where the lead byte lies.
pub data Range (b : ℕ) : Type 0 where
  ascii : b < 128 → Range b
  stray : 128 ≤ b → b < 192 → Range b
  two : 192 ≤ b → b < 224 → Range b
  three : 224 ≤ b → b < 240 → Range b
  four : 240 ≤ b → b < 248 → Range b
  invalid : 248 ≤ b → b < 256 → Range b

pub Range-of : (b : ℕ) → IsByte b → Range b
Range-of b h = elim (dec_lt b 128) [
  | yes p ↦ ascii p
  | no p ↦ elim (dec_lt b 192) [
    | yes q ↦ stray (omega arith) q
    | no q ↦ elim (dec_lt b 224) [
      | yes r ↦ two (omega arith) r
      | no r ↦ elim (dec_lt b 240) [
        | yes t ↦ three (omega arith) t
        | no t ↦ elim (dec_lt b 248) [
          | yes u ↦ four (omega arith) u
          | no u ↦ invalid (omega arith) h
        ]
      ]
    ]
  ]
]
