-- ===== src/Base32/Letters.antt =====
-- Which characters `FROMBASE32` reads alike.
use luadch.Common.{
  ℕ, ◌+◌, ◌-◌, ◌<◌, Bool, true, false, ◌&&◌, List, [], ◌∷◌, none, some, leb, ◌==◌, if◌then◌else◌,
  get_or, replicate, map, ◌≡◌, refl, sym, ap, ◌∙◌, arith, inl, inr, Bool-cases,
}
use luadch.Common.Tables.{all_below, all_below_lem}
use luadch.Base32.{
  base32_table, values, Round, leave, go_on, put_digit, from_base32_loop, from_base32,
}
use luadch.Base32.Decode.{after, nul, skipped, digit, reading, loop-nul, loop-skipped, loop-digit}

-- Two characters that the loop reads alike.
abbrev Alike : ℕ → ℕ → Type 0
Alike c c' = ((c == 0) ≡ (c' == 0)) × (get_or base32_table c none ≡ get_or base32_table c' none)

loop-map :
    (f : ℕ → ℕ)
    → ((c : ℕ) → Alike c (f c))
    → (src : List ℕ) (size key at : ℕ) (buffer : List ℕ)
    → from_base32_loop (map f src) size key at buffer ≡ from_base32_loop src size key at buffer
loop-map f alike [] size key at buffer = refl
loop-map f alike (c ∷ src) size key at buffer =
    let (z, t) = alike c in
    elim (reading c) [
      | nul e ↦
          loop-nul (f c) (map f src) size key at buffer (sym z ∙ e)
          ∙ sym (loop-nul c src size key at buffer e)
      | skipped e g ↦
          loop-skipped (f c) (map f src) size key at buffer (sym z ∙ e) (sym t ∙ g)
          ∙ loop-map f alike src size key at buffer
          ∙ sym (loop-skipped c src size key at buffer e g)
      | digit d e g ↦
          loop-digit (f c) (map f src) size key at buffer d (sym z ∙ e) (sym t ∙ g)
          ∙ after-map (loop-map f alike src size) (put_digit size key at buffer d)
          ∙ sym (loop-digit c src size key at buffer d e g)
    ]
  where
    after-map :
        ((key at : ℕ) (buffer : List ℕ)
          → from_base32_loop (map f src) size key at buffer
            ≡ from_base32_loop src size key at buffer)
        → (r : Round) → after (map f src) size r ≡ after src size r
    after-map ih (leave b) = refl
    after-map ih (go_on k a b) = ih k a b

-- Letters are read without regard to case.
pub to_lower : ℕ → ℕ
to_lower c = if leb 0x41 c && leb c 0x5a then c + 32 else c

is_letter_digit : ℕ → ℕ → Bool
is_letter_digit base k = elim (get_or base32_table (base + k) none) [
  | none ↦ false
  | some v ↦ v == k
]

is_letter_digit_lem :
    (base k : ℕ) → is_letter_digit base k ≡ true → get_or base32_table (base + k) none ≡ some k
unfolding is_letter_digit
is_letter_digit_lem base k h = ground arith

letters :
    (base : ℕ)
    → all_below (is_letter_digit base) 26 ≡ true
    → (k : ℕ) → k < 26
    → get_or base32_table (base + k) none ≡ some k
letters base table k h =
    is_letter_digit_lem base k (all_below_lem (is_letter_digit base) 26 table k h)

-- The letters of both cases have their places in the alphabet for values.
letter_values :
    (k : ℕ)
    → k < 26
    → (get_or base32_table (0x41 + k) none ≡ some k)
      × (get_or base32_table (0x61 + k) none ≡ some k)
unfolding all_below is_letter_digit base32_table values
letter_values k h = (letters 0x41 refl k h, letters 0x61 refl k h)

to_lower-Alike : (c : ℕ) → Alike c (to_lower c)
to_lower-Alike c = elim (Bool-cases (leb 0x41 c && leb c 0x5a)) [
  | inr e ↦ unfold to_lower in rw e (refl, refl)
  | inl e ↦ unfold to_lower in rw e (ground arith, letter (c - 0x41) (ground arith) (ground arith))
]
  where
    letter :
        (k : ℕ)
        → k < 26
        → c ≡ 0x41 + k
        → get_or base32_table c none ≡ get_or base32_table (c + 32) none
    letter k h e =
        let (upper, lower) = letter_values k h in
        ap (λ n. get_or base32_table n none) e
        ∙ upper
        ∙ sym lower
        ∙ ap (λ n. get_or base32_table n none) (omega arith)

-- `FROMBASE32` reads capital and small letters alike, at every size.
pub from_base32-to_lower :
    (src : List ℕ) (size : ℕ) → from_base32 (map to_lower src) size ≡ from_base32 src size
unfolding from_base32
from_base32-to_lower src size = loop-map to_lower to_lower-Alike src size 0 0 (replicate size 0)
