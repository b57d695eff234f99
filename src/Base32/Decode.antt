-- ===== src/Base32/Decode.antt =====
-- `FROMBASE32` on any text: its buffer, and what it makes of a character.
use luadch.Common.{
  ℕ, zero, suc, ◌+◌, ◌-◌, ◌*◌, ◌/◌, ◌%◌, ◌^◌, ◌<◌, true, false, List, [], ◌∷◌, ◌++◌, none, some,
  leb, ◌==◌, get_or, set, replicate, length, length-set, length-replicate, ◌≡◌, refl, ap, ◌∙◌,
  arith, IsByte, All, inl, inr, Bool-cases, Option-cases,
}
use luadch.Base32.{
  base32_table, Round, leave, go_on, or_into, put_digit, from_base32_loop, from_base32,
}

All-set : (s : List ℕ) (i v : ℕ) → All IsByte s → IsByte v → All IsByte (set s i v)
All-set [] i v h b = h
All-set (x ∷ s) zero v h b = (b, h.1)
All-set (x ∷ s) (suc i) v h b = (h.0, All-set s i v h.1 b)

All-replicate : (n : ℕ) → All IsByte (replicate n 0)
All-replicate zero = tt
All-replicate (suc n) = (omega arith, All-replicate n)

-- A buffer of `size` bytes.
abbrev pub IsBuffer : ℕ → List ℕ → Type 0
IsBuffer size buffer = (length buffer ≡ size) × All IsByte buffer

or_into-IsBuffer :
    (size : ℕ) (buffer : List ℕ) (i v : ℕ)
    → IsBuffer size buffer
    → IsBuffer size (or_into buffer i v)
unfolding or_into
or_into-IsBuffer size buffer i v h =
    (length-set buffer i _ ∙ h.0, All-set buffer i _ h.1 (omega arith))

-- A write in front of what is appended.
or_into-append :
    (buffer behind : List ℕ) (i v : ℕ)
    → i < length buffer
    → or_into (buffer ++ behind) i v ≡ or_into buffer i v ++ behind
unfolding or_into
or_into-append buffer behind i v h =
    rw (get_or-front buffer behind i h) (set-front buffer behind i _ h)
  where
    get_or-front : (xs ys : List ℕ) (i : ℕ) → i < length xs → get_or (xs ++ ys) i 0 ≡ get_or xs i 0
    get_or-front [] ys i h = absurd (omega arith)
    get_or-front (x ∷ xs) ys zero h = refl
    get_or-front (x ∷ xs) ys (suc i) h = get_or-front xs ys i (omega arith)

    set-front : (xs ys : List ℕ) (i v : ℕ) → i < length xs → set (xs ++ ys) i v ≡ set xs i v ++ ys
    set-front [] ys i v h = absurd (omega arith)
    set-front (x ∷ xs) ys zero v h = refl
    set-front (x ∷ xs) ys (suc i) v h = ap (◌∷◌ x) (set-front xs ys i v (omega arith))

-- A round on a buffer with bytes behind it.
abbrev extended : List ℕ → Round → Round
extended behind (leave buffer) = leave (buffer ++ behind)
extended behind (go_on key at buffer) = go_on key at (buffer ++ behind)

put_digit-append :
    (size key at : ℕ) (buffer behind : List ℕ) (temp : ℕ)
    → at < size
    → IsBuffer size buffer
    → put_digit size key at (buffer ++ behind) temp
      ≡ extended behind (put_digit size key at buffer temp)
unfolding put_digit
put_digit-append size key at buffer behind temp h b =
    let key' = (key + 5) % 8 in
    let here : at < length buffer = omega (arith, b.0) in
    elim (Bool-cases (leb key 3)) [
      | inl e ↦ rw e (elim (Bool-cases (key' == 0)) [
        | inl f ↦ rw f (elim (Bool-cases (at + 1 == size)) [
          | inl g ↦ rw g (ap leave (or_into-append buffer behind at temp here))
          | inr g ↦ rw g (ap (go_on key' (at + 1)) (or_into-append buffer behind at temp here))
        ])
        | inr f ↦ rw f (ap (go_on key' at) (or_into-append buffer behind at _ here))
      ])
      | inr e ↦ rw e (elim (Bool-cases (at + 1 == size)) [
        | inl g ↦ rw g (ap leave (or_into-append buffer behind at _ here))
        | inr g ↦
            let sized = (or_into-IsBuffer size buffer at (temp / 2 ^ key') b).0 in
            rw g (
              ap (go_on key' (at + 1)) (
                ap (λ x. or_into x (at + 1) (temp * 2 ^ (8 - key')))
                  (or_into-append buffer behind at (temp / 2 ^ key') here)
                ∙ or_into-append (or_into buffer at (temp / 2 ^ key')) behind (at + 1) _
                    (ground arith)))
      ])
    ]

-- A round leaves a buffer of the same size, and goes on only at an index inside it.
abbrev pub InBounds : ℕ → Round → Type 0
InBounds size (leave buffer) = IsBuffer size buffer
InBounds size (go_on key at buffer) = (at < size) × IsBuffer size buffer

put_digit-InBounds :
    (size key at : ℕ) (buffer : List ℕ) (temp : ℕ)
    → at < size
    → IsBuffer size buffer
    → InBounds size (put_digit size key at buffer temp)
unfolding put_digit
put_digit-InBounds size key at buffer temp h b =
    let key' = (key + 5) % 8 in
    elim (Bool-cases (leb key 3)) [
      | inl e ↦ rw e (elim (Bool-cases (key' == 0)) [
        | inl f ↦ rw f (elim (Bool-cases (at + 1 == size)) [
          | inl g ↦ rw g (or_into-IsBuffer size buffer at temp b)
          | inr g ↦ rw g (ground arith, or_into-IsBuffer size buffer at temp b)
        ])
        | inr f ↦ rw f (h, or_into-IsBuffer size buffer at _ b)
      ])
      | inr e ↦ rw e (elim (Bool-cases (at + 1 == size)) [
        | inl g ↦ rw g (or_into-IsBuffer size buffer at _ b)
        | inr g ↦
            rw g (
              ground arith,
              or_into-IsBuffer size _ (at + 1) _ (or_into-IsBuffer size buffer at _ b),
            )
      ])
    ]

abbrev pub after : List ℕ → ℕ → Round → List ℕ
after src size (leave buffer) = buffer
after src size (go_on key at buffer) = from_base32_loop src size key at buffer

-- What the loop makes of a character: the end of the text, nothing, or a digit.
pub data Reading (c : ℕ) : Type 0 where
  nul : (c == 0) ≡ true → Reading c
  skipped : (c == 0) ≡ false → get_or base32_table c none ≡ none → Reading c
  digit : (d : ℕ) → (c == 0) ≡ false → get_or base32_table c none ≡ some d → Reading c

pub reading : (c : ℕ) → Reading c
reading c = elim (Bool-cases (c == 0)) [
  | inl e ↦ nul e
  | inr e ↦ elim (Option-cases (get_or base32_table c none)) [
    | inl f ↦ skipped e f
    | inr (d, f) ↦ digit d e f
  ]
]

module _ (c : ℕ) (src : List ℕ) (size key at : ℕ) (buffer : List ℕ) where
  pub loop-nul : (c == 0) ≡ true → from_base32_loop (c ∷ src) size key at buffer ≡ buffer
  unfolding from_base32_loop
  loop-nul e = rw (e, from_base32_loop) refl

  pub loop-skipped :
      (c == 0) ≡ false
      → get_or base32_table c none ≡ none
      → from_base32_loop (c ∷ src) size key at buffer ≡ from_base32_loop src size key at buffer
  unfolding from_base32_loop
  loop-skipped e f = rw (e, from_base32_loop) (rw (f, from_base32_loop) refl)

  pub loop-digit :
      (d : ℕ)
      → (c == 0) ≡ false
      → get_or base32_table c none ≡ some d
      → from_base32_loop (c ∷ src) size key at buffer
        ≡ after src size (put_digit size key at buffer d)
  unfolding from_base32_loop
  loop-digit d e f =
      rw (e, from_base32_loop) (rw (f, from_base32_loop) (joins (put_digit size key at buffer d)))
    where
      joins :
          (r : Round)
          → elim r as (λ x. List ℕ) [ leave b ↦ b | go_on k a b ↦ from_base32_loop src size k a b ]
            ≡ after src size r
      joins (leave b) = refl
      joins (go_on k a b) = refl

-- A buffer, and the one that the same loop leaves with bytes behind it.
abbrev pub Kept : ℕ → List ℕ → List ℕ → List ℕ → Type 0
Kept size behind buffer longer = IsBuffer size buffer × (longer ≡ buffer ++ behind)

after-Kept :
    (src behind : List ℕ) (size : ℕ)
    → ((key at : ℕ) (buffer : List ℕ)
        → at < size
        → IsBuffer size buffer
        → Kept size behind
            (from_base32_loop src size key at buffer)
            (from_base32_loop src size key at (buffer ++ behind)))
    → (r : Round) → InBounds size r
    → Kept size behind (after src size r) (after src size (extended behind r))
after-Kept src behind size ih (leave b) h = (h, refl)
after-Kept src behind size ih (go_on k a b) h = ih k a b h.0 h.1

loop-Kept :
    (src behind : List ℕ) (size key at : ℕ) (buffer : List ℕ)
    → at < size
    → IsBuffer size buffer
    → Kept size behind
        (from_base32_loop src size key at buffer)
        (from_base32_loop src size key at (buffer ++ behind))
loop-Kept [] behind size key at buffer h b = unfold from_base32_loop in (b, refl)
loop-Kept (c ∷ src) behind size key at buffer h b =
    let longer = buffer ++ behind in
    elim (reading c) [
      | nul e ↦
          rw (loop-nul c src size key at buffer e, loop-nul c src size key at longer e) (b, refl)
      | skipped e f ↦
          rw (loop-skipped c src size key at buffer e f, loop-skipped c src size key at longer e f)
            (loop-Kept src behind size key at buffer h b)
      | digit d e f ↦
          rw
            (
              loop-digit c src size key at buffer d e f,
              loop-digit c src size key at longer d e f,
              put_digit-append size key at buffer behind d h b,
            )
            (after-Kept src behind size (loop-Kept src behind size) _
              (put_digit-InBounds size key at buffer d h b))
    ]

-- For a size above 0 and any text, `FROMBASE32` leaves a buffer of that size that holds bytes;
-- run with other bytes behind the buffer in memory, its loop leaves the same buffer, and those
-- bytes as they were, whatever they are: it reads and writes inside the buffer only.
pub from_base32_loop-append :
    (src behind : List ℕ) (size : ℕ)
    → 0 < size
    → Kept size behind
        (from_base32 src size)
        (from_base32_loop src size 0 0 (replicate size 0 ++ behind))
unfolding from_base32
from_base32_loop-append src behind size h =
    loop-Kept src behind size 0 0 _ h (length-replicate size 0, All-replicate size)
