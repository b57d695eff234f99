-- ===== src/Base32/RoundTrip.antt =====
-- `FROMBASE32` reads back what `TOBASE32` wrote, and the length of what it wrote.
use luadch.Common.{
  ℕ, zero, suc, ◌+◌, ◌-◌, ◌*◌, ◌/◌, ◌<◌, ◌≤◌, List, [], ◌∷◌, ◌++◌, some, ltb, if◌then◌else◌,
  replicate, length, length-append, length-map, ◌≡◌, refl, ap, ◌∙◌, arith, IsByte, All,
  append_assoc,
}
use luadch.Base32.{to_base32_loop, to_base32, from_base32_loop, from_base32}
use luadch.Base32.Steps.{
  Key, k0, k1, k2, k3, k4, k5, k6, k7, first, digit, digit-lt, to_base32_round,
}
use luadch.Base32.Rounds.{cell, put_digit-inside, put_digit-last, put_digit-next}
use luadch.Base32.Alphabet.{char_of, chars, from_base32_loop-leave, from_base32_loop-go_on}

-- What the encoder writes from the byte `b` on, `key` bits of which are written already, and what
-- the decoder does with it.
record Coded (fuel b : ℕ) (src : List ℕ) (key : ℕ) : Type 0 where
  digits : List ℕ
  encoded : (ret : List ℕ) → to_base32_loop fuel (b ∷ src) key ret ≡ some (ret ++ chars digits)
  enough : 8 * suc (length src) ≤ 5 * length digits + key
  no_more : 5 * length digits + key < 8 * suc (length src) + 5
  decoded :
      (done rest : List ℕ) (size : ℕ)
      → length done + suc (length src) ≡ size
      → from_base32_loop
          (chars digits ++ rest)
          size
          key
          (length done)
          (done ++ (cell b key ∷ replicate (length src) 0))
        ≡ done ++ (b ∷ src)

abbrev rounds_left : ℕ → List ℕ → ℕ
rounds_left key src = (if ltb key 3 then 2 else 1) + 2 * length src

Key-lt : (key : ℕ) → Key key → key < 8
Key-lt key k0 = omega arith
Key-lt key k1 = omega arith
Key-lt key k2 = omega arith
Key-lt key k3 = omega arith
Key-lt key k4 = omega arith
Key-lt key k5 = omega arith
Key-lt key k6 = omega arith
Key-lt key k7 = omega arith

module _ (fuel b : ℕ) (src : List ℕ) (hb : IsByte b) (hs : IsByte (first src)) (key : ℕ)
    (k : Key key) where
  abbrev this_digit : ℕ
  this_digit = digit b (first src) key

  write_inside :
      (ret : List ℕ)
      → key < 3
      → to_base32_loop (suc fuel) (b ∷ src) key ret
        ≡ to_base32_loop fuel (b ∷ src) (key + 5) (ret ++ (char_of this_digit ∷ []))
  unfolding char_of
  write_inside ret h = ground (arith, to_base32_round fuel b src key ret k hb hs)

  write_across :
      (ret : List ℕ)
      → 3 ≤ key
      → to_base32_loop (suc fuel) (b ∷ src) key ret
        ≡ to_base32_loop fuel src (key - 3) (ret ++ (char_of this_digit ∷ []))
  unfolding char_of
  write_across ret h = ground (arith, to_base32_round fuel b src key ret k hb hs, Key-lt key k)

  this_digit-lt : this_digit < 32
  this_digit-lt = digit-lt b (first src) key k hb hs

-- A digit that leaves some of its byte.
Coded-inside :
    (fuel b : ℕ) (src : List ℕ) (key : ℕ)
    → IsByte b
    → IsByte (first src)
    → Key key
    → key < 3
    → Coded fuel b src (key + 5)
    → Coded (suc fuel) b src key
Coded-inside fuel b src key hb hs k lt ih = record {
  digits = digit b (first src) key ∷ ih.digits;
  encoded = λ ret.
      write_inside fuel b src hb hs key k ret lt ∙ ih.encoded _ ∙ ap some (append_assoc ret _ _);
  enough = omega (arith, ih.enough);
  no_more = omega (arith, ih.no_more);
  decoded = λ done rest size e.
      from_base32_loop-go_on _ (this_digit-lt fuel b src hb hs key k) _ size key (length done) _ _ _
        _ (put_digit-inside done (length done) size b (first src) refl hb hs key _ k lt)
      ∙ ih.decoded done rest size e;
}

-- A digit that ends the last byte.
Coded-last : (fuel b key : ℕ) → IsByte b → Key key → 3 ≤ key → Coded (suc fuel) b [] key
Coded-last fuel b key hb k le = record {
  digits = digit b 0 key ∷ [];
  encoded =
      λ ret. write_across fuel b [] hb (omega arith) key k ret le ∙ unfold to_base32_loop in refl;
  enough = omega arith;
  no_more = omega (arith, Key-lt key k);
  decoded = λ done rest size e.
      from_base32_loop-leave _ (this_digit-lt fuel b [] hb (omega arith) key k) rest size key
        (length done) _ _
        (put_digit-last done (length done) size b 0 refl hb (omega arith) key k le (omega arith));
}

-- A digit that ends its byte and begins the next.
Coded-across :
    (fuel b c key : ℕ) (src : List ℕ)
    → IsByte b
    → IsByte c
    → Key key
    → 3 ≤ key
    → Coded fuel c src (key - 3)
    → Coded (suc fuel) b (c ∷ src) key
Coded-across fuel b c key src hb hc k le ih = record {
  digits = digit b c key ∷ ih.digits;
  encoded = λ ret.
      write_across fuel b (c ∷ src) hb hc key k ret le
      ∙ ih.encoded _
      ∙ ap some (append_assoc ret _ _);
  enough = omega (arith, ih.enough);
  no_more = omega (arith, ih.no_more);
  decoded = λ done rest size e.
      from_base32_loop-go_on _ (this_digit-lt fuel b (c ∷ src) hb hc key k) _ size key (length done)
        _ _ _ _
        (put_digit-next done (length done) size b c refl hb hc key (replicate (length src) 0) k le
          (omega arith))
      ∙ ap
          (λ n.
            from_base32_loop (chars ih.digits ++ rest) size (key - 3) n
              ((done ++ (b ∷ [])) ++ (cell c (key - 3) ∷ replicate (length src) 0)))
          (next_place done b)
      ∙ ih.decoded (done ++ (b ∷ [])) rest size (omega (arith, next_place done b))
      ∙ append_assoc done (b ∷ []) (c ∷ src);
}
  where
    next_place : (done : List ℕ) (b : ℕ) → length done + 1 ≡ length (done ++ (b ∷ []))
    next_place done b = rw length-append (omega arith)

first-IsByte : (src : List ℕ) → All IsByte src → IsByte (first src)
first-IsByte [] h = omega arith
first-IsByte (b ∷ src) h = h.0

coded :
    (fuel b : ℕ) (src : List ℕ) (key : ℕ)
    → Key key
    → IsByte b
    → All IsByte src
    → rounds_left key src ≤ fuel
    → Coded fuel b src key
coded zero b src key k hb hs h = absurd (ground arith)
coded (suc fuel) b src key k0 hb hs h =
    Coded-inside fuel b src 0 hb (first-IsByte src hs) k0 (omega arith)
      (coded fuel b src 5 k5 hb hs (omega arith))
coded (suc fuel) b src key k1 hb hs h =
    Coded-inside fuel b src 1 hb (first-IsByte src hs) k1 (omega arith)
      (coded fuel b src 6 k6 hb hs (omega arith))
coded (suc fuel) b src key k2 hb hs h =
    Coded-inside fuel b src 2 hb (first-IsByte src hs) k2 (omega arith)
      (coded fuel b src 7 k7 hb hs (omega arith))
coded (suc fuel) b [] key k3 hb hs h = Coded-last fuel b 3 hb k3 (omega arith)
coded (suc fuel) b [] key k4 hb hs h = Coded-last fuel b 4 hb k4 (omega arith)
coded (suc fuel) b [] key k5 hb hs h = Coded-last fuel b 5 hb k5 (omega arith)
coded (suc fuel) b [] key k6 hb hs h = Coded-last fuel b 6 hb k6 (omega arith)
coded (suc fuel) b [] key k7 hb hs h = Coded-last fuel b 7 hb k7 (omega arith)
coded (suc fuel) b (c ∷ src) key k3 hb hs h =
    Coded-across fuel b c 3 src hb hs.0 k3 (omega arith)
      (coded fuel c src 0 k0 hs.0 hs.1 (omega arith))
coded (suc fuel) b (c ∷ src) key k4 hb hs h =
    Coded-across fuel b c 4 src hb hs.0 k4 (omega arith)
      (coded fuel c src 1 k1 hs.0 hs.1 (omega arith))
coded (suc fuel) b (c ∷ src) key k5 hb hs h =
    Coded-across fuel b c 5 src hb hs.0 k5 (omega arith)
      (coded fuel c src 2 k2 hs.0 hs.1 (omega arith))
coded (suc fuel) b (c ∷ src) key k6 hb hs h =
    Coded-across fuel b c 6 src hb hs.0 k6 (omega arith)
      (coded fuel c src 3 k3 hs.0 hs.1 (omega arith))
coded (suc fuel) b (c ∷ src) key k7 hb hs h =
    Coded-across fuel b c 7 src hb hs.0 k7 (omega arith)
      (coded fuel c src 4 k4 hs.0 hs.1 (omega arith))

-- `TOBASE32` returns on every byte string that is not empty, with as few characters of five
-- bits as hold its bits, and `FROMBASE32` with the original length reads the bytes back,
-- whatever follows the text.
pub from_base32-to_base32 :
    (src rest : List ℕ)
    → All IsByte src
    → 1 ≤ length src
    → (text : List ℕ) × (to_base32 src ≡ some text)
      × (length text ≡ (8 * length src + 4) / 5)
      × (from_base32 (text ++ rest) (length src) ≡ src)
unfolding to_base32 from_base32
from_base32-to_base32 [] rest h k = absurd (omega arith)
from_base32-to_base32 (b ∷ src) rest h k =
    let c = coded (2 * length (b ∷ src)) b src 0 k0 h.0 h.1 (omega arith) in
    (
      chars c.digits,
      c.encoded [],
      omega (arith, length-map c.digits char_of, c.enough, c.no_more),
      ap
            (λ v.
              from_base32_loop (chars c.digits ++ rest) (suc (length src)) 0 0
                (v ∷ replicate (length src) 0))
            (omega (arith, h.0))
          ∙ c.decoded [] rest (suc (length src)) (omega arith),
    )
