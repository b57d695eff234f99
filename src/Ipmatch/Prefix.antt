-- ===== src/Ipmatch/Prefix.antt =====
-- `match` compares the leading bits of two addresses.
use luadch.Common.{
  ℕ, zero, suc, ◌+◌, ◌*◌, ◌/◌, ◌%◌, ◌≤◌, ◌<◌, Bool, true, false, not, List, [], ◌∷◌, ◌++◌, some,
  ltb, ◌==◌, length, get_elem?, take, drop, bit_and, ◌≡◌, refl, ap, ap₂, sym, ◌∙◌, ◌↔◌, arith, All,
  IsByte, Bool-cases, inl, inr, take-append_left, ==_iff,
}
use luadch.Ipmatch.{same_bytes, tail_mask, match_bytes}
use luadch.Ipmatch.Bits.{
  byte_bits, bits, byte_bits-injective, same_bytes→eq, same_bytes_refl, masks-bits, bits-masks,
}

-- Agreement of the first `f` bytes and of the next `t` bits.
abbrev Agree : ℕ → ℕ → List ℕ → List ℕ → Type 0
Agree f t xs ys = (take f xs ≡ take f ys) × (take t (bits (drop f xs)) ≡ take t (bits (drop f ys)))

abbrev head_or : ℕ → List ℕ → ℕ
head_or d [] = d
head_or d (x ∷ xs) = x

join :
    (f t n : ℕ) (xs ys : List ℕ)
    → n ≡ 8 * f + t
    → f ≤ length xs
    → f ≤ length ys
    → Agree f t xs ys
    → take n (bits xs) ≡ take n (bits ys)
join zero t n xs ys e p q (a, b) =
    let same : n ≡ t = omega arith in
    ap (λ k. take k (bits xs)) same ∙ b ∙ ap (λ k. take k (bits ys)) (sym same)
join (suc f) t n [] ys e p q h = absurd (omega arith)
join (suc f) t n (x ∷ xs) [] e p q h = absurd (omega arith)
join (suc f) t n (x ∷ xs) (y ∷ ys) e p q (a, b) =
    let k = 8 * f + t in
    let same : n ≡ suc (suc (suc (suc (suc (suc (suc (suc k))))))) = omega arith in
    let rest = join f t k xs ys refl (omega arith) (omega arith) (ap (drop 1) a, b) in
    ap (λ m. take m (bits (x ∷ xs))) same
    ∙ ap₂ (λ z l. byte_bits z ++ l) (ap (head_or 0) a) rest
    ∙ ap (λ m. take m (bits (y ∷ ys))) (sym same)

split :
    (f t n : ℕ) (xs ys : List ℕ)
    → n ≡ 8 * f + t
    → f ≤ length xs
    → f ≤ length ys
    → All IsByte xs
    → All IsByte ys
    → take n (bits xs) ≡ take n (bits ys)
    → Agree f t xs ys
split zero t n xs ys e p q bx by h =
    let same : t ≡ n = omega arith in
    (refl, ap (λ k. take k (bits xs)) same ∙ h ∙ ap (λ k. take k (bits ys)) (sym same))
split (suc f) t n [] ys e p q bx by h = absurd (omega arith)
split (suc f) t n (x ∷ xs) [] e p q bx by h = absurd (omega arith)
split (suc f) t n (x ∷ xs) (y ∷ ys) e p q (bx, bxs) (by, bys) h =
    let k = 8 * f + t in
    let same : suc (suc (suc (suc (suc (suc (suc (suc k))))))) ≡ n = omega arith in
    let h' =
      ap (λ m. take m (bits (x ∷ xs))) same ∙ h ∙ ap (λ m. take m (bits (y ∷ ys))) (sym same) in
    let first = byte_bits-injective x y bx by (ap (take 8) h') in
    let (a, b) = split f t k xs ys refl (omega arith) (omega arith) bxs bys (ap (drop 8) h') in
    (ap₂ (◌∷◌) first a, b)

-- The byte behind the first `f`.
behind :
    (f : ℕ) (xs : List ℕ)
    → f < length xs
    → All IsByte xs
    → (x : ℕ) × (rest : List ℕ) × (get_elem? xs f ≡ some x) × (drop f xs ≡ x ∷ rest) × IsByte x
behind f [] lt h = absurd (omega arith)
behind zero (x ∷ xs) lt h = (x, xs, refl, refl, h.0)
behind (suc f) (x ∷ xs) lt h = behind f xs (omega arith) h.1

take-bits : (t x : ℕ) (xs : List ℕ) → t < 8 → take t (bits (x ∷ xs)) ≡ take t (byte_bits x)
take-bits t x xs lt = take-append_left t (byte_bits x) (bits xs) (omega arith)

-- What the last byte adds to equal full bytes.
tail_lem :
    (t x y : ℕ) (l m : List ℕ)
    → t < 8
    → IsByte x
    → IsByte y
    → ((bit_and x (tail_mask t) == bit_and y (tail_mask t)) ≡ true)
      ↔ (take t (bits (x ∷ l)) ≡ take t (bits (y ∷ m)))
tail_lem t x y l m lt p q = (
  λ e. take-bits t x l lt ∙ bits-masks t x y lt p q ((==_iff _ _).0 e) ∙ sym (take-bits t y m lt),
  λ e. (==_iff _ _).1 (masks-bits t x y lt p q (sym (take-bits t x l lt) ∙ e ∙ take-bits t y m lt)),
)

module _ (xs ys : List ℕ) (n : ℕ) (bx : All IsByte xs) (by : All IsByte ys)
    (same_size : length xs ≡ length ys) (fits : n ≤ 8 * length xs) where
  abbrev Verdict : Type 0
  Verdict =
      (b : Bool) × (match_bytes xs ys n ≡ some b)
      × ((b ≡ true) ↔ (take n (bits xs) ≡ take n (bits ys)))

  whole : n ≡ 8 * (n / 8) + n % 8
  whole = omega arith

  sized : not (length xs == length ys) ≡ false
  sized = ground arith

  verdict_tail :
      (n == 0) ≡ false
      → same_bytes (take (n / 8) xs) (take (n / 8) ys) ≡ true
      → ltb 0 (n % 8) ≡ true
      → Verdict
  unfolding match_bytes
  verdict_tail e h lt =
      let f = n / 8 in
      let t = n % 8 in
      let small : t < 8 = omega arith in
      let inside : f < length xs = ground arith in
      let (x, l, gx, dx, px) = behind f xs inside bx in
      let (y, m, gy, dy, py) = behind f ys (omega arith) by in
      let (to, from) = tail_lem t x y l m small px py in
      let eq_take = same_bytes→eq (take f xs) (take f ys) h in
      (
        bit_and x (tail_mask t) == bit_and y (tail_mask t),
        rw (sized, e, h, lt, gx, gy, match_bytes) refl,
        (
          λ k.
              join f t n xs ys whole (omega arith) (omega arith)
                (eq_take, ap (λ z. take t (bits z)) dx ∙ to k ∙ ap (λ z. take t (bits z)) (sym dy)),
          λ k. from (
              ap (λ z. take t (bits z)) (sym dx)
              ∙ (split f t n xs ys whole (omega arith) (omega arith) bx by k).1
              ∙ ap (λ z. take t (bits z)) dy),
        ),
      )

  verdict_whole :
      (n == 0) ≡ false
      → same_bytes (take (n / 8) xs) (take (n / 8) ys) ≡ true
      → ltb 0 (n % 8) ≡ false
      → Verdict
  unfolding match_bytes
  verdict_whole e h ge =
      let f = n / 8 in
      let eq_take = same_bytes→eq (take f xs) (take f ys) h in
      let exact : n ≡ 8 * f + 0 = ground arith in
      (
        true,
        rw (sized, e, h, ge, match_bytes) refl,
        (λ k. join f 0 n xs ys exact (omega arith) (omega arith) (eq_take, refl), λ k. refl),
      )

  verdict_front :
      (n == 0) ≡ false → same_bytes (take (n / 8) xs) (take (n / 8) ys) ≡ false → Verdict
  unfolding match_bytes
  verdict_front e h =
      let f = n / 8 in
      (
        false,
        rw (sized, e, h, match_bytes) refl,
        (
          λ k. absurd (ground arith),
          λ k.
              let (a, _) = split f (n % 8) n xs ys whole (omega arith) (omega arith) bx by k in
              sym h ∙ ap (same_bytes (take f xs)) (sym a) ∙ same_bytes_refl (take f xs),
        ),
      )

  verdict_zero : (n == 0) ≡ true → Verdict
  unfolding match_bytes
  verdict_zero e =
      let none_of : n ≡ 0 = ground arith in
      (
        true,
        rw (sized, e, match_bytes) refl,
        (
          λ k. ap (λ i. take i (bits xs)) none_of ∙ ap (λ i. take i (bits ys)) (sym none_of),
          λ k. refl,
        ),
      )

-- For two addresses of the same length and a prefix no longer than them, `match` answers, and
-- true exactly when their leading bits agree, as many as the prefix says.
pub match_bytes_iff :
    (ip network : List ℕ) (prefix_len : ℕ)
    → All IsByte ip
    → All IsByte network
    → length ip ≡ length network
    → prefix_len ≤ 8 * length ip
    → (b : Bool) × (match_bytes ip network prefix_len ≡ some b)
      × ((b ≡ true) ↔ (take prefix_len (bits ip) ≡ take prefix_len (bits network)))
match_bytes_iff ip network n bx by size fits = elim (Bool-cases (n == 0)) [
  | inl e ↦ verdict_zero ip network n bx by size fits e
  | inr e ↦ elim (Bool-cases (same_bytes (take (n / 8) ip) (take (n / 8) network))) [
    | inr h ↦ verdict_front ip network n bx by size fits e h
    | inl h ↦ elim (Bool-cases (ltb 0 (n % 8))) [
      | inl lt ↦ verdict_tail ip network n bx by size fits e h lt
      | inr ge ↦ verdict_whole ip network n bx by size fits e h ge
    ]
  ]
]
