-- ===== src/Bloom/Inserted.antt =====
-- `contains` tests the bits that the ADC extension BLOM names.
use luadch.Common.{
  ℕ, zero, suc, ◌+◌, ◌-◌, ◌*◌, ◌/◌, ◌%◌, ◌^◌, ◌≤◌, ◌<◌, Bool, true, false, not, ◌&&◌, List, [], ◌∷◌,
  Option, none, some, ◌==◌, if◌then◌else◌, length, get_elem?, get_or, take, drop, bit_and, bit_or,
  ◌>>=◌, bind-some, u64, ltb, ◌≡◌, refl, ap, sym, ◌∙◌, ◌↔◌, inl, inr, arith, All, IsByte,
  Bool-cases, length-take, lt→ltb, All-take, All-drop,
}
use luadch.Common.Bits.{bit_or_join, bit_or_comm}
use luadch.Common.Tables.{all_below, all_below_lem}
use native.Mathlib.Nat.{pow-suc, one-le-pow}
use luadch.Bloom.{Filter, read_slice, bit_set, tests_bit, reduce, contains_loop, contains}

-- An unsigned number, the least significant byte first.
abbrev pub little_endian : List ℕ → ℕ
little_endian [] = 0
little_endian (b ∷ bs) = b + 256 * little_endian bs

-- The positions of the slices from `i` on, of `s` bytes each.
abbrev pub positions : ℕ → ℕ → List ℕ → ℕ → ℕ → List ℕ
positions s m tth i zero = []
positions s m tth i (suc left) =
    (little_endian (take s (drop (i * s) tth)) % m) ∷ positions s m tth (i + 1) left

-- The bit at a position of a filter.
abbrev pub bit_at : List ℕ → ℕ → ℕ
bit_at bytes pos = get_or bytes (pos / 8) 0 / 2 ^ (pos % 8) % 2

-- A byte's bit is set where its mask finds it.
mask_finds : ℕ → ℕ → Bool
mask_finds i b = if b / 2 ^ i % 2 == 1 then not (bit_and b (2 ^ i) == 0) else bit_and b (2 ^ i) == 0

mask_finds_all : (i : ℕ) → i < 8 → (b : ℕ) → b < 256 → mask_finds i b ≡ true
unfolding mask_finds all_below
mask_finds_all i lt b small =
    all_below_lem (mask_finds i) 256 (all_below_lem (λ i. all_below (mask_finds i) 256) 8 refl i lt)
      b small

none_set : all_below (λ i. 0 / 2 ^ i % 2 == 0) 8 ≡ true
unfolding all_below
none_set = refl

zero_bit : (i : ℕ) → i < 8 → 0 / 2 ^ i % 2 ≡ 0
zero_bit i lt = ground (arith, all_below_lem (λ i. 0 / 2 ^ i % 2 == 0) 8 none_set i lt)

bit_set_iff :
    (bytes : List ℕ) (p q : ℕ)
    → All IsByte bytes
    → (bit_set (get_elem? bytes p) q ≡ true) ↔ (get_or bytes p 0 / 2 ^ (q % 8) % 2 ≡ 1)
unfolding mask_finds
bit_set_iff [] p q h =
    (λ e. absurd (ground arith), λ e. absurd (omega (arith, zero_bit (q % 8) (omega arith))))
bit_set_iff (b ∷ bs) zero q h =
    let small : q % 8 < 8 = omega arith in
    let table = mask_finds_all (q % 8) small b h.0 in (λ e. ground arith, λ e. ground arith)
bit_set_iff (b ∷ bs) (suc p) q h = bit_set_iff bs p q h.1

-- The byte at an index.
at_index :
    (f : ℕ) (xs : List ℕ)
    → f < length xs
    → All IsByte xs
    → (x : ℕ) × (get_elem? xs f ≡ some x) × (drop f xs ≡ x ∷ drop (suc f) xs) × IsByte x
at_index f [] lt h = absurd (omega arith)
at_index zero (x ∷ xs) lt h = (x, refl, refl, h.0)
at_index (suc f) (x ∷ xs) lt h = at_index f xs (omega arith) h.1

powers :
    all_below (λ j. (2 ^ (8 * (j + 1)) == 256 * 2 ^ (8 * j)) && ltb (2 ^ (8 * j)) (2 ^ 49)) 7 ≡ true
unfolding all_below
powers = refl

power_of : (j : ℕ) → j < 7 → (2 ^ (8 * (j + 1)) ≡ 256 * 2 ^ (8 * j)) × (2 ^ (8 * j) < 2 ^ 49)
power_of j lt =
    let h =
      all_below_lem (λ j. (2 ^ (8 * (j + 1)) == 256 * 2 ^ (8 * j)) && ltb (2 ^ (8 * j)) (2 ^ 49)) 7
        powers j lt in
    (ground arith, ground arith)

shifted : (b c p : ℕ) → b + c ≡ 255 → b * p ≤ 255 * p
shifted b c p e =
    let sum : (b + c) * p ≡ b * p + c * p = grind arith in
    omega (arith, sum, ap (λ (t : ℕ). t * p) e)

expand : (p b l : ℕ) → p * (b + 256 * l) ≡ b * p + 256 * p * l
expand p b l = grind arith

-- A round adds its byte above the bits that are there.
add_byte :
    (j b pos : ℕ)
    → j < 7
    → IsByte b
    → pos < 2 ^ (8 * j)
    → (bit_or pos (u64 (b * 2 ^ (8 * j))) ≡ b * 2 ^ (8 * j) + pos)
      × (b * 2 ^ (8 * j) + pos < 2 ^ (8 * (j + 1)))
add_byte j b pos lt small h =
    let (grows, bound) = power_of j lt in
    let product = shifted b (255 - b) (2 ^ (8 * j)) (omega arith) in
    let fits : u64 (b * 2 ^ (8 * j)) ≡ b * 2 ^ (8 * j) = omega arith in
    (
      ap (bit_or pos) fits ∙ bit_or_comm pos (b * 2 ^ (8 * j)) ∙ bit_or_join (8 * j) b pos h,
      omega arith,
    )

total :
    (p q b pos next l whole : ℕ)
    → q ≡ 256 * p
    → next ≡ b * p + pos
    → whole ≡ b + 256 * l
    → next + q * l ≡ pos + p * whole
total p q b pos next l whole e f g =
    let x : q * l ≡ 256 * p * l = ap (λ (t : ℕ). t * l) e in
    let y : p * whole ≡ b * p + 256 * p * l = ap (λ (t : ℕ). p * t) g ∙ expand p b l in omega arith

read_slice-little_endian :
    (tth : List ℕ) (offset j left pos : ℕ)
    → All IsByte tth
    → j + left ≤ 7
    → offset + j + left ≤ length tth
    → pos < 2 ^ (8 * j)
    → read_slice tth offset j left pos
      ≡ some (pos + 2 ^ (8 * j) * little_endian (take left (drop (offset + j) tth)))
unfolding read_slice
read_slice-little_endian tth offset j zero pos h few fits lt = ap some (grind arith)
read_slice-little_endian tth offset j (suc left) pos h few fits lt =
    let (b, here, rest, small) = at_index (offset + j) tth (omega arith) h in
    let (sum, bound) = add_byte j b pos (omega arith) small lt in
    let next = bit_or pos (u64 (b * 2 ^ (8 * j))) in
    let below : next < 2 ^ (8 * (j + 1)) = omega (arith, sum, bound) in
    let tail = little_endian (take left (drop (offset + (j + 1)) tth)) in
    let place : suc (offset + j) ≡ offset + (j + 1) = omega arith in
    let slice : little_endian (take (suc left) (drop (offset + j) tth)) ≡ b + 256 * tail =
      ap (λ l. little_endian (take (suc left) l)) rest
      ∙ ap (λ n. b + 256 * little_endian (take left (drop n tth))) place in
    rw here (
      read_slice-little_endian tth offset (j + 1) left next h (omega arith) (omega arith) below
      ∙ ap some (
          total (2 ^ (8 * j)) (2 ^ (8 * (j + 1))) b pos next tail _ (power_of j (omega arith)).0 sum
            slice))

little_endian-lt : (n : ℕ) (l : List ℕ) → All IsByte l → length l ≤ n → little_endian l < 256 ^ n
little_endian-lt zero [] h e = omega arith
little_endian-lt zero (b ∷ l) h e = absurd (omega arith)
little_endian-lt (suc n) [] h e = omega (arith, one-le-pow (suc n) 256)
little_endian-lt (suc n) (b ∷ l) h e =
    let small = h.0 in omega (arith, pow-suc 256 n, little_endian-lt n l h.1 (omega arith))

-- Two steps after each other, when the first two give a value.
stepped :
    {A : Type 0} {B : Type 0} {C : Type 0} (r : Option A) (g : A → Option B) (h : B → Option C)
    (b : B)
    → (r >>= g) ≡ some b
    → (r >>= (λ a. g a >>= h)) ≡ h b
stepped none g h b e = cc
stepped (some a) g h b e = bind-some (g a) b h e

plus_zero : (n : ℕ) → n + 0 ≡ n
plus_zero n = omega arith

module _ (bytes tth : List ℕ) (s m : ℕ) (bb : All IsByte bytes) (bt : All IsByte tth) (few : s ≤ 7)
    (pos_m : 1 ≤ m) where
  -- A slice is read as the number that the extension names, and reduced to its position.
  slice_position :
      (i : ℕ)
      → i * s + s ≤ length tth
      → (read_slice tth (i * s) 0 s 0 >>= reduce m)
        ≡ some (little_endian (take s (drop (i * s) tth)) % m)
  slice_position i fits =
      let slice = little_endian (take s (drop (i * s) tth)) in
      let read : read_slice tth (i * s) 0 s 0 ≡ some slice =
        read_slice-little_endian tth (i * s) 0 s 0 bt (omega arith) (omega arith) (omega arith)
        ∙ ap some (omega arith)
        ∙ ap (λ n. some (little_endian (take s (drop n tth)))) (plus_zero (i * s)) in
      let size : length (take s (drop (i * s) tth)) ≤ 7 =
        omega (arith, length-take s (drop (i * s) tth)) in
      let small : ltb slice (2 ^ 63) ≡ true = lt→ltb slice (2 ^ 63) (
        omega (
          arith,
          little_endian-lt 7 (take s (drop (i * s) tth))
              (All-take IsByte s _ (All-drop IsByte (i * s) tth bt)) size,
        )) in
      let nonzero : (m == 0) ≡ false = ground arith in
      bind-some _ slice (reduce m) read ∙ rw (nonzero, small) refl

  loop_iff :
      (left i : ℕ)
      → (i + left) * s ≤ length tth
      → (b : Bool) × (contains_loop bytes s m tth i left ≡ some b)
        × ((b ≡ true) ↔ All (λ pos. bit_at bytes pos ≡ 1) (positions s m tth i left))
  unfolding contains_loop
  loop_iff zero i fits = (true, refl, (λ e. tt, λ e. refl))
  loop_iff (suc left) i fits =
      let ring : (i + suc left) * s ≡ i * s + s + left * s = grind arith in
      let next : (i + 1 + left) * s ≡ (i + suc left) * s = ap (λ (t : ℕ). t * s) (omega arith) in
      let (b, run, (to, from)) = loop_iff left (i + 1) (omega arith) in
      let pos = little_endian (take s (drop (i * s) tth)) % m in
      let here = slice_position i (omega arith) in
      let (found, set) = bit_set_iff bytes (pos / 8) pos bb in
      let test = tests_bit bytes pos in
      let step : contains_loop bytes s m tth i (suc left) ≡ (if test then some b else some false) =
        stepped (read_slice tth (i * s) 0 s 0) (reduce m)
          (λ p. if tests_bit bytes p then contains_loop bytes s m tth (i + 1) left else some false)
          pos here
        ∙ rw run refl in
      elim (Bool-cases test) [
        | inl e ↦ (b, step ∙ rw e refl, (λ k. (found e, to k), λ k. from k.1))
        | inr e ↦ (false, step ∙ rw e refl, (λ k. absurd (ground arith), λ k. sym e ∙ set k.0))
      ]

-- For slices of 7 bytes at most that a TTH of 24 bytes has room for, `contains` answers, and
-- true exactly when the filter has a bit set at every position that the ADC extension BLOM
-- names: each slice as an unsigned number, modulo the bits of the filter.
pub contains_iff :
    (f : Filter) (tth : List ℕ) (s : ℕ)
    → f.h ≡ 8 * s
    → s ≤ 7
    → f.k * s ≤ 24
    → 1 ≤ f.m
    → All IsByte f.bytes
    → All IsByte tth
    → length tth ≡ 24
    → (b : Bool) × (contains f tth ≡ some b)
      × ((b ≡ true) ↔ All (λ pos. bit_at f.bytes pos ≡ 1) (positions s f.m tth 0 f.k))
unfolding contains
contains_iff f tth s size few room least bb bt whole =
    let sized : not (length tth == 24) ≡ false = ground arith in
    let per : f.h / 8 ≡ s = omega arith in
    let none_before : 0 + f.k ≡ f.k = omega arith in
    let fits = ap (λ (t : ℕ). t * s) none_before in
    rw (sized, per) (loop_iff f.bytes tth s f.m bb bt few least f.k 0 (omega arith))
