-- ===== src/Ipmatch/Sizes.antt =====
-- What `_parse_ipv6` gives has 16 bytes, and two of its errors cannot come up.
use luadch.Common.{
  ℕ, zero, suc, ◌+◌, ◌-◌, ◌*◌, ◌/◌, ◌%◌, ◌≤◌, ◌<◌, ◌^◌, Bool, true, false, List, [], ◌∷◌, ◌++◌,
  Option, none, some, ltb, ◌==◌, length, replicate, length-append, length-replicate, ◌≡◌, refl, ap,
  arith, All, All-append, IsByte, Bool-cases, Option-cases, inl, inr, ◌⊎◌,
}
use native.Mathlib.Nat.{pow-suc}
use luadch.Ipmatch.V4.{
  V4, parsed, not_dotted_quad, octet_too_large, leading_zero, parse_ipv4, format_v4,
}
use luadch.Ipmatch.RoundTrip.{parse_ipv4_iff}
use luadch.Ipmatch.V6.{
  Fault, V6, parsed6, refused, group_out_of_range, internal_length, has_space, at_dot,
  at_last_colon, at_dcolon, split_groups, hex_value, all_hex, check_groups, hex_number,
  hex16_to_bytes, materialise, concat_parts, groups_or_empty, finish, with_v4, checked,
  parse_groups, behind_dot, parse_ipv6,
}

plus_zero : (n : ℕ) → n + 0 ≡ n
plus_zero n = omega arith

hex_number-lt :
    (s : List ℕ) (n k : ℕ) → all_hex s ≡ true → n < 16 ^ k → hex_number n s < 16 ^ (k + length s)
hex_number-lt [] n k h lt = omega (arith, ap (λ i. 16 ^ i) (plus_zero k))
hex_number-lt (c ∷ s) n k h lt =
    let digit : hex_value c < 16 = ground arith in
    let rest : all_hex s ≡ true = ground arith in
    let more : n * 16 + hex_value c < 16 ^ suc k = omega (arith, pow-suc 16 k) in
    let same : suc k + length s ≡ k + suc (length s) = omega arith in
    omega (arith, hex_number-lt s (n * 16 + hex_value c) (suc k) rest more, ap (λ i. 16 ^ i) same)

small_power : (n k : ℕ) → n < 16 ^ (0 + k) → k ≤ 4 → n < 65536
small_power n zero h le = omega arith
small_power n (suc zero) h le = omega arith
small_power n (suc (suc zero)) h le = omega arith
small_power n (suc (suc (suc zero))) h le = omega arith
small_power n (suc (suc (suc (suc zero)))) h le = omega arith
small_power n (suc (suc (suc (suc (suc k))))) h le = absurd (omega arith)

hex16_to_bytes-some :
    (g : List ℕ)
    → all_hex g ≡ true
    → length g ≤ 4
    → (two : List ℕ) × (hex16_to_bytes g ≡ some two) × (length two ≡ 2) × All IsByte two
unfolding hex16_to_bytes
hex16_to_bytes-some g h short =
    let n = hex_number 0 g in
    let bound = hex_number-lt g 0 0 h (omega arith) in
    let small : n < 65536 = small_power n (length g) bound short in
    let fits : ltb 0xffff n ≡ false = ground arith in
    ((n / 256 % 256) ∷ (n % 256) ∷ [], rw fits refl, refl, (omega arith, (omega arith, tt)))

materialise-some :
    (gs : List (List ℕ))
    → check_groups gs ≡ true
    → (out : List ℕ) × (materialise gs ≡ some out) × (length out ≡ 2 * length gs) × All IsByte out
unfolding materialise
materialise-some [] h = ([], refl, omega arith, tt)
materialise-some (g ∷ gs) h =
    let hex : all_hex g ≡ true = ground arith in
    let short : length g ≤ 4 = ground arith in
    let rest : check_groups gs ≡ true = ground arith in
    let (two, e, size, bytes) = hex16_to_bytes-some g hex short in
    let (out, e', size', bytes') = materialise-some gs rest in
    (
      two ++ out,
      rw (e, e', materialise) refl,
      omega (arith, length-append two out),
      All-append IsByte two out bytes bytes',
    )

-- An error that can come up.
abbrev pub is_reachable : Fault → Bool
is_reachable group_out_of_range = false
is_reachable (internal_length n) = false
is_reachable _ = true

-- 16 bytes, or such an error.
abbrev pub IsSized6 : V6 → Type 0
IsSized6 (parsed6 b) = (length b ≡ 16) × All IsByte b
IsSized6 (refused f) = is_reachable f ≡ true

zeros-IsByte : (n : ℕ) → All IsByte (replicate n 0)
zeros-IsByte zero = tt
zeros-IsByte (suc n) = (omega arith, zeros-IsByte n)

concat-IsSized6 :
    (left right : List (List ℕ)) (zeros : ℕ) (v4bytes : List ℕ)
    → check_groups left ≡ true
    → check_groups right ≡ true
    → All IsByte v4bytes
    → 2 * length left + 2 * zeros + 2 * length right + length v4bytes ≡ 16
    → IsSized6
        (concat_parts (materialise left) (replicate (2 * zeros) 0) (materialise right) v4bytes)
concat-IsSized6 left right zeros v4bytes hl hr hv sum =
    let (a, ea, la, ba) = materialise-some left hl in
    let (b, eb, lb, bb) = materialise-some right hr in
    let z = replicate (2 * zeros) 0 in
    let size : length (a ++ (z ++ (b ++ v4bytes))) ≡ 16 = omega (
      arith,
      length-append a (z ++ (b ++ v4bytes)),
      length-append z (b ++ v4bytes),
      length-append b v4bytes,
      length-replicate {A = ℕ} (2 * zeros) 0,
    ) in
    let whole : (length (a ++ (z ++ (b ++ v4bytes))) == 16) ≡ true = ground arith in
    rw (ea, eb, whole)
      (
        size,
        All-append IsByte a _ ba
            (All-append IsByte z _ (zeros-IsByte (2 * zeros)) (All-append IsByte b _ bb hv)),
      )

-- The bytes of an IPv4 suffix, or none.
abbrev IsSuffix : List ℕ → Type 0
IsSuffix b = ((length b ≡ 0) ⊎ (length b ≡ 4)) × All IsByte b

finish-IsSized6 :
    (left : List (List ℕ)) (right : Option (List (List ℕ))) (b : List ℕ)
    → check_groups left ≡ true
    → check_groups (groups_or_empty right) ≡ true
    → IsSuffix b
    → IsSized6 (finish left right b)
unfolding finish
finish-IsSized6 left none b hl hr (size, bytes) =
    let total = length left + length (groups_or_empty none) + length b / 2 in
    elim (Bool-cases (total == 8)) [
      | inl e ↦ rw e (concat-IsSized6 left [] 0 b hl refl bytes (ground arith))
      | inr e ↦ rw e refl
    ]
finish-IsSized6 left (some gs) b hl hr (size, bytes) =
    let total = length left + length gs + length b / 2 in
    elim (Bool-cases (ltb 8 total)) [
      | inl e ↦ rw e refl
      | inr e ↦ rw e (concat-IsSized6 left gs (8 - total) b hl hr bytes (ground arith))
    ]

no_text : {s : List ℕ} → none ≡ some s → ⊥
no_text e = cc

length-format_v4 : (b s : List ℕ) → format_v4 b ≡ some s → length b ≡ 4
unfolding format_v4
length-format_v4 (a ∷ b ∷ c ∷ d ∷ []) s e = refl
length-format_v4 [] s e = absurd (no_text e)
length-format_v4 (a ∷ []) s e = absurd (no_text e)
length-format_v4 (a ∷ b ∷ []) s e = absurd (no_text e)
length-format_v4 (a ∷ b ∷ c ∷ []) s e = absurd (no_text e)
length-format_v4 (a ∷ b ∷ c ∷ d ∷ x ∷ xs) s e = absurd (no_text e)

pub parsed-size : (s b : List ℕ) → parse_ipv4 s ≡ parsed b → (length b ≡ 4) × All IsByte b
parsed-size s b e =
    let (bytes, text) = (parse_ipv4_iff s b).0 e in (length-format_v4 b s text, bytes)

V4-cases :
    (r : V4)
    → ((b : List ℕ) × (r ≡ parsed b))
      ⊎ ((r ≡ not_dotted_quad) ⊎ ((r ≡ octet_too_large) ⊎ ((o : List ℕ) × (r ≡ leading_zero o))))
V4-cases (parsed b) = inl (b, refl)
V4-cases not_dotted_quad = inr (inl refl)
V4-cases octet_too_large = inr (inr (inl refl))
V4-cases (leading_zero o) = inr (inr (inr (o, refl)))

with_v4-IsSized6 :
    (suffix : Option (List ℕ)) (next : List ℕ → V6)
    → ((b : List ℕ) → IsSuffix b → IsSized6 (next b))
    → IsSized6 (with_v4 suffix next)
with_v4-IsSized6 none next h = h [] (inl refl, tt)
with_v4-IsSized6 (some s) next h = elim (V4-cases (parse_ipv4 s)) [
  | inl (b, e) ↦ let (size, bytes) = parsed-size s b e in rw (e, IsSized6) (h b (inr size, bytes))
  | inr (inl e) ↦ rw (e, IsSized6) refl
  | inr (inr (inl e)) ↦ rw (e, IsSized6) refl
  | inr (inr (inr (o, e))) ↦ rw (e, IsSized6) refl
]

checked-IsSized6 :
    (left right : Option (List (List ℕ))) (suffix : Option (List ℕ)) (dcolon : Bool)
    → IsSized6 (checked left right suffix dcolon)
checked-IsSized6 none right suffix dcolon = refl
checked-IsSized6 (some left) none suffix true = refl
checked-IsSized6 (some left) (some right) suffix true = elim (Bool-cases (check_groups left)) [
  | inr e ↦ rw e refl
  | inl e ↦ elim (Bool-cases (check_groups right)) [
    | inr h ↦ rw (e, h) refl
    | inl h ↦
        rw (e, h)
          (with_v4-IsSized6 suffix (finish left (some right))
            (λ b k. finish-IsSized6 left (some right) b e h k))
  ]
]
checked-IsSized6 (some left) right suffix false = elim (Bool-cases (check_groups left)) [
  | inr e ↦ rw e refl
  | inl e ↦
      rw e
        (with_v4-IsSized6 suffix (finish left none) (λ b k. finish-IsSized6 left none b e refl k))
]

parse_groups-IsSized6 : (s : List ℕ) (suffix : Option (List ℕ)) → IsSized6 (parse_groups s suffix)
unfolding parse_groups
parse_groups-IsSized6 s suffix = elim (Option-cases (at_dcolon s)) [
  | inl e ↦ rw (e, IsSized6) (checked-IsSized6 (split_groups s) none suffix false)
  | inr ((l, r), e) ↦ elim (Option-cases (at_dcolon r)) [
    | inl h ↦ rw (e, h, IsSized6) (checked-IsSized6 (split_groups l) (split_groups r) suffix true)
    | inr (p, h) ↦ rw (e, h, IsSized6) refl
  ]
]

behind_dot-IsSized6 : (rest : List ℕ) (o : Option (List ℕ × List ℕ)) → IsSized6 (behind_dot rest o)
behind_dot-IsSized6 rest none = refl
behind_dot-IsSized6 rest (some (front, back)) = parse_groups-IsSized6 front (some (back ++ rest))

pub parse_ipv6-IsSized6 : (s : List ℕ) → IsSized6 (parse_ipv6 s)
unfolding parse_ipv6
parse_ipv6-IsSized6 s = elim (Bool-cases (has_space s)) [
  | inl e ↦ rw e refl
  | inr e ↦ elim (Option-cases (at_dot s)) [
    | inl h ↦ rw (e, h) (parse_groups-IsSized6 s none)
    | inr ((front, rest), h) ↦ rw (e, h) (behind_dot-IsSized6 rest (at_last_colon front))
  ]
]
