-- ===== src/Ipmatch/Network.antt =====
-- What `parse_cidr` gives is a network: the bits behind its prefix are clear, and `match` compares those
-- before it.
use luadch.Common.{
  ℕ, zero, suc, ◌+◌, ◌*◌, ◌/◌, ◌%◌, ◌≤◌, ◌<◌, Bool, true, List, [], ◌∷◌, ◌++◌, Option, none, some,
  ltb, if◌then◌else◌, length, take, drop, bit_and, ◌≡◌, refl, sym, ◌↔◌, ◌⊎◌, inl, inr, arith, All,
  All-append, IsByte, Bool-cases, subst, All-drop, drop-append_left,
}
use luadch.Common.Ints.{pos, negsuc}
use luadch.Common.Tables.{all_below, all_below_lem}
use luadch.Ipmatch.{same_bytes, tail_mask, match_bytes}
use luadch.Ipmatch.Bits.{byte_bits, bits, same_bytes→eq}
use luadch.Ipmatch.Prefix.{match_bytes_iff}
use luadch.Ipmatch.Cidr.{
  Num, whole, fraction, Cidr, network, at_slash, mask_bytes, check_network, with_prefix, of_ip,
  with_number, with_slash, parse_cidr,
}
use luadch.Ipmatch.Address.{Ip, ip4, ip6, failed4, failed6, parse_ip, IsSized, parse_ip-IsSized}

-- The bits behind the mask are clear.
abbrev IsZero : ℕ → Type 0
IsZero d = d ≡ 0

clears : ℕ → ℕ → Bool
unfolding same_bytes
clears t b =
    same_bytes (drop t (byte_bits (if ltb 0 t then bit_and b (tail_mask t) else 0)))
      (drop t (0 ∷ 0 ∷ 0 ∷ 0 ∷ 0 ∷ 0 ∷ 0 ∷ 0 ∷ []))

clears_all : (t : ℕ) → t < 8 → (b : ℕ) → b < 256 → clears t b ≡ true
unfolding clears all_below same_bytes
clears_all t lt b small =
    all_below_lem (clears t) 256 (all_below_lem (λ t. all_below (clears t) 256) 8 refl t lt) b small

drop-nil : (n : ℕ) → drop {A = ℕ} n [] ≡ []
drop-nil zero = refl
drop-nil (suc n) = refl

byte_bits-IsZero :
    (b t : ℕ)
    → IsByte b
    → t < 8
    → All IsZero (drop t (byte_bits (if ltb 0 t then bit_and b (tail_mask t) else 0)))
unfolding clears
byte_bits-IsZero b t h lt =
    let e = same_bytes→eq _ _ (clears_all t lt b h) in
    subst (All IsZero) (sym e) (
      All-drop IsZero t (0 ∷ 0 ∷ 0 ∷ 0 ∷ 0 ∷ 0 ∷ 0 ∷ 0 ∷ [])
        (refl, (refl, (refl, (refl, (refl, (refl, (refl, (refl, tt)))))))))

mask_bytes-IsZero :
    (full t n : ℕ) (bs : List ℕ)
    → n ≡ 8 * full + t
    → t < 8
    → All IsByte bs
    → All IsZero (drop n (bits (mask_bytes full t bs)))
unfolding mask_bytes
mask_bytes-IsZero full t n [] e lt h = subst (All IsZero) (sym (drop-nil n)) tt
mask_bytes-IsZero zero t n (b ∷ bs) e lt h =
    let same : t ≡ n = omega arith in
    let x = byte_bits (if ltb 0 t then bit_and b (tail_mask t) else 0) in
    let tail = bits (mask_bytes zero 0 bs) in
    subst (λ k. All IsZero (drop k (x ++ tail))) same
      (subst (All IsZero) (sym (drop-append_left t x tail (omega arith))) (
        All-append IsZero (drop t x) tail (byte_bits-IsZero b t h.0 lt)
          (mask_bytes-IsZero zero 0 0 bs (omega arith) (omega arith) h.1)))
mask_bytes-IsZero (suc full) t n (b ∷ bs) e lt h =
    let k = 8 * full + t in
    let same : suc (suc (suc (suc (suc (suc (suc (suc k))))))) ≡ n = omega arith in
    subst (λ i. All IsZero (drop i (bits (b ∷ mask_bytes full t bs)))) same
      (mask_bytes-IsZero full t k bs refl lt h.1)

-- A network with its prefix.
abbrev pub IsNetwork : Cidr → Type 0
IsNetwork (network net p) =
    ((length net ≡ 4) ⊎ (length net ≡ 16))
    × All IsByte net
    × (p ≤ 8 * length net)
    × All IsZero (drop p (bits net))
IsNetwork _ = Unit {0}

check_network-IsNetwork :
    (bytes : List ℕ) (p : ℕ)
    → (length bytes ≡ 4) ⊎ (length bytes ≡ 16)
    → All IsByte bytes
    → p ≤ 8 * length bytes
    → IsNetwork (check_network bytes p)
check_network-IsNetwork bytes p size h le =
    let masked = mask_bytes (p / 8) (p % 8) bytes in
    elim (Bool-cases (same_bytes masked bytes)) [
      | inr e ↦ rw (e, IsNetwork) tt
      | inl e ↦
          let same = sym (same_bytes→eq masked bytes e) in
          rw (e, IsNetwork)
            (
              subst (λ l. (length l ≡ 4) ⊎ (length l ≡ 16)) same size,
              subst (All IsByte) same h,
              subst (λ l. p ≤ 8 * length l) same le,
              mask_bytes-IsZero (p / 8) (p % 8) p bytes (omega arith) (omega arith) h,
            )
    ]

with_prefix-IsNetwork :
    (bytes : List ℕ) (top : ℕ) (prefix : Option ℕ)
    → (length bytes ≡ 4) ⊎ (length bytes ≡ 16)
    → All IsByte bytes
    → top ≡ 8 * length bytes
    → IsNetwork (with_prefix bytes top prefix)
with_prefix-IsNetwork bytes top none size h e =
    check_network-IsNetwork bytes top size h (omega arith)
with_prefix-IsNetwork bytes top (some p) size h e = elim (Bool-cases (ltb top p)) [
  | inl lt ↦ rw (lt, IsNetwork) tt
  | inr ge ↦ rw (ge, IsNetwork) (check_network-IsNetwork bytes p size h (ground arith))
]

of_ip-IsNetwork : (a : Ip) (prefix : Option ℕ) → IsSized a → IsNetwork (of_ip a prefix)
of_ip-IsNetwork (ip4 b) prefix h =
    with_prefix-IsNetwork b 32 prefix (inl h.0) h.1 (omega (arith, h.0))
of_ip-IsNetwork (ip6 b) prefix h =
    with_prefix-IsNetwork b 128 prefix (inr h.0) h.1 (omega (arith, h.0))
of_ip-IsNetwork (failed4 v) prefix h = tt
of_ip-IsNetwork (failed6 f) prefix h = tt

with_number-IsNetwork : (part : List ℕ) (n : Option Num) → IsNetwork (with_number part n)
with_number-IsNetwork part none = tt
with_number-IsNetwork part (some fraction) = tt
with_number-IsNetwork part (some (whole (negsuc n))) = tt
with_number-IsNetwork part (some (whole (pos n))) =
    of_ip-IsNetwork (parse_ip part) (some n) (parse_ip-IsSized part)

with_slash-IsNetwork :
    (tonumber : List ℕ → Option Num) (r : List ℕ × Option (List ℕ))
    → IsNetwork (with_slash tonumber r)
with_slash-IsNetwork tonumber (part, none) =
    of_ip-IsNetwork (parse_ip part) none (parse_ip-IsSized part)
with_slash-IsNetwork tonumber (part, some digits) = with_number-IsNetwork part (tonumber digits)

parse_cidr-IsNetwork :
    (tonumber : List ℕ → Option Num) (s : List ℕ) → IsNetwork (parse_cidr tonumber s)
unfolding parse_cidr
parse_cidr-IsNetwork tonumber [] = tt
parse_cidr-IsNetwork tonumber (c ∷ s) = with_slash-IsNetwork tonumber (at_slash (c ∷ s))

-- When `parse_cidr` gives a network with its prefix, the network has 4 or 16 bytes and no bit
-- set behind the prefix, and `match` with an address of as many bytes answers: true exactly
-- when the bits before the prefix agree.
pub match_bytes-parse_cidr :
    (tonumber : List ℕ → Option Num) (s net ip : List ℕ) (p : ℕ)
    → parse_cidr tonumber s ≡ network net p
    → All IsByte ip
    → length ip ≡ length net
    → ((length net ≡ 4) ⊎ (length net ≡ 16))
      × All IsZero (drop p (bits net))
      × (b : Bool) × (match_bytes ip net p ≡ some b)
      × ((b ≡ true) ↔ (take p (bits ip) ≡ take p (bits net)))
match_bytes-parse_cidr tonumber s net ip p e h same =
    let (size, bytes, le, zero_rest) = subst IsNetwork e (parse_cidr-IsNetwork tonumber s) in
    let (b, run, iff) = match_bytes_iff ip net p h bytes same (omega arith) in
    (size, zero_rest, b, run, iff)
