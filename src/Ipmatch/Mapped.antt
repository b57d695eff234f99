-- ===== src/Ipmatch/Mapped.antt =====
-- The IPv4-mapped form is read back, and what `normalize` gives.
use luadch.Common.{
  ℕ, zero, suc, ◌+◌, ◌≤◌, true, false, ◌&&◌, List, [], ◌∷◌, ◌++◌, none, some, ◌==◌, length, take,
  drop, replicate, get_or, ◌≡◌, refl, ap, ap₂, sym, ◌∙◌, arith, Bool-cases, inl, inr, All, IsByte,
  length-drop, All-drop,
}
use luadch.Hub.Pid.{digits}
use luadch.Ipmatch.V4.{parsed, is_digit, all_digits, parse_ipv4, v4_normalize, format_v4}
use luadch.Ipmatch.RoundTrip.{number_digits, is_number-digits, parse_ipv4_iff}
use luadch.Ipmatch.V6.{
  V6, with_v4, parsed6, at_dot, at_last_colon, at_dcolon, split_groups, runs, finish, materialise,
  hex16_to_bytes, parse_groups, parse_ipv6, has_space,
}
use luadch.Ipmatch.Address.{ip6, of_v6, parse_ip}
use luadch.Ipmatch.Text.{all_zero, is_mapped, v6_normalize}
use luadch.Ipmatch.Groups.{is_tame, tame, both}
use luadch.Ipmatch.Joined.{quiet_space, quiet_dot, has_space-tame}
use luadch.Ipmatch.Compressed.{compress-reads}

tame-all_digits : (s : List ℕ) → all_digits s ≡ true → tame s ≡ true
unfolding tame
tame-all_digits [] h = refl
tame-all_digits (c ∷ s) h =
    let (now, later) = both (is_digit c) (all_digits s) h in
    let fine : is_tame c ≡ true = ground arith in rw fine (tame-all_digits s later)

has_space-append : (p s : List ℕ) → tame p ≡ true → has_space (p ++ s) ≡ has_space s
unfolding tame
has_space-append [] s h = refl
has_space-append (c ∷ p) s h =
    let (now, later) = both (is_tame c) (tame p) h in
    rw (quiet_space c now) (has_space-append p s later)

at_dot-append : (p s : List ℕ) → tame p ≡ true → at_dot (p ++ (b'.' ∷ s)) ≡ some (p, b'.' ∷ s)
unfolding tame at_dot
at_dot-append [] s h = refl
at_dot-append (c ∷ p) s h =
    let (now, later) = both (is_tame c) (tame p) h in
    rw (quiet_dot c now, at_dot-append p s later) refl

at_last_colon-digits : (s : List ℕ) → all_digits s ≡ true → at_last_colon s ≡ none
unfolding at_last_colon
at_last_colon-digits [] h = refl
at_last_colon-digits (c ∷ s) h =
    let (now, later) = both (is_digit c) (all_digits s) h in
    let other : (c == b':') ≡ false = ground arith in rw (at_last_colon-digits s later, other) refl

pub octet_digits : (v : ℕ) → IsByte v → all_digits (digits 20 v) ≡ true
octet_digits v h = number_digits (digits 20 v) (is_number-digits v h)

-- `::ffff`
abbrev mapped_front : List ℕ
mapped_front = b':' ∷ b':' ∷ b'f' ∷ b'f' ∷ b'f' ∷ b'f' ∷ []

v4_no_space :
    (a b c d : ℕ)
    → IsByte a
    → IsByte b
    → IsByte c
    → IsByte d
    → has_space (v4_normalize a b c d) ≡ false
v4_no_space a b c d p q r s =
    let fine : (v : ℕ) → IsByte v → tame (digits 20 v) ≡ true =
      λ v h. tame-all_digits (digits 20 v) (octet_digits v h) in
    has_space-append (digits 20 a) _ (fine a p)
    ∙ (has_space-append (digits 20 b) _ (fine b q)
        ∙ (has_space-append (digits 20 c) _ (fine c r) ∙ has_space-tame (digits 20 d) (fine d s)))

with_v4-parsed :
    (w bytes : List ℕ) (next : List ℕ → V6)
    → parse_ipv4 w ≡ parsed bytes
    → with_v4 (some w) next ≡ next bytes
with_v4-parsed w bytes next e = rw (e, with_v4) refl

mapped_groups :
    (a b c d : ℕ) (w : List ℕ)
    → parse_ipv4 w ≡ parsed (a ∷ b ∷ c ∷ d ∷ [])
    → parse_groups mapped_front (some w)
      ≡ parsed6 (replicate 10 0 ++ (0xff ∷ 0xff ∷ a ∷ b ∷ c ∷ d ∷ []))
unfolding parse_groups at_dcolon split_groups runs finish materialise hex16_to_bytes
mapped_groups a b c d w e =
    let next = finish [] (some ((b'f' ∷ b'f' ∷ b'f' ∷ b'f' ∷ []) ∷ [])) in
    let divided : parse_groups mapped_front (some w) ≡ with_v4 (some w) next = refl in
    divided ∙ with_v4-parsed w (a ∷ b ∷ c ∷ d ∷ []) next e

mapped_colon :
    (s : List ℕ)
    → all_digits s ≡ true
    → at_last_colon (mapped_front ++ (b':' ∷ s)) ≡ some (mapped_front, s)
unfolding at_last_colon
mapped_colon s h = rw (at_last_colon-digits s h) refl

mapped-reads :
    (a b c d : ℕ)
    → IsByte a
    → IsByte b
    → IsByte c
    → IsByte d
    → parse_ip (mapped_front ++ (b':' ∷ v4_normalize a b c d))
      ≡ ip6 (replicate 10 0 ++ (0xff ∷ 0xff ∷ a ∷ b ∷ c ∷ d ∷ []))
unfolding parse_ip parse_ipv6 tame format_v4
mapped-reads a b c d p q r s =
    let w = v4_normalize a b c d in
    let da = digits 20 a in
    let rest = digits 20 b ++ (b'.' ∷ (digits 20 c ++ (b'.' ∷ digits 20 d))) in
    let front = mapped_front ++ (b':' ∷ da) in
    let read : parse_ipv4 w ≡ parsed (a ∷ b ∷ c ∷ d ∷ []) =
      (parse_ipv4_iff w (a ∷ b ∷ c ∷ d ∷ [])).1 ((p, (q, (r, (s, tt)))), refl) in
    let dot : at_dot (front ++ (b'.' ∷ rest)) ≡ some (front, b'.' ∷ rest) =
      at_dot-append front rest (tame-all_digits da (octet_digits a p)) in
    let whole : parse_ipv6 (mapped_front ++ (b':' ∷ w))
        ≡ parsed6 (replicate 10 0 ++ (0xff ∷ 0xff ∷ a ∷ b ∷ c ∷ d ∷ [])) =
      rw (v4_no_space a b c d p q r s, dot, mapped_colon da (octet_digits a p), parse_ipv6)
        (mapped_groups a b c d w read) in
    ap of_v6 whole

zeros-front :
    (n : ℕ) (bytes : List ℕ)
    → n ≤ length bytes
    → all_zero (take n bytes) ≡ true
    → bytes ≡ replicate n 0 ++ drop n bytes
zeros-front zero bytes h e = refl
zeros-front (suc n) [] h e = absurd (omega arith)
zeros-front (suc n) (b ∷ bytes) h e =
    let (now, later) = both (b == 0) (all_zero (take n bytes)) e in
    ap₂ ◌∷◌ (ground arith) (zeros-front n bytes (omega arith) later)

more : (n i : ℕ) → suc n + i ≡ suc (n + i)
more n i = omega arith

get_or-drop : (n i : ℕ) (bytes : List ℕ) → get_or bytes (n + i) 0 ≡ get_or (drop n bytes) i 0
get_or-drop zero i bytes = ap (λ j. get_or bytes j 0) (omega arith)
get_or-drop (suc n) i [] = refl
get_or-drop (suc n) i (b ∷ bytes) =
    ap (λ j. get_or (b ∷ bytes) j 0) (more n i) ∙ get_or-drop n i bytes

-- The six bytes behind the zeros.
mapped_tail :
    (t : List ℕ)
    → length t ≡ 6
    → All IsByte t
    → get_or t 0 0 ≡ 0xff
    → get_or t 1 0 ≡ 0xff
    → parse_ip (
        mapped_front
        ++ (b':' ∷ v4_normalize (get_or t 2 0) (get_or t 3 0) (get_or t 4 0) (get_or t 5 0)))
      ≡ ip6 (replicate 10 0 ++ t)
mapped_tail (x ∷ y ∷ a ∷ b ∷ c ∷ d ∷ []) size (_, (_, (p, (q, (r, (s, _)))))) e f =
    mapped-reads a b c d p q r s
    ∙ ap₂ (λ u v. ip6 (replicate 10 0 ++ (u ∷ v ∷ a ∷ b ∷ c ∷ d ∷ []))) (sym e) (sym f)
mapped_tail [] size h e f = absurd (omega arith)
mapped_tail (x ∷ []) size h e f = absurd (omega arith)
mapped_tail (x ∷ y ∷ []) size h e f = absurd (omega arith)
mapped_tail (x ∷ y ∷ a ∷ []) size h e f = absurd (omega arith)
mapped_tail (x ∷ y ∷ a ∷ b ∷ []) size h e f = absurd (omega arith)
mapped_tail (x ∷ y ∷ a ∷ b ∷ c ∷ []) size h e f = absurd (omega arith)
mapped_tail (x ∷ y ∷ a ∷ b ∷ c ∷ d ∷ z ∷ t) size h e f = absurd (omega arith)

mapped_read :
    (bytes : List ℕ)
    → length bytes ≡ 16
    → All IsByte bytes
    → is_mapped bytes ≡ true
    → parse_ip (v6_normalize bytes) ≡ ip6 bytes
unfolding v6_normalize
mapped_read bytes size h m =
    let (zeros, marks) =
      both (all_zero (take 10 bytes)) (get_or bytes 10 0 == 0xff && get_or bytes 11 0 == 0xff) m in
    let (x, y) = both (get_or bytes 10 0 == 0xff) (get_or bytes 11 0 == 0xff) marks in
    let t = drop 10 bytes in
    let whole = zeros-front 10 bytes (omega arith) zeros in
    let at12 : get_or bytes 12 0 ≡ get_or t 2 0 = get_or-drop 10 2 bytes in
    let at13 : get_or bytes 13 0 ≡ get_or t 3 0 = get_or-drop 10 3 bytes in
    let at14 : get_or bytes 14 0 ≡ get_or t 4 0 = get_or-drop 10 4 bytes in
    let at15 : get_or bytes 15 0 ≡ get_or t 5 0 = get_or-drop 10 5 bytes in
    let first : get_or t 0 0 ≡ 0xff = sym (get_or-drop 10 0 bytes) ∙ ground arith in
    let second : get_or t 1 0 ≡ 0xff = sym (get_or-drop 10 1 bytes) ∙ ground arith in
    let six : length t ≡ 6 = omega (arith, length-drop 10 bytes, size) in
    rw (m, at12, at13, at14, at15, v6_normalize)
      (mapped_tail t six (All-drop IsByte 10 bytes h) first second ∙ ap ip6 (sym whole))

-- What `format_bytes` writes for the 16 bytes of an address is read as these bytes.
pub v6_normalize-reads :
    (bytes : List ℕ)
    → length bytes ≡ 16
    → All IsByte bytes
    → parse_ip (v6_normalize bytes) ≡ ip6 bytes
unfolding v6_normalize
v6_normalize-reads bytes size h = elim (Bool-cases (is_mapped bytes)) [
  | inl m ↦ mapped_read bytes size h m
  | inr m ↦ rw (m, v6_normalize) (compress-reads bytes size h)
]
