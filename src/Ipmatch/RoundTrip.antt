-- ===== src/Ipmatch/RoundTrip.antt =====
-- The texts that `_parse_ipv4` takes are those that `format_bytes` writes.
use luadch.Common.{
  ℕ, ◌<◌, Bool, true, false, not, ◌&&◌, List, [], ◌∷◌, ◌++◌, none, some, ltb, ◌==◌, ◌≡◌, refl, ap,
  ap₂, sym, ◌∙◌, ◌↔◌, arith, All, IsByte, Bool-cases, inl, inr, some-injective, subst,
}
use luadch.Common.Tables.{all_below, all_below_lem}
use luadch.Hub.Pid.{digits, number}
use luadch.Ipmatch.Octets.{parse_parts-parsed, digits-number}
use luadch.Ipmatch.V4.{
  parsed, on_first, split_dots, all_digits, is_number, has_leading_zero, parse_parts, parse_ipv4,
  v4_normalize, format_v4,
}

-- The text of a byte is an octet that passes every test and is read back.
octet_text : ℕ → Bool
octet_text v =
    is_number (digits 20 v)
    && (not (has_leading_zero (digits 20 v)) && (number 0 (digits 20 v) == v))

octet_text_all : (v : ℕ) → v < 256 → octet_text v ≡ true
unfolding octet_text all_below digits
octet_text_all = all_below_lem octet_text 256 refl

pub is_number-digits : (v : ℕ) → IsByte v → is_number (digits 20 v) ≡ true
unfolding octet_text
is_number-digits v h = ground (arith, octet_text_all v h)

no_zero-digits : (v : ℕ) → IsByte v → has_leading_zero (digits 20 v) ≡ false
unfolding octet_text
no_zero-digits v h = ground (arith, octet_text_all v h)

number-octet : (v : ℕ) → IsByte v → number 0 (digits 20 v) ≡ v
unfolding octet_text
number-octet v h = ground (arith, octet_text_all v h)

-- Digits hold no dot.
split_dots-digits : (a : List ℕ) → all_digits a ≡ true → split_dots a ≡ a ∷ []
unfolding split_dots
split_dots-digits [] h = refl
split_dots-digits (c ∷ a) h =
    let dot : (c == b'.') ≡ false = ground arith in
    let rest : all_digits a ≡ true = ground arith in rw (dot, split_dots-digits a rest) refl

split_dots-append :
    (a s : List ℕ) → all_digits a ≡ true → split_dots (a ++ (b'.' ∷ s)) ≡ a ∷ split_dots s
unfolding split_dots
split_dots-append [] s h = refl
split_dots-append (c ∷ a) s h =
    let dot : (c == b'.') ≡ false = ground arith in
    let rest : all_digits a ≡ true = ground arith in rw (dot, split_dots-append a s rest) refl

pub number_digits : (a : List ℕ) → is_number a ≡ true → all_digits a ≡ true
number_digits [] h = refl
number_digits (c ∷ a) h = h

-- The way back: joining the parts.
abbrev join_dots : List (List ℕ) → List ℕ
join_dots [] = []
join_dots (p ∷ []) = p
join_dots (p ∷ q ∷ ps) = p ++ (b'.' ∷ join_dots (q ∷ ps))

on_first-join :
    (c : ℕ) (p : List ℕ) (ps : List (List ℕ))
    → join_dots (on_first c (p ∷ ps)) ≡ c ∷ join_dots (p ∷ ps)
on_first-join c p [] = refl
on_first-join c p (q ∷ ps) = refl

split_dots-cons : (s : List ℕ) → (p : List ℕ) × (ps : List (List ℕ)) × (split_dots s ≡ p ∷ ps)
unfolding split_dots
split_dots-cons [] = ([], [], refl)
split_dots-cons (c ∷ s) = elim (Bool-cases (c == b'.')) [
  | inl e ↦ ([], split_dots s, rw e refl)
  | inr e ↦ let (p, ps, h) = split_dots-cons s in (c ∷ p, ps, rw (e, h) refl)
]

join_dots-split_dots : (s : List ℕ) → join_dots (split_dots s) ≡ s
unfolding split_dots
join_dots-split_dots [] = refl
join_dots-split_dots (c ∷ s) =
    let (p, ps, h) = split_dots-cons s in
    let back : join_dots (p ∷ ps) ≡ s = ap join_dots (sym h) ∙ join_dots-split_dots s in
    elim (Bool-cases (c == b'.')) [
      | inl e ↦ let dot : b'.' ≡ c = ground arith in rw (e, h) (ap₂ (◌∷◌) dot back)
      | inr e ↦ rw (e, h) (on_first-join c p ps ∙ ap (◌∷◌ c) back)
    ]

split_dots-v4_normalize :
    (a b c d : ℕ)
    → IsByte a
    → IsByte b
    → IsByte c
    → IsByte d
    → split_dots (v4_normalize a b c d) ≡ digits 20 a ∷ digits 20 b ∷ digits 20 c ∷ digits 20 d ∷ []
split_dots-v4_normalize a b c d p q r s =
    let ok : (v : ℕ) → IsByte v → all_digits (digits 20 v) ≡ true =
      λ v h. number_digits (digits 20 v) (is_number-digits v h) in
    split_dots-append (digits 20 a) _ (ok a p)
    ∙ ap (◌∷◌ (digits 20 a)) (
        split_dots-append (digits 20 b) _ (ok b q)
        ∙ ap (◌∷◌ (digits 20 b)) (
            split_dots-append (digits 20 c) _ (ok c r)
            ∙ ap (◌∷◌ (digits 20 c)) (split_dots-digits (digits 20 d) (ok d s))))

reads :
    (a b c d : ℕ)
    → IsByte a
    → IsByte b
    → IsByte c
    → IsByte d
    → parse_ipv4 (v4_normalize a b c d) ≡ parsed (a ∷ b ∷ c ∷ d ∷ [])
unfolding parse_ipv4
reads a b c d p q r s =
    let big : (v : ℕ) → IsByte v → ltb 255 v ≡ false = λ v h. ground arith in
    ap parse_parts (split_dots-v4_normalize a b c d p q r s)
    ∙ rw
        (
          is_number-digits a p,
          is_number-digits b q,
          is_number-digits c r,
          is_number-digits d s,
          no_zero-digits a p,
          no_zero-digits b q,
          no_zero-digits c r,
          no_zero-digits d s,
          number-octet a p,
          number-octet b q,
          number-octet c r,
          number-octet d s,
          big a p,
          big b q,
          big c r,
          big d s,
        )
        refl

no_text : {s : List ℕ} → none ≡ some s → ⊥
no_text e = cc

reads_formatted : (s bs : List ℕ) → All IsByte bs → format_v4 bs ≡ some s → parse_ipv4 s ≡ parsed bs
unfolding format_v4
reads_formatted s [] h e = absurd (no_text e)
reads_formatted s (a ∷ []) h e = absurd (no_text e)
reads_formatted s (a ∷ b ∷ []) h e = absurd (no_text e)
reads_formatted s (a ∷ b ∷ c ∷ []) h e = absurd (no_text e)
reads_formatted s (a ∷ b ∷ c ∷ d ∷ x ∷ xs) h e = absurd (no_text e)
reads_formatted s (a ∷ b ∷ c ∷ d ∷ []) (p, (q, (r, (t, _)))) e =
    ap parse_ipv4 (sym (some-injective _ s e)) ∙ reads a b c d p q r t

formatted_read :
    (s bs : List ℕ) → parse_ipv4 s ≡ parsed bs → All IsByte bs × (format_v4 bs ≡ some s)
unfolding parse_ipv4 format_v4
formatted_read s bs e =
    let (a, b, c, d, parts, bytes, oa, ob, oc, od) = parse_parts-parsed (split_dots s) bs e in
    let whole : v4_normalize (number 0 a) (number 0 b) (number 0 c) (number 0 d) ≡ s =
      rw
        (
          digits-number a oa.numeral oa.no_zero oa.small,
          digits-number b ob.numeral ob.no_zero ob.small,
          digits-number c oc.numeral oc.no_zero oc.small,
          digits-number d od.numeral od.no_zero od.small,
        )
        (ap join_dots (sym parts) ∙ join_dots-split_dots s) in
    (
      subst (All IsByte) (sym bytes) (oa.small, (ob.small, (oc.small, (od.small, tt)))),
      ap format_v4 bytes ∙ ap some whole,
    )

-- `_parse_ipv4` reads a text as an address exactly when `format_bytes` writes this address as
-- that text; the address then has four bytes.
pub parse_ipv4_iff :
    (s bs : List ℕ) → (parse_ipv4 s ≡ parsed bs) ↔ (All IsByte bs × (format_v4 bs ≡ some s))
parse_ipv4_iff s bs = (formatted_read s bs, λ h. reads_formatted s bs h.0 h.1)
