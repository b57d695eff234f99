-- ===== src/Ipmatch/Octets.antt =====
-- What the tests of `_parse_ipv4` on its four captures let through.
use luadch.Common.{
  ℕ, ◌+◌, ◌-◌, ◌*◌, ◌/◌, ◌%◌, ◌≤◌, ◌<◌, Bool, true, false, ◌&&◌, ◌||◌, List, [], ◌∷◌, ltb,
  if◌then◌else◌, ◌≡◌, refl, ap, ap₂, sym, ◌∙◌, arith,
}
use luadch.Common.Tables.{all_below, all_below_lem}
use luadch.Hub.Pid.{digits, number}
use luadch.Ipmatch.{same_bytes}
use luadch.Ipmatch.Bits.{same_bytes→eq}
use luadch.Ipmatch.V4.{
  V4, parsed, not_dotted_quad, octet_too_large, leading_zero, is_number, has_leading_zero,
  parse_parts,
}

-- The digits of a byte, by its size.
abbrev octet : ℕ → List ℕ
octet v =
    if ltb v 10
    then (48 + v) ∷ []
    else if ltb v 100
    then (48 + v / 10) ∷ (48 + v % 10) ∷ []
    else (48 + v / 100) ∷ (48 + v / 10 % 10) ∷ (48 + v % 10) ∷ []

octet-digits : (v : ℕ) → v < 256 → digits 20 v ≡ octet v
unfolding all_below digits same_bytes
octet-digits v h =
    same_bytes→eq (digits 20 v) (octet v)
      (all_below_lem (λ v. same_bytes (digits 20 v) (octet v)) 256 refl v h)

-- More than three digits with no zero in front stand for a larger number.
number_grows : (s : List ℕ) (n : ℕ) → n ≤ number n s
number_grows [] n = omega arith
number_grows (c ∷ s) n = omega (arith, number_grows s (n * 10 + (c - 48)))

pub digits-number :
    (o : List ℕ)
    → is_number o ≡ true
    → has_leading_zero o ≡ false
    → number 0 o < 256
    → digits 20 (number 0 o) ≡ o
digits-number [] h z lt = cc
digits-number (a ∷ []) h z lt =
    let v = a - 48 in
    let small : ltb (number 0 (a ∷ [])) 10 ≡ true = ground arith in
    octet-digits _ lt ∙ rw small (ap (λ x. x ∷ []) (ground arith))
digits-number (a ∷ b ∷ []) h z lt =
    let big : ltb (number 0 (a ∷ b ∷ [])) 10 ≡ false = ground arith in
    let small : ltb (number 0 (a ∷ b ∷ [])) 100 ≡ true = ground arith in
    octet-digits _ lt ∙ rw (big, small) (ap₂ (λ x y. x ∷ y ∷ []) (ground arith) (ground arith))
digits-number (a ∷ b ∷ c ∷ []) h z lt =
    let big : ltb (number 0 (a ∷ b ∷ c ∷ [])) 10 ≡ false = ground arith in
    let large : ltb (number 0 (a ∷ b ∷ c ∷ [])) 100 ≡ false = ground arith in
    let x : 48 + number 0 (a ∷ b ∷ c ∷ []) / 100 ≡ a = ground arith in
    let y : 48 + number 0 (a ∷ b ∷ c ∷ []) / 10 % 10 ≡ b = ground arith in
    let w : 48 + number 0 (a ∷ b ∷ c ∷ []) % 10 ≡ c = ground arith in
    octet-digits _ lt ∙ rw (big, large, x, y, w) refl
digits-number (a ∷ b ∷ c ∷ d ∷ s) h z lt =
    let grown = number_grows s (number 0 (a ∷ b ∷ c ∷ d ∷ [])) in
    let first : 49 ≤ a = ground arith in absurd (omega arith)

abbrev is_parsed : V4 → Bool
is_parsed (parsed bs) = true
is_parsed _ = false

not_parsed : (r : V4) (bs : List ℕ) → is_parsed r ≡ false → r ≡ parsed bs → ⊥
not_parsed r bs n e = let t : is_parsed r ≡ true = ap is_parsed e in cc

-- A test that leaves with an error was passed.
skipped :
    (b : Bool) (out r : V4) (bs : List ℕ)
    → is_parsed out ≡ false
    → (if b then out else r) ≡ parsed bs
    → (b ≡ false) × (r ≡ parsed bs)
skipped true out r bs n e = absurd (not_parsed out bs n e)
skipped false out r bs n e = (refl, e)

-- A capture that passes every test.
pub record Octet (o : List ℕ) : Type 0 where
  pub numeral : is_number o ≡ true
  pub no_zero : has_leading_zero o ≡ false
  pub small : number 0 o < 256

bytes_of : (r : V4) (a b : List ℕ) → r ≡ parsed a → r ≡ parsed b → a ≡ b
bytes_of r a b e f = ap (λ v. elim v [ parsed l ↦ l | _ ↦ a ]) (sym e ∙ f)

numbered :
    (b : Bool) (r : V4) (bs : List ℕ)
    → (if b then r else not_dotted_quad) ≡ parsed bs
    → (b ≡ true) × (r ≡ parsed bs)
numbered true r bs e = (refl, e)
numbered false r bs e = absurd (not_parsed not_dotted_quad bs refl e)

pub parse_parts-parsed :
    (ps : List (List ℕ)) (bs : List ℕ)
    → parse_parts ps ≡ parsed bs
    → (a : List ℕ) × (b : List ℕ) × (c : List ℕ) × (d : List ℕ) × (ps ≡ a ∷ b ∷ c ∷ d ∷ [])
      × (bs ≡ number 0 a ∷ number 0 b ∷ number 0 c ∷ number 0 d ∷ [])
      × Octet a
      × Octet b
      × Octet c
      × Octet d
parse_parts-parsed [] bs e = absurd (not_parsed not_dotted_quad bs refl e)
parse_parts-parsed (a ∷ []) bs e = absurd (not_parsed not_dotted_quad bs refl e)
parse_parts-parsed (a ∷ b ∷ []) bs e = absurd (not_parsed not_dotted_quad bs refl e)
parse_parts-parsed (a ∷ b ∷ c ∷ []) bs e = absurd (not_parsed not_dotted_quad bs refl e)
parse_parts-parsed (a ∷ b ∷ c ∷ d ∷ p ∷ ps) bs e = absurd (not_parsed not_dotted_quad bs refl e)
parse_parts-parsed (a ∷ b ∷ c ∷ d ∷ []) bs e =
    let (n, e0) = numbered (is_number a && (is_number b && (is_number c && is_number d))) _ bs e in
    let (za, e1) = skipped (has_leading_zero a) (leading_zero a) _ bs refl e0 in
    let (zb, e2) = skipped (has_leading_zero b) (leading_zero b) _ bs refl e1 in
    let (zc, e3) = skipped (has_leading_zero c) (leading_zero c) _ bs refl e2 in
    let (zd, e4) = skipped (has_leading_zero d) (leading_zero d) _ bs refl e3 in
    let (fit, e5) =
      skipped
        (ltb 255 (number 0 a)
          || (ltb 255 (number 0 b) || (ltb 255 (number 0 c) || ltb 255 (number 0 d))))
        octet_too_large (parsed (number 0 a ∷ number 0 b ∷ number 0 c ∷ number 0 d ∷ [])) bs refl
        e4 in
    (
      a,
      b,
      c,
      d,
      refl,
      bytes_of _ bs (number 0 a ∷ number 0 b ∷ number 0 c ∷ number 0 d ∷ []) e5 refl,
      record { numeral = ground arith; no_zero = za; small = ground arith },
      record { numeral = ground arith; no_zero = zb; small = ground arith },
      record { numeral = ground arith; no_zero = zc; small = ground arith },
      record { numeral = ground arith; no_zero = zd; small = ground arith },
    )
