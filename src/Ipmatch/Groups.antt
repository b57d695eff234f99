-- ===== src/Ipmatch/Groups.antt =====
-- The text of a group of IPv6, and texts of groups.
use luadch.Common.{
  ℕ, ◌+◌, ◌*◌, ◌/◌, ◌%◌, ◌≤◌, ◌<◌, Bool, true, false, not, ◌&&◌, ◌||◌, List, [], ◌∷◌, ◌++◌, none,
  some, ltb, leb, ◌==◌, length, ◌≡◌, refl, ap, ◌∙◌, arith, Bool-cases, inl, inr, All, map,
  length-map,
}
use luadch.Common.Tables.{all_below, all_below_lem}
use luadch.Ipmatch.V6.{hex_value, all_hex, hex_number, is_space, at_dcolon}
use luadch.Ipmatch.Text.{hex_digit, format_x, dcolon}

-- A byte that is in no way special to `_parse_ipv6`, or a colon.
abbrev pub is_tame : ℕ → Bool
is_tame c = not (is_space c || (c == b'.' || c == b'['))

unfoldable pub tame : List ℕ → Bool
tame [] = true
tame (c ∷ s) = is_tame c && tame s

-- No colon.
unfoldable pub plain : List ℕ → Bool
plain [] = true
plain (c ∷ s) = not (c == b':') && plain s

-- The facts of a digit.
abbrev digit_facts : ℕ → Bool
digit_facts d =
    (hex_value (hex_digit d) == d) && (is_tame (hex_digit d) && not (hex_digit d == b':'))

record IsHexByte (d : ℕ) : Type 0 where
  pub value : hex_value (hex_digit d) ≡ d
  pub quiet : is_tame (hex_digit d) ≡ true
  pub no_colon : (hex_digit d == b':') ≡ false

digit_facts_all : (d : ℕ) → d < 16 → digit_facts d ≡ true
unfolding all_below
digit_facts_all = all_below_lem digit_facts 16 refl

hex_digit-IsHexByte : (d : ℕ) → d < 16 → IsHexByte d
hex_digit-IsHexByte d h =
    let f = digit_facts_all d h in
    record { value = ground arith; quiet = ground arith; no_colon = ground arith }

-- A group's text that reads as `n`.
pub record IsGroup (n : ℕ) (g : List ℕ) : Type 0 where
  pub reads : hex_number 0 g ≡ n
  pub checks : (leb 1 (length g) && (leb (length g) 4 && all_hex g)) ≡ true
  pub quiet : tame g ≡ true
  pub no_colon : plain g ≡ true

-- The number of hexadecimal digits.
abbrev value : ℕ → List ℕ → ℕ
value n [] = n
value n (d ∷ ds) = value (n * 16 + d) ds

abbrev IsHex : ℕ → Type 0
IsHex d = d < 16

hex_number-digits :
    (n : ℕ) (ds : List ℕ) → All IsHex ds → hex_number n (map hex_digit ds) ≡ value n ds
hex_number-digits n [] h = refl
hex_number-digits n (d ∷ ds) h =
    ap (λ v. hex_number (n * 16 + v) (map hex_digit ds)) (hex_digit-IsHexByte d h.0).value
    ∙ hex_number-digits (n * 16 + d) ds h.1

all_hex-digits : (ds : List ℕ) → All IsHex ds → all_hex (map hex_digit ds) ≡ true
all_hex-digits [] h = refl
all_hex-digits (d ∷ ds) h =
    let f : ltb (hex_value (hex_digit d)) 16 ≡ true =
      rw (hex_digit-IsHexByte d h.0).value (ground (arith, h.0)) in
    rw f (all_hex-digits ds h.1)

tame-digits : (ds : List ℕ) → All IsHex ds → tame (map hex_digit ds) ≡ true
unfolding tame
tame-digits [] h = refl
tame-digits (d ∷ ds) h = rw (hex_digit-IsHexByte d h.0).quiet (tame-digits ds h.1)

plain-digits : (ds : List ℕ) → All IsHex ds → plain (map hex_digit ds) ≡ true
unfolding plain
plain-digits [] h = refl
plain-digits (d ∷ ds) h = rw (hex_digit-IsHexByte d h.0).no_colon (plain-digits ds h.1)

digits-IsGroup :
    (n : ℕ) (ds : List ℕ)
    → All IsHex ds
    → 1 ≤ length ds
    → length ds ≤ 4
    → value 0 ds ≡ n
    → IsGroup n (map hex_digit ds)
digits-IsGroup n ds h few many e =
    let size = length-map ds hex_digit in
    let hex = all_hex-digits ds h in
    record {
      reads = hex_number-digits 0 ds h ∙ e;
      checks = ground (arith, size, hex);
      quiet = tame-digits ds h;
      no_colon = plain-digits ds h;
    }

pub format_x-IsGroup : (n : ℕ) → n < 65536 → IsGroup n (format_x n)
unfolding format_x
format_x-IsGroup n h = elim (Bool-cases (ltb n 16)) [
  | inl e ↦
      rw e (digits-IsGroup n (n ∷ []) (ground arith, tt) (omega arith) (omega arith) (omega arith))
  | inr e ↦ elim (Bool-cases (ltb n 256)) [
    | inl f ↦
        rw (e, f)
          (digits-IsGroup n (n / 16 ∷ n % 16 ∷ []) (ground arith, (ground arith, tt)) (omega arith)
            (omega arith) (omega arith))
    | inr f ↦ elim (Bool-cases (ltb n 4096)) [
      | inl g ↦
          rw (e, f, g)
            (digits-IsGroup n (n / 256 ∷ n / 16 % 16 ∷ n % 16 ∷ [])
              (ground arith, (ground arith, (ground arith, tt))) (omega arith) (omega arith)
              (omega arith))
      | inr g ↦
          rw (e, f, g)
            (digits-IsGroup n (n / 4096 ∷ n / 256 % 16 ∷ n / 16 % 16 ∷ n % 16 ∷ [])
              (ground arith, (ground arith, (ground arith, (ground arith, tt)))) (omega arith)
              (omega arith) (omega arith))
    ]
  ]
]

pub both : (a b : Bool) → (a && b) ≡ true → (a ≡ true) × (b ≡ true)
both true b h = (refl, h)
both false b h = absurd (ground arith)

pub is_not : (a : Bool) → not a ≡ true → a ≡ false
is_not true h = absurd (ground arith)
is_not false h = refl

-- Texts one behind the other.
pub tame-append : (s t : List ℕ) → tame s ≡ true → tame t ≡ true → tame (s ++ t) ≡ true
unfolding tame
tame-append [] t h k = k
tame-append (c ∷ s) t h k =
    let (now, later) = both (is_tame c) (tame s) h in rw now (tame-append s t later k)

-- No "::" in a text, and no ":" at its end.
unfoldable pub single : List ℕ → Bool
single [] = true
single (c ∷ []) = not (c == b':')
single (c ∷ d ∷ s) = not ((c == b':') && (d == b':')) && single (d ∷ s)

pub at_dcolon-dcolon : (p s : List ℕ) → single p ≡ true → at_dcolon (p ++ dcolon s) ≡ some (p, s)
unfolding at_dcolon single
at_dcolon-dcolon [] s h = refl
at_dcolon-dcolon (c ∷ []) s h = let other : (c == b':') ≡ false = ground arith in rw other refl
at_dcolon-dcolon (c ∷ d ∷ p) s h =
    let (now, later) = both (not ((c == b':') && (d == b':'))) (single (d ∷ p)) h in
    let other : ((c == b':') && (d == b':')) ≡ false = is_not _ now in
    rw (other, at_dcolon-dcolon (d ∷ p) s later) refl

pub at_dcolon-single : (p : List ℕ) → single p ≡ true → at_dcolon p ≡ none
unfolding at_dcolon single
at_dcolon-single [] h = refl
at_dcolon-single (c ∷ []) h = refl
at_dcolon-single (c ∷ d ∷ p) h =
    let (now, later) = both (not ((c == b':') && (d == b':'))) (single (d ∷ p)) h in
    let other : ((c == b':') && (d == b':')) ≡ false = is_not _ now in
    rw (other, at_dcolon-single (d ∷ p) later) refl

-- A text that starts with some other byte, behind a group and a colon.
pub single-join :
    (c : ℕ) (g : List ℕ) (d : ℕ) (s : List ℕ)
    → plain (c ∷ g) ≡ true
    → (d == b':') ≡ false
    → single (d ∷ s) ≡ true
    → single ((c ∷ g) ++ (b':' ∷ d ∷ s)) ≡ true
unfolding single plain
single-join c [] d s h e k =
    let other = is_not (c == b':') (both (not (c == b':')) true h).0 in rw (other, e) k
single-join c (c' ∷ g) d s h e k =
    let (now, later) = both (not (c == b':')) (plain (c' ∷ g)) h in
    rw (is_not (c == b':') now) (single-join c' g d s later e k)

pub single-plain : (g : List ℕ) → plain g ≡ true → single g ≡ true
unfolding single plain
single-plain [] h = refl
single-plain (c ∷ []) h = ground arith
single-plain (c ∷ d ∷ g) h =
    let (now, later) = both (not (c == b':')) (plain (d ∷ g)) h in
    rw (is_not (c == b':') now) (single-plain (d ∷ g) later)
