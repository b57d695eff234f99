-- ===== src/Ipmatch/Canonical.antt =====
-- What `normalize` of core/ipmatch.lua gives is read as the same address.
use luadch.Common.{
  ℕ, Bool, true, false, ◌&&◌, ◌||◌, List, [], ◌∷◌, ◌++◌, some, ◌==◌, ◌≡◌, refl, ap, sym, ◌∙◌, subst,
  arith, IsByte, some-injective, append-nil,
}
use luadch.Hub.Pid.{digits}
use luadch.Ipmatch.V4.{
  parsed, split_dots, is_digit, all_digits, parse_ipv4, v4_normalize, format_v4,
}
use luadch.Ipmatch.RoundTrip.{parse_ipv4_iff}
use luadch.Ipmatch.Address.{
  Ip, ip4, ip6, failed4, failed6, of_v4, has_colon, parse_ip, IsSized, parse_ip-IsSized,
}
use luadch.Ipmatch.Text.{v6_normalize, normalized, normalize}
use luadch.Ipmatch.Groups.{both}
use luadch.Ipmatch.Normal.{no_bytes}
use luadch.Ipmatch.Mapped.{octet_digits, v6_normalize-reads}

-- Digits and dots.
abbrev quad : List ℕ → Bool
quad [] = true
quad (c ∷ s) = (is_digit c || c == b'.') && quad s

quad-digits : (p s : List ℕ) → all_digits p ≡ true → quad s ≡ true → quad (p ++ s) ≡ true
quad-digits [] s h k = k
quad-digits (c ∷ p) s h k =
    let (now, later) = both (is_digit c) (all_digits p) h in rw now (quad-digits p s later k)

has_colon-quad : (s : List ℕ) → quad s ≡ true → has_colon s ≡ false
has_colon-quad [] h = refl
has_colon-quad (c ∷ s) h =
    let (now, later) = both (is_digit c || c == b'.') (quad s) h in
    let other : (c == b':') ≡ false = ground arith in rw other (has_colon-quad s later)

parse_ip-quad :
    (t bytes : List ℕ) → quad t ≡ true → parse_ipv4 t ≡ parsed bytes → parse_ip t ≡ ip4 bytes
unfolding parse_ip parse_ipv4 split_dots
parse_ip-quad [] bytes h e = absurd (ground arith)
parse_ip-quad (c ∷ t) bytes h e =
    let (now, later) = both (is_digit c || c == b'.') (quad t) h in
    let other : (c == b'[') ≡ false = ground arith in
    rw (other, has_colon-quad (c ∷ t) h) (ap of_v4 e)

v4_normalize-reads :
    (a b c d : ℕ)
    → IsByte a
    → IsByte b
    → IsByte c
    → IsByte d
    → parse_ip (v4_normalize a b c d) ≡ ip4 (a ∷ b ∷ c ∷ d ∷ [])
unfolding format_v4
v4_normalize-reads a b c d p q r s =
    let last : quad (digits 20 d) ≡ true =
      subst (λ t. quad t ≡ true) (append-nil (digits 20 d))
        (quad-digits (digits 20 d) [] (octet_digits d s) refl) in
    parse_ip-quad (v4_normalize a b c d) (a ∷ b ∷ c ∷ d ∷ [])
      (quad-digits (digits 20 a) _ (octet_digits a p) (
        quad-digits (digits 20 b) _ (octet_digits b q)
          (quad-digits (digits 20 c) _ (octet_digits c r) last)))
      ((parse_ipv4_iff (v4_normalize a b c d) (a ∷ b ∷ c ∷ d ∷ [])).1
        ((p, (q, (r, (s, tt)))), refl))

normalized-reads : (r : Ip) (t : List ℕ) → IsSized r → normalized r ≡ some t → parse_ip t ≡ r
normalized-reads (ip4 (a ∷ b ∷ c ∷ d ∷ [])) t (_, (p, (q, (r, (s, _))))) e =
    ap parse_ip (sym (some-injective _ t e)) ∙ v4_normalize-reads a b c d p q r s
normalized-reads (ip4 []) t h e = no_bytes t e
normalized-reads (ip4 (a ∷ [])) t h e = no_bytes t e
normalized-reads (ip4 (a ∷ b ∷ [])) t h e = no_bytes t e
normalized-reads (ip4 (a ∷ b ∷ c ∷ [])) t h e = no_bytes t e
normalized-reads (ip4 (a ∷ b ∷ c ∷ d ∷ x ∷ xs)) t h e = no_bytes t e
normalized-reads (ip6 bytes) t (size, h) e =
    ap parse_ip (sym (some-injective (v6_normalize bytes) t e)) ∙ v6_normalize-reads bytes size h
normalized-reads (failed4 v) t h e = no_bytes t e
normalized-reads (failed6 f) t h e = no_bytes t e

-- Where `normalize` gives a text for a string, `parse_ip` reads this text as the very address,
-- with its family, that it reads the string as, and `normalize` leaves the text as it is: also
-- for the IPv4-mapped form and where a run of zeros is left out.
pub normalize-parse_ip :
    (s t : List ℕ) → normalize s ≡ some t → (parse_ip t ≡ parse_ip s) × (normalize t ≡ some t)
unfolding normalize
normalize-parse_ip s t e =
    let same = normalized-reads (parse_ip s) t (parse_ip-IsSized s) e in
    (same, ap normalized same ∙ e)
