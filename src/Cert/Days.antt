-- ===== src/Cert/Days.antt =====
-- The bound on the validity of a certificate keeps the product of seconds within a `long` of 32 bits.
use luadch.Common.{
  ℕ, ◌*◌, ◌≤◌, true, false, List, ◌≡◌, refl, ap, ◌⊎◌, inl, inr, ◌↔◌, arith, Bool-cases, ◌∙◌,
}
use luadch.Common.Ints.{ℤ, pos, is_outside, is_outside-between, to_int_small}
use luadch.Derive.{size_of}
use luadch.Cert.{Ossl, bad_days, max_days, seconds, generate, gen_self_signed_cert}

seconds_exact : (d : ℕ) → size_of (seconds (pos d)) ≡ d * 86400 → d ≤ max_days
seconds_exact d e = ground arith

-- The product is the number of seconds exactly up to `max_days`.
seconds_iff : (d : ℕ) → (seconds (pos d) ≡ pos (d * 86400)) ↔ (d ≤ max_days)
seconds_iff d = (λ e. seconds_exact d (ap size_of e), λ h. to_int_small (d * 86400) (omega arith))

-- `gen_self_signed_cert` refuses a number of days outside its bounds, before any other call;
-- else the certificate is made with the number of days times 86400 seconds, without a
-- wrap-around of a 32-bit `long`.
pub gen_self_signed_cert-days :
    {W : Type 0} (ossl : Ossl W) (cn : List ℕ) (days : ℤ) (w : W)
    → ((is_outside 1 max_days days ≡ true)
        × (gen_self_signed_cert ossl cn days w ≡ (bad_days days, ossl.clear_errors w)))
      ⊎ ((d : ℕ) × (days ≡ pos d)
          × (1 ≤ d)
          × (seconds (pos d) ≡ pos (d * 86400))
          × (gen_self_signed_cert ossl cn days w
              ≡ generate ossl cn (pos (d * 86400)) (ossl.clear_errors w)))
unfolding gen_self_signed_cert
gen_self_signed_cert-days ossl cn days w = elim (Bool-cases (is_outside 1 max_days days)) [
  | inl e ↦ inl (e, rw (e, gen_self_signed_cert) refl)
  | inr e ↦
      let (d, same, lo, hi) = is_outside-between 1 max_days days e in
      let whole = (seconds_iff d).1 hi in
      inr (
        d,
        same,
        lo,
        whole,
        rw (e, gen_self_signed_cert)
            (ap (λ n. generate ossl cn (seconds n) (ossl.clear_errors w)) same
              ∙ ap (λ s. generate ossl cn s (ossl.clear_errors w)) whole),
      )
]

-- A number of days passes the bounds of `gen_self_signed_cert` exactly when it is positive and
-- its seconds fit a 32-bit `long`.
pub is_outside-seconds :
    (d : ℕ)
    → (is_outside 1 max_days (pos d) ≡ false) ↔ ((1 ≤ d) × (seconds (pos d) ≡ pos (d * 86400)))
is_outside-seconds d = (
  λ e. (ground arith, (seconds_iff d).1 (ground arith)),
  λ e. let hi = (seconds_iff d).0 e.1 in let lo = e.0 in ground arith,
)
