-- ===== src/Cert/Frees.antt =====
-- What `gen_self_signed_cert` and `cert_fingerprint_sha256` leave behind on each path.
use luadch.Common.{
  ℕ, Bool, true, false, List, [], ◌∷◌, Option, none, some, ltb, if◌then◌else◌, length, ◌≡◌, refl,
  ap, sym, ◌∙◌, ◌⊎◌, inl, inr,
}
use luadch.Common.Ints.{ℤ, pos, is_outside}
use luadch.Derive.{max_int}
use luadch.Cert.{
  Ossl, Outcome, Fault, pushed_pair, pushed, no_bio, max_days, seconds, clear_top, push_ossl_err,
  on_success, free_cert, free_all, with_bios, write_pem, fill_in, signed_with, generate,
  fingerprint_of, gen_self_signed_cert, cert_fingerprint_sha256,
}
use luadch.Cert.Ledger.{
  Object, pkey, x509, bn, bio, is_live, remove, grown, Frees, IsLedger, is_live_first, remove_first,
  is_live_second, remove_second,
}

-- The function gave strings.
abbrev pub gives_string : Outcome → Bool
gives_string (pushed_pair s t) = true
gives_string (pushed s) = true
gives_string _ = false

module _ {W : Type 0} (ossl : Ossl W) (live : W → List Object) (errors : W → List ℕ) where
  -- The objects are those of `base`, and behind an error the error queue is empty.
  abbrev pub Clean : List Object → Outcome × W → Type 0
  Clean base r = (live r.1 ≡ base) × ((gives_string r.0 ≡ true) ⊎ (errors r.1 ≡ []))

  module _ (laws : IsLedger ossl live) (drained : (w : W) → errors (ossl.clear_errors w) ≡ []) where
    push_ossl_err-Clean :
        (base : List Object) (f : Fault) (w : W)
        → live w ≡ base
        → Clean base (push_ossl_err ossl f w)
    unfolding push_ossl_err
    push_ossl_err-Clean base f w h = (laws.clear_errors _ ∙ (laws.get_error w ∙ h), inr (drained _))

    -- `l a` are the objects when the call gave `a`.
    on_success-Clean :
        {A : Type 0} (base : List Object) (l : Option A → List Object) (r : Option A × W)
        (release : W → W) (f : Fault) (next : A → W → Outcome × W)
        → live r.1 ≡ l r.0
        → ((w : W) → live w ≡ l none → live (release w) ≡ base)
        → ((a : A) (w : W) → live w ≡ l (some a) → Clean base (next a w))
        → Clean base (on_success ossl r release f next)
    unfolding on_success
    on_success-Clean base l (none, w) release f next h free go =
        push_ossl_err-Clean base f (release w) (free w h)
    on_success-Clean base l (some a, w) release f next h free go = go a w h

    -- A free of the object that was made last.
    free-live :
        (make : ℕ → Object) (free : ℕ → W → W) (a : ℕ) (base : List Object) (w : W)
        → Frees ossl live make free
        → live w ≡ make a ∷ base
        → live (free a w) ≡ base
    free-live make free a base w law h =
        law a w (ap (is_live (make a)) h ∙ is_live_first (make a) base)
        ∙ (ap (remove (make a)) h ∙ remove_first (make a) base)

    free_cert-live :
        (x k : ℕ) (base : List Object) (w : W)
        → live w ≡ x509 x ∷ (pkey k ∷ base)
        → live (free_cert ossl x k w) ≡ base
    free_cert-live x k base w h =
        free-live pkey ossl.pkey_free k base _ laws.pkey_free
          (free-live x509 ossl.x509_free x (pkey k ∷ base) w laws.x509_free h)

    free_all-live :
        (b c x k : ℕ) (base : List Object) (w : W)
        → live w ≡ bio c ∷ (bio b ∷ (x509 x ∷ (pkey k ∷ base)))
        → live (free_all ossl b c x k w) ≡ base
    free_all-live b c x k base w h =
        let rest = x509 x ∷ (pkey k ∷ base) in
        let first : live (ossl.bio_free b w) ≡ bio c ∷ rest =
          laws.bio_free b w (ap (is_live (bio b)) h ∙ is_live_second b c rest)
          ∙ (ap (remove (bio b)) h ∙ remove_second b c rest) in
        free_cert-live x k base _ (free-live bio ossl.bio_free c rest _ laws.bio_free first)

    with_bios-Clean :
        (base : List Object) (b c : Option ℕ) (x k : ℕ) (w : W) (next : ℕ → ℕ → W → Outcome × W)
        → live w ≡ grown bio c (grown bio b (x509 x ∷ (pkey k ∷ base)))
        → ((i j : ℕ) (v : W)
            → live v ≡ bio j ∷ (bio i ∷ (x509 x ∷ (pkey k ∷ base)))
            → Clean base (next i j v))
        → Clean base (with_bios ossl b c x k w next)
    unfolding with_bios
    with_bios-Clean base (some i) (some j) x k w next h go = go i j w h
    with_bios-Clean base (some i) none x k w next h go =
        push_ossl_err-Clean base no_bio _
          (free_cert-live x k base _ (free-live bio ossl.bio_free i _ w laws.bio_free h))
    with_bios-Clean base none (some j) x k w next h go =
        push_ossl_err-Clean base no_bio _
          (free_cert-live x k base _ (free-live bio ossl.bio_free j _ w laws.bio_free h))
    with_bios-Clean base none none x k w next h go =
        push_ossl_err-Clean base no_bio _ (free_cert-live x k base _ h)

    write_pem-Clean :
        (base : List Object) (x k : ℕ) (w : W)
        → live w ≡ x509 x ∷ (pkey k ∷ base)
        → Clean base (write_pem ossl x k w)
    unfolding write_pem
    write_pem-Clean base x k w h =
        let made : ℕ → ℕ → List Object = λ i j. bio j ∷ (bio i ∷ (x509 x ∷ (pkey k ∷ base))) in
        let w1 = (ossl.bio_new w).1 in
        let made_one = laws.bio_new w ∙ ap (grown bio (ossl.bio_new w).0) h in
        with_bios-Clean base _ _ x k _ _
          (laws.bio_new w1 ∙ ap (grown bio (ossl.bio_new w1).0) made_one)
          (λ i j w3 h3.
            on_success-Clean base (λ _. made i j) _ _ _ _ (laws.write_key i k w3 ∙ h3)
              (free_all-live i j x k base)
              (λ _ w4 h4.
                on_success-Clean base (λ _. made i j) _ _ _ _ (laws.write_cert j x w4 ∙ h4)
                  (free_all-live i j x k base)
                  (λ _ w5 h5. (free_all-live i j x k base w5 h5, inl refl))))

    fill_in-live :
        (x k : ℕ) (cn : List ℕ) (secs : ℤ) (w : W) → live (fill_in ossl x k cn secs w) ≡ live w
    fill_in-live x k cn secs w =
        laws.set_issuer_name x _
        ∙ (laws.add_common_name x _ _
            ∙ (laws.set_pubkey x k _
                ∙ (laws.set_not_after x secs _ ∙ laws.set_not_before x (pos 0) w)))

    -- `generate` with the key and the certificate made.
    made-Clean :
        (base : List Object) (x k : ℕ) (cn : List ℕ) (secs : ℤ) (w : W)
        → live w ≡ x509 x ∷ (pkey k ∷ base)
        → Clean base (signed_with ossl cn secs k x w)
    unfolding signed_with
    made-Clean base x k cn secs w h =
        let made = x509 x ∷ (pkey k ∷ base) in
        on_success-Clean base (λ _. made) _ _ _ _
          (laws.rand_bytes 16 _ ∙ (laws.set_version x 2 w ∙ h)) (free_cert-live x k base)
          (λ bytes w3 h3.
            on_success-Clean base (λ o. grown bn o made) _ _ _ _
              (laws.bin2bn _ w3 ∙ ap (grown bn (ossl.bin2bn (clear_top bytes) w3).0) h3)
              (free_cert-live x k base)
              (λ b w4 h4.
                let w5 = ossl.bn_free b (ossl.set_serial b x w4) in
                let h5 : live w5 ≡ made =
                  free-live bn ossl.bn_free b made _ laws.bn_free (laws.set_serial b x w4 ∙ h4) in
                on_success-Clean base (λ _. made) _ _ _ _
                  (laws.sign x k _ ∙ (fill_in-live x k cn secs w5 ∙ h5)) (free_cert-live x k base)
                  (λ _ w6 h6. write_pem-Clean base x k w6 h6)))

    choose-Clean :
        (base : List Object) (b : Bool) (r r' : Outcome × W)
        → Clean base r
        → Clean base r'
        → Clean base (if b then r else r')
    choose-Clean base true r r' h h' = h
    choose-Clean base false r r' h h' = h'

    -- The BIO is freed behind the certificate that was read.
    bio_free-grown :
        (base : List Object) (b : ℕ) (o : Option ℕ) (v : W)
        → live v ≡ grown x509 o (bio b ∷ base)
        → live (ossl.bio_free b v) ≡ grown x509 o base
    bio_free-grown base b none v h = free-live bio ossl.bio_free b base v laws.bio_free h
    bio_free-grown base b (some x) v h =
        laws.bio_free b v (ap (is_live (bio b)) h ∙ is_live_first (bio b) base)
        ∙ (ap (remove (bio b)) h ∙ ap (◌∷◌ (x509 x)) (remove_first (bio b) base))

    read-Clean :
        (base : List Object) (b : ℕ) (w : W)
        → live w ≡ bio b ∷ base
        → Clean base (fingerprint_of ossl b w)
    unfolding fingerprint_of
    read-Clean base b w h =
        let cert = ossl.read_cert b w in
        on_success-Clean base (λ o. grown x509 o base) _ _ _ _
          (bio_free-grown base b cert.0 cert.1 (laws.read_cert b w ∙ ap (grown x509 cert.0) h))
          (λ _ k. k)
          (λ x w3 h3.
            on_success-Clean base (λ _. x509 x ∷ base) _ _ _ _ (laws.digest x w3 ∙ h3)
              (λ v k. free-live x509 ossl.x509_free x base v laws.x509_free k)
              (λ hash w4 h4. (free-live x509 ossl.x509_free x base w4 laws.x509_free h4, inl refl)))

    generate-Clean : (cn : List ℕ) (secs : ℤ) (w : W) → Clean (live w) (generate ossl cn secs w)
    unfolding generate
    generate-Clean cn secs w =
        let base = live w in
        on_success-Clean base (λ o. grown pkey o base) _ _ _ _ (laws.ec_gen w) (λ _ h. h)
          (λ k w1 h1.
            on_success-Clean base (λ o. grown x509 o (pkey k ∷ base)) _ _ _ _
              (laws.x509_new w1 ∙ ap (grown x509 (ossl.x509_new w1).0) h1)
              (λ v h. free-live pkey ossl.pkey_free k base v laws.pkey_free h)
              (λ x w2 h2. made-Clean base x k cn secs w2 h2))

    gen_self_signed_cert-Clean :
        (cn : List ℕ) (days : ℤ) (w : W) → Clean (live w) (gen_self_signed_cert ossl cn days w)
    unfolding gen_self_signed_cert
    gen_self_signed_cert-Clean cn days w =
        choose-Clean (live w) (is_outside 1 max_days days) _ _
          (laws.clear_errors w, inr (drained w))
          (rw (sym (laws.clear_errors w)) (generate-Clean cn (seconds days) (ossl.clear_errors w)))

    cert_fingerprint_sha256-Clean :
        (pem : List ℕ) (w : W) → Clean (live w) (cert_fingerprint_sha256 ossl pem w)
    unfolding cert_fingerprint_sha256
    cert_fingerprint_sha256-Clean pem w =
        let base = live w in
        let w0 = ossl.clear_errors w in
        let same = laws.clear_errors w in
        choose-Clean base (ltb max_int (length pem)) _ _ (same, inr (drained w))
          (on_success-Clean base (λ o. grown bio o base) _ _ _ _
            (laws.bio_of pem w0 ∙ ap (grown bio (ossl.bio_of pem w0).0) same) (λ _ h. h)
            (λ b w1 h1. read-Clean base b w1 h1))

-- For a ledger of the objects that OpenSSL makes and frees, and for any answers of its calls,
-- `gen_self_signed_cert` and `cert_fingerprint_sha256` leave the objects that they found, and
-- give their strings or leave the error queue empty.
pub cert-Clean :
    {W : Type 0} (ossl : Ossl W) (live : W → List Object) (errors : W → List ℕ) (cn pem : List ℕ)
    (days : ℤ) (w : W)
    → IsLedger ossl live
    → ((v : W) → errors (ossl.clear_errors v) ≡ [])
    → Clean ossl live errors (live w) (gen_self_signed_cert ossl cn days w)
      × Clean ossl live errors (live w) (cert_fingerprint_sha256 ossl pem w)
cert-Clean ossl live errors cn pem days w laws drained = (
  gen_self_signed_cert-Clean ossl live errors laws drained cn days w,
  cert_fingerprint_sha256-Clean ossl live errors laws drained pem w,
)
