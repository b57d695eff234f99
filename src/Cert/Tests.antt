-- ===== src/Cert/Tests.antt =====
-- A library that makes its objects under fresh addresses and cannot sign, and the theorems applied to
-- it.
use luadch.Common.{
  ℕ, Bool, true, false, List, [], ◌∷◌, Option, none, some, replicate, length, ◌≡◌, refl,
  if◌then◌else◌,
}
use luadch.Common.Ints.{pos, negsuc}
use luadch.Cert.{
  Ossl, pushed, pushed_nil, pushed_pair, bad_days, not_signed, seconds, push_ossl_err, on_success,
  with_bios, write_pem, signed_with, generate, gen_self_signed_cert, cert_fingerprint_sha256,
  fingerprint_of,
}
use luadch.Cert.Ledger.{Object, pkey, x509, bn, bio, remove, IsLedger}
use luadch.Cert.Frees.{Clean, cert-Clean}

-- The objects, and the error queue.
abbrev World : Type 0
World = List Object × List ℕ

abbrev made : (ℕ → Object) → World → Option ℕ × World
made make w = (some (length w.0), (make (length w.0) ∷ w.0, w.1))

abbrev freed : (ℕ → Object) → ℕ → World → World
freed make a w = (remove (make a) w.0, w.1)

-- Signing fails with the error 7 unless `signs`.
abbrev fresh : Bool → Ossl World
fresh signs = record {
  clear_errors = λ w. (w.0, []);
  get_error = λ w. elim w.1 [ [] ↦ (0, w) | e ∷ es ↦ (e, (w.0, es)) ];
  error_string = λ e. e ∷ [];
  ec_gen = made pkey;
  x509_new = made x509;
  set_version = λ a n w. w;
  rand_bytes = λ n w. (some (replicate n 255), w);
  bin2bn = λ s. made bn;
  set_serial = λ a b w. w;
  set_not_before = λ a n w. w;
  set_not_after = λ a n w. w;
  set_pubkey = λ a b w. w;
  add_common_name = λ a s w. w;
  set_issuer_name = λ a w. w;
  sign = λ a b w. if signs then (some tt, w) else (none, (w.0, 7 ∷ w.1));
  bio_new = made bio;
  write_key = λ a b w. (some tt, w);
  write_cert = λ a b w. (some tt, w);
  bio_data = λ a w. a ∷ [];
  pkey_free = freed pkey;
  x509_free = freed x509;
  bn_free = freed bn;
  bio_free = freed bio;
  bio_of = λ s. made bio;
  read_cert = λ b. made x509;
  digest = λ a w. (some (replicate 32 9), w);
}

get_error-objects : (s : List Object) (es : List ℕ) → ((fresh false).get_error (s, es)).1.0 ≡ s
get_error-objects s [] = refl
get_error-objects s (e ∷ es) = refl

fresh-IsLedger : IsLedger (fresh false) (λ w. w.0)
fresh-IsLedger = record {
  clear_errors = λ w. refl;
  get_error = λ w. get_error-objects w.0 w.1;
  ec_gen = λ w. refl;
  x509_new = λ w. refl;
  bin2bn = λ s w. refl;
  bio_new = λ w. refl;
  bio_of = λ s w. refl;
  read_cert = λ b w. refl;
  pkey_free = λ a w h. refl;
  x509_free = λ a w h. refl;
  bn_free = λ a w h. refl;
  bio_free = λ a w h. refl;
  set_version = λ a n w. refl;
  rand_bytes = λ n w. refl;
  set_serial = λ a b w. refl;
  set_not_before = λ a n w. refl;
  set_not_after = λ a n w. refl;
  set_pubkey = λ a b w. refl;
  add_common_name = λ a s w. refl;
  set_issuer_name = λ a w. refl;
  sign = λ a b w. refl;
  write_key = λ a b w. refl;
  write_cert = λ a b w. refl;
  digest = λ a w. refl;
}

abbrev name : List ℕ
name = b'h' ∷ b'u' ∷ b'b' ∷ []

abbrev start : World
start = (bio 77 ∷ [], 3 ∷ [])

runs :
    (gen_self_signed_cert (fresh true) name (pos 3650) start
      ≡ (pushed_pair (3 ∷ []) (4 ∷ []), (bio 77 ∷ [], [])))
    × (gen_self_signed_cert (fresh false) name (pos 3650) start
        ≡ (pushed_nil not_signed (some (7 ∷ [])), (bio 77 ∷ [], [])))
    × (gen_self_signed_cert (fresh true) name (negsuc 0) start
        ≡ (bad_days (negsuc 0), (bio 77 ∷ [], [])))
    × (cert_fingerprint_sha256 (fresh true) name start
        ≡ (pushed (replicate 32 9), (bio 77 ∷ [], [])))
unfolding gen_self_signed_cert generate signed_with write_pem with_bios on_success push_ossl_err
    cert_fingerprint_sha256 fingerprint_of
runs = (refl, refl, refl, refl)

-- A day more, and the product is negative.
overflows : seconds (pos 24856) ≡ negsuc 2147408895
overflows = refl

cert-Clean_example :
    Clean
      (fresh false)
      (λ w. w.0)
      (λ w. w.1)
      (bio 77 ∷ [])
      (gen_self_signed_cert (fresh false) name (pos 3650) start)
    × Clean
        (fresh false)
        (λ w. w.0)
        (λ w. w.1)
        (bio 77 ∷ [])
        (cert_fingerprint_sha256 (fresh false) name start)
cert-Clean_example =
    cert-Clean (fresh false) (λ w. w.0) (λ w. w.1) name name (pos 3650) start fresh-IsLedger
      (λ v. refl)
