-- ===== src/Cert.antt =====
-- `gen_self_signed_cert`, `cert_fingerprint_sha256` and `push_ossl_err` of adclib/adclib.cpp. OpenSSL
-- is a parameter: a record of its calls on what it keeps, with pointers as numbers. A test of a return
-- gives `none` where the call failed. `long` has 32 bits, the least of the platforms.
pub mod Ledger
pub mod Frees
pub mod Days
mod Tests
use luadch.Common.{
  ℕ, ◌+◌, ◌*◌, ◌^◌, Bool, List, [], ◌∷◌, Option, none, some, ltb, ◌==◌, if◌then◌else◌, length,
  bit_and,
}
use luadch.Common.Ints.{ℤ, pos, negsuc, to_int, is_outside}
use luadch.Derive.{max_int}

-- `EVP_EC_gen` and so on, in the order of the source; `bio_data` is `BIO_get_mem_ptr` with what it
-- points to.
pub record Ossl (W : Type 0) : Type 0 where
  pub clear_errors : W → W
  pub get_error : W → ℕ × W
  pub error_string : ℕ → List ℕ
  pub ec_gen : W → Option ℕ × W
  pub x509_new : W → Option ℕ × W
  pub set_version : ℕ → ℕ → W → W
  pub rand_bytes : ℕ → W → Option (List ℕ) × W
  pub bin2bn : List ℕ → W → Option ℕ × W
  pub set_serial : ℕ → ℕ → W → W
  pub set_not_before : ℕ → ℤ → W → W
  pub set_not_after : ℕ → ℤ → W → W
  pub set_pubkey : ℕ → ℕ → W → W
  pub add_common_name : ℕ → List ℕ → W → W
  pub set_issuer_name : ℕ → W → W
  pub sign : ℕ → ℕ → W → Option (Unit {0}) × W
  pub bio_new : W → Option ℕ × W
  pub write_key : ℕ → ℕ → W → Option (Unit {0}) × W
  pub write_cert : ℕ → ℕ → W → Option (Unit {0}) × W
  pub bio_data : ℕ → W → List ℕ
  pub pkey_free : ℕ → W → W
  pub x509_free : ℕ → W → W
  pub bn_free : ℕ → W → W
  pub bio_free : ℕ → W → W
  pub bio_of : List ℕ → W → Option ℕ × W
  pub read_cert : ℕ → W → Option ℕ × W
  pub digest : ℕ → W → Option (List ℕ) × W

-- The prefix of a message.
pub data Fault : Type 0 where
  no_key no_x509 no_random no_serial not_signed no_bio key_not_written cert_not_written : Fault
  no_buffer not_read not_digested : Fault

-- Two strings or one on the Lua stack, or `nil` with a message.
pub data Outcome : Type 0 where
  pushed_pair : List ℕ → List ℕ → Outcome
  pushed : List ℕ → Outcome
  pushed_nil : Fault → Option (List ℕ) → Outcome
  bad_days : ℤ → Outcome
  too_large : Outcome

abbrev pub max_days : ℕ
max_days = 24855

-- `days * 86400`
abbrev pub seconds : ℤ → ℤ
seconds (pos d) = to_int (pos (d * 86400))
seconds (negsuc d) = to_int (negsuc (d * 86400 + 86399))

-- `serial_bytes[0] &= 0x7F`
abbrev pub clear_top : List ℕ → List ℕ
clear_top [] = []
clear_top (b ∷ bs) = bit_and b 0x7f ∷ bs

-- What OpenSSL reads of a string whose length it takes from the NUL.
abbrev pub c_string : List ℕ → List ℕ
c_string [] = []
c_string (b ∷ bs) = if b == 0 then [] else b ∷ c_string bs

module _ {W : Type 0} (ossl : Ossl W) where
  unfoldable pub push_ossl_err : Fault → W → Outcome × W
  push_ossl_err f w =
      let (e, w1) = ossl.get_error w in
      (pushed_nil f (if e == 0 then none else some (ossl.error_string e)), ossl.clear_errors w1)

  -- The test of a call's return: a failure frees what was made, and reports.
  unfoldable pub on_success :
      {A : Type 0} → Option A × W → (W → W) → Fault → (A → W → Outcome × W) → Outcome × W
  on_success (none, w) release f next = push_ossl_err f (release w)
  on_success (some a, w) release f next = next a w

  -- `X509_free(x509); EVP_PKEY_free(pkey);`
  abbrev pub free_cert : ℕ → ℕ → W → W
  free_cert x509 pkey w = ossl.pkey_free pkey (ossl.x509_free x509 w)

  -- `if (bio) BIO_free(bio);`
  abbrev pub free_some : Option ℕ → W → W
  free_some none w = w
  free_some (some bio) w = ossl.bio_free bio w

  abbrev pub free_all : ℕ → ℕ → ℕ → ℕ → W → W
  free_all key_bio cert_bio x509 pkey w =
      free_cert x509 pkey (ossl.bio_free cert_bio (ossl.bio_free key_bio w))

  -- The test of the two pointers to a BIO.
  unfoldable pub with_bios :
      Option ℕ → Option ℕ → ℕ → ℕ → W → (ℕ → ℕ → W → Outcome × W) → Outcome × W
  with_bios (some key_bio) (some cert_bio) x509 pkey w next = next key_bio cert_bio w
  with_bios (some key_bio) none x509 pkey w next =
      push_ossl_err no_bio (free_cert x509 pkey (free_some none (free_some (some key_bio) w)))
  with_bios none cert_bio x509 pkey w next =
      push_ossl_err no_bio (free_cert x509 pkey (free_some cert_bio (free_some none w)))

  -- From the first `BIO_new` on.
  unfoldable pub write_pem : ℕ → ℕ → W → Outcome × W
  write_pem x509 pkey w =
      let (key, w1) = ossl.bio_new w in
      let (cert, w2) = ossl.bio_new w1 in
      with_bios key cert x509 pkey w2 (λ key_bio cert_bio w3.
        let release = free_all key_bio cert_bio x509 pkey in
        on_success (ossl.write_key key_bio pkey w3) release key_not_written (λ _ w4.
          on_success (ossl.write_cert cert_bio x509 w4) release cert_not_written (λ _ w5.
            (pushed_pair (ossl.bio_data key_bio w5) (ossl.bio_data cert_bio w5), release w5))))

  -- The validity, the key and the names.
  abbrev pub fill_in : ℕ → ℕ → List ℕ → ℤ → W → W
  fill_in x509 pkey cn secs w = ossl.set_issuer_name x509 (
      ossl.add_common_name x509 (c_string cn) (
        ossl.set_pubkey x509 pkey
          (ossl.set_not_after x509 secs (ossl.set_not_before x509 (pos 0) w))))

  -- `gen_self_signed_cert` behind the test of `X509_new`.
  unfoldable pub signed_with : List ℕ → ℤ → ℕ → ℕ → W → Outcome × W
  signed_with cn secs pkey x509 w =
      let release = free_cert x509 pkey in
      on_success (ossl.rand_bytes 16 (ossl.set_version x509 2 w)) release no_random (λ bytes w3.
        on_success (ossl.bin2bn (clear_top bytes) w3) release no_serial (λ bn w4.
          let w5 = ossl.bn_free bn (ossl.set_serial bn x509 w4) in
          on_success (ossl.sign x509 pkey (fill_in x509 pkey cn secs w5)) release not_signed
            (λ _ w6. write_pem x509 pkey w6)))

  -- `gen_self_signed_cert` behind its test of the days.
  unfoldable pub generate : List ℕ → ℤ → W → Outcome × W
  generate cn secs w =
      on_success (ossl.ec_gen w) (λ v. v) no_key
        (λ pkey w1.
          on_success (ossl.x509_new w1) (ossl.pkey_free pkey) no_x509 (signed_with cn secs pkey))

  unfoldable pub gen_self_signed_cert : List ℕ → ℤ → W → Outcome × W
  gen_self_signed_cert cn days_in w =
      let w0 = ossl.clear_errors w in
      if is_outside 1 max_days days_in
      then (bad_days days_in, w0)
      else generate cn (seconds days_in) w0

  -- `cert_fingerprint_sha256` with its BIO.
  unfoldable pub fingerprint_of : ℕ → W → Outcome × W
  fingerprint_of bio w =
      let (cert, w1) = ossl.read_cert bio w in
      on_success (cert, ossl.bio_free bio w1) (λ v. v) not_read
        (λ x509 w2.
          on_success (ossl.digest x509 w2) (ossl.x509_free x509) not_digested
            (λ hash w3. (pushed hash, ossl.x509_free x509 w3)))

  unfoldable pub cert_fingerprint_sha256 : List ℕ → W → Outcome × W
  cert_fingerprint_sha256 cert_pem w =
      let w0 = ossl.clear_errors w in
      if ltb max_int (length cert_pem)
      then (too_large, w0)
      else on_success (ossl.bio_of cert_pem w0) (λ v. v) no_buffer fingerprint_of
