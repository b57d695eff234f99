-- ===== src/Cert/Ledger.antt =====
-- The objects that OpenSSL has made and not yet freed, and what the calls do to them.
use luadch.Common.{
  ℕ, Bool, true, false, List, [], ◌∷◌, Option, none, some, ◌==◌, if◌then◌else◌, ◌≡◌, refl, ap,
  arith, Bool-cases, inl, inr, ◌||◌,
}
use luadch.Common.Ints.{ℤ}
use luadch.Cert.{Ossl}

pub data Object : Type 0 where
  pkey x509 bn bio : ℕ → Object

abbrev pub same_object : Object → Object → Bool
same_object (pkey a) (pkey b) = a == b
same_object (x509 a) (x509 b) = a == b
same_object (bn a) (bn b) = a == b
same_object (bio a) (bio b) = a == b
same_object _ _ = false

abbrev pub is_live : Object → List Object → Bool
is_live o [] = false
is_live o (p ∷ ps) = same_object o p || is_live o ps

abbrev pub remove : Object → List Object → List Object
remove o [] = []
remove o (p ∷ ps) = if same_object o p then ps else p ∷ remove o ps

-- A call that makes an object may give none.
abbrev pub grown : (ℕ → Object) → Option ℕ → List Object → List Object
grown make none l = l
grown make (some a) l = make a ∷ l

module _ {W : Type 0} (ossl : Ossl W) (live : W → List Object) where
  -- A `free` of an object that is live, of the kind that it is for, takes it away.
  abbrev pub Frees : (ℕ → Object) → (ℕ → W → W) → Type 0
  Frees make free =
      (a : ℕ) (w : W)
      → is_live (make a) (live w) ≡ true
      → live (free a w) ≡ remove (make a) (live w)

  -- `live` lists the objects: the calls that make one add it, and no other call changes them.
  pub record IsLedger : Type 0 where
    pub clear_errors : (w : W) → live (ossl.clear_errors w) ≡ live w
    pub get_error : (w : W) → live (ossl.get_error w).1 ≡ live w
    pub ec_gen : (w : W) → live (ossl.ec_gen w).1 ≡ grown pkey (ossl.ec_gen w).0 (live w)
    pub x509_new : (w : W) → live (ossl.x509_new w).1 ≡ grown x509 (ossl.x509_new w).0 (live w)
    pub bin2bn :
        (s : List ℕ) (w : W) → live (ossl.bin2bn s w).1 ≡ grown bn (ossl.bin2bn s w).0 (live w)
    pub bio_new : (w : W) → live (ossl.bio_new w).1 ≡ grown bio (ossl.bio_new w).0 (live w)
    pub bio_of :
        (s : List ℕ) (w : W) → live (ossl.bio_of s w).1 ≡ grown bio (ossl.bio_of s w).0 (live w)
    pub read_cert :
        (b : ℕ) (w : W) → live (ossl.read_cert b w).1 ≡ grown x509 (ossl.read_cert b w).0 (live w)
    pub pkey_free : Frees pkey ossl.pkey_free
    pub x509_free : Frees x509 ossl.x509_free
    pub bn_free : Frees bn ossl.bn_free
    pub bio_free : Frees bio ossl.bio_free
    pub set_version : (a n : ℕ) (w : W) → live (ossl.set_version a n w) ≡ live w
    pub rand_bytes : (n : ℕ) (w : W) → live (ossl.rand_bytes n w).1 ≡ live w
    pub set_serial : (a b : ℕ) (w : W) → live (ossl.set_serial a b w) ≡ live w
    pub set_not_before : (a : ℕ) (n : ℤ) (w : W) → live (ossl.set_not_before a n w) ≡ live w
    pub set_not_after : (a : ℕ) (n : ℤ) (w : W) → live (ossl.set_not_after a n w) ≡ live w
    pub set_pubkey : (a b : ℕ) (w : W) → live (ossl.set_pubkey a b w) ≡ live w
    pub add_common_name : (a : ℕ) (s : List ℕ) (w : W) → live (ossl.add_common_name a s w) ≡ live w
    pub set_issuer_name : (a : ℕ) (w : W) → live (ossl.set_issuer_name a w) ≡ live w
    pub sign : (a b : ℕ) (w : W) → live (ossl.sign a b w).1 ≡ live w
    pub write_key : (a b : ℕ) (w : W) → live (ossl.write_key a b w).1 ≡ live w
    pub write_cert : (a b : ℕ) (w : W) → live (ossl.write_cert a b w).1 ≡ live w
    pub digest : (a : ℕ) (w : W) → live (ossl.digest a w).1 ≡ live w

same_object_refl : (o : Object) → same_object o o ≡ true
same_object_refl (pkey a) = ground arith
same_object_refl (x509 a) = ground arith
same_object_refl (bn a) = ground arith
same_object_refl (bio a) = ground arith

pub is_live_first : (o : Object) (l : List Object) → is_live o (o ∷ l) ≡ true
is_live_first o l = rw (same_object_refl o) refl

pub remove_first : (o : Object) (l : List Object) → remove o (o ∷ l) ≡ l
remove_first o l = rw (same_object_refl o) refl

-- The second of two BIOs is removed, whether or not the first has its address.
pub is_live_second : (a b : ℕ) (l : List Object) → is_live (bio a) (bio b ∷ bio a ∷ l) ≡ true
is_live_second a b l = elim (Bool-cases (a == b)) [
  | inl e ↦ rw e refl
  | inr e ↦ rw e (is_live_first (bio a) l)
]

pub remove_second : (a b : ℕ) (l : List Object) → remove (bio a) (bio b ∷ bio a ∷ l) ≡ bio b ∷ l
remove_second a b l = elim (Bool-cases (a == b)) [
  | inl e ↦ let same : a ≡ b = ground arith in rw e (ap (λ n. bio n ∷ l) same)
  | inr e ↦ rw e (ap (◌∷◌ (bio b)) (remove_first (bio a) l))
]
