-- ===== src/Gcm/Tests.antt =====
-- A library whose calls all succeed, that counts its contexts, and the theorem at a concrete input.
use luadch.Common.{
  Option, ◌++◌, ◌≤◌, length, take, drop, ap, sym, ◌∙◌, some-injective, length-replicate, append-nil,
  ℕ, ◌+◌, ◌-◌, List, [], ◌∷◌, some, replicate, ◌≡◌, refl, arith,
}
use luadch.Gcm.{
  Evp, pushed, raised, key_size, aes_gcm_seal, aes_gcm_open, seal_with, open_with, on_success,
  with_context,
}
use luadch.Gcm.Contexts.{IsCount, aes_gcm-live}
use luadch.Gcm.Contract.{Decrypts, IsAead}
use luadch.Gcm.RoundTrip.{aes_gcm_open-aes_gcm_seal, aes_gcm_open-pushed}

-- Ciphertexts are the plaintexts, and every tag is 16 zeros.
abbrev plain : Evp ℕ ℕ
plain = record {
  clear_errors = λ w. w;
  ctx_new = λ w. (some 0, w + 1);
  ctx_free = λ c w. w - 1;
  encrypt_init = λ c k m w. (some tt, w);
  encrypt_update = λ c s w. (some s, w);
  encrypt_final = λ c w. (some [], w);
  get_tag = λ c n w. (some (replicate n 0), w);
  decrypt_init = λ c k m w. (some tt, w);
  decrypt_update = λ c s w. (some s, w);
  set_tag = λ c s w. (some tt, w);
  decrypt_final = λ c w. (some [], w);
}

plain-IsCount : IsCount plain (λ w. w)
plain-IsCount = record {
  clear_errors = λ w. refl;
  ctx_new = λ w. omega arith;
  ctx_free = λ c w n h. omega arith;
  encrypt_init = λ c k m w. refl;
  encrypt_update = λ c s w. refl;
  encrypt_final = λ c w. refl;
  get_tag = λ c n w. refl;
  decrypt_init = λ c k m w. refl;
  decrypt_update = λ c s w. refl;
  set_tag = λ c s w. refl;
  decrypt_final = λ c w. refl;
}

abbrev key : List ℕ
key = replicate 32 1

abbrev nonce : List ℕ
nonce = replicate 12 2

sealed_and_opened :
    (aes_gcm_seal plain key nonce (7 ∷ []) 0 ≡ (pushed (7 ∷ replicate 16 0), 0))
    × (aes_gcm_open plain key nonce (7 ∷ replicate 16 0) 0 ≡ (pushed (7 ∷ []), 0))
    × (aes_gcm_open plain nonce nonce (7 ∷ []) 0 ≡ (raised key_size, 0))
unfolding aes_gcm_seal aes_gcm_open seal_with open_with on_success with_context
sealed_and_opened = (refl, refl, refl)

aes_gcm-live_example :
    ((aes_gcm_seal plain key nonce (7 ∷ []) 3).1 ≡ 3)
    × ((aes_gcm_open plain key nonce (7 ∷ []) 3).1 ≡ 3)
aes_gcm-live_example = aes_gcm-live plain (λ w. w) key nonce (7 ∷ []) 3 plain-IsCount

abbrev pair : Option (List ℕ) → ℕ → Option (List ℕ) × ℕ
pair r w = (r, w)

text_of_some : (a b : List ℕ) (w w' : ℕ) → pair (some a) w ≡ pair (some b) w' → a ≡ b
text_of_some a b w w' e = some-injective a b (ap (λ p. p.0) e)

plain-IsAead : IsAead plain
plain-IsAead = record {
  tag_size = λ c n w w' t e.
      ap length (sym (text_of_some (replicate n 0) t w w' e)) ∙ length-replicate n 0;
  same_length = λ k m pt ct fin t run.
      let a = text_of_some pt ct run.w1 run.w2 run.update in
      let b = text_of_some [] fin run.w2 run.w3 run.final in
      omega (arith, ap length a, ap length b);
  decrypts = λ k m pt ct fin t ctx w run.
      let a = text_of_some pt ct run.w1 run.w2 run.update in
      let b = text_of_some [] fin run.w2 run.w3 run.final in
      (
        ct ++ fin,
        [],
        record {
          w1 = w;
          w2 = w;
          w3 = w;
          w4 = w;
          init = refl;
          update = refl;
          tagged = refl;
          final = refl;
        },
        append-nil (ct ++ fin) ∙ ap (◌++◌ ct) (sym b) ∙ append-nil ct ∙ sym a,
      );
}

abbrev seven : List ℕ
seven = 7 ∷ []

abbrev blob : List ℕ
blob = 7 ∷ replicate 16 0

aes_gcm_open-aes_gcm_seal_example :
    (u' : ℕ) × (aes_gcm_open plain key nonce blob 5 ≡ (pushed (7 ∷ []), u'))
    × (length blob ≡ length seven + 16)
aes_gcm_open-aes_gcm_seal_example =
    aes_gcm_open-aes_gcm_seal plain key nonce (7 ∷ []) blob 0 0 5 6 0 plain-IsAead
      sealed_and_opened.0 refl

aes_gcm_open-pushed_example :
    (length key ≡ 32)
    × (length nonce ≡ 12)
    × (16 ≤ length blob)
    × (pt : List ℕ) × (fin : List ℕ) × (ctx : ℕ) × (v : ℕ) × Decrypts plain key nonce
        (take (length blob - 16) blob)
        (drop (length blob - 16) blob)
        pt
        fin
        ctx
        v
    × (pt ++ fin ≡ 7 ∷ [])
aes_gcm_open-pushed_example =
    aes_gcm_open-pushed plain key nonce blob (7 ∷ []) 0 0 sealed_and_opened.1
