-- ===== src/Gcm.antt =====
-- `aes_gcm_seal` and `aes_gcm_open` of adclib/adclib.cpp. OpenSSL is a parameter: a record of its
-- calls on what it keeps, with contexts as handles. A call that does not return 1 gives `none`. A
-- failure of Lua to allocate its buffer is not modelled.
pub mod Contexts
pub mod Contract
pub mod Runs
pub mod RoundTrip
mod Tests
use luadch.Common.{
  ℕ, ◌-◌, ◌^◌, Bool, true, false, not, ◌||◌, List, [], ◌++◌, Option, none, some, ltb, ◌==◌,
  if◌then◌else◌, length, take, drop,
}

-- `EVP_CIPHER_CTX_new` and so on; an `Update` and a `Final` give what they wrote.
pub record Evp (W C : Type 0) : Type 0 where
  pub clear_errors : W → W
  pub ctx_new : W → Option C × W
  pub ctx_free : C → W → W
  pub encrypt_init : C → List ℕ → List ℕ → W → Option (Unit {0}) × W
  pub encrypt_update : C → List ℕ → W → Option (List ℕ) × W
  pub encrypt_final : C → W → Option (List ℕ) × W
  pub get_tag : C → ℕ → W → Option (List ℕ) × W
  pub decrypt_init : C → List ℕ → List ℕ → W → Option (Unit {0}) × W
  pub decrypt_update : C → List ℕ → W → Option (List ℕ) × W
  pub set_tag : C → List ℕ → W → Option (Unit {0}) × W
  pub decrypt_final : C → W → Option (List ℕ) × W

-- What an error is about.
pub data Fault : Type 0 where
  key_size nonce_size too_large too_short no_context init update final tag : Fault

-- A string on the Lua stack, a Lua error, or `nil` with a message.
pub data Outcome : Type 0 where
  pushed : List ℕ → Outcome
  raised : Fault → Outcome
  pushed_nil : Fault → Outcome

abbrev pub aes_key_size : ℕ
aes_key_size = 32

abbrev pub aes_nonce_size : ℕ
aes_nonce_size = 12

abbrev pub aes_tag_size : ℕ
aes_tag_size = 16

abbrev pub int_max : ℕ
int_max = 2 ^ 31 - 1

module _ {W C : Type 0} (evp : Evp W C) where
  -- The test of a call's return: a failure frees the context, clears the error queue and gives `out`.
  unfoldable pub on_success :
      {A : Type 0} → Option A × W → C → Outcome → (A → W → Outcome × W) → Outcome × W
  on_success (none, w) ctx out next = (out, evp.clear_errors (evp.ctx_free ctx w))
  on_success (some a, w) ctx out next = next a w

  -- The test of `EVP_CIPHER_CTX_new`.
  unfoldable pub with_context : Option C × W → (C → W → Outcome × W) → Outcome × W
  with_context (none, w) next = (raised no_context, w)
  with_context (some ctx, w) next = next ctx w

  -- `aes_gcm_seal` with a context.
  unfoldable pub seal_with : List ℕ → List ℕ → List ℕ → C → W → Outcome × W
  seal_with key nonce pt ctx w =
      on_success (evp.encrypt_init ctx key nonce w) ctx (raised init) (λ _ w1.
        on_success (evp.encrypt_update ctx pt w1) ctx (raised update) (λ ct w2.
          on_success (evp.encrypt_final ctx w2) ctx (raised final) (λ fin w3.
            on_success (evp.get_tag ctx aes_tag_size w3) ctx (raised tag)
              (λ t w4. (pushed (ct ++ (fin ++ t)), evp.ctx_free ctx w4)))))

  unfoldable pub aes_gcm_seal : List ℕ → List ℕ → List ℕ → W → Outcome × W
  aes_gcm_seal key nonce pt w =
      let w0 = evp.clear_errors w in
      if not (length key == aes_key_size)
      then (raised key_size, w0)
      else if not (length nonce == aes_nonce_size)
      then (raised nonce_size, w0)
      else if ltb (int_max - aes_tag_size) (length pt)
      then (raised too_large, w0)
      else with_context (evp.ctx_new w0) (seal_with key nonce pt)

  -- `aes_gcm_open` with a context, on the ciphertext and the tag.
  unfoldable pub open_with : List ℕ → List ℕ → List ℕ → List ℕ → C → W → Outcome × W
  open_with key nonce ct t ctx w =
      on_success (evp.decrypt_init ctx key nonce w) ctx (raised init) (λ _ w1.
        on_success (evp.decrypt_update ctx ct w1) ctx (pushed_nil update) (λ pt w2.
          on_success (evp.set_tag ctx t w2) ctx (pushed_nil tag) (λ _ w3.
            on_success (evp.decrypt_final ctx w3) ctx (pushed_nil final)
              (λ fin w4. (pushed (pt ++ fin), evp.ctx_free ctx w4)))))

  unfoldable pub aes_gcm_open : List ℕ → List ℕ → List ℕ → W → Outcome × W
  aes_gcm_open key nonce blob w =
      let w0 = evp.clear_errors w in
      let ct_len = length blob - aes_tag_size in
      if not (length key == aes_key_size)
      then (raised key_size, w0)
      else if not (length nonce == aes_nonce_size)
      then (raised nonce_size, w0)
      else if ltb (length blob) aes_tag_size
      then (pushed_nil too_short, w0)
      else if ltb int_max ct_len
      then (pushed_nil too_large, w0)
      else with_context (evp.ctx_new w0) (open_with key nonce (take ct_len blob) (drop ct_len blob))
