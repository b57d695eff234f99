-- ===== src/Gcm/Contract.antt =====
-- What OpenSSL's manual says of AES-256-GCM, as runs of its calls that all succeed.
use luadch.Common.{ℕ, ◌+◌, List, ◌++◌, some, length, ◌≡◌}
use luadch.Gcm.{Evp, aes_tag_size}

module _ {W C : Type 0} (evp : Evp W C) where
  -- The calls of an encryption give `ct`, `fin` and the tag `t`.
  pub record Encrypts (key nonce pt ct fin t : List ℕ) : Type 0 where
    pub ctx : C
    pub w0 : W
    pub w1 : W
    pub w2 : W
    pub w3 : W
    pub w4 : W
    pub init : evp.encrypt_init ctx key nonce w0 ≡ (some tt, w1)
    pub update : evp.encrypt_update ctx pt w1 ≡ (some ct, w2)
    pub final : evp.encrypt_final ctx w2 ≡ (some fin, w3)
    pub tagged : evp.get_tag ctx aes_tag_size w3 ≡ (some t, w4)

  -- The calls of a decryption of `ct` under the tag `t`, in the context `ctx`, accept the tag and give
  -- `pt` and `fin`.
  pub record Decrypts (key nonce ct t pt fin : List ℕ) (ctx : C) (w0 : W) : Type 0 where
    pub w1 : W
    pub w2 : W
    pub w3 : W
    pub w4 : W
    pub init : evp.decrypt_init ctx key nonce w0 ≡ (some tt, w1)
    pub update : evp.decrypt_update ctx ct w1 ≡ (some pt, w2)
    pub tagged : evp.set_tag ctx t w2 ≡ (some tt, w3)
    pub final : evp.decrypt_final ctx w3 ≡ (some fin, w4)

  -- A tag has the size asked for, a ciphertext is as long as its plaintext, and what was encrypted is
  -- decrypted in every context by the same key, nonce and tag.
  pub record IsAead : Type 0 where
    pub tag_size :
        (ctx : C) (n : ℕ) (w w' : W) (t : List ℕ)
        → evp.get_tag ctx n w ≡ (some t, w')
        → length t ≡ n
    pub same_length :
        (key nonce pt ct fin t : List ℕ)
        → Encrypts key nonce pt ct fin t
        → length ct + length fin ≡ length pt
    pub decrypts :
        (key nonce pt ct fin t : List ℕ) (ctx : C) (w : W)
        → Encrypts key nonce pt ct fin t
        → (first : List ℕ) × (last : List ℕ) × Decrypts key nonce (ct ++ fin) t first last ctx w
          × (first ++ last ≡ pt)
