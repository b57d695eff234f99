-- ===== src/Gcm/Contexts.antt =====
-- Every path of `aes_gcm_seal` and `aes_gcm_open` frees the context that it made.
use luadch.Common.{
  ℕ, suc, ◌-◌, Bool, true, false, not, List, Option, none, some, ltb, ◌==◌, if◌then◌else◌, length,
  take, drop, ◌≡◌, ◌∙◌,
}
use luadch.Gcm.{
  Evp, Outcome, raised, pushed_nil, key_size, nonce_size, too_large, too_short, aes_key_size,
  aes_nonce_size, aes_tag_size, int_max, on_success, with_context, seal_with, aes_gcm_seal,
  open_with, aes_gcm_open,
}

module _ {W C : Type 0} (evp : Evp W C) (live : W → ℕ) where
  -- `live` counts the contexts: one more for a `new` that gives one, one less for a `free`, and as many
  -- for any other call.
  pub record IsCount : Type 0 where
    pub clear_errors : (w : W) → live (evp.clear_errors w) ≡ live w
    pub ctx_new :
        (w : W)
        → live (evp.ctx_new w).1 ≡ elim (evp.ctx_new w).0 [ none ↦ live w | some c ↦ suc (live w) ]
    pub ctx_free : (c : C) (w : W) (n : ℕ) → live w ≡ suc n → live (evp.ctx_free c w) ≡ n
    pub encrypt_init : (c : C) (k m : List ℕ) (w : W) → live (evp.encrypt_init c k m w).1 ≡ live w
    pub encrypt_update : (c : C) (s : List ℕ) (w : W) → live (evp.encrypt_update c s w).1 ≡ live w
    pub encrypt_final : (c : C) (w : W) → live (evp.encrypt_final c w).1 ≡ live w
    pub get_tag : (c : C) (n : ℕ) (w : W) → live (evp.get_tag c n w).1 ≡ live w
    pub decrypt_init : (c : C) (k m : List ℕ) (w : W) → live (evp.decrypt_init c k m w).1 ≡ live w
    pub decrypt_update : (c : C) (s : List ℕ) (w : W) → live (evp.decrypt_update c s w).1 ≡ live w
    pub set_tag : (c : C) (s : List ℕ) (w : W) → live (evp.set_tag c s w).1 ≡ live w
    pub decrypt_final : (c : C) (w : W) → live (evp.decrypt_final c w).1 ≡ live w

  module _ (laws : IsCount) (n : ℕ) where
    on_success-live :
        {A : Type 0} (r : Option A × W) (ctx : C) (out : Outcome) (next : A → W → Outcome × W)
        → live r.1 ≡ suc n
        → ((a : A) (w : W) → live w ≡ suc n → live (next a w).1 ≡ n)
        → live (on_success evp r ctx out next).1 ≡ n
    unfolding on_success
    on_success-live (none, w) ctx out next h f = laws.clear_errors _ ∙ laws.ctx_free ctx w n h
    on_success-live (some a, w) ctx out next h f = f a w h

    with_context-live :
        (r : Option C × W) (next : C → W → Outcome × W)
        → live r.1 ≡ elim r.0 [ none ↦ n | some c ↦ suc n ]
        → ((c : C) (w : W) → live w ≡ suc n → live (next c w).1 ≡ n)
        → live (with_context evp r next).1 ≡ n
    unfolding with_context
    with_context-live (none, w) next h f = h
    with_context-live (some c, w) next h f = f c w h

    seal_with-live :
        (key nonce pt : List ℕ) (ctx : C) (w : W)
        → live w ≡ suc n
        → live (seal_with evp key nonce pt ctx w).1 ≡ n
    unfolding seal_with
    seal_with-live key nonce pt ctx w h =
        on_success-live _ ctx _ _ (laws.encrypt_init ctx key nonce w ∙ h) (λ _ w1 h1.
          on_success-live _ ctx _ _ (laws.encrypt_update ctx pt w1 ∙ h1) (λ ct w2 h2.
            on_success-live _ ctx _ _ (laws.encrypt_final ctx w2 ∙ h2) (λ fin w3 h3.
              on_success-live _ ctx _ _ (laws.get_tag ctx aes_tag_size w3 ∙ h3)
                (λ t w4 h4. laws.ctx_free ctx w4 n h4))))

    open_with-live :
        (key nonce ct t : List ℕ) (ctx : C) (w : W)
        → live w ≡ suc n
        → live (open_with evp key nonce ct t ctx w).1 ≡ n
    unfolding open_with
    open_with-live key nonce ct t ctx w h =
        on_success-live _ ctx _ _ (laws.decrypt_init ctx key nonce w ∙ h) (λ _ w1 h1.
          on_success-live _ ctx _ _ (laws.decrypt_update ctx ct w1 ∙ h1) (λ pt w2 h2.
            on_success-live _ ctx _ _ (laws.set_tag ctx t w2 ∙ h2) (λ _ w3 h3.
              on_success-live _ ctx _ _ (laws.decrypt_final ctx w3 ∙ h3)
                (λ fin w4 h4. laws.ctx_free ctx w4 n h4))))

  choose-live :
      (b : Bool) (r r' : Outcome × W) (n : ℕ)
      → live r.1 ≡ n
      → live r'.1 ≡ n
      → live (if b then r else r').1 ≡ n
  choose-live true r r' n h h' = h
  choose-live false r r' n h h' = h'

  with_new-live :
      (laws : IsCount) (w : W) (next : C → W → Outcome × W)
      → ((c : C) (w' : W)
          → live w' ≡ suc (live (evp.clear_errors w))
          → live (next c w').1 ≡ live (evp.clear_errors w))
      → live (with_context evp (evp.ctx_new (evp.clear_errors w)) next).1 ≡ live w
  with_new-live laws w next f =
      let w0 = evp.clear_errors w in
      with_context-live laws (live w0) (evp.ctx_new w0) next (laws.ctx_new w0) f
      ∙ laws.clear_errors w

  seal-live :
      (key nonce pt : List ℕ) (w : W) → IsCount → live (aes_gcm_seal evp key nonce pt w).1 ≡ live w
  unfolding aes_gcm_seal
  seal-live key nonce pt w laws =
      let w0 = evp.clear_errors w in
      let same = laws.clear_errors w in
      let large = ltb (int_max - aes_tag_size) (length pt) in
      let bad_nonce = not (length nonce == aes_nonce_size) in
      let sealed = with_context evp (evp.ctx_new w0) (seal_with evp key nonce pt) in
      let fits : Outcome × W = if large then (raised too_large, w0) else sealed in
      let keyed : Outcome × W = if bad_nonce then (raised nonce_size, w0) else fits in
      let done =
        with_new-live laws w (seal_with evp key nonce pt)
          (seal_with-live laws (live w0) key nonce pt) in
      choose-live (not (length key == aes_key_size)) (raised key_size, w0) keyed (live w) same
        (choose-live bad_nonce (raised nonce_size, w0) fits (live w) same
          (choose-live large (raised too_large, w0) sealed (live w) same done))

  open-live :
      (key nonce blob : List ℕ) (w : W)
      → IsCount
      → live (aes_gcm_open evp key nonce blob w).1 ≡ live w
  unfolding aes_gcm_open
  open-live key nonce blob w laws =
      let w0 = evp.clear_errors w in
      let same = laws.clear_errors w in
      let ct_len = length blob - aes_tag_size in
      let next = open_with evp key nonce (take ct_len blob) (drop ct_len blob) in
      let bad_nonce = not (length nonce == aes_nonce_size) in
      let opened = with_context evp (evp.ctx_new w0) next in
      let fits : Outcome × W = if ltb int_max ct_len then (pushed_nil too_large, w0) else opened in
      let tagged : Outcome × W =
        if ltb (length blob) aes_tag_size then (pushed_nil too_short, w0) else fits in
      let keyed : Outcome × W = if bad_nonce then (raised nonce_size, w0) else tagged in
      let done =
        with_new-live laws w next
          (open_with-live laws (live w0) key nonce (take ct_len blob) (drop ct_len blob)) in
      choose-live (not (length key == aes_key_size)) (raised key_size, w0) keyed (live w) same
        (choose-live bad_nonce (raised nonce_size, w0) tagged (live w) same
          (choose-live (ltb (length blob) aes_tag_size) (pushed_nil too_short, w0) fits (live w)
            same
            (choose-live (ltb int_max ct_len) (pushed_nil too_large, w0) opened (live w) same
              done)))

-- For a count of OpenSSL's contexts that only `new` and `free` change, `aes_gcm_seal` and
-- `aes_gcm_open` leave as many contexts as they found, on every path, errors included.
pub aes_gcm-live :
    {W C : Type 0} (evp : Evp W C) (live : W → ℕ) (key nonce text : List ℕ) (w : W)
    → IsCount evp live
    → (live (aes_gcm_seal evp key nonce text w).1 ≡ live w)
      × (live (aes_gcm_open evp key nonce text w).1 ≡ live w)
aes_gcm-live evp live key nonce text w laws =
    (seal-live evp live key nonce text w laws, open-live evp live key nonce text w laws)
