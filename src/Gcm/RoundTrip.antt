-- ===== src/Gcm/RoundTrip.antt =====
-- `aes_gcm_open` and `aes_gcm_seal` against each other, and against the tag.
use luadch.Common.{
  ℕ, ◌+◌, ◌-◌, ◌≤◌, false, not, List, ◌++◌, Option, some, ltb, ◌==◌, length, take, drop, ◌≡◌, refl,
  ap, ap₂, sym, ◌∙◌, arith, append_assoc, length-append, take-append, drop-append,
}
use luadch.Gcm.{
  Evp, Outcome, raised, pushed, pushed_nil, key_size, nonce_size, too_large, too_short,
  aes_key_size, aes_nonce_size, aes_tag_size, int_max, on_success, with_context, seal_with,
  aes_gcm_seal, open_with, aes_gcm_open,
}
use luadch.Gcm.Contract.{Decrypts, IsAead}
use luadch.Gcm.Runs.{passed, with_context-pushed, seal_with-pushed, open_with-pushed}

-- The sizes that pass the guards of `aes_gcm_open`.
record Sizes (key nonce blob : List ℕ) : Type 0 where
  key_fits : length key ≡ aes_key_size
  nonce_fits : length nonce ≡ aes_nonce_size
  tag_fits : aes_tag_size ≤ length blob
  text_fits : length blob - aes_tag_size ≤ int_max

module _ {W C : Type 0} (evp : Evp W C) where
  aes_gcm_open-short :
      (key nonce blob : List ℕ) (w : W)
      → Sizes key nonce blob
      → aes_gcm_open evp key nonce blob w
        ≡ with_context evp (evp.ctx_new (evp.clear_errors w)) (
            open_with evp key nonce
              (take (length blob - aes_tag_size) blob)
              (drop (length blob - aes_tag_size) blob))
  unfolding aes_gcm_open
  aes_gcm_open-short key nonce blob w z =
      let a : not (length key == aes_key_size) ≡ false = ground arith in
      let b : not (length nonce == aes_nonce_size) ≡ false = ground arith in
      let c : ltb (length blob) aes_tag_size ≡ false = ground arith in
      let d : ltb int_max (length blob - aes_tag_size) ≡ false = ground arith in
      rw (a, b, c, d, aes_gcm_open) refl

  with_context-some :
      (r : Option C × W) (ctx : C) (v : W) (next : C → W → Outcome × W)
      → r ≡ (some ctx, v)
      → with_context evp r next ≡ next ctx v
  unfolding with_context
  with_context-some r ctx v next e = ap (λ r. with_context evp r next) e

  open_with-Decrypts :
      (key nonce ct t pt fin : List ℕ) (ctx : C) (w : W)
      → Decrypts evp key nonce ct t pt fin ctx w
      → (w' : W) × (open_with evp key nonce ct t ctx w ≡ (pushed (pt ++ fin), w'))
  unfolding open_with on_success
  open_with-Decrypts key nonce ct t pt fin ctx w d = (
    evp.ctx_free ctx d.w4,
    rw (d.init, open_with)
        (rw (d.update, open_with) (rw (d.tagged, open_with) (rw (d.final, open_with) refl))),
  )

-- When `aes_gcm_open` pushes a text, the key has 32 bytes, the nonce 12 and the blob 16 at
-- least, and the text is what OpenSSL wrote in a decryption whose every call succeeded, with
-- the last 16 bytes of the blob as the tag that its final call accepted.
pub aes_gcm_open-pushed :
    {W C : Type 0} (evp : Evp W C) (key nonce blob text : List ℕ) (w w' : W)
    → aes_gcm_open evp key nonce blob w ≡ (pushed text, w')
    → (length key ≡ aes_key_size)
      × (length nonce ≡ aes_nonce_size)
      × (aes_tag_size ≤ length blob)
      × (pt : List ℕ) × (fin : List ℕ) × (ctx : C) × (v : W) × Decrypts evp key nonce
          (take (length blob - aes_tag_size) blob)
          (drop (length blob - aes_tag_size) blob)
          pt
          fin
          ctx
          v
      × (pt ++ fin ≡ text)
unfolding aes_gcm_open
aes_gcm_open-pushed evp key nonce blob text w w' e =
    let (a, e1) = passed (not (length key == aes_key_size)) (raised key_size) _ w' _ text refl e in
    let (b, e2) =
      passed (not (length nonce == aes_nonce_size)) (raised nonce_size) _ w' _ text refl e1 in
    let (c, e3) =
      passed (ltb (length blob) aes_tag_size) (pushed_nil too_short) _ w' _ text refl e2 in
    let (d, e4) =
      passed (ltb int_max (length blob - aes_tag_size)) (pushed_nil too_large) _ w' _ text refl
        e3 in
    let (ctx, v, _, e5) =
      with_context-pushed evp (evp.ctx_new (evp.clear_errors w))
        (open_with evp key nonce (take (length blob - aes_tag_size) blob)
          (drop (length blob - aes_tag_size) blob))
        text w' e4 in
    let (pt, fin, run, same) = open_with-pushed evp key nonce _ _ ctx v text w' e5 in
    (ground arith, ground arith, ground arith, pt, fin, ctx, v, run, same)

-- For an OpenSSL that decrypts what it encrypted, with tags of the size asked for and
-- ciphertexts as long as their texts: when `aes_gcm_seal` pushes a blob, the blob is 16 bytes
-- longer than the text, and `aes_gcm_open` with the same key and nonce pushes the text again,
-- in any state in which it is given a context.
pub aes_gcm_open-aes_gcm_seal :
    {W C : Type 0} (evp : Evp W C) (key nonce pt blob : List ℕ) (w w' u v : W) (ctx : C)
    → IsAead evp
    → aes_gcm_seal evp key nonce pt w ≡ (pushed blob, w')
    → evp.ctx_new (evp.clear_errors u) ≡ (some ctx, v)
    → (u' : W) × (aes_gcm_open evp key nonce blob u ≡ (pushed pt, u'))
      × (length blob ≡ length pt + aes_tag_size)
unfolding aes_gcm_seal
aes_gcm_open-aes_gcm_seal evp key nonce pt blob w w' u v ctx laws e fresh =
    let (a, e1) = passed (not (length key == aes_key_size)) (raised key_size) _ w' _ blob refl e in
    let (b, e2) =
      passed (not (length nonce == aes_nonce_size)) (raised nonce_size) _ w' _ blob refl e1 in
    let (c, e3) =
      passed (ltb (int_max - aes_tag_size) (length pt)) (raised too_large) _ w' _ blob refl e2 in
    let (ctx', v', _, e4) =
      with_context-pushed evp (evp.ctx_new (evp.clear_errors w)) (seal_with evp key nonce pt) blob
        w' e3 in
    let (ct, fin, t, run, whole) = seal_with-pushed evp key nonce pt ctx' v' blob w' e4 in
    let (first, last, back, same) = laws.decrypts key nonce pt ct fin t ctx v run in
    let tag = laws.tag_size run.ctx aes_tag_size run.w3 run.w4 t run.tagged in
    let sum = laws.same_length key nonce pt ct fin t run in
    let split : blob ≡ (ct ++ fin) ++ t = sym (append_assoc ct fin t ∙ whole) in
    let size : length blob ≡ length pt + aes_tag_size =
      ap length split ∙ omega (arith, length-append (ct ++ fin) t, length-append ct fin) in
    let n = length blob - aes_tag_size in
    let at_tag : n ≡ length (ct ++ fin) = omega (arith, length-append ct fin) in
    let front : take n blob ≡ ct ++ fin = ap (take n) split ∙ take-append (ct ++ fin) t n at_tag in
    let behind : drop n blob ≡ t = ap (drop n) split ∙ drop-append (ct ++ fin) t n at_tag in
    let z : Sizes key nonce blob = record {
      key_fits = ground arith;
      nonce_fits = ground arith;
      tag_fits = omega arith;
      text_fits = ground arith;
    } in
    let (u', opened) = open_with-Decrypts evp key nonce (ct ++ fin) t first last ctx v back in
    (
      u',
      aes_gcm_open-short evp key nonce blob u z
          ∙ with_context-some evp _ ctx v _ fresh
          ∙ ap₂ (λ x y. open_with evp key nonce x y ctx v) front behind
          ∙ opened
          ∙ ap (λ s. (pushed s, u')) same,
      size,
    )
