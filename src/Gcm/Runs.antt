-- ===== src/Gcm/Runs.antt =====
-- A text is pushed only behind calls that all succeeded.
use luadch.Common.{
  ℕ, Bool, true, false, List, ◌++◌, Option, none, some, if◌then◌else◌, ◌≡◌, refl, ap, sym, ◌∙◌,
}
use luadch.Gcm.{
  Evp, Outcome, raised, pushed, pushed_nil, no_context, init, update, final, tag, on_success,
  with_context, seal_with, open_with,
}
use luadch.Gcm.Contract.{Encrypts, Decrypts}

abbrev is_pushed : Outcome → Bool
is_pushed (pushed s) = true
is_pushed _ = false

not_pushed :
    {W : Type 0} (r : Outcome × W) (w' : W) (s : List ℕ)
    → is_pushed r.0 ≡ false
    → r ≡ (pushed s, w')
    → ⊥
not_pushed r w' s n e = let t : is_pushed r.0 ≡ true = ap (λ p. is_pushed p.0) e in cc

-- A guard that leaves with an error was passed.
pub passed :
    {W : Type 0} (b : Bool) (out : Outcome) (w w' : W) (r : Outcome × W) (s : List ℕ)
    → is_pushed out ≡ false
    → (if b then (out, w) else r) ≡ (pushed s, w')
    → (b ≡ false) × (r ≡ (pushed s, w'))
passed true out w w' r s n e = absurd (not_pushed (out, w) w' s n e)
passed false out w w' r s n e = (refl, e)

module _ {W C : Type 0} (evp : Evp W C) where
  on_success-pushed :
      {A : Type 0} (r : Option A × W) (ctx : C) (out : Outcome) (next : A → W → Outcome × W)
      (s : List ℕ) (w' : W)
      → is_pushed out ≡ false
      → on_success evp r ctx out next ≡ (pushed s, w')
      → (a : A) × (w : W) × (r ≡ (some a, w)) × (next a w ≡ (pushed s, w'))
  unfolding on_success
  on_success-pushed (none, w) ctx out next s w' n e = absurd (not_pushed (out, _) w' s n e)
  on_success-pushed (some a, w) ctx out next s w' n e = (a, w, refl, e)

  pub with_context-pushed :
      (r : Option C × W) (next : C → W → Outcome × W) (s : List ℕ) (w' : W)
      → with_context evp r next ≡ (pushed s, w')
      → (ctx : C) × (w : W) × (r ≡ (some ctx, w)) × (next ctx w ≡ (pushed s, w'))
  unfolding with_context
  with_context-pushed (none, w) next s w' e = absurd (not_pushed (raised no_context, w) w' s refl e)
  with_context-pushed (some ctx, w) next s w' e = (ctx, w, refl, e)

  pushed_text :
      (r : Outcome × W) (a b : List ℕ) (w' : W) → r.0 ≡ pushed a → r ≡ (pushed b, w') → a ≡ b
  pushed_text r a b w' f e =
      let same : pushed a ≡ pushed b = sym f ∙ ap (λ p. p.0) e in
      ap (λ o. elim o [ pushed s ↦ s | _ ↦ a ]) same

  pub seal_with-pushed :
      (key nonce pt : List ℕ) (ctx : C) (w : W) (blob : List ℕ) (w' : W)
      → seal_with evp key nonce pt ctx w ≡ (pushed blob, w')
      → (ct : List ℕ) × (fin : List ℕ) × (t : List ℕ) × Encrypts evp key nonce pt ct fin t
        × (ct ++ (fin ++ t) ≡ blob)
  unfolding seal_with
  seal_with-pushed key nonce pt ctx w blob w' e =
      let (_, w1, e1, f1) = on_success-pushed _ ctx (raised init) _ blob w' refl e in
      let (ct, w2, e2, f2) = on_success-pushed _ ctx (raised update) _ blob w' refl f1 in
      let (fin, w3, e3, f3) = on_success-pushed _ ctx (raised final) _ blob w' refl f2 in
      let (t, w4, e4, f4) = on_success-pushed _ ctx (raised tag) _ blob w' refl f3 in
      (
        ct,
        fin,
        t,
        record {
          ctx = ctx;
          w0 = w;
          w1 = w1;
          w2 = w2;
          w3 = w3;
          w4 = w4;
          init = e1;
          update = e2;
          final = e3;
          tagged = e4;
        },
        pushed_text _ _ blob w' refl f4,
      )

  pub open_with-pushed :
      (key nonce ct t : List ℕ) (ctx : C) (w : W) (text : List ℕ) (w' : W)
      → open_with evp key nonce ct t ctx w ≡ (pushed text, w')
      → (pt : List ℕ) × (fin : List ℕ) × Decrypts evp key nonce ct t pt fin ctx w
        × (pt ++ fin ≡ text)
  unfolding open_with
  open_with-pushed key nonce ct t ctx w text w' e =
      let (_, w1, e1, f1) = on_success-pushed _ ctx (raised init) _ text w' refl e in
      let (pt, w2, e2, f2) = on_success-pushed _ ctx (pushed_nil update) _ text w' refl f1 in
      let (_, w3, e3, f3) = on_success-pushed _ ctx (pushed_nil tag) _ text w' refl f2 in
      let (fin, w4, e4, f4) = on_success-pushed _ ctx (pushed_nil final) _ text w' refl f3 in
      (
        pt,
        fin,
        record {
          w1 = w1;
          w2 = w2;
          w3 = w3;
          w4 = w4;
          init = e1;
          update = e2;
          tagged = e3;
          final = e4;
        },
        pushed_text _ _ text w' refl f4,
      )
