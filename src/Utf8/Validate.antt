-- ===== src/Utf8/Validate.antt =====
-- `validateUtf8` on every byte string, and both routines on text that is well formed.
use luadch.Common.{
  All-drop, ℕ, zero, suc, ◌<◌, ◌≤◌, Bool, true, false, List, [], ◌∷◌, ◌++◌, drop, length,
  length-append, drop-append, append_assoc, append-nil, map, ◌≡◌, refl, ap, sym, ◌∙◌, subst, arith,
  IsByte, All, inl, inr, ◌⊎◌, ◌↔◌, some,
}
use luadch.Utf8.{
  Decoded, good, bad, utf8_to_wc, utf8_bytes, sanitize_loop, sanitize_utf8, validate_loop,
  validate_utf8,
}
use luadch.Utf8.Encode.{IsScalar}
use luadch.Utf8.Forms.{Form, shortest, code_point, form_bytes, IsForm, Answer, utf8_to_wc-Answer}
use luadch.Utf8.Sanitize.{
  sanitize_utf8_total, encode, write, utf8_to_wc-form_bytes, form_bytes_length, form-IsScalar,
  Reads-shrinks, wc_to_utf8-IsScalar,
}

validate_loop-good :
    (fuel : ℕ) (s : List ℕ) (c n : ℕ)
    → 1 ≤ length s
    → utf8_to_wc s ≡ good c n
    → validate_loop (suc fuel) s ≡ validate_loop fuel (drop n s)
unfolding validate_loop
validate_loop-good fuel [] c n h e = absurd (omega arith)
validate_loop-good fuel (b ∷ s) c n h e = rw (e, validate_loop) refl

validate_loop-bad :
    (fuel b : ℕ) (s : List ℕ) (n : ℕ)
    → utf8_to_wc (b ∷ s) ≡ bad n
    → validate_loop (suc fuel) (b ∷ s) ≡ some false
unfolding validate_loop
validate_loop-bad fuel b s n e = rw (e, validate_loop) refl

sanitize_loop_form :
    (fuel : ℕ) (s : List ℕ) (c n : ℕ) (tgt : List ℕ)
    → 1 ≤ length s
    → utf8_to_wc s ≡ good c n
    → IsScalar c
    → sanitize_loop (suc fuel) s tgt ≡ sanitize_loop fuel (drop n s) (tgt ++ utf8_bytes c)
unfolding sanitize_loop
sanitize_loop_form fuel [] c n tgt h e v = absurd (omega arith)
sanitize_loop_form fuel (b ∷ s) c n tgt h e v =
    rw (e, sanitize_loop) (rw (wc_to_utf8-IsScalar c tgt v) refl)

front-length :
    (f : Form) (rest : List ℕ)
    → IsForm f
    → (1 ≤ length (form_bytes f ++ rest)) × (length rest < length (form_bytes f ++ rest))
front-length f rest v = rw length-append (omega (arith, form_bytes_length f v))

validate_loop-write :
    (fs : List Form) (fuel : ℕ)
    → All IsForm fs
    → length (write fs) ≤ fuel
    → validate_loop fuel (write fs) ≡ some true
validate_loop-write [] fuel v h = unfold validate_loop in refl
validate_loop-write (f ∷ fs) zero v h = absurd (omega (arith, front-length f (write fs) v.0))
validate_loop-write (f ∷ fs) (suc fuel) v h =
    validate_loop-good fuel (write (f ∷ fs)) (code_point f) (length (form_bytes f))
      ((front-length f (write fs) v.0).0) (utf8_to_wc-form_bytes f (write fs) v.0)
    ∙ ap (validate_loop fuel) (drop-append (form_bytes f) (write fs) _ refl)
    ∙ validate_loop-write fs fuel v.1 (omega (arith, front-length f (write fs) v.0))

sanitize_loop-write :
    (fs : List Form) (fuel : ℕ) (tgt : List ℕ)
    → All IsForm fs
    → length (write fs) ≤ fuel
    → sanitize_loop fuel (write fs) tgt ≡ some (tgt ++ encode (map code_point fs))
sanitize_loop-write [] fuel tgt v h = unfold sanitize_loop in rw append-nil refl
sanitize_loop-write (f ∷ fs) zero tgt v h = absurd (omega (arith, front-length f (write fs) v.0))
sanitize_loop-write (f ∷ fs) (suc fuel) tgt v h =
    sanitize_loop_form fuel (write (f ∷ fs)) (code_point f) (length (form_bytes f)) tgt
      ((front-length f (write fs) v.0).0) (utf8_to_wc-form_bytes f (write fs) v.0)
      (form-IsScalar f v.0)
    ∙ ap (λ s. sanitize_loop fuel s (tgt ++ utf8_bytes (code_point f)))
        (drop-append (form_bytes f) (write fs) _ refl)
    ∙ sanitize_loop-write fs fuel _ v.1 (omega (arith, front-length f (write fs) v.0))
    ∙ ap some (append_assoc tgt (utf8_bytes (code_point f)) _)

-- `sanitizeUtf8` turns a sequence of valid forms into its code points, each in its shortest
-- form.
pub sanitize_utf8-write :
    (fs : List Form) → All IsForm fs → sanitize_utf8 (write fs) ≡ some (encode (map code_point fs))
unfolding sanitize_utf8
sanitize_utf8-write fs v = sanitize_loop-write fs _ [] v (omega arith)

shortest-forms :
    (cs : List ℕ)
    → All IsScalar cs
    → All IsForm (map shortest cs)
      × (write (map shortest cs) ≡ encode cs)
      × (map code_point (map shortest cs) ≡ cs)
shortest-forms [] v = (tt, refl, refl)
shortest-forms (c ∷ cs) v =
    let r = shortest-forms cs v.1 in
    (((v.0, tt), r.0), ap (◌++◌ (utf8_bytes c)) r.1, ap (◌∷◌ c) r.2)

-- Well-formed UTF-8 is left as it is.
pub sanitize_utf8-encode :
    (cs : List ℕ) → All IsScalar cs → sanitize_utf8 (encode cs) ≡ some (encode cs)
sanitize_utf8-encode cs v =
    let r = shortest-forms cs v in
    ap sanitize_utf8 (sym r.1) ∙ sanitize_utf8-write _ r.0 ∙ ap (λ x. some (encode x)) r.2

forms_accepted :
    (s : List ℕ) (fs : List Form)
    → All IsForm fs
    → s ≡ write fs
    → validate_loop (length s) s ≡ some true
forms_accepted s fs v e =
    subst (λ x. validate_loop (length x) x ≡ some true) (sym e)
      (validate_loop-write fs _ v (omega arith))

-- The answer of the loop: `false` at a text that is no sequence of forms, `true` at one that is.
abbrev Verdict : ℕ → List ℕ → Type 0
Verdict fuel s =
    (validate_loop fuel s ≡ some false)
    ⊎ ((validate_loop fuel s ≡ some true) × ((fs : List Form) × All IsForm fs × (s ≡ write fs)))

module _ (fuel b : ℕ) (s : List ℕ) (bytes : All IsByte (b ∷ s)) (fits : length s ≤ fuel) where
  Verdict-step :
      ((s' : List ℕ) → All IsByte s' → length s' ≤ fuel → Verdict fuel s')
      → (d : Decoded) → utf8_to_wc (b ∷ s) ≡ d
      → Answer (b ∷ s) d
      → Verdict (suc fuel) (b ∷ s)
  Verdict-step ih (bad n) e a = inl (validate_loop-bad fuel b s n e)
  Verdict-step ih (good c n) e r =
      let next : validate_loop (suc fuel) (b ∷ s) ≡ validate_loop fuel (drop n (b ∷ s)) =
        validate_loop-good fuel (b ∷ s) c n (omega arith) e in
      elim (ih (drop n (b ∷ s)) (All-drop IsByte n (b ∷ s) bytes)
        (Reads-shrinks b s c n fuel r fits)) [
          | inl no_forms ↦ inl (next ∙ no_forms)
          | inr (ends, (fs, v, split)) ↦ inr (
            next ∙ ends,
            (r.form ∷ fs, (r.valid, v), r.split ∙ ap (◌++◌ (form_bytes r.form)) split),
          )
        ]

verdict : (fuel : ℕ) (s : List ℕ) → All IsByte s → length s ≤ fuel → Verdict fuel s
verdict fuel [] h k = inr (unfold validate_loop in refl, ([], tt, refl))
verdict zero (b ∷ s) h k = absurd (omega arith)
verdict (suc fuel) (b ∷ s) h k =
    Verdict-step fuel b s h (omega arith) (verdict fuel) (utf8_to_wc (b ∷ s)) refl
      (utf8_to_wc-Answer b s h.0 h.1)

-- `validateUtf8` returns on every byte string, and answers true exactly when the string is a
-- sequence of scalar values, each in its shortest form or in the padded form of four bytes.
pub validate_utf8_iff :
    (s : List ℕ)
    → All IsByte s
    → ((b : Bool) × (validate_utf8 s ≡ some b))
      × ((validate_utf8 s ≡ some true) ↔ ((fs : List Form) × All IsForm fs × (s ≡ write fs)))
unfolding validate_utf8
validate_utf8_iff s h = elim (verdict (length s) s h (omega arith)) [
  | inl e ↦ ((false, e), (λ t. cc, λ p. forms_accepted s p.0 p.1 p.2))
  | inr (e, fs) ↦ ((true, e), (λ _. fs, λ _. e))
]

-- On every byte string `sanitizeUtf8` returns a string that `validateUtf8` accepts, that a
-- second pass leaves as it is, and that is no longer than the input.
pub sanitize_utf8_repairs :
    (s : List ℕ)
    → All IsByte s
    → (t : List ℕ) × (sanitize_utf8 s ≡ some t)
      × (validate_utf8 t ≡ some true)
      × (sanitize_utf8 t ≡ some t)
      × (length t ≤ length s)
unfolding validate_utf8
sanitize_utf8_repairs s h =
    let (cs, v, e, short) = sanitize_utf8_total s h in
    let r = shortest-forms cs v in
    (
      encode cs,
      e,
      forms_accepted (encode cs) (map shortest cs) r.0 (sym r.1),
      sanitize_utf8-encode cs v,
      short,
    )
