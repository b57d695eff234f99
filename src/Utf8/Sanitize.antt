-- ===== src/Utf8/Sanitize.antt =====
-- `sanitizeUtf8` and `validateUtf8` on every byte string.
use luadch.Common.{
  ℕ, zero, suc, ◌+◌, ◌/◌, ◌%◌, ◌≤◌, List, [], ◌∷◌, ◌++◌, drop, replicate, length, length-append,
  length-drop, length-replicate, append_assoc, append-nil, ◌≡◌, refl, ap, sym, ◌∙◌, subst, arith,
  IsByte, All, All-append, All-drop, some,
}
use luadch.Utf8.{
  Decoded, good, bad, check_code_point, utf8_to_wc, utf8_bytes, wc_to_utf8, sanitize_loop,
  sanitize_utf8,
}
use luadch.Utf8.Decode.{utf8_to_wc-four}
use luadch.Utf8.Encode.{
  IsScalar, IsScalar-iff, utf8_to_wc-utf8_bytes, Size, Size-of, one, two, three, four, utf8_bytes_1,
  utf8_bytes_2, utf8_bytes_3, utf8_bytes_4,
}
use luadch.Utf8.Forms.{
  Form, shortest, padded, code_point, form_bytes, IsForm, Reads, Answer, utf8_to_wc-Answer,
}

-- The text of a list of code points, and of a list of forms.
abbrev pub encode : List ℕ → List ℕ
encode [] = []
encode (c ∷ cs) = utf8_bytes c ++ encode cs

abbrev pub write : List Form → List ℕ
write [] = []
write (f ∷ fs) = form_bytes f ++ write fs

pub utf8_to_wc-form_bytes :
    (f : Form) (rest : List ℕ)
    → IsForm f
    → utf8_to_wc (form_bytes f ++ rest) ≡ good (code_point f) (length (form_bytes f))
utf8_to_wc-form_bytes (shortest c) rest h = utf8_to_wc-utf8_bytes c rest h.0
utf8_to_wc-form_bytes (padded c) rest h =
    rw
      (utf8_to_wc-four 240 (128 + c / 4096) _ refl (omega arith) (128 + c / 64 % 64) refl
        (omega arith) (128 + c % 64) refl (omega arith) (omega arith) (omega arith))
      (unfold check_code_point in ground (arith, IsScalar-iff c))

pub utf8_bytes_shape :
    (c : ℕ) → IsScalar c → All IsByte (utf8_bytes c) × (1 ≤ length (utf8_bytes c))
utf8_bytes_shape c h = elim (Size-of c h.0) [
  | one p ↦ rw (utf8_bytes_1 c p) (omega arith)
  | two p q ↦ rw (utf8_bytes_2 c p q) (omega arith)
  | three p q ↦ rw (utf8_bytes_3 c p q) (omega arith)
  | four p q ↦ rw (utf8_bytes_4 c p q) (omega arith)
]

padded_length : (c : ℕ) → Size c → (1 ≤ 4) × (length (utf8_bytes c) ≤ 4)
padded_length c (one p) = rw (utf8_bytes_1 c p) (omega arith)
padded_length c (two p q) = rw (utf8_bytes_2 c p q) (omega arith)
padded_length c (three p q) = rw (utf8_bytes_3 c p q) (omega arith)
padded_length c (four p q) = rw (utf8_bytes_4 c p q) (omega arith)

-- A form takes a byte at least, and no fewer than the shortest form of its code point.
pub form_bytes_length :
    (f : Form)
    → IsForm f
    → (1 ≤ length (form_bytes f)) × (length (utf8_bytes (code_point f)) ≤ length (form_bytes f))
form_bytes_length (shortest c) h = omega (arith, utf8_bytes_shape c h.0)
form_bytes_length (padded c) h = padded_length c (Size-of c h.0.0)

pub encode-append : (cs ds : List ℕ) → encode (cs ++ ds) ≡ encode cs ++ encode ds
encode-append [] ds = refl
encode-append (c ∷ cs) ds = rw (encode-append cs ds, append_assoc)

-- The `_` that stand for bytes which were skipped.
encode-replicate : (n : ℕ) → encode (replicate n 0x5f) ≡ replicate n 0x5f
encode-replicate zero = refl
encode-replicate (suc n) = rw (encode-replicate n) (rw (utf8_bytes_1 0x5f (omega arith)) refl)

encode_fill :
    (n : ℕ) (cs : List ℕ) → encode (replicate n 0x5f ++ cs) ≡ replicate n 0x5f ++ encode cs
encode_fill n cs = rw (encode-append (replicate n 0x5f) cs, encode-replicate n) refl

replicate-IsScalar : (n : ℕ) → All IsScalar (replicate n 0x5f)
replicate-IsScalar zero = tt
replicate-IsScalar (suc n) = (omega arith, replicate-IsScalar n)

pub wc_to_utf8-IsScalar :
    (c : ℕ) (tgt : List ℕ) → IsScalar c → wc_to_utf8 c tgt ≡ tgt ++ utf8_bytes c
unfolding wc_to_utf8
wc_to_utf8-IsScalar c tgt h = rw (IsScalar-iff c h) refl

pub form-IsScalar : (f : Form) → IsForm f → IsScalar (code_point f)
form-IsScalar (shortest c) h = h.0
form-IsScalar (padded c) h = h.0

-- The loop ends, and has written well-formed text that is no longer than what it read.
record Cleans (fuel : ℕ) (s tgt : List ℕ) : Type 0 where
  code_points : List ℕ
  valid : All IsScalar code_points
  result : sanitize_loop fuel s tgt ≡ some (tgt ++ encode code_points)
  no_longer : length (encode code_points) ≤ length s

-- What is left of the text, and how long it is.
Reads-length :
    (s : List ℕ) (c n : ℕ) (r : Reads s c n)
    → length s ≡ length (form_bytes r.form) + length (drop n s)
Reads-length s c n r = ap length r.split ∙ length-append (form_bytes r.form) (drop n s)

Reads-IsScalar : (s : List ℕ) (c n : ℕ) → Reads s c n → IsScalar c
Reads-IsScalar s c n r = subst IsScalar r.of_code (form-IsScalar r.form r.valid)

pub Reads-shrinks :
    (b : ℕ) (s : List ℕ) (c n fuel : ℕ)
    → Reads (b ∷ s) c n
    → length s ≤ fuel
    → length (drop n (b ∷ s)) ≤ fuel
Reads-shrinks b s c n fuel r h =
    omega (arith, Reads-length (b ∷ s) c n r, form_bytes_length r.form r.valid)

encode-bad-length :
    (b : ℕ) (s : List ℕ) (n : ℕ) (cs : List ℕ)
    → n ≤ length (b ∷ s)
    → length (encode cs) ≤ length (drop n (b ∷ s))
    → length (encode (replicate n 0x5f ++ cs)) ≤ length (b ∷ s)
encode-bad-length b s n cs h k =
    rw (encode_fill n cs, length-append)
      (omega (arith, length-replicate {A = ℕ} n 0x5f, length-drop n (b ∷ s)))

encode-good-length :
    (b : ℕ) (s : List ℕ) (c n : ℕ) (cs : List ℕ)
    → Reads (b ∷ s) c n
    → length (encode cs) ≤ length (drop n (b ∷ s))
    → length (encode (c ∷ cs)) ≤ length (b ∷ s)
encode-good-length b s c n cs r k = rw length-append (
    omega (
      arith,
      Reads-length (b ∷ s) c n r,
      form_bytes_length r.form r.valid,
      ap (λ x. length (utf8_bytes x)) r.of_code,
    ))

module _ (fuel b : ℕ) (s tgt : List ℕ) (bytes : All IsByte (b ∷ s)) (fits : length s ≤ fuel) where
  sanitize_loop-bad :
      (n : ℕ)
      → utf8_to_wc (b ∷ s) ≡ bad n
      → sanitize_loop (suc fuel) (b ∷ s) tgt
        ≡ sanitize_loop fuel (drop n (b ∷ s)) (tgt ++ replicate n 0x5f)
  unfolding sanitize_loop
  sanitize_loop-bad n e = rw (e, sanitize_loop) refl

  sanitize_loop-good :
      (c n : ℕ)
      → utf8_to_wc (b ∷ s) ≡ good c n
      → IsScalar c
      → sanitize_loop (suc fuel) (b ∷ s) tgt
        ≡ sanitize_loop fuel (drop n (b ∷ s)) (tgt ++ utf8_bytes c)
  unfolding sanitize_loop
  sanitize_loop-good c n e h = rw (e, sanitize_loop) (rw (wc_to_utf8-IsScalar c tgt h) refl)

  Cleans-step :
      ((s' tgt' : List ℕ) → All IsByte s' → length s' ≤ fuel → Cleans fuel s' tgt')
      → (d : Decoded) → utf8_to_wc (b ∷ s) ≡ d
      → Answer (b ∷ s) d
      → Cleans (suc fuel) (b ∷ s) tgt
  Cleans-step ih (bad n) e a =
      let fill : List ℕ = replicate n 0x5f in
      let rest =
        ih (drop n (b ∷ s)) (tgt ++ fill) (All-drop IsByte n (b ∷ s) bytes)
          (omega (arith, length-drop n (b ∷ s))) in
      record {
        code_points = fill ++ rest.code_points;
        valid = All-append IsScalar fill _ (replicate-IsScalar n) rest.valid;
        result =
            sanitize_loop-bad n e
            ∙ rest.result
            ∙ ap some (
                append_assoc tgt fill (encode rest.code_points)
                ∙ ap (◌++◌ tgt) (sym (encode_fill n rest.code_points)));
        no_longer = encode-bad-length b s n rest.code_points a.1 rest.no_longer;
      }
  Cleans-step ih (good c n) e r =
      let rest =
        ih (drop n (b ∷ s)) (tgt ++ utf8_bytes c) (All-drop IsByte n (b ∷ s) bytes)
          (Reads-shrinks b s c n fuel r fits) in
      record {
        code_points = c ∷ rest.code_points;
        valid = (Reads-IsScalar (b ∷ s) c n r, rest.valid);
        result =
            sanitize_loop-good c n e (Reads-IsScalar (b ∷ s) c n r)
            ∙ rest.result
            ∙ ap some (append_assoc tgt (utf8_bytes c) _);
        no_longer = encode-good-length b s c n rest.code_points r rest.no_longer;
      }

cleans : (fuel : ℕ) (s tgt : List ℕ) → All IsByte s → length s ≤ fuel → Cleans fuel s tgt
cleans fuel [] tgt h k = record {
  code_points = [];
  valid = tt;
  result = unfold sanitize_loop in rw append-nil refl;
  no_longer = omega arith;
}
cleans zero (b ∷ s) tgt h k = absurd (omega arith)
cleans (suc fuel) (b ∷ s) tgt h k =
    Cleans-step fuel b s tgt h (omega arith) (cleans fuel) (utf8_to_wc (b ∷ s)) refl
      (utf8_to_wc-Answer b s h.0 h.1)

-- On every byte string `sanitizeUtf8` returns. Its result is the encoding of a list of Unicode
-- scalar values, each in its shortest form, and is no longer than the input.
pub sanitize_utf8_total :
    (s : List ℕ)
    → All IsByte s
    → (cs : List ℕ) × All IsScalar cs
      × (sanitize_utf8 s ≡ some (encode cs))
      × (length (encode cs) ≤ length s)
unfolding sanitize_utf8
sanitize_utf8_total s h =
    let c = cleans (length s) s [] h (omega arith) in
    (c.code_points, c.valid, c.result, c.no_longer)
