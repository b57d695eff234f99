-- ===== src/Escape/RoundTrip.antt =====
-- `unescape` undoes `escape`, and what either of them writes.
use luadch.Common.{
  ℕ, ◌*◌, ◌≤◌, List, [], ◌∷◌, ◌++◌, length, length-append, ◌≡◌, ap, sym, ◌∙◌, ◌≢◌, arith, All,
  All-append, append_assoc, append-nil, subst,
}
use luadch.Escape.{escape_byte, escape_loop, escape, unescape_byte, unescape_loop, unescape}

-- A byte that the line protocol can carry inside a parameter: no space and no line feed.
abbrev pub IsPlain : ℕ → Type 0
IsPlain c = (c ≢ b' ') × (c ≢ b'\n')

escape_loop-append : (s out : List ℕ) → escape_loop s out ≡ out ++ escape s
unfolding escape escape_loop
escape_loop-append [] out = sym (append-nil out)
escape_loop-append (c ∷ s) out =
    escape_loop-append s (out ++ escape_byte c)
    ∙ append_assoc out (escape_byte c) (escape s)
    ∙ ap (◌++◌ out) (sym (escape_loop-append s (escape_byte c)))

pub escape-cons : (c : ℕ) (s : List ℕ) → escape (c ∷ s) ≡ escape_byte c ++ escape s
unfolding escape escape_loop
escape-cons c s = escape_loop-append s (escape_byte c)

-- One escaped byte is read back, whatever follows.
unescape_loop-escape_byte :
    (c : ℕ) (s out : List ℕ)
    → unescape_loop (escape_byte c ++ s) out ≡ unescape_loop s (out ++ (c ∷ []))
unfolding escape_byte unescape_loop unescape_byte
unescape_loop-escape_byte c [] out = ground arith
unescape_loop-escape_byte c (d ∷ s) out = ground arith

unescape_loop-escape : (s out : List ℕ) → unescape_loop (escape s) out ≡ out ++ s
unfolding escape escape_loop unescape_loop
unescape_loop-escape [] out = sym (append-nil out)
unescape_loop-escape (c ∷ s) out =
    ap (λ t. unescape_loop t out) (escape-cons c s)
    ∙ unescape_loop-escape_byte c (escape s) out
    ∙ unescape_loop-escape s (out ++ (c ∷ []))
    ∙ append_assoc out (c ∷ []) s

escape_byte-IsPlain : (c : ℕ) → All IsPlain (escape_byte c)
unfolding escape_byte
escape_byte-IsPlain c = ground arith

escape-IsPlain : (s : List ℕ) → All IsPlain (escape s)
unfolding escape escape_loop
escape-IsPlain [] = tt
escape-IsPlain (c ∷ s) =
    subst (All IsPlain) (sym (escape-cons c s))
      (All-append IsPlain (escape_byte c) (escape s) (escape_byte-IsPlain c) (escape-IsPlain s))

length-escape_byte : (c : ℕ) → (1 ≤ length (escape_byte c)) × (length (escape_byte c) ≤ 2)
unfolding escape_byte
length-escape_byte c = ground arith

length-escape : (s : List ℕ) → (length s ≤ length (escape s)) × (length (escape s) ≤ 2 * length s)
unfolding escape escape_loop
length-escape [] = (omega arith, omega arith)
length-escape (c ∷ s) =
    let (least, most) = length-escape s in
    let (one, two) = length-escape_byte c in
    let split = ap length (escape-cons c s) ∙ length-append (escape_byte c) (escape s) in
    (omega arith, omega arith)

-- `unescape` gives back the text that `escape` took; what `escape` writes has no space and no
-- line feed in it, and one or two bytes for each byte of the text.
pub unescape-escape :
    (s : List ℕ)
    → (unescape (escape s) ≡ s)
      × All IsPlain (escape s)
      × (length s ≤ length (escape s))
      × (length (escape s) ≤ 2 * length s)
unfolding unescape
unescape-escape s =
    let (least, most) = length-escape s in
    (unescape_loop-escape s [], escape-IsPlain s, least, most)
