-- ===== src/Escape/Unknown.antt =====
-- What `unescape` does where no escape of the three stands.
use luadch.Common.{
  ℕ, List, [], ◌∷◌, ◌++◌, ◌==◌, ◌≡◌, refl, ap, sym, ◌∙◌, ◌≢◌, arith, All, append_assoc, append-nil,
  Bool-cases, inl, inr,
}
use luadch.Escape.{unescape_byte, unescape_loop, unescape}

-- A byte that is no backslash is copied, whatever follows.
unescape_loop-plain :
    (c : ℕ) (s out : List ℕ)
    → c ≢ b'\\'
    → unescape_loop (c ∷ s) out ≡ unescape_loop s (out ++ (c ∷ []))
unfolding unescape_loop
unescape_loop-plain c [] out plain = ground arith
unescape_loop-plain c (d ∷ s) out plain = ground arith

unescape_loop-append_plain :
    (t s out : List ℕ)
    → All (λ c. c ≢ b'\\') t
    → unescape_loop (t ++ s) out ≡ unescape_loop s (out ++ t)
unescape_loop-append_plain [] s out plain = ap (unescape_loop s) (sym (append-nil out))
unescape_loop-append_plain (c ∷ t) s out (this, plain) =
    unescape_loop-plain c (t ++ s) out this
    ∙ unescape_loop-append_plain t s (out ++ (c ∷ [])) plain
    ∙ ap (unescape_loop s) (append_assoc out (c ∷ []) t)

unescape_loop-unknown :
    (c : ℕ) (s out : List ℕ)
    → c ≢ b's'
    → c ≢ b'n'
    → c ≢ b'\\'
    → unescape_loop (b'\\' ∷ c ∷ s) out ≡ unescape_loop s (out ++ (b'\\' ∷ c ∷ []))
unfolding unescape_loop unescape_byte
unescape_loop-unknown c s out no_s no_n no_b = ground arith

shift :
    (s x out : List ℕ)
    → ((o : List ℕ) → unescape_loop s o ≡ o ++ unescape s)
    → unescape_loop s (out ++ x) ≡ out ++ unescape_loop s x
shift s x out h = h (out ++ x) ∙ append_assoc out x (unescape s) ∙ ap (◌++◌ out) (sym (h x))

unescape_loop-append : (s out : List ℕ) → unescape_loop s out ≡ out ++ unescape s
unfolding unescape unescape_loop
unescape_loop-append [] out = sym (append-nil out)
unescape_loop-append (c ∷ []) out = refl
unescape_loop-append (c ∷ d ∷ s) out =
    let escaped = shift s (unescape_byte d) out (unescape_loop-append s) in
    let copied = shift (d ∷ s) (c ∷ []) out (unescape_loop-append (d ∷ s)) in
    elim (Bool-cases (c == b'\\')) [
      | inl e ↦ rw (e, unescape_loop, unescape) escaped
      | inr e ↦ rw (e, unescape_loop, unescape) copied
    ]

-- Behind a text with no backslash, `unescape` keeps a backslash before a byte that makes no
-- escape together with that byte, goes on behind them, and keeps a backslash at the end; the
-- text alone is left as it is.
pub unescape-unknown :
    (t s : List ℕ) (c : ℕ)
    → All (λ b. b ≢ b'\\') t
    → c ≢ b's'
    → c ≢ b'n'
    → c ≢ b'\\'
    → (unescape (t ++ (b'\\' ∷ c ∷ s)) ≡ t ++ (b'\\' ∷ c ∷ unescape s))
      × (unescape (t ++ (b'\\' ∷ [])) ≡ t ++ (b'\\' ∷ []))
      × (unescape t ≡ t)
unfolding unescape unescape_loop
unescape-unknown t s c plain no_s no_n no_b = (
  unescape_loop-append_plain t (b'\\' ∷ c ∷ s) [] plain
      ∙ unescape_loop-unknown c s t no_s no_n no_b
      ∙ unescape_loop-append s (t ++ (b'\\' ∷ c ∷ []))
      ∙ append_assoc t (b'\\' ∷ c ∷ []) (unescape s),
  unescape_loop-append_plain t (b'\\' ∷ []) [] plain,
  ap unescape (sym (append-nil t)) ∙ unescape_loop-append_plain t [] [] plain,
)
