-- ===== src/Ipmatch/Normal.antt =====
-- The groups of an address give its bytes back.
use luadch.Common.{
  ℕ, suc, ◌+◌, ◌-◌, ◌*◌, ◌/◌, ◌%◌, false, List, [], ◌∷◌, ◌++◌, none, some, ltb, length, replicate,
  ◌≡◌, refl, ap, sym, ◌∙◌, subst, arith, Option-cases, some-injective, inl, inr, All, IsByte,
  append_assoc,
}
use luadch.Ipmatch.V6.{hex16_to_bytes, materialise}
use luadch.Ipmatch.Text.{groups_of, format_x}
use luadch.Ipmatch.Groups.{format_x-IsGroup}
use luadch.Ipmatch.Joined.{IsText, text}
use luadch.Ipmatch.ZeroRuns.{IsZeroGroup}

-- The groups of some bytes.
pub record IsGroups (bytes : List ℕ) (gs : List (List ℕ)) : Type 0 where
  pub made : materialise gs ≡ some bytes
  pub texts : All IsText gs

hex16-format_x :
    (hi lo : ℕ)
    → IsByte hi
    → IsByte lo
    → hex16_to_bytes (format_x (hi * 256 + lo)) ≡ some (hi ∷ lo ∷ [])
unfolding hex16_to_bytes
hex16-format_x hi lo h k =
    let g = format_x-IsGroup (hi * 256 + lo) (omega arith) in
    let small : ltb 65535 (hi * 256 + lo) ≡ false = ground arith in
    let high : (hi * 256 + lo) / 256 % 256 ≡ hi = omega arith in
    let low : (hi * 256 + lo) % 256 ≡ lo = omega arith in
    rw (g.reads, small, high, low, hex16_to_bytes) refl

pub groups_of-IsGroups :
    (k : ℕ) (bytes : List ℕ)
    → length bytes ≡ 2 * k
    → All IsByte bytes
    → IsGroups bytes (groups_of bytes)
unfolding groups_of materialise
groups_of-IsGroups k [] e h = record { made = refl; texts = tt }
groups_of-IsGroups k (b ∷ []) e h = absurd (omega arith)
groups_of-IsGroups k (hi ∷ lo ∷ bytes) e (h, (h', hs)) =
    let rest = groups_of-IsGroups (k - 1) bytes (omega arith) hs in
    record {
      made = rw (hex16-format_x hi lo h h', rest.made, materialise) refl;
      texts = (text (hi * 256 + lo) (format_x-IsGroup (hi * 256 + lo) (omega arith)), rest.texts);
    }

pub length-groups_of :
    (k : ℕ) (bytes : List ℕ) → length bytes ≡ 2 * k → length (groups_of bytes) ≡ k
unfolding groups_of
length-groups_of k [] e = omega arith
length-groups_of k (b ∷ []) e = absurd (omega arith)
length-groups_of k (hi ∷ lo ∷ bytes) e = omega (arith, length-groups_of (k - 1) bytes (omega arith))

pub no_bytes : {A : Type 0} (b : List ℕ) → none ≡ some b → A
no_bytes b h = absurd (ground arith)

-- Groups in two parts.
pub materialise-append :
    (gs hs : List (List ℕ)) (bytes : List ℕ)
    → materialise (gs ++ hs) ≡ some bytes
    → (a : List ℕ) × (c : List ℕ) × (materialise gs ≡ some a)
      × (materialise hs ≡ some c)
      × (bytes ≡ a ++ c)
unfolding materialise
materialise-append [] hs bytes e = ([], bytes, refl, e, refl)
materialise-append (g ∷ gs) hs bytes e = elim (Option-cases (hex16_to_bytes g)) [
  | inl f ↦ no_bytes bytes (rw (f, materialise) at e)
  | inr (two, f) ↦ elim (Option-cases (materialise (gs ++ hs))) [
    | inl k ↦ no_bytes bytes (rw (f, k, materialise) at e)
    | inr (rest, k) ↦
        let (a, c, p, q, r) = materialise-append gs hs rest k in
        let whole = some-injective (two ++ rest) bytes (rw (f, k, materialise) at e) in
        (
          two ++ a,
          c,
          rw (f, p, materialise) refl,
          q,
          sym whole ∙ (ap (λ t. two ++ t) r ∙ sym (append_assoc two a c)),
        )
  ]
]

pub materialise-zeros :
    (zs : List (List ℕ)) → All IsZeroGroup zs → materialise zs ≡ some (replicate (2 * length zs) 0)
unfolding materialise hex16_to_bytes
materialise-zeros [] h = refl
materialise-zeros ([] ∷ zs) (z, h) = absurd (ground arith)
materialise-zeros ((c ∷ []) ∷ zs) (z, h) =
    let zero_digit : b'0' ≡ c = ground arith in
    let more : suc (suc (2 * length zs)) ≡ 2 * suc (length zs) = omega arith in
    subst (λ d. materialise ((d ∷ []) ∷ zs) ≡ some (replicate (2 * suc (length zs)) 0)) zero_digit
      (rw (materialise-zeros zs h, materialise) (ap (λ n. some (replicate n 0)) more))
materialise-zeros ((c ∷ d ∷ g) ∷ zs) (z, h) = absurd (ground arith)
