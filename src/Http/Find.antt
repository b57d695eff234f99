-- ===== src/Http/Find.antt =====
-- Where a string stands first in a text that goes on.
use luadch.Common.{
  ℕ, suc, ◌+◌, ◌≤◌, true, false, ◌&&◌, [], ◌∷◌, ◌++◌, none, some, some-injective, length, ◌≡◌, refl,
  ap, sym, ◌∙◌, subst, arith, Bool-cases, Option-cases, inl, inr, ◌==◌,
}
use luadch.Http.{Bytes, starts_with, find}

starts_with-within :
    (pat s t : Bytes) → length pat ≤ length s → starts_with pat (s ++ t) ≡ starts_with pat s
unfolding starts_with
starts_with-within [] s t h = refl
starts_with-within (a ∷ pat) [] t h = absurd (omega arith)
starts_with-within (a ∷ pat) (b ∷ s) t h =
    ap (λ r. a == b && r) (starts_with-within pat s t (omega arith))

length-starts_with : (pat s : Bytes) → starts_with pat s ≡ true → length pat ≤ length s
unfolding starts_with
length-starts_with [] s h = omega arith
length-starts_with (a ∷ pat) [] h = absurd (ground arith)
length-starts_with (a ∷ pat) (b ∷ s) h = elim (Bool-cases (a == b)) [
  | inl e ↦ omega (arith, length-starts_with pat s (rw e at h))
  | inr e ↦ let never : false ≡ true = rw e at h in absurd (ground arith)
]

-- `find` at a text's first byte, and past it.
pub data Found (pat : Bytes) : Bytes → ℕ → Type 0 where
  here : (s : Bytes) → starts_with pat s ≡ true → Found pat s 0
  there :
      (b : ℕ) (s : Bytes) (i : ℕ)
      → starts_with pat (b ∷ s) ≡ false
      → Found pat s i
      → Found pat (b ∷ s) (suc i)

pub find-Found : (pat s : Bytes) (i : ℕ) → Found pat s i → find pat s ≡ some i
unfolding find
find-Found pat [] i (here s e) = rw (e, find) refl
find-Found pat (b ∷ s) i (here s' e) = rw (e, find) refl
find-Found pat s i (there b s' j e f) = rw (e, find-Found pat s' j f, find) refl

pub no_result : {A : Type 0} (i : ℕ) → none ≡ some i → A
no_result i h = absurd (ground arith)

pub found : (pat s : Bytes) (i : ℕ) → find pat s ≡ some i → Found pat s i
unfolding find
found pat [] i h = elim (Bool-cases (starts_with pat [])) [
  | inl e ↦ subst (Found pat []) (some-injective 0 i (rw (e, find) at h)) (here [] e)
  | inr e ↦ no_result i (rw (e, find) at h)
]
found pat (b ∷ s) i h = elim (Bool-cases (starts_with pat (b ∷ s))) [
  | inl e ↦ subst (Found pat (b ∷ s)) (some-injective 0 i (rw (e, find) at h)) (here (b ∷ s) e)
  | inr e ↦ elim (Option-cases (find pat s)) [
    | inl f ↦ no_result i (rw (e, f, find) at h)
    | inr (j, f) ↦
        subst (Found pat (b ∷ s)) (some-injective (suc j) i (rw (e, f, find) at h))
          (there b s j e (found pat s j f))
  ]
]

pub length-Found : (pat s : Bytes) (i : ℕ) → Found pat s i → i + length pat ≤ length s
length-Found pat s i (here s' e) = omega (arith, length-starts_with pat s e)
length-Found pat s i (there b s' j e f) = omega (arith, length-Found pat s' j f)

pub Found-append : (pat s t : Bytes) (i : ℕ) → Found pat s i → Found pat (s ++ t) i
Found-append pat s t i (here s' e) =
    here (s ++ t) (starts_with-within pat s t (length-starts_with pat s e) ∙ e)
Found-append pat s t i (there b s' j e f) =
    there b (s' ++ t) j
      (starts_with-within pat (b ∷ s') t (omega (arith, length-Found pat s' j f)) ∙ e)
      (Found-append pat s' t j f)

pub Found-within :
    (pat s t : Bytes) (i : ℕ) → Found pat (s ++ t) i → i + length pat ≤ length s → Found pat s i
unfolding starts_with
Found-within [] [] t i f h = subst (Found [] []) (omega arith) (here [] refl)
Found-within (a ∷ pat) [] t i f h = absurd (omega arith)
Found-within pat (b ∷ s) t i (here s' e) h =
    here (b ∷ s) (sym (starts_with-within pat (b ∷ s) t (omega arith)) ∙ e)
Found-within pat (b ∷ s) t i (there b' s' j e f) h =
    there b s j (sym (starts_with-within pat (b ∷ s) t (omega arith)) ∙ e)
      (Found-within pat s t j f (omega arith))
