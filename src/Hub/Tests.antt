-- ===== src/Hub/Tests.antt =====
-- A file system that is the list of its names, and the theorem at a concrete path.
use luadch.Common.{
  ℕ, Bool, true, false, ◌||◌, if◌then◌else◌, List, [], ◌∷◌, Option, none, some, ◌≡◌, refl, ap, inl,
  inr, arith, Bool-cases,
}
use luadch.Start.{same}
use luadch.Hub.{eexist, made, make, makedir, makedir_loop}
use luadch.Hub.Makedir.{IsMkdir, makedir-exists}

has : List (List ℕ) → List ℕ → Bool
has [] q = false
has (p ∷ fs) q = same p q || has fs q

abbrev Exists : List (List ℕ) → List ℕ → Type 0
Exists fs q = has fs q ≡ true

-- A call makes its directory, or fails with `EEXIST` where the name is taken.
mkdir : List (List ℕ) → List ℕ → List (List ℕ) × Option ℕ
mkdir fs p = if has fs p then (fs, some eexist) else (p ∷ fs, none)

same_refl : (p : List ℕ) → same p p ≡ true
unfolding same
same_refl [] = refl
same_refl (x ∷ p) = rw (same_refl p) (ground arith)

has-mkdir : (fs : List (List ℕ)) (p : List ℕ) → has (mkdir fs p).0 p ≡ true
unfolding has mkdir
has-mkdir fs p = elim (Bool-cases (has fs p)) [
  | inl e ↦ rw (e, mkdir) e
  | inr e ↦ rw (e, mkdir) (rw (same_refl p) refl)
]

kept_true : (a b : Bool) → b ≡ true → (a || b) ≡ true
kept_true true b e = refl
kept_true false b e = e

mkdir-keeps : (fs : List (List ℕ)) (p q : List ℕ) → Exists fs q → Exists (mkdir fs p).0 q
unfolding has mkdir
mkdir-keeps fs p q x = elim (Bool-cases (has fs p)) [
  | inl e ↦ rw (e, mkdir) x
  | inr e ↦ rw (e, mkdir) (kept_true (same p q) (has fs q) x)
]

mkdir-IsMkdir : IsMkdir mkdir Exists
mkdir-IsMkdir = record {
  makes = λ fs p e. has-mkdir fs p;
  finds = λ fs p e. has-mkdir fs p;
  keeps = mkdir-keeps;
}

-- "a/b"
abbrev path : List ℕ
path = b'a' ∷ b'/' ∷ b'b' ∷ []

-- The directory "a" is there already.
parents_first : makedir mkdir ((b'a' ∷ []) ∷ []) path ≡ (path ∷ (b'a' ∷ []) ∷ [], made)
unfolding makedir makedir_loop make mkdir has same
parents_first = refl

makedir-exists_example : Exists (makedir mkdir ((b'a' ∷ []) ∷ []) path).0 (b'a' ∷ [])
makedir-exists_example =
    makedir-exists mkdir Exists ((b'a' ∷ []) ∷ []) b'a' [] (b'/' ∷ b'b' ∷ []) mkdir-IsMkdir refl
      refl (ap (λ r. r.1) parents_first)
