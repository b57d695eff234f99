-- ===== src/Iostream/Lines.antt =====
-- The lines of a text, and the line framer against them.
use luadch.Common.{
  ℕ, suc, ◌≤◌, ◌<◌, false, List, [], ◌∷◌, ◌++◌, none, some, ◌==◌, if◌then◌else◌, length, take, drop,
  map, ◌≡◌, refl, ap, arith, inl, inr, Bool-cases,
}
use luadch.Iostream.{Bytes, find_newline, without_cr}

-- A text as its lines, each without the "\n" at its end, and what stands behind the last "\n".
abbrev pub on_line : ℕ → List Bytes × Bytes → List Bytes × Bytes
on_line b ([], rest) = ([], b ∷ rest)
on_line b (l ∷ ls, rest) = ((b ∷ l) ∷ ls, rest)

unfoldable pub split_lines : Bytes → List Bytes × Bytes
split_lines [] = ([], [])
split_lines (b ∷ s) =
    let (ls, rest) = split_lines s in if b == b'\n' then ([] ∷ ls, rest) else on_line b (ls, rest)

-- The frames of a text, and what the framer keeps of it.
unfoldable pub lines : Bytes → List Bytes
lines s = map without_cr (split_lines s).0

unfoldable pub open_line : Bytes → Bytes
open_line s = (split_lines s).1

-- Where the first "\n" of a text stands, against the lines.
pub data FirstLine (s : Bytes) : Type 0 where
  unended : find_newline s ≡ none → lines s ≡ [] → open_line s ≡ s → FirstLine s
  ended :
      (i : ℕ)
      → find_newline s ≡ some i
      → i < length s
      → lines s ≡ without_cr (take i s) ∷ lines (drop (suc i) s)
      → open_line s ≡ open_line (drop (suc i) s)
      → FirstLine s

pub data FirstSplit (s : Bytes) : Type 0 where
  unsplit : find_newline s ≡ none → split_lines s ≡ ([], s) → FirstSplit s
  split :
      (i : ℕ)
      → find_newline s ≡ some i
      → i < length s
      → split_lines s
        ≡ (take i s ∷ (split_lines (drop (suc i) s)).0, (split_lines (drop (suc i) s)).1)
      → FirstSplit s

pub first_split : (s : Bytes) → FirstSplit s
unfolding find_newline split_lines
first_split [] = unsplit refl refl
first_split (b ∷ s) = elim (Bool-cases (b == b'\n')) [
  | inl e ↦ split 0 (rw (e, find_newline) refl) (omega arith) (rw (e, split_lines) refl)
  | inr e ↦ elim (first_split s) [
    | unsplit f h ↦ unsplit (rw (e, f, find_newline) refl) (rw (e, h, split_lines) refl)
    | split i f small h ↦
        split (suc i) (rw (e, f, find_newline) refl) (omega arith) (rw (e, h, split_lines) refl)
  ]
]

pub first_line : (s : Bytes) → FirstLine s
unfolding lines open_line
first_line s = elim (first_split s) [
  | unsplit f h ↦ unended f (ap (λ p. map without_cr p.0) h) (ap (λ p. p.1) h)
  | split i f small h ↦ ended i f small (ap (λ p. map without_cr p.0) h) (ap (λ p. p.1) h)
]

-- The lines of a text that goes on behind its open line.
abbrev goes_on : List Bytes × Bytes → Bytes → List Bytes × Bytes
goes_on (ls, r) t = (ls ++ (split_lines (r ++ t)).0, (split_lines (r ++ t)).1)

on_line-goes_on :
    (b : ℕ) (p : List Bytes × Bytes) (t : Bytes)
    → (b == b'\n') ≡ false
    → on_line b (goes_on p t) ≡ goes_on (on_line b p) t
unfolding split_lines
on_line-goes_on b ([], r) t e = rw (e, split_lines) refl
on_line-goes_on b (l ∷ ls, r) t e = refl

split_lines-append : (s t : Bytes) → split_lines (s ++ t) ≡ goes_on (split_lines s) t
unfolding split_lines
split_lines-append [] t = refl
split_lines-append (b ∷ s) t = elim (Bool-cases (b == b'\n')) [
  | inl e ↦ rw (e, split_lines-append s t, split_lines) refl
  | inr e ↦ rw (e, split_lines-append s t, split_lines) (on_line-goes_on b (split_lines s) t e)
]

pub map-append {ℓ κ} :
    {A : Type ℓ} {B : Type κ} (f : A → B) (xs ys : List A) → map f (xs ++ ys) ≡ map f xs ++ map f ys
map-append f [] ys = refl
map-append f (x ∷ xs) ys = ap (◌∷◌ (f x)) (map-append f xs ys)

-- The lines of a text in two parts: the open line of the first stands before the second.
pub lines-append : (s t : Bytes) → lines (s ++ t) ≡ lines s ++ lines (open_line s ++ t)
unfolding lines open_line
lines-append s t =
    rw (split_lines-append s t)
      (map-append without_cr (split_lines s).0 (split_lines (open_line s ++ t)).0)

pub open_line-append : (s t : Bytes) → open_line (s ++ t) ≡ open_line (open_line s ++ t)
unfolding open_line
open_line-append s t = ap (λ p. p.1) (split_lines-append s t)

-- A text with no "\n" in it.
pub record IsOpen (s : Bytes) : Type 0 where
  pub no_lines : lines s ≡ []
  pub all_open : open_line s ≡ s

open-on_line :
    (b : ℕ) (p : List Bytes × Bytes)
    → (b == b'\n') ≡ false
    → split_lines p.1 ≡ ([], p.1)
    → split_lines (on_line b p).1 ≡ ([], (on_line b p).1)
unfolding split_lines
open-on_line b ([], r) e h = rw (e, h, split_lines) refl
open-on_line b (l ∷ ls, r) e h = h

length-on_line :
    {n : ℕ} (b : ℕ) (p : List Bytes × Bytes) → length p.1 ≤ n → length (on_line b p).1 ≤ suc n
length-on_line b ([], r) h = omega arith
length-on_line b (l ∷ ls, r) h = omega arith

split_lines-open_line : (s : Bytes) → split_lines (open_line s) ≡ ([], open_line s)
unfolding split_lines open_line
split_lines-open_line [] = refl
split_lines-open_line (b ∷ s) = elim (Bool-cases (b == b'\n')) [
  | inl e ↦ rw (e, open_line, split_lines) (split_lines-open_line s)
  | inr e ↦
      rw (e, open_line, split_lines) (open-on_line b (split_lines s) e (split_lines-open_line s))
]

pub open_line-IsOpen : (s : Bytes) → IsOpen (open_line s)
unfolding lines open_line
open_line-IsOpen s =
    let e = split_lines-open_line s in
    record { no_lines = ap (λ p. map without_cr p.0) e; all_open = ap (λ p. p.1) e }

pub length-open_line : (s : Bytes) → length (open_line s) ≤ length s
unfolding open_line split_lines
length-open_line [] = omega arith
length-open_line (b ∷ s) = elim (Bool-cases (b == b'\n')) [
  | inl e ↦ rw (e, open_line, split_lines) (omega (arith, length-open_line s))
  | inr e ↦ rw (e, open_line, split_lines) (length-on_line b (split_lines s) (length-open_line s))
]

pub nothing-IsOpen : IsOpen []
unfolding lines open_line split_lines
nothing-IsOpen = record { no_lines = refl; all_open = refl }
