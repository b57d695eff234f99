-- ===== src/Zlib/PairTests.antt =====
-- A pair of codecs that shift each byte up and down again, and the theorem at a concrete input.
use luadch.Common.{
  ℕ, zero, suc, ◌+◌, ◌≤◌, ◌<◌, List, [], ◌∷◌, ◌++◌, some, false, length, take, drop, append_assoc,
  append-nil, ◌≡◌, refl, ap, sym, ◌∙◌, inl, inr, arith, length-take, take-append-drop,
}
use luadch.Zlib.{
  ok, Codec, Outcome, pushed, zs_chunk, inflate_fails, is_end, inflate_push, deflate_push,
  deflate_loop,
}
use luadch.Zlib.Contract.{IsInflate, IsDeflate, Rounds, start, round}
use luadch.Zlib.RoundTrip.{IsPaired, Restored, inflate_push-deflate_push}
use luadch.Zlib.Tests.{code_for, copy_stuck, copy_initialised, copy_stops}

abbrev all_of : (ℕ → ℕ) → List ℕ → List ℕ
all_of f [] = []
all_of f (x ∷ s) = f x ∷ all_of f s

-- Writes what fits through `f`, on a stream that counts its calls.
abbrev recode : (ℕ → ℕ) → Codec ℕ
recode f s input room = record {
  code = code_for input;
  rest = drop room input;
  output = all_of f (take room input);
  strm = s + 1;
}

abbrev down : ℕ → ℕ
down zero = zero
down (suc n) = n

length-all_of : (f : ℕ → ℕ) (s : List ℕ) → length (all_of f s) ≡ length s
length-all_of f [] = refl
length-all_of f (x ∷ s) = ap suc (length-all_of f s)

all_of-split :
    (f : ℕ → ℕ) (n : ℕ) (s : List ℕ) → all_of f s ≡ all_of f (take n s) ++ all_of f (drop n s)
all_of-split f zero s = refl
all_of-split f (suc n) [] = refl
all_of-split f (suc n) (x ∷ s) = ap (◌∷◌ (f x)) (all_of-split f n s)

down-up : (s : List ℕ) → all_of down (all_of suc s) ≡ s
down-up [] = refl
down-up (x ∷ s) = ap (◌∷◌ x) (down-up s)

takes : (input : List ℕ) (room : ℕ) → 0 < room → code_for input ≡ ok → 1 ≤ length (take room input)
takes [] room h e = absurd (ground arith)
takes (x ∷ s) zero h e = absurd (omega arith)
takes (x ∷ s) (suc room) h e = omega arith

recode-IsInflate : (f : ℕ → ℕ) → IsInflate (recode f)
recode-IsInflate f = record {
  fits = λ s input room. omega (arith, length-take room input, length-all_of f (take room input));
  consumes = λ s input room. (take room input, sym (take-append-drop room input));
  progress = λ s input room h e.
      inr (omega (arith, takes input room h e, length-all_of f (take room input)));
  stuck =
      λ s input room h e. ((copy_stuck input room e).0, ap (all_of f) (copy_stuck input room e).1);
  initialised = λ s input room. copy_initialised input;
}

recode-IsDeflate : (f : ℕ → ℕ) → IsDeflate (recode f)
recode-IsDeflate f = record {
  stops = λ s input room. elim (copy_stops input room) [
    | inl e ↦ inl e
    | inr e ↦ inr (length-all_of f (take room input) ∙ e)
  ];
  fits = λ s input room. omega (arith, length-take room input, length-all_of f (take room input));
}

-- What the calls wrote, and what they have not read.
recode-Rounds :
    (f : ℕ → ℕ) (s0 : ℕ) (i0 : List ℕ) (s : ℕ) (out i : List ℕ)
    → Rounds (recode f) s0 i0 out s i
    → all_of f i0 ≡ out ++ all_of f i
recode-Rounds f s0 i0 s out i start = refl
recode-Rounds f s0 i0 s out i (round out' s' i' r) =
    recode-Rounds f s0 i0 s' out' i' r
    ∙ ap (λ x. out' ++ x) (all_of-split f zs_chunk i')
    ∙ sym (append_assoc out' (all_of f (take zs_chunk i')) (all_of f (drop zs_chunk i')))

continues :
    (input : List ℕ) → (inflate_fails (code_for input) ≡ false) × (is_end (code_for input) ≡ false)
continues [] = (refl, refl)
continues (x ∷ s) = (refl, refl)

abbrev Any : ℕ → ℕ → Type 0
Any d s = Unit

recode-IsPaired : IsPaired (recode suc) (recode down) Any
recode-IsPaired = record {
  restores = λ d d1 s s1 i before j out w p r complete t. inr (
    (continues w).0,
    (continues w).1,
    all_of down (drop zs_chunk w),
    (let wrote = recode-Rounds suc d i d1 before j r in
        let last : all_of suc j ≡ all_of suc (take zs_chunk j) =
          all_of-split suc zs_chunk j
          ∙ ap (λ x. all_of suc (take zs_chunk j) ++ all_of suc x) complete.1
          ∙ append-nil (all_of suc (take zs_chunk j)) in
        let read = recode-Rounds down s _ s1 out w t in
        sym (down-up i)
        ∙ ap (all_of down) (wrote ∙ ap (λ x. before ++ x) last)
        ∙ read
        ∙ ap (λ x. out ++ x) (all_of-split down zs_chunk w)
        ∙ sym (append_assoc out (all_of down (take zs_chunk w)) (all_of down (drop zs_chunk w)))),
    λ e room. (ap (all_of down) e, tt),
  );
}

abbrev hello : List ℕ
hello = b'h' ∷ b'i' ∷ []

shifted :
    deflate_push (recode suc) 3 (record { strm = 4; closed = false }) hello
    ≡ some (pushed (b'i' ∷ b'j' ∷ []), record { strm = 5; closed = false })
unfolding deflate_push deflate_loop
shifted = refl

inflate_push-deflate_push_example :
    (r : Outcome) × (s : ℕ) × (inflate_push
        (recode down)
        (record { strm = 7; closed = false })
        (b'i' ∷ b'j' ∷ [])
      ≡ some (r, record { strm = s; closed = false }))
    × Restored (recode suc) (recode down) Any hello 5 r s
inflate_push-deflate_push_example =
    inflate_push-deflate_push (recode suc) (recode down) Any 4 5 7 3 hello (b'i' ∷ b'j' ∷ [])
      (recode-IsDeflate suc) (recode-IsInflate down) recode-IsPaired tt (omega arith) (omega arith)
      shifted
