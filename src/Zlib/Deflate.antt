-- ===== src/Zlib/Deflate.antt =====
-- The calls of a push through a deflate stream, and how it ends.
use luadch.Common.{
  ℕ, zero, suc, ◌≤◌, ◌<◌, true, false, ◌&&◌, List, [], ◌∷◌, ◌++◌, ◌+◌, ◌*◌, none, some, ltb, length,
  length-append, subst, ◌≡◌, refl, ap, ◌⊎◌, inl, inr, arith, Bool-cases,
}
use luadch.Zlib.{
  Answer, Codec, Outcome, pushed, failed, bomb, closed_error, zs_chunk, deflate_fails, is_empty,
  finished, fed, deflate_loop, deflate_push,
}
use luadch.Zlib.Contract.{IsDeflate, Rounds, start, round}

pub finished_parts :
    (s : List ℕ) (n : ℕ) → (ltb n zs_chunk && is_empty s) ≡ true → (s ≡ []) × (n < zs_chunk)
finished_parts [] n h = (refl, ground arith)
finished_parts (x ∷ s) n h = absurd (ground arith)

unfinished :
    (s : List ℕ) (n : ℕ)
    → (ltb n zs_chunk && is_empty s) ≡ false
    → (s ≡ []) ⊎ (n ≡ zs_chunk)
    → zs_chunk ≤ n
unfinished s n h (inr e) = omega arith
unfinished [] n h (inl e) = ground arith
unfinished (x ∷ s) n h (inl e) = absurd (omega (arith, ap length e))

-- How a push ends: with all the input taken in and the last chunk not full, or with the code of a
-- call that failed.
abbrev pub Flushed : {S : Type 0} → Answer S → List ℕ → Outcome → Type 0
Flushed a all (pushed out) =
    (out ≡ all) × (deflate_fails a.code ≡ false) × (a.rest ≡ []) × (length a.output < zs_chunk)
Flushed a all (failed c) = (c ≡ a.code) × (deflate_fails c ≡ true)
Flushed a all bomb = ⊥
Flushed a all closed_error = ⊥

module _ {S : Type 0} (z : Codec S) where
  -- The calls of a push that ends with `r` and leaves the stream `s`.
  pub record Flushes (s0 : S) (i0 : List ℕ) (r : Outcome) (s : S) : Type 0 where
    pub before : List ℕ
    pub strm : S
    pub input : List ℕ
    pub rounds : Rounds z s0 i0 before strm input
    pub state : s ≡ (z strm input zs_chunk).strm
    pub verdict : Flushed (z strm input zs_chunk) (before ++ (z strm input zs_chunk).output) r

  -- Calls that wrote `n` bytes, with no end of the push among them.
  pub record Fills (s0 : S) (i0 : List ℕ) (n : ℕ) : Type 0 where
    pub out : List ℕ
    pub strm : S
    pub input : List ℕ
    pub rounds : Rounds z s0 i0 out strm input
    pub size : length out ≡ n

  deflate_loop-Flushes :
      (laws : IsDeflate z) (s0 : S) (i0 : List ℕ) (fuel : ℕ) (s : S) (input : List ℕ) (out : List ℕ)
      → Rounds z s0 i0 out s input
      → ((r : Outcome) × (s' : S) × (deflate_loop z fuel s input out ≡ some (r, s'))
          × Flushes s0 i0 r s')
        ⊎ ((deflate_loop z fuel s input out ≡ none) × Fills s0 i0 (length out + fuel * zs_chunk))
  unfolding deflate_loop
  deflate_loop-Flushes laws s0 i0 zero s input out rounds =
      inr (refl, record { out = out; strm = s; input = input; rounds = rounds; size = omega arith })
  deflate_loop-Flushes laws s0 i0 (suc fuel) s input out rounds =
      let b = z s input zs_chunk in
      let ends : (r : Outcome) → Flushed b (out ++ b.output) r → Flushes s0 i0 r b.strm = λ r v.
        record {
          before = out;
          strm = s;
          input = input;
          rounds = rounds;
          state = refl;
          verdict = v;
        } in
      elim (Bool-cases (deflate_fails b.code)) [
        | inl e ↦
            inl (failed b.code, b.strm, rw (e, deflate_loop) refl, ends (failed b.code) (refl, e))
        | inr e ↦ elim (Bool-cases (finished b)) [
          | inl h ↦
              let (taken, room) = finished_parts b.rest (length b.output) h in
              inl (
                pushed (out ++ b.output),
                b.strm,
                rw (e, h, deflate_loop) refl,
                ends (pushed (out ++ b.output)) (refl, e, taken, room),
              )
          | inr h ↦
              let least = unfinished b.rest (length b.output) h (laws.stops s input zs_chunk) in
              let most = laws.fits s input zs_chunk in
              let full : length (out ++ b.output) + fuel * zs_chunk
                  ≡ length out + suc fuel * zs_chunk =
                omega (arith, length-append out b.output, least, most) in
              elim (deflate_loop-Flushes laws s0 i0 fuel b.strm b.rest (out ++ b.output)
                (round out s input rounds)) [
                  | inl (r, s', eq, p) ↦ inl (r, s', rw (e, h, deflate_loop) eq, p)
                  | inr (eq, p) ↦ inr (rw (e, h, deflate_loop) eq, subst (Fills s0 i0) full p)
                ]
        ]
      ]

-- For a `deflate` that keeps to zlib's manual, and any fuel: a push on an open stream returns
-- and leaves it open, where it pushes all that the calls wrote, with the whole input taken in
-- and room left over, or fails with the code of a call that failed; or as many calls as the
-- fuel wrote a full chunk each, and it does not return with this fuel.
pub deflate_push-Flushes :
    {S : Type 0} (z : Codec S) (s0 : S) (input : List ℕ) (fuel : ℕ)
    → IsDeflate z
    → ((r : Outcome) × (s : S) × (deflate_push z fuel (record { strm = s0; closed = false }) input
          ≡ some (r, record { strm = s; closed = false }))
        × Flushes z s0 (fed input) r s)
      ⊎ ((deflate_push z fuel (record { strm = s0; closed = false }) input ≡ none)
          × Fills z s0 (fed input) (fuel * zs_chunk))
unfolding deflate_push
deflate_push-Flushes z s0 input fuel laws =
    elim (deflate_loop-Flushes z laws s0 (fed input) fuel s0 (fed input) [] start) [
      | inl (r, s, e, p) ↦ inl (r, s, rw (e, deflate_push) refl, p)
      | inr (e, p) ↦ inr (rw (e, deflate_push) refl, subst (Fills z s0 (fed input)) (omega arith) p)
    ]
