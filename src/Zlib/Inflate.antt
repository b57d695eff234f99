-- ===== src/Zlib/Inflate.antt =====
-- A push through an inflate stream ends, and stays under its limit.
use luadch.Common.{
  some, ℕ, zero, suc, ◌+◌, ◌-◌, ◌≤◌, ◌<◌, true, false, ◌&&◌, List, [], ◌∷◌, ◌++◌, some, ltb, length,
  length-append, length-take, ◌≡◌, refl, ap, ◌⊎◌, inl, inr, arith, Bool-cases, u32,
}
use luadch.Zlib.{
  Code, ok, stream_end, buf_error, need_dict, data_error, mem_error, stream_error, Answer, Codec,
  Outcome, pushed, failed, bomb, closed_error, zs_chunk, zs_inflate_max_per_push, inflate_fails,
  is_end, is_empty, finished, fed, inflate_loop, inflate_push,
}
use luadch.Zlib.Contract.{IsInflate, Rounds, start, round}

continues :
    (c : Code)
    → inflate_fails c ≡ false
    → is_end c ≡ false
    → (c ≡ ok) ⊎ ((c ≡ buf_error) ⊎ (c ≡ stream_error))
continues ok f e = inl refl
continues stream_end f e = absurd (ground arith)
continues buf_error f e = inr (inl refl)
continues need_dict f e = absurd (ground arith)
continues data_error f e = absurd (ground arith)
continues mem_error f e = absurd (ground arith)
continues stream_error f e = inr (inr refl)

is_finished :
    (s : List ℕ) (n : ℕ) → n < zs_chunk → length s ≡ 0 → (ltb n zs_chunk && is_empty s) ≡ true
is_finished [] n h e = ground arith
is_finished (x ∷ s) n h e = absurd (omega arith)

-- How the last call of a push decides the outcome, with all that the push wrote.
abbrev pub Verdict : {S : Type 0} → Answer S → List ℕ → Outcome → Type 0
Verdict a all (pushed out) =
    (out ≡ all)
    × (length out ≤ zs_inflate_max_per_push)
    × (inflate_fails a.code ≡ false)
    × ((is_end a.code ≡ true) ⊎ (finished a ≡ true))
Verdict a all (failed c) = (c ≡ a.code) × (inflate_fails c ≡ true)
Verdict a all bomb =
    (inflate_fails a.code ≡ false)
    × (zs_inflate_max_per_push < length all)
    × (length all ≤ zs_inflate_max_per_push + zs_chunk)
Verdict a all closed_error = ⊥

module _ {S : Type 0} (z : Codec S) where
  -- The calls of a push that ends with `r` and leaves the stream `s`.
  pub record Pushes (s0 : S) (i0 : List ℕ) (r : Outcome) (s : S) : Type 0 where
    pub before : List ℕ
    pub strm : S
    pub input : List ℕ
    pub rounds : Rounds z s0 i0 before strm input
    pub state : s ≡ (z strm input zs_chunk).strm
    pub verdict : Verdict (z strm input zs_chunk) (before ++ (z strm input zs_chunk).output) r

  module _ (laws : IsInflate z) (s : S) (input : List ℕ) where
    abbrev a : Answer S
    a = z s input zs_chunk

    rest-le : length a.rest ≤ length input
    rest-le =
        let (used, e) = laws.consumes s input zs_chunk in
        omega (arith, ap length e, length-append used a.rest)

    -- A call after which the loop goes on consumes a byte or writes one.
    goes_on :
        inflate_fails a.code ≡ false
        → is_end a.code ≡ false
        → finished a ≡ false
        → length a.rest < length input + length a.output
    goes_on f e g = elim (continues a.code f e) [
      | inl c ↦ elim (laws.progress s input zs_chunk (omega arith) c) [
        | inl p ↦ omega arith
        | inr p ↦ omega (arith, rest-le)
      ]
      | inr (inl c) ↦
          let (no_input, nothing) = laws.stuck s input zs_chunk (omega arith) c in
          let none_left : length a.rest ≡ 0 = omega (arith, rest-le, ap length no_input) in
          let over : finished a ≡ true =
            is_finished a.rest (length a.output) (omega (arith, ap length nothing)) none_left in
          absurd (ground (arith, over, g))
      | inr (inr c) ↦ absurd (laws.initialised s input zs_chunk c)
    ]

  -- The loop, from a point that some rounds lead to.
  inflate_loop-Pushes :
      (laws : IsInflate z) (s0 : S) (i0 : List ℕ) (fuel : ℕ) (s : S) (input : List ℕ) (total : ℕ)
      (out : List ℕ)
      → Rounds z s0 i0 out s input
      → total ≡ length out
      → length out ≤ zs_inflate_max_per_push
      → length input + (zs_inflate_max_per_push - length out) < fuel
      → (r : Outcome) × (s' : S) × (inflate_loop z fuel s input total out ≡ some (r, s'))
        × Pushes s0 i0 r s'
  unfolding inflate_loop
  inflate_loop-Pushes laws s0 i0 zero s input total out rounds count small enough =
      absurd (omega arith)
  inflate_loop-Pushes laws s0 i0 (suc fuel) s input total out rounds count small enough =
      let b = z s input zs_chunk in
      let ends : (r : Outcome) → Verdict b (out ++ b.output) r → Pushes s0 i0 r b.strm = λ r v.
        record {
          before = out;
          strm = s;
          input = input;
          rounds = rounds;
          state = refl;
          verdict = v;
        } in
      let size = length-append out b.output in
      let less : ltb zs_inflate_max_per_push (total + length b.output) ≡ false
          → length b.rest < length input + length b.output
          → length b.rest + (zs_inflate_max_per_push - length (out ++ b.output)) < fuel =
        λ f p. ground (arith, size) in
      elim (Bool-cases (inflate_fails b.code)) [
        | inl e ↦ (failed b.code, b.strm, rw (e, inflate_loop) refl, ends (failed b.code) (refl, e))
        | inr e ↦ elim (Bool-cases (ltb zs_inflate_max_per_push (total + length b.output))) [
          | inl f ↦ (
            bomb,
            b.strm,
            rw (e, f, inflate_loop) refl,
            ends bomb (e, ground (arith, size), omega (arith, size, laws.fits s input zs_chunk)),
          )
          | inr f ↦ elim (Bool-cases (is_end b.code)) [
            | inl g ↦ (
              pushed (out ++ b.output),
              b.strm,
              rw (e, f, g, inflate_loop) refl,
              ends (pushed (out ++ b.output)) (refl, ground (arith, size), e, inl g),
            )
            | inr g ↦ elim (Bool-cases (finished b)) [
              | inl h ↦ (
                pushed (out ++ b.output),
                b.strm,
                rw (e, f, g, h, inflate_loop) refl,
                ends (pushed (out ++ b.output)) (refl, ground (arith, size), e, inr h),
              )
              | inr h ↦
                  let (r, s', eq, p) =
                    inflate_loop-Pushes laws s0 i0 fuel b.strm b.rest (total + length b.output)
                      (out ++ b.output) (round out s input rounds) (omega (arith, size))
                      (ground (arith, size)) (less f (goes_on laws s input e g h)) in
                  (r, s', rw (e, f, g, h, inflate_loop) eq, p)
            ]
          ]
        ]
      ]

-- For an `inflate` that keeps to zlib's manual a push on an open stream returns and leaves it
-- open: it pushes all that the calls wrote, 4 MiB at most, at the end of the stream or when no
-- input was left and there was room; it fails with the code of a call that failed; or it stops
-- after the call that passes 4 MiB, at most a chunk above them.
pub inflate_push-Pushes :
    {S : Type 0} (z : Codec S) (s0 : S) (input : List ℕ)
    → IsInflate z
    → (r : Outcome) × (s : S) × (inflate_push z (record { strm = s0; closed = false }) input
        ≡ some (r, record { strm = s; closed = false }))
      × Pushes z s0 (fed input) r s
unfolding inflate_push
inflate_push-Pushes z s0 input laws =
    let enough : length (fed input) ≤ length input =
      omega (arith, length-take (u32 (length input)) input) in
    let (r, s, e, p) =
      inflate_loop-Pushes z laws s0 (fed input) (length input + zs_inflate_max_per_push + 1) s0
        (fed input) 0 [] start refl (omega arith) (omega arith) in
    (r, s, rw (e, inflate_push) refl, p)
