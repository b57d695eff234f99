-- ===== src/Zlib/RoundTrip.antt =====
-- A push through a deflate stream, and the push of its bytes through the inflate stream of the peer.
use luadch.Common.{
  ℕ, ◌≤◌, ◌<◌, ◌^◌, true, false, List, [], ◌++◌, none, some, some-injective, length, length-append,
  take_all, u32, append-nil, ◌≡◌, ◌≢◌, ap, sym, ◌∙◌, subst, ◌⊎◌, inl, inr, arith,
}
use luadch.Zlib.{
  Code, mem_error, Answer, Codec, Outcome, pushed, failed, bomb, closed_error, zs_chunk,
  zs_inflate_max_per_push, inflate_fails, deflate_fails, is_end, fed, inflate_push, deflate_push,
}
use luadch.Zlib.Contract.{IsInflate, IsDeflate, Rounds}
use luadch.Zlib.Inflate.{Verdict, inflate_push-Pushes}
use luadch.Zlib.Deflate.{finished_parts, Flushes, deflate_push-Flushes}

fed_all : (s : List ℕ) → length s < 2 ^ 32 → fed s ≡ s
fed_all s h = take_all (u32 (length s)) s (omega arith)

option_apart : {A : Type 0} (x : A) → none ≢ some x
option_apart x h =
    let t : false ≡ true = ap (λ r. elim r [ some e ↦ true | none ↦ false ]) h in ground arith

-- A call of `deflate` that completes a flush: it returns with all the input taken in and room left.
abbrev pub IsComplete : {D : Type 0} → Answer D → Type 0
IsComplete a = (deflate_fails a.code ≡ false) × (a.rest ≡ []) × (length a.output < zs_chunk)

module _ {D S : Type 0} (zd : Codec D) (zi : Codec S) (Paired : D → S → Type 0) where
  -- What a call of `inflate` does after calls that wrote `out`, where `deflate` was given `i` and
  -- left `d`: it has no memory, or writes on in `i`, and has written all of it when it returns with
  -- no input and room left.
  abbrev pub Restores : List ℕ → List ℕ → D → Answer S → Type 0
  Restores i out d a =
      (a.code ≡ mem_error)
      ⊎ ((inflate_fails a.code ≡ false)
          × (is_end a.code ≡ false)
          × (more : List ℕ) × (i ≡ (out ++ a.output) ++ more)
          × (a.rest ≡ [] → length a.output < zs_chunk → (more ≡ []) × Paired d a.strm))

  -- zlib's manual on `Z_SYNC_FLUSH`: from what the calls of a completed flush wrote, the
  -- decompressor of the other side gets all the input that was available so far, and no more.
  pub record IsPaired : Type 0 where
    pub restores :
        (d d1 : D) (s s1 : S) (i before j out w : List ℕ)
        → Paired d s
        → Rounds zd d i before d1 j
        → IsComplete (zd d1 j zs_chunk)
        → Rounds zi s (before ++ (zd d1 j zs_chunk).output) out s1 w
        → Restores i out (zd d1 j zs_chunk).strm (zi s1 w zs_chunk)

  -- The input, or no memory.
  abbrev pub Restored : List ℕ → D → Outcome → S → Type 0
  Restored i d r s = (r ≡ failed mem_error) ⊎ ((r ≡ pushed i) × Paired d s)

  apart : (x : Code) → inflate_fails x ≡ true → inflate_fails x ≡ false → ⊥
  apart x f g = let t : true ≡ false = sym f ∙ g in ground arith

  no_memory : (c : Code) → c ≡ mem_error → inflate_fails c ≡ true
  no_memory c e = ap inflate_fails e

  decided :
      (r : Outcome) (a : Answer S) (i out : List ℕ) (d : D)
      → length i ≤ zs_inflate_max_per_push
      → Verdict a (out ++ a.output) r
      → Restores i out d a
      → Restored i d r a.strm
  decided (pushed o) a i out d few (same, small, ok, over) (inl m) =
      absurd (apart a.code (no_memory a.code m) ok)
  decided (pushed o) a i out d few (same, small, ok, inl e) (inr (f, g, more, all, done)) =
      let t : true ≡ false = sym e ∙ g in absurd (ground arith)
  decided (pushed o) a i out d few (same, small, ok, inr e) (inr (f, g, more, all, done)) =
      let (taken, room) = finished_parts a.rest (length a.output) e in
      let (nothing, paired) = done taken room in
      let whole : i ≡ out ++ a.output =
        all ∙ ap (λ x. (out ++ a.output) ++ x) nothing ∙ append-nil (out ++ a.output) in
      inr (ap pushed (same ∙ sym whole), paired)
  decided (failed c) a i out d few (same, e) (inl m) = inl (ap failed (same ∙ m))
  decided (failed c) a i out d few (same, e) (inr (f, g, more, all, done)) =
      absurd (apart a.code (ap inflate_fails (sym same) ∙ e) f)
  decided bomb a i out d few (ok, big, most) (inl m) = absurd (apart a.code (no_memory a.code m) ok)
  decided bomb a i out d few (ok, big, most) (inr (f, g, more, all, done)) =
      absurd (omega (arith, big, few, ap length all, length-append (out ++ a.output) more))
  decided closed_error a i out d few v h = absurd v

  flushed-Restored :
      (d d' : D) (s : S) (i packed : List ℕ)
      → IsInflate zi
      → IsPaired
      → Paired d s
      → length i ≤ zs_inflate_max_per_push
      → length packed < 2 ^ 32
      → Flushes zd d i (pushed packed) d'
      → (r : Outcome) × (s' : S) × (inflate_push zi (record { strm = s; closed = false }) packed
          ≡ some (r, record { strm = s'; closed = false }))
        × Restored i d' r s'
  flushed-Restored d d' s i packed laws pair start few short p =
      let (r, s', e, q) = inflate_push-Pushes zi s packed laws in
      let (same, ok, taken, room) = p.verdict in
      let rounds =
        subst (λ x. Rounds zi s x q.before q.strm q.input) (fed_all packed short ∙ same) q.rounds in
      let end =
        decided r (zi q.strm q.input zs_chunk) i q.before (zd p.strm p.input zs_chunk).strm few
          q.verdict
          (pair.restores d p.strm s q.strm i p.before p.input q.before q.input start p.rounds
            (ok, taken, room) rounds) in
      (
        r,
        s',
        e,
        subst (λ x. Restored i x r s') (sym p.state)
            (subst (Restored i (zd p.strm p.input zs_chunk).strm r) (sym q.state) end),
      )

  -- For a `deflate` and an `inflate` that keep to zlib's manual, on two streams that are
  -- paired, which means that the calls of `inflate` on what the calls of a completed flush
  -- wrote give all of its input and no more, or fail for want of memory; for an input of 4 MiB
  -- at most, and fewer than 2^32 bytes that `deflate_push` pushes for it: `inflate_push` of
  -- these bytes returns, and pushes the input and leaves the streams paired, or fails with the
  -- code for want of memory.
  pub inflate_push-deflate_push :
      (d d' : D) (s : S) (fuel : ℕ) (input packed : List ℕ)
      → IsDeflate zd
      → IsInflate zi
      → IsPaired
      → Paired d s
      → length input ≤ zs_inflate_max_per_push
      → length packed < 2 ^ 32
      → deflate_push zd fuel (record { strm = d; closed = false }) input
        ≡ some (pushed packed, record { strm = d'; closed = false })
      → (r : Outcome) × (s' : S) × (inflate_push zi (record { strm = s; closed = false }) packed
          ≡ some (r, record { strm = s'; closed = false }))
        × Restored input d' r s'
  inflate_push-deflate_push d d' s fuel input packed laws laws' pair start few short done =
      elim (deflate_push-Flushes zd d input fuel laws) [
        | inl (r, d1, e, p) ↦
            let same = some-injective _ _ (sym e ∙ done) in
            let all = fed_all input (omega arith) in
            flushed-Restored d d' s input packed laws' pair start few short (
              subst (λ x. Flushes zd d input (pushed packed) x) (ap (λ x. x.1.strm) same)
                (subst (λ x. Flushes zd d input x d1) (ap (λ x. x.0) same)
                  (subst (λ x. Flushes zd d x r d1) all p)))
        | inr (e, p) ↦ absurd (option_apart _ (sym e ∙ done))
      ]
