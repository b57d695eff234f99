-- ===== src/Zlib/Close.antt =====
-- A closed stream is not touched again.
use luadch.Common.{
  subst, ap, sym, ℕ, true, List, [], ◌∷◌, ◌++◌, Option, none, some, ◌≡◌, refl, Bool-cases, inl, inr,
}
use luadch.Zlib.{Codec, ZsState, Outcome, closed_error, inflate_push, deflate_push, zs_close}

-- The calls that a script can make on a stream, and the collector's.
pub data Call : Type 0 where
  push : List ℕ → Call
  close gc : Call

module _ {S : Type 0} (step : ZsState S → List ℕ → Option (Outcome × ZsState S)) (end : S → S) where
  -- A call's effect on the stream, with the outcome of a push.
  abbrev pub call : ZsState S → Call → Option (List Outcome × ZsState S)
  call st (push input) = elim (step st input) [ none ↦ none | some (r, st') ↦ some (r ∷ [], st') ]
  call st close = some ([], zs_close end st)
  call st gc = some ([], zs_close end st)

  -- The calls of a script, one after the other, with the outcomes of the pushes.
  pub calls : ZsState S → List Call → Option (List Outcome × ZsState S)
  calls st [] = some ([], st)
  calls st (c ∷ cs) = elim (call st c) [
    | none ↦ none
    | some (rs, st') ↦ elim (calls st' cs) [
      | none ↦ none
      | some (rs', st'') ↦ some (rs ++ rs', st'')
    ]
  ]

-- The error of each push in a list of calls.
abbrev pub refusals : List Call → List Outcome
refusals [] = []
refusals (push input ∷ cs) = closed_error ∷ refusals cs
refusals (close ∷ cs) = refusals cs
refusals (gc ∷ cs) = refusals cs

by_parts :
    {S : Type 0} (st : ZsState S) → st.closed ≡ true → st ≡ record { strm = st.strm; closed = true }
by_parts st e = ap (λ b. record { strm = st.strm; closed = b }) e

inflate_push-closed :
    {S : Type 0} (z : Codec S) (st : ZsState S) (input : List ℕ)
    → st.closed ≡ true
    → inflate_push z st input ≡ some (closed_error, st)
unfolding inflate_push
inflate_push-closed z st input e =
    subst (λ t. inflate_push z t input ≡ some (closed_error, t)) (sym (by_parts st e)) refl

deflate_push-closed :
    {S : Type 0} (z : Codec S) (fuel : ℕ) (st : ZsState S) (input : List ℕ)
    → st.closed ≡ true
    → deflate_push z fuel st input ≡ some (closed_error, st)
unfolding deflate_push
deflate_push-closed z fuel st input e =
    subst (λ t. deflate_push z fuel t input ≡ some (closed_error, t)) (sym (by_parts st e)) refl

zs_close-closed :
    {S : Type 0} (end : S → S) (st : ZsState S) → st.closed ≡ true → zs_close end st ≡ st
unfolding zs_close
zs_close-closed end st e = rw (e, zs_close) refl

closed_zs_close : {S : Type 0} (end : S → S) (st : ZsState S) → (zs_close end st).closed ≡ true
unfolding zs_close
closed_zs_close end st = elim (Bool-cases st.closed) [ inl e ↦ rw e refl | inr e ↦ rw e refl ]

calls-closed :
    {S : Type 0} (step : ZsState S → List ℕ → Option (Outcome × ZsState S)) (end : S → S)
    (st : ZsState S)
    → ((input : List ℕ) → step st input ≡ some (closed_error, st))
    → zs_close end st ≡ st
    → (cs : List Call) → calls step end st cs ≡ some (refusals cs, st)
unfolding calls
calls-closed step end st refuse stays [] = refl
calls-closed step end st refuse stays (push input ∷ cs) =
    rw (refuse input, calls-closed step end st refuse stays cs, calls) refl
calls-closed step end st refuse stays (close ∷ cs) =
    rw (stays, calls-closed step end st refuse stays cs, calls) refl
calls-closed step end st refuse stays (gc ∷ cs) =
    rw (stays, calls-closed step end st refuse stays cs, calls) refl

-- Behind a `close`, for any calls of push, close and the collector: each push is refused with
-- an error, and the stream stays as the first `End` left it, so that zlib is not called on it
-- again.
pub calls-zs_close :
    {S : Type 0} (z : Codec S) (end : S → S) (fuel : ℕ) (st : ZsState S) (cs : List Call)
    → (calls (inflate_push z) end (zs_close end st) cs ≡ some (refusals cs, zs_close end st))
      × (calls (deflate_push z fuel) end (zs_close end st) cs ≡ some (refusals cs, zs_close end st))
calls-zs_close z end fuel st cs =
    let done = zs_close end st in
    let e = closed_zs_close end st in
    (
      calls-closed (inflate_push z) end done (λ input. inflate_push-closed z done input e)
          (zs_close-closed end done e) cs,
      calls-closed (deflate_push z fuel) end done (λ input. deflate_push-closed z fuel done input e)
          (zs_close-closed end done e) cs,
    )
