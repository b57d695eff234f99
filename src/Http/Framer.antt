-- ===== src/Http/Framer.antt =====
-- The stage of `newhttpstage` in core/iostream.lua.
use luadch.Common.{
  ℕ, suc, ◌+◌, Bool, true, false, [], ◌++◌, Option, none, some, ltb, ◌==◌, if◌then◌else◌, length,
  take, drop,
}
use luadch.Http.{Bytes, Request, Reply, request, reject, max_req, find, end_of_headers}
use luadch.Http.Head.{Result, rejected, accepted, parse_head}

-- `buf`, `done`, and where `body_pending` holds `body_unit` and `body_target`.
pub record Framer : Type 0 where
  pub buf : Bytes
  pub done : Bool
  pub pending : Option (Request × ℕ)

-- The unit of a push, which never overflows, and the stage that it leaves.
pub record Emit : Type 0 where
  pub stage : Framer
  pub unit : Option Reply

-- `emit( unit )`, and a push that still waits.
abbrev pub emit : Framer → Reply → Emit
emit st u = record { stage = record st { done = true }; unit = some u }

abbrev pub waits : Framer → Emit
waits st = record { stage = st; unit = none }

-- `string_sub( buf, 1, body_target )` as the body, where that much is there.
unfoldable pub collect : Framer → Request → ℕ → Emit
collect st r target =
    if ltb (length st.buf) target
    then waits st
    else emit st (request (record r { body = take target st.buf }))

-- What follows the head that `hdrend`, from 0, ends.
unfoldable pub after_head : Framer → ℕ → Result (Request × ℕ) → Emit
after_head st hdrend (rejected status) = emit st (reject status)
after_head st hdrend (accepted (r, cl_num)) =
    if cl_num == 0
    then emit st (request r)
    else collect
        (record { buf = drop (hdrend + 4) st.buf; done = false; pending = some (r, cl_num) }) r
        cl_num

-- The state parsing-headers, with the chunk behind the buffer.
unfoldable pub parse : Framer → Emit
parse st = elim (find end_of_headers st.buf) [
  | none ↦ if ltb max_req (length st.buf) then emit st (reject 431) else waits st
  | some hdrend ↦
      if ltb max_req (suc hdrend)
      then emit st (reject 431)
      else after_head st hdrend (parse_head (take hdrend st.buf))
]

unfoldable pub push : Framer → Bytes → Emit
push st chunk =
    if st.done
    then waits st
    else (let st' = record st { buf = st.buf ++ chunk } in
        elim st.pending [ none ↦ parse st' | some (r, target) ↦ collect st' r target ])

-- `newhttpstage( )`
abbrev pub newhttpstage : Framer
newhttpstage = record { buf = []; done = false; pending = none }
