-- ===== src/Zlib.antt =====
-- The zlib binding, zlib_stream/zlib_stream.c. zlib itself is a parameter: a function for each of
-- `deflate` and `inflate`, and one for each of `deflateEnd` and `inflateEnd`, on the memory that a
-- `z_stream` stands for. The two chunks of a push, `next_out` of a round and the `luaL_Buffer`, are
-- lists of bytes.
pub mod Contract
pub mod Inflate
pub mod Deflate
pub mod RoundTrip
pub mod Close
pub mod Tests
mod PairTests
use luadch.Common.{
  ℕ, zero, suc, ◌+◌, ◌*◌, ◌-◌, ◌^◌, Bool, true, false, ◌&&◌, List, [], ◌∷◌, ◌++◌, Option, none,
  some, ltb, ◌==◌, if◌then◌else◌, length, take, u32,
}

-- The return codes of zlib, `Z_OK` and so on.
pub data Code : Type 0 where
  ok stream_end buf_error need_dict data_error mem_error stream_error : Code

-- A call's return code, what it left of `next_in`, what it wrote to `next_out`, and the stream.
pub record Answer (S : Type 0) : Type 0 where
  pub code : Code
  pub rest : List ℕ
  pub output : List ℕ
  pub strm : S

-- `deflate` or `inflate` with `Z_SYNC_FLUSH`, on a stream, `next_in` and `avail_out`.
abbrev pub Codec : Type 0 → Type 0
Codec S = S → List ℕ → ℕ → Answer S

pub record ZsState (S : Type 0) : Type 0 where
  pub strm : S
  pub closed : Bool

-- A string on the Lua stack, or one of the Lua errors.
pub data Outcome : Type 0 where
  pushed : List ℕ → Outcome
  failed : Code → Outcome
  bomb closed_error : Outcome

-- `ZS_CHUNK`, and `ZS_INFLATE_MAX_PER_PUSH`.
abbrev pub zs_chunk : ℕ
zs_chunk = 16384

abbrev pub zs_inflate_max_per_push : ℕ
zs_inflate_max_per_push = 4 * 1024 * 1024

-- `rc == Z_NEED_DICT || rc == Z_DATA_ERROR || rc == Z_MEM_ERROR`
abbrev pub inflate_fails : Code → Bool
inflate_fails need_dict = true
inflate_fails data_error = true
inflate_fails mem_error = true
inflate_fails _ = false

-- `rc != Z_OK && rc != Z_BUF_ERROR`
abbrev pub deflate_fails : Code → Bool
deflate_fails ok = false
deflate_fails buf_error = false
deflate_fails _ = true

abbrev pub is_end : Code → Bool
is_end stream_end = true
is_end _ = false

abbrev pub is_empty : List ℕ → Bool
is_empty [] = true
is_empty (x ∷ s) = false

-- `avail_out > 0 && avail_in == 0`
abbrev pub finished : {S : Type 0} → Answer S → Bool
finished a = ltb (length a.output) zs_chunk && is_empty a.rest

-- `avail_in`, a `uInt`.
abbrev pub fed : List ℕ → List ℕ
fed input = take (u32 (length input)) input

module _ {S : Type 0} (z : Codec S) where
  -- The loop of `inflate_push`, with `produced_total` and the buffer; `none` is fuel that ran out.
  unfoldable pub inflate_loop : ℕ → S → List ℕ → ℕ → List ℕ → Option (Outcome × S)
  inflate_loop zero s input total out = none
  inflate_loop (suc fuel) s input total out =
      let a = z s input zs_chunk in
      let total' = total + length a.output in
      let again = inflate_loop fuel a.strm a.rest total' (out ++ a.output) in
      if inflate_fails a.code
      then some (failed a.code, a.strm)
      else if ltb zs_inflate_max_per_push total'
      then some (bomb, a.strm)
      else if is_end a.code
      then some (pushed (out ++ a.output), a.strm)
      else if finished a
      then some (pushed (out ++ a.output), a.strm)
      else again

  unfoldable pub inflate_push : ZsState S → List ℕ → Option (Outcome × ZsState S)
  inflate_push st input = elim st.closed [
    | true ↦ some (closed_error, st)
    | false ↦
        elim (inflate_loop (length input + zs_inflate_max_per_push + 1) st.strm (fed input) 0 []) [
          | none ↦ none
          | some (r, s) ↦ some (r, record st { strm = s })
        ]
  ]

  -- The loop of `deflate_push`.
  unfoldable pub deflate_loop : ℕ → S → List ℕ → List ℕ → Option (Outcome × S)
  deflate_loop zero s input out = none
  deflate_loop (suc fuel) s input out =
      let a = z s input zs_chunk in
      let again = deflate_loop fuel a.strm a.rest (out ++ a.output) in
      if deflate_fails a.code
      then some (failed a.code, a.strm)
      else if finished a
      then some (pushed (out ++ a.output), a.strm)
      else again

  unfoldable pub deflate_push : ℕ → ZsState S → List ℕ → Option (Outcome × ZsState S)
  deflate_push fuel st input = elim st.closed [
    | true ↦ some (closed_error, st)
    | false ↦ elim (deflate_loop fuel st.strm (fed input) []) [
      | none ↦ none
      | some (r, s) ↦ some (r, record st { strm = s })
    ]
  ]

-- `inflate_close` with `inflateEnd`, and `deflate_close` with `deflateEnd`; `__gc` calls them.
unfoldable pub zs_close : {S : Type 0} → (S → S) → ZsState S → ZsState S
zs_close end st = if st.closed then st else record { strm = end st.strm; closed = true }

-- `level != Z_DEFAULT_COMPRESSION && (level < Z_NO_COMPRESSION || level > Z_BEST_COMPRESSION)`, for
-- the 32 bits of the `int`: a negative level is above 9 here.
abbrev pub is_invalid_level : ℕ → Bool
is_invalid_level level = if level == 2 ^ 32 - 1 then false else ltb 9 level

-- A stream, or one of the Lua errors of a constructor.
pub data Opened (S : Type 0) : Type 0 where
  opened : ZsState S → Opened S
  init_failed : Code → Opened S
  bad_level : ℕ → Opened S

abbrev is_ok : Code → Bool
is_ok ok = true
is_ok _ = false

-- `zlib_stream_inflate` with `inflateInit`, and `zlib_stream_gunzip` with `inflateInit2`.
pub zs_open : {S : Type 0} → Code × S → Opened S
zs_open (rc, s) = if is_ok rc then opened record { strm = s; closed = false } else init_failed rc

pub zlib_stream_deflate : {S : Type 0} → (ℕ → Code × S) → ℕ → Opened S
zlib_stream_deflate init level =
    if is_invalid_level level then bad_level level else zs_open (init level)
