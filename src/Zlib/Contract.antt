-- ===== src/Zlib/Contract.antt =====
-- What zlib's manual says of `inflate` and `deflate`, and the calls that a push makes.
use luadch.Common.{ℕ, ◌≤◌, ◌<◌, List, [], ◌++◌, length, ◌≡◌, ◌≢◌, ◌⊎◌}
use luadch.Zlib.{Codec, ok, buf_error, stream_error, zs_chunk}

module _ {S : Type 0} (z : Codec S) where
  -- `inflate` writes no more than fits and consumes a front part of its input; `Z_OK` says that it
  -- consumed or wrote something and `Z_BUF_ERROR` that nothing was possible, which with room for
  -- output is that there was no input. `Z_STREAM_ERROR` is for a stream that was not initialised.
  pub record IsInflate : Type 0 where
    pub fits : (s : S) (input : List ℕ) (room : ℕ) → length (z s input room).output ≤ room
    pub consumes :
        (s : S) (input : List ℕ) (room : ℕ)
        → (used : List ℕ) × (input ≡ used ++ (z s input room).rest)
    pub progress :
        (s : S) (input : List ℕ) (room : ℕ)
        → 0 < room
        → (z s input room).code ≡ ok
        → (length (z s input room).rest < length input) ⊎ (1 ≤ length (z s input room).output)
    pub stuck :
        (s : S) (input : List ℕ) (room : ℕ)
        → 0 < room
        → (z s input room).code ≡ buf_error
        → (input ≡ []) × ((z s input room).output ≡ [])
    pub initialised : (s : S) (input : List ℕ) (room : ℕ) → (z s input room).code ≢ stream_error

  -- `deflate` stops when the input is empty or the output is full, and writes no more than fits.
  pub record IsDeflate : Type 0 where
    pub stops :
        (s : S) (input : List ℕ) (room : ℕ)
        → ((z s input room).rest ≡ []) ⊎ (length (z s input room).output ≡ room)
    pub fits : (s : S) (input : List ℕ) (room : ℕ) → length (z s input room).output ≤ room

  -- Calls with a full chunk of room, one after the other, and all that they wrote.
  pub data Rounds (s0 : S) (i0 : List ℕ) : List ℕ → S → List ℕ → Type 0 where
    start : Rounds s0 i0 [] s0 i0
    round :
        (out : List ℕ) (s : S) (input : List ℕ)
        → Rounds s0 i0 out s input
        → Rounds s0 i0
            (out ++ (z s input zs_chunk).output)
            (z s input zs_chunk).strm
            (z s input zs_chunk).rest
