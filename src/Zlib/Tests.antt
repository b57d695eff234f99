-- ===== src/Zlib/Tests.antt =====
-- A codec that keeps to the contracts, and the theorems at concrete inputs.
use luadch.Common.{
  ℕ, zero, suc, ◌+◌, ◌*◌, ◌≤◌, ◌<◌, List, [], ◌∷◌, none, some, false, length, take, drop, ◌≡◌, ◌≢◌,
  refl, sym, ◌∙◌, ◌⊎◌, inl, inr, arith, length-take, take-append-drop, drop_all, Bool-cases, leb,
}
use luadch.Zlib.{
  Code, ok, buf_error, stream_error, Codec, ZsState, Outcome, pushed, fed, zs_chunk, inflate_push,
  inflate_loop, deflate_push, zs_close,
}
use luadch.Zlib.Contract.{IsInflate, IsDeflate}
use luadch.Zlib.Inflate.{Pushes, inflate_push-Pushes}
use luadch.Zlib.Deflate.{Flushes, Fills, deflate_push-Flushes}
use luadch.Zlib.Close.{Call, push, close, gc, calls, refusals, calls-zs_close}

abbrev pub code_for : List ℕ → Code
code_for [] = buf_error
code_for (x ∷ s) = ok

-- Copies what fits, on a stream that counts its calls.
abbrev pub copy : Codec ℕ
copy s input room = record {
  code = code_for input;
  rest = drop room input;
  output = take room input;
  strm = s + 1;
}

copy_progress :
    (input : List ℕ) (room : ℕ) → 0 < room → code_for input ≡ ok → 1 ≤ length (take room input)
copy_progress [] room h e = absurd (ground arith)
copy_progress (x ∷ s) zero h e = absurd (omega arith)
copy_progress (x ∷ s) (suc room) h e = omega arith

pub copy_stuck :
    (input : List ℕ) (room : ℕ) → code_for input ≡ buf_error → (input ≡ []) × (take room input ≡ [])
copy_stuck [] zero e = (refl, refl)
copy_stuck [] (suc room) e = (refl, refl)
copy_stuck (x ∷ s) room e = absurd (ground arith)

pub copy_initialised : (input : List ℕ) → code_for input ≢ stream_error
copy_initialised [] e = ground arith
copy_initialised (x ∷ s) e = ground arith

pub copy-IsInflate : IsInflate copy
copy-IsInflate = record {
  fits = λ s input room. omega (arith, length-take room input);
  consumes = λ s input room. (take room input, sym (take-append-drop room input));
  progress = λ s input room h e. inr (copy_progress input room h e);
  stuck = λ s input room h e. copy_stuck input room e;
  initialised = λ s input room. copy_initialised input;
}

pub copy_stops :
    (input : List ℕ) (room : ℕ) → (drop room input ≡ []) ⊎ (length (take room input) ≡ room)
copy_stops input room = elim (Bool-cases (leb (length input) room)) [
  | inl e ↦ inl (drop_all room input (ground arith))
  | inr e ↦ inr (length-take room input ∙ ground arith)
]

copy-IsDeflate : IsDeflate copy
copy-IsDeflate = record {
  stops = λ s input room. copy_stops input room;
  fits = λ s input room. omega (arith, length-take room input);
}

abbrev hello : List ℕ
hello = b'h' ∷ b'i' ∷ []

-- One call copies the two bytes.
pushed_hello :
    inflate_push copy (record { strm = 0; closed = false }) hello
    ≡ some (pushed hello, record { strm = 1; closed = false })
unfolding inflate_push inflate_loop
pushed_hello = refl

inflate_push-Pushes_example :
    (r : Outcome) × (s : ℕ) × (inflate_push copy (record { strm = 0; closed = false }) hello
      ≡ some (r, record { strm = s; closed = false }))
    × Pushes copy 0 (fed hello) r s
inflate_push-Pushes_example = inflate_push-Pushes copy 0 hello copy-IsInflate

deflate_push-Flushes_example :
    ((r : Outcome) × (s : ℕ) × (deflate_push copy 3 (record { strm = 0; closed = false }) hello
        ≡ some (r, record { strm = s; closed = false }))
      × Flushes copy 0 (fed hello) r s)
    ⊎ ((deflate_push copy 3 (record { strm = 0; closed = false }) hello ≡ none)
        × Fills copy 0 (fed hello) (3 * zs_chunk))
deflate_push-Flushes_example = deflate_push-Flushes copy 0 hello 3 copy-IsDeflate

abbrev stream : ZsState ℕ
stream = record { strm = 5; closed = false }

abbrev script : List Call
script = push hello ∷ close ∷ gc ∷ []

calls-zs_close_example :
    (calls (inflate_push copy) suc (zs_close suc stream) script
      ≡ some (refusals script, zs_close suc stream))
    × (calls (deflate_push copy 9) suc (zs_close suc stream) script
        ≡ some (refusals script, zs_close suc stream))
calls-zs_close_example = calls-zs_close copy suc 9 stream script
