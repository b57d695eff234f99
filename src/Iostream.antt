-- ===== src/Iostream.antt =====
-- The byte pipelines of a connection, core/iostream.lua: the stages that reshape what a socket
-- reads, each with its state. A stage's closure is a constructor with the closure's variables. The
-- two `push` of zlib_stream's objects are parameters; Iostream/Bomb takes the model's for inflate.
pub mod Pipeline
pub mod Outbound
pub mod Lines
pub mod Quiet
pub mod Feeds
pub mod Reads
pub mod Capture
pub mod Splice
pub mod Bomb
pub mod Caps
mod Tests
use luadch.Common.{
  ℕ, zero, suc, ◌+◌, ◌-◌, Bool, true, false, List, [], ◌∷◌, ◌++◌, Option, none, some, ltb, leb,
  ◌==◌, if◌then◌else◌, length, take, drop,
}
use luadch.Zlib.{Outcome, pushed, failed, bomb, closed_error}

abbrev pub Bytes : Type 0
Bytes = List ℕ

-- The stages with `push`: the cap and the buffer of the line framer, the chunk that a passthrough
-- keeps, the stream of an inflate stage, and `remaining`, `pieces` and `fired` of a capture.
pub data Stage (S : Type 0) : Type 0 where
  adcline : ℕ → Bytes → Stage S
  passthrough : Option Bytes → Stage S
  inflate : S → Stage S
  counted : ℕ → List Bytes → Bool → Stage S

-- What a `push` returns, the stage that it leaves, and the arguments that it gave `callback`.
pub record Push (S : Type 0) : Type 0 where
  pub stage : Stage S
  pub unit : Option Bytes
  pub overflow : Bool
  pub blobs : List Bytes

-- A push that calls nothing back.
abbrev pub gives : {S : Type 0} → Stage S → Option Bytes → Bool → Push S
gives st u ov = record { stage = st; unit = u; overflow = ov; blobs = [] }

-- `string_find( buf, "\n", 1, true )`, from 0.
unfoldable pub find_newline : Bytes → Option ℕ
find_newline [] = none
find_newline (b ∷ s) =
    if b == b'\n' then some 0 else elim (find_newline s) [ none ↦ none | some i ↦ some (suc i) ]

-- `string_gsub( s, "\r", "" )`
unfoldable pub without_cr : Bytes → Bytes
without_cr [] = []
without_cr (b ∷ s) = if b == b'\r' then without_cr s else b ∷ without_cr s

-- `table_concat( pieces, "", 1, n )`
unfoldable pub table_concat : List Bytes → Bytes
table_concat [] = []
table_concat (s ∷ ss) = s ++ table_concat ss

-- `push` of the line framer, on the buffer with the chunk behind it.
unfoldable pub frame_line : {S : Type 0} → ℕ → Bytes → Push S
frame_line maxlen buf = elim (find_newline buf) [
  | none ↦ gives (adcline maxlen buf) none (ltb maxlen (length buf))
  | some nl ↦
      let frame = without_cr (take nl buf) in
      gives (adcline maxlen (drop (suc nl) buf)) (some frame) (ltb maxlen (length frame))
]

unfoldable pub passthrough_push : {S : Type 0} → Option Bytes → Bytes → Push S
passthrough_push pending [] = gives (passthrough none) pending false
passthrough_push pending (b ∷ s) = gives (passthrough none) (some (b ∷ s)) false

-- `out`, or nothing where it is empty.
abbrev pub nonempty : Bytes → Option Bytes
nonempty [] = none
nonempty (b ∷ s) = some (b ∷ s)

-- What `pcall( strm.push, strm, chunk )` gave; each error of the binding is a close.
unfoldable pub inflated : {S : Type 0} → Outcome → S → Push S
inflated (pushed out) s = gives (inflate s) (nonempty out) false
inflated (failed c) s = gives (inflate s) none true
inflated bomb s = gives (inflate s) none true
inflated closed_error s = gives (inflate s) none true

unfoldable pub inflate_stage_push : {S : Type 0} → (S → Bytes → Outcome × S) → S → Bytes → Push S
inflate_stage_push zpush s [] = gives (inflate s) none false
inflate_stage_push zpush s (b ∷ chunk) = let (r, s') = zpush s (b ∷ chunk) in inflated r s'

-- `push` of a capture that still waits for bytes, on a chunk.
unfoldable pub capture : {S : Type 0} → ℕ → List Bytes → Bytes → Push S
capture remaining pieces chunk =
    if leb (length chunk) remaining
    then (if remaining - length chunk == 0
        then record {
          stage = counted 0 [] true;
          unit = none;
          overflow = false;
          blobs = table_concat (pieces ++ (chunk ∷ [])) ∷ [];
        }
        else gives (counted (remaining - length chunk) (pieces ++ (chunk ∷ [])) false) none false)
    else record {
      stage = counted 0 [] true;
      unit = some (drop remaining chunk);
      overflow = false;
      blobs = table_concat (pieces ++ (take remaining chunk ∷ [])) ∷ [];
    }

unfoldable pub counted_push : {S : Type 0} → ℕ → List Bytes → Bool → Bytes → Push S
counted_push remaining pieces fired [] = gives (counted remaining pieces fired) none false
counted_push remaining pieces fired (b ∷ s) =
    if fired
    then gives (counted remaining pieces true) (some (b ∷ s)) false
    else capture remaining pieces (b ∷ s)

-- `stage:push( chunk )`
unfoldable pub push : {S : Type 0} → (S → Bytes → Outcome × S) → Stage S → Bytes → Push S
push zpush (adcline maxlen buf) chunk = frame_line maxlen (buf ++ chunk)
push zpush (passthrough pending) chunk = passthrough_push pending chunk
push zpush (inflate s) chunk = inflate_stage_push zpush s chunk
push zpush (counted remaining pieces fired) chunk = counted_push remaining pieces fired chunk

-- `stage:residual( )`, with the stage that it leaves.
unfoldable pub residual : {S : Type 0} → Stage S → Bytes × Stage S
residual (adcline maxlen buf) = (buf, adcline maxlen [])
residual (passthrough none) = ([], passthrough none)
residual (passthrough (some s)) = (s, passthrough none)
residual (inflate s) = ([], inflate s)
residual (counted remaining pieces fired) = ([], counted remaining pieces fired)
