-- ===== src/Iostream/Pipeline.antt =====
-- The inbound pipeline, `_newpipeline` and `newpipeline` of core/iostream.lua.
use luadch.Common.{ℕ, zero, suc, Bool, false, ◌||◌, List, [], ◌∷◌, ◌++◌, Option, none, some, length}
use luadch.Zlib.{Outcome}
use luadch.Iostream.{Bytes, Stage, adcline, Push, push, residual}

-- `stages` from the socket on, `input_buf`, `sticky_overflow` and the queue `deferred`.
pub record Pipeline (S : Type 0) : Type 0 where
  pub stages : List (Stage S)
  pub input_buf : Bytes
  pub sticky_overflow : Bool
  pub deferred : List Bytes

-- What a call on a pipeline returns, the pipeline it leaves, and what stages called back with.
pub record Next (S : Type 0) : Type 0 where
  pub pipeline : Pipeline S
  pub unit : Option Bytes
  pub overflow : Bool
  pub blobs : List Bytes

-- What `_pull` did to the stages: `latched` where a stage above the last one overflowed.
pub record Pull (S : Type 0) : Type 0 where
  pub stages : List (Stage S)
  pub unit : Option Bytes
  pub overflow : Bool
  pub latched : Bool
  pub blobs : List Bytes

abbrev pub or_empty : Option Bytes → Bytes
or_empty none = []
or_empty (some s) = s

unfoldable pub feed : {S : Type 0} → Pipeline S → Bytes → Pipeline S
feed p bytes = record p { input_buf = p.input_buf ++ bytes }

-- What `drain` returns, the pipeline it leaves, and what stages called back with.
pub record Drained (S : Type 0) : Type 0 where
  pub pipeline : Pipeline S
  pub frames : List Bytes
  pub overflow : Bool
  pub blobs : List Bytes

abbrev pub drained_next : {S : Type 0} → Next S → Option (Drained S) → Option (Drained S)
drained_next a more = elim a.unit [
  | none ↦
      some record { pipeline = a.pipeline; frames = []; overflow = a.overflow; blobs = a.blobs }
  | some frame ↦ elim more [
    | none ↦ none
    | some d ↦ some record {
      pipeline = d.pipeline;
      frames = frame ∷ d.frames;
      overflow = a.overflow || d.overflow;
      blobs = a.blobs ++ d.blobs;
    }
  ]
]

unfoldable pub prepend : {S : Type 0} → Pipeline S → Stage S → Pipeline S
prepend p st = elim p.stages [
  | [] ↦ record p { stages = st ∷ [] }
  | first ∷ others ↦
      let (r, first') = residual first in
      record p { stages = st ∷ (first' ∷ others); input_buf = r ++ p.input_buf }
]

-- The frames of the eager loop, the terminal it leaves and whether a push overflowed.
pub record Eager (S : Type 0) : Type 0 where
  pub terminal : Stage S
  pub frames : List Bytes
  pub overflow : Bool

-- `term_out ~= ""`
abbrev pub queued : Bytes → List Bytes
queued [] = []
queued (b ∷ s) = (b ∷ s) ∷ []

abbrev pub eager_next : {S : Type 0} → Push S → Option (Eager S) → Option (Eager S)
eager_next a more = elim a.unit [
  | none ↦ some record { terminal = a.stage; frames = []; overflow = a.overflow }
  | some out ↦ elim more [
    | none ↦ none
    | some e ↦ some record {
      terminal = e.terminal;
      frames = queued out ++ e.frames;
      overflow = a.overflow || e.overflow;
    }
  ]
]

-- The last stage, behind the first, and those before it.
unfoldable pub split_terminal : {S : Type 0} → Stage S → List (Stage S) → List (Stage S) × Stage S
split_terminal st [] = ([], st)
split_terminal st (st' ∷ sts) =
    let (front, terminal) = split_terminal st' sts in (st ∷ front, terminal)

module _ {S : Type 0} (zpush : S → Bytes → Outcome × S) where
  -- `_pull( #stages )`, from the first stage on: each stage is pushed once, the first the input
  -- and each other one what the stage before it gave.
  unfoldable pub pull : List (Stage S) → Bytes → Pull S
  pull [] input = record { stages = []; unit = none; overflow = false; latched = false; blobs = [] }
  pull (st ∷ []) input =
      let a = push zpush st input in
      record {
        stages = a.stage ∷ [];
        unit = a.unit;
        overflow = a.overflow;
        latched = false;
        blobs = a.blobs;
      }
  pull (st ∷ (st' ∷ sts)) input =
      let a = push zpush st input in
      let rest = pull (st' ∷ sts) (or_empty a.unit) in
      record {
        stages = a.stage ∷ rest.stages;
        unit = rest.unit;
        overflow = rest.overflow;
        latched = a.overflow || rest.latched;
        blobs = a.blobs ++ rest.blobs;
      }

  -- `next_frame` on the queue and, where the queue is empty, on the stages.
  unfoldable pub next_frame : Pipeline S → Next S
  next_frame p = elim p.deferred [
    | first ∷ others ↦ record {
      pipeline = record p { sticky_overflow = false; deferred = others };
      unit = some first;
      overflow = p.sticky_overflow;
      blobs = [];
    }
    | [] ↦
        let a = pull p.stages p.input_buf in
        record {
          pipeline = record {
            stages = a.stages;
            input_buf = [];
            sticky_overflow = false;
            deferred = [];
          };
          unit = a.unit;
          overflow = a.overflow || (p.sticky_overflow || a.latched);
          blobs = a.blobs;
        }
  ]

  -- The loop of `drain`; `none` is fuel that ran out.
  unfoldable pub drain : ℕ → Pipeline S → Option (Drained S)
  drain zero p = none
  drain (suc fuel) p = let a = next_frame p in drained_next a (drain fuel a.pipeline)

  -- The loop of `insert_before_terminal`; `none` is fuel that ran out.
  unfoldable pub eager_drain : ℕ → Stage S → Bytes → Option (Eager S)
  eager_drain zero terminal chunk = none
  eager_drain (suc fuel) terminal chunk =
      let a = push zpush terminal chunk in eager_next a (eager_drain fuel a.stage [])

  -- The eager loop, on what the new stage gave.
  unfoldable pub settled :
      Pipeline S → List (Stage S) → Push S → Stage S → Bytes → Option (Pipeline S × List Bytes)
  settled p front a terminal [] = some (
    record p {
      stages = front ++ (a.stage ∷ (terminal ∷ []));
      sticky_overflow = p.sticky_overflow || a.overflow;
    },
    a.blobs,
  )
  settled p front a terminal (b ∷ out) =
      elim (eager_drain (suc (suc (length out))) terminal (b ∷ out)) [
        | none ↦ none
        | some e ↦ some (
          record p {
            stages = front ++ (a.stage ∷ (e.terminal ∷ []));
            sticky_overflow = p.sticky_overflow || (a.overflow || e.overflow);
            deferred = p.deferred ++ e.frames;
          },
          a.blobs,
        )
      ]

  -- The pipeline with the new stage pushed the residual, and what that called back with.
  unfoldable pub spliced :
      Pipeline S → List (Stage S) → Stage S → Bytes → Stage S → Option (Pipeline S × List Bytes)
  spliced p front st [] terminal = some (record p { stages = front ++ (st ∷ (terminal ∷ [])) }, [])
  spliced p front st (b ∷ r) terminal =
      let a = push zpush st (b ∷ r) in settled p front a terminal (or_empty a.unit)

  unfoldable pub insert_before_terminal : Pipeline S → Stage S → Option (Pipeline S × List Bytes)
  insert_before_terminal p st = elim p.stages [
    | [] ↦ some (prepend p st, [])
    | first ∷ [] ↦ some (prepend p st, [])
    | first ∷ (second ∷ others) ↦
        let (front, terminal) = split_terminal first (second ∷ others) in
        let (r, terminal') = residual terminal in spliced p front st r terminal'
  ]

-- `newpipeline( maxlen )`
pub newpipeline : {S : Type 0} → ℕ → Pipeline S
newpipeline maxlen = record {
  stages = adcline maxlen [] ∷ [];
  input_buf = [];
  sticky_overflow = false;
  deferred = [];
}
