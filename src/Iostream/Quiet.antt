-- ===== src/Iostream/Quiet.antt =====
-- The stages in front of the line framer, and a pull through them.
use luadch.Common.{
  ℕ, Bool, true, false, ◌||◌, List, [], ◌∷◌, ◌++◌, none, some, ◌≡◌, refl, ap, Bool-cases,
  Option-cases, inl, inr, leb, length, ◌==◌, ◌-◌, All,
}
use luadch.Zlib.{Outcome, pushed, failed, bomb, closed_error}
use luadch.Iostream.{
  Bytes, Stage, adcline, passthrough, inflate, counted, Push, gives, push, find_newline, frame_line,
  passthrough_push, inflated, inflate_stage_push, capture, counted_push,
}
use luadch.Iostream.Pipeline.{Pull, pull, or_empty}

-- A stage that may stand in front: any but a framer, with nothing pending.
abbrev pub IsFront : {S : Type 0} → Stage S → Type 0
IsFront (adcline maxlen buf) = ⊥
IsFront (passthrough none) = Unit
IsFront (passthrough (some s)) = ⊥
IsFront (inflate s) = Unit
IsFront (counted remaining pieces fired) = Unit

-- What the stages in front made of a chunk, and the stages that it left.
pub record Through (S : Type 0) : Type 0 where
  pub stages : List (Stage S)
  pub out : Bytes
  pub latched : Bool
  pub blobs : List Bytes

module _ {S : Type 0} (zpush : S → Bytes → Outcome × S) where
  -- A chunk through one stage after the other.
  unfoldable pub through : List (Stage S) → Bytes → Through S
  through [] chunk = record { stages = []; out = chunk; latched = false; blobs = [] }
  through (st ∷ sts) chunk =
      let a = push zpush st chunk in
      let t = through sts (or_empty a.unit) in
      record {
        stages = a.stage ∷ t.stages;
        out = t.out;
        latched = a.overflow || t.latched;
        blobs = a.blobs ++ t.blobs;
      }

  -- An empty chunk does nothing to a stage in front.
  pub push-IsFront : (st : Stage S) → IsFront st → push zpush st [] ≡ gives st none false
  unfolding push passthrough_push inflate_stage_push counted_push
  push-IsFront (adcline maxlen buf) h = absurd h
  push-IsFront (passthrough none) h = refl
  push-IsFront (passthrough (some s)) h = absurd h
  push-IsFront (inflate s) h = refl
  push-IsFront (counted remaining pieces fired) h = refl

  inflated-IsFront : (r : Outcome) (s : S) → IsFront (inflated r s).stage
  unfolding inflated
  inflated-IsFront (pushed out) s = tt
  inflated-IsFront (failed c) s = tt
  inflated-IsFront bomb s = tt
  inflated-IsFront closed_error s = tt

  capture-IsFront :
      (remaining : ℕ) (pieces : List Bytes) (chunk : Bytes)
      → IsFront (capture {S = S} remaining pieces chunk).stage
  unfolding capture
  capture-IsFront remaining pieces chunk = elim (Bool-cases (leb (length chunk) remaining)) [
    | inl e ↦ elim (Bool-cases (remaining - length chunk == 0)) [
      | inl f ↦ rw (e, f) tt
      | inr f ↦ rw (e, f) tt
    ]
    | inr e ↦ rw e tt
  ]

  -- A stage in front stays one.
  stage_push-IsFront :
      (st : Stage S) (chunk : Bytes) → IsFront st → IsFront (push zpush st chunk).stage
  unfolding push passthrough_push inflate_stage_push counted_push
  stage_push-IsFront (adcline maxlen buf) chunk h = absurd h
  stage_push-IsFront (passthrough none) [] h = tt
  stage_push-IsFront (passthrough none) (b ∷ s) h = tt
  stage_push-IsFront (passthrough (some s)) chunk h = absurd h
  stage_push-IsFront (inflate s) [] h = tt
  stage_push-IsFront (inflate s) (b ∷ chunk) h =
      inflated-IsFront (zpush s (b ∷ chunk)).0 (zpush s (b ∷ chunk)).1
  stage_push-IsFront (counted remaining pieces fired) [] h = tt
  stage_push-IsFront (counted remaining pieces true) (b ∷ s) h = tt
  stage_push-IsFront (counted remaining pieces false) (b ∷ s) h =
      capture-IsFront remaining pieces (b ∷ s)

  pub through-IsFront :
      (sts : List (Stage S)) (chunk : Bytes)
      → All IsFront sts
      → All IsFront (through sts chunk).stages
  unfolding through
  through-IsFront [] chunk h = tt
  through-IsFront (st ∷ sts) chunk h = (
    stage_push-IsFront st chunk h.0,
    through-IsFront sts (or_empty (push zpush st chunk).unit) h.1,
  )

  pub through_nothing :
      (sts : List (Stage S))
      → All IsFront sts
      → through sts [] ≡ record { stages = sts; out = []; latched = false; blobs = [] }
  unfolding through
  through_nothing [] h = refl
  through_nothing (st ∷ sts) h = rw (push-IsFront st h.0, through_nothing sts h.1, through) refl

  blobs-frame_line : (maxlen : ℕ) (buf : Bytes) → (frame_line {S = S} maxlen buf).blobs ≡ []
  unfolding frame_line
  blobs-frame_line maxlen buf = elim (Option-cases (find_newline buf)) [
    | inl e ↦ rw (e, frame_line) refl
    | inr (i, e) ↦ rw (e, frame_line) refl
  ]

  -- A pull with one more stage in front.
  abbrev below : Push S → Pull S → Pull S
  below a rest = record {
    stages = a.stage ∷ rest.stages;
    unit = rest.unit;
    overflow = rest.overflow;
    latched = a.overflow || rest.latched;
    blobs = a.blobs ++ rest.blobs;
  }

  -- A pull on stages that end with the line framer pushes the framer what the others gave.
  pub pull-through :
      (sts : List (Stage S)) (maxlen : ℕ) (buf chunk : Bytes)
      → pull zpush (sts ++ (adcline maxlen buf ∷ [])) chunk ≡ (
          let t = through sts chunk in
          let f = frame_line maxlen (buf ++ t.out) in
          record {
            stages = t.stages ++ (f.stage ∷ []);
            unit = f.unit;
            overflow = f.overflow;
            latched = t.latched;
            blobs = t.blobs;
          })
  unfolding pull through push
  pull-through [] maxlen buf chunk = rw (blobs-frame_line maxlen (buf ++ chunk)) refl
  pull-through (st ∷ []) maxlen buf chunk =
      let a = push zpush st chunk in ap (below a) (pull-through [] maxlen buf (or_empty a.unit))
  pull-through (st ∷ (st' ∷ sts)) maxlen buf chunk =
      let a = push zpush st chunk in
      ap (below a) (pull-through (st' ∷ sts) maxlen buf (or_empty a.unit))
