-- ===== src/Iostream/Feeds.antt =====
-- A pipeline that ends with the line framer, over all the chunks that a socket reads.
use luadch.Common.{
  ℕ, zero, suc, ◌<◌, Bool, true, false, ◌||◌, List, [], ◌∷◌, ◌++◌, some, ltb, length, take, drop,
  ◌≡◌, refl, subst, arith, append-nil, All, length-drop,
}
use luadch.Zlib.{Outcome}
use luadch.Iostream.{Bytes, Stage, adcline, without_cr, frame_line}
use luadch.Iostream.Pipeline.{Pipeline, Next, feed, next_frame, Drained, drain}
use luadch.Iostream.Lines.{lines, open_line, first_line, unended, ended}
use luadch.Iostream.Quiet.{
  IsFront, Through, through, through-IsFront, through_nothing, pull-through,
}

-- Stages in front of the line framer, with nothing fed and nothing queued.
abbrev pub framed : {S : Type 0} → List (Stage S) → ℕ → Bytes → Pipeline S
framed sts maxlen buf = record {
  stages = sts ++ (adcline maxlen buf ∷ []);
  input_buf = [];
  sticky_overflow = false;
  deferred = [];
}

-- A frame of a text is above the cap, or what the framer keeps of it is.
unfoldable pub some_above : ℕ → List Bytes → Bool
some_above maxlen [] = false
some_above maxlen (f ∷ fs) = ltb maxlen (length f) || some_above maxlen fs

abbrev pub above : ℕ → Bytes → Bool
above maxlen s = some_above maxlen (lines s) || ltb maxlen (length (open_line s))

-- What a drain returns, for what the stages in front gave the framer.
abbrev pub drained : {S : Type 0} → ℕ → Bytes → Through S → Drained S
drained maxlen buf t = record {
  pipeline = framed t.stages maxlen (open_line (buf ++ t.out));
  frames = lines (buf ++ t.out);
  overflow = t.latched || above maxlen (buf ++ t.out);
  blobs = t.blobs;
}

||_comm : (a b : Bool) → (a || b) ≡ (b || a)
||_comm true true = refl
||_comm true false = refl
||_comm false true = refl
||_comm false false = refl

||_swap : (a t x y : Bool) → ((a || t) || (x || y)) ≡ (t || ((a || x) || y))
||_swap true true x y = refl
||_swap true false x y = refl
||_swap false true x y = refl
||_swap false false x y = refl

-- What an empty chunk makes of stages in front.
abbrev nothing : {S : Type 0} → List (Stage S) → Through S
nothing sts = record { stages = sts; out = []; latched = false; blobs = [] }

module _ {S : Type 0} (zpush : S → Bytes → Outcome × S) where
  abbrev pub pulled : Through S → ℕ → Bytes → Next S
  pulled t maxlen buf =
      let f = frame_line maxlen (buf ++ t.out) in
      record {
        pipeline = record {
          stages = t.stages ++ (f.stage ∷ []);
          input_buf = [];
          sticky_overflow = false;
          deferred = [];
        };
        unit = f.unit;
        overflow = f.overflow || t.latched;
        blobs = t.blobs;
      }

  pub next_frame-framed :
      (sts : List (Stage S)) (maxlen : ℕ) (buf chunk : Bytes)
      → next_frame zpush (feed (framed sts maxlen buf) chunk)
        ≡ pulled (through zpush sts chunk) maxlen buf
  unfolding next_frame feed
  next_frame-framed sts maxlen buf chunk = rw (pull-through zpush sts maxlen buf chunk) refl

  pub drain-lines :
      (fuel : ℕ) (sts : List (Stage S)) (maxlen : ℕ) (buf chunk : Bytes)
      → All IsFront sts
      → length (buf ++ (through zpush sts chunk).out) < fuel
      → drain zpush fuel (feed (framed sts maxlen buf) chunk)
        ≡ some (drained maxlen buf (through zpush sts chunk))
  unfolding drain frame_line some_above feed
  drain-lines zero sts maxlen buf chunk h enough = absurd (omega arith)
  drain-lines (suc fuel) sts maxlen buf chunk h enough =
      let t = through zpush sts chunk in
      let s = buf ++ t.out in
      elim (first_line s) [
        | unended f e g ↦
            rw (next_frame-framed sts maxlen buf chunk, f, e, frame_line)
              (rw (g, ||_comm (ltb maxlen (length s)) t.latched) refl)
        | ended i f small e g ↦
            let rest = drop (suc i) s in
            let ih : drain zpush fuel (framed t.stages maxlen rest)
                ≡ some (drained maxlen rest (nothing t.stages)) =
              subst
                (λ q. drain zpush fuel (framed t.stages maxlen rest) ≡ some (drained maxlen rest q))
                (through_nothing zpush t.stages (through-IsFront zpush sts chunk h))
                (drain-lines fuel t.stages maxlen rest [] (through-IsFront zpush sts chunk h) (
                  rw
                    (
                      through_nothing zpush t.stages (through-IsFront zpush sts chunk h),
                      append-nil rest,
                    )
                    (omega (arith, length-drop (suc i) s)))) in
            rw (next_frame-framed sts maxlen buf chunk, f, e, frame_line)
              (rw
                (
                  ih,
                  g,
                  append-nil rest,
                  append-nil t.blobs,
                  ||_swap (ltb maxlen (length (without_cr (take i s)))) t.latched
                      (some_above maxlen (lines rest)) (ltb maxlen (length (open_line rest))),
                )
                refl)
      ]
