-- ===== src/Iostream/Reads.antt =====
-- A pipeline that ends with the line framer, over all the chunks that a socket reads.
use luadch.Common.{
  ℕ, ◌<◌, Bool, false, ◌||◌, List, [], ◌∷◌, ◌++◌, Option, none, some, length, ◌≡◌, refl, ap, sym,
  arith, append-nil, append_assoc, All, length-append,
}
use luadch.Zlib.{Outcome}
use luadch.Iostream.{Bytes, Stage}
use luadch.Iostream.Pipeline.{Pipeline, feed, Drained, drain}
use luadch.Iostream.Lines.{
  lines, open_line, lines-append, open_line-append, IsOpen, open_line-IsOpen, length-open_line,
}
use luadch.Iostream.Quiet.{IsFront, Through, through, through-IsFront}
use luadch.Iostream.Feeds.{framed, above, drain-lines}

-- A drain and what comes after it.
abbrev and_then : {S : Type 0} → Drained S → Drained S → Drained S
and_then d e = record {
  pipeline = e.pipeline;
  frames = d.frames ++ e.frames;
  overflow = d.overflow || e.overflow;
  blobs = d.blobs ++ e.blobs;
}

module _ {S : Type 0} (zpush : S → Bytes → Outcome × S) where
  -- Each chunk is fed and the pipeline drained, one after the other.
  unfoldable pub reads : ℕ → Pipeline S → List Bytes → Option (Drained S)
  reads fuel p [] = some record { pipeline = p; frames = []; overflow = false; blobs = [] }
  reads fuel p (chunk ∷ chunks) = elim (drain zpush fuel (feed p chunk)) [
    | none ↦ none
    | some d ↦ elim (reads fuel d.pipeline chunks) [ none ↦ none | some e ↦ some (and_then d e) ]
  ]

  -- What the stages in front make of all the chunks.
  unfoldable pub through_all : List (Stage S) → List Bytes → Through S
  through_all sts [] = record { stages = sts; out = []; latched = false; blobs = [] }
  through_all sts (chunk ∷ chunks) =
      let t = through zpush sts chunk in
      let u = through_all t.stages chunks in
      record {
        stages = u.stages;
        out = t.out ++ u.out;
        latched = t.latched || u.latched;
        blobs = t.blobs ++ u.blobs;
      }

  -- An overflow is reported at the chunk that makes a stage in front overflow or a line too long.
  unfoldable pub overflows : ℕ → Bytes → List (Stage S) → List Bytes → Bool
  overflows maxlen buf sts [] = false
  overflows maxlen buf sts (chunk ∷ chunks) =
      let t = through zpush sts chunk in
      (t.latched || above maxlen (buf ++ t.out))
      || overflows maxlen (open_line (buf ++ t.out)) t.stages chunks

  -- A pipeline of stages other than the line framer and then the framer, with nothing fed or
  -- queued and an open line in the framer's buffer, is fed any chunks and drained after each:
  -- with fuel above the bytes that reach the framer the drains return, and together their
  -- frames are the lines of what the stages in front made of the chunks, behind the open line
  -- and with each CR dropped; the framer keeps the last open line, the captured blobs are those
  -- of the stages in front, and an overflow is reported where a stage in front had one, or a
  -- frame or the rest of a chunk's text was above the cap.
  pub reads-lines :
      (fuel : ℕ) (sts : List (Stage S)) (maxlen : ℕ) (buf : Bytes) (chunks : List Bytes)
      → All IsFront sts
      → IsOpen buf
      → length (buf ++ (through_all sts chunks).out) < fuel
      → reads fuel (framed sts maxlen buf) chunks
        ≡ some record {
          pipeline =
              framed
                (through_all sts chunks).stages
                maxlen
                (open_line (buf ++ (through_all sts chunks).out));
          frames = lines (buf ++ (through_all sts chunks).out);
          overflow = overflows maxlen buf sts chunks;
          blobs = (through_all sts chunks).blobs;
        }
  unfolding reads through_all overflows
  reads-lines fuel sts maxlen buf [] h o enough = rw (append-nil buf, o.no_lines, o.all_open) refl
  reads-lines fuel sts maxlen buf (chunk ∷ chunks) h o enough =
      let t = through zpush sts chunk in
      let s = buf ++ t.out in
      let u = through_all t.stages chunks in
      let now =
        drain-lines zpush fuel sts maxlen buf chunk h
          (omega (arith, length-append s u.out, ap length (append_assoc buf t.out u.out))) in
      let later =
        reads-lines fuel t.stages maxlen (open_line s) chunks (through-IsFront zpush sts chunk h)
          (open_line-IsOpen s)
          (omega (
            arith,
            length-open_line s,
            length-append s u.out,
            length-append (open_line s) u.out,
            ap length (append_assoc buf t.out u.out),
          )) in
      rw
        (
          now,
          later,
          reads,
          sym (append_assoc buf t.out u.out),
          lines-append s u.out,
          open_line-append s u.out,
        )
        refl
