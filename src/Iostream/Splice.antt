-- ===== src/Iostream/Splice.antt =====
-- A new stage in a pipeline that has read bytes already.
use luadch.Common.{
  ℕ, zero, suc, ◌<◌, Bool, true, false, ◌||◌, List, [], ◌∷◌, ◌++◌, none, some, ltb, length, take,
  drop, All, ◌≢◌, drop-append_right, ◌≡◌, refl, ap, sym, ◌∙◌, arith, append-nil, length-drop, ◌==◌,
  take-append,
}
use luadch.Zlib.{Outcome}
use luadch.Iostream.{
  Bytes, Stage, adcline, Push, push, residual, find_newline, without_cr, frame_line, gives,
}
use luadch.Iostream.Pipeline.{
  Pipeline, feed, next_frame, or_empty, prepend, queued, eager_drain, split_terminal, settled,
  spliced, insert_before_terminal,
}
use luadch.Iostream.Lines.{split_lines, lines, open_line, first_line, unended, ended}
use luadch.Iostream.Quiet.{IsFront, through, push-IsFront}
use luadch.Iostream.Feeds.{framed, some_above, above, pulled, next_frame-framed}

find_newline-append :
    (line tail : Bytes)
    → All (λ b. b ≢ b'\n') line
    → find_newline (line ++ (b'\n' ∷ tail)) ≡ some (length line)
unfolding find_newline
find_newline-append [] tail h = refl
find_newline-append (b ∷ line) tail h =
    let other : (b == b'\n') ≡ false = ground (arith, h.0) in
    rw (other, find_newline-append line tail h.1, find_newline) refl

-- The frames that are not empty.
pub all_queued : List Bytes → List Bytes
all_queued [] = []
all_queued (f ∷ fs) = queued f ++ all_queued fs

||_assoc : (a b c : Bool) → (a || (b || c)) ≡ ((a || b) || c)
||_assoc true b c = refl
||_assoc false b c = refl

||-false : (a : Bool) → (a || false) ≡ a
||-false true = refl
||-false false = refl

nothing_above : (maxlen : ℕ) → above maxlen [] ≡ false
unfolding some_above lines open_line split_lines
nothing_above maxlen = ground arith

module _ {S : Type 0} (zpush : S → Bytes → Outcome × S) where
  -- For the pipeline with the line framer alone, where the bytes held and fed are a line with
  -- no LF in it, an LF and a tail: `next` gives the line without its CRs, and a stage that is
  -- prepended then gets exactly the tail as the first of its input, with nothing of it left in
  -- the framer.
  pub prepend-next :
      (st : Stage S) (maxlen : ℕ) (buf chunk line tail : Bytes)
      → All (λ b. b ≢ b'\n') line
      → buf ++ chunk ≡ line ++ (b'\n' ∷ tail)
      → ((next_frame zpush (feed (framed [] maxlen buf) chunk)).unit ≡ some (without_cr line))
        × (prepend (next_frame zpush (feed (framed [] maxlen buf) chunk)).pipeline st
            ≡ feed (framed (st ∷ []) maxlen []) tail)
  unfolding prepend residual feed frame_line through
  prepend-next st maxlen buf chunk line tail h e =
      let next : next_frame zpush (feed (framed [] maxlen buf) chunk)
          ≡ pulled zpush (through zpush [] chunk) maxlen buf =
        next_frame-framed zpush [] maxlen buf chunk in
      let cut : frame_line {S = S} maxlen (line ++ (b'\n' ∷ tail))
          ≡ gives (adcline maxlen tail) (some (without_cr line))
              (ltb maxlen (length (without_cr line))) =
        rw (find_newline-append line tail h, frame_line)
          (rw
            (
              take-append line (b'\n' ∷ tail) (length line) refl,
              drop-append_right (suc (length line)) 1 line (b'\n' ∷ tail) (omega arith),
            )
            refl) in
      (rw (next, e, cut) refl, rw (next, e, cut, append-nil tail) refl)

  eager_drain-lines :
      (fuel : ℕ) (maxlen : ℕ) (buf chunk : Bytes)
      → length (buf ++ chunk) < fuel
      → eager_drain zpush fuel (adcline maxlen buf) chunk
        ≡ some record {
          terminal = adcline maxlen (open_line (buf ++ chunk));
          frames = all_queued (lines (buf ++ chunk));
          overflow = above maxlen (buf ++ chunk);
        }
  unfolding eager_drain push frame_line some_above all_queued
  eager_drain-lines zero maxlen buf chunk enough = absurd (omega arith)
  eager_drain-lines (suc fuel) maxlen buf chunk enough =
      let s = buf ++ chunk in
      elim (first_line s) [
        | unended f e g ↦ rw (f, e, frame_line) (rw g refl)
        | ended i f small e g ↦
            let rest = drop (suc i) s in
            let later =
              eager_drain-lines fuel maxlen rest []
                (rw (append-nil rest) (omega (arith, length-drop (suc i) s))) in
            rw (f, e, frame_line)
              (rw
                (
                  later,
                  append-nil rest,
                  g,
                  ||_assoc (ltb maxlen (length (without_cr (take i s))))
                      (some_above maxlen (lines rest)) (ltb maxlen (length (open_line rest))),
                )
                refl)
      ]

  split_terminal-append :
      (st : Stage S) (sts : List (Stage S)) (t : Stage S)
      → split_terminal st (sts ++ (t ∷ [])) ≡ (st ∷ sts, t)
  unfolding split_terminal
  split_terminal-append st [] t = refl
  split_terminal-append st (st' ∷ sts) t = rw (split_terminal-append st' sts t, split_terminal) refl

  settled-lines :
      (p : Pipeline S) (front : List (Stage S)) (a : Push S) (maxlen : ℕ) (out : Bytes)
      → settled zpush p front a (adcline maxlen []) out
        ≡ some (
          record p {
            stages = front ++ (a.stage ∷ (adcline maxlen (open_line out) ∷ []));
            sticky_overflow = p.sticky_overflow || (a.overflow || above maxlen out);
            deferred = p.deferred ++ all_queued (lines out);
          },
          a.blobs,
        )
  unfolding settled lines open_line split_lines all_queued
  settled-lines p front a maxlen [] =
      rw (nothing_above maxlen, ||-false a.overflow, append-nil p.deferred) refl
  settled-lines p front a maxlen (b ∷ out) =
      rw (eager_drain-lines (suc (suc (length out))) maxlen [] (b ∷ out) (omega arith), settled)
        refl

  insert_at_terminal :
      (q : Pipeline S) (first : Stage S) (sts : List (Stage S)) (st t : Stage S)
      → let p = record q { stages = first ∷ (sts ++ (t ∷ [])) } in
        insert_before_terminal zpush p st
        ≡ spliced zpush p (first ∷ sts) st (residual t).0 (residual t).1
  unfolding insert_before_terminal
  insert_at_terminal q first [] st t =
      rw (split_terminal-append first [] t, insert_before_terminal) refl
  insert_at_terminal q first (s ∷ sts) st t =
      rw (split_terminal-append first (s ∷ sts) t, insert_before_terminal) refl

  settled_nothing :
      (p : Pipeline S) (front : List (Stage S)) (st t : Stage S)
      → settled zpush p front (gives st none false) t []
        ≡ some (record p { stages = front ++ (st ∷ (t ∷ [])) }, [])
  unfolding settled
  settled_nothing p front st t =
      ap (λ o. some (record p { stages = front ++ (st ∷ (t ∷ [])); sticky_overflow = o }, []))
        (||-false p.sticky_overflow)

  spliced-lines :
      (p : Pipeline S) (front : List (Stage S)) (st t : Stage S) (buf : Bytes)
      → IsFront st
      → spliced zpush p front st buf t
        ≡ settled zpush p front (push zpush st buf) t (or_empty (push zpush st buf).unit)
  unfolding spliced
  spliced-lines p front st t [] h =
      rw (push-IsFront zpush st h) (sym (settled_nothing p front st t))
  spliced-lines p front st t (b ∷ s) h = refl

  -- Where at least one stage stands before the line framer, `insert_before_terminal` of a stage
  -- other than a framer with nothing pending returns: the bytes that the framer held are pushed
  -- through the new stage once and through no other, what it gives goes to the framer, whose
  -- lines that are not empty are queued in order behind those queued before, with its last open
  -- line kept; the fed bytes and the other stages stay as they are, and an overflow of the new
  -- stage or of a line is latched.
  pub insert_before_terminal-lines :
      (first : Stage S) (sts : List (Stage S)) (maxlen : ℕ) (buf input : Bytes) (sticky : Bool)
      (queue : List Bytes) (st : Stage S)
      → IsFront st
      → let a = push zpush st buf in
        insert_before_terminal zpush
          (record {
            stages = first ∷ (sts ++ (adcline maxlen buf ∷ []));
            input_buf = input;
            sticky_overflow = sticky;
            deferred = queue;
          })
          st
        ≡ some (
          record {
            stages =
                first ∷ (sts ++ (a.stage ∷ (adcline maxlen (open_line (or_empty a.unit)) ∷ [])));
            input_buf = input;
            sticky_overflow = sticky || (a.overflow || above maxlen (or_empty a.unit));
            deferred = queue ++ all_queued (lines (or_empty a.unit));
          },
          a.blobs,
        )
  unfolding residual
  insert_before_terminal-lines first sts maxlen buf input sticky queue st h =
      let p : Pipeline S = record {
        stages = first ∷ (sts ++ (adcline maxlen buf ∷ []));
        input_buf = input;
        sticky_overflow = sticky;
        deferred = queue;
      } in
      let a = push zpush st buf in
      insert_at_terminal p first sts st (adcline maxlen buf)
      ∙ (spliced-lines p (first ∷ sts) st (adcline maxlen []) buf h
          ∙ settled-lines p (first ∷ sts) a maxlen (or_empty a.unit))
