-- ===== src/Iostream/Capture.antt =====
-- A capture over all the chunks that reach it.
use luadch.Common.{
  ℕ, ◌+◌, ◌-◌, ◌≤◌, true, false, List, [], ◌∷◌, ◌++◌, some, ltb, leb, ◌==◌, if◌then◌else◌, length,
  take, drop, ◌≡◌, refl, ap, sym, ◌∙◌, arith, Bool-cases, inl, inr, append-nil, append_assoc,
  length-append, length-drop, ◌<◌, take_all, drop_all, drop-append, drop-append_left,
  take-append_left, drop-append_right, take-append_right,
}
use luadch.Zlib.{Outcome}
use luadch.Iostream.{Bytes, counted, table_concat, capture, counted_push, push}
use luadch.Iostream.Quiet.{Through, through}
use luadch.Iostream.Pipeline.{Drained}
use luadch.Iostream.Lines.{lines, nothing-IsOpen}
use luadch.Iostream.Feeds.{framed}
use luadch.Iostream.Reads.{reads, through_all, reads-lines}

table_concat-snoc :
    (pieces : List Bytes) (s : Bytes) → table_concat (pieces ++ (s ∷ [])) ≡ table_concat pieces ++ s
unfolding table_concat
table_concat-snoc [] s = append-nil s
table_concat-snoc (p ∷ pieces) s =
    rw (table_concat-snoc pieces s) (sym (append_assoc p (table_concat pieces) s))

-- What a capture of `n` bytes calls back with, when `all` follows the bytes `got`.
abbrev pub captured : ℕ → Bytes → Bytes → List Bytes
captured n got all = if ltb (length all) n then [] else (got ++ take n all) ∷ []

captured_nothing : (n : ℕ) (got : Bytes) → 1 ≤ n → captured n got [] ≡ []
captured_nothing n got h = let small : ltb 0 n ≡ true = ground arith in rw small refl

captured_beyond :
    (n : ℕ) (got chunk more : Bytes)
    → n ≤ length chunk
    → captured n got (chunk ++ more) ≡ (got ++ take n chunk) ∷ []
captured_beyond n got chunk more h =
    let large : ltb (length (chunk ++ more)) n ≡ false = ground (arith, length-append chunk more) in
    rw (large, take-append_left n chunk more h) refl

captured_more :
    (n m : ℕ) (got chunk more : Bytes)
    → n ≡ length chunk + m
    → captured n got (chunk ++ more) ≡ captured m (got ++ chunk) more
captured_more n m got chunk more h = elim (Bool-cases (ltb (length more) m)) [
  | inl e ↦
      let small : ltb (length (chunk ++ more)) n ≡ true =
        ground (arith, length-append chunk more) in
      rw (e, small) refl
  | inr e ↦
      let large : ltb (length (chunk ++ more)) n ≡ false =
        ground (arith, length-append chunk more) in
      rw (e, large, take-append_right n m chunk more h)
        (ap (λ o. o ∷ []) (sym (append_assoc got chunk (take m more))))
]

-- What passes through, what is called back, and no overflow.
pub record Captures {S : Type 0} (t : Through S) (out : Bytes) (blobs : List Bytes) : Type 0 where
  pub passes : t.out ≡ out
  pub calls_back : t.blobs ≡ blobs
  pub quiet : t.latched ≡ false

module _ {S : Type 0} (zpush : S → Bytes → Outcome × S) where
  through_all-fired :
      (n : ℕ) (pieces : List Bytes) (chunks : List Bytes)
      → Captures (through_all zpush (counted n pieces true ∷ []) chunks) (table_concat chunks) []
  unfolding through_all through push counted_push table_concat
  through_all-fired n pieces [] = record { passes = refl; calls_back = refl; quiet = refl }
  through_all-fired n pieces ([] ∷ chunks) =
      let c = through_all-fired n pieces chunks in
      record { passes = c.passes; calls_back = c.calls_back; quiet = c.quiet }
  through_all-fired n pieces ((b ∷ s) ∷ chunks) =
      let c = through_all-fired n pieces chunks in
      record {
        passes = ap (λ o. b ∷ (s ++ o)) c.passes;
        calls_back = c.calls_back;
        quiet = c.quiet;
      }

  through_all-capture :
      (n : ℕ) (pieces : List Bytes) (chunks : List Bytes)
      → 1 ≤ n
      → Captures
          (through_all zpush (counted n pieces false ∷ []) chunks)
          (drop n (table_concat chunks))
          (captured n (table_concat pieces) (table_concat chunks))
  unfolding through_all through push counted_push table_concat capture
  through_all-capture n pieces [] h = record {
    passes = sym (drop_all n [] (omega arith));
    calls_back = sym (captured_nothing n (table_concat pieces) h);
    quiet = refl;
  }
  through_all-capture n pieces ([] ∷ chunks) h =
      let c = through_all-capture n pieces chunks h in
      record { passes = c.passes; calls_back = c.calls_back; quiet = c.quiet }
  through_all-capture n pieces ((b ∷ s) ∷ chunks) h =
      let chunk = b ∷ s in
      let more = table_concat chunks in
      elim (Bool-cases (leb (length chunk) n)) [
        | inl e ↦ elim (Bool-cases (n - length chunk == 0)) [
          | inl f ↦
              let c = through_all-fired 0 [] chunks in
              record {
                passes =
                    rw (e, f, capture) (c.passes ∙ sym (drop-append chunk more n (ground arith)));
                calls_back =
                    rw (e, f, capture)
                      (rw (c.calls_back, table_concat-snoc pieces chunk)
                        (sym (
                          captured_beyond n (table_concat pieces) chunk more (ground arith)
                          ∙ ap (λ o. (table_concat pieces ++ o) ∷ [])
                              (take_all n chunk (ground arith)))));
                quiet = rw (e, f, capture) c.quiet;
              }
          | inr f ↦
              let c =
                through_all-capture (n - length chunk) (pieces ++ (chunk ∷ [])) chunks
                  (ground arith) in
              record {
                passes =
                    rw (e, f, capture)
                      (c.passes
                        ∙ sym (drop-append_right n (n - length chunk) chunk more (ground arith)));
                calls_back =
                    rw (e, f, capture)
                      (c.calls_back
                        ∙ rw (table_concat-snoc pieces chunk) (
                            sym (
                              captured_more n (n - length chunk) (table_concat pieces) chunk more
                                (ground arith))));
                quiet = rw (e, f, capture) c.quiet;
              }
        ]
        | inr e ↦
            let c = through_all-fired 0 [] chunks in
            record {
              passes =
                  rw (e, capture)
                    (rw c.passes (sym (drop-append_left n chunk more (ground arith))));
              calls_back =
                  rw (e, capture)
                    (rw (c.calls_back, table_concat-snoc pieces (take n chunk))
                      (sym (captured_beyond n (table_concat pieces) chunk more (ground arith))));
              quiet = rw (e, capture) c.quiet;
            }
      ]

  -- With a capture of n bytes, n not 0, in front of the line framer, any chunks, and fuel above
  -- their bytes: the callback gets the first n bytes of the concatenated chunks, once, if there
  -- are that many, and is not called otherwise; the frames are the lines of what follows these
  -- bytes.
  pub reads-capture :
      (fuel n maxlen : ℕ) (chunks : List Bytes)
      → 1 ≤ n
      → length (table_concat chunks) < fuel
      → (d : Drained S) × (reads zpush fuel (framed (counted n [] false ∷ []) maxlen []) chunks
          ≡ some d)
        × (d.frames ≡ lines (drop n (table_concat chunks)))
        × (d.blobs ≡ captured n [] (table_concat chunks))
  unfolding table_concat
  reads-capture fuel n maxlen chunks h enough =
      let c = through_all-capture n [] chunks h in
      let t = through_all zpush (counted n [] false ∷ []) chunks in
      let fits : length t.out < fuel =
        omega (arith, ap length c.passes, length-drop n (table_concat chunks)) in
      (
        _,
        reads-lines zpush fuel (counted n [] false ∷ []) maxlen [] chunks (tt, tt) nothing-IsOpen
            fits,
        ap lines c.passes,
        c.calls_back,
      )
