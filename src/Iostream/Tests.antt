-- ===== src/Iostream/Tests.antt =====
-- The theorems on pipelines at concrete inputs.
use luadch.Common.{ℕ, ◌+◌, false, true, List, [], ◌∷◌, ◌++◌, some, drop, ◌≡◌, refl, arith, ◌||◌}
use luadch.Zlib.{Outcome, pushed, fed, inflate_push, zs_inflate_max_per_push}
use luadch.Zlib.Inflate.{Pushes}
use luadch.Zlib.Tests.{copy, copy-IsInflate}
use luadch.Iostream.{Bytes, adcline, inflate, counted, push, table_concat, without_cr, residual}
use luadch.Iostream.Pipeline.{
  feed, next_frame, or_empty, prepend, Drained, drain, insert_before_terminal,
}
use luadch.Iostream.Lines.{lines, open_line, split_lines, nothing-IsOpen}
use luadch.Iostream.Quiet.{through}
use luadch.Iostream.Feeds.{framed, above}
use luadch.Iostream.Reads.{reads, through_all, overflows, reads-lines}
use luadch.Iostream.Capture.{captured, reads-capture}
use luadch.Iostream.Splice.{all_queued, prepend-next, insert_before_terminal-lines}
use luadch.Iostream.Caps.{longest, reads-longest}
use luadch.Iostream.Bomb.{strm_push, Shown, drain-inflate}

-- A stream that compresses nothing and counts its pushes.
abbrev plain : ℕ → Bytes → Outcome × ℕ
plain s chunk = (pushed chunk, s + 1)

-- Two lines in three chunks, the first ended by "\r\n".
abbrev chunks : List Bytes
chunks = (b'h' ∷ []) ∷ ((b'i' ∷ b'\r' ∷ b'\n' ∷ b'y' ∷ []) ∷ ((b'o' ∷ b'\n' ∷ b'u' ∷ []) ∷ []))

lines_of_chunks : lines (table_concat chunks) ≡ (b'h' ∷ b'i' ∷ []) ∷ ((b'y' ∷ b'o' ∷ []) ∷ [])
unfolding lines split_lines table_concat without_cr
lines_of_chunks = refl

reads-lines_example :
    reads plain 20 (framed [] 8 []) chunks
    ≡ some record {
      pipeline =
          framed
            (through_all plain [] chunks).stages
            8
            (open_line ([] ++ (through_all plain [] chunks).out));
      frames = lines ([] ++ (through_all plain [] chunks).out);
      overflow = overflows plain 8 [] [] chunks;
      blobs = (through_all plain [] chunks).blobs;
    }
unfolding through_all through
reads-lines_example = reads-lines plain 20 [] 8 [] chunks tt nothing-IsOpen (omega arith)

reads-longest_example :
    reads plain 20 (framed [] 8 []) chunks
    ≡ some record {
      pipeline =
          framed
            (through_all plain [] chunks).stages
            8
            (open_line (through_all plain [] chunks).out);
      frames = lines (through_all plain [] chunks).out;
      overflow = false;
      blobs = (through_all plain [] chunks).blobs;
    }
unfolding through_all through longest
reads-longest_example = reads-longest plain 20 [] 8 chunks tt (omega arith) refl (omega arith)

reads-capture_example :
    (d : Drained ℕ) × (reads plain 20 (framed (counted 3 [] false ∷ []) 8 []) chunks ≡ some d)
    × (d.frames ≡ lines (drop 3 (table_concat chunks)))
    × (d.blobs ≡ captured 3 [] (table_concat chunks))
unfolding table_concat
reads-capture_example = reads-capture plain 20 3 8 chunks (omega arith) (omega arith)

abbrev zon : Bytes
zon = b'Z' ∷ b'O' ∷ []

abbrev packed : Bytes
packed = 120 ∷ 10 ∷ 3 ∷ []

prepend-next_example :
    ((next_frame plain (feed (framed [] 8 (b'Z' ∷ [])) (b'O' ∷ b'\n' ∷ packed))).unit
      ≡ some (without_cr zon))
    × (prepend
          (next_frame plain (feed (framed [] 8 (b'Z' ∷ [])) (b'O' ∷ b'\n' ∷ packed))).pipeline
          (inflate 0)
        ≡ feed (framed (inflate 0 ∷ []) 8 []) packed)
prepend-next_example =
    prepend-next plain (inflate 0) 8 (b'Z' ∷ []) (b'O' ∷ b'\n' ∷ packed) zon packed
      (ground arith, (ground arith, tt)) refl

insert_before_terminal-lines_example :
    insert_before_terminal plain
      (record {
        stages = inflate 4 ∷ (adcline 8 packed ∷ []);
        input_buf = b'?' ∷ [];
        sticky_overflow = false;
        deferred = [];
      })
      (counted 1 [] false)
    ≡ some (
      record {
        stages =
            inflate 4
            ∷ ((push plain (counted 1 [] false) packed).stage
                ∷ (adcline 8 (open_line (or_empty (push plain (counted 1 [] false) packed).unit))
                    ∷ []));
        input_buf = b'?' ∷ [];
        sticky_overflow =
            false
            || ((push plain (counted 1 [] false) packed).overflow
                || above 8 (or_empty (push plain (counted 1 [] false) packed).unit));
        deferred =
            [] ++ all_queued (lines (or_empty (push plain (counted 1 [] false) packed).unit));
      },
      (push plain (counted 1 [] false) packed).blobs,
    )
insert_before_terminal-lines_example =
    insert_before_terminal-lines plain (inflate 4) [] 8 packed (b'?' ∷ []) false []
      (counted 1 [] false) tt

drain-inflate_example :
    (r : Outcome) × (s : ℕ) × (d : Drained ℕ) × (inflate_push copy
        (record { strm = 0; closed = false })
        packed
      ≡ some (r, record { strm = s; closed = false }))
    × Pushes copy 0 (fed packed) r s
    × (drain
          (strm_push copy copy-IsInflate)
          (2 + zs_inflate_max_per_push)
          (feed (framed (inflate 0 ∷ []) 8 []) packed)
        ≡ some d)
    × Shown 8 [] r d
drain-inflate_example =
    drain-inflate copy copy-IsInflate (2 + zs_inflate_max_per_push) 0 8 [] 120 (10 ∷ 3 ∷ [])
      nothing-IsOpen (omega arith)

-- A stage that is prepended to a capture and the line framer leaves the framer its bytes: what
-- stood behind `ZON` in one chunk is read as lines.
kept_by_framer :
    prepend {S = ℕ}
      (record {
        stages = counted 0 [] true ∷ (adcline 8 packed ∷ []);
        input_buf = [];
        sticky_overflow = false;
        deferred = [];
      })
      (inflate 0)
    ≡ record {
      stages = inflate 0 ∷ (counted 0 [] true ∷ (adcline 8 packed ∷ []));
      input_buf = [];
      sticky_overflow = false;
      deferred = [];
    }
unfolding prepend residual
kept_by_framer = refl
