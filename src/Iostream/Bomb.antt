-- ===== src/Iostream/Bomb.antt =====
-- An inflate stage on the binding's own stream, with the line framer behind it.
use luadch.Common.{
  ℕ, ◌+◌, ◌≤◌, ◌<◌, true, false, ◌||◌, [], ◌∷◌, ◌++◌, some, length, ◌≡◌, refl, ap, arith,
  append-nil, length-append,
}
use luadch.Zlib.{
  Codec, Outcome, pushed, failed, bomb, closed_error, fed, inflate_push, zs_inflate_max_per_push,
}
use luadch.Zlib.Contract.{IsInflate}
use luadch.Zlib.Inflate.{Pushes, inflate_push-Pushes}
use luadch.Iostream.{Bytes, Push, inflate, push, inflate_stage_push, inflated}
use luadch.Iostream.Pipeline.{or_empty, feed, Drained, drain}
use luadch.Iostream.Lines.{lines, IsOpen}
use luadch.Iostream.Quiet.{Through, through}
use luadch.Iostream.Feeds.{framed, above, drained, drain-lines}

-- `strm.push` of an open stream.
abbrev pub strm_push : {S : Type 0} (z : Codec S) → IsInflate z → S → Bytes → Outcome × S
strm_push z laws s input = let (r, s', _, _) = inflate_push-Pushes z s input laws in (r, s')

-- What an inflate stage makes of an outcome: its output, or the end of the pipeline.
abbrev Handed : {S : Type 0} → Outcome → Through S → Type 0
Handed (pushed out) t = (t.out ≡ out) × (t.latched ≡ false)
Handed (failed c) t = (t.out ≡ []) × (t.latched ≡ true)
Handed bomb t = (t.out ≡ []) × (t.latched ≡ true)
Handed closed_error t = ⊥

-- What a drain with the cap `maxlen` and the open line `buf` returns for an outcome of the push.
abbrev pub Shown : {S : Type 0} → ℕ → Bytes → Outcome → Drained S → Type 0
Shown maxlen buf (pushed out) d =
    (length out ≤ zs_inflate_max_per_push)
    × (d.frames ≡ lines (buf ++ out))
    × (d.overflow ≡ above maxlen (buf ++ out))
Shown maxlen buf (failed c) d = (d.overflow ≡ true) × (d.frames ≡ [])
Shown maxlen buf bomb d = (d.overflow ≡ true) × (d.frames ≡ [])
Shown maxlen buf closed_error d = ⊥

-- An inflate stage behind a push.
abbrev below : {S : Type 0} → Push S → Through S
below a = record {
  stages = a.stage ∷ [];
  out = or_empty a.unit;
  latched = a.overflow || false;
  blobs = a.blobs ++ [];
}

module _ {S : Type 0} (z : Codec S) where
  inflated-Handed :
      {s0 : S} {i0 : Bytes} (r : Outcome) (s : S)
      → Pushes z s0 i0 r s
      → Handed r (below (inflated r s))
  unfolding inflated
  inflated-Handed (pushed []) s p = (refl, refl)
  inflated-Handed (pushed (b ∷ out)) s p = (refl, refl)
  inflated-Handed (failed c) s p = (refl, refl)
  inflated-Handed bomb s p = (refl, refl)
  inflated-Handed closed_error s p = absurd p.verdict

  through-Handed :
      (laws : IsInflate z) (s : S) (b : ℕ) (chunk : Bytes)
      → Handed
          (strm_push z laws s (b ∷ chunk)).0
          (through (strm_push z laws) (inflate s ∷ []) (b ∷ chunk))
  unfolding through push inflate_stage_push
  through-Handed laws s b chunk =
      let (r, s', e, p) = inflate_push-Pushes z s (b ∷ chunk) laws in inflated-Handed r s' p

  -- A refused push leaves the open line.
  refused-Shown :
      (maxlen : ℕ) (buf : Bytes) (t : Through S)
      → IsOpen buf
      → (t.out ≡ []) × (t.latched ≡ true)
      → ((drained maxlen buf t).overflow ≡ true) × ((drained maxlen buf t).frames ≡ [])
  refused-Shown maxlen buf t o (e, f) = (rw f refl, rw (e, append-nil buf) o.no_lines)

  Handed-Shown :
      {s0 s : S} {i0 : Bytes} (maxlen : ℕ) (buf : Bytes) (r : Outcome) (t : Through S)
      → IsOpen buf
      → Pushes z s0 i0 r s
      → Handed r t
      → Shown maxlen buf r (drained maxlen buf t) × (length t.out ≤ zs_inflate_max_per_push)
  Handed-Shown maxlen buf (pushed out) t o p (e, f) =
      let small = p.verdict.1 in
      ((small, rw e refl, rw (e, f) refl), omega (arith, small, ap length e))
  Handed-Shown maxlen buf (failed c) t o p h =
      (refused-Shown maxlen buf t o h, omega (arith, ap length h.0))
  Handed-Shown maxlen buf bomb t o p h =
      (refused-Shown maxlen buf t o h, omega (arith, ap length h.0))
  Handed-Shown maxlen buf closed_error t o p h = absurd h

  -- On the zlib binding's own push, with an `inflate` that keeps to zlib's manual, and with
  -- fuel above the open line that the framer holds and 4 MiB: for a chunk that is not empty,
  -- `inflate_push` returns with an outcome of its calls, and a drain of the chunk through an
  -- inflate stage and the line framer returns and follows this outcome. For bytes that were
  -- pushed, 4 MiB at most, it gives the lines of the open line and these bytes, with an
  -- overflow exactly where a frame or the last open line is above the cap; for a code that
  -- failed, and for a push that passed 4 MiB, it reports an overflow and gives no frame; the
  -- error of a closed stream does not occur.
  pub drain-inflate :
      (laws : IsInflate z) (fuel : ℕ) (s : S) (maxlen : ℕ) (buf : Bytes) (b : ℕ) (chunk : Bytes)
      → IsOpen buf
      → length buf + zs_inflate_max_per_push < fuel
      → (r : Outcome) × (s' : S) × (d : Drained S) × (inflate_push z
            (record { strm = s; closed = false })
            (b ∷ chunk)
          ≡ some (r, record { strm = s'; closed = false }))
        × Pushes z s (fed (b ∷ chunk)) r s'
        × (drain (strm_push z laws) fuel (feed (framed (inflate s ∷ []) maxlen buf) (b ∷ chunk))
            ≡ some d)
        × Shown maxlen buf r d
  drain-inflate laws fuel s maxlen buf b chunk o enough =
      let (r, s', e, p) = inflate_push-Pushes z s (b ∷ chunk) laws in
      let t = through (strm_push z laws) (inflate s ∷ []) (b ∷ chunk) in
      let (shown, small) = Handed-Shown maxlen buf r t o p (through-Handed laws s b chunk) in
      (
        r,
        s',
        drained maxlen buf t,
        e,
        p,
        drain-lines (strm_push z laws) fuel (inflate s ∷ []) maxlen buf (b ∷ chunk) (tt, tt)
            (omega (arith, small, length-append buf t.out)),
        shown,
      )
