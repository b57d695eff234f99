-- ===== src/Iostream/Caps.antt =====
-- The cap on a line, over all the chunks that a socket reads.
use Prim.Native.Nat.{max}
use luadch.Common.{
  ℕ, suc, ◌+◌, ◌≤◌, Bool, true, false, ◌||◌, List, [], ◌∷◌, ◌++◌, ltb, ◌==◌, if◌then◌else◌, length,
  map, ◌≡◌, refl, ap, subst, sym, arith, Bool-cases, inl, inr, append_assoc, some, All, ◌<◌,
}
use luadch.Zlib.{Outcome}
use luadch.Iostream.{Bytes, Stage, without_cr}
use luadch.Iostream.Lines.{
  split_lines, on_line, lines, open_line, first_split, unsplit, split, nothing-IsOpen,
}
use luadch.Iostream.Quiet.{IsFront, through}
use luadch.Iostream.Feeds.{framed, some_above, above}
use luadch.Iostream.Reads.{reads, through_all, overflows, reads-lines}

-- The length of the longest line of a text, each "\r" counted, when `k` bytes of the first one
-- stand before the text.
unfoldable pub longest : ℕ → Bytes → ℕ
longest k [] = k
longest k (b ∷ s) = if b == b'\n' then max k (longest 0 s) else longest (suc k) s

longest-le : (k j : ℕ) (s : Bytes) → k ≤ j → longest k s ≤ longest j s
unfolding longest
longest-le k j [] h = h
longest-le k j (b ∷ s) h = elim (Bool-cases (b == b'\n')) [
  | inl e ↦ rw (e, longest) (omega arith)
  | inr e ↦ rw (e, longest) (longest-le (suc k) (suc j) s (omega arith))
]

le_longest : (k : ℕ) (s : Bytes) → k ≤ longest k s
unfolding longest
le_longest k [] = omega arith
le_longest k (b ∷ s) = elim (Bool-cases (b == b'\n')) [
  | inl e ↦ rw (e, longest) (omega arith)
  | inr e ↦ rw (e, longest) (omega (arith, le_longest (suc k) s))
]

longest-append : (k : ℕ) (s t : Bytes) → longest k s ≤ longest k (s ++ t)
unfolding longest
longest-append k [] t = le_longest k t
longest-append k (b ∷ s) t = elim (Bool-cases (b == b'\n')) [
  | inl e ↦ rw (e, longest) (omega (arith, longest-append 0 s t))
  | inr e ↦ rw (e, longest) (longest-append (suc k) s t)
]

longest-open_line : (k : ℕ) (s t : Bytes) → longest 0 (open_line s ++ t) ≤ longest k (s ++ t)
unfolding longest open_line split_lines
longest-open_line k [] t = longest-le 0 k t (omega arith)
longest-open_line k (b ∷ s) t = elim (Bool-cases (b == b'\n')) [
  | inl e ↦ rw (e, longest, open_line, split_lines) (omega (arith, longest-open_line 0 s t))
  | inr e ↦ elim (first_split s) [
    | unsplit f h ↦
        rw (e, h, longest, open_line, split_lines)
          (rw e (longest-le 1 (suc k) (s ++ t) (omega arith)))
    | split i f small h ↦
        rw (e, h, longest, open_line, split_lines)
          (subst (λ o. longest 0 (o ++ t) ≤ longest (suc k) (s ++ t)) (ap (λ p. p.1) h)
            (longest-open_line (suc k) s t))
  ]
]

-- No line of a split text is above the cap, when `k` bytes stand before it.
abbrev Within : ℕ → ℕ → List Bytes × Bytes → Type 0
Within k maxlen ([], q) = k + length q ≤ maxlen
Within k maxlen (l ∷ ls, q) = (k + length l ≤ maxlen) × Within 0 maxlen (ls, q)

Within-on_line :
    (k maxlen b : ℕ) (p : List Bytes × Bytes)
    → Within (suc k) maxlen p
    → Within k maxlen (on_line b p)
Within-on_line k maxlen b ([], q) h = omega arith
Within-on_line k maxlen b (l ∷ ls, q) h = (omega (arith, h.0), h.1)

split_lines-Within :
    (k maxlen : ℕ) (s : Bytes) → longest k s ≤ maxlen → Within k maxlen (split_lines s)
unfolding longest split_lines
split_lines-Within k maxlen [] h = omega arith
split_lines-Within k maxlen (b ∷ s) h = elim (Bool-cases (b == b'\n')) [
  | inl e ↦
      let h' : max k (longest 0 s) ≤ maxlen = rw e at h in
      rw (e, split_lines) (omega (arith, h'), split_lines-Within 0 maxlen s (omega arith))
  | inr e ↦
      rw (e, split_lines)
        (Within-on_line k maxlen b (split_lines s)
          (split_lines-Within (suc k) maxlen s (rw e at h)))
]

length-without_cr : (s : Bytes) → length (without_cr s) ≤ length s
unfolding without_cr
length-without_cr [] = omega arith
length-without_cr (b ∷ s) = elim (Bool-cases (b == b'\r')) [
  | inl e ↦ rw (e, without_cr) (omega (arith, length-without_cr s))
  | inr e ↦ rw (e, without_cr) (omega (arith, length-without_cr s))
]

Within-some_above :
    (maxlen : ℕ) (ls : List Bytes) (q : Bytes)
    → Within 0 maxlen (ls, q)
    → (some_above maxlen (map without_cr ls) || ltb maxlen (length q)) ≡ false
unfolding some_above
Within-some_above maxlen [] q h = ground arith
Within-some_above maxlen (l ∷ ls) q h =
    let small : ltb maxlen (length (without_cr l)) ≡ false =
      ground (arith, length-without_cr l, h.0) in
    rw (small, some_above) (Within-some_above maxlen ls q h.1)

above-longest : (maxlen : ℕ) (s : Bytes) → longest 0 s ≤ maxlen → above maxlen s ≡ false
unfolding lines open_line
above-longest maxlen s h =
    Within-some_above maxlen (split_lines s).0 (split_lines s).1 (split_lines-Within 0 maxlen s h)

neither : (a b : Bool) → (a || b) ≡ false → (a ≡ false) × (b ≡ false)
neither false b h = (refl, h)
neither true b h = absurd (ground arith)

module _ {S : Type 0} (zpush : S → Bytes → Outcome × S) where
  overflows-longest :
      (maxlen : ℕ) (buf : Bytes) (sts : List (Stage S)) (chunks : List Bytes)
      → (through_all zpush sts chunks).latched ≡ false
      → longest 0 (buf ++ (through_all zpush sts chunks).out) ≤ maxlen
      → overflows zpush maxlen buf sts chunks ≡ false
  unfolding overflows through_all
  overflows-longest maxlen buf sts [] q h = refl
  overflows-longest maxlen buf sts (chunk ∷ chunks) q h =
      let t = through zpush sts chunk in
      let s = buf ++ t.out in
      let u = through_all zpush t.stages chunks in
      let (calm, calm') = neither t.latched u.latched q in
      let h' : longest 0 (s ++ u.out) ≤ maxlen =
        subst (λ o. longest 0 o ≤ maxlen) (sym (append_assoc buf t.out u.out)) h in
      let now = above-longest maxlen s (omega (arith, longest-append 0 s u.out)) in
      let later =
        overflows-longest maxlen (open_line s) t.stages chunks calm'
          (omega (arith, longest-open_line 0 s u.out)) in
      rw (now, later, calm, overflows) refl

  -- With fuel above the bytes that reach the line framer, stages in front that have no
  -- overflow, and no line of what they hand on longer than the cap, its CRs counted: the drains
  -- report no overflow, in whichever chunks the bytes came, and give the lines.
  pub reads-longest :
      (fuel : ℕ) (sts : List (Stage S)) (maxlen : ℕ) (chunks : List Bytes)
      → All IsFront sts
      → length (through_all zpush sts chunks).out < fuel
      → (through_all zpush sts chunks).latched ≡ false
      → longest 0 (through_all zpush sts chunks).out ≤ maxlen
      → reads zpush fuel (framed sts maxlen []) chunks
        ≡ some record {
          pipeline =
              framed
                (through_all zpush sts chunks).stages
                maxlen
                (open_line (through_all zpush sts chunks).out);
          frames = lines (through_all zpush sts chunks).out;
          overflow = false;
          blobs = (through_all zpush sts chunks).blobs;
        }
  reads-longest fuel sts maxlen chunks h enough calm small =
      rw
        (
          reads-lines zpush fuel sts maxlen [] chunks h nothing-IsOpen enough,
          overflows-longest maxlen [] sts chunks calm small,
        )
        refl
