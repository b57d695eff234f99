-- ===== src/Tiger/Update.antt =====
-- `update` takes in its bytes: the three parts of the method, and the method.
use luadch.Common.{
  ℕ, ◌+◌, ◌-◌, ◌<◌, ◌≤◌, bit_and, List, [], ◌∷◌, ◌++◌, Option, none, some, ltb, leb, ◌==◌,
  if◌then◌else◌, take, drop, length, u64, ◌≡◌, refl, ap, ap₂, sym, ◌∙◌, subst, ◌≢◌, arith, inl, inr,
  Bool-cases, length-append, length-take, take_all, drop_all, take-append-drop, append_assoc,
  append-nil,
}
use luadch.Tiger.Hash.{TigerHash, initial, copy_into, compress_block, fill, bulk, keep, update}
use luadch.Tiger.Spec.{absorb, absorb-block}
use luadch.Tiger.Stream.{Absorbed, Whole, tmppos_lem, copy_into-tail, copy_into-length, counted_lem}
use luadch.Tiger.Bulk.{bulk-Bulked}

keep-Absorbed :
    (h : TigerHash) (msg str : List ℕ)
    → Whole h msg
    → length str < 64
    → Absorbed (keep h str) (msg ++ str)
unfolding keep
keep-Absorbed h msg str w k = record {
  blocks = w.blocks;
  full = msg;
  tail = str;
  junk = drop (0 + length str) h.tmp;
  split = refl;
  whole = w.whole;
  short = k;
  state = w.state;
  buffer = copy_into-tail h.tmp [] h.tmp str refl;
  size = copy_into-length h.tmp str 0 (omega (arith, w.size)) ∙ w.size;
  counted = counted_lem h.pos (length str) msg str w.counted refl;
}

-- The part under `tmppos > 0`, with `n` bytes copied.
module _ (h : TigerHash) (msg str : List ℕ) (a : Absorbed h msg) where
  abbrev n : ℕ
  n = if leb (length str) (64 - length a.tail) then length str else 64 - length a.tail

  abbrev x : List ℕ
  x = take n str

  n_bounds : (length a.tail + n ≤ 64) × (n ≤ length str) × (length a.tail + n ≢ 64 → n ≡ length str)
  n_bounds = (ground (arith, a.short), ground (arith, a.short), λ ne. ground (arith, a.short))

  x-length : length x ≡ n
  x-length = length-take n str ∙ omega (arith, n_bounds)

  abbrev tmp' : List ℕ
  tmp' = copy_into h.tmp (length a.tail) x

  tmp'-length : length tmp' ≡ 64
  tmp'-length =
      copy_into-length h.tmp x (length a.tail) (omega (arith, a.size, x-length, n_bounds)) ∙ a.size

  tmp'_lem : tmp' ≡ (a.tail ++ x) ++ drop (length a.tail + length x) h.tmp
  tmp'_lem = copy_into-tail h.tmp a.tail a.junk x a.buffer

  tmp'_full : length a.tail + n ≡ 64 → tmp' ≡ a.tail ++ x
  tmp'_full e =
      tmp'_lem
      ∙ ap (◌++◌ (a.tail ++ x))
          (drop_all (length a.tail + length x) h.tmp (omega (arith, a.size, x-length)))
      ∙ append-nil (a.tail ++ x)

  joined : msg ++ x ≡ a.full ++ (a.tail ++ x)
  joined = ap (λ m. m ++ x) a.split ∙ append_assoc a.full a.tail x

  seam : length a.tail + n ≡ 64 → length (a.tail ++ x) ≡ 64
  seam e = length-append a.tail x ∙ omega (arith, x-length)

  fill-Whole :
      length a.tail + n ≡ 64
      → Whole
          (record { tmp = tmp'; res = compress_block tmp' h.res; pos = u64 (h.pos + n) })
          (msg ++ x)
  fill-Whole e = record {
    blocks = a.blocks + 1;
    whole = ap length joined ∙ length-append a.full (a.tail ++ x) ∙ omega (arith, a.whole, seam e);
    state =
        ap₂ compress_block (tmp'_full e) a.state
        ∙ sym (absorb-block a.blocks initial a.full (a.tail ++ x) a.whole (seam e))
        ∙ ap (absorb (a.blocks + 1) initial) (sym joined);
    size = tmp'-length;
    counted = counted_lem h.pos n msg x a.counted (sym x-length);
  }

  abbrev part_filled : TigerHash
  part_filled = record { tmp = tmp'; res = h.res; pos = u64 (h.pos + n) }

  fill-Absorbed : length a.tail + n ≢ 64 → Absorbed part_filled (msg ++ str)
  fill-Absorbed e =
      let all : n ≡ length str = n_bounds.2 e in
      let same : x ≡ str = take_all n str (omega arith) in
      record {
        blocks = a.blocks;
        full = a.full;
        tail = a.tail ++ x;
        junk = drop (length a.tail + length x) h.tmp;
        split = ap (◌++◌ msg) (sym same) ∙ joined;
        whole = a.whole;
        short = rw length-append (omega (arith, x-length, n_bounds));
        state = a.state;
        buffer = tmp'_lem;
        size = tmp'-length;
        counted = counted_lem h.pos n msg str a.counted all;
      }

  nothing_left : length a.tail + n ≢ 64 → drop n str ≡ []
  nothing_left e = drop_all n str (omega (arith, n_bounds.2 e))

abbrev finish : Option (TigerHash × List ℕ) → Option TigerHash
finish none = none
finish (some (h, str)) = some (keep h str)

finish-Whole :
    (h : TigerHash) (msg str : List ℕ)
    → Whole h msg
    → (h' : TigerHash) × (finish (bulk (length str) h str) ≡ some h') × Absorbed h' (msg ++ str)
finish-Whole h msg str w =
    let b = bulk-Bulked (length str) h msg str w (omega arith) in
    (
      keep b.after b.rest,
      ap finish b.returns,
      subst (Absorbed (keep b.after b.rest))
          (append_assoc msg b.front b.rest ∙ ap (◌++◌ msg) (sym b.split))
          (keep-Absorbed b.after (msg ++ b.front) b.rest b.taken b.short),
    )

finish_part :
    (h : TigerHash) (msg : List ℕ)
    → Absorbed h msg
    → (h' : TigerHash) × (finish (bulk 0 h []) ≡ some h') × Absorbed h' msg
unfolding bulk keep copy_into
finish_part h msg a = (
  keep h [],
  refl,
  record {
    blocks = a.blocks;
    full = a.full;
    tail = a.tail;
    junk = a.junk;
    split = a.split;
    whole = a.whole;
    short = a.short;
    state = a.state;
    buffer = a.buffer;
    size = a.size;
    counted = omega (arith, a.counted);
  },
)

abbrev entry : TigerHash → List ℕ → ℕ → TigerHash × List ℕ
entry h str t = if ltb 0 t then fill h t str else (h, str)

abbrev from_entry : TigerHash × List ℕ → Option TigerHash
from_entry (h, str) = finish (bulk (length str) h str)

update_lem :
    (h : TigerHash) (str : List ℕ) (t : ℕ)
    → bit_and h.pos (64 - 1) ≡ t
    → update h str ≡ from_entry (entry h str t)
unfolding update
update_lem h str t e = ap (λ i. from_entry (entry h str i)) e

-- With nothing in the buffer, all is whole blocks.
empty_tail : (h : TigerHash) (msg : List ℕ) (a : Absorbed h msg) → length a.tail ≡ 0 → Whole h msg
empty_tail h msg a e = record {
  blocks = a.blocks;
  whole = ap length a.split ∙ length-append a.full a.tail ∙ omega (arith, a.whole);
  state = a.state ∙ ap (absorb a.blocks initial) (sym (a.split ∙ no_tail a.tail e));
  size = a.size;
  counted = a.counted;
}
  where
    no_tail : (tail : List ℕ) → length tail ≡ 0 → a.full ++ tail ≡ a.full
    no_tail [] e = append-nil a.full
    no_tail (b ∷ tail) e = absurd (omega arith)

abbrev Taken : TigerHash → List ℕ → List ℕ → Option TigerHash → Type 0
Taken h msg str r = (h' : TigerHash) × (r ≡ some h') × Absorbed h' (msg ++ str)

-- The buffer is filled up, or it takes all of the bytes.
filled :
    (h : TigerHash) (msg str : List ℕ) (a : Absorbed h msg)
    → Taken h msg str (from_entry (fill h (length a.tail) str))
unfolding fill
filled h msg str a = elim (Bool-cases (length a.tail + n h msg str a == 64)) [
  | inl e ↦
      let seen = x h msg str a in
      let rest = drop (n h msg str a) str in
      let (h', returns, taken) =
        finish-Whole _ (msg ++ seen) rest (fill-Whole h msg str a (ground arith)) in
      rw e (
        h',
        returns,
        subst (Absorbed h')
            (append_assoc msg seen rest ∙ ap (◌++◌ msg) (take-append-drop (n h msg str a) str))
            taken,
      )
  | inr e ↦
      let ne : length a.tail + n h msg str a ≢ 64 = ground arith in
      rw e (
        subst (λ s. Taken h msg str (from_entry (part_filled h msg str a, s)))
          (sym (nothing_left h msg str a ne))
          (finish_part (part_filled h msg str a) (msg ++ str) (fill-Absorbed h msg str a ne)))
]

-- `update` returns, and an object that had taken in some bytes has then taken in those and the
-- new ones: whole blocks compressed, the rest in the buffer, the bytes counted modulo 2 ^ 64.
pub update-Absorbed :
    (h : TigerHash) (msg str : List ℕ)
    → Absorbed h msg
    → (h' : TigerHash) × (update h str ≡ some h') × Absorbed h' (msg ++ str)
update-Absorbed h msg str a =
    rw (update_lem h str (length a.tail) (tmppos_lem h msg a))
      (elim (Bool-cases (ltb 0 (length a.tail))) [
        | inl e ↦ rw e (filled h msg str a)
        | inr e ↦ rw e (finish-Whole h msg str (empty_tail h msg a (ground arith)))
      ])
