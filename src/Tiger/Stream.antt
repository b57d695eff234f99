-- ===== src/Tiger/Stream.antt =====
-- `update` over a message in pieces: the buffer holds the bytes behind the last whole block.
use luadch.Common.{
  ℕ, ◌+◌, ◌-◌, ◌*◌, ◌<◌, ◌≤◌, bit_and, List, [], ◌++◌, take, drop, length, u64, ◌≡◌, refl, ap, sym,
  ◌∙◌, arith, length-append, length-take, length-drop, take-append, append_assoc, append-nil,
}
use luadch.Common.Bits.{bit_and_low}
use luadch.Tiger.Hash.{TigerHash, initial, copy_into}
use luadch.Tiger.Spec.{absorb}

-- `h` has taken in the bytes `msg`: `blocks` blocks are compressed and `tail` is in the buffer, in
-- front of bytes that are of no account.
pub record Absorbed (h : TigerHash) (msg : List ℕ) : Type 0 where
  pub blocks : ℕ
  pub full : List ℕ
  pub tail : List ℕ
  pub junk : List ℕ
  pub split : msg ≡ full ++ tail
  pub whole : length full ≡ 64 * blocks
  pub short : length tail < 64
  pub state : h.res ≡ absorb blocks initial full
  pub buffer : h.tmp ≡ tail ++ junk
  pub size : length h.tmp ≡ 64
  pub counted : h.pos ≡ u64 (length msg)

-- The same with an empty tail.
pub record Whole (h : TigerHash) (msg : List ℕ) : Type 0 where
  pub blocks : ℕ
  pub whole : length msg ≡ 64 * blocks
  pub state : h.res ≡ absorb blocks initial msg
  pub size : length h.tmp ≡ 64
  pub counted : h.pos ≡ u64 (length msg)

-- The index into the buffer is the length of the tail.
pub tmppos_lem :
    (h : TigerHash) (msg : List ℕ) (a : Absorbed h msg) → bit_and h.pos (64 - 1) ≡ length a.tail
tmppos_lem h msg a =
    bit_and_low 6 h.pos
    ∙ omega (arith, a.counted, ap length a.split, length-append a.full a.tail, a.whole, a.short)

pub Whole-Absorbed : (h : TigerHash) (msg : List ℕ) → Whole h msg → Absorbed h msg
Whole-Absorbed h msg w = record {
  blocks = w.blocks;
  full = msg;
  tail = [];
  junk = h.tmp;
  split = sym (append-nil msg);
  whole = w.whole;
  short = omega arith;
  state = w.state;
  buffer = refl;
  size = w.size;
  counted = w.counted;
}

-- `memcpy` at the end of the tail.
pub copy_into-tail :
    (tmp tail junk str : List ℕ)
    → tmp ≡ tail ++ junk
    → copy_into tmp (length tail) str ≡ (tail ++ str) ++ drop (length tail + length str) tmp
unfolding copy_into
copy_into-tail tmp tail junk str e =
    ap (λ t. t ++ (str ++ drop (length tail + length str) tmp))
      (ap (take (length tail)) e ∙ take-append tail junk (length tail) refl)
    ∙ sym (append_assoc tail str (drop (length tail + length str) tmp))

pub copy_into-length :
    (tmp str : List ℕ) (i : ℕ)
    → i + length str ≤ length tmp
    → length (copy_into tmp i str) ≡ length tmp
unfolding copy_into
copy_into-length tmp str i h =
    length-append (take i tmp) (str ++ drop (i + length str) tmp)
    ∙ omega (
      arith,
      length-append str (drop (i + length str) tmp),
      length-take i tmp,
      length-drop (i + length str) tmp,
    )

pub counted_lem :
    (pos n : ℕ) (msg str : List ℕ)
    → pos ≡ u64 (length msg)
    → n ≡ length str
    → u64 (pos + n) ≡ u64 (length (msg ++ str))
counted_lem pos n msg str e f = rw length-append (omega arith)
