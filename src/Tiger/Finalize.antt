-- ===== src/Tiger/Finalize.antt =====
-- `finalize` gives the hash of the whole message.
use luadch.Common.{
  ℕ, zero, suc, ◌+◌, ◌-◌, ◌*◌, ◌/◌, ◌%◌, ◌^◌, ◌<◌, ◌≤◌, true, false, List, [], ◌∷◌, ◌++◌, ltb, leb,
  drop, replicate, length, u64, ◌≡◌, refl, ap, ap₂, sym, ◌∙◌, arith, inl, inr, Bool-cases,
  length-append, length-replicate, replicate-add, drop_all, append_assoc, append-nil,
}
use luadch.Tiger.Compress.{Words3}
use luadch.Tiger.Hash.{
  TigerHash, initial, copy_into, compress_block, to_bytes, pad, finalize, get_result,
}
use luadch.Tiger.Spec.{absorb, absorb-block, padding, tiger}
use luadch.Tiger.Stream.{Absorbed, tmppos_lem, copy_into-tail, copy_into-length}

pub length-to_bytes : (count x : ℕ) → length (to_bytes count x) ≡ count
unfolding to_bytes
length-to_bytes zero x = refl
length-to_bytes (suc count) x = ap suc (length-to_bytes count (x / 256))

-- A `memcpy` that ends where the buffer ends.
copy_to_end :
    (tmp front junk str : List ℕ) (i : ℕ)
    → tmp ≡ front ++ junk
    → i ≡ length front
    → length tmp ≤ i + length str
    → copy_into tmp i str ≡ front ++ str
copy_to_end tmp front junk str i e at h =
    ap (λ j. copy_into tmp j str) at
    ∙ copy_into-tail tmp front junk str e
    ∙ ap (◌++◌ (front ++ str)) (drop_all (length front + length str) tmp (omega arith))
    ∙ append-nil (front ++ str)

-- A `memcpy` behind bytes that are known.
copy_behind :
    (tmp front junk str : List ℕ) (i : ℕ)
    → tmp ≡ front ++ junk
    → i ≡ length front
    → copy_into tmp i str ≡ (front ++ str) ++ drop (length front + length str) tmp
copy_behind tmp front junk str i e at =
    ap (λ j. copy_into tmp j str) at ∙ copy_into-tail tmp front junk str e

module _ (h : TigerHash) (msg : List ℕ) (a : Absorbed h msg) where
  abbrev t : ℕ
  t = length a.tail

  abbrev marked : List ℕ
  marked = copy_into h.tmp t (0x01 ∷ [])

  abbrev head : List ℕ
  head = a.tail ++ (0x01 ∷ [])

  abbrev bits : List ℕ
  bits = to_bytes 8 (u64 (h.pos * 2 ^ 3))

  head-length : length head ≡ t + 1
  head-length = length-append a.tail (0x01 ∷ [])

  marked_lem : marked ≡ head ++ drop (t + 1) h.tmp
  marked_lem = copy_into-tail h.tmp a.tail a.junk (0x01 ∷ []) a.buffer

  marked-length : length marked ≡ 64
  marked-length = copy_into-length h.tmp (0x01 ∷ []) t (omega (arith, a.size, a.short)) ∙ a.size

  msg-length : length msg ≡ 64 * a.blocks + t
  msg-length = ap length a.split ∙ length-append a.full a.tail ∙ omega (arith, a.whole)

  bits_lem : bits ≡ to_bytes 8 (u64 (length msg * 8))
  bits_lem = ap (to_bytes 8) (omega (arith, a.counted))

  -- The message and its padding, from the last whole block on.
  padding_lem :
      (k : ℕ)
      → (119 - t) % 64 ≡ k
      → msg ++ padding (length msg) ≡ a.full ++ ((head ++ replicate k 0) ++ bits)
  unfolding padding
  padding_lem k e =
      let zeros : List ℕ = replicate k 0 in
      ap₂ ◌++◌ a.split (
        ap₂ (λ i b. 0x01 ∷ (replicate i 0 ++ b)) (omega (arith, msg-length, a.short))
          (sym bits_lem))
      ∙ append_assoc a.full a.tail (0x01 ∷ (zeros ++ bits))
      ∙ ap (◌++◌ a.full)
          (sym (append_assoc head zeros bits ∙ append_assoc a.tail (0x01 ∷ []) (zeros ++ bits)))

  -- What `finalize` compresses last.
  last_block : TigerHash → Words3
  last_block padded = compress_block (copy_into padded.tmp 56 bits) padded.res

  finalize_lem : finalize h ≡ get_result (last_block (pad h t))
  unfolding finalize last_block
  finalize_lem = ap (λ i. get_result (last_block (pad h i))) (tmppos_lem h msg a)

  tiger_lem :
      (count : ℕ)
      → (64 * a.blocks + t + 72) / 64 ≡ count
      → tiger msg ≡ get_result (absorb count initial (msg ++ padding (length msg)))
  unfolding tiger
  tiger_lem count e =
      ap (λ i. get_result (absorb i initial (msg ++ padding (length msg))))
        (ap (λ l. (l + 72) / 64) msg-length ∙ e)

  -- The length fits behind the tail.
  module _ (k : t + 1 ≤ 56) where
    abbrev gap : List ℕ
    gap = replicate (64 - (t + 1) - 8) 0

    abbrev block : List ℕ
    block = (head ++ gap) ++ bits

    gap-length : length (head ++ gap) ≡ 56
    gap-length =
        length-append head gap
        ∙ omega (arith, head-length, length-replicate {A = ℕ} (64 - (t + 1) - 8) 0)

    block-length : length block ≡ 64
    block-length =
        length-append (head ++ gap) bits
        ∙ omega (arith, gap-length, length-to_bytes 8 (u64 (h.pos * 2 ^ 3)))

    pad_one : pad h t ≡ record h { tmp = copy_into marked (t + 1) gap }
    unfolding pad
    pad_one = let e : ltb 56 (t + 1) ≡ false = ground arith in rw e refl

    written : copy_into (copy_into marked (t + 1) gap) 56 bits ≡ block
    written =
        copy_to_end (copy_into marked (t + 1) gap) (head ++ gap) _ bits 56
          (copy_behind marked head (drop (t + 1) h.tmp) gap (t + 1) marked_lem (sym head-length))
          (sym gap-length)
          (omega (
            arith,
            copy_into-length marked gap (t + 1)
                (omega (arith, marked-length, length-replicate {A = ℕ} (64 - (t + 1) - 8) 0)),
            marked-length,
            length-to_bytes 8 (u64 (h.pos * 2 ^ 3)),
          ))

    finalize_one : finalize h ≡ tiger msg
    unfolding last_block
    finalize_one =
        finalize_lem
        ∙ ap (λ p. get_result (last_block p)) pad_one
        ∙ ap get_result (
            ap₂ compress_block written a.state
            ∙ sym (absorb-block a.blocks initial a.full block a.whole block-length))
        ∙ ap (λ m. get_result (absorb (a.blocks + 1) initial m))
            (sym (padding_lem (64 - (t + 1) - 8) (omega arith)))
        ∙ sym (tiger_lem (a.blocks + 1) (omega (arith, a.short)))

  -- The padding goes on in a block of its own.
  module _ (k : 56 < t + 1) where
    abbrev rest : List ℕ
    rest = replicate (64 - (t + 1)) 0

    abbrev block_1 : List ℕ
    block_1 = head ++ rest

    abbrev block_2 : List ℕ
    block_2 = replicate 56 0 ++ bits

    rest-length : length rest ≡ 64 - (t + 1)
    rest-length = length-replicate {A = ℕ} (64 - (t + 1)) 0

    block_1-length : length block_1 ≡ 64
    block_1-length = length-append head rest ∙ omega (arith, head-length, rest-length, a.short)

    block_2-length : length block_2 ≡ 64
    block_2-length = omega (arith, length-to_bytes 8 (u64 (h.pos * 2 ^ 3)))

    abbrev padded : TigerHash
    padded = record h {
      tmp = replicate 64 0;
      res = compress_block (copy_into marked (t + 1) rest) h.res;
    }

    pad_two : pad h t ≡ padded
    unfolding pad
    pad_two = let e : ltb 56 (t + 1) ≡ true = ground arith in rw e refl

    written_1 : copy_into marked (t + 1) rest ≡ block_1
    written_1 =
        copy_to_end marked head (drop (t + 1) h.tmp) rest (t + 1) marked_lem (sym head-length)
          (omega (arith, marked-length, rest-length))

    written_2 : copy_into (replicate 64 0) 56 bits ≡ block_2
    written_2 =
        copy_to_end (replicate 64 0) (replicate 56 0) (replicate 8 0) bits 56 refl refl
          (omega (arith, length-to_bytes 8 (u64 (h.pos * 2 ^ 3))))

    text_lem : msg ++ padding (length msg) ≡ (a.full ++ block_1) ++ block_2
    text_lem =
        padding_lem (64 - (t + 1) + 56) (omega (arith, a.short))
        ∙ ap (λ z. a.full ++ ((head ++ z) ++ bits)) (replicate-add (64 - (t + 1)) 56 _ 0 refl)
        ∙ ap (λ z. a.full ++ (z ++ bits)) (sym (append_assoc head rest (replicate 56 0)))
        ∙ ap (◌++◌ a.full) (append_assoc block_1 (replicate 56 0) bits)
        ∙ sym (append_assoc a.full block_1 block_2)

    absorbed :
        compress_block (copy_into marked (t + 1) rest) h.res
        ≡ absorb (a.blocks + 1) initial (a.full ++ block_1)
    absorbed =
        ap₂ compress_block written_1 a.state
        ∙ sym (absorb-block a.blocks initial a.full block_1 a.whole block_1-length)

    front-length : length (a.full ++ block_1) ≡ 64 * (a.blocks + 1)
    front-length = length-append a.full block_1 ∙ omega (arith, a.whole, block_1-length)

    finalize_two : finalize h ≡ tiger msg
    unfolding last_block
    finalize_two =
        finalize_lem
        ∙ ap (λ p. get_result (last_block p)) pad_two
        ∙ ap get_result (
            ap₂ compress_block written_2 absorbed
            ∙ sym (
                absorb-block (a.blocks + 1) initial (a.full ++ block_1) block_2 front-length
                  block_2-length))
        ∙ ap (λ m. get_result (absorb (a.blocks + 1 + 1) initial m)) (sym text_lem)
        ∙ sym (tiger_lem (a.blocks + 1 + 1) (omega (arith, a.short)))

-- `finalize` of an object that has taken in a message gives the hash of the message, with the
-- padding in one block or in two.
pub finalize-Absorbed : (h : TigerHash) (msg : List ℕ) → Absorbed h msg → finalize h ≡ tiger msg
finalize-Absorbed h msg a = elim (Bool-cases (leb (length a.tail + 1) 56)) [
  | inl e ↦ finalize_one h msg a (ground arith)
  | inr e ↦ finalize_two h msg a (ground arith)
]
