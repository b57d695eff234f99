-- ===== src/Tiger/Spec.antt =====
-- The hash of a whole message, with no buffer: the padded message is cut into blocks of 64 bytes,
-- which are compressed one after the other. Independent of `update` and `finalize`.
use luadch.Common.{
  ℕ, zero, suc, ◌+◌, ◌-◌, ◌*◌, ◌/◌, ◌%◌, List, [], ◌∷◌, ◌++◌, take, drop, replicate, length, u64,
  ◌≡◌, refl, ap, ap₂, ◌∙◌, arith, take-append_left, drop-append_left, length-drop, take_all,
}
use Prim.Native.Nat.add
use luadch.Tiger.Compress.{Words3}
use luadch.Tiger.Hash.{initial, to_bytes, compress_block, get_result}

-- `count` blocks off the front of the text.
unfoldable pub absorb : ℕ → Words3 → List ℕ → Words3
absorb zero s text = s
absorb (suc count) s text = absorb count (compress_block (take 64 text) s) (drop 64 text)

-- A byte 0x01, zeros up to eight bytes before the end of a block, and the number of bits of the
-- message modulo 2 ^ 64 in eight bytes, lowest first.
unfoldable pub padding : ℕ → List ℕ
padding size = 0x01 ∷ (replicate ((119 - size % 64) % 64) 0 ++ to_bytes 8 (u64 (size * 8)))

unfoldable pub tiger : List ℕ → List ℕ
tiger msg = get_result (absorb ((length msg + 72) / 64) initial (msg ++ padding (length msg)))

pub absorb-append :
    (p q : ℕ) (s : Words3) (xs ys : List ℕ)
    → length xs ≡ 64 * p
    → absorb (p + q) s (xs ++ ys) ≡ absorb q (absorb p s xs) ys
unfolding absorb
absorb-append zero q s [] ys h = rw (add.zero q) refl
absorb-append zero q s (x ∷ xs) ys h = absurd (omega arith)
absorb-append (suc p) q s xs ys h =
    ap (λ n. absorb n s (xs ++ ys)) (add.suc p q)
    ∙ ap₂ (λ b r. absorb (p + q) (compress_block b s) r) (take-append_left 64 xs ys (omega arith))
        (drop-append_left 64 xs ys (omega arith))
    ∙ absorb-append p q (compress_block (take 64 xs) s) (drop 64 xs) ys
        (omega (arith, length-drop 64 xs))

-- One block more, the last, of which the text behind is not read.
pub absorb-block :
    (p : ℕ) (s : Words3) (xs block : List ℕ)
    → length xs ≡ 64 * p
    → length block ≡ 64
    → absorb (p + 1) s (xs ++ block) ≡ compress_block block (absorb p s xs)
absorb-block p s xs block h k =
    absorb-append p 1 s xs block h
    ∙ unfold absorb in ap (λ b. compress_block b (absorb p s xs)) (take_all 64 block (omega arith))
