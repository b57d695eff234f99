-- ===== src/Tiger/Tests.antt =====
-- Runs of the hash, and the theorems at concrete inputs.
use luadch.Common.{ℕ, List, [], ◌∷◌, none, some, replicate, ◌≡◌, refl}
use luadch.Tiger.Table1.{t1}
use luadch.Tiger.Table2.{t2}
use luadch.Tiger.Table3.{t3}
use luadch.Tiger.Table4.{t4}
use luadch.Tiger.Compress.{
  byte_of, at, round, round_bca, round_cab, pass, key_schedule, pass_body, passes, compress,
}
use luadch.Tiger.Hash.{
  initial, copy_into, from_bytes, to_bytes, aligned, compress_block, get_result, TigerHash,
  tiger_hash, update, finalize, fill, bulk, keep, pad,
}
use luadch.Tiger.Spec.{tiger}
use luadch.Tiger.Pieces.{update_all, finalize-update_all}

abbrev memory : List ℕ
memory = replicate 64 0xcc

-- The leaf of an empty file in a Tiger tree, the hash of one byte 0.
zero_leaf :
    elim (update (tiger_hash memory) (0 ∷ [])) [ none ↦ [] | some h ↦ finalize h ]
    ≡ 93 ∷ 158 ∷ 208 ∷ 10 ∷ 3 ∷ 14 ∷ 99 ∷ 139 ∷ 219 ∷ 117 ∷ 58 ∷ 106 ∷ 36 ∷ 251 ∷ 144 ∷ 14 ∷ 90 ∷ 99
      ∷ 184 ∷ 231 ∷ 62 ∷ 108 ∷ 37 ∷ 182 ∷ []
unfolding update finalize fill bulk keep pad tiger_hash initial copy_into from_bytes to_bytes
    aligned compress_block get_result compress passes pass_body key_schedule pass round_cab
    round_bca round at byte_of t1 t2 t3 t4
zero_leaf = refl

finalize-update_all_example :
    (h : TigerHash) × (update_all (tiger_hash memory) ((1 ∷ 2 ∷ []) ∷ [] ∷ (3 ∷ []) ∷ []) ≡ some h)
    × (finalize h ≡ tiger (1 ∷ 2 ∷ 3 ∷ []))
finalize-update_all_example = finalize-update_all memory ((1 ∷ 2 ∷ []) ∷ [] ∷ (3 ∷ []) ∷ []) refl
