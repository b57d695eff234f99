-- ===== src/Tiger/Hash.antt =====
-- The class `TigerHash`: its buffer, `update` and `finalize`.
use luadch.Common.{
  ℕ, zero, suc, ◌+◌, ◌-◌, ◌*◌, ◌/◌, ◌%◌, ◌^◌, bit_and, true, false, List, [], ◌∷◌, ◌++◌, Option,
  none, some, ltb, leb, ◌==◌, if◌then◌else◌, get_or, take, drop, replicate, length, u64,
}
use luadch.Tiger.Compress.{Words3, Words8, compress}

-- The members `tmp`, of 64 bytes, `res` and `pos`.
pub record TigerHash : Type 0 where
  pub tmp : List ℕ
  pub res : Words3
  pub pos : ℕ

unfoldable pub initial : Words3
initial = record { a = 0x0123456789abcdef; b = 0xfedcba9876543210; c = 0xf096a5b4c3b2e187 }

-- The constructor leaves `tmp` as the memory was.
unfoldable pub tiger_hash : List ℕ → TigerHash
tiger_hash garbage = record { tmp = garbage; res = initial; pos = 0 }

-- `memcpy(dst + i, bytes, length)`
unfoldable pub copy_into : List ℕ → ℕ → List ℕ → List ℕ
copy_into dst i bytes = take i dst ++ (bytes ++ drop (i + length bytes) dst)

-- The number that `count` bytes hold, lowest first.
unfoldable pub from_bytes : ℕ → List ℕ → ℕ
from_bytes zero s = 0
from_bytes (suc count) s = get_or s 0 0 + 256 * from_bytes count (drop 1 s)

unfoldable pub to_bytes : ℕ → ℕ → List ℕ
to_bytes zero x = []
to_bytes (suc count) x = x % 256 ∷ to_bytes count (x / 256)

-- `memcpy(aligned, block, BLOCK_SIZE)`
unfoldable pub aligned : List ℕ → Words8
aligned block = record {
  x0 = from_bytes 8 block;
  x1 = from_bytes 8 (drop 8 block);
  x2 = from_bytes 8 (drop 16 block);
  x3 = from_bytes 8 (drop 24 block);
  x4 = from_bytes 8 (drop 32 block);
  x5 = from_bytes 8 (drop 40 block);
  x6 = from_bytes 8 (drop 48 block);
  x7 = from_bytes 8 (drop 56 block);
}

-- `memcpy(aligned, block, BLOCK_SIZE); tigerCompress(aligned, res);`
unfoldable pub compress_block : List ℕ → Words3 → Words3
compress_block block res = compress (aligned block) res

-- The part of `update` under `if (tmppos > 0)`, with what is left of `data`.
unfoldable pub fill : TigerHash → ℕ → List ℕ → TigerHash × List ℕ
fill h tmppos str =
    let n = if leb (length str) (64 - tmppos) then length str else 64 - tmppos in
    let tmp' = copy_into h.tmp tmppos (take n str) in
    let res' = if tmppos + n == 64 then compress_block tmp' h.res else h.res in
    (record { tmp = tmp'; res = res'; pos = u64 (h.pos + n) }, drop n str)

-- `while (length >= BLOCK_SIZE)`; `none` is fuel that ran out.
unfoldable pub bulk : ℕ → TigerHash → List ℕ → Option (TigerHash × List ℕ)
bulk zero h str = if leb 64 (length str) then none else some (h, str)
bulk (suc fuel) h str = elim (leb 64 (length str)) [
  | true ↦
      bulk fuel (record h { res = compress_block (take 64 str) h.res; pos = u64 (h.pos + 64) })
        (drop 64 str)
  | false ↦ some (h, str)
]

-- The two statements behind the loop.
unfoldable pub keep : TigerHash → List ℕ → TigerHash
keep h str = record h { tmp = copy_into h.tmp 0 str; pos = u64 (h.pos + length str) }

unfoldable pub update : TigerHash → List ℕ → Option TigerHash
update h str =
    let tmppos = bit_and h.pos (64 - 1) in
    let (h1, str1) = if ltb 0 tmppos then fill h tmppos str else (h, str) in
    elim (bulk (length str1) h1 str1) [ none ↦ none | some (h2, str2) ↦ some (keep h2 str2) ]

-- `getResult`: the bytes of `res`.
unfoldable pub get_result : Words3 → List ℕ
get_result r = to_bytes 8 r.a ++ (to_bytes 8 r.b ++ to_bytes 8 r.c)

-- `tmp` and `res` before the length is written: the byte 0x01 at `tmppos`, then zeros.
unfoldable pub pad : TigerHash → ℕ → TigerHash
pad h tmppos =
    let marked = copy_into h.tmp tmppos (0x01 ∷ []) in
    let next = tmppos + 1 in
    if ltb (64 - 8) next
    then record h {
      tmp = replicate 64 0;
      res = compress_block (copy_into marked next (replicate (64 - next) 0)) h.res;
    }
    else record h { tmp = copy_into marked next (replicate (64 - next - 8) 0) }

unfoldable pub finalize : TigerHash → List ℕ
finalize h =
    let padded = pad h (bit_and h.pos (64 - 1)) in
    let bit_length = u64 (h.pos * 2 ^ 3) in
    get_result (compress_block (copy_into padded.tmp 56 (to_bytes 8 bit_length)) padded.res)
