-- ===== src/Utf8.antt =====
-- The UTF-8 routines of adclib/adclib.cpp: `utf8ToWc`, `wcToUtf8`, `sanitizeUtf8`, `validateUtf8`.
-- A string is the list of its bytes. `str[i]` at or past the end reads the terminating NUL of
-- `c_str()`. `wchar_t` has 32 bits, so no code point that is put together here can wrap.
pub mod Masks
pub mod Decode
pub mod Encode
pub mod Forms
pub mod Sanitize
pub mod Validate
mod Tests
use luadch.Common.{
  ℕ, zero, suc, ◌+◌, ◌-◌, ◌*◌, ◌/◌, ◌^◌, bit_and, bit_or, Bool, true, false, ◌&&◌, ◌||◌, List, [],
  ◌∷◌, ◌++◌, Option, none, some, ltb, leb, ◌==◌, if◌then◌else◌, get_or, drop, replicate, length, u8,
}

-- The result of `utf8ToWc`: `good c n` is a return of n with the code point c, `bad n` is a return
-- of -n, after which both callers ignore the code point.
pub data Decoded : Type 0 where
  good : ℕ → ℕ → Decoded
  bad : ℕ → Decoded

-- `bytes`, from the lead byte alone.
pub sequence_length : ℕ → ℕ
sequence_length c0 =
    2 + (if bit_and c0 0x20 == 0 then 0 else 1) + (if bit_and c0 0x30 == 0x30 then 1 else 0)

-- The loop over the continuation bytes: `good c i` when it ran to the end.
pub read_rest : List ℕ → ℕ → ℕ → ℕ → Decoded
read_rest str zero i c = good c i
read_rest str (suc left) i c =
    let ci = get_or str i 0 in
    let next = read_rest str left (i + 1) (bit_or (c * 2 ^ 6) (bit_and ci 0x3f)) in
    if bit_and ci 0xc0 == 0x80 then next else bad i

pub is_invalid_code_point : ℕ → Bool
is_invalid_code_point c = ltb 0x10ffff c || (leb 0xd800 c && leb c 0xdfff)

-- The checks on the code point that the loop has put together.
pub check_code_point : Decoded → Decoded
check_code_point (bad n) = bad n
check_code_point (good c bytes) =
    if is_invalid_code_point c
    then bad bytes
    else if (bytes == 2 && ltb c 0x80) || (bytes == 3 && ltb c 0x800)
    then bad bytes
    else good c bytes

pub utf8_to_wc : List ℕ → Decoded
utf8_to_wc str =
    let c0 = get_or str 0 0 in
    let bytes = sequence_length c0 in
    let check_bit = 2 ^ (7 - bytes) in
    if bit_and c0 0xc0 == 0xc0
    then if bit_and c0 check_bit == 0
      then check_code_point (read_rest str (bytes - 1) 1 (bit_and (check_bit - 1) c0))
      else bad 1
    else if bit_and c0 0x80 == 0
    then good c0 1
    else bad 1

-- The branches of `wcToUtf8` for a code point that is not replaced.
pub utf8_bytes : ℕ → List ℕ
utf8_bytes c =
    if leb 0x10000 c
    then u8 (bit_or (bit_or (bit_or (bit_or 0x80 0x40) 0x20) 0x10) (c / 2 ^ 18))
      ∷ u8 (bit_or 0x80 (bit_and (c / 2 ^ 12) 0x3f))
      ∷ u8 (bit_or 0x80 (bit_and (c / 2 ^ 6) 0x3f))
      ∷ u8 (bit_or 0x80 (bit_and c 0x3f))
      ∷ []
    else if leb 0x800 c
    then u8 (bit_or (bit_or (bit_or 0x80 0x40) 0x20) (c / 2 ^ 12))
      ∷ u8 (bit_or 0x80 (bit_and (c / 2 ^ 6) 0x3f))
      ∷ u8 (bit_or 0x80 (bit_and c 0x3f))
      ∷ []
    else if leb 0x80 c
    then u8 (bit_or (bit_or 0x80 0x40) (c / 2 ^ 6)) ∷ u8 (bit_or 0x80 (bit_and c 0x3f)) ∷ []
    else u8 c ∷ []

-- `wcToUtf8`: the bytes are appended to `str`; an invalid code point is replaced by U+FFFD.
pub wc_to_utf8 : ℕ → List ℕ → List ℕ
wc_to_utf8 c str = str ++ (if is_invalid_code_point c then utf8_bytes 0xfffd else utf8_bytes c)

-- The loop of `sanitizeUtf8`, with `str.c_str() + i` as the list; `none` is fuel that ran out.
pub sanitize_loop : ℕ → List ℕ → List ℕ → Option (List ℕ)
sanitize_loop fuel [] tgt = some tgt
sanitize_loop zero (b ∷ s) tgt = none
sanitize_loop (suc fuel) (b ∷ s) tgt = elim (utf8_to_wc (b ∷ s)) [
  | good c n ↦ sanitize_loop fuel (drop n (b ∷ s)) (wc_to_utf8 c tgt)
  | bad n ↦ sanitize_loop fuel (drop n (b ∷ s)) (tgt ++ replicate n 0x5f)
]

-- Each round drops a byte at least.
pub sanitize_utf8 : List ℕ → Option (List ℕ)
sanitize_utf8 str = sanitize_loop (length str) str []

pub validate_loop : ℕ → List ℕ → Option Bool
validate_loop fuel [] = some true
validate_loop zero (b ∷ s) = none
validate_loop (suc fuel) (b ∷ s) = elim (utf8_to_wc (b ∷ s)) [
  | good c n ↦ validate_loop fuel (drop n (b ∷ s))
  | bad n ↦ some false
]

pub validate_utf8 : List ℕ → Option Bool
validate_utf8 str = validate_loop (length str) str
