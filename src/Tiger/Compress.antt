-- ===== src/Tiger/Compress.antt =====
-- `tigerCompress` and the macros that it is made of: `round`, `pass`, `key_schedule`,
-- `feedforward`, `compress`.
use luadch.Common.{
  ℕ, zero, suc, ◌+◌, ◌-◌, ◌*◌, ◌/◌, ◌%◌, ◌^◌, bit_xor, List, ◌==◌, if◌then◌else◌, get_or, u64,
}
use luadch.Tiger.Table1.{t1}
use luadch.Tiger.Table2.{t2}
use luadch.Tiger.Table3.{t3}
use luadch.Tiger.Table4.{t4}

-- The variables `a`, `b`, `c` of the macros, and the array `state`.
pub record Words3 : Type 0 where
  pub a : ℕ
  pub b : ℕ
  pub c : ℕ

-- The message words `x0` to `x7`.
pub record Words8 : Type 0 where
  pub x0 : ℕ
  pub x1 : ℕ
  pub x2 : ℕ
  pub x3 : ℕ
  pub x4 : ℕ
  pub x5 : ℕ
  pub x6 : ℕ
  pub x7 : ℕ

-- `+`, `-`, `*`, `~` and `<<` on `unsigned long long`.
abbrev pub add64 : ℕ → ℕ → ℕ
add64 x y = u64 (x + y)

abbrev pub sub64 : ℕ → ℕ → ℕ
sub64 x y = u64 (x + (2 ^ 64 - y))

abbrev pub mul64 : ℕ → ℕ → ℕ
mul64 x y = u64 (x * y)

abbrev pub not64 : ℕ → ℕ
not64 x = 2 ^ 64 - 1 - x

abbrev pub shl64 : ℕ → ℕ → ℕ
shl64 x k = u64 (x * 2 ^ k)

-- `(unsigned char)(c >> (8 * i))`
unfoldable pub byte_of : ℕ → ℕ → ℕ
byte_of c i = c / 2 ^ (8 * i) % 256

unfoldable pub at : List ℕ → ℕ → ℕ
at t i = get_or t i 0

-- `round(a, b, c, x, mul)`
unfoldable pub round : Words3 → ℕ → ℕ → Words3
round s x mul =
    let c = bit_xor s.c x in
    let even =
      bit_xor (bit_xor (bit_xor (at t1 (byte_of c 0)) (at t2 (byte_of c 2))) (at t3 (byte_of c 4)))
        (at t4 (byte_of c 6)) in
    let odd =
      bit_xor (bit_xor (bit_xor (at t4 (byte_of c 1)) (at t3 (byte_of c 3))) (at t2 (byte_of c 5)))
        (at t1 (byte_of c 7)) in
    record { a = sub64 s.a even; b = mul64 (add64 s.b odd) mul; c = c }

-- `round(b, c, a, x, mul)`
unfoldable pub round_bca : Words3 → ℕ → ℕ → Words3
round_bca s x mul =
    let r = round (record { a = s.b; b = s.c; c = s.a }) x mul in
    record { a = r.c; b = r.a; c = r.b }

-- `round(c, a, b, x, mul)`
unfoldable pub round_cab : Words3 → ℕ → ℕ → Words3
round_cab s x mul =
    let r = round (record { a = s.c; b = s.a; c = s.b }) x mul in
    record { a = r.b; b = r.c; c = r.a }

-- `pass(a, b, c, mul)`
unfoldable pub pass : Words8 → ℕ → Words3 → Words3
pass x mul s0 =
    let s1 = round s0 x.x0 mul in
    let s2 = round_bca s1 x.x1 mul in
    let s3 = round_cab s2 x.x2 mul in
    let s4 = round s3 x.x3 mul in
    let s5 = round_bca s4 x.x4 mul in
    let s6 = round_cab s5 x.x5 mul in let s7 = round s6 x.x6 mul in round_bca s7 x.x7 mul

unfoldable pub key_schedule : Words8 → Words8
key_schedule x =
    let y0 = sub64 x.x0 (bit_xor x.x7 0xa5a5a5a5a5a5a5a5) in
    let y1 = bit_xor x.x1 y0 in
    let y2 = add64 x.x2 y1 in
    let y3 = sub64 x.x3 (bit_xor y2 (shl64 (not64 y1) 19)) in
    let y4 = bit_xor x.x4 y3 in
    let y5 = add64 x.x5 y4 in
    let y6 = sub64 x.x6 (bit_xor y5 (not64 y4 / 2 ^ 23)) in
    let y7 = bit_xor x.x7 y6 in
    let z0 = add64 y0 y7 in
    let z1 = sub64 y1 (bit_xor z0 (shl64 (not64 y7) 19)) in
    let z2 = bit_xor y2 z1 in
    let z3 = add64 y3 z2 in
    let z4 = sub64 y4 (bit_xor z3 (not64 z2 / 2 ^ 23)) in
    let z5 = bit_xor y5 z4 in
    let z6 = add64 y6 z5 in
    let z7 = sub64 y7 (bit_xor z6 0x0123456789abcdef) in
    record { x0 = z0; x1 = z1; x2 = z2; x3 = z3; x4 = z4; x5 = z5; x6 = z6; x7 = z7 }

-- The variables of the loop of `compress`.
pub record Vars : Type 0 where
  pub abc : Words3
  pub x : Words8

-- The body of the loop over `pass_no`.
unfoldable pub pass_body : ℕ → Vars → Vars
pass_body pass_no v =
    let x = if pass_no == 0 then v.x else key_schedule v.x in
    let mul = if pass_no == 0 then 5 else if pass_no == 1 then 7 else 9 in
    let s = pass x mul v.abc in record { abc = record { a = s.c; b = s.a; c = s.b }; x = x }

-- `for (pass_no = from; pass_no < from + left; pass_no++)`
unfoldable pub passes : ℕ → ℕ → Vars → Vars
passes zero pass_no v = v
passes (suc left) pass_no v = passes left (pass_no + 1) (pass_body pass_no v)

-- `tigerCompress`: the new `state`, with PASSES 3.
unfoldable pub compress : Words8 → Words3 → Words3
unfolding passes
compress str state =
    let s = (passes 3 0 (record { abc = state; x = str })).abc in
    record { a = bit_xor s.a state.a; b = sub64 s.b state.b; c = add64 s.c state.c }
