-- ===== src/Hashes.antt =====
-- The functions of adclib/adclib.cpp that hash a login's secrets, `hash_pid`, `hash_pas` and
-- `hash_pas_oldschool`, and the comparison `constant_time_eq`. `memory` is what the stack held where
-- a `TigerHash` is made; `none` is fuel that ran out in a loop of a component.
pub mod Digest
pub mod Logins
pub mod Compare
mod Tests
use luadch.Common.{
  ℕ, ◌+◌, ◌*◌, ◌/◌, bit_or, bit_xor, Bool, true, false, ◌||◌, List, [], ◌∷◌, Option, none, some,
  ltb, ◌==◌, if◌then◌else◌, length, u8, u64, ◌>>=◌,
}
use luadch.Base32.{to_base32, from_base32}
use luadch.Tiger.Hash.{TigerHash, tiger_hash, update, finalize}

-- A string on the Lua stack, or a Lua error that names a number of bytes.
pub data Outcome : Type 0 where
  pushed : List ℕ → Outcome
  out_of_range : ℕ → Outcome

-- `SIZE`, and `MAX_SALT_BYTES`.
abbrev pub hash_size : ℕ
hash_size = 24

abbrev pub max_salt_bytes : ℕ
max_salt_bytes = 64

-- `Tiger.finalize()` and the four lines behind it, the same in the three functions.
pub push_hash : TigerHash → Option Outcome
push_hash h = do result ← to_base32 (finalize h); some (pushed result)

pub hash_pid : List ℕ → List ℕ → Option Outcome
hash_pid memory pid = do h ← update (tiger_hash memory) (from_base32 pid hash_size); push_hash h

-- `salt_len * 5 / 8`
abbrev pub salt_bytes : List ℕ → ℕ
salt_bytes salt = u64 (length salt * 5) / 8

-- `saltBytes == 0 || saltBytes > MAX_SALT_BYTES`
abbrev pub refuses : ℕ → Bool
refuses n = n == 0 || ltb max_salt_bytes n

pub hash_pas : List ℕ → List ℕ → List ℕ → Option Outcome
hash_pas memory pass salt = elim (refuses (salt_bytes salt)) [
  | true ↦ some (out_of_range (salt_bytes salt))
  | false ↦ do
    h1 ← update (tiger_hash memory) pass
    h2 ← update h1 (from_base32 salt (salt_bytes salt))
    push_hash h2
]

pub hash_pas_oldschool : List ℕ → List ℕ → List ℕ → List ℕ → Option Outcome
hash_pas_oldschool memory pass salt cid = elim (refuses (salt_bytes salt)) [
  | true ↦ some (out_of_range (salt_bytes salt))
  | false ↦ do
    h1 ← update (tiger_hash memory) (from_base32 cid hash_size)
    h2 ← update h1 pass
    h3 ← update h2 (from_base32 salt (salt_bytes salt))
    push_hash h3
]

-- The loop of `constant_time_eq`, with `diff`, over two texts of one length.
pub accumulate : ℕ → List ℕ → List ℕ → ℕ
accumulate diff [] b = diff
accumulate diff (x ∷ a) [] = diff
accumulate diff (x ∷ a) (y ∷ b) = accumulate (u8 (bit_or diff (u8 (bit_xor x y)))) a b

pub constant_time_eq : List ℕ → List ℕ → Bool
constant_time_eq a b = if length a == length b then accumulate 0 a b == 0 else false
