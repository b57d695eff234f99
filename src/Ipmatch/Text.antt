-- ===== src/Ipmatch/Text.antt =====
-- `_v6_normalize`, `normalize` and `format_bytes` of core/ipmatch.lua.
use luadch.Common.{
  ℕ, suc, ◌+◌, ◌*◌, ◌/◌, ◌%◌, Bool, true, false, ◌&&◌, List, [], ◌∷◌, ◌++◌, Option, none, some, ltb,
  ◌==◌, if◌then◌else◌, length, take, drop, get_or,
}
use luadch.Ipmatch.V4.{v4_normalize}
use luadch.Ipmatch.Address.{Ip, ip4, ip6, failed4, failed6, parse_ip}

-- `%x` of a number below 65536.
abbrev pub hex_digit : ℕ → ℕ
hex_digit d = if ltb d 10 then b'0' + d else 87 + d

unfoldable pub format_x : ℕ → List ℕ
format_x n =
    if ltb n 16
    then hex_digit n ∷ []
    else if ltb n 256
    then hex_digit (n / 16) ∷ hex_digit (n % 16) ∷ []
    else if ltb n 4096
    then hex_digit (n / 256) ∷ hex_digit (n / 16 % 16) ∷ hex_digit (n % 16) ∷ []
    else hex_digit (n / 4096)
      ∷ hex_digit (n / 256 % 16)
      ∷ hex_digit (n / 16 % 16)
      ∷ hex_digit (n % 16)
      ∷ []

-- `groups`
unfoldable pub groups_of : List ℕ → List (List ℕ)
groups_of [] = []
groups_of (b ∷ []) = []
groups_of (hi ∷ lo ∷ bytes) = format_x (hi * 256 + lo) ∷ groups_of bytes

abbrev pub is_zero_group : List ℕ → Bool
is_zero_group (c ∷ []) = c == b'0'
is_zero_group _ = false

-- `best_start`, `best_len`, `cur_start` and `cur_len`; a place is counted from 0.
pub record ZeroRun : Type 0 where
  pub best_start : Option ℕ
  pub best_len : ℕ
  pub cur_start : Option ℕ
  pub cur_len : ℕ

abbrev pub or_else : Option ℕ → ℕ → ℕ
or_else none i = i
or_else (some s) i = s

unfoldable pub zero_step : ℕ → List ℕ → ZeroRun → ZeroRun
zero_step i g r =
    if is_zero_group g
    then (let start = or_else r.cur_start i in
        if ltb r.best_len (suc r.cur_len)
        then record {
          best_start = some start;
          best_len = suc r.cur_len;
          cur_start = some start;
          cur_len = suc r.cur_len;
        }
        else record r { cur_start = some start; cur_len = suc r.cur_len })
    else record r { cur_start = none; cur_len = 0 }

unfoldable pub zero_run : ℕ → List (List ℕ) → ZeroRun → ZeroRun
zero_run i [] r = r
zero_run i (g ∷ gs) r = zero_run (suc i) gs (zero_step i g r)

-- `table_concat( groups, ":" )`
unfoldable pub join_groups : List (List ℕ) → List ℕ
join_groups [] = []
join_groups (g ∷ []) = g
join_groups (g ∷ h ∷ gs) = g ++ (b':' ∷ join_groups (h ∷ gs))

abbrev pub dcolon : List ℕ → List ℕ
dcolon s = b':' ∷ b':' ∷ s

unfoldable pub compressed : List (List ℕ) → Option ℕ → ℕ → List ℕ
compressed groups none len = join_groups groups
compressed groups (some start) len =
    join_groups (take start groups) ++ dcolon (join_groups (drop (start + len) groups))

abbrev pub no_run : ZeroRun
no_run = record { best_start = none; best_len = 1; cur_start = none; cur_len = 0 }

-- The groups with the longest run of zeros left out.
unfoldable pub compress : List (List ℕ) → List ℕ
compress groups = let r = zero_run 0 groups no_run in compressed groups r.best_start r.best_len

-- `is_v4_mapped`
abbrev pub all_zero : List ℕ → Bool
all_zero [] = true
all_zero (b ∷ bytes) = b == 0 && all_zero bytes

abbrev pub is_mapped : List ℕ → Bool
is_mapped bytes =
    all_zero (take 10 bytes) && (get_or bytes 10 0 == 0xff && get_or bytes 11 0 == 0xff)

unfoldable pub v6_normalize : List ℕ → List ℕ
v6_normalize bytes =
    if is_mapped bytes
    then dcolon (
        b'f'
        ∷ b'f'
        ∷ b'f'
        ∷ b'f'
        ∷ b':'
        ∷ v4_normalize (get_or bytes 12 0) (get_or bytes 13 0) (get_or bytes 14 0)
            (get_or bytes 15 0))
    else compress (groups_of bytes)

-- `normalize`; a message stands for no text.
abbrev pub normalized : Ip → Option (List ℕ)
normalized (ip4 (a ∷ b ∷ c ∷ d ∷ [])) = some (v4_normalize a b c d)
normalized (ip4 bytes) = none
normalized (ip6 bytes) = some (v6_normalize bytes)
normalized (failed4 v) = none
normalized (failed6 f) = none

unfoldable pub normalize : List ℕ → Option (List ℕ)
normalize s = normalized (parse_ip s)

-- `format_bytes` of 6, where the family 4 is `format_v4`.
unfoldable pub format_v6 : List ℕ → Option (List ℕ)
format_v6 bytes = if length bytes == 16 then some (v6_normalize bytes) else none

-- `family`
pub family : List ℕ → Option ℕ
family s = elim (parse_ip s) [
  | ip4 bytes ↦ some 4
  | ip6 bytes ↦ some 6
  | failed4 v ↦ none
  | failed6 f ↦ none
]
