-- ===== src/Hub.antt =====
-- The Lua primitive `makedir` of hub/hub.c. A path is the bytes before its NUL. The system call
-- `mkdir` is a parameter: a function on the file system with its `errno`, `none` for success.
pub mod Makedir
pub mod Tables
pub mod Listing
pub mod Limits
pub mod Life
pub mod Ended
pub mod Pid
pub mod Daemon
pub mod Restore
mod Tests
mod ListTests
mod TableTests
mod ProcessTests
use luadch.Common.{
  ℕ, ◌+◌, ◌-◌, ◌≤◌, Bool, true, false, not, ◌&&◌, ◌||◌, List, [], ◌∷◌, ◌++◌, Option, none, some,
  leb, ◌==◌, if◌then◌else◌, length, get_or,
}

-- `EEXIST`
abbrev pub eexist : ℕ
eexist = 17

-- `true`, or `nil` with the first or the second message.
pub data Outcome : Type 0 where
  made empty_or_too_long : Outcome
  cannot_create : List ℕ → ℕ → Outcome

abbrev pub is_separator : ℕ → Bool
is_separator c = (c == b'/') || (c == b'\\')

-- `i >= 2 && buf[i - 1] == ':'`, for the `i` bytes before the cut: a drive root, and any other front
-- part of two bytes or more that ends in a colon.
abbrev pub is_drive : List ℕ → Bool
is_drive buf = leb 2 (length buf) && (get_or buf (length buf - 1) 0 == b':')

-- `mkrc != 0 && e != EEXIST`
abbrev pub fatal : Option ℕ → Option ℕ
fatal none = none
fatal (some e) = if e == eexist then none else some e

module _ {S : Type 0} (mkdir : S → List ℕ → S × Option ℕ) where
  -- The body of the loop's outer `if`: the errno of a call that failed.
  unfoldable pub make : S → List ℕ → S × Option ℕ
  make fs buf = elim (is_drive buf) [
    | true ↦ (fs, none)
    | false ↦ let (fs', result) = mkdir fs buf in (fs', fatal result)
  ]

  -- The loop at `i`, with the bytes of `buf` before `i` and those from `i` on.
  unfoldable pub makedir_loop : S → List ℕ → List ℕ → S × Outcome
  makedir_loop fs buf [] =
      let (fs', result) = make fs buf in
      (fs', elim result [ none ↦ made | some e ↦ cannot_create buf e ])
  makedir_loop fs buf (c ∷ rest) = elim (is_separator c) [
    | false ↦ makedir_loop fs (buf ++ (c ∷ [])) rest
    | true ↦
        let (fs', result) = make fs buf in
        let next = makedir_loop fs' (buf ++ (c ∷ [])) rest in
        elim result [ none ↦ next | some e ↦ (fs', cannot_create buf e) ]
  ]

  unfoldable pub makedir : S → List ℕ → S × Outcome
  makedir fs [] = (fs, empty_or_too_long)
  makedir fs (c ∷ rest) =
      if leb 1024 (length (c ∷ rest))
      then (fs, empty_or_too_long)
      else makedir_loop fs (c ∷ []) rest
