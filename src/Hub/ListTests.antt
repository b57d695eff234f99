-- ===== src/Hub/ListTests.antt =====
-- Directories that are lists, and runs of `listdir` on them.
use luadch.Common.{ℕ, List, [], ◌∷◌, Option, none, some, ◌≡◌, refl}
use luadch.Start.{same}
use luadch.Hub.Listing.{
  DirCalls, FindCalls, listdir, listdir_windows, read_loop, listed, enumeration_failed,
}

-- The names that are left, and the error that stands behind them.
abbrev Stream : Type 0
Stream = List (List ℕ) × ℕ

abbrev next_name : Stream → Option (List ℕ) × Stream
next_name ([], e) = (none, ([], e))
next_name (n ∷ ns, e) = (some n, (ns, e))

abbrev dir : DirCalls Stream
dir = record { opendir = λ p s. (none, s); readdir = next_name; closedir = λ s. s }

abbrev find : FindCalls Stream
find = record {
  find_first = λ p s. next_name s;
  find_next = next_name;
  last_error = λ s. s.1;
  find_close = λ s. s;
}

abbrev name : List ℕ
name = b'a' ∷ []

-- ".", "a", "..".
abbrev names : List (List ℕ)
names = (b'.' ∷ []) ∷ name ∷ (b'.' ∷ b'.' ∷ []) ∷ []

-- An enumeration that the error 5 cuts short: unix lists what it had, and Windows says so.
cut_short : listdir dir 4 name (names, 5) ≡ some (listed (name ∷ []), ([], 5))
unfolding listdir read_loop same
cut_short = refl

surfaced : listdir_windows find 4 name (names, 5) ≡ some (enumeration_failed 5, ([], 5))
unfolding listdir_windows read_loop same
surfaced = refl
