-- ===== src/Hub/Listing.antt =====
-- The Lua primitive `listdir` of hub/hub.c, on unix and on Windows. The calls on a directory are
-- parameters, on what the system keeps.
use luadch.Common.{
  ℕ, zero, suc, ◌+◌, ◌<◌, Bool, false, not, ◌||◌, List, [], ◌∷◌, ◌++◌, Option, none, some, leb,
  ◌==◌, if◌then◌else◌, length, ◌≡◌, refl, ap, sym, ◌∙◌, append_assoc, append-nil, arith, Bool-cases,
  inl, inr,
}
use luadch.Start.{same}

-- `opendir` gives the errno of a failure; `readdir` gives `none` for NULL.
pub record DirCalls (S : Type 0) : Type 0 where
  pub opendir : List ℕ → S → Option ℕ × S
  pub readdir : S → Option (List ℕ) × S
  pub closedir : S → S

-- `FindFirstFileA` gives a name or the error; `FindNextFileA` gives `none` for FALSE.
pub record FindCalls (S : Type 0) : Type 0 where
  pub find_first : List ℕ → S → Option (List ℕ) × S
  pub find_next : S → Option (List ℕ) × S
  pub last_error : S → ℕ
  pub find_close : S → S

-- An array of names, or `nil` with a message.
pub data Listing : Type 0 where
  listed : List (List ℕ) → Listing
  cannot_open enumeration_failed : ℕ → Listing
  path_too_long : Listing

-- `strcmp(e->d_name, ".") == 0 || strcmp(e->d_name, "..") == 0`
abbrev pub is_dot_entry : List ℕ → Bool
is_dot_entry n = same n (b'.' ∷ []) || same n (b'.' ∷ b'.' ∷ [])

-- `lua_rawseti(L, -2, ++i)`, unless the entry is skipped.
abbrev pub add_entry : List (List ℕ) → List ℕ → List (List ℕ)
add_entry names n = if is_dot_entry n then names else names ++ (n ∷ [])

abbrev pub max_path : ℕ
max_path = 260

abbrev pub error_no_more_files : ℕ
error_no_more_files = 18

-- The loops on a call that gives the next name.
unfoldable pub read_loop :
    {S : Type 0} → (S → Option (List ℕ) × S) → ℕ → S → List (List ℕ) → Option (List (List ℕ) × S)
read_loop read zero s names = none
read_loop read (suc fuel) s names =
    let (entry, s') = read s in
    elim entry [ none ↦ some (names, s') | some n ↦ read_loop read fuel s' (add_entry names n) ]

module _ {S : Type 0} (calls : DirCalls S) where
  abbrev pub close_dir : Option (List (List ℕ) × S) → Option (Listing × S)
  close_dir none = none
  close_dir (some (names, s)) = some (listed names, calls.closedir s)

  -- `listdir` behind `opendir`.
  abbrev pub opened_dir : ℕ → Option ℕ × S → Option (Listing × S)
  opened_dir fuel (some e, s) = some (cannot_open e, s)
  opened_dir fuel (none, s) = close_dir (read_loop calls.readdir fuel s [])

  unfoldable pub listdir : ℕ → List ℕ → S → Option (Listing × S)
  listdir fuel path s = opened_dir fuel (calls.opendir path s)

module _ {S : Type 0} (calls : FindCalls S) where
  -- The end of the branch for Windows, with the error read before the handle is closed.
  abbrev pub close_find : Option (List (List ℕ) × S) → Option (Listing × S)
  close_find none = none
  close_find (some (names, s)) = some (
    if not (calls.last_error s == error_no_more_files)
        then enumeration_failed (calls.last_error s)
        else listed names,
    calls.find_close s,
  )

  abbrev pub opened_find : ℕ → Option (List ℕ) × S → Option (Listing × S)
  opened_find fuel (none, s) = some (cannot_open (calls.last_error s), s)
  opened_find fuel (some n, s) = close_find (read_loop calls.find_next fuel s (add_entry [] n))

  unfoldable pub listdir_windows : ℕ → List ℕ → S → Option (Listing × S)
  listdir_windows fuel path s =
      if leb max_path (length path + 2)
      then some (path_too_long, s)
      else opened_find fuel (calls.find_first (path ++ (b'\\' ∷ b'*' ∷ [])) s)

-- From a state on, a call gives these names and then no more, for whatever reason.
abbrev pub Yields : {S : Type 0} → (S → Option (List ℕ) × S) → List (List ℕ) → S → S → Type 0
Yields read [] s s' = read s ≡ (none, s')
Yields {S} read (n ∷ ns) s s' = (t : S) × (read s ≡ (some n, t)) × Yields read ns t s'

-- The names that are no dot entries.
abbrev pub entries : List (List ℕ) → List (List ℕ)
entries [] = []
entries (n ∷ ns) = if is_dot_entry n then entries ns else n ∷ entries ns

entries-add :
    (names : List (List ℕ)) (n : List ℕ) (ns : List (List ℕ))
    → add_entry names n ++ entries ns ≡ names ++ entries (n ∷ ns)
entries-add names n ns = elim (Bool-cases (is_dot_entry n)) [
  | inl e ↦ rw e refl
  | inr e ↦ rw e (append_assoc names (n ∷ []) (entries ns))
]

abbrev at_end : {S : Type 0} → List (List ℕ) → S → Option (List (List ℕ) × S)
at_end names s = some (names, s)

read_loop-Yields :
    {S : Type 0} (read : S → Option (List ℕ) × S) (ns : List (List ℕ)) (fuel : ℕ) (s s' : S)
    (names : List (List ℕ))
    → Yields read ns s s'
    → length ns < fuel
    → read_loop read fuel s names ≡ some (names ++ entries ns, s')
unfolding read_loop
read_loop-Yields read ns zero s s' names y lt = absurd (omega arith)
read_loop-Yields {S} read [] (suc fuel) s s' names y lt =
    rw (ap (λ r. r.0) y, ap (λ r. r.1) y, read_loop)
      (ap (λ l. at_end l s') (sym (append-nil names)))
read_loop-Yields {S} read (n ∷ ns) (suc fuel) s s' names (t, e, y) lt =
    rw (ap (λ r. r.0) e, ap (λ r. r.1) e, read_loop)
      (read_loop-Yields read ns fuel t s' (add_entry names n) y (omega arith)
        ∙ ap (λ l. at_end l s') (entries-add names n ns))

-- For a directory that opens, yields some names and then stops, for whatever reason, `listdir`
-- on unix gives the names that are no dot entries, in their order.
pub listdir-entries :
    {S : Type 0} (calls : DirCalls S) (ns : List (List ℕ)) (fuel : ℕ) (path : List ℕ) (s : S)
    (opened : S) (ended : S)
    → calls.opendir path s ≡ (none, opened)
    → Yields calls.readdir ns opened ended
    → length ns < fuel
    → listdir calls fuel path s ≡ some (listed (entries ns), calls.closedir ended)
unfolding listdir
listdir-entries calls ns fuel path s opened ended e y lt =
    ap (opened_dir calls fuel) e
    ∙ ap (close_dir calls) (read_loop-Yields calls.readdir ns fuel opened ended [] y lt)

choose_not :
    {S : Type 0} (calls : FindCalls S) (s : S) (names : List (List ℕ))
    → close_find calls (some (names, s))
      ≡ some (
        if calls.last_error s == error_no_more_files
            then listed names
            else enumeration_failed (calls.last_error s),
        calls.find_close s,
      )
choose_not calls s names = elim (Bool-cases (calls.last_error s == error_no_more_files)) [
  | inl e ↦ rw e refl
  | inr e ↦ rw e refl
]

-- For a path that fits and a directory that yields some names and then stops, `listdir` on
-- Windows gives the names that are no dot entries, in their order, if the enumeration ended for
-- want of files, and else the error that ended it.
pub listdir_windows-entries :
    {S : Type 0} (calls : FindCalls S) (n : List ℕ) (ns : List (List ℕ)) (fuel : ℕ) (path : List ℕ)
    (s : S) (opened : S) (ended : S)
    → length path + 2 < max_path
    → calls.find_first (path ++ (b'\\' ∷ b'*' ∷ [])) s ≡ (some n, opened)
    → Yields calls.find_next ns opened ended
    → length ns < fuel
    → listdir_windows calls fuel path s
      ≡ some (
        if calls.last_error ended == error_no_more_files
            then listed (entries (n ∷ ns))
            else enumeration_failed (calls.last_error ended),
        calls.find_close ended,
      )
unfolding listdir_windows
listdir_windows-entries calls n ns fuel path s opened ended short e y lt =
    let fits : leb max_path (length path + 2) ≡ false = ground arith in
    rw fits (
      ap (opened_find calls fuel) e
      ∙ ap (close_find calls) (
          read_loop-Yields calls.find_next ns fuel opened ended (add_entry [] n) y lt
          ∙ ap (λ l. at_end l ended) (entries-add [] n ns))
      ∙ choose_not calls ended (entries (n ∷ ns)))
