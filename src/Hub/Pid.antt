-- ===== src/Hub/Pid.antt =====
-- `write_lock_pid` of hub/hub.c on unix. The calls on the lock file are parameters; `snprintf` with
-- "%ld\n" is written out, for a PID that is positive.
use luadch.Common.{
  ℕ, zero, suc, ◌+◌, ◌-◌, ◌*◌, ◌/◌, ◌%◌, ◌^◌, ◌≤◌, ◌<◌, Bool, true, false, List, [], ◌∷◌, ◌++◌,
  Option, none, some, ltb, leb, if◌then◌else◌, length, take, drop, ◌≡◌, refl, ap, sym, ◌∙◌, arith,
  Bool-cases, inl, inr, length-append, take_all, take-append, length-take, All, All-append,
}
use native.Mathlib.Numerals.{unary_clauses}

-- The decimal digits, with fuel above the number of them.
unfoldable pub digits : ℕ → ℕ → List ℕ
digits zero n = []
digits (suc fuel) n =
    let rest = digits fuel (n / 10) in
    if ltb n 10 then (b'0' + n) ∷ [] else rest ++ ((b'0' + n % 10) ∷ [])

-- `snprintf(buf, sizeof(buf), "%ld\n", (long)getpid())`
abbrev pub pid_line : ℕ → List ℕ
pid_line pid = digits 20 pid ++ (b'\n' ∷ [])

abbrev pub pid_buffer : ℕ
pid_buffer = 32

-- `lseek` to the start, `write` with the count when it is positive, and `ftruncate`.
pub record FileCalls (S : Type 0) : Type 0 where
  pub lseek_start : S → Bool × S
  pub write : List ℕ → S → Option ℕ × S
  pub ftruncate : ℕ → S → S

module _ {S : Type 0} (calls : FileCalls S) where
  abbrev pub truncated : Option ℕ × S → S
  truncated (none, s) = s
  truncated (some w, s) = calls.ftruncate w s

  abbrev pub write_line : ℕ → Bool × S → S
  write_line pid (false, s) = s
  write_line pid (true, s) =
      let line = pid_line pid in
      let n = if leb pid_buffer (length line) then pid_buffer - 1 else length line in
      truncated (calls.write (take n line) s)

  -- For `g_lock_fd`, which is -1 without a lock file.
  unfoldable pub write_lock_pid : Bool → ℕ → S → S
  write_lock_pid has_fd pid s = if has_fd then write_line pid (calls.lseek_start s) else s

-- What a reader of the file makes of the digits.
abbrev pub number : ℕ → List ℕ → ℕ
number n [] = n
number n (d ∷ ds) = number (n * 10 + (d - b'0')) ds

number-append :
    (ds : List ℕ) (n : ℕ) (d : ℕ) → number n (ds ++ (d ∷ [])) ≡ number n ds * 10 + (d - b'0')
number-append [] n d = refl
number-append (x ∷ ds) n d = number-append ds (n * 10 + (x - b'0')) d

pow_suc : (k : ℕ) → 10 ^ suc k ≡ 10 * 10 ^ k
pow_suc k = simp unary_clauses (omega arith)

number-digits : (fuel n : ℕ) → n < 10 ^ fuel → number 0 (digits fuel n) ≡ n
unfolding digits
number-digits zero n h = omega arith
number-digits (suc fuel) n h = elim (Bool-cases (ltb n 10)) [
  | inl lt ↦ rw lt (omega arith)
  | inr ge ↦
      let q = n / 10 in
      let smaller : q < 10 ^ fuel = omega (arith, pow_suc fuel) in
      rw ge (
        number-append (digits fuel q) 0 (b'0' + n % 10)
        ∙ omega (arith, number-digits fuel q smaller))
]

length-digits : (fuel n : ℕ) → length (digits fuel n) ≤ fuel
unfolding digits
length-digits zero n = omega arith
length-digits (suc fuel) n = elim (Bool-cases (ltb n 10)) [
  | inl lt ↦ rw lt (omega arith)
  | inr ge ↦ rw ge (
      omega (
        arith,
        length-digits fuel (n / 10),
        length-append (digits fuel (n / 10)) ((b'0' + n % 10) ∷ []),
      ))
]

abbrev pub IsDigit : ℕ → Type 0
IsDigit d = (b'0' ≤ d) × (d ≤ b'9')

digits-IsDigit : (fuel n : ℕ) → All IsDigit (digits fuel n)
unfolding digits
digits-IsDigit zero n = tt
digits-IsDigit (suc fuel) n = elim (Bool-cases (ltb n 10)) [
  | inl lt ↦ rw lt ((omega arith, ground arith), tt)
  | inr ge ↦ rw ge (
      All-append IsDigit (digits fuel (n / 10)) _ (digits-IsDigit fuel (n / 10))
        ((omega arith, omega arith), tt))
]

-- What the manual says of the calls, for the bytes of the file and the offset of the descriptor.
pub record IsFile {S : Type 0} (calls : FileCalls S) (content : S → List ℕ) (offset : S → ℕ)
    : Type 0 where
  pub seeks :
      (s : S)
      → (calls.lseek_start s).0 ≡ true
      → (offset (calls.lseek_start s).1 ≡ 0) × (content (calls.lseek_start s).1 ≡ content s)
  pub writes :
      (buf : List ℕ) (s : S) (w : ℕ)
      → (calls.write buf s).0 ≡ some w
      → offset s ≡ 0
      → (w ≤ length buf) × (content (calls.write buf s).1 ≡ take w buf ++ drop w (content s))
  pub truncates :
      (n : ℕ) (s : S) → n ≤ length (content s) → content (calls.ftruncate n s) ≡ take n (content s)

module _ {S : Type 0} (calls : FileCalls S) (content : S → List ℕ) (offset : S → ℕ)
    (laws : IsFile calls content offset) where
  -- The file behind a write of some bytes at its start, cut there.
  cut :
      (text : List ℕ) (s : S) (w : ℕ)
      → offset s ≡ 0
      → (calls.write text s).0 ≡ some w
      → content (calls.ftruncate w (calls.write text s).1) ≡ take w text
  cut text s w start e =
      let (fits, written) = laws.writes text s w e start in
      let size : length (take w text) ≡ w = omega (arith, length-take w text) in
      laws.truncates w _
        (rw written (omega (arith, length-append (take w text) (drop w (content s)))))
      ∙ (ap (take w) written ∙ take-append (take w text) _ w (sym size))

  whole_line : (pid : ℕ) → leb pid_buffer (length (pid_line pid)) ≡ false
  whole_line pid =
      let size : length (pid_line pid) ≤ 21 =
        omega (arith, length-digits 20 pid, length-append (digits 20 pid) (b'\n' ∷ [])) in
      ground arith

-- With the lock file open at its start, and `write` having taken some of the bytes,
-- `write_lock_pid` leaves the file with these bytes of the line alone, whatever it held; the
-- line is digits, whose number is the PID, and a line feed.
pub write_lock_pid-content :
    {S : Type 0} (calls : FileCalls S) (content : S → List ℕ) (offset : S → ℕ) (pid w : ℕ) (s : S)
    → IsFile calls content offset
    → pid < 2 ^ 63
    → (calls.lseek_start s).0 ≡ true
    → (calls.write (pid_line pid) (calls.lseek_start s).1).0 ≡ some w
    → (content (write_lock_pid calls true pid s) ≡ take w (pid_line pid))
      × (number 0 (digits 20 pid) ≡ pid)
      × All IsDigit (digits 20 pid)
unfolding write_lock_pid
write_lock_pid-content calls content offset pid w s laws h ok e =
    let opened = (calls.lseek_start s).1 in
    let line = pid_line pid in
    let all : take (length line) line ≡ line = take_all (length line) line (omega arith) in
    let seek = laws.seeks s ok in
    (
      rw (ok, whole_line calls content offset laws pid, all, e)
          (cut calls content offset laws line opened w seek.0 e),
      number-digits 20 pid (omega arith),
      digits-IsDigit 20 pid,
    )
