-- ===== src/Hub/ProcessTests.antt =====
-- Runs of the parts of the process, and the theorems at concrete inputs.
use luadch.Common.{
  ℕ, ◌+◌, Bool, true, false, List, [], ◌∷◌, ◌++◌, some, length, take, drop, ltb, ◌≡◌, refl, ap, sym,
  ◌∙◌, inl, arith, some-injective, take_all, ◌-◌,
}
use luadch.Common.Ints.{pos}
use luadch.Hub.Ended.{Life, Steps-Life}
use luadch.Hub.Limits.{Rlimit, LimitCalls, IsKernel, raise_fd_limit}
use luadch.Hub.Life.{
  returns, restarts, Steps, started, asked, over, exit_success, exit_failure, restart-Steps,
}
use luadch.Hub.Pid.{FileCalls, IsFile, digits, pid_line, write_lock_pid}
use luadch.Hub.Daemon.{Attributes, ExitUse, signal, doexit, exit_answers}

-- The soft limit, and how far it is below the hard one.
abbrev Limits : Type 0
Limits = ℕ × ℕ

abbrev place : Bool → ℕ → ℕ → Limits → Bool × Limits
place true cur max s = (false, s)
place false cur max s = (true, (cur, max - cur))

-- A limit that is out of order is refused.
abbrev kernel : LimitCalls Limits
kernel = record {
  getrlimit = λ s. some record { rlim_cur = s.0; rlim_max = s.0 + s.1 };
  setrlimit = λ l s. place (ltb l.rlim_max l.rlim_cur) l.rlim_cur l.rlim_max s;
}

abbrev the_limits : ℕ → ℕ → Rlimit
the_limits cur max = record { rlim_cur = cur; rlim_max = max }

place_read :
    (b : Bool) (cur max : ℕ) (s : Limits)
    → ltb max cur ≡ b
    → (place b cur max s).0 ≡ true
    → kernel.getrlimit (place b cur max s).1 ≡ some record { rlim_cur = cur; rlim_max = max }
place_read true cur max s e h = absurd (ground arith)
place_read false cur max s e h =
    let sum : cur + (max - cur) ≡ max = ground arith in ap (λ m. some (the_limits cur m)) sum

place_refused :
    (b : Bool) (cur max : ℕ) (s : Limits)
    → (place b cur max s).0 ≡ false
    → kernel.getrlimit (place b cur max s).1 ≡ kernel.getrlimit s
place_refused true cur max s h = refl
place_refused false cur max s h = absurd (ground arith)

kernel-IsKernel : IsKernel kernel
kernel-IsKernel = record {
  set_read = λ l s h. place_read (ltb l.rlim_max l.rlim_cur) l.rlim_cur l.rlim_max s refl h;
  set_refused = λ l s h. place_refused (ltb l.rlim_max l.rlim_cur) l.rlim_cur l.rlim_max s h;
  ordered = λ l s e.
      let same = some-injective (the_limits s.0 (s.0 + s.1)) l e in
      omega (arith, ap (λ r. r.rlim_cur) same, ap (λ r. r.rlim_max) same);
}

raised_to_hard : raise_fd_limit kernel (pos 0) (1024, 3072) ≡ (pos 4096, (4096, 0))
unfolding raise_fd_limit
raised_to_hard = refl

-- Two restarts with 32 registrations.
restart-Steps_example :
    Steps (started 32 1) (restarts ∷ restarts ∷ returns ∷ []) (over 30 3 exit_success)
    × Steps (started 30 1) (asked 30 restarts) (over 0 31 exit_failure)
restart-Steps_example = restart-Steps 2 30 1 returns (inl refl)

Steps-Life_example : Life 32 1 (restarts ∷ restarts ∷ returns ∷ []) (over 30 3 exit_success)
Steps-Life_example =
    Steps-Life 32 (restarts ∷ restarts ∷ returns ∷ []) (over 30 3 exit_success) exit_success
      (restart-Steps 2 30 1 returns (inl refl)).0 refl

-- The bytes of a file, and an offset.
abbrev File : Type 0
File = List ℕ × ℕ

abbrev disk : FileCalls File
disk = record {
  lseek_start = λ s. (true, (s.0, 0));
  write = λ buf s. (some (length buf), (buf ++ drop (length buf) s.0, length buf));
  ftruncate = λ n s. (take n s.0, s.1);
}

disk-IsFile : IsFile disk (λ s. s.0) (λ s. s.1)
disk-IsFile = record {
  seeks = λ s h. (refl, refl);
  writes = λ buf s w e start.
      let same = some-injective (length buf) w e in
      (
        omega (arith, same),
        ap (λ l. l ++ drop (length buf) s.0) (sym (take_all (length buf) buf (omega arith)))
            ∙ ap (λ n. take n buf ++ drop n s.0) same,
      );
  truncates = λ n s h. refl;
}

-- A longer PID of an older process.
abbrev stale : File
stale = (b'9' ∷ b'9' ∷ b'9' ∷ b'9' ∷ b'9' ∷ b'\n' ∷ [], 6)

rewritten : (write_lock_pid disk true 42 stale).0 ≡ b'4' ∷ b'2' ∷ b'\n' ∷ []
unfolding write_lock_pid digits
rewritten = refl

line_of_42 : length (pid_line 42) ≡ 3
unfolding digits
line_of_42 = refl

abbrev shell : Attributes
shell = record { umask = 18; own_session = false; closed = [] }

abbrev asks : List ExitUse
asks = doexit ∷ signal ∷ doexit ∷ []

told_once_signalled : exit_answers false asks ≡ false ∷ true ∷ []
unfolding exit_answers
told_once_signalled = refl
