-- ===== src/Start.antt =====
-- The start of the process in hub/hub.c: `handle_args`, `acquire_single_instance_lock` on unix and
-- `main`. An argument is the bytes before its NUL. The system calls are arguments: what they answer.
pub mod Arguments
pub mod Main
mod Tests
use luadch.Common.{
  ℕ, Bool, true, false, ◌||◌, ◌&&◌, List, [], ◌∷◌, Option, none, some, ◌==◌, if◌then◌else◌,
}

-- The static variables that `handle_args` sets.
pub record Options : Type 0 where
  pub do_daemonization : Bool
  pub do_restore : Bool
  pub restore_verify : Bool
  pub restore_force : Bool
  pub restore_file : Option (List ℕ)
  pub restore_mk_path : Option (List ℕ)

abbrev pub no_options : Options
no_options = record {
  do_daemonization = false;
  do_restore = false;
  restore_verify = false;
  restore_force = false;
  restore_file = none;
  restore_mk_path = none;
}

-- `strcmp(a, b) == 0`
unfoldable pub same : List ℕ → List ℕ → Bool
same [] [] = true
same [] (y ∷ b) = false
same (x ∷ a) [] = false
same (x ∷ a) (y ∷ b) = (x == y) && same a b

-- "-h", "--help", "-d", "--restore", "--verify", "--force" and "--master-key-path".
abbrev pub h_flag : List ℕ
h_flag = b'-' ∷ b'h' ∷ []

abbrev pub help_flag : List ℕ
help_flag = b'-' ∷ b'-' ∷ b'h' ∷ b'e' ∷ b'l' ∷ b'p' ∷ []

abbrev pub d_flag : List ℕ
d_flag = b'-' ∷ b'd' ∷ []

abbrev pub restore_flag : List ℕ
restore_flag = b'-' ∷ b'-' ∷ b'r' ∷ b'e' ∷ b's' ∷ b't' ∷ b'o' ∷ b'r' ∷ b'e' ∷ []

abbrev pub verify_flag : List ℕ
verify_flag = b'-' ∷ b'-' ∷ b'v' ∷ b'e' ∷ b'r' ∷ b'i' ∷ b'f' ∷ b'y' ∷ []

abbrev pub force_flag : List ℕ
force_flag = b'-' ∷ b'-' ∷ b'f' ∷ b'o' ∷ b'r' ∷ b'c' ∷ b'e' ∷ []

abbrev pub key_path_flag : List ℕ
key_path_flag =
    b'-' ∷ b'-' ∷ b'm' ∷ b'a' ∷ b's' ∷ b't' ∷ b'e' ∷ b'r' ∷ b'-' ∷ b'k' ∷ b'e' ∷ b'y' ∷ b'-' ∷ b'p'
    ∷ b'a' ∷ b't' ∷ b'h' ∷ []

-- The branch that the chain of `else if` takes.
pub data Flag : Type 0 where
  help daemon restore verify force key_path other : Flag

unfoldable pub flag_of : List ℕ → Flag
flag_of a =
    if same a h_flag || same a help_flag
    then help
    else if same a d_flag
    then daemon
    else if same a restore_flag
    then restore
    else if same a verify_flag
    then verify
    else if same a force_flag
    then force
    else if same a key_path_flag
    then key_path
    else other

-- `handle_args` returns, or ends the process with the help or with an error.
pub data Parsed : Type 0 where
  parsed : Options → Parsed
  exit_success exit_failure : Parsed

-- The branches that take no argument.
abbrev pub set_flag : Flag → Options → Options
set_flag daemon o = record o { do_daemonization = true }
set_flag verify o = record o { restore_verify = true }
set_flag force o = record o { restore_force = true }
set_flag _ o = o

-- The loop, on the arguments from `argv[i]` on.
unfoldable pub handle_args : Options → List (List ℕ) → Parsed
handle_args o [] = parsed o
handle_args o (a ∷ []) = elim (flag_of a) [
  | help ↦ exit_success
  | restore ↦ exit_failure
  | key_path ↦ exit_failure
  | daemon ↦ handle_args (set_flag daemon o) []
  | verify ↦ handle_args (set_flag verify o) []
  | force ↦ handle_args (set_flag force o) []
  | other ↦ handle_args o []
]
handle_args o (a ∷ b ∷ args) = elim (flag_of a) [
  | help ↦ exit_success
  | restore ↦ handle_args (record o { do_restore = true; restore_file = some b }) args
  | key_path ↦ handle_args (record o { restore_mk_path = some b }) args
  | daemon ↦ handle_args (set_flag daemon o) (b ∷ args)
  | verify ↦ handle_args (set_flag verify o) (b ∷ args)
  | force ↦ handle_args (set_flag force o) (b ∷ args)
  | other ↦ handle_args o (b ∷ args)
]

-- `EWOULDBLOCK`
abbrev pub ewouldblock : ℕ
ewouldblock = 11

-- Whether `open` gave a descriptor, and the errno of `flock`, `none` for success.
pub record LockCalls : Type 0 where
  pub opened : Bool
  pub flock : Option ℕ

-- The return of 1, the return of 0 with `g_lock_fd` set, and the return of 0 without a guard.
pub data Lock : Type 0 where
  refused held unguarded : Lock

unfoldable pub acquire_single_instance_lock : LockCalls → Lock
acquire_single_instance_lock c =
    if c.opened
    then elim c.flock [ none ↦ held | some e ↦ if e == ewouldblock then refused else unguarded ]
    else unguarded

-- What `main` calls behind `handle_signals`, with what the calls read of the static variables, and its
-- end.
pub data Event : Type 0 where
  chdir_to_binary_dir lock log_refusal raise_fd_limit write_lock_pid run_lua : Event
  run_restore : Options → Event
  daemonize : Bool → Event
  exits_success exits_failure : Event

-- What `main` does behind the call of `acquire_single_instance_lock`.
unfoldable pub behind_lock : Lock → Options → List Event
behind_lock refused o = log_refusal ∷ exits_failure ∷ []
behind_lock _ o =
    if o.do_restore
    then run_restore o ∷ []
    else raise_fd_limit ∷ daemonize o.do_daemonization ∷ write_lock_pid ∷ run_lua ∷ []

unfoldable pub main : LockCalls → List (List ℕ) → List Event
main calls args = elim (handle_args no_options args) [
  | exit_success ↦ exits_success ∷ []
  | exit_failure ↦ exits_failure ∷ []
  | parsed o ↦ chdir_to_binary_dir ∷ lock ∷ behind_lock (acquire_single_instance_lock calls) o
]
