-- ===== src/Hub/Daemon.antt =====
-- `daemonize`, `chdir_to_binary_dir` and `do_exit` of hub/hub.c on unix. What the system calls answer is
-- an argument.
use luadch.Common.Tables.{all_below, all_below_lem}
use luadch.Common.{
  ℕ, ◌-◌, Bool, true, false, List, [], ◌∷◌, ◌++◌, Option, none, some, ◌==◌, if◌then◌else◌, take,
  bit_and, ◌%◌, arith, ◌≡◌, refl, ◌⊎◌, inl, inr, ==_iff,
}
use luadch.Hub.Life.{Status, exit_success, exit_failure}

-- What `daemonize` changes of a process: the file-creation mask, whether it leads a session of its own,
-- and the descriptors that it closed.
pub record Attributes : Type 0 where
  pub umask : ℕ
  pub own_session : Bool
  pub closed : List ℕ

pub data Fate : Type 0 where
  goes_on : Attributes → Fate
  exits : Status → Fate

-- `umask(027)`
abbrev pub daemon_umask : ℕ
daemon_umask = 23

-- The child, behind `fork`.
abbrev pub child : Bool → Attributes → Fate
child false a = exits exit_failure
child true a =
    goes_on
      record { umask = daemon_umask; own_session = true; closed = a.closed ++ (0 ∷ 1 ∷ 2 ∷ []) }

-- The processes that there are behind the call, for what `fork` and `setsid` answer.
unfoldable pub daemonize : Bool → Bool → Bool → Attributes → List Fate
daemonize false forked session a = goes_on a ∷ []
daemonize true false session a = exits exit_failure ∷ []
daemonize true true session a = exits exit_success ∷ child session a ∷ []

-- `sizeof(buf) - 1`
abbrev pub path_max : ℕ
path_max = 4095

-- The return, for what `readlink` gives, with `dirname` and `chdir`.
unfoldable pub chdir_to_binary_dir :
    {S : Type 0} → Option (List ℕ) → (List ℕ → List ℕ) → (List ℕ → S → Bool × S) → S → Bool × S
chdir_to_binary_dir none dirname chdir s = (false, s)
chdir_to_binary_dir (some target) dirname chdir s = chdir (dirname (take path_max target)) s

-- The uses of `do_exit`: `signal_handler`, `requestexit` and `doexit`.
pub data ExitUse : Type 0 where
  signal requestexit doexit : ExitUse

-- What the calls of `doexit` push.
unfoldable pub exit_answers : Bool → List ExitUse → List Bool
exit_answers do_exit [] = []
exit_answers do_exit (doexit ∷ us) = do_exit ∷ exit_answers do_exit us
exit_answers do_exit (signal ∷ us) = exit_answers true us
exit_answers do_exit (requestexit ∷ us) = exit_answers true us

-- The mode of a new file, of the nine bits that are asked for.
abbrev pub created : ℕ → ℕ → ℕ
created mode umask = bit_and (mode % 512) (511 - umask)

-- No bit of `mask` is in a mode that is created.
abbrev pub Withholds : ℕ → ℕ → Type 0
Withholds umask mask = (mode : ℕ) → bit_and (created mode umask) mask ≡ 0

withheld :
    (umask mask : ℕ)
    → all_below (λ m. bit_and (bit_and m (511 - umask)) mask == 0) 512 ≡ true
    → Withholds umask mask
withheld umask mask h mode = (==_iff _ 0).0 (
    all_below_lem (λ m. bit_and (bit_and m (511 - umask)) mask == 0) 512 h (mode % 512)
      (omega arith))

pub daemon_umask-Withholds : Withholds daemon_umask 7
unfolding all_below
daemon_umask-Withholds = withheld daemon_umask 7 refl

-- `umask(077)`, for a restore.
abbrev pub restore_umask : ℕ
restore_umask = 63

pub restore_umask-Withholds : Withholds restore_umask 63
unfolding all_below
restore_umask-Withholds = withheld restore_umask 63 refl

abbrev pub continuing : List Fate → List Attributes
continuing [] = []
continuing (goes_on a ∷ fs) = a ∷ continuing fs
continuing (exits s ∷ fs) = continuing fs

-- Without `-d` the process goes on as it is. With it one process at most goes on: none if
-- `fork` or `setsid` fails, and else one in a session of its own, with the standard descriptors
-- closed and a mask that leaves the world no bit of any mode.
pub daemonize-continuing :
    (forked session : Bool) (a : Attributes)
    → (continuing (daemonize false forked session a) ≡ a ∷ [])
      × ((((if forked then session else false) ≡ false)
            × (continuing (daemonize true forked session a) ≡ []))
          ⊎ ((q : Attributes) × ((if forked then session else false) ≡ true)
              × (continuing (daemonize true forked session a) ≡ q ∷ [])
              × Withholds q.umask 7
              × (q.own_session ≡ true)
              × (q.closed ≡ a.closed ++ (0 ∷ 1 ∷ 2 ∷ []))))
unfolding daemonize
daemonize-continuing false session a = (refl, inl (refl, refl))
daemonize-continuing true false a = (refl, inl (refl, refl))
daemonize-continuing true true a = (refl, inr (_, refl, refl, daemon_umask-Withholds, refl, refl))
