-- ===== src/Start/Tests.antt =====
-- Runs of the start, and the theorems at concrete inputs.
use luadch.Common.{List, [], ◌∷◌, ◌++◌, none, some, true, ◌≡◌, refl, if◌then◌else◌}
use luadch.Start.{
  other, no_options, help_flag, restore_flag, key_path_flag, parsed, exit_success, exit_failure,
  same, flag_of, handle_args, LockCalls, ewouldblock, acquire_single_instance_lock, behind_lock,
  main, chdir_to_binary_dir, lock, log_refusal, exits_failure,
}
use luadch.Start.Arguments.{Choice, detach, from_file, unknown, write, chosen, handle_args-choices}
use luadch.Start.Main.{restores, boots, permitted, asks_restore, main-starts}
use luadch.Common.Ints.{ℤ, pos, to_int}
use luadch.Start.{Options, Event}
use luadch.Hub.Daemon.{Withholds}
use luadch.Hub.Restore.{
  Found, ScriptEnd, fails, gives, found, run_restore, last_file, main-run_restore,
}

-- "-d", "-x" and "--restore" with the file "b".
abbrev line : List Choice
line = detach ∷ unknown (b'-' ∷ b'x' ∷ []) ∷ from_file (b'b' ∷ []) ∷ []

unknown_x : flag_of (b'-' ∷ b'x' ∷ []) ≡ other
unfolding flag_of same
unknown_x = refl

abbrev second : LockCalls
second = record { opened = true; flock = some ewouldblock }

abbrev first : LockCalls
first = record { opened = true; flock = none }

-- A second instance stops behind the lock.
second_stops :
    main second (write line) ≡ chdir_to_binary_dir ∷ lock ∷ log_refusal ∷ exits_failure ∷ []
unfolding main handle_args flag_of same acquire_single_instance_lock behind_lock
second_stops = refl

handle_args-choices_example :
    (handle_args no_options (write line) ≡ parsed (chosen line no_options))
    × (handle_args no_options (write line ++ (help_flag ∷ [])) ≡ exit_success)
    × (handle_args no_options (write line ++ (restore_flag ∷ [])) ≡ exit_failure)
    × (handle_args no_options (write line ++ (key_path_flag ∷ [])) ≡ exit_failure)
handle_args-choices_example = handle_args-choices line [] (tt, (unknown_x, (tt, tt)))

main-starts_example :
    (restores (main first (write line)) ≡ (if asks_restore line then permitted first else 0))
    × (boots (main first (write line)) ≡ (if asks_restore line then 0 else permitted first))
main-starts_example = main-starts first line (tt, (unknown_x, (tt, tt)))

-- A script that succeeds when it is told of a file.
abbrev script : Found → ScriptEnd
script e = elim e.restore_file [ [] ↦ fails | c ∷ cs ↦ gives (some (pos 0)) ]

script_succeeds : run_restore true script (chosen line no_options) ≡ pos 0
unfolding run_restore
script_succeeds = refl

main-run_restore_example :
    (o : Options) × (n : ℤ) × (main first (write line)
      ≡ chdir_to_binary_dir ∷ lock ∷ Event.run_restore o ∷ [])
    × ((found o).restore_file ≡ last_file line [])
    × Withholds (found o).umask 63
    × (script (found o) ≡ gives (some n))
    × (to_int n ≡ pos 0)
main-run_restore_example =
    main-run_restore first line true script (tt, (unknown_x, (tt, tt))) refl refl script_succeeds
