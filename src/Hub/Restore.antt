-- ===== src/Hub/Restore.antt =====
-- `run_restore` of hub/hub.c on unix. The script core/restore.lua is a parameter: how it ends for what
-- it finds.
use luadch.Common.{
  ℕ, Bool, true, false, List, [], ◌∷◌, Option, none, some, ◌≡◌, refl, ap, All, arith,
}
use luadch.Common.Ints.{ℤ, pos, to_int}
use luadch.Derive.{size_of}
use luadch.Start.{Options, no_options, LockCalls, main, Event, chdir_to_binary_dir, lock}
use luadch.Start.Arguments.{
  Choice, detach, check_only, overwrite, from_file, key_at, unknown, IsChoice, write, chosen,
}
use luadch.Start.Main.{asks_restore, other_instance, main-restores}
use luadch.Hub.Daemon.{restore_umask, Withholds, restore_umask-Withholds}

-- The mask, and the globals; RESTORE_MASTER_KEY_PATH is `nil` without an option.
pub record Found : Type 0 where
  pub umask : ℕ
  pub restore_file : List ℕ
  pub restore_verify : Bool
  pub restore_force : Bool
  pub restore_master_key_path : Option (List ℕ)

-- A failure of `luaL_loadfile` or `lua_pcall`, or a value, which may be no integer.
pub data ScriptEnd : Type 0 where
  fails : ScriptEnd
  gives : Option ℤ → ScriptEnd

-- `restore_file ? restore_file : ""`
abbrev pub or_empty : Option (List ℕ) → List ℕ
or_empty none = []
or_empty (some f) = f

abbrev pub found : Options → Found
found o = record {
  umask = restore_umask;
  restore_file = or_empty o.restore_file;
  restore_verify = o.restore_verify;
  restore_force = o.restore_force;
  restore_master_key_path = o.restore_mk_path;
}

-- `EXIT_FAILURE`
abbrev pub failure : ℤ
failure = pos 1

abbrev pub code_of : ScriptEnd → ℤ
code_of fails = failure
code_of (gives none) = failure
code_of (gives (some n)) = to_int n

-- The return, for whether `luaL_newstate` gave a state.
unfoldable pub run_restore : Bool → (Found → ScriptEnd) → Options → ℤ
run_restore false script o = failure
run_restore true script o = code_of (script (found o))

-- The argument of the last `--restore`, or the one before.
abbrev pub last_file : List Choice → List ℕ → List ℕ
last_file [] f = f
last_file (from_file f ∷ cs) g = last_file cs f
last_file (c ∷ cs) g = last_file cs g

restore_file-chosen :
    (cs : List Choice) (o : Options)
    → or_empty (chosen cs o).restore_file ≡ last_file cs (or_empty o.restore_file)
restore_file-chosen [] o = refl
restore_file-chosen (detach ∷ cs) o = restore_file-chosen cs _
restore_file-chosen (check_only ∷ cs) o = restore_file-chosen cs _
restore_file-chosen (overwrite ∷ cs) o = restore_file-chosen cs _
restore_file-chosen (from_file f ∷ cs) o = restore_file-chosen cs _
restore_file-chosen (key_at p ∷ cs) o = restore_file-chosen cs _
restore_file-chosen (unknown a ∷ cs) o = restore_file-chosen cs o

one_is_not_zero : failure ≡ pos 0 → ⊥
one_is_not_zero e = let same = ap size_of e in absurd (omega arith)

code_of-zero :
    (r : ScriptEnd) → code_of r ≡ pos 0 → (n : ℤ) × (r ≡ gives (some n)) × (to_int n ≡ pos 0)
code_of-zero fails e = absurd (one_is_not_zero e)
code_of-zero (gives none) e = absurd (one_is_not_zero e)
code_of-zero (gives (some n)) e = (n, refl, e)

run_restore-zero :
    (memory : Bool) (script : Found → ScriptEnd) (o : Options)
    → run_restore memory script o ≡ pos 0
    → (n : ℤ) × (script (found o) ≡ gives (some n)) × (to_int n ≡ pos 0)
unfolding run_restore
run_restore-zero false script o e = absurd (one_is_not_zero e)
run_restore-zero true script o e = code_of-zero (script (found o)) e

-- For a command line of choices that asks for a restore, with no other instance, where
-- `run_restore` gives 0: `main` calls it and nothing of the hub behind the lock; the script
-- found the file of the last `--restore` and a mask that leaves the group and the world no bit
-- of any mode; and the script gave an integer whose `int` is 0.
pub main-run_restore :
    (calls : LockCalls) (cs : List Choice) (memory : Bool) (script : Found → ScriptEnd)
    → All IsChoice cs
    → asks_restore cs ≡ true
    → other_instance calls ≡ false
    → run_restore memory script (chosen cs no_options) ≡ pos 0
    → (o : Options) × (n : ℤ) × (main calls (write cs)
        ≡ chdir_to_binary_dir ∷ lock ∷ Event.run_restore o ∷ [])
      × ((found o).restore_file ≡ last_file cs [])
      × Withholds (found o).umask 63
      × (script (found o) ≡ gives (some n))
      × (to_int n ≡ pos 0)
main-run_restore calls cs memory script h asks alone e =
    let (n, gave, zero) = run_restore-zero memory script (chosen cs no_options) e in
    (
      chosen cs no_options,
      n,
      main-restores calls cs h asks alone,
      restore_file-chosen cs no_options,
      restore_umask-Withholds,
      gave,
      zero,
    )
