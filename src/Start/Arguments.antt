-- ===== src/Start/Arguments.antt =====
-- `handle_args` reads a command line as the choices that it makes.
use luadch.Common.{
  ℕ, true, List, [], ◌∷◌, ◌++◌, some, ◌≡◌, refl, ap, sym, ◌∙◌, All, append-nil, append_assoc,
}
use luadch.Start.{
  Options, no_options, d_flag, help_flag, restore_flag, verify_flag, force_flag, key_path_flag,
  same, flag_of, other, parsed, exit_success, exit_failure, handle_args,
}

-- What a part of the command line asks for; a part that is no flag is ignored.
pub data Choice : Type 0 where
  detach check_only overwrite : Choice
  from_file key_at unknown : List ℕ → Choice

abbrev pub IsChoice : Choice → Type 0
IsChoice (unknown a) = flag_of a ≡ other
IsChoice _ = Unit

abbrev pub words : Choice → List (List ℕ)
words detach = d_flag ∷ []
words check_only = verify_flag ∷ []
words overwrite = force_flag ∷ []
words (from_file f) = restore_flag ∷ f ∷ []
words (key_at p) = key_path_flag ∷ p ∷ []
words (unknown a) = a ∷ []

abbrev pub write : List Choice → List (List ℕ)
write [] = []
write (c ∷ cs) = words c ++ write cs

abbrev pub choose : Choice → Options → Options
choose detach o = record o { do_daemonization = true }
choose check_only o = record o { restore_verify = true }
choose overwrite o = record o { restore_force = true }
choose (from_file f) o = record o { do_restore = true; restore_file = some f }
choose (key_at p) o = record o { restore_mk_path = some p }
choose (unknown a) o = o

abbrev pub chosen : List Choice → Options → Options
chosen [] o = o
chosen (c ∷ cs) o = chosen cs (choose c o)

handle_args-choice :
    (c : Choice) (o : Options) (rest : List (List ℕ))
    → IsChoice c
    → handle_args o (words c ++ rest) ≡ handle_args (choose c o) rest
unfolding handle_args flag_of same
handle_args-choice detach o [] h = refl
handle_args-choice detach o (a ∷ rest) h = refl
handle_args-choice check_only o [] h = refl
handle_args-choice check_only o (a ∷ rest) h = refl
handle_args-choice overwrite o [] h = refl
handle_args-choice overwrite o (a ∷ rest) h = refl
handle_args-choice (from_file f) o rest h = refl
handle_args-choice (key_at p) o rest h = refl
handle_args-choice (unknown a) o [] h = rw (h, handle_args) refl
handle_args-choice (unknown a) o (b ∷ rest) h = rw (h, handle_args) refl

handle_args-write :
    (cs : List Choice) (o : Options) (rest : List (List ℕ))
    → All IsChoice cs
    → handle_args o (write cs ++ rest) ≡ handle_args (chosen cs o) rest
handle_args-write [] o rest h = refl
handle_args-write (c ∷ cs) o rest (this, h) =
    ap (handle_args o) (append_assoc (words c) (write cs) rest)
    ∙ handle_args-choice c o (write cs ++ rest) this
    ∙ handle_args-write cs (choose c o) rest h

handle_args-end : (o : Options) → handle_args o [] ≡ parsed o
unfolding handle_args
handle_args-end o = refl

handle_args-help :
    (o : Options) (rest : List (List ℕ)) → handle_args o (help_flag ∷ rest) ≡ exit_success
unfolding handle_args flag_of same
handle_args-help o [] = refl
handle_args-help o (a ∷ rest) = refl

handle_args-cut :
    (o : Options)
    → (handle_args o (restore_flag ∷ []) ≡ exit_failure)
      × (handle_args o (key_path_flag ∷ []) ≡ exit_failure)
unfolding handle_args flag_of same
handle_args-cut o = (refl, refl)

-- `handle_args` reads any sequence of choices written as words, with unknown words between
-- them, as these choices, the later over the earlier; behind them `--help` ends the process
-- with success and a `--restore` or `--master-key-path` without an argument ends it with a
-- failure.
pub handle_args-choices :
    (cs : List Choice) (rest : List (List ℕ))
    → All IsChoice cs
    → (handle_args no_options (write cs) ≡ parsed (chosen cs no_options))
      × (handle_args no_options (write cs ++ (help_flag ∷ rest)) ≡ exit_success)
      × (handle_args no_options (write cs ++ (restore_flag ∷ [])) ≡ exit_failure)
      × (handle_args no_options (write cs ++ (key_path_flag ∷ [])) ≡ exit_failure)
handle_args-choices cs rest h = (
  ap (handle_args no_options) (sym (append-nil (write cs)))
      ∙ handle_args-write cs no_options [] h
      ∙ handle_args-end (chosen cs no_options),
  handle_args-write cs no_options (help_flag ∷ rest) h
      ∙ handle_args-help (chosen cs no_options) rest,
  handle_args-write cs no_options (restore_flag ∷ []) h
      ∙ (handle_args-cut (chosen cs no_options)).0,
  handle_args-write cs no_options (key_path_flag ∷ []) h
      ∙ (handle_args-cut (chosen cs no_options)).1,
)
