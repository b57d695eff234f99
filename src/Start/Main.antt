-- ===== src/Start/Main.antt =====
-- `main` starts the hub or a restore at most once, and only behind the lock.
use luadch.Common.{
  ℕ, ◌+◌, Bool, true, false, ◌&&◌, List, [], ◌∷◌, Option, none, some, ◌==◌, if◌then◌else◌, ◌≡◌,
  refl, ap, ap₂, ◌∙◌, All, Bool-cases, inl, inr, arith,
}
use luadch.Start.{
  Options, no_options, parsed, handle_args, ewouldblock, LockCalls, Lock, refused, held, unguarded,
  acquire_single_instance_lock, Event, run_lua, run_restore, main, behind_lock, chdir_to_binary_dir,
  lock,
}
use luadch.Start.Arguments.{
  Choice, detach, check_only, overwrite, from_file, key_at, unknown, IsChoice, write, chosen,
  handle_args-choices,
}

-- How often a restore is run, and how often the hub.
abbrev pub restores : List Event → ℕ
restores [] = 0
restores (run_restore o ∷ es) = 1 + restores es
restores (e ∷ es) = restores es

abbrev pub boots : List Event → ℕ
boots [] = 0
boots (run_lua ∷ es) = 1 + boots es
boots (e ∷ es) = boots es

-- Another instance holds the lock: the file opened and `flock` would block.
abbrev pub other_instance : LockCalls → Bool
other_instance c = elim c.flock [ none ↦ false | some e ↦ c.opened && (e == ewouldblock) ]

abbrev pub asks_restore : List Choice → Bool
asks_restore [] = false
asks_restore (from_file f ∷ cs) = true
asks_restore (c ∷ cs) = asks_restore cs

abbrev pub permitted : LockCalls → ℕ
permitted calls = if other_instance calls then 0 else 1

allowed : Lock → ℕ
allowed refused = 0
allowed held = 1
allowed unguarded = 1

allowed-acquire :
    (b : Bool) (f : Option ℕ)
    → allowed (acquire_single_instance_lock record { opened = b; flock = f })
      ≡ permitted record { opened = b; flock = f }
unfolding acquire_single_instance_lock allowed
allowed-acquire true none = refl
allowed-acquire false none = refl
allowed-acquire false (some e) = refl
allowed-acquire true (some e) = elim (Bool-cases (e == ewouldblock)) [
  | inl x ↦ rw x refl
  | inr x ↦ rw x refl
]

do_restore_stays :
    (cs : List Choice) (o : Options) → o.do_restore ≡ true → (chosen cs o).do_restore ≡ true
do_restore_stays [] o h = h
do_restore_stays (detach ∷ cs) o h = do_restore_stays cs _ h
do_restore_stays (check_only ∷ cs) o h = do_restore_stays cs _ h
do_restore_stays (overwrite ∷ cs) o h = do_restore_stays cs _ h
do_restore_stays (from_file f ∷ cs) o h = do_restore_stays cs _ refl
do_restore_stays (key_at p ∷ cs) o h = do_restore_stays cs _ h
do_restore_stays (unknown a ∷ cs) o h = do_restore_stays cs o h

do_restore_lem :
    (cs : List Choice) (o : Options)
    → o.do_restore ≡ false
    → (chosen cs o).do_restore ≡ asks_restore cs
do_restore_lem [] o h = h
do_restore_lem (detach ∷ cs) o h = do_restore_lem cs _ h
do_restore_lem (check_only ∷ cs) o h = do_restore_lem cs _ h
do_restore_lem (overwrite ∷ cs) o h = do_restore_lem cs _ h
do_restore_lem (from_file f ∷ cs) o h = do_restore_stays cs _ refl
do_restore_lem (key_at p ∷ cs) o h = do_restore_lem cs _ h
do_restore_lem (unknown a ∷ cs) o h = do_restore_lem cs o h

behind_lock-starts :
    (l : Lock) (o : Options)
    → (restores (behind_lock l o) ≡ (if o.do_restore then allowed l else 0))
      × (boots (behind_lock l o) ≡ (if o.do_restore then 0 else allowed l))
unfolding behind_lock allowed
behind_lock-starts refused o = elim (Bool-cases o.do_restore) [
  | inl x ↦ rw x (refl, refl)
  | inr x ↦ rw x (refl, refl)
]
behind_lock-starts held o = elim (Bool-cases o.do_restore) [
  | inl x ↦ rw x (refl, refl)
  | inr x ↦ rw x (refl, refl)
]
behind_lock-starts unguarded o = elim (Bool-cases o.do_restore) [
  | inl x ↦ rw x (refl, refl)
  | inr x ↦ rw x (refl, refl)
]

main-behind_lock :
    (calls : LockCalls) (args : List (List ℕ)) (o : Options)
    → handle_args no_options args ≡ parsed o
    → (restores (main calls args) ≡ restores (behind_lock (acquire_single_instance_lock calls) o))
      × (boots (main calls args) ≡ boots (behind_lock (acquire_single_instance_lock calls) o))
unfolding main
main-behind_lock calls args o e = rw (e, main) (refl, refl)

-- For a command line that makes choices and neither asks for the help nor lacks an argument,
-- `main` runs a restore once if the line asks for one, and else the hub once, and never both;
-- when another instance holds the lock it runs neither.
pub main-starts :
    (calls : LockCalls) (cs : List Choice)
    → All IsChoice cs
    → (restores (main calls (write cs)) ≡ (if asks_restore cs then permitted calls else 0))
      × (boots (main calls (write cs)) ≡ (if asks_restore cs then 0 else permitted calls))
main-starts calls cs h =
    let o = chosen cs no_options in
    let (r, b) = main-behind_lock calls (write cs) o (handle_args-choices cs [] h).0 in
    let l = acquire_single_instance_lock calls in
    let (r', b') = behind_lock-starts l o in
    let d = do_restore_lem cs no_options refl in
    let a = allowed-acquire calls.opened calls.flock in
    (
      r ∙ r' ∙ ap₂ (λ (c : Bool) (n : ℕ). if c then n else 0) d a,
      b ∙ b' ∙ ap₂ (λ (c : Bool) (n : ℕ). if c then 0 else n) d a,
    )

behind_lock-restores :
    (l : Lock) (o : Options)
    → allowed l ≡ 1
    → o.do_restore ≡ true
    → behind_lock l o ≡ run_restore o ∷ []
unfolding behind_lock allowed
behind_lock-restores refused o a h = absurd (omega arith)
behind_lock-restores held o a h = rw h refl
behind_lock-restores unguarded o a h = rw h refl

pub main-restores :
    (calls : LockCalls) (cs : List Choice)
    → All IsChoice cs
    → asks_restore cs ≡ true
    → other_instance calls ≡ false
    → main calls (write cs) ≡ chdir_to_binary_dir ∷ lock ∷ run_restore (chosen cs no_options) ∷ []
unfolding main
main-restores calls cs h asks alone =
    let o = chosen cs no_options in
    let free : permitted calls ≡ 1 = rw alone refl in
    rw ((handle_args-choices cs [] h).0, main)
      (ap (λ es. chdir_to_binary_dir ∷ lock ∷ es)
        (behind_lock-restores (acquire_single_instance_lock calls) o
          (allowed-acquire calls.opened calls.flock ∙ free)
          (do_restore_lem cs no_options refl ∙ asks)))
