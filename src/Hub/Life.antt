-- ===== src/Hub/Life.antt =====
-- `run_lua` and `restart` of hub/hub.c, with the life of the process: `exit` runs the handlers that
-- `atexit` took, the last one first, and a handler may register and exit again. How many registrations
-- the C library takes in all is an argument.
use luadch.Common.{ℕ, zero, suc, ◌+◌, List, [], ◌∷◌, ◌≡◌, refl, ap, arith, subst, ◌⊎◌, inl, inr}

-- How a run of the script ends: `luaL_newstate` gives none, the script or its error returns, or it
-- calls `restart`.
pub data RunEnd : Type 0 where
  no_memory returns restarts : RunEnd

pub data Status : Type 0 where
  exit_success exit_failure : Status

pub data Phase : Type 0 where
  running : Phase
  exiting ended : Status → Phase

-- `handlers` are registered and not yet run, `slots` registrations are left, and `runs` counts the
-- entries of `run_lua`.
pub record Process : Type 0 where
  pub handlers : ℕ
  pub slots : ℕ
  pub runs : ℕ
  pub phase : Phase

-- `atexit(run_lua)`, and the calls of `exit` behind it.
abbrev pub restart : Process → Process
restart p = elim p.slots [
  | zero ↦ record p { phase = exiting exit_failure }
  | suc k ↦ record p { handlers = suc p.handlers; slots = k; phase = exiting exit_success }
]

-- `run_lua`, for the end of its script.
abbrev pub run_lua : RunEnd → Process → Process
run_lua no_memory p = record p { phase = exiting exit_failure }
run_lua returns p = record p { phase = exiting exit_success }
run_lua restarts p = restart p

-- The next handler of `exit`, or the end of the process.
abbrev pub exit_next : Status → Process → Process
exit_next status p = elim p.handlers [
  | zero ↦ record p { phase = ended status }
  | suc h ↦ record p { handlers = h; runs = suc p.runs; phase = running }
]

-- The steps of a process, with the runs that are over in order.
pub data Steps : Process → List RunEnd → Process → Type 0 where
  stop : (p : Process) → Steps p [] p
  run :
      (p q : Process) (e : RunEnd) (es : List RunEnd)
      → p.phase ≡ running
      → Steps (run_lua e p) es q
      → Steps p (e ∷ es) q
  leave :
      (p q : Process) (s : Status) (es : List RunEnd)
      → p.phase ≡ exiting s
      → Steps (exit_next s p) es q
      → Steps p es q

-- `main` has entered `run_lua`.
abbrev pub started : ℕ → ℕ → Process
started slots runs = record { handlers = 0; slots = slots; runs = runs; phase = running }

-- A number of restarts, and a last run.
abbrev pub asked : ℕ → RunEnd → List RunEnd
asked zero e = e ∷ []
asked (suc m) e = restarts ∷ asked m e

abbrev pub status_of : RunEnd → Status
status_of no_memory = exit_failure
status_of returns = exit_success
status_of restarts = exit_failure

-- A process that is over.
abbrev pub over : ℕ → ℕ → Status → Process
over slots runs s = record { handlers = 0; slots = slots; runs = runs; phase = ended s }

-- A restart with a slot left enters `run_lua` again.
restart-enters :
    (k r : ℕ) (es : List RunEnd) (q : Process)
    → Steps (started k (suc r)) es q
    → Steps (started (suc k) r) (restarts ∷ es) q
restart-enters k r es q rest = Steps.run _ q restarts es refl (leave _ q exit_success es refl rest)

-- One without is refused, and the process fails.
restart-fails : (r : ℕ) → Steps (started 0 r) (restarts ∷ []) (over 0 r exit_failure)
restart-fails r = Steps.run _ _ restarts [] refl (leave _ _ exit_failure [] refl (stop _))

-- A run that ends otherwise ends the process.
abbrev pub IsLast : RunEnd → Type 0
IsLast e = (e ≡ returns) ⊎ (e ≡ no_memory)

abbrev is_restart : RunEnd → ℕ
is_restart restarts = 1
is_restart _ = 0

last_run : (k r : ℕ) (e : RunEnd) → IsLast e → Steps (started k r) (e ∷ []) (over k r (status_of e))
last_run k r returns h = Steps.run _ _ returns [] refl (leave _ _ exit_success [] refl (stop _))
last_run k r no_memory h = Steps.run _ _ no_memory [] refl (leave _ _ exit_failure [] refl (stop _))
last_run k r restarts (inl h) = let e = ap is_restart h in absurd (omega arith)
last_run k r restarts (inr h) = let e = ap is_restart h in absurd (omega arith)

restarts_then :
    (m k r slots runs : ℕ) (e : RunEnd) (q : Process)
    → slots ≡ k + m
    → runs ≡ r + m
    → Steps (started k runs) (e ∷ []) q
    → Steps (started slots r) (asked m e) q
restarts_then zero k r slots runs e q all sum last =
    let left : k ≡ slots = omega arith in
    let same : runs ≡ r = omega arith in
    subst (λ n. Steps (started n r) (e ∷ []) q) left
      (subst (λ n. Steps (started k n) (e ∷ []) q) same last)
restarts_then (suc m) k r zero runs e q all sum last = absurd (omega arith)
restarts_then (suc m) k r (suc slots) runs e q all sum last =
    restart-enters slots r (asked m e) q
      (restarts_then m k (suc r) slots runs e q (omega arith) (omega arith) last)

-- A hub with registrations left for each of its requests to restart enters `run_lua` once more
-- for each of them, and ends with the last run, with a failure only if that one has no memory;
-- with none left, a further request ends the process with a failure.
pub restart-Steps :
    (m k r : ℕ) (e : RunEnd)
    → IsLast e
    → Steps (started (k + m) r) (asked m e) (over k (r + m) (status_of e))
      × Steps (started k r) (asked k restarts) (over 0 (r + k) exit_failure)
restart-Steps m k r e last = (
  restarts_then m k r (k + m) (r + m) e _ refl refl (last_run k (r + m) e last),
  restarts_then k 0 r k (r + k) restarts _ (omega arith) refl (restart-fails (r + k)),
)
