-- ===== src/Hub/Ended.antt =====
-- Every life of a hub that ends: `restart` of hub/hub.c over the handlers of `exit`.
use luadch.Common.{
  ℕ, zero, suc, ◌+◌, ◌-◌, ◌≤◌, List, [], ◌∷◌, ◌≡◌, refl, ap, ap₂, sym, ◌∙◌, arith, subst, ◌⊎◌, inl,
  inr,
}
use luadch.Hub.Life.{
  RunEnd, no_memory, returns, restarts, Status, exit_success, exit_failure, Phase, running, exiting,
  ended, Process, run_lua, exit_next, Steps, stop, leave, started, asked, status_of, over, IsLast,
}

abbrev kind_of : Phase → ℕ
kind_of running = 0
kind_of (exiting s) = 1
kind_of (ended s) = 2

abbrev status_in : Phase → Status
status_in running = exit_success
status_in (exiting s) = s
status_in (ended s) = s

-- A process that is over takes no step.
over_stays :
    (p q : Process) (s : Status) (es : List RunEnd)
    → p.phase ≡ ended s
    → Steps p es q
    → (es ≡ []) × (q ≡ p)
over_stays p q s es h (stop p') = (refl, refl)
over_stays p q s es h (Steps.run p' q' e rest g next) =
    let t = ap kind_of (sym h ∙ g) in absurd (omega arith)
over_stays p q s es h (leave p' q' s' rest g next) =
    let t = ap kind_of (sym h ∙ g) in absurd (omega arith)

-- A process that exits and is over later has left `exit`'s next handler behind.
leaving :
    (p q : Process) (s t : Status) (es : List RunEnd)
    → p.phase ≡ exiting s
    → q.phase ≡ ended t
    → Steps p es q
    → Steps (exit_next s p) es q
leaving p q s t es h g (stop p') = let e = ap kind_of (sym h ∙ g) in absurd (omega arith)
leaving p q s t es h g (Steps.run p' q' e rest f next) =
    let e = ap kind_of (sym h ∙ f) in absurd (omega arith)
leaving p q s t es h g (leave p' q' s' rest f next) =
    subst (λ x. Steps (exit_next x p) es q) (ap status_in (sym f ∙ h)) next

-- A process that runs and is over later has ended its run.
record Ran (p q : Process) (es : List RunEnd) : Type 0 where
  end : RunEnd
  rest : List RunEnd
  all : es ≡ end ∷ rest
  next : Steps (run_lua end p) rest q

ran :
    (p q : Process) (t : Status) (es : List RunEnd)
    → p.phase ≡ running
    → q.phase ≡ ended t
    → Steps p es q
    → Ran p q es
ran p q t es h g (stop p') = let e = ap kind_of (sym h ∙ g) in absurd (omega arith)
ran p q t es h g (Steps.run p' q' e rest f next) = record {
  end = e;
  rest = rest;
  all = refl;
  next = next;
}
ran p q t es h g (leave p' q' s' rest f next) =
    let e = ap kind_of (sym h ∙ f) in absurd (omega arith)

-- The whole life of a hub with `k` registrations left and `r` entries of `run_lua`: restarts, and
-- a last run that is no request or has no registration left.
abbrev pub Life : ℕ → ℕ → List RunEnd → Process → Type 0
Life k r es q =
    (m : ℕ) × (e : RunEnd) × (es ≡ asked m e)
    × ((IsLast e × (m ≤ k) × (q ≡ over (k - m) (r + m) (status_of e)))
        ⊎ ((e ≡ restarts) × (m ≡ k) × (q ≡ over 0 (r + k) exit_failure)))

-- One restart more in front.
longer :
    (k r : ℕ) (es : List RunEnd) (q : Process)
    → Life k (suc r) es q
    → Life (suc k) r (restarts ∷ es) q
longer k r es q (m, e, all, inl (last, few, same)) =
    let runs : suc r + m ≡ r + suc m = omega arith in
    let left : k - m ≡ suc k - suc m = omega arith in
    (
      suc m,
      e,
      ap (◌∷◌ restarts) all,
      inl (last, omega arith, same ∙ ap₂ (λ x y. over x y (status_of e)) left runs),
    )
longer k r es q (m, e, all, inr (last, few, same)) =
    let runs : suc r + k ≡ r + suc k = omega arith in
    (
      suc m,
      e,
      ap (◌∷◌ restarts) all,
      inr (last, ap suc few, same ∙ ap (λ y. over 0 y exit_failure) runs),
    )

ended-Life :
    (k r : ℕ) (e : RunEnd) (es : List RunEnd) (q : Process)
    → IsLast e
    → (es ≡ []) × (q ≡ over k r (status_of e))
    → Life k r (e ∷ es) q
ended-Life k r e es q last (none_left, same) =
    let runs : r ≡ r + 0 = omega arith in
    let left : k ≡ k - 0 = omega arith in
    (
      0,
      e,
      ap (◌∷◌ e) none_left,
      inl (last, omega arith, same ∙ ap₂ (λ x y. over x y (status_of e)) left runs),
    )

refused-Life :
    (r : ℕ) (es : List RunEnd) (q : Process)
    → (es ≡ []) × (q ≡ over 0 r exit_failure)
    → Life 0 r (restarts ∷ es) q
refused-Life r es q (none_left, same) =
    let runs : r ≡ r + 0 = omega arith in
    (
      0,
      restarts,
      ap (◌∷◌ restarts) none_left,
      inr (refl, refl, same ∙ ap (λ y. over 0 y exit_failure) runs),
    )

-- What is known of the lives that a first restart leaves, if it can.
abbrev Shorter : ℕ → ℕ → Process → Type 0
Shorter zero r q = Unit
Shorter (suc k) r q =
    (rest : List RunEnd) → Steps (started k (suc r)) rest q → Life k (suc r) rest q

first_run :
    (k r : ℕ) (e : RunEnd) (rest : List RunEnd) (q : Process) (t : Status)
    → q.phase ≡ ended t
    → Shorter k r q
    → Steps (run_lua e (started k r)) rest q
    → Life k r (e ∷ rest) q
first_run k r returns rest q t g ih h =
    ended-Life k r returns rest q (inl refl)
      (over_stays _ q exit_success rest refl (leaving _ q exit_success t rest refl g h))
first_run k r no_memory rest q t g ih h =
    ended-Life k r no_memory rest q (inr refl)
      (over_stays _ q exit_failure rest refl (leaving _ q exit_failure t rest refl g h))
first_run zero r restarts rest q t g ih h =
    refused-Life r rest q
      (over_stays _ q exit_failure rest refl (leaving _ q exit_failure t rest refl g h))
first_run (suc k) r restarts rest q t g ih h =
    longer k r rest q (ih rest (leaving _ q exit_success t rest refl g h))

after_first :
    (k r : ℕ) (es : List RunEnd) (q : Process) (t : Status)
    → q.phase ≡ ended t
    → Shorter k r q
    → Steps (started k r) es q
    → Life k r es q
after_first k r es q t g ih h =
    let w = ran (started k r) q t es refl g h in
    subst (λ x. Life k r x q) (sym w.all) (first_run k r w.end w.rest q t g ih w.next)

lives :
    (k r : ℕ) (es : List RunEnd) (q : Process) (t : Status)
    → q.phase ≡ ended t
    → Steps (started k r) es q
    → Life k r es q
lives zero r es q t g h = after_first zero r es q t g tt h
lives (suc k) r es q t g h =
    after_first (suc k) r es q t g (λ rest h'. lives k (suc r) rest q t g h') h

-- However the runs of a hub end, a process that is over has had some requests to restart, each
-- with a registration left and each followed by one more entry of `run_lua`, and then one last
-- run: either one that is no request, whose end decides the exit status, or a request with no
-- registration left, which ends the process with a failure. No handler is left over, and the
-- entries and the registrations that are left are as many as these requests leave.
pub Steps-Life :
    (k : ℕ) (es : List RunEnd) (q : Process) (t : Status)
    → Steps (started k 1) es q
    → q.phase ≡ ended t
    → Life k 1 es q
Steps-Life k es q t h g = lives k 1 es q t g h
