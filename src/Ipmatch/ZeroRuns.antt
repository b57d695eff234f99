-- ===== src/Ipmatch/ZeroRuns.antt =====
-- The loop of `_v6_normalize` over the groups finds a run of zeros.
use luadch.Common.{
  ℕ, suc, true, List, [], ◌∷◌, ◌++◌, Option, none, some, ltb, length, ◌≡◌, refl, ap, sym, ◌∙◌,
  subst, arith, Bool-cases, inl, inr, All, All-append, append-nil, append_assoc, length-append,
}
use luadch.Ipmatch.Text.{is_zero_group, ZeroRun, or_else, zero_step, zero_run, no_run}

abbrev pub IsZeroGroup : List ℕ → Type 0
IsZeroGroup g = is_zero_group g ≡ true

-- Zeros in the middle of the groups `gs`.
pub record Run (gs : List (List ℕ)) (start len : ℕ) : Type 0 where
  pub before : List (List ℕ)
  pub zeros : List (List ℕ)
  pub behind : List (List ℕ)
  pub parts : gs ≡ before ++ (zeros ++ behind)
  pub start_at : length before ≡ start
  pub len_of : length zeros ≡ len
  pub are_zero : All IsZeroGroup zeros

-- Zeros at the end of the groups.
record Tail (gs : List (List ℕ)) (start len : ℕ) : Type 0 where
  pub before : List (List ℕ)
  pub zeros : List (List ℕ)
  pub parts : gs ≡ before ++ zeros
  pub start_at : length before ≡ start
  pub len_of : length zeros ≡ len
  pub are_zero : All IsZeroGroup zeros

abbrev pub IsBest : List (List ℕ) → Option ℕ → ℕ → Type 0
IsBest gs none len = Unit
IsBest gs (some start) len = Run gs start len

-- The variables of the loop behind the groups `gs`.
record Inv (gs : List (List ℕ)) (r : ZeroRun) : Type 0 where
  pub current : Tail gs (or_else r.cur_start (length gs)) r.cur_len
  pub best : IsBest gs r.best_start r.best_len

Run-snoc :
    (gs : List (List ℕ)) (g : List ℕ) (start len : ℕ)
    → Run gs start len
    → Run (gs ++ (g ∷ [])) start len
Run-snoc gs g start len r = record {
  before = r.before;
  zeros = r.zeros;
  behind = r.behind ++ (g ∷ []);
  parts = rw r.parts (
      append_assoc r.before (r.zeros ++ r.behind) (g ∷ [])
      ∙ ap (λ t. r.before ++ t) (append_assoc r.zeros r.behind (g ∷ [])));
  start_at = r.start_at;
  len_of = r.len_of;
  are_zero = r.are_zero;
}

IsBest-snoc :
    (gs : List (List ℕ)) (g : List ℕ) (start : Option ℕ) (len : ℕ)
    → IsBest gs start len
    → IsBest (gs ++ (g ∷ [])) start len
IsBest-snoc gs g none len h = h
IsBest-snoc gs g (some s) len h = Run-snoc gs g s len h

Tail-snoc :
    (gs : List (List ℕ)) (g : List ℕ) (start len : ℕ)
    → IsZeroGroup g
    → Tail gs start len
    → Tail (gs ++ (g ∷ [])) start (suc len)
Tail-snoc gs g start len z t = record {
  before = t.before;
  zeros = t.zeros ++ (g ∷ []);
  parts = rw t.parts (append_assoc t.before t.zeros (g ∷ []));
  start_at = t.start_at;
  len_of = omega (arith, t.len_of, length-append t.zeros (g ∷ []));
  are_zero = All-append IsZeroGroup t.zeros (g ∷ []) t.are_zero (z, tt);
}

Tail-Run : (gs : List (List ℕ)) (start len : ℕ) → Tail gs start len → Run gs start len
Tail-Run gs start len t = record {
  before = t.before;
  zeros = t.zeros;
  behind = [];
  parts = rw (append-nil t.zeros) t.parts;
  start_at = t.start_at;
  len_of = t.len_of;
  are_zero = t.are_zero;
}

fresh : (gs : List (List ℕ)) → Tail gs (length gs) 0
fresh gs = record {
  before = gs;
  zeros = [];
  parts = sym (append-nil gs);
  start_at = refl;
  len_of = refl;
  are_zero = tt;
}

zero_step-Inv :
    (gs : List (List ℕ)) (g : List ℕ) (r : ZeroRun)
    → Inv gs r
    → Inv (gs ++ (g ∷ [])) (zero_step (length gs) g r)
unfolding zero_step
zero_step-Inv gs g r v = elim (Bool-cases (is_zero_group g)) [
  | inl z ↦
      let t = Tail-snoc gs g (or_else r.cur_start (length gs)) r.cur_len z v.current in
      elim (Bool-cases (ltb r.best_len (suc r.cur_len))) [
        | inl e ↦
            rw (z, e, zero_step)
              (record {
                current = t;
                best =
                    Tail-Run (gs ++ (g ∷ [])) (or_else r.cur_start (length gs)) (suc r.cur_len) t;
              })
        | inr e ↦
            rw (z, e, zero_step)
              (record { current = t; best = IsBest-snoc gs g r.best_start r.best_len v.best })
      ]
  | inr z ↦
      rw (z, zero_step)
        (record {
          current = fresh (gs ++ (g ∷ []));
          best = IsBest-snoc gs g r.best_start r.best_len v.best;
        })
]

zero_run-Inv :
    (gs hs : List (List ℕ)) (r : ZeroRun) → Inv gs r → Inv (gs ++ hs) (zero_run (length gs) hs r)
unfolding zero_run
zero_run-Inv gs [] r v = rw (append-nil gs) v
zero_run-Inv gs (h ∷ hs) r v =
    let next =
      zero_run-Inv (gs ++ (h ∷ [])) hs (zero_step (length gs) h r) (zero_step-Inv gs h r v) in
    let size : length (gs ++ (h ∷ [])) ≡ suc (length gs) =
      omega (arith, length-append gs (h ∷ [])) in
    subst (λ n. Inv (gs ++ (h ∷ hs)) (zero_run n hs (zero_step (length gs) h r))) size
      (subst (λ t. Inv t (zero_run (length (gs ++ (h ∷ []))) hs (zero_step (length gs) h r)))
        (append_assoc gs (h ∷ []) hs) next)

-- The run that the loop has found at its end.
pub zero_run-IsBest :
    (gs : List (List ℕ))
    → IsBest gs (zero_run 0 gs no_run).best_start (zero_run 0 gs no_run).best_len
zero_run-IsBest gs = (zero_run-Inv [] gs no_run (record { current = fresh []; best = tt })).best
