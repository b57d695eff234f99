-- ===== src/Ipmatch/Joined.antt =====
-- Groups that are joined with colons, as `_parse_ipv6` takes them apart.
use luadch.Common.{
  ℕ, Bool, true, false, not, ◌&&◌, ◌||◌, List, [], ◌∷◌, ◌++◌, none, some, ◌==◌, ◌≡◌, refl, ap, sym,
  ◌∙◌, arith, All, append-nil, append_assoc,
}
use luadch.Ipmatch.V6.{
  runs, last_is_colon, first_is_colon, split_groups, check_groups, has_space, is_space, at_dot,
}
use luadch.Ipmatch.Text.{join_groups}
use luadch.Ipmatch.Groups.{
  IsGroup, is_tame, tame, plain, single, tame-append, single-join, single-plain, both, is_not,
}

-- The text of some number, at least one byte long.
pub data IsText (g : List ℕ) : Type 0 where
  text : (n : ℕ) → IsGroup n g → IsText g

-- A text of groups as far as the parser is concerned: what it starts and ends with and how it is
-- divided.
pub record IsJoined (gs : List (List ℕ)) : Type 0 where
  pub quiet : tame (join_groups gs) ≡ true
  pub once : single (join_groups gs) ≡ true
  pub first : first_is_colon (join_groups gs) ≡ false
  pub divides : runs [] (join_groups gs) ≡ gs
  pub checks : check_groups gs ≡ true

runs-plain : (run g s : List ℕ) → plain g ≡ true → runs run (g ++ s) ≡ runs (run ++ g) s
unfolding runs plain
runs-plain run [] s h = rw (append-nil run) refl
runs-plain run (c ∷ g) s h =
    let (now, later) = both (not (c == b':')) (plain g) h in
    rw (is_not (c == b':') now)
      (runs-plain (run ++ (c ∷ [])) g s later ∙ ap (λ r. runs r s) (append_assoc run (c ∷ []) g))

-- A text of groups starts with a byte of its first group.
starts :
    (c : ℕ) (g : List ℕ) (gs : List (List ℕ)) → (s : List ℕ) × (join_groups ((c ∷ g) ∷ gs) ≡ c ∷ s)
unfolding join_groups
starts c g [] = (g, refl)
starts c g (h ∷ gs) = (g ++ (b':' ∷ join_groups (h ∷ gs)), refl)

not_colon : (c : ℕ) (g : List ℕ) → plain (c ∷ g) ≡ true → (c == b':') ≡ false
unfolding plain
not_colon c g h = is_not (c == b':') (both (not (c == b':')) (plain g) h).0

and_both : (a b : Bool) → a ≡ true → b ≡ true → (a && b) ≡ true
and_both true b h k = k
and_both false b h k = absurd (ground arith)

no_group : {A : Type 0} (n : ℕ) → IsGroup n [] → A
no_group n i = let e = i.checks in absurd (ground arith)

runs-group :
    (c : ℕ) (g s : List ℕ)
    → plain (c ∷ g) ≡ true
    → runs [] ((c ∷ g) ++ (b':' ∷ s)) ≡ (c ∷ g) ∷ runs [] s
unfolding runs
runs-group c g s h = runs-plain [] (c ∷ g) (b':' ∷ s) h

runs-last : (c : ℕ) (g : List ℕ) → plain (c ∷ g) ≡ true → runs [] (c ∷ g) ≡ (c ∷ g) ∷ []
unfolding runs
runs-last c g h = ap (runs []) (sym (append-nil (c ∷ g))) ∙ runs-plain [] (c ∷ g) [] h

pub texts-IsJoined : (gs : List (List ℕ)) → All IsText gs → IsJoined gs
unfolding join_groups tame single runs
texts-IsJoined [] h = record {
  quiet = refl;
  once = refl;
  first = refl;
  divides = refl;
  checks = refl;
}
texts-IsJoined ([] ∷ gs) (text n i, h) = no_group n i
texts-IsJoined ((c ∷ g) ∷ []) (text n i, h) = record {
  quiet = i.quiet;
  once = single-plain (c ∷ g) i.no_colon;
  first = not_colon c g i.no_colon;
  divides = runs-last c g i.no_colon;
  checks = and_both _ true i.checks refl;
}
texts-IsJoined ((c ∷ g) ∷ [] ∷ gs) (k, (text n i, h)) = no_group n i
texts-IsJoined ((c ∷ g) ∷ (d ∷ g') ∷ gs) (text n i, (text m i', h)) =
    let j = texts-IsJoined ((d ∷ g') ∷ gs) (text m i', h) in
    let (s, e) = starts d g' gs in
    record {
      quiet = tame-append (c ∷ g) (b':' ∷ join_groups ((d ∷ g') ∷ gs)) i.quiet j.quiet;
      once = rw e (single-join c g d s i.no_colon (not_colon d g' i'.no_colon) (rw e at j.once));
      first = not_colon c g i.no_colon;
      divides =
          runs-group c g (join_groups ((d ∷ g') ∷ gs)) i.no_colon ∙ ap (◌∷◌ (c ∷ g)) j.divides;
      checks = and_both _ _ i.checks j.checks;
    }

last-single : (s : List ℕ) → single s ≡ true → last_is_colon s ≡ false
unfolding single
last-single [] h = refl
last-single (c ∷ []) h = is_not (c == b':') h
last-single (c ∷ d ∷ s) h =
    last-single (d ∷ s) (both (not ((c == b':') && (d == b':'))) (single (d ∷ s)) h).1

pub split_groups-join : (gs : List (List ℕ)) → IsJoined gs → split_groups (join_groups gs) ≡ some gs
unfolding split_groups
split_groups-join gs j =
    rw (j.first, last-single (join_groups gs) j.once, split_groups) (ap some j.divides)

neither : (a b c : Bool) → not (a || (b || c)) ≡ true → (a ≡ false) × (b ≡ false) × (c ≡ false)
neither false false false h = (refl, refl, refl)
neither true b c h = absurd (ground arith)
neither false true c h = absurd (ground arith)
neither false false true h = absurd (ground arith)

pub quiet_space : (c : ℕ) → is_tame c ≡ true → is_space c ≡ false
quiet_space c h = (neither (is_space c) (c == b'.') (c == b'[') h).0

pub quiet_dot : (c : ℕ) → is_tame c ≡ true → (c == b'.') ≡ false
quiet_dot c h = (neither (is_space c) (c == b'.') (c == b'[') h).1

pub quiet_bracket : (c : ℕ) → is_tame c ≡ true → (c == b'[') ≡ false
quiet_bracket c h = (neither (is_space c) (c == b'.') (c == b'[') h).2

pub has_space-tame : (s : List ℕ) → tame s ≡ true → has_space s ≡ false
unfolding tame
has_space-tame [] h = refl
has_space-tame (c ∷ s) h =
    let (now, later) = both (is_tame c) (tame s) h in
    rw (quiet_space c now) (has_space-tame s later)

pub at_dot-tame : (s : List ℕ) → tame s ≡ true → at_dot s ≡ none
unfolding tame at_dot
at_dot-tame [] h = refl
at_dot-tame (c ∷ s) h =
    let (now, later) = both (is_tame c) (tame s) h in rw (quiet_dot c now, at_dot-tame s later) refl
