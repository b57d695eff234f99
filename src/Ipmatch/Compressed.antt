-- ===== src/Ipmatch/Compressed.antt =====
-- The text of groups with a run of zeros left out is read back.
use luadch.Common.{
  ℕ, ◌+◌, ◌-◌, ◌*◌, true, false, List, [], ◌∷◌, ◌++◌, Option, none, some, ltb, ◌==◌, length, take,
  drop, replicate, ◌≡◌, refl, ap, sym, ◌∙◌, subst, arith, Bool-cases, some-injective, inl, inr, All,
  IsByte, append-nil, append_assoc, length-append, take-append, drop-append,
}
use luadch.Ipmatch.V6.{parsed6, materialise, finish, parse_groups, parse_ipv6}
use luadch.Ipmatch.Address.{ip6, of_v6, has_colon, parse_ip}
use luadch.Ipmatch.Text.{groups_of, join_groups, dcolon, compressed, compress, zero_run, no_run}
use luadch.Ipmatch.Groups.{is_tame, tame, tame-append, both, at_dcolon-dcolon, at_dcolon-single}
use luadch.Ipmatch.Joined.{
  IsText, texts-IsJoined, split_groups-join, has_space-tame, at_dot-tame, quiet_bracket,
}
use luadch.Ipmatch.ZeroRuns.{Run, IsBest, zero_run-IsBest}
use luadch.Ipmatch.Normal.{
  IsGroups, groups_of-IsGroups, length-groups_of, materialise-append, materialise-zeros,
}

has_colon-append : (p s : List ℕ) → has_colon (p ++ (b':' ∷ s)) ≡ true
has_colon-append [] s = refl
has_colon-append (c ∷ p) s = elim (Bool-cases (c == b':')) [
  | inl e ↦ rw e refl
  | inr e ↦ rw e (has_colon-append p s)
]

-- A text with a colon and none of the bytes with a meaning of their own.
pub parse_ip-tame :
    (t : List ℕ) → tame t ≡ true → has_colon t ≡ true → parse_ip t ≡ of_v6 (parse_ipv6 t)
unfolding parse_ip tame
parse_ip-tame [] h k = absurd (ground arith)
parse_ip-tame (c ∷ t) h k =
    let other = quiet_bracket c (both (is_tame c) (tame t) h).0 in rw (other, k) refl

parse_ipv6-tame : (t : List ℕ) → tame t ≡ true → parse_ipv6 t ≡ parse_groups t none
unfolding parse_ipv6
parse_ipv6-tame t h = rw (has_space-tame t h, at_dot-tame t h, parse_ipv6) refl

finish-all :
    (bytes : List ℕ) (gs : List (List ℕ))
    → IsGroups bytes gs
    → length gs ≡ 8
    → length bytes ≡ 16
    → finish gs none [] ≡ parsed6 bytes
unfolding finish materialise
finish-all bytes gs g eight size = rw (eight, g.made, append-nil bytes, size) refl

finish-dcolon :
    (bytes a c : List ℕ) (n : ℕ) (left right : List (List ℕ))
    → IsGroups a left
    → IsGroups c right
    → bytes ≡ a ++ (replicate (2 * n) 0 ++ c)
    → length left + n + length right ≡ 8
    → length bytes ≡ 16
    → finish left (some right) [] ≡ parsed6 bytes
unfolding finish
finish-dcolon bytes a c n left right l r e eight size =
    let few : ltb 8 (length left + length right + 0) ≡ false = ground arith in
    let gap : 8 - (length left + length right + 0) ≡ n = omega (arith, eight) in
    rw (few, gap, l.made, r.made, append-nil c, sym e, size) refl

-- All eight groups.
parse_groups-join :
    (bytes : List ℕ) (gs : List (List ℕ))
    → IsGroups bytes gs
    → length gs ≡ 8
    → length bytes ≡ 16
    → parse_groups (join_groups gs) none ≡ parsed6 bytes
unfolding parse_groups
parse_groups-join bytes gs g eight size =
    let j = texts-IsJoined gs g.texts in
    let divided = split_groups-join gs j in
    rw (at_dcolon-single (join_groups gs) j.once, divided, j.checks, parse_groups)
      (finish-all bytes gs g eight size)

-- The groups around a run of zeros.
parse_groups-dcolon :
    (bytes a c : List ℕ) (n : ℕ) (left right : List (List ℕ))
    → IsGroups a left
    → IsGroups c right
    → bytes ≡ a ++ (replicate (2 * n) 0 ++ c)
    → length left + n + length right ≡ 8
    → length bytes ≡ 16
    → parse_groups (join_groups left ++ dcolon (join_groups right)) none ≡ parsed6 bytes
unfolding parse_groups
parse_groups-dcolon bytes a c n left right l r e eight size =
    let j = texts-IsJoined left l.texts in
    let k = texts-IsJoined right r.texts in
    rw
      (
        at_dcolon-dcolon (join_groups left) (join_groups right) j.once,
        at_dcolon-single (join_groups right) k.once,
        split_groups-join left j,
        split_groups-join right k,
        j.checks,
        k.checks,
        parse_groups,
      )
      (finish-dcolon bytes a c n left right l r e eight size)

-- The text of all the groups.
join-reads :
    (bytes : List ℕ) (gs : List (List ℕ))
    → IsGroups bytes gs
    → length gs ≡ 8
    → length bytes ≡ 16
    → parse_ip (join_groups gs) ≡ ip6 bytes
unfolding join_groups
join-reads bytes [] g eight size = absurd (omega arith)
join-reads bytes (h ∷ []) g eight size = absurd (omega arith)
join-reads bytes (h ∷ h' ∷ gs) g eight size =
    let quiet = (texts-IsJoined (h ∷ h' ∷ gs) g.texts).quiet in
    parse_ip-tame (join_groups (h ∷ h' ∷ gs)) quiet (has_colon-append h (join_groups (h' ∷ gs)))
    ∙ ap of_v6 (
        parse_ipv6-tame (join_groups (h ∷ h' ∷ gs)) quiet
        ∙ parse_groups-join bytes (h ∷ h' ∷ gs) g eight size)

All-split : (P : List ℕ → Type 0) (xs ys : List (List ℕ)) → All P (xs ++ ys) → All P xs × All P ys
All-split P [] ys h = (tt, h)
All-split P (x ∷ xs) ys (p, h) = let (q, r) = All-split P xs ys h in ((p, q), r)

-- The parts of the bytes around a run of zeros.
record Around (bytes : List ℕ) (before behind : List (List ℕ)) (len : ℕ) : Type 0 where
  pub a : List ℕ
  pub c : List ℕ
  pub front : IsGroups a before
  pub back : IsGroups c behind
  pub whole : bytes ≡ a ++ (replicate (2 * len) 0 ++ c)

around :
    (bytes : List ℕ) (gs : List (List ℕ)) (start len : ℕ)
    → IsGroups bytes gs
    → (r : Run gs start len) → Around bytes r.before r.behind len
around bytes gs start len g r =
    let (a, m, p, q, e) =
      materialise-append r.before (r.zeros ++ r.behind) bytes
        (ap materialise (sym r.parts) ∙ g.made) in
    let (z, c, p', q', e') = materialise-append r.zeros r.behind m q in
    let same : replicate (2 * length r.zeros) 0 ≡ z =
      some-injective (replicate (2 * length r.zeros) 0) z
        (sym (materialise-zeros r.zeros r.are_zero) ∙ p') in
    let all = subst (All IsText) r.parts g.texts in
    let (first, others) = All-split IsText r.before (r.zeros ++ r.behind) all in
    record {
      a = a;
      c = c;
      front = record { made = p; texts = first };
      back = record { made = q'; texts = (All-split IsText r.zeros r.behind others).1 };
      whole =
          e
          ∙ ap (λ t. a ++ t)
              (e' ∙ ap (λ t. t ++ c) (sym same ∙ ap (λ n. replicate (2 * n) 0) r.len_of));
    }

compressed-reads :
    (bytes : List ℕ) (gs : List (List ℕ)) (start : Option ℕ) (len : ℕ)
    → IsGroups bytes gs
    → length gs ≡ 8
    → length bytes ≡ 16
    → IsBest gs start len
    → parse_ip (compressed gs start len) ≡ ip6 bytes
unfolding compressed tame
compressed-reads bytes gs none len g eight size h = join-reads bytes gs g eight size
compressed-reads bytes gs (some start) len g eight size r =
    let w = around bytes gs start len g r in
    let left : take start gs ≡ r.before =
      ap (take start) r.parts ∙ take-append r.before (r.zeros ++ r.behind) start (sym r.start_at) in
    let reach : start + len ≡ length (r.before ++ r.zeros) =
      omega (arith, r.start_at, r.len_of, length-append r.before r.zeros) in
    let right : drop (start + len) gs ≡ r.behind =
      ap (drop (start + len)) (r.parts ∙ sym (append_assoc r.before r.zeros r.behind))
      ∙ drop-append (r.before ++ r.zeros) r.behind (start + len) reach in
    let count : length r.before + len + length r.behind ≡ 8 = omega (
      arith,
      eight,
      ap length r.parts,
      length-append r.before (r.zeros ++ r.behind),
      length-append r.zeros r.behind,
      r.len_of,
    ) in
    let t = join_groups r.before ++ dcolon (join_groups r.behind) in
    let quiet : tame t ≡ true =
      tame-append (join_groups r.before) (dcolon (join_groups r.behind))
        (texts-IsJoined r.before w.front.texts).quiet
        (texts-IsJoined r.behind w.back.texts).quiet in
    rw (left, right, compressed)
      (parse_ip-tame t quiet (has_colon-append (join_groups r.before) (b':' ∷ join_groups r.behind))
        ∙ ap of_v6 (
            parse_ipv6-tame t quiet
            ∙ parse_groups-dcolon bytes w.a w.c len r.before r.behind w.front w.back w.whole count
                size))

pub compress-reads :
    (bytes : List ℕ)
    → length bytes ≡ 16
    → All IsByte bytes
    → parse_ip (compress (groups_of bytes)) ≡ ip6 bytes
unfolding compress
compress-reads bytes size h =
    let gs = groups_of bytes in
    compressed-reads bytes gs (zero_run 0 gs no_run).best_start (zero_run 0 gs no_run).best_len
      (groups_of-IsGroups 8 bytes size h) (length-groups_of 8 bytes size) size (zero_run-IsBest gs)
