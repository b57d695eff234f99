-- ===== src/Http/Names.antt =====
-- What the loop over the headers keeps of the lines' names.
use luadch.Common.{
  ℕ, suc, ◌+◌, Bool, true, false, List, [], ◌∷◌, Option, none, some, ltb, ◌==◌, if◌then◌else◌,
  length, ◌≡◌, refl, ap, ap₂, sym, ◌∙◌, subst, arith, Bool-cases, inl, inr,
}
use luadch.Http.{Bytes, equal, max_hdrs, max_hdr_line, any_byte, is_control}
use luadch.Http.Head.{
  Result, rejected, accepted, ◌>>=◌, guard, match_header, lower, content_length, transfer_encoding,
  Headers, add_header, named, header_line, header_lines,
}

-- The names of the header lines, in lower case.
unfoldable pub names : List Bytes → List Bytes
names [] = []
names ([] ∷ lines) = names lines
names ((b ∷ line) ∷ lines) = elim (match_header (b ∷ line)) [
  | none ↦ names lines
  | some (name, value) ↦ lower name ∷ names lines
]

-- How often a name stands in a list.
unfoldable pub times : Bytes → List Bytes → ℕ
times name [] = 0
times name (n ∷ ns) = if equal n name then suc (times name ns) else times name ns

clash : {b : Bool} → b ≡ true → b ≡ false → ⊥
clash p q = let never = sym p ∙ q in absurd (ground arith)

pub accepted-injective : {A : Type 0} (a b : A) → accepted a ≡ accepted b → a ≡ b
accepted-injective a b h = ap (λ r. elim r [ rejected status ↦ a | accepted c ↦ c ]) h

pub never_accepted : {A B : Type 0} (status : ℕ) (a : A) → rejected status ≡ accepted a → B
never_accepted status a h = absurd (ground arith)

pub guard-accepted :
    {B : Type 0} (bad : Bool) (status : ℕ) (f : Unit → Result B) (b : B)
    → (guard bad status >>= f) ≡ accepted b
    → (bad ≡ false) × (f tt ≡ accepted b)
unfolding guard
guard-accepted true status f b h = never_accepted status b h
guard-accepted false status f b h = (refl, h)

pub bind-accepted :
    {A B : Type 0} (m : Result A) (f : A → Result B) (b : B)
    → (m >>= f) ≡ accepted b
    → (a : A) × (m ≡ accepted a) × (f a ≡ accepted b)
bind-accepted (rejected status) f b h = never_accepted status b h
bind-accepted (accepted a) f b h = (a, refl, h)

-- `h'` is `h` after lines with these names.
pub record Reads (h : Headers) (ns : List Bytes) (h' : Headers) : Type 0 where
  pub lengths : h'.cl_count ≡ h.cl_count + times content_length ns
  pub encodings : h'.te_seen ≡ false → times transfer_encoding ns ≡ 0
  pub stays : h'.te_seen ≡ false → h.te_seen ≡ false

pub equal_sound : (s t : Bytes) → equal s t ≡ true → s ≡ t
unfolding equal
equal_sound [] [] h = refl
equal_sound [] (b ∷ t) h = absurd (ground arith)
equal_sound (a ∷ s) [] h = absurd (ground arith)
equal_sound (a ∷ s) (b ∷ t) h = elim (Bool-cases (a == b)) [
  | inl e ↦ ap₂ ◌∷◌ (ground arith) (equal_sound s t (rw e at h))
  | inr e ↦ let never : false ≡ true = rw e at h in absurd (ground arith)
]

-- A name of one kind is none of the other.
one_kind : (n : Bytes) → equal n content_length ≡ true → equal n transfer_encoding ≡ false
unfolding equal
one_kind n h =
    subst (λ s. equal s transfer_encoding ≡ false) (sym (equal_sound n content_length h)) refl

add_header-Reads : (h : Headers) (n value : Bytes) → Reads h (n ∷ []) (add_header h n value)
unfolding add_header times
add_header-Reads h n value = elim (Bool-cases (equal n content_length)) [
  | inl e ↦
      let other = one_kind n e in
      record {
        lengths = rw (e, add_header, times) (omega arith);
        encodings = λ q. rw (other, times) refl;
        stays = λ q. rw e at q;
      }
  | inr e ↦ elim (Bool-cases (equal n transfer_encoding)) [
    | inl f ↦
        let seen : (add_header h n value).te_seen ≡ true = rw (e, f, add_header) refl in
        record {
          lengths = rw (e, add_header, times) (omega arith);
          encodings = λ q. absurd (clash seen q);
          stays = λ q. absurd (clash seen q);
        }
    | inr f ↦
        let same : (add_header h n value).te_seen ≡ h.te_seen = rw (e, f, add_header) refl in
        record {
          lengths = rw (e, add_header, times) (omega arith);
          encodings = λ q. rw (f, times) refl;
          stays = λ q. sym same ∙ q;
        }
  ]
]

times_first :
    (name n : Bytes) (ns : List Bytes) → times name (n ∷ ns) ≡ times name (n ∷ []) + times name ns
unfolding times
times_first name n ns = elim (Bool-cases (equal n name)) [
  | inl e ↦ rw (e, times) (omega arith)
  | inr e ↦ rw (e, times) (omega arith)
]

Reads-first :
    (h h1 h' : Headers) (n : Bytes) (ns : List Bytes)
    → Reads h (n ∷ []) h1
    → Reads h1 ns h'
    → Reads h (n ∷ ns) h'
Reads-first h h1 h' n ns p q = record {
  lengths = omega (arith, p.lengths, q.lengths, times_first content_length n ns);
  encodings = λ e.
      omega (arith, p.encodings (q.stays e), q.encodings e, times_first transfer_encoding n ns);
  stays = λ e. p.stays (q.stays e);
}

named-accepted :
    (h h1 : Headers) (m : Option (Bytes × Bytes))
    → named h m ≡ accepted h1
    → (name : Bytes) × (value : Bytes) × (m ≡ some (name, value))
      × (add_header h (lower name) value ≡ h1)
named-accepted h h1 none e = never_accepted 400 h1 e
named-accepted h h1 (some (name, value)) e =
    let (clean, kept) =
      guard-accepted (any_byte is_control value) 400
        (λ u. accepted (add_header h (lower name) value)) h1 e in
    (name, value, refl, accepted-injective (add_header h (lower name) value) h1 kept)

header_line-accepted :
    (h h1 : Headers) (b : ℕ) (line : Bytes)
    → header_line h (b ∷ line) ≡ accepted h1
    → (name : Bytes) × (value : Bytes) × (match_header (b ∷ line) ≡ some (name, value))
      × (add_header h (lower name) value ≡ h1)
unfolding header_line
header_line-accepted h h1 b line e =
    let long = guard (ltb max_hdr_line (length (b ∷ line))) 431 in
    let read = named h (match_header (b ∷ line)) in
    let (few, e1) =
      guard-accepted (ltb max_hdrs (suc h.count)) 431 (λ u. long >>= λ u'. read) h1 e in
    let (short, e2) =
      guard-accepted (ltb max_hdr_line (length (b ∷ line))) 431 (λ u'. read) h1 e1 in
    named-accepted h h1 (match_header (b ∷ line)) e2

pub header_lines-Reads :
    (h : Headers) (lines : List Bytes) (h' : Headers)
    → header_lines h lines ≡ accepted h'
    → Reads h (names lines) h'
unfolding header_lines header_line names times
header_lines-Reads h [] h' e =
    subst (Reads h []) (accepted-injective h h' e)
      (record { lengths = omega arith; encodings = λ q. refl; stays = λ q. q })
header_lines-Reads h ([] ∷ lines) h' e = header_lines-Reads h lines h' e
header_lines-Reads h ((b ∷ line) ∷ lines) h' e =
    let (h1, e1, e2) = bind-accepted (header_line h (b ∷ line)) (λ t. header_lines t lines) h' e in
    let (name, value, m, added) = header_line-accepted h h1 b line e1 in
    let later = header_lines-Reads h1 lines h' e2 in
    let first = subst (Reads h (lower name ∷ [])) added (add_header-Reads h (lower name) value) in
    rw (m, names) (Reads-first h h1 h' (lower name) (names lines) first later)
