-- ===== src/Hub/Makedir.antt =====
-- `makedir` makes a directory and those above it.
use luadch.Common.{
  ℕ, true, false, List, [], ◌∷◌, ◌++◌, Option, none, some, length, ◌≡◌, ◌≢◌, refl, ap, sym, ◌∙◌,
  ◌==◌, ◌⊎◌, inl, inr, subst, arith, Bool-cases, Option-cases, append_assoc, append-nil, leb,
}
use luadch.Hub.{
  eexist, made, empty_or_too_long, cannot_create, is_separator, is_drive, fatal, make, makedir_loop,
  makedir,
}

-- The rest of a path behind a front part that names a directory: it is empty or starts with a
-- separator.
abbrev pub Ends : List ℕ → Type 0
Ends [] = Unit
Ends (c ∷ rest) = is_separator c ≡ true

module _ {S : Type 0} (mkdir : S → List ℕ → S × Option ℕ) (exists : S → List ℕ → Type 0) where
  -- What `mkdir` promises: something of the name exists behind a call that succeeds or fails with
  -- `EEXIST`, and a call removes nothing.
  pub record IsMkdir : Type 0 where
    pub makes : (fs : S) (p : List ℕ) → (mkdir fs p).1 ≡ none → exists (mkdir fs p).0 p
    pub finds : (fs : S) (p : List ℕ) → (mkdir fs p).1 ≡ some eexist → exists (mkdir fs p).0 p
    pub keeps : (fs : S) (p q : List ℕ) → exists fs q → exists (mkdir fs p).0 q

  option_apart : {e : ℕ} → none ≢ some e
  option_apart h =
      let t : false ≡ true = ap (λ r. elim r [ some e ↦ true | none ↦ false ]) h in ground arith

  fatal-other : (e : ℕ) → (e == eexist) ≡ false → fatal (some e) ≡ some e
  fatal-other e other = rw other refl

  -- The errors that `makedir` ignores.
  ignored : (result : Option ℕ) → fatal result ≡ none → (result ≡ none) ⊎ (result ≡ some eexist)
  ignored none h = inl refl
  ignored (some e) h = elim (Bool-cases (e == eexist)) [
    | inl same ↦ inr (ap some (ground arith))
    | inr other ↦ absurd (option_apart (sym h ∙ fatal-other e other))
  ]

  make_lem :
      (fs : S) (buf : List ℕ)
      → is_drive buf ≡ false
      → make mkdir fs buf ≡ ((mkdir fs buf).0, fatal (mkdir fs buf).1)
  unfolding make
  make_lem fs buf d = rw (d, make) refl

  make-drive : (fs : S) (buf : List ℕ) → is_drive buf ≡ true → make mkdir fs buf ≡ (fs, none)
  unfolding make
  make-drive fs buf d = rw (d, make) refl

  make-exists :
      IsMkdir
      → (fs : S) (buf : List ℕ) → is_drive buf ≡ false
      → (make mkdir fs buf).1 ≡ none
      → exists (make mkdir fs buf).0 buf
  make-exists laws fs buf d e =
      let made_now : exists (mkdir fs buf).0 buf =
        elim (ignored (mkdir fs buf).1 (ap (λ r. r.1) (sym (make_lem fs buf d)) ∙ e)) [
          | inl h ↦ laws.makes fs buf h
          | inr h ↦ laws.finds fs buf h
        ] in
      subst (λ r. exists r.0 buf) (sym (make_lem fs buf d)) made_now

  make-keeps : IsMkdir → (fs : S) (buf q : List ℕ) → exists fs q → exists (make mkdir fs buf).0 q
  make-keeps laws fs buf q x = elim (Bool-cases (is_drive buf)) [
    | inl d ↦ subst (λ r. exists r.0 q) (sym (make-drive fs buf d)) x
    | inr d ↦ subst (λ r. exists r.0 q) (sym (make_lem fs buf d)) (laws.keeps fs buf q x)
  ]

  loop-copies :
      (fs : S) (buf : List ℕ) (c : ℕ) (rest : List ℕ)
      → is_separator c ≡ false
      → makedir_loop mkdir fs buf (c ∷ rest) ≡ makedir_loop mkdir fs (buf ++ (c ∷ [])) rest
  unfolding makedir_loop
  loop-copies fs buf c rest e = rw (e, makedir_loop) refl

  loop-goes_on :
      (fs : S) (buf : List ℕ) (c : ℕ) (rest : List ℕ)
      → is_separator c ≡ true
      → (make mkdir fs buf).1 ≡ none
      → makedir_loop mkdir fs buf (c ∷ rest)
        ≡ makedir_loop mkdir (make mkdir fs buf).0 (buf ++ (c ∷ [])) rest
  unfolding makedir_loop
  loop-goes_on fs buf c rest e f = rw (e, f, makedir_loop) refl

  loop-stops :
      (fs : S) (buf : List ℕ) (c : ℕ) (rest : List ℕ) (errno : ℕ)
      → is_separator c ≡ true
      → (make mkdir fs buf).1 ≡ some errno
      → makedir_loop mkdir fs buf (c ∷ rest) ≡ ((make mkdir fs buf).0, cannot_create buf errno)
  unfolding makedir_loop
  loop-stops fs buf c rest errno e f = rw (e, f, makedir_loop) refl

  loop-keeps :
      IsMkdir
      → (rest : List ℕ) (fs : S) (buf q : List ℕ) → exists fs q
      → exists (makedir_loop mkdir fs buf rest).0 q
  unfolding makedir_loop
  loop-keeps laws [] fs buf q x = make-keeps laws fs buf q x
  loop-keeps laws (c ∷ rest) fs buf q x = elim (Bool-cases (is_separator c)) [
    | inr e ↦
        subst (λ r. exists r.0 q) (sym (loop-copies fs buf c rest e))
          (loop-keeps laws rest fs (buf ++ (c ∷ [])) q x)
    | inl e ↦ elim (Option-cases (make mkdir fs buf).1) [
      | inl f ↦
          subst (λ r. exists r.0 q) (sym (loop-goes_on fs buf c rest e f))
            (loop-keeps laws rest (make mkdir fs buf).0 (buf ++ (c ∷ [])) q
              (make-keeps laws fs buf q x))
      | inr (errno, f) ↦
          subst (λ r. exists r.0 q) (sym (loop-stops fs buf c rest errno e f))
            (make-keeps laws fs buf q x)
    ]
  ]

  not_made : (buf : List ℕ) (errno : ℕ) → cannot_create buf errno ≢ made
  not_made buf errno e =
      let t : false ≡ true = ap (λ r. elim r [ made ↦ true | _ ↦ false ]) e in ground arith

  loop-end : (fs : S) (buf : List ℕ) → (makedir_loop mkdir fs buf []).0 ≡ (make mkdir fs buf).0
  unfolding makedir_loop
  loop-end fs buf = refl

  made_last :
      (fs : S) (buf : List ℕ)
      → (makedir_loop mkdir fs buf []).1 ≡ made
      → (make mkdir fs buf).1 ≡ none
  unfolding makedir_loop
  made_last fs buf m = elim (Option-cases (make mkdir fs buf).1) [
    | inl f ↦ f
    | inr (errno, f) ↦
        let stopped : (makedir_loop mkdir fs buf []).1 ≡ cannot_create buf errno =
          rw (f, makedir_loop) refl in
        absurd (not_made buf errno (sym stopped ∙ m))
  ]

  made_here :
      (fs : S) (buf : List ℕ) (c : ℕ) (rest : List ℕ)
      → is_separator c ≡ true
      → (makedir_loop mkdir fs buf (c ∷ rest)).1 ≡ made
      → (make mkdir fs buf).1 ≡ none
  made_here fs buf c rest e m = elim (Option-cases (make mkdir fs buf).1) [
    | inl f ↦ f
    | inr (errno, f) ↦
        absurd (not_made buf errno (ap (λ r. r.1) (sym (loop-stops fs buf c rest errno e f)) ∙ m))
  ]

  -- A directory whose name ends where the loop stands.
  cut_here :
      IsMkdir
      → (rest buf : List ℕ) (fs : S) → Ends rest
      → is_drive buf ≡ false
      → (makedir_loop mkdir fs buf rest).1 ≡ made
      → exists (makedir_loop mkdir fs buf rest).0 buf
  cut_here laws [] buf fs h d m =
      subst (λ s. exists s buf) (sym (loop-end fs buf))
        (make-exists laws fs buf d (made_last fs buf m))
  cut_here laws (c ∷ rest) buf fs h d m =
      let f = made_here fs buf c rest h m in
      subst (λ r. exists r.0 buf) (sym (loop-goes_on fs buf c rest h f))
        (loop-keeps laws rest (make mkdir fs buf).0 (buf ++ (c ∷ [])) buf
          (make-exists laws fs buf d f))

  loop-exists :
      IsMkdir
      → (front rest buf : List ℕ) (fs : S) → Ends rest
      → is_drive (buf ++ front) ≡ false
      → (makedir_loop mkdir fs buf (front ++ rest)).1 ≡ made
      → exists (makedir_loop mkdir fs buf (front ++ rest)).0 (buf ++ front)
  loop-exists laws [] rest buf fs h d m =
      subst (λ b. exists (makedir_loop mkdir fs buf rest).0 b) (sym (append-nil buf))
        (cut_here laws rest buf fs h (ap is_drive (sym (append-nil buf)) ∙ d) m)
  loop-exists laws (c ∷ front) rest buf fs h d m =
      let name = append_assoc buf (c ∷ []) front in
      let d' = ap is_drive name ∙ d in
      elim (Bool-cases (is_separator c)) [
        | inr e ↦
            let step = loop-copies fs buf c (front ++ rest) e in
            let m' = ap (λ r. r.1) (sym step) ∙ m in
            subst (λ r. exists r.0 (buf ++ (c ∷ front))) (sym step)
              (subst (exists _) name (loop-exists laws front rest (buf ++ (c ∷ [])) fs h d' m'))
        | inl e ↦
            let step =
              loop-goes_on fs buf c (front ++ rest) e (made_here fs buf c (front ++ rest) e m) in
            let m' = ap (λ r. r.1) (sym step) ∙ m in
            subst (λ r. exists r.0 (buf ++ (c ∷ front))) (sym step)
              (subst (exists _) name (loop-exists laws front rest (buf ++ (c ∷ [])) _ h d' m'))
      ]

makedir-long :
    {S : Type 0} (mkdir : S → List ℕ → S × Option ℕ) (fs : S) (c : ℕ) (rest : List ℕ)
    → leb 1024 (length (c ∷ rest)) ≡ true
    → makedir mkdir fs (c ∷ rest) ≡ (fs, empty_or_too_long)
unfolding makedir
makedir-long mkdir fs c rest e = rw (e, makedir) refl

makedir-short :
    {S : Type 0} (mkdir : S → List ℕ → S × Option ℕ) (fs : S) (c : ℕ) (rest : List ℕ)
    → leb 1024 (length (c ∷ rest)) ≡ false
    → makedir mkdir fs (c ∷ rest) ≡ makedir_loop mkdir fs (c ∷ []) rest
unfolding makedir
makedir-short mkdir fs c rest e = rw (e, makedir) refl

too_long_not_made : empty_or_too_long ≢ made
too_long_not_made e =
    let t : false ≡ true = ap (λ r. elim r [ made ↦ true | _ ↦ false ]) e in ground arith

-- Where `makedir` answers true, for a `mkdir` behind which something of the name exists when it
-- succeeds or fails with `EEXIST`, and which removes nothing: something of the name exists for
-- the path and for each front part of it that ends before a separator, except a front part of
-- two bytes or more that ends in a colon.
pub makedir-exists :
    {S : Type 0} (mkdir : S → List ℕ → S × Option ℕ) (exists : S → List ℕ → Type 0) (fs : S) (c : ℕ)
    (front rest : List ℕ)
    → IsMkdir mkdir exists
    → Ends rest
    → is_drive (c ∷ front) ≡ false
    → (makedir mkdir fs (c ∷ (front ++ rest))).1 ≡ made
    → exists (makedir mkdir fs (c ∷ (front ++ rest))).0 (c ∷ front)
makedir-exists mkdir exists fs c front rest laws h d m =
    elim (Bool-cases (leb 1024 (length (c ∷ (front ++ rest))))) [
      | inl e ↦
          let long = makedir-long mkdir fs c (front ++ rest) e in
          absurd (too_long_not_made (ap (λ r. r.1) (sym long) ∙ m))
      | inr e ↦
          let short = makedir-short mkdir fs c (front ++ rest) e in
          let m' = ap (λ r. r.1) (sym short) ∙ m in
          subst (λ r. exists r.0 (c ∷ front)) (sym short)
            (loop-exists mkdir exists laws front rest (c ∷ []) fs h d m')
    ]
