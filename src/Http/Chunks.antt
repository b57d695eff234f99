-- ===== src/Http/Chunks.antt =====
-- A request that arrives in chunks.
use luadch.Common.{
  ℕ, suc, ◌+◌, ◌≤◌, true, false, leb, List, [], ◌∷◌, ◌++◌, Option, none, some, some-injective, ltb,
  ◌==◌, length, take, drop, ◌≡◌, refl, ap, sym, ◌∙◌, subst, arith, Bool-cases, Option-cases, inl,
  inr, append-nil, append_assoc, length-append, take-append_left, drop-append_left,
}
use luadch.Http.{Bytes, Request, Reply, request, reject, max_req, starts_with, find, end_of_headers}
use luadch.Http.Head.{Result, rejected, accepted, parse_head}
use luadch.Http.Framer.{Framer, Emit, emit, waits, collect, after_head, parse, push, newhttpstage}
use luadch.Http.Find.{found, no_result, find-Found, length-Found, Found-append, Found-within}

abbrev pub replies : Option Reply → List Reply
replies none = []
replies (some u) = u ∷ []

-- The chunks, one behind the other.
unfoldable pub all_of : List Bytes → Bytes
all_of [] = []
all_of (c ∷ cs) = c ++ all_of cs

-- The units that the stage gives for chunks.
unfoldable pub pushes : Framer → List Bytes → List Reply
pushes st [] = []
pushes st (c ∷ cs) = let a = push st c in replies a.unit ++ pushes a.stage cs

-- A head that ends within the cap, or none and a text within it.
pub data InWindow (s : Bytes) : Type 0 where
  headed : (i : ℕ) → find end_of_headers s ≡ some i → i + 3 ≤ max_req → InWindow s
  unheaded : find end_of_headers s ≡ none → length s ≤ max_req → InWindow s

-- What a push gave, and the units of the chunks behind it.
abbrev then_pushes : Emit → List Bytes → List Reply
then_pushes a cs = replies a.unit ++ pushes a.stage cs

pushes-done :
    (buf : Bytes) (pending : Option (Request × ℕ)) (cs : List Bytes)
    → pushes (record { buf = buf; done = true; pending = pending }) cs ≡ []
unfolding pushes push
pushes-done buf pending [] = refl
pushes-done buf pending (c ∷ cs) = pushes-done buf pending cs

-- Nothing follows a unit.
then_pushes-emit : (st : Framer) (u : Reply) (cs : List Bytes) → then_pushes (emit st u) cs ≡ u ∷ []
then_pushes-emit st u cs = ap (◌∷◌ u) (pushes-done st.buf st.pending cs)

abbrev collecting : Bytes → Request → ℕ → Framer
collecting buf r n = record { buf = buf; done = false; pending = some (r, n) }

collect-chunks :
    (buf : Bytes) (r : Request) (n : ℕ) (cs : List Bytes)
    → then_pushes (collect (collecting buf r n) r n) cs
      ≡ replies (collect (collecting (buf ++ all_of cs) r n) r n).unit
unfolding collect pushes push all_of
collect-chunks buf r n [] =
    rw (append-nil buf, append-nil (replies (collect (collecting buf r n) r n).unit)) refl
collect-chunks buf r n (c ∷ cs) = elim (Bool-cases (ltb (length buf) n)) [
  | inl e ↦
      let waiting : collect (collecting buf r n) r n ≡ waits (collecting buf r n) =
        rw (e, collect) refl in
      ap (λ a. then_pushes a (c ∷ cs)) waiting
      ∙ (collect-chunks (buf ++ c) r n cs
          ∙ ap (λ s. replies (collect (collecting s r n) r n).unit)
              (append_assoc buf c (all_of cs)))
  | inr e ↦
      let all = c ++ all_of cs in
      let unit = request (record r { body = take n buf }) in
      let now : collect (collecting buf r n) r n ≡ emit (collecting buf r n) unit =
        rw (e, collect) refl in
      let enough : ltb (length (buf ++ all)) n ≡ false = ground (arith, length-append buf all) in
      ap (λ a. then_pushes a (c ∷ cs)) now
      ∙ (then_pushes-emit (collecting buf r n) unit (c ∷ cs)
          ∙ rw (enough, take-append_left n buf all (ground arith), collect) refl)
]

abbrev parsing : Bytes → Framer
parsing buf = record { buf = buf; done = false; pending = none }

after_head-chunks :
    (buf : Bytes) (j : ℕ) (res : Result (Request × ℕ)) (cs : List Bytes)
    → j + 4 ≤ length buf
    → then_pushes (after_head (parsing buf) j res) cs
      ≡ replies (after_head (parsing (buf ++ all_of cs)) j res).unit
unfolding after_head
after_head-chunks buf j (rejected status) cs h = then_pushes-emit (parsing buf) (reject status) cs
after_head-chunks buf j (accepted (r, n)) cs h = elim (Bool-cases (n == 0)) [
  | inl e ↦ rw (e, after_head) (then_pushes-emit (parsing buf) (request r) cs)
  | inr e ↦
      rw (e, drop-append_left (j + 4) buf (all_of cs) h, after_head)
        (collect-chunks (drop (j + 4) buf) r n cs)
]

buffered :
    (buf rest : Bytes)
    → InWindow (buf ++ rest)
    → find end_of_headers buf ≡ none
    → length buf ≤ max_req
buffered buf rest (headed i f h) e = elim (Bool-cases (leb (i + 4) (length buf))) [
  | inl p ↦
      let g = find-Found end_of_headers buf i (
        Found-within end_of_headers buf rest i (found end_of_headers (buf ++ rest) i f)
          (ground arith)) in
      no_result i (sym e ∙ g)
  | inr p ↦ ground arith
]
buffered buf rest (unheaded f h) e = omega (arith, length-append buf rest)

-- With no head yet, the buffer is within the cap.
parse-waits :
    (buf rest : Bytes)
    → InWindow (buf ++ rest)
    → find end_of_headers buf ≡ none
    → parse (parsing buf) ≡ waits (parsing buf)
unfolding parse
parse-waits buf rest w e =
    let small : length buf ≤ max_req = buffered buf rest w e in
    let fits : ltb max_req (length buf) ≡ false = ground (arith, small) in rw (e, fits, parse) refl

headed_within : (s : Bytes) (j : ℕ) → InWindow s → find end_of_headers s ≡ some j → j + 3 ≤ max_req
headed_within s j (headed i f h) e = omega (arith, some-injective i j (sym f ∙ e))
headed_within s j (unheaded f h) e = no_result j (sym f ∙ e)

-- With a head, the pushes behind it see the whole text.
parse-headed :
    (buf rest : Bytes) (j : ℕ)
    → InWindow (buf ++ rest)
    → find end_of_headers buf ≡ some j
    → (j + 4 ≤ length buf)
      × (parse (parsing buf) ≡ after_head (parsing buf) j (parse_head (take j buf)))
      × (parse (parsing (buf ++ rest))
          ≡ after_head (parsing (buf ++ rest)) j (parse_head (take j buf)))
unfolding parse
parse-headed buf rest j w e =
    let f = found end_of_headers buf j e in
    let whole =
      find-Found end_of_headers (buf ++ rest) j (Found-append end_of_headers buf rest j f) in
    let fits = length-Found end_of_headers buf j f in
    let small : ltb max_req (suc j) ≡ false =
      ground (arith, headed_within (buf ++ rest) j w whole) in
    (
      fits,
      rw (e, small, parse) refl,
      rw (whole, small, take-append_left j buf rest (omega (arith, fits)), parse) refl,
    )

parse-chunks :
    (buf : Bytes) (cs : List Bytes)
    → InWindow (buf ++ all_of cs)
    → then_pushes (parse (parsing buf)) cs ≡ replies (parse (parsing (buf ++ all_of cs))).unit
unfolding pushes push all_of
parse-chunks buf [] w = rw (append-nil buf, append-nil (replies (parse (parsing buf)).unit)) refl
parse-chunks buf (c ∷ cs) w = elim (Option-cases (find end_of_headers buf)) [
  | inl e ↦
      ap (λ a. then_pushes a (c ∷ cs)) (parse-waits buf (c ++ all_of cs) w e)
      ∙ (parse-chunks (buf ++ c) cs (subst InWindow (sym (append_assoc buf c (all_of cs))) w)
          ∙ ap (λ s. replies (parse (parsing s)).unit) (append_assoc buf c (all_of cs)))
  | inr (j, e) ↦
      let (fits, now, whole) = parse-headed buf (c ++ all_of cs) j w e in
      ap (λ a. then_pushes a (c ∷ cs)) now
      ∙ (after_head-chunks buf j (parse_head (take j buf)) (c ∷ cs) fits
          ∙ ap (λ a. replies a.unit) (sym whole))
]

-- For chunks whose text has a head that ends three bytes within the cap of 16384, or no end of
-- headers and at most that length: the units that the framer gives for them, one after the
-- other, are the unit that it gives for the whole text, if any, and no other.
pub pushes-all_of :
    (cs : List Bytes)
    → InWindow (all_of cs)
    → pushes newhttpstage cs ≡ replies (push newhttpstage (all_of cs)).unit
unfolding push parse find starts_with
pushes-all_of cs w = parse-chunks [] cs w
