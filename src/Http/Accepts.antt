-- ===== src/Http/Accepts.antt =====
-- What is true of a request that the framer gives.
use luadch.Common.{
  ℕ, suc, ◌+◌, ◌≤◌, Bool, true, false, not, ◌&&◌, List, [], ◌∷◌, Option, none, some, ltb, ◌==◌,
  length, take, drop, length-take, ◌≡◌, refl, ap, sym, ◌∙◌, subst, arith, Bool-cases, Option-cases,
  inl, inr, ◌⊎◌,
}
use luadch.Http.{
  Bytes, Request, request, reject, max_req, max_line, max_target, max_body, equal, starts_with,
  find, is_some, crlf, dot_dot, is_control, any_byte, end_of_headers,
}
use luadch.Http.Head.{
  Result, rejected, accepted, match_request_line, get_header, content_length, transfer_encoding,
  header_lines, declared, takes_body, http_1_0, http_1_1, matched, request_line, framed_by,
  split_head, header_part, parse_head,
}
use luadch.Http.Framer.{Framer, collect, after_head, parse, push, newhttpstage}
use luadch.Http.Names.{
  names, times, never_accepted, equal_sound, guard-accepted, bind-accepted, accepted-injective,
  header_lines-Reads,
}

-- The request line's target and version.
pub record IsPlain (target version : Bytes) : Type 0 where
  pub known : (version ≡ http_1_0) ⊎ (version ≡ http_1_1)
  pub short : length target ≤ max_target
  pub absolute : starts_with (b'/' ∷ []) target ≡ true
  pub contained : find dot_dot target ≡ none

-- The lines of a head behind its request line.
abbrev pub lines_behind : Bytes → List Bytes
lines_behind head = header_part (split_head head (find crlf head)).1

-- A parsed head, with its request and the length that it declares.
pub record IsHead (head : Bytes) (r : Request) (size : ℕ) : Type 0 where
  pub plain : IsPlain r.target r.version
  pub unencoded : times transfer_encoding (names (lines_behind head)) ≡ 0
  pub measured_once : times content_length (names (lines_behind head)) ≤ 1
  pub sized : declared (get_header r.headers content_length) ≡ accepted size
  pub small : size ≤ max_body
  pub permitted : (size ≡ 0) ⊎ (takes_body r.method ≡ true)
  pub bodiless : r.body ≡ []

either : (a b : Bool) → (not a && not b) ≡ false → (a ≡ true) ⊎ (b ≡ true)
either true b h = inl refl
either false true h = inr refl
either false false h = absurd (ground arith)

held : {a : Bool} → not a ≡ false → a ≡ true
held {a = true} h = refl
held {a = false} h = absurd (ground arith)

nowhere : {A : Type 0} (o : Option A) → is_some o ≡ false → o ≡ none
nowhere none h = refl
nowhere (some a) h = absurd (ground arith)

known_version :
    (v : Bytes)
    → (equal v http_1_0 ≡ true) ⊎ (equal v http_1_1 ≡ true)
    → (v ≡ http_1_0) ⊎ (v ≡ http_1_1)
known_version v (inl e) = inl (equal_sound v http_1_0 e)
known_version v (inr e) = inr (equal_sound v http_1_1 e)

matched-IsPlain :
    (m : Option (Bytes × Bytes × Bytes)) (method target version : Bytes)
    → matched m ≡ accepted (method, target, version)
    → IsPlain target version
matched-IsPlain none method target version e = never_accepted 400 (method, target, version) e
matched-IsPlain (some (m, t, v)) method target version e =
    let (known, e1) = guard-accepted (not (equal v http_1_0) && not (equal v http_1_1)) 505 _ _ e in
    let (short, e2) = guard-accepted (ltb max_target (length t)) 414 _ _ e1 in
    let (absolute, e3) = guard-accepted (not (starts_with (b'/' ∷ []) t)) 400 _ _ e2 in
    let (contained, e4) = guard-accepted (is_some (find dot_dot t)) 400 _ _ e3 in
    let same = accepted-injective (m, t, v) (method, target, version) e4 in
    let p : IsPlain t v = record {
      known = known_version v (either (equal v http_1_0) (equal v http_1_1) known);
      short = ground arith;
      absolute = held absolute;
      contained = nowhere (find dot_dot t) contained;
    } in
    subst (λ q. IsPlain q.1 q.2) same p

request_line-IsPlain :
    (line method target version : Bytes)
    → request_line line ≡ accepted (method, target, version)
    → IsPlain target version
unfolding request_line
request_line-IsPlain line method target version e =
    let (short, e1) = guard-accepted (ltb max_line (length line)) 414 _ _ e in
    let (clean, e2) = guard-accepted (any_byte is_control line) 400 _ _ e1 in
    matched-IsPlain (match_request_line line) method target version e2

-- The declared length, and a method that takes a body or none.
permits : (n : ℕ) (takes : Bool) → (ltb 0 n && not takes) ≡ false → (n ≡ 0) ⊎ (takes ≡ true)
permits n true h = inr refl
permits n false h = inl (ground arith)

parse_head-IsHead :
    (head : Bytes) (r : Request) (size : ℕ)
    → parse_head head ≡ accepted (r, size)
    → IsHead head r size
unfolding parse_head framed_by
parse_head-IsHead head r size e =
    let line = (split_head head (find crlf head)).0 in
    let ((method, target, version), e1, e2) = bind-accepted (request_line line) _ _ e in
    let (h, e3, e4) = bind-accepted (header_lines _ (lines_behind head)) _ _ e2 in
    let (unseen, e5) = guard-accepted h.te_seen 400 _ _ e4 in
    let (once, e6) = guard-accepted (ltb 1 h.cl_count) 400 _ _ e5 in
    let (n, e7, e8) = bind-accepted (declared (get_header h.headers content_length)) _ _ e6 in
    let (allowed, e9) = guard-accepted (ltb 0 n && not (takes_body method)) 400 _ _ e8 in
    let (small, e10) = guard-accepted (ltb max_body n) 413 _ _ e9 in
    let read = header_lines-Reads _ (lines_behind head) h e3 in
    let r' : Request = record {
      method = method;
      target = target;
      version = version;
      headers = h.headers;
      body = [];
    } in
    let p : IsHead head r' n = record {
      plain = request_line-IsPlain line method target version e1;
      unencoded = read.encodings unseen;
      measured_once = ground (arith, read.lengths);
      sized = e7;
      small = ground arith;
      permitted = permits n (takes_body method) allowed;
      bodiless = refl;
    } in
    subst (λ q. IsHead head q.0 q.1) (accepted-injective (r', n) (r, size) e10) p

-- How a head's request is given: as it is, with no body declared, or with the body that follows.
Given : Framer → ℕ → Request → ℕ → Request → Type 0
Given st j r n u =
    ((n ≡ 0) × (r ≡ u))
    ⊎ ((n ≤ length (drop (j + 4) st.buf)) × (record r { body = take n (drop (j + 4) st.buf) } ≡ u))

same_request : (r u : Request) → some (request r) ≡ some (request u) → r ≡ u
same_request r u e =
    ap (λ o. elim o [ none ↦ r | some (request q) ↦ q | some (reject status) ↦ r ]) e

is_rejected : {A : Type 0} (status : ℕ) (u : Request) → some (reject status) ≡ some (request u) → A
is_rejected status u e = absurd (ground arith)

still_waits : {A : Type 0} (u : Request) → none ≡ some (request u) → A
still_waits u e = absurd (ground arith)

after_head-Given :
    (st : Framer) (j : ℕ) (res : Result (Request × ℕ)) (u : Request)
    → (after_head st j res).unit ≡ some (request u)
    → (r : Request) × (n : ℕ) × (res ≡ accepted (r, n)) × Given st j r n u
unfolding after_head collect Given
after_head-Given st j (rejected status) u e = is_rejected status u e
after_head-Given st j (accepted (r, n)) u e = elim (Bool-cases (n == 0)) [
  | inl f ↦ (r, n, refl, inl (ground arith, same_request r u (rw (f, after_head) at e)))
  | inr f ↦ elim (Bool-cases (ltb (length (drop (j + 4) st.buf)) n)) [
    | inl g ↦ still_waits u (rw (f, g, after_head, collect) at e)
    | inr g ↦
        (r, n, refl, inr (ground arith, same_request _ u (rw (f, g, after_head, collect) at e)))
  ]
]

-- A request with the text that it was read from.
pub record IsReadFrom (s : Bytes) (u : Request) : Type 0 where
  pub hdrend : ℕ
  pub ends : find end_of_headers s ≡ some hdrend
  pub size : ℕ
  pub head : IsHead (take hdrend s) (record u { body = [] }) size
  pub body : u.body ≡ take size (drop (hdrend + 4) s)
  pub complete : length u.body ≡ size

unbodied :
    (head : Bytes) (r : Request) (n : ℕ) → IsHead head r n → IsHead head (record r { body = [] }) n
unbodied head r n h = record {
  plain = h.plain;
  unencoded = h.unencoded;
  measured_once = h.measured_once;
  sized = h.sized;
  small = h.small;
  permitted = h.permitted;
  bodiless = refl;
}

read_from :
    (s : Bytes) (j : ℕ) (r u : Request) (n : ℕ)
    → find end_of_headers s ≡ some j
    → IsHead (take j s) r n
    → Given (record { buf = s; done = false; pending = none }) j r n u
    → IsReadFrom s u
unfolding Given
read_from s j r u n e h (inl (none_left, same)) = subst (IsReadFrom s) same (record {
  hdrend = j;
  ends = e;
  size = n;
  head = unbodied (take j s) r n h;
  body = h.bodiless ∙ sym (ap (λ i. take i (drop (j + 4) s)) none_left);
  complete = ap length h.bodiless ∙ sym none_left;
})
read_from s j r u n e h (inr (enough, same)) = subst (IsReadFrom s) same (record {
  hdrend = j;
  ends = e;
  size = n;
  head = unbodied (take j s) r n h;
  body = refl;
  complete = length-take n (drop (j + 4) s) ∙ omega (arith, enough);
})

-- Where the framer of HTTP requests gives a request for a text: the text has an end of headers;
-- no line of the head behind the request line names `transfer-encoding` and at most one names
-- `content-length`, in any case of letters; the version is 1.0 or 1.1, and the target has at
-- most 2048 bytes, begins with a slash and has no two dots in a row; the body is exactly the
-- bytes behind the head in the length that the headers declare, 64 KiB at most, and a method
-- that takes no body declares none.
pub push-request :
    (s : Bytes) (u : Request) → (push newhttpstage s).unit ≡ some (request u) → IsReadFrom s u
unfolding push parse
push-request s u e = elim (Option-cases (find end_of_headers s)) [
  | inl f ↦ elim (Bool-cases (ltb max_req (length s))) [
    | inl g ↦ is_rejected 431 u (rw (f, g, push, parse) at e)
    | inr g ↦ still_waits u (rw (f, g, push, parse) at e)
  ]
  | inr (j, f) ↦ elim (Bool-cases (ltb max_req (suc j))) [
    | inl g ↦ is_rejected 431 u (rw (f, g, push, parse) at e)
    | inr g ↦
        let (r, n, p, given) =
          after_head-Given (record { buf = s; done = false; pending = none }) j
            (parse_head (take j s)) u (rw (f, g, push, parse) at e) in
        read_from s j r u n f (parse_head-IsHead (take j s) r n p) given
  ]
]
