-- ===== src/Hashes/Logins.antt =====
-- What the three hash functions answer.
use luadch.Common.{
  ℕ, ◌+◌, ◌*◌, ◌/◌, ◌≤◌, true, false, List, [], ◌++◌, Option, some, length, ◌≡◌, refl, ap, sym, ◌∙◌,
  subst, ◌⊎◌, inl, inr, arith, IsByte, All, Bool-cases, append-nil, ◌>>=◌, bind-some,
  some-injective,
}
use luadch.Base32.{to_base32, from_base32}
use luadch.Base32.RoundTrip.{from_base32-to_base32}
use luadch.Tiger.Hash.{TigerHash, tiger_hash, update, finalize}
use luadch.Tiger.Spec.{tiger}
use luadch.Tiger.Stream.{Absorbed}
use luadch.Tiger.Update.{update-Absorbed}
use luadch.Tiger.Finalize.{finalize-Absorbed}
use luadch.Tiger.Pieces.{tiger_hash-Absorbed}
use luadch.Hashes.{
  Outcome, out_of_range, push_hash, salt_bytes, refuses, hash_pid, hash_pas, hash_pas_oldschool,
}
use luadch.Hashes.Digest.{Digest, tiger-IsHash}

-- `TOBASE32`, then `FROMBASE32` with the size that the bytes had.
encoded :
    (src text : List ℕ)
    → All IsByte src
    → 1 ≤ length src
    → to_base32 src ≡ some text
    → (length text ≡ (8 * length src + 4) / 5) × (from_base32 text (length src) ≡ src)
encoded src text h k e =
    let (text', e', size, back) = from_base32-to_base32 src [] h k in
    let same = some-injective text' text (sym e' ∙ e) in
    (
      ap length (sym same) ∙ size,
      ap (λ t. from_base32 t (length src)) (sym same ∙ sym (append-nil text')) ∙ back,
    )

push_hash-Digest : (h : TigerHash) (msg : List ℕ) → Absorbed h msg → Digest (push_hash h) msg
unfolding push_hash
push_hash-Digest h msg a =
    let (size, bytes) = tiger-IsHash msg in
    let (text, e, _, _) = from_base32-to_base32 (tiger msg) [] bytes (omega (arith, size)) in
    let (count, back) = encoded (tiger msg) text bytes (omega (arith, size)) e in
    (
      text,
      bind-some (to_base32 (finalize h)) text _ (ap to_base32 (finalize-Absorbed h msg a) ∙ e),
      e,
      omega (arith, count, size),
      ap (from_base32 text) (sym size) ∙ back,
    )

-- A call of `update` in front.
update-Digest :
    (h : TigerHash) (msg str whole : List ℕ) (k : TigerHash → Option Outcome)
    → Absorbed h msg
    → ((h' : TigerHash) → Absorbed h' (msg ++ str) → Digest (k h') whole)
    → Digest (update h str >>= k) whole
update-Digest h msg str whole k a f =
    let (h', e, a') = update-Absorbed h msg str a in
    subst (λ r. Digest (r >>= k) whole) (sym e) (f h' a')

-- The hash of a PID is that of the 24 bytes that its text encodes.
hash_pid-from_base32 :
    (memory pid : List ℕ) → length memory ≡ 64 → Digest (hash_pid memory pid) (from_base32 pid 24)
unfolding hash_pid
hash_pid-from_base32 memory pid m =
    update-Digest _ [] (from_base32 pid 24) _ push_hash (tiger_hash-Absorbed memory m)
      (λ h a. push_hash-Digest h _ a)

-- `hash_pid` of the Base32 text of a 24-byte PID pushes the 39 characters that encode the Tiger
-- hash of its bytes, whatever the stack held.
pub hash_pid-Digest :
    (memory pid text : List ℕ)
    → length memory ≡ 64
    → All IsByte pid
    → length pid ≡ 24
    → to_base32 pid ≡ some text
    → Digest (hash_pid memory text) pid
hash_pid-Digest memory pid text m bytes size e =
    let (_, back) = encoded pid text bytes (omega arith) e in
    subst (Digest (hash_pid memory text)) (ap (from_base32 text) (sym size) ∙ back)
      (hash_pid-from_base32 memory text m)

salted :
    (memory pass salt : List ℕ)
    → length memory ≡ 64
    → Digest (update (tiger_hash memory) pass >>= (λ h. update h salt >>= push_hash)) (pass ++ salt)
salted memory pass salt m =
    update-Digest _ [] pass _ _ (tiger_hash-Absorbed memory m)
      (λ h a. update-Digest h pass salt _ push_hash a (λ h' b. push_hash-Digest h' _ b))

salted_oldschool :
    (memory cid pass salt : List ℕ)
    → length memory ≡ 64
    → Digest
        (update (tiger_hash memory) cid
          >>= (λ h. update h pass >>= (λ h'. update h' salt >>= push_hash)))
        ((cid ++ pass) ++ salt)
salted_oldschool memory cid pass salt m =
    update-Digest _ [] cid _ _ (tiger_hash-Absorbed memory m) (λ h a.
      update-Digest h cid pass _ _ a (λ h' b.
        update-Digest h' (cid ++ pass) salt _ push_hash b (λ h'' c. push_hash-Digest h'' _ c)))

-- Both password hashes refuse a salt whose text stands for no byte or for more than 64 bytes,
-- with the number in the error, and else push the 39 characters that encode the hash of the
-- password and the decoded salt, for the old protocol with the decoded CID in front.
pub hash_pas_cases :
    (memory pass salt cid : List ℕ)
    → length memory ≡ 64
    → let n = salt_bytes salt in
      ((refuses n ≡ true)
        × (hash_pas memory pass salt ≡ some (out_of_range n))
        × (hash_pas_oldschool memory pass salt cid ≡ some (out_of_range n)))
      ⊎ ((refuses n ≡ false)
          × Digest (hash_pas memory pass salt) (pass ++ from_base32 salt n)
          × Digest
              (hash_pas_oldschool memory pass salt cid)
              ((from_base32 cid 24 ++ pass) ++ from_base32 salt n))
unfolding hash_pas hash_pas_oldschool
hash_pas_cases memory pass salt cid m = elim (Bool-cases (refuses (salt_bytes salt))) [
  | inl e ↦ inl (e, rw (e, hash_pas) refl, rw (e, hash_pas_oldschool) refl)
  | inr e ↦ inr (
    e,
    rw (e, hash_pas) (salted memory pass (from_base32 salt (salt_bytes salt)) m),
    rw (e, hash_pas_oldschool)
        (salted_oldschool memory (from_base32 cid 24) pass (from_base32 salt (salt_bytes salt)) m),
  )
]

-- For a salt of 1 to 64 bytes sent as its Base32 text, `hash_pas` pushes the 39 characters that
-- encode the Tiger hash of the password followed by the salt, whatever the stack held.
pub hash_pas-Digest :
    (memory pass salt text : List ℕ)
    → length memory ≡ 64
    → All IsByte salt
    → 1 ≤ length salt
    → length salt ≤ 64
    → to_base32 salt ≡ some text
    → Digest (hash_pas memory pass text) (pass ++ salt)
hash_pas-Digest memory pass salt text m bytes least most e =
    let (size, back) = encoded salt text bytes least e in
    let count : salt_bytes text ≡ length salt = omega arith in
    elim (hash_pas_cases memory pass text [] m) [
      | inl (refused, _, _) ↦ absurd (ground arith)
      | inr (_, d, _) ↦
          subst (λ s. Digest (hash_pas memory pass text) (pass ++ s))
            (ap (from_base32 text) count ∙ back) d
    ]
