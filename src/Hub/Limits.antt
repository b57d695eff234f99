-- ===== src/Hub/Limits.antt =====
-- `raise_fd_limit` and `getfdlimit` of hub/hub.c on unix. The kernel is a parameter; a `rlim_t` and a
-- `long` have 64 bits.
use luadch.Common.{
  ℕ, ◌-◌, ◌^◌, ◌≤◌, Bool, true, false, Option, none, some, ltb, ◌==◌, if◌then◌else◌, ◌≡◌, refl, ap,
  ◌∙◌, ◌⊎◌, inl, inr, arith, Bool-cases, Option-cases,
}
use luadch.Common.Ints.{ℤ, pos, negsuc}

-- `struct rlimit`
pub record Rlimit : Type 0 where
  pub rlim_cur : ℕ
  pub rlim_max : ℕ

-- `getrlimit(RLIMIT_NOFILE, _)`, `none` for a failure, and `setrlimit`, true for success.
pub record LimitCalls (S : Type 0) : Type 0 where
  pub getrlimit : S → Option Rlimit
  pub setrlimit : Rlimit → S → Bool × S

abbrev pub rlim_infinity : ℕ
rlim_infinity = 2 ^ 64 - 1

-- `(rl.rlim_cur == RLIM_INFINITY) ? -1 : (long)rl.rlim_cur`
abbrev pub reported : ℕ → ℤ
reported n =
    if n == rlim_infinity
    then negsuc 0
    else if ltb n (2 ^ 63)
    then pos n
    else negsuc (2 ^ 64 - 1 - n)

module _ {S : Type 0} (calls : LimitCalls S) where
  -- The second `getrlimit`, for the value of `g_fd_limit` before.
  abbrev pub reread : ℤ → S → ℤ
  reread g s = elim (calls.getrlimit s) [ none ↦ g | some rl ↦ reported rl.rlim_cur ]

  -- The limits raised, where they can be.
  abbrev pub raised : Rlimit → S → S
  raised rl s =
      if ltb rl.rlim_cur rl.rlim_max
      then (calls.setrlimit (record rl { rlim_cur = rl.rlim_max }) s).1
      else s

  -- The value of `g_fd_limit`, and the system.
  unfoldable pub raise_fd_limit : ℤ → S → ℤ × S
  raise_fd_limit g s = elim (calls.getrlimit s) [
    | none ↦ (g, s)
    | some rl ↦ (reread g (raised rl s), raised rl s)
  ]

-- `lua_pushinteger(L, (lua_Integer)g_fd_limit)`
abbrev pub getfdlimit : ℤ → ℤ
getfdlimit g = g

-- What the manual says: a limit that is set is what is read, and one that is refused stays.
pub record IsKernel {S : Type 0} (calls : LimitCalls S) : Type 0 where
  pub set_read :
      (rl : Rlimit) (s : S)
      → (calls.setrlimit rl s).0 ≡ true
      → calls.getrlimit (calls.setrlimit rl s).1 ≡ some rl
  pub set_refused :
      (rl : Rlimit) (s : S)
      → (calls.setrlimit rl s).0 ≡ false
      → calls.getrlimit (calls.setrlimit rl s).1 ≡ calls.getrlimit s
  pub ordered : (rl : Rlimit) (s : S) → calls.getrlimit s ≡ some rl → rl.rlim_cur ≤ rl.rlim_max

module _ {S : Type 0} (calls : LimitCalls S) (laws : IsKernel calls) where
  -- Behind the raise the soft limit is the old one or the hard one.
  raised-limits :
      (rl : Rlimit) (s : S)
      → calls.getrlimit s ≡ some rl
      → (soft : ℕ) × (calls.getrlimit (raised calls rl s)
          ≡ some record { rlim_cur = soft; rlim_max = rl.rlim_max })
        × ((soft ≡ rl.rlim_cur) ⊎ (soft ≡ rl.rlim_max))
        × (rl.rlim_cur ≤ soft)
  raised-limits rl s h = elim (Bool-cases (ltb rl.rlim_cur rl.rlim_max)) [
    | inl lt ↦
        let up = record rl { rlim_cur = rl.rlim_max } in
        elim (Bool-cases (calls.setrlimit up s).0) [
          | inl ok ↦ (rl.rlim_max, rw lt (laws.set_read up s ok), inr refl, laws.ordered rl s h)
          | inr no_luck ↦
              (rl.rlim_cur, rw lt (laws.set_refused up s no_luck ∙ h), inl refl, omega arith)
        ]
    | inr ge ↦ (rl.rlim_cur, rw ge h, inl refl, omega arith)
  ]

-- For a kernel that keeps what it accepts: `raise_fd_limit` does nothing when the limits cannot
-- be read; else it leaves the hard limit, leaves the soft one or raises it to the hard one, and
-- `getfdlimit` pushes the soft limit as it then is.
pub raise_fd_limit-getfdlimit :
    {S : Type 0} (calls : LimitCalls S) (g : ℤ) (s : S)
    → IsKernel calls
    → ((calls.getrlimit s ≡ none) × (raise_fd_limit calls g s ≡ (g, s)))
      ⊎ ((rl : Rlimit) × (soft : ℕ) × (calls.getrlimit s ≡ some rl)
          × (calls.getrlimit (raise_fd_limit calls g s).1
              ≡ some record { rlim_cur = soft; rlim_max = rl.rlim_max })
          × ((soft ≡ rl.rlim_cur) ⊎ (soft ≡ rl.rlim_max))
          × (rl.rlim_cur ≤ soft)
          × (getfdlimit (raise_fd_limit calls g s).0 ≡ reported soft))
unfolding raise_fd_limit
raise_fd_limit-getfdlimit calls g s laws = elim (Option-cases (calls.getrlimit s)) [
  | inl e ↦ inl (e, rw (e, raise_fd_limit) refl)
  | inr (rl, e) ↦
      let (soft, read, which, least) = raised-limits calls laws rl s e in
      inr (
        rl,
        soft,
        e,
        rw (e, raise_fd_limit) read,
        which,
        least,
        rw (e, raise_fd_limit) (ap (λ o. elim o [ none ↦ g | some l ↦ reported l.rlim_cur ]) read),
      )
]
