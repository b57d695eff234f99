-- ===== src/Hub/Tables.antt =====
-- The Lua primitives `tablesize` and `cleantable` of hub/hub.c. Lua is a parameter: `next` is
-- `lua_next` on a table, from a key or from `nil`, and `clear` is `lua_rawset` with `nil`.
use luadch.Common.{
  ℕ, zero, suc, ◌+◌, ◌<◌, List, [], ◌∷◌, ◌++◌, Option, none, some, length, ◌≡◌, refl, ap, sym, ◌∙◌,
  append_assoc, arith,
}

module _ {T K : Type 0} (next : T → Option K → Option K) where
  -- The loop of `tablesize` at a key, with its count.
  unfoldable pub tablesize_loop : ℕ → T → Option K → ℕ → Option ℕ
  tablesize_loop zero t k i = none
  tablesize_loop (suc fuel) t k i = elim (next t k) [
    | none ↦ some i
    | some k' ↦ tablesize_loop fuel t (some k') (i + 1)
  ]

  unfoldable pub tablesize : ℕ → T → Option ℕ
  tablesize fuel t = tablesize_loop fuel t none 0

  -- The loop of `cleantable`, which goes back to `nil` behind each key.
  unfoldable pub cleantable : (T → K → T) → ℕ → T → Option T
  cleantable clear zero t = none
  cleantable clear (suc fuel) t = elim (next t none) [
    | none ↦ some t
    | some k ↦ cleantable clear fuel (clear t k)
  ]

-- The first of some keys.
abbrev pub first {ℓ} : {K : Type ℓ} → List K → Option K
first [] = none
first (k ∷ ks) = some k

-- What Lua's manual says of `lua_next`: for each table it goes through the keys in some order; a key
-- that is set to `nil` leaves the table.
pub record IsTraversal {T K : Type 0} (next : T → Option K → Option K) (clear : T → K → T)
    (keys : T → List K) : Type 0 where
  pub start : (t : T) → next t none ≡ first (keys t)
  pub after :
      (t : T) (pre post : List K) (k : K)
      → keys t ≡ pre ++ (k ∷ post)
      → next t (some k) ≡ first post
  pub cleared : (t : T) (k : K) (ks : List K) → keys t ≡ k ∷ ks → keys (clear t k) ≡ ks

module _ {T K : Type 0} (next : T → Option K → Option K) (clear : T → K → T) (keys : T → List K)
    (laws : IsTraversal next clear keys) where
  tablesize_loop-counts :
      (fuel : ℕ) (t : T) (pre post : List K) (k : K) (i : ℕ)
      → keys t ≡ pre ++ (k ∷ post)
      → length post < fuel
      → tablesize_loop next fuel t (some k) i ≡ some (i + length post)
  unfolding tablesize_loop
  tablesize_loop-counts zero t pre post k i h lt = absurd (omega arith)
  tablesize_loop-counts (suc fuel) t pre [] k i h lt =
      rw (laws.after t pre [] k h, tablesize_loop) (ap some (omega arith))
  tablesize_loop-counts (suc fuel) t pre (p ∷ post) k i h lt =
      rw (laws.after t pre (p ∷ post) k h, tablesize_loop)
        (tablesize_loop-counts fuel t (pre ++ (k ∷ [])) post p (i + 1)
            (h ∙ sym (append_assoc pre (k ∷ []) (p ∷ post))) (omega arith)
          ∙ ap some (omega arith))

  counted :
      (ks : List K) (fuel : ℕ) (t : T)
      → keys t ≡ ks
      → length ks < fuel
      → tablesize next fuel t ≡ some (length ks)
  unfolding tablesize tablesize_loop
  counted ks zero t h lt = absurd (omega arith)
  counted [] (suc fuel) t h lt = rw (laws.start t ∙ ap first h, tablesize_loop) refl
  counted (k ∷ ks) (suc fuel) t h lt =
      rw (laws.start t ∙ ap first h, tablesize_loop)
        (tablesize_loop-counts fuel t [] ks k 1 h (omega arith) ∙ ap some (omega arith))

  emptied :
      (ks : List K) (fuel : ℕ) (t : T)
      → keys t ≡ ks
      → length ks < fuel
      → (t' : T) × (cleantable next clear fuel t ≡ some t') × (keys t' ≡ [])
  unfolding cleantable
  emptied ks zero t h lt = absurd (omega arith)
  emptied [] (suc fuel) t h lt = (t, rw (laws.start t ∙ ap first h, cleantable) refl, h)
  emptied (k ∷ ks) (suc fuel) t h lt =
      let (t', e, none_left) = emptied ks fuel (clear t k) (laws.cleared t k ks h) (omega arith) in
      (t', rw (laws.start t ∙ ap first h, cleantable) e, none_left)

-- For a `lua_next` that goes through the keys of a table, with fuel above their number:
-- `tablesize` gives this number, and `cleantable` ends with a table whose size is 0.
pub tablesize-cleantable :
    {T K : Type 0} (next : T → Option K → Option K) (clear : T → K → T) (keys : T → List K)
    (fuel : ℕ) (t : T)
    → IsTraversal next clear keys
    → length (keys t) < fuel
    → (t' : T) × (tablesize next fuel t ≡ some (length (keys t)))
      × (cleantable next clear fuel t ≡ some t')
      × (tablesize next fuel t' ≡ some 0)
tablesize-cleantable next clear keys fuel t laws lt =
    let (t', e, empty) = emptied next clear keys laws (keys t) fuel t refl lt in
    (
      t',
      counted next clear keys laws (keys t) fuel t refl lt,
      e,
      counted next clear keys laws [] fuel t' empty (omega arith),
    )
