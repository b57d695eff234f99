-- ===== src/Hub/TableTests.antt =====
-- A table that has the keys below a number, and the theorem about its primitives applied to it.
use luadch.Common.{
  ℕ, zero, suc, ◌-◌, List, [], ◌∷◌, ◌++◌, Option, none, some, ◌≡◌, refl, ap, sym, ◌∙◌, arith,
  length,
}
use luadch.Hub.Tables.{first, IsTraversal}

abbrev keys_below : ℕ → List ℕ
keys_below zero = []
keys_below (suc n) = n ∷ keys_below n

-- The keys go down.
abbrev key_after : ℕ → Option ℕ → Option ℕ
key_after n none = first (keys_below n)
key_after n (some k) = first (keys_below k)

abbrev clear_top_key : ℕ → ℕ → ℕ
clear_top_key n k = n - 1

abbrev tail : List ℕ → List ℕ
tail [] = []
tail (k ∷ ks) = ks

abbrev head_or : ℕ → List ℕ → ℕ
head_or d [] = d
head_or d (k ∷ ks) = k

keys_behind : (pre post : List ℕ) (n k : ℕ) → keys_below n ≡ pre ++ (k ∷ post) → keys_below k ≡ post
keys_behind [] post zero k e = absurd (omega (arith, ap length e))
keys_behind [] post (suc n) k e = ap keys_below (sym (ap (head_or n) e)) ∙ ap tail e
keys_behind (p ∷ pre) post zero k e = absurd (omega (arith, ap length e))
keys_behind (p ∷ pre) post (suc n) k e = keys_behind pre post n k (ap tail e)

keys_cleared : (n k : ℕ) (ks : List ℕ) → keys_below n ≡ k ∷ ks → keys_below (n - 1) ≡ ks
keys_cleared zero k ks e = absurd (omega (arith, ap length e))
keys_cleared (suc n) k ks e =
    let same : suc n - 1 ≡ n = omega arith in ap keys_below same ∙ ap tail e

downwards : IsTraversal key_after clear_top_key keys_below
downwards = record {
  start = λ t. refl;
  after = λ t pre post k e. ap first (keys_behind pre post t k e);
  cleared = λ t k ks e. keys_cleared t k ks e;
}
