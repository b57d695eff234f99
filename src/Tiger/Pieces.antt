-- ===== src/Tiger/Pieces.antt =====
-- `update` called for every piece of a message, then `finalize`.
use luadch.Common.{
  ℕ, List, [], ◌∷◌, ◌++◌, Option, none, some, length, ◌≡◌, refl, sym, subst, arith, append_assoc,
  append-nil,
}
use luadch.Tiger.Hash.{TigerHash, tiger_hash, update, finalize}
use luadch.Tiger.Spec.{absorb, tiger}
use luadch.Tiger.Stream.{Absorbed}
use luadch.Tiger.Update.{update-Absorbed}
use luadch.Tiger.Finalize.{finalize-Absorbed}

-- The constructor's object has taken in nothing, whatever its buffer holds.
pub tiger_hash-Absorbed :
    (garbage : List ℕ) → length garbage ≡ 64 → Absorbed (tiger_hash garbage) []
unfolding tiger_hash absorb
tiger_hash-Absorbed garbage h = record {
  blocks = 0;
  full = [];
  tail = [];
  junk = garbage;
  split = refl;
  whole = refl;
  short = omega arith;
  state = refl;
  buffer = refl;
  size = h;
  counted = refl;
}

-- Calls of `update`, one for each piece.
unfoldable pub update_all : TigerHash → List (List ℕ) → Option TigerHash
update_all h [] = some h
update_all h (piece ∷ pieces) = elim (update h piece) [
  | none ↦ none
  | some h' ↦ update_all h' pieces
]

abbrev pub concat : List (List ℕ) → List ℕ
concat [] = []
concat (piece ∷ pieces) = piece ++ concat pieces

update_all-Absorbed :
    (pieces : List (List ℕ)) (h : TigerHash) (msg : List ℕ)
    → Absorbed h msg
    → (h' : TigerHash) × (update_all h pieces ≡ some h') × Absorbed h' (msg ++ concat pieces)
unfolding update_all
update_all-Absorbed [] h msg a = (h, refl, subst (Absorbed h) (sym (append-nil msg)) a)
update_all-Absorbed (piece ∷ pieces) h msg a =
    let (h', e, a') = update-Absorbed h msg piece a in
    let (last, f, a'') = update_all-Absorbed pieces h' (msg ++ piece) a' in
    (last, rw (e, update_all) f, subst (Absorbed last) (append_assoc msg piece (concat pieces)) a'')

-- Any sequence of calls of `update` on a new object whose buffer has 64 bytes returns, and
-- `finalize` then gives the hash of the concatenation of the pieces, as the padded message cut
-- into blocks defines it.
pub finalize-update_all :
    (garbage : List ℕ) (pieces : List (List ℕ))
    → length garbage ≡ 64
    → (h : TigerHash) × (update_all (tiger_hash garbage) pieces ≡ some h)
      × (finalize h ≡ tiger (concat pieces))
finalize-update_all garbage pieces g =
    let (h, e, a) = update_all-Absorbed pieces _ [] (tiger_hash-Absorbed garbage g) in
    (h, e, finalize-Absorbed h (concat pieces) a)
