-- ===== src/Tiger/Bulk.antt =====
-- The loop of `update` over whole blocks.
use luadch.Common.{
  ℕ, zero, suc, ◌+◌, ◌<◌, ◌≤◌, true, false, List, [], ◌++◌, some, leb, take, drop, length, u64, ◌≡◌,
  refl, ap, sym, ◌∙◌, subst, arith, inl, inr, Bool-cases, leb→le, length-append, length-take,
  length-drop, take-append-drop, append_assoc, append-nil,
}
use luadch.Tiger.Hash.{TigerHash, initial, compress_block, bulk}
use luadch.Tiger.Spec.{absorb-block}
use luadch.Tiger.Stream.{Whole, counted_lem}

-- A block that is compressed.
pub block_Whole :
    (tmp : List ℕ) (h : TigerHash) (msg block : List ℕ) (w : Whole h msg)
    → length block ≡ 64
    → length tmp ≡ 64
    → Whole
        (record { tmp = tmp; res = compress_block block h.res; pos = u64 (h.pos + 64) })
        (msg ++ block)
block_Whole tmp h msg block w k t = record {
  blocks = w.blocks + 1;
  whole = rw length-append (omega (arith, w.whole));
  state =
      ap (compress_block block) w.state ∙ sym (absorb-block w.blocks initial msg block w.whole k);
  size = t;
  counted = counted_lem h.pos 64 msg block w.counted (sym k);
}

pub record Bulked (fuel : ℕ) (h : TigerHash) (msg str : List ℕ) : Type 0 where
  pub after : TigerHash
  pub front : List ℕ
  pub rest : List ℕ
  pub returns : bulk fuel h str ≡ some (after, rest)
  pub split : str ≡ front ++ rest
  pub short : length rest < 64
  pub taken : Whole after (msg ++ front)

bulk-stops :
    (fuel : ℕ) (h : TigerHash) (str : List ℕ)
    → leb 64 (length str) ≡ false
    → bulk fuel h str ≡ some (h, str)
unfolding bulk
bulk-stops zero h str e = rw e refl
bulk-stops (suc fuel) h str e = rw (e, bulk) refl

abbrev one_block : TigerHash → List ℕ → TigerHash
one_block h str = record h { res = compress_block (take 64 str) h.res; pos = u64 (h.pos + 64) }

bulk-takes :
    (fuel : ℕ) (h : TigerHash) (str : List ℕ)
    → leb 64 (length str) ≡ true
    → bulk (suc fuel) h str ≡ bulk fuel (one_block h str) (drop 64 str)
unfolding bulk
bulk-takes fuel h str e = rw (e, bulk) refl

stopped :
    (fuel : ℕ) (h : TigerHash) (msg str : List ℕ)
    → Whole h msg
    → leb 64 (length str) ≡ false
    → Bulked fuel h msg str
stopped fuel h msg str w e = record {
  after = h;
  front = [];
  rest = str;
  returns = bulk-stops fuel h str e;
  split = refl;
  short = ground arith;
  taken = subst (Whole h) (sym (append-nil msg)) w;
}

-- The loop ends, with less than a block left.
pub bulk-Bulked :
    (fuel : ℕ) (h : TigerHash) (msg str : List ℕ)
    → Whole h msg
    → length str ≤ fuel
    → Bulked fuel h msg str
bulk-Bulked zero h msg str w k = stopped zero h msg str w (ground arith)
bulk-Bulked (suc fuel) h msg str w k = elim (Bool-cases (leb 64 (length str))) [
  | inr e ↦ stopped (suc fuel) h msg str w e
  | inl e ↦
      let block = take 64 str in
      let fits : length block ≡ 64 = length-take 64 str ∙ ground arith in
      let ih =
        bulk-Bulked fuel (one_block h str) (msg ++ block) (drop 64 str)
          (block_Whole h.tmp h msg block w fits w.size)
          (omega (arith, length-drop 64 str, leb→le 64 (length str) e)) in
      record {
        after = ih.after;
        front = block ++ ih.front;
        rest = ih.rest;
        returns = bulk-takes fuel h str e ∙ ih.returns;
        split =
            sym (take-append-drop 64 str)
            ∙ ap (◌++◌ block) ih.split
            ∙ sym (append_assoc block ih.front ih.rest);
        short = ih.short;
        taken = subst (Whole ih.after) (append_assoc msg block ih.front) ih.taken;
      }
]
