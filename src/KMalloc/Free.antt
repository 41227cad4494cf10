-- ===== src/KMalloc/Free.antt =====
-- `kfree` gives back one piece of memory, and undoes `kmalloc`.
use lxtos.Prelude.{
  ℕ, ◌+◌, ◌-◌, ◌%◌, ◌^◌, ◌≤◌, ◌<◌, ◌≡◌, refl, true, false, some, List, [], ◌∷◌, ◌++◌, arith, ◌∙◌,
  inl, inr, Bool-cases, ◌==◌, ==_refl,
}
use lxtos.KMalloc.{Block, Heap, header, release, coalesce, kfree}
use lxtos.KMalloc.Tiling.{Tiles, IsValid, live, Tiles-le}
use lxtos.KMalloc.Merge.{Merged, coalesce-Coalesced}

-- What `blk->free = 1` does for the piece of memory `(p, n)`.
record Released (s e : ℕ) (bs : List Block) (before behind : List (ℕ × ℕ)) (p : ℕ) : Type 0 where
  addr : ℕ
  result : List Block
  at_header : p ≡ addr + header
  above : s ≤ addr
  below : addr + header ≤ e
  runs : release addr bs ≡ some result
  tiles : Tiles s e result
  rest : live result ≡ before ++ behind

release_later :
    (a : ℕ) (b : Block) (bs : List Block) {r : List Block}
    → b.addr < a
    → release a bs ≡ some r
    → release a (b ∷ bs) ≡ some (b ∷ r)
unfolding release
release_later a b bs h e = let far : (b.addr == a) ≡ false = ground arith in rw (far, e)

Released-cons :
    (s e : ℕ) (b : Block) (bs : List Block) {before before' behind : List (ℕ × ℕ)} {p : ℕ}
    → Tiles s e (b ∷ bs)
    → live (b ∷ []) ++ before ≡ before'
    → Released (s + header + b.size) e bs before behind p
    → Released s e (b ∷ bs) before' behind p
Released-cons s e b bs {before} {before'} {behind} t q r = record {
  addr = r.addr;
  result = b ∷ r.result;
  at_header = r.at_header;
  above = omega (arith, r.above);
  below = r.below;
  runs = release_later r.addr b bs (omega (arith, r.above, t.0)) r.runs;
  tiles = (t.0, t.1, r.tiles);
  rest = rw (← q) (ground (arith, r.rest));
}

-- The first block that is in use.
Released-here :
    (s e : ℕ) (b : Block) (bs : List Block) (behind : List (ℕ × ℕ)) (p n : ℕ)
    → Tiles s e (b ∷ bs)
    → b.free ≡ false
    → live (b ∷ bs) ≡ (p, n) ∷ behind
    → Released s e (b ∷ bs) [] behind p
unfolding release
Released-here s e b bs behind p n t f l = record {
  addr = b.addr;
  result = record b { free = true } ∷ bs;
  at_header = ground arith;
  above = omega (arith, t.0);
  below = omega (arith, t.0, Tiles-le (s + header + b.size) e bs t.2);
  runs = rw (==_refl b.addr);
  tiles = t;
  rest = ground arith;
}

release-Released :
    (s e : ℕ) (bs : List Block) (before behind : List (ℕ × ℕ)) (p n : ℕ)
    → Tiles s e bs
    → live bs ≡ before ++ (p, n) ∷ behind
    → Released s e bs before behind p
release-Released s e [] [] behind p n t l = absurd (cc)
release-Released s e [] (x ∷ before) behind p n t l = absurd (cc)
release-Released s e (b ∷ bs) [] behind p n t l = elim (Bool-cases b.free) [
  | inl f ↦
      Released-cons s e b bs t (rw f)
        (release-Released (s + header + b.size) e bs [] behind p n t.2 (rw f at l))
  | inr f ↦ Released-here s e b bs behind p n t f l
]
release-Released s e (b ∷ bs) (x ∷ before) behind p n t l = elim (Bool-cases b.free) [
  | inl f ↦
      Released-cons s e b bs t (rw f)
        (release-Released (s + header + b.size) e bs (x ∷ before) behind p n t.2 (rw f at l))
  | inr f ↦
      Released-cons s e b bs t (ground arith)
        (release-Released (s + header + b.size) e bs before behind p n t.2 (ground arith))
]

-- What `kfree` leaves of a heap that held the piece of memory at `p` between `before` and `behind`.
pub record Freed (h : Heap) (before behind : List (ℕ × ℕ)) (h' : Heap) : Type 0 where
  pub valid : IsValid h'
  pub rest : live h'.blocks ≡ before ++ behind
  pub merged : Merged h'.blocks
  pub same_base : h'.base ≡ h.base
  pub same_total : h'.total ≡ h.total

-- In a valid heap `kfree` of memory in use does not fault: it takes that piece from the memory in
-- use and leaves the others, merges all free neighbours, and keeps the heap valid.
pub kfree_lem :
    {h : Heap} (before behind : List (ℕ × ℕ)) (p n : ℕ)
    → IsValid h
    → live h.blocks ≡ before ++ (p, n) ∷ behind
    → (h' : Heap) × (kfree h p ≡ some h') × Freed h before behind h'
unfolding kfree
kfree_lem {h} before behind p n v l =
    let r = release-Released h.base (h.base + h.total) h.blocks before behind p n v.tiles l in
    let c = coalesce-Coalesced h.base (h.base + h.total) r.result v.fits r.tiles in
    let nonzero : (p == 0) ≡ false = ground (arith, r.at_header) in
    let back : (p + 2 ^ 64 - header) % 2 ^ 64 ≡ r.addr =
      omega (arith, r.at_header, r.below, v.fits) in
    (
      record h { blocks = coalesce r.result },
      rw (nonzero, back, r.runs),
      record {
        valid = record {
          based = v.based;
          aligned = v.aligned;
          fits = v.fits;
          bounded = v.bounded;
          tiles = c.tiles;
        };
        rest = c.same_live ∙ r.rest;
        merged = c.merged;
        same_base = refl;
        same_total = refl;
      },
    )
