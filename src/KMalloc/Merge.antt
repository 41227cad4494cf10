-- ===== src/KMalloc/Merge.antt =====
-- `kfree`'s loop merges every pair of free neighbours, and loses nothing.
use lxtos.Prelude.{
  ℕ, ◌+◌, ◌%◌, ◌^◌, ◌<◌, ◌≡◌, refl, false, ◌&&◌, List, [], ◌∷◌, arith, ap, subst, inl, inr,
  Bool-cases,
}
use lxtos.KMalloc.{Block, header, coalesce_from, coalesce}
use lxtos.KMalloc.Tiling.{Tiles, live, Tiles-le}

-- No free block has a free block behind it.
abbrev pub MergedFrom : Block → List Block → Type 0
MergedFrom b [] = Unit {0}
MergedFrom b (n ∷ bs) = ((b.free && n.free) ≡ false) × MergedFrom n bs

abbrev pub Merged : List Block → Type 0
Merged [] = Unit {0}
Merged (b ∷ bs) = MergedFrom b bs

-- What the loop makes of a tiling: a tiling of the same memory, the same memory in use, and no
-- free neighbours.
pub record Coalesced (s e : ℕ) (old new : List Block) : Type 0 where
  pub tiles : Tiles s e new
  pub same_live : live new ≡ live old
  pub merged : Merged new

coalesce_from-head :
    (b : Block) (bs : List Block)
    → (c : Block) × (rest : List Block) × (coalesce_from b bs ≡ c ∷ rest) × (c.free ≡ b.free)
unfolding coalesce_from
coalesce_from-head b [] = (b, [], refl, refl)
coalesce_from-head b (n ∷ bs) = elim (Bool-cases (b.free && n.free)) [
  | inl q ↦ rw q (coalesce_from-head (record b { size = (b.size + (header + n.size)) % 2 ^ 64 }) bs)
  | inr q ↦ rw q (b, coalesce_from n bs, refl, refl)
]

Merged-cons :
    (b : Block) {c : Block} {xs rest : List Block}
    → xs ≡ c ∷ rest
    → (b.free && c.free) ≡ false
    → Merged xs
    → Merged (b ∷ xs)
Merged-cons b {c} {xs} {rest} e q m = rw e (q, rw e at m)

-- Two free neighbours at `s` as one block.
module _ (s e : ℕ) (b n : Block) (bs : List Block) (small : e < 2 ^ 64)
    (t : Tiles s e (b ∷ n ∷ bs)) where
  abbrev joined : Block
  joined = record b { size = (b.size + (header + n.size)) % 2 ^ 64 }

  joined-size : joined.size ≡ b.size + (header + n.size)
  joined-size = omega (arith, Tiles-le (s + header + b.size + header + n.size) e bs t.2.2)

  joined-Tiles : Tiles s e (joined ∷ bs)
  joined-Tiles = (
    t.0,
    omega (arith, joined-size, t.1, t.2.1),
    subst (λ k. Tiles k e bs) (omega (arith, joined-size)) t.2.2,
  )

coalesce_from-Coalesced :
    (s e : ℕ) (b : Block) (bs : List Block)
    → e < 2 ^ 64
    → Tiles s e (b ∷ bs)
    → Coalesced s e (b ∷ bs) (coalesce_from b bs)
unfolding coalesce_from
coalesce_from-Coalesced s e b [] small t = record { tiles = t; same_live = refl; merged = tt }
coalesce_from-Coalesced s e b (n ∷ bs) small t = elim (Bool-cases (b.free && n.free)) [
  | inl q ↦
      let r =
        coalesce_from-Coalesced s e (joined s e b n bs small t) bs small
          (joined-Tiles s e b n bs small t) in
      rw (q, coalesce_from)
        (record { tiles = r.tiles; same_live = ground (arith, r.same_live); merged = r.merged })
  | inr q ↦
      let r = coalesce_from-Coalesced (s + header + b.size) e n bs small t.2 in
      let (c, rest, eq, same) = coalesce_from-head n bs in
      rw (q, coalesce_from)
        (record {
          tiles = (t.0, t.1, r.tiles);
          same_live = ground (arith, r.same_live);
          merged = Merged-cons b eq (rw same q) r.merged;
        })
]

pub coalesce-Coalesced :
    (s e : ℕ) (bs : List Block) → e < 2 ^ 64 → Tiles s e bs → Coalesced s e bs (coalesce bs)
unfolding coalesce
coalesce-Coalesced s e [] small t = record { tiles = t; same_live = refl; merged = tt }
coalesce-Coalesced s e (b ∷ bs) small t = coalesce_from-Coalesced s e b bs small t

-- A chain without free neighbours is left as it is.
coalesce_from-Merged : (b : Block) (bs : List Block) → MergedFrom b bs → coalesce_from b bs ≡ b ∷ bs
unfolding coalesce_from
coalesce_from-Merged b [] m = refl
coalesce_from-Merged b (n ∷ bs) m = rw m.0 (ap (λ l. b ∷ l) (coalesce_from-Merged n bs m.1))

pub coalesce-Merged : (bs : List Block) → Merged bs → coalesce bs ≡ bs
unfolding coalesce
coalesce-Merged [] m = refl
coalesce-Merged (b ∷ bs) m = coalesce_from-Merged b bs m
