-- ===== src/KMalloc/Alloc.antt =====
-- `kmalloc` hands out memory that nothing else uses.
use lxtos.Prelude.{
  ℕ, ◌+◌, ◌-◌, ◌%◌, ◌^◌, ◌≤◌, ◌<◌, ◌≡◌, refl, true, false, ◌&&◌, none, some, List, [], ◌∷◌, ◌++◌,
  arith, ap, sym, ◌∙◌, if◌then◌else◌, ◌⊎◌, inl, inr, Bool-cases, leb, ◌==◌, ==_refl, Option-cases,
}
use native.Mathlib.Nat.{le_trans}
use lxtos.KMalloc.{
  Block, Heap, header, align8, find_free, split, take_block, kmalloc_aligned, kmalloc,
}
use lxtos.KMalloc.Tiling.{Tiles, IsValid, live, Tiles-le, Tiles-append, Tiles-split, live-append}

-- Where the block that `find_free` returns stands, and what taking it does to the chain.
record Found (size : ℕ) (bs : List Block) (b : Block) : Type 0 where
  pre : List Block
  post : List Block
  chain : bs ≡ pre ++ b ∷ post
  free : b.free ≡ true
  enough : size ≤ b.size
  taken : take_block size b.addr bs ≡ pre ++ (split size b ++ post)

some_eq : {x b : Block} → some x ≡ some b → x ≡ b
some_eq e = cc

-- The search either stops at the first block or goes on.
module _ (size : ℕ) (x : Block) (bs : List Block) {b : Block}
    (f : find_free size (x ∷ bs) ≡ some b) where
  found_here : (x.free && leb size x.size) ≡ true → x ≡ b
  unfolding find_free
  found_here q = some_eq (rw q at f)

  found_later : (x.free && leb size x.size) ≡ false → find_free size bs ≡ some b
  unfolding find_free
  found_later q = rw q at f

find_free-addr :
    (size s e : ℕ) (bs : List Block) {b : Block}
    → Tiles s e bs
    → find_free size bs ≡ some b
    → s ≤ b.addr
unfolding find_free
find_free-addr size s e [] t f = cc
find_free-addr size s e (x ∷ bs) {b} t f = elim (Bool-cases (x.free && leb size x.size)) [
  | inl q ↦ rw (← found_here size x bs f q) (omega (arith, t.0))
  | inr q ↦
      omega (arith, find_free-addr size (s + header + x.size) e bs t.2 (found_later size x bs f q))
]

take_here :
    (size : ℕ) (x : Block) (bs : List Block) → take_block size x.addr (x ∷ bs) ≡ split size x ++ bs
unfolding take_block
take_here size x bs = rw (==_refl x.addr)

take_later :
    (size a : ℕ) (x : Block) (bs : List Block)
    → x.addr < a
    → take_block size a (x ∷ bs) ≡ x ∷ take_block size a bs
unfolding take_block
take_later size a x bs h = ground arith

none_found : (size : ℕ) {c : Block} → find_free size [] ≡ some c → ⊥
unfolding find_free
none_found size g = cc

find_free-Found :
    (size s e : ℕ) (bs : List Block) {b : Block}
    → Tiles s e bs
    → find_free size bs ≡ some b
    → Found size bs b
find_free-Found size s e [] t f = absurd (none_found size f)
find_free-Found size s e (x ∷ bs) {b} t f = elim (Bool-cases (x.free && leb size x.size)) [
  | inl q ↦ rw (← found_here size x bs f q) (record {
    pre = [];
    post = bs;
    chain = refl;
    free = ground arith;
    enough = ground arith;
    taken = take_here size x bs;
  })
  | inr q ↦
      let g = found_later size x bs f q in
      let r = find_free-Found size (s + header + x.size) e bs t.2 g in
      let above = find_free-addr size (s + header + x.size) e bs t.2 g in
      record {
        pre = x ∷ r.pre;
        post = r.post;
        chain = ap (λ l. x ∷ l) r.chain;
        free = r.free;
        enough = r.enough;
        taken = take_later size b.addr x bs (omega (arith, t.0, above)) ∙ ap (λ l. x ∷ l) r.taken;
      }
]

-- No free block is large enough.
abbrev pub NoFit : ℕ → List Block → Type 0
NoFit size [] = Unit {0}
NoFit size (b ∷ bs) = (b.free ≡ true → b.size < size) × NoFit size bs

find_free-NoFit : (size : ℕ) (bs : List Block) → find_free size bs ≡ none → NoFit size bs
unfolding find_free
find_free-NoFit size [] f = tt
find_free-NoFit size (x ∷ bs) f = elim (Bool-cases (x.free && leb size x.size)) [
  | inl q ↦ cc (rw q at f)
  | inr q ↦ (λ free. ground arith, find_free-NoFit size bs (rw q at f))
]

-- What is handed out of a block at `s`: `size` bytes, or the whole block if the rest is too small.
abbrev given : ℕ → Block → ℕ
given size b = if leb ((size + header + 8) % 2 ^ 64) b.size then size else b.size

module _ (size : ℕ) (b : Block) (fits : b.addr + header + b.size < 2 ^ 64) (enough : size ≤ b.size)
    (small : b.size ≤ 2 ^ 63) (aligned : size % 8 ≡ 0) (even : b.size % 8 ≡ 0) where
  split-Tiles : Tiles b.addr (b.addr + header + b.size) (split size b)
  unfolding split
  split-Tiles = ground arith

  live-split : live (split size b) ≡ (b.addr + header, given size b) ∷ []
  unfolding split
  live-split = ground arith

  given-le : size ≤ given size b
  given-le = ground arith

-- The part of the heap that changes, seen from outside: `n` bytes at `p` are now in use.
pub record Allocated (h : Heap) (n p : ℕ) (h' : Heap) : Type 0 where
  pub valid : IsValid h'
  pub before : List (ℕ × ℕ)
  pub behind : List (ℕ × ℕ)
  pub size : ℕ
  pub enough : n ≤ size
  pub old : live h.blocks ≡ before ++ behind
  pub new : live h'.blocks ≡ before ++ (p, size) ∷ behind

module _ {h : Heap} (v : IsValid h) (size : ℕ) (even : size % 8 ≡ 0) {b : Block}
    (r : Found size h.blocks b) where
  abbrev taken_heap : Heap
  taken_heap = record h { blocks = take_block size b.addr h.blocks }

  place : (m : ℕ) × Tiles h.base m r.pre × Tiles m (h.base + h.total) (b ∷ r.post)
  place = Tiles-split h.base (h.base + h.total) r.pre (b ∷ r.post) (rw r.chain at v.tiles)

  in_heap : (h.base ≤ b.addr) × (b.addr + header + b.size ≤ h.base + h.total)
  in_heap =
      let (m, before, behind) = place in
      omega (
        arith,
        Tiles-le h.base m r.pre before,
        Tiles-le (m + header + b.size) (h.base + h.total) r.post behind.2,
        behind.0,
      )

  b_fits : b.addr + header + b.size < 2 ^ 64
  b_fits = omega (arith, in_heap, v.fits)

  b_small : b.size ≤ 2 ^ 63
  b_small = omega (arith, in_heap, v.bounded)

  b_even : b.size % 8 ≡ 0
  b_even = place.2.1

  taken-Tiles : Tiles h.base (h.base + h.total) taken_heap.blocks
  taken-Tiles =
      let (m, before, behind) = place in
      let here : m ≡ b.addr = sym behind.0 in
      rw r.taken (
        Tiles-append h.base m (h.base + h.total) r.pre (split size b ++ r.post) before (
          rw here (
            Tiles-append b.addr (b.addr + header + b.size) (h.base + h.total) (split size b) r.post
              (split-Tiles size b b_fits r.enough b_small even b_even) (rw here at behind.2))))

  taken-IsValid : IsValid taken_heap
  taken-IsValid = record {
    based = v.based;
    aligned = v.aligned;
    fits = v.fits;
    bounded = v.bounded;
    tiles = taken-Tiles;
  }

  taken-Allocated : (n : ℕ) → n ≤ size → Allocated h n (b.addr + header) taken_heap
  taken-Allocated n enough = record {
    valid = taken-IsValid;
    before = live r.pre;
    behind = live r.post;
    size = given size b;
    enough = le_trans enough (given-le size b b_fits r.enough b_small even b_even);
    old = rw (r.chain, live-append r.pre (b ∷ r.post), r.free);
    new =
        rw (r.taken, live-append r.pre (split size b ++ r.post), live-append (split size b) r.post)
          (rw (live-split size b b_fits r.enough b_small even b_even));
  }

-- In a valid heap `kmalloc` of up to 2^64 - 8 bytes either finds no free block that is large
-- enough, and returns NULL and changes nothing, or returns the address of a piece of at least `n`
-- bytes that it adds to the memory in use; all else in use stays as it is, and the heap is valid.
pub kmalloc_lem :
    {h : Heap} (n : ℕ)
    → IsValid h
    → n ≤ 2 ^ 64 - 8
    → (NoFit (align8 n) h.blocks × (kmalloc h n ≡ (none, h)))
      ⊎ ((p : ℕ) × ((kmalloc h n).0 ≡ some p) × Allocated h n p (kmalloc h n).1)
unfolding kmalloc
kmalloc_lem {h} n v small =
    let based : (h.base == 0) ≡ false = ground (arith, v.based) in
    elim (Option-cases (find_free (align8 n) h.blocks)) [
      | inl f ↦ inl (find_free-NoFit (align8 n) h.blocks f, rw (based, f, kmalloc_aligned))
      | inr (b, f) ↦
          let r = find_free-Found (align8 n) h.base (h.base + h.total) h.blocks v.tiles f in
          let even : align8 n % 8 ≡ 0 = omega arith in
          inr (
            b.addr + header,
            rw (based, f, kmalloc_aligned) (ap some (omega (arith, b_fits v (align8 n) even r))),
            rw (based, f, kmalloc_aligned) (taken-Allocated v (align8 n) even r n (omega arith)),
          )
    ]

-- Above 2^64 - 8 the rounding wraps, and `kmalloc` answers as for a request of 0 bytes.
pub kmalloc_wraps : (h : Heap) (n : ℕ) → 2 ^ 64 - 8 < n → n < 2 ^ 64 → kmalloc h n ≡ kmalloc h 0
unfolding kmalloc
kmalloc_wraps h n a b =
    let e : align8 n ≡ align8 0 = omega arith in
    ap (λ k. if h.base == 0 then (none, h) else kmalloc_aligned h k) e
