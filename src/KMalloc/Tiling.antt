-- ===== src/KMalloc/Tiling.antt =====
-- The invariant of the heap: the blocks with their headers tile it without gap or overlap.
use lxtos.Prelude.{
  ℕ, ◌+◌, ◌%◌, ◌^◌, ◌≤◌, ◌<◌, ◌≡◌, refl, List, [], ◌∷◌, ◌++◌, arith, if◌then◌else◌, inl, inr,
  Bool-cases,
}
use lxtos.KMalloc.{Block, Heap, header, kmalloc_init}

-- The blocks lie one behind the other from `start` to `end`, and each size is a multiple of 8.
abbrev pub Tiles : ℕ → ℕ → List Block → Type 0
Tiles start end [] = start ≡ end
Tiles start end (b ∷ bs) =
    (b.addr ≡ start) × (b.size % 8 ≡ 0) × Tiles (start + header + b.size) end bs

pub record IsValid (h : Heap) : Type 0 where
  pub based : 0 < h.base
  pub aligned : h.base % 8 ≡ 0
  pub fits : h.base + h.total < 2 ^ 64
  pub bounded : h.total ≤ 2 ^ 63
  pub tiles : Tiles h.base (h.base + h.total) h.blocks

-- The memory in use: address and size of each block that is handed out, in order.
abbrev pub live : List Block → List (ℕ × ℕ)
live [] = []
live (b ∷ bs) = if b.free then live bs else (b.addr + header, b.size) ∷ live bs

pub Tiles-le : (s e : ℕ) (bs : List Block) → Tiles s e bs → s ≤ e
Tiles-le s e [] t = omega arith
Tiles-le s e (b ∷ bs) t = omega (arith, Tiles-le (s + header + b.size) e bs t.2)

pub Tiles-append :
    (s m e : ℕ) (xs ys : List Block) → Tiles s m xs → Tiles m e ys → Tiles s e (xs ++ ys)
Tiles-append s m e [] ys t u = rw t u
Tiles-append s m e (b ∷ xs) ys t u = (t.0, t.1, Tiles-append (s + header + b.size) m e xs ys t.2 u)

-- Where the part of a tiling before a block ends.
pub Tiles-split :
    (s e : ℕ) (xs ys : List Block) → Tiles s e (xs ++ ys) → (m : ℕ) × Tiles s m xs × Tiles m e ys
Tiles-split s e [] ys t = (s, refl, t)
Tiles-split s e (b ∷ xs) ys t =
    let (m, p, q) = Tiles-split (s + header + b.size) e xs ys t.2 in (m, (t.0, t.1, p), q)

pub live-append : (xs ys : List Block) → live (xs ++ ys) ≡ live xs ++ live ys
live-append [] ys = refl
live-append (b ∷ xs) ys = ground (arith, live-append xs ys)

-- A fresh heap, in an aligned region of at most 2^63 bytes with room for a header, is valid, with
-- nothing in use.
pub kmalloc_init-IsValid :
    (start size : ℕ)
    → 0 < start
    → start % 8 ≡ 0
    → size % 8 ≡ 0
    → header ≤ size
    → start + size < 2 ^ 64
    → size ≤ 2 ^ 63
    → IsValid (kmalloc_init start size) × (live (kmalloc_init start size).blocks ≡ [])
unfolding kmalloc_init
kmalloc_init-IsValid start size a b c d e g = (
  record {
    based = a;
    aligned = b;
    fits = e;
    bounded = g;
    tiles = (refl, omega arith, omega arith);
  },
  refl,
)

-- Where the pieces of a list lie: each between `s` and `e`, 8-aligned, and behind the one before it
-- with room for a header between them.
abbrev pub Apart : ℕ → ℕ → List (ℕ × ℕ) → Type 0
Apart s e [] = s ≤ e
Apart s e ((p, n) ∷ r) = (s + header ≤ p) × (p % 8 ≡ 0) × Apart (p + n) e r

Apart-weaken : (s s' e : ℕ) (r : List (ℕ × ℕ)) → s' ≤ s → Apart s e r → Apart s' e r
Apart-weaken s s' e [] h a = omega arith
Apart-weaken s s' e ((p, n) ∷ r) h a = (omega arith, a.1, a.2)

live-Apart : (s e : ℕ) (bs : List Block) → s % 8 ≡ 0 → Tiles s e bs → Apart s e (live bs)
live-Apart s e [] h t = omega arith
live-Apart s e (b ∷ bs) h t =
    let rest = live-Apart (s + header + b.size) e bs (omega arith) t.2 in
    elim (Bool-cases b.free) [
      | inl q ↦ rw q (Apart-weaken (s + header + b.size) s e (live bs) (omega arith) rest)
      | inr q ↦
          let shift : s + header + b.size ≡ b.addr + header + b.size = omega (arith, t.0) in
          rw q (omega (arith, t.0), omega (arith, t.0), rw shift at rest)
    ]

-- In a valid heap the memory in use lies inside the heap, in disjoint 8-aligned pieces.
pub live_disjoint : {h : Heap} → IsValid h → Apart h.base (h.base + h.total) (live h.blocks)
live_disjoint {h} v = live-Apart h.base (h.base + h.total) h.blocks v.aligned v.tiles
