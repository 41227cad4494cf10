-- ===== src/KMalloc.antt =====
-- The kernel heap, src/lib/kmalloc.c: a chain of headers, each in front of its block.
-- The chain is the list of its headers from `heap_head` on, so `next` is the rest of the list; each
-- header carries its address. A pointer in front of which no header stands is a fault of `kfree`.
pub mod Tiling
pub mod Alloc
pub mod Merge
pub mod Free
pub mod Disjoint
pub mod Owned
mod Tests
use lxtos.Prelude.{
  ℕ, zero, suc, ◌+◌, ◌-◌, ◌*◌, ◌/◌, ◌%◌, ◌^◌, Bool, true, false, ◌&&◌, Option, none, some, List, [],
  ◌∷◌, leb, ◌==◌, if◌then◌else◌, ◌>>=◌, ◌++◌, replicate,
}

-- `block_header_t`, with its own address; `sizeof(block_header_t)` is 24
pub record Block : Type 0 where
  pub addr : ℕ
  pub size : ℕ
  pub free : Bool

abbrev pub header : ℕ
header = 24

-- `heap_base` (0 for NULL), `heap_total` and the chain from `heap_head`
pub record Heap : Type 0 where
  pub base : ℕ
  pub total : ℕ
  pub blocks : List Block

unfoldable pub kmalloc_init : ℕ → ℕ → Heap
kmalloc_init start size = record {
  base = start;
  total = size;
  blocks = record { addr = start; size = (size + 2 ^ 64 - header) % 2 ^ 64; free = true } ∷ [];
}

-- ((x) + 7) & ~7 on a `uint64_t`
abbrev pub align8 : ℕ → ℕ
align8 x = (x + 7) % 2 ^ 64 / 8 * 8

unfoldable pub find_free : ℕ → List Block → Option Block
find_free size [] = none
find_free size (b ∷ bs) =
    let rest = find_free size bs in if b.free && leb size b.size then some b else rest

-- The block that is handed out and, if there is room for one, the block split off behind it.
unfoldable pub split : ℕ → Block → List Block
split size b =
    if leb ((size + header + 8) % 2 ^ 64) b.size
    then (record b { size = size; free = false }
        ∷ record {
          addr = (b.addr + header + size) % 2 ^ 64;
          size = (b.size + 2 ^ 64 - size - header) % 2 ^ 64;
          free = true;
        }
        ∷ [])
    else (record b { free = false } ∷ [])

-- The writes to the block at `a` in the chain.
unfoldable pub take_block : ℕ → ℕ → List Block → List Block
unfolding split
take_block size a [] = []
take_block size a (b ∷ bs) = if b.addr == a then split size b ++ bs else b ∷ take_block size a bs

-- `kmalloc` for the rounded size
unfoldable pub kmalloc_aligned : Heap → ℕ → Option ℕ × Heap
kmalloc_aligned h size = elim (find_free size h.blocks) [
  | none ↦ (none, h)
  | some b ↦
      (some ((b.addr + header) % 2 ^ 64), record h { blocks = take_block size b.addr h.blocks })
]

unfoldable pub kmalloc : Heap → ℕ → Option ℕ × Heap
unfolding kmalloc_aligned
kmalloc h size = if h.base == 0 then (none, h) else kmalloc_aligned h (align8 size)

-- The piece with its first contents. (Where the rounding of the size wraps, the code clears more than
-- the piece.)
abbrev pub kzalloc : Heap → ℕ → Option (ℕ × List ℕ) × Heap
kzalloc h size =
    let (r, h') = kmalloc h size in
    (elim r [ none ↦ none | some p ↦ some (p, replicate size 0) ], h')

-- `blk->free = 1` for the header at `a`
unfoldable pub release : ℕ → List Block → Option (List Block)
release a [] = none
release a (b ∷ bs) =
    let rest = release a bs in
    if b.addr == a then some (record b { free = true } ∷ bs) else (rest >>= λ bs'. some (b ∷ bs'))

-- The loop of `kfree`, with `b` for `*cur`.
unfoldable pub coalesce_from : Block → List Block → List Block
coalesce_from b [] = b ∷ []
coalesce_from b (n ∷ bs) =
    let merged = coalesce_from (record b { size = (b.size + (header + n.size)) % 2 ^ 64 }) bs in
    let next = coalesce_from n bs in if b.free && n.free then merged else b ∷ next

unfoldable pub coalesce : List Block → List Block
unfolding coalesce_from
coalesce [] = []
coalesce (b ∷ bs) = coalesce_from b bs

unfoldable pub kfree : Heap → ℕ → Option Heap
unfolding release coalesce
kfree h ptr =
    if ptr == 0
    then some h
    else (release ((ptr + 2 ^ 64 - header) % 2 ^ 64) h.blocks >>= λ bs.
        some (record h { blocks = coalesce bs }))

free_from : ℕ → List Block → ℕ
free_from n [] = n
free_from n (b ∷ bs) = free_from (if b.free then (n + b.size) % 2 ^ 64 else n) bs

unfoldable pub kmalloc_free_size : Heap → ℕ
unfolding free_from
kmalloc_free_size h = free_from 0 h.blocks

abbrev pub kmalloc_heap_size : Heap → ℕ
kmalloc_heap_size h = h.total
