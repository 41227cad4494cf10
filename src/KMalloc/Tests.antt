-- ===== src/KMalloc/Tests.antt =====
-- The kernel heap at concrete states, and its theorems there.
use lxtos.Prelude.{ℕ, ◌+◌, ◌%◌, ◌≤◌, ◌≡◌, ap, refl, true, false, some, none, [], ◌∷◌, ◌⊎◌, arith}
use lxtos.KMalloc.{
  Block, Heap, align8, find_free, split, take_block, kmalloc, release, coalesce, kfree,
  kmalloc_free_size,
}
use lxtos.KMalloc.Tiling.{IsValid, live}
use lxtos.KMalloc.Disjoint.{Clear, kmalloc_disjoint}
use lxtos.KMalloc.Alloc.{NoFit, Allocated, kmalloc_lem}
use lxtos.KMalloc.Free.{Freed, kfree_lem}

abbrev block : ℕ → ℕ → Block
block a n = record { addr = a; size = n; free = false }

abbrev gap : ℕ → ℕ → Block
gap a n = record { addr = a; size = n; free = true }

-- 224 bytes from 4096 on: a piece of 16 in use, a gap of 32, a piece of 8, a gap of 72.
abbrev heap : Heap
heap = record {
  base = 4096;
  total = 224;
  blocks = block 4096 16 ∷ gap 4136 32 ∷ block 4192 8 ∷ gap 4224 72 ∷ [];
}

heap-IsValid : IsValid heap
heap-IsValid = omega arith

-- The first gap fits 20 bytes and is too small to be cut.
malloc_first_fit : kmalloc heap 20 ≡ (
  some 4160,
  record heap { blocks = block 4096 16 ∷ block 4136 32 ∷ block 4192 8 ∷ gap 4224 72 ∷ [] },
)
unfolding kmalloc find_free take_block split
malloc_first_fit = refl

-- 36 bytes are rounded to 40 and cut off the last gap.
malloc_cuts : kmalloc heap 36 ≡ (
  some 4248,
  record heap {
    blocks = block 4096 16 ∷ gap 4136 32 ∷ block 4192 8 ∷ block 4224 40 ∷ gap 4288 8 ∷ [];
  },
)
unfolding kmalloc find_free take_block split
malloc_cuts = refl

-- Freeing the second piece merges three blocks.
free_merges : kfree heap 4216 ≡ some (record heap { blocks = block 4096 16 ∷ gap 4136 160 ∷ [] })
unfolding kfree release coalesce
free_merges = refl

free_size : kmalloc_free_size heap ≡ 104
unfolding kmalloc_free_size
free_size = refl

kmalloc_disjoint_example :
    (4248 % 8 ≡ 0)
    × (4096 + 24 ≤ 4248)
    × (4248 + 36 ≤ 4096 + 224)
    × Clear 4248 36 (live heap.blocks)
kmalloc_disjoint_example =
    kmalloc_disjoint 36 4248 heap-IsValid (omega arith) (ap (λ r. r.0) malloc_cuts)

kmalloc_example :
    (NoFit (align8 36) heap.blocks × (kmalloc heap 36 ≡ (none, heap)))
    ⊎ ((p : ℕ) × ((kmalloc heap 36).0 ≡ some p) × Allocated heap 36 p (kmalloc heap 36).1)
kmalloc_example = kmalloc_lem 36 heap-IsValid (omega arith)

kfree_example : (h' : Heap) × (kfree heap 4216 ≡ some h') × Freed heap ((4120, 16) ∷ []) [] h'
kfree_example = kfree_lem ((4120, 16) ∷ []) [] 4216 8 heap-IsValid refl
