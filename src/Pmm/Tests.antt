-- ===== src/Pmm/Tests.antt =====
-- The page allocator at concrete states, and its theorems there.
use lxtos.Prelude.{
  ℕ, ◌/◌, ◌<◌, ◌≡◌, ◌↔◌, refl, ◌⊎◌, some, List, [], ◌∷◌, arith, ltb, ◌&&◌, ◌==◌, if◌then◌else◌,
}
use lxtos.Pmm.{
  Pmm, Entry, page_size, bitmap_test, bitmap_set, bitmap_clear, pmm_alloc, pmm_alloc_n, pmm_free,
  pmm_init,
}
use lxtos.Pmm.Valid.{IsValid, page_bit}
use lxtos.Pmm.Alloc.{AllUsed, Took, pmm_alloc_lem}
use lxtos.Pmm.Free.{pmm_free_lem, pmm_free-alloc}
use lxtos.Pmm.Run.{NoRun, TookRun, pmm_alloc_n_lem}
use lxtos.Pmm.Init.{AreAligned, InUsable, pmm_init_lem}

-- Sixteen pages, of which 0 to 3 and 5 are in use.
abbrev pages : Pmm
pages = record { bitmap = 0x2f ∷ 0 ∷ []; total = 16; used = 5; total_ram = 0 }

abbrev memory_map : List Entry
memory_map =
    record { base = 0; len = 0x1000; kind = 1 }
    ∷ record { base = 0x1000; len = 0x3fff; kind = 0 }
    ∷ record { base = 0xf000; len = 0x10000; kind = 0 }
    ∷ []

alloc_lowest : (pmm_alloc pages).0 ≡ 0x4000
unfolding pmm_alloc bitmap_test bitmap_set
alloc_lowest = refl

alloc_run : pmm_alloc_n pages 3 ≡ (0x6000, record pages { bitmap = 0xef ∷ 1 ∷ []; used = 8 })
unfolding pmm_alloc_n bitmap_test bitmap_set
alloc_run = refl

init_pages :
    pmm_init (record { bitmap = 0 ∷ 0 ∷ []; total = 0; used = 0; total_ram = 0 }) (some memory_map)
    ≡ record { bitmap = 0xf1 ∷ 0x7f ∷ []; total = 16; used = 12; total_ram = 0x13fff }
unfolding pmm_init bitmap_test bitmap_clear
init_pages = refl

pages-IsValid : IsValid pages
unfolding bitmap_test
pages-IsValid = record { bytes = omega arith; total_eq = refl; small = omega arith; used_eq = refl }

pmm_alloc_example :
    (AllUsed pages × (pmm_alloc pages ≡ (0, pages))) ⊎ ((k : ℕ) × Took pages k (pmm_alloc pages))
pmm_alloc_example = pmm_alloc_lem pages-IsValid

pmm_free_example :
    IsValid (pmm_free pages 0x5123)
    × ((j : ℕ)
        → page_bit (pmm_free pages 0x5123) j ≡ (
            if ltb (0x5123 / page_size) 16 && j == 0x5123 / page_size then 0 else page_bit pages j))
pmm_free_example = pmm_free_lem 0x5123 pages-IsValid

pmm_free-alloc_example : pmm_free (pmm_alloc pages).1 (pmm_alloc pages).0 ≡ pages
unfolding bitmap_test
pmm_free-alloc_example = pmm_free-alloc 7 pages-IsValid (omega arith) refl

pmm_alloc_n_example :
    (NoRun pages 3 × (pmm_alloc_n pages 3 ≡ (0, pages)))
    ⊎ ((k : ℕ) × TookRun pages 3 k (pmm_alloc_n pages 3))
pmm_alloc_n_example = pmm_alloc_n_lem 3 pages-IsValid (omega arith)

aligned : AreAligned memory_map
aligned = (λ e. refl, (λ e. refl, (λ e. refl, tt)))

pmm_init_example :
    IsValid (pmm_init pages (some memory_map))
    × ((pmm_init pages (some memory_map)).total ≡ 16)
    × ((j : ℕ)
        → j < 16
        → (page_bit (pmm_init pages (some memory_map)) j ≡ 0) ↔ InUsable memory_map j)
pmm_init_example = pmm_init_lem pages memory_map (omega arith) aligned
