-- ===== src/Pmm.antt =====
-- The physical memory manager, src/mm/pmm.c: a bitmap with one bit for each page (1 is used).
-- The static variables are the fields of `Pmm`; what `pmm_init` prints is left out. A read outside
-- the bitmap gives 0 and a write there changes nothing; `Pmm.Bits` shows that valid states have none.
pub mod Bits
pub mod Count
pub mod Valid
pub mod Alloc
pub mod Free
pub mod Run
pub mod Init
mod Tests
use lxtos.Prelude.{
  ℕ, zero, suc, ◌+◌, ◌-◌, ◌*◌, ◌/◌, ◌%◌, ◌^◌, bit_and, bit_or, Bool, true, false, not, ◌||◌, Option,
  none, some, List, [], ◌∷◌, ltb, leb, ◌==◌, if◌then◌else◌, length, set, get_or, replicate,
}

abbrev pub page_size : ℕ
page_size = 4096

-- `pmm_bitmap`, `pmm_total`, `pmm_used`, `pmm_total_ram`
pub record Pmm : Type 0 where
  pub bitmap : List ℕ
  pub total : ℕ
  pub used : ℕ
  pub total_ram : ℕ

-- `x++` and `x--` on a `uint64_t`
abbrev pub inc64 : ℕ → ℕ
inc64 x = (x + 1) % 2 ^ 64

abbrev pub dec64 : ℕ → ℕ
dec64 x = (x + 2 ^ 64 - 1) % 2 ^ 64

unfoldable pub bitmap_set : List ℕ → ℕ → List ℕ
bitmap_set bm page = set bm (page / 8) (bit_or (get_or bm (page / 8) 0) (2 ^ (page % 8)))

unfoldable pub bitmap_clear : List ℕ → ℕ → List ℕ
bitmap_clear bm page = set bm (page / 8) (bit_and (get_or bm (page / 8) 0) (255 - 2 ^ (page % 8)))

-- the bit itself, 0 or 1
unfoldable pub bitmap_test : List ℕ → ℕ → ℕ
bitmap_test bm page = bit_and (get_or bm (page / 8) 0 / 2 ^ (page % 8)) 1

-- `bitmap_set(i); pmm_used++;`
abbrev pub mark_used : Pmm → ℕ → Pmm
mark_used p i = record p { bitmap = bitmap_set p.bitmap i; used = inc64 p.used }

-- `if (bitmap_test(i)) { bitmap_clear(i); pmm_used--; }`
unfoldable pub release : Pmm → ℕ → Pmm
release p i =
    if bitmap_test p.bitmap i == 0
    then p
    else record p { bitmap = bitmap_clear p.bitmap i; used = dec64 p.used }

-- The loop of `pmm_alloc` at `i`, with `total - i` rounds left.
alloc_from : ℕ → ℕ → Pmm → ℕ × Pmm
alloc_from zero i p = (0, p)
alloc_from (suc rounds) i p =
    let rest = alloc_from rounds (i + 1) p in
    if bitmap_test p.bitmap i == 0 then (i * page_size % 2 ^ 64, mark_used p i) else rest

unfoldable pub pmm_alloc : Pmm → ℕ × Pmm
unfolding alloc_from
pmm_alloc p = alloc_from p.total 0 p

unfoldable pub pmm_free : Pmm → ℕ → Pmm
unfolding release
pmm_free p phys = if leb p.total (phys / page_size) then p else release p (phys / page_size)

-- `for (j = 0; j < n; j++) if (bitmap_test(i + j)) break;`: whether it ends with `j == n`.
run_is_free : List ℕ → ℕ → ℕ → Bool
run_is_free bm i zero = true
run_is_free bm i (suc n) = elim (bitmap_test bm i == 0) [
  | true ↦ run_is_free bm (i + 1) n
  | false ↦ false
]

mark_run : Pmm → ℕ → ℕ → Pmm
mark_run p i zero = p
mark_run p i (suc n) = mark_run (mark_used p i) (i + 1) n

-- The outer loop of `pmm_alloc_n`; `total + 1` rounds are enough, since `i` grows.
alloc_n_from : ℕ → ℕ → Pmm → ℕ → ℕ × Pmm
unfolding run_is_free mark_run
alloc_n_from zero i p n = (0, p)
alloc_n_from (suc rounds) i p n =
    let rest = alloc_n_from rounds (i + 1) p n in
    if leb ((i + n) % 2 ^ 64) p.total
    then (if run_is_free p.bitmap i n then (i * page_size % 2 ^ 64, mark_run p i n) else rest)
    else (0, p)

unfoldable pub pmm_alloc_n : Pmm → ℕ → ℕ × Pmm
unfolding alloc_n_from
pmm_alloc_n p n = alloc_n_from (p.total + 1) 0 p n

-- `struct limine_memmap_entry`, and the types of limine.h that the code reads
pub record Entry : Type 0 where
  pub base : ℕ
  pub len : ℕ
  pub kind : ℕ

abbrev pub usable : ℕ
usable = 0

abbrev pub bootloader_reclaimable : ℕ
bootloader_reclaimable = 5

abbrev pub kernel_and_modules : ℕ
kernel_and_modules = 6

-- The loop over the pages of an entry, from page `idx` on.
release_pages : ℕ → ℕ → Pmm → Pmm
unfolding release
release_pages zero idx p = p
release_pages (suc pages) idx p = elim (leb p.total idx) [
  | true ↦ p
  | false ↦ release_pages pages (idx + 1) (release p idx)
]

count_ram : Entry → Pmm → Pmm
count_ram e p =
    if e.kind == usable || e.kind == bootloader_reclaimable || e.kind == kernel_and_modules
    then record p { total_ram = (p.total_ram + e.len) % 2 ^ 64 }
    else p

add_entry : Entry → Pmm → Pmm
unfolding release_pages count_ram
add_entry e p =
    let p' = count_ram e p in
    if e.kind == usable then release_pages (e.len / page_size) (e.base / page_size) p' else p'

add_entries : List Entry → Pmm → Pmm
unfolding add_entry
add_entries [] p = p
add_entries (e ∷ es) p = add_entries es (add_entry e p)

-- `kmemset(pmm_bitmap, 0xFF, sizeof(pmm_bitmap)); pmm_total = ...; pmm_used = pmm_total;`
abbrev pub all_used : Pmm → Pmm
all_used p = record p {
  bitmap = replicate (length p.bitmap) 255;
  total = length p.bitmap * 8;
  used = length p.bitmap * 8;
}

-- `none` stands for a missing response of the boot loader.
unfoldable pub pmm_init : Pmm → Option (List Entry) → Pmm
unfolding add_entries
pmm_init p none = all_used p
pmm_init p (some es) = add_entries es (all_used p)

unfoldable pub pmm_free_pages : Pmm → ℕ
pmm_free_pages p = (p.total + 2 ^ 64 - p.used) % 2 ^ 64

abbrev pub pmm_total_pages : Pmm → ℕ
pmm_total_pages p = p.total

abbrev pub pmm_total_bytes : Pmm → ℕ
pmm_total_bytes p = p.total_ram
