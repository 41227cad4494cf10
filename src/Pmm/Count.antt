-- ===== src/Pmm/Count.antt =====
-- The number of used pages, counted in the bitmap.
use lxtos.Prelude.{ℕ, zero, suc, ◌+◌, ◌*◌, ◌/◌, ◌≤◌, ◌<◌, ◌≡◌, refl, List, arith, length, replicate}
use lxtos.Pmm.{bitmap_set, bitmap_clear, bitmap_test}
use lxtos.Pmm.Bits.{IsBytes, bitmap_test-set, bitmap_test-clear, bitmap_test-full, bitmap_test-lt}

abbrev pub count_used : List ℕ → ℕ → ℕ
count_used bm zero = 0
count_used bm (suc n) = count_used bm n + bitmap_test bm n

module _ (bm : List ℕ) (i : ℕ) (h : IsBytes bm) (inside : i / 8 < length bm) where
  count-set_outside : (n : ℕ) → n ≤ i → count_used (bitmap_set bm i) n ≡ count_used bm n
  count-set_outside zero p = refl
  count-set_outside (suc n) p =
      ground (arith, count-set_outside n (omega arith), bitmap_test-set bm i h inside n)

  -- A free page below `n` that becomes used counts for one.
  pub count-set :
      (n : ℕ) → i < n → bitmap_test bm i ≡ 0 → count_used (bitmap_set bm i) n ≡ count_used bm n + 1
  count-set zero p e = absurd (omega arith)
  count-set (suc n) p e =
      ground (arith, count-set n, count-set_outside n, bitmap_test-set bm i h inside n)

  count-clear_outside : (n : ℕ) → n ≤ i → count_used (bitmap_clear bm i) n ≡ count_used bm n
  count-clear_outside zero p = refl
  count-clear_outside (suc n) p =
      ground (arith, count-clear_outside n (omega arith), bitmap_test-clear bm i h inside n)

  pub count-clear :
      (n : ℕ)
      → i < n
      → bitmap_test bm i ≡ 1
      → count_used (bitmap_clear bm i) n + 1 ≡ count_used bm n
  count-clear zero p e = absurd (omega arith)
  count-clear (suc n) p e =
      ground (arith, count-clear n, count-clear_outside n, bitmap_test-clear bm i h inside n)

pub count-le : (bm : List ℕ) (n : ℕ) → IsBytes bm → count_used bm n ≤ n
count-le bm zero h = omega arith
count-le bm (suc n) h = omega (arith, count-le bm n h, bitmap_test-lt bm n h)

-- A free page is not counted, so the count stays below.
pub count-lt :
    (bm : List ℕ) (n i : ℕ) → IsBytes bm → i < n → bitmap_test bm i ≡ 0 → count_used bm n < n
count-lt bm zero i h p e = absurd (omega arith)
count-lt bm (suc n) i h p e =
    ground (arith, count-lt bm n i h, count-le bm n h, bitmap_test-lt bm n h)

pub count-full : (n m : ℕ) → m ≤ n * 8 → count_used (replicate n 255) m ≡ m
count-full n zero h = refl
count-full n (suc m) h =
    omega (arith, count-full n m (omega arith), bitmap_test-full n m (omega arith))
