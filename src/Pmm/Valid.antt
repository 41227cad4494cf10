-- ===== src/Pmm/Valid.antt =====
-- The invariant of the page allocator, and what one change of a page does to it.
use lxtos.Prelude.{
  ℕ, ◌+◌, ◌*◌, ◌/◌, ◌^◌, ◌<◌, ◌≡◌, List, arith, length, length-set, if◌then◌else◌, ◌==◌, Bool-cases,
  false, ==_refl, inl, inr,
}
use lxtos.Pmm.{Pmm, dec64, mark_used, release, bitmap_set, bitmap_clear, bitmap_test}
use lxtos.Pmm.Bits.{
  IsBytes, bitmap_set-IsBytes, bitmap_clear-IsBytes, bitmap_test-set, bitmap_test-clear,
  bitmap_test-lt, clear-set,
}
use lxtos.Pmm.Count.{count_used, count-set, count-clear, count-lt, count-le}

-- The counter agrees with the bitmap, and no page number or counter can wrap.
pub record IsValid (p : Pmm) : Type 0 where
  pub bytes : IsBytes p.bitmap
  pub total_eq : p.total ≡ length p.bitmap * 8
  pub small : p.total < 2 ^ 52
  pub used_eq : p.used ≡ count_used p.bitmap p.total

-- Bit `j` of the bitmap: 0 if page `j` is free.
abbrev pub page_bit : Pmm → ℕ → ℕ
page_bit p j = bitmap_test p.bitmap j

length-bitmap_set : (bm : List ℕ) (i : ℕ) → length (bitmap_set bm i) ≡ length bm
unfolding bitmap_set
length-bitmap_set bm i = length-set bm (i / 8) _

length-bitmap_clear : (bm : List ℕ) (i : ℕ) → length (bitmap_clear bm i) ≡ length bm
unfolding bitmap_clear
length-bitmap_clear bm i = length-set bm (i / 8) _

module _ {p : Pmm} (v : IsValid p) (i : ℕ) (h : i < p.total) where
  -- Every access below `total` is inside the bitmap.
  pub page_inside : i / 8 < length p.bitmap
  page_inside = omega (arith, v.total_eq)

  pub page_bit-mark_used :
      (j : ℕ) → page_bit (mark_used p i) j ≡ (if j == i then 1 else page_bit p j)
  page_bit-mark_used j = bitmap_test-set p.bitmap i v.bytes page_inside j

  pub used-mark_used : page_bit p i ≡ 0 → (mark_used p i).used ≡ p.used + 1
  used-mark_used e = omega (arith, count-lt p.bitmap p.total i v.bytes h e, v.used_eq, v.small)

  pub mark_used-IsValid : page_bit p i ≡ 0 → IsValid (mark_used p i)
  mark_used-IsValid e = record {
    bytes = bitmap_set-IsBytes p.bitmap i v.bytes;
    total_eq = omega (arith, length-bitmap_set p.bitmap i, v.total_eq);
    small = v.small;
    used_eq =
        omega (
          arith,
          used-mark_used e,
          v.used_eq,
          count-set p.bitmap i v.bytes page_inside p.total h e,
        );
  }

  pub page_bit-release : (j : ℕ) → page_bit (release p i) j ≡ (if j == i then 0 else page_bit p j)
  unfolding release
  page_bit-release j = ground (arith, bitmap_test-clear p.bitmap i v.bytes page_inside j)

  set_bit : (page_bit p i == 0) ≡ false → page_bit p i ≡ 1
  set_bit e = ground (arith, bitmap_test-lt p.bitmap i v.bytes)

  used_pos : page_bit p i ≡ 1 → dec64 p.used + 1 ≡ p.used
  used_pos e = omega (
    arith,
    v.used_eq,
    v.small,
    count-le p.bitmap p.total v.bytes,
    count-clear p.bitmap i v.bytes page_inside p.total h e,
  )

  cleared-IsValid :
      page_bit p i ≡ 1
      → IsValid (record p { bitmap = bitmap_clear p.bitmap i; used = dec64 p.used })
  cleared-IsValid e = record {
    bytes = bitmap_clear-IsBytes p.bitmap i v.bytes;
    total_eq = omega (arith, length-bitmap_clear p.bitmap i, v.total_eq);
    small = v.small;
    used_eq =
        omega
          (arith, used_pos e, v.used_eq, count-clear p.bitmap i v.bytes page_inside p.total h e);
  }

  pub release-IsValid : IsValid (release p i)
  unfolding release
  release-IsValid = elim (Bool-cases (page_bit p i == 0)) [
    | inl e ↦ rw e v
    | inr e ↦ rw e (cleared-IsValid (set_bit e))
  ]

  -- Releasing a page that has just been taken gives the state back.
  pub release-mark_used : page_bit p i ≡ 0 → release (mark_used p i) i ≡ p
  unfolding release
  release-mark_used e =
      rw (page_bit-mark_used i, ==_refl i)
        (ground (
          arith,
          clear-set p.bitmap i v.bytes e page_inside,
          used-mark_used e,
          v.used_eq,
          v.small,
          count-lt p.bitmap p.total i v.bytes h e,
        ))

pub total-release : (p : Pmm) (i : ℕ) → (release p i).total ≡ p.total
unfolding release
total-release p i = ground arith
