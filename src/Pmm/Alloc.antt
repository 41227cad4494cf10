-- ===== src/Pmm/Alloc.antt =====
-- `pmm_alloc` takes the lowest free page.
use lxtos.Prelude.{
  ℕ, zero, suc, ◌+◌, ◌*◌, ◌<◌, ◌≡◌, refl, arith, if◌then◌else◌, ◌==◌, Bool-cases, inl, inr, ◌⊎◌,
  ◌↔◌, false, ap,
}
use lxtos.Pmm.{Pmm, page_size, mark_used, alloc_from, pmm_alloc}
use lxtos.Pmm.Bits.{bitmap_test-lt}
use lxtos.Pmm.Valid.{IsValid, page_bit, page_bit-mark_used, used-mark_used, mark_used-IsValid}

pub record FirstFree (p : Pmm) (k : ℕ) : Type 0 where
  pub below : k < p.total
  pub free : page_bit p k ≡ 0
  pub lowest : (j : ℕ) → j < k → page_bit p j ≡ 1

abbrev pub AllUsed : Pmm → Type 0
AllUsed p = (j : ℕ) → j < p.total → page_bit p j ≡ 1

module _ {p : Pmm} (v : IsValid p) where
  used_or_free : (j : ℕ) → (page_bit p j == 0) ≡ false → page_bit p j ≡ 1
  used_or_free j e = ground (arith, bitmap_test-lt p.bitmap j v.bytes)

  extend :
      (i : ℕ)
      → ((j : ℕ) → j < i → page_bit p j ≡ 1)
      → page_bit p i ≡ 1
      → (j : ℕ) → j < i + 1
      → page_bit p j ≡ 1
  extend i all e j h = elim (Bool-cases (j == i)) [
    | inl q ↦ let q' : j ≡ i = ground arith in rw q' e
    | inr q ↦ all j (ground arith)
  ]

  alloc_from-cases :
      (rounds i : ℕ)
      → i + rounds ≡ p.total
      → ((j : ℕ) → j < i → page_bit p j ≡ 1)
      → (AllUsed p × (alloc_from rounds i p ≡ (0, p)))
        ⊎ ((k : ℕ) × FirstFree p k × (alloc_from rounds i p ≡ (k * page_size, mark_used p k)))
  unfolding alloc_from
  alloc_from-cases zero i e all = inl (λ j h. all j (omega arith), refl)
  alloc_from-cases (suc rounds) i e all = elim (Bool-cases (page_bit p i == 0)) [
    | inl q ↦ inr (
      i,
      record { below = omega arith; free = ground arith; lowest = all },
      rw q (ap (λ a. (a, mark_used p i)) (omega (arith, v.small))),
    )
    | inr q ↦ rw q (alloc_from-cases rounds (i + 1) (omega arith) (extend i all (used_or_free i q)))
  ]

  pub pmm_alloc-cases :
      (AllUsed p × (pmm_alloc p ≡ (0, p)))
      ⊎ ((k : ℕ) × FirstFree p k × (pmm_alloc p ≡ (k * page_size, mark_used p k)))
  unfolding pmm_alloc
  pmm_alloc-cases = alloc_from-cases p.total 0 (omega arith) (λ j h. absurd (omega arith))

-- What a successful call for page `k` returns and leaves.
pub record Took (p : Pmm) (k : ℕ) (out : ℕ × Pmm) : Type 0 where
  pub first : FirstFree p k
  pub address : out.0 ≡ k * page_size
  pub valid : IsValid out.1
  pub used : out.1.used ≡ p.used + 1
  pub bits : (j : ℕ) → page_bit out.1 j ≡ (if j == k then 1 else page_bit p j)

Took-of_cases :
    {p : Pmm} (v : IsValid p) (k : ℕ) {out : ℕ × Pmm}
    → FirstFree p k
    → out ≡ (k * page_size, mark_used p k)
    → Took p k out
Took-of_cases {p} v k f e = rw e (record {
  first = f;
  address = refl;
  valid = mark_used-IsValid v k f.below f.free;
  used = used-mark_used v k f.below f.free;
  bits = page_bit-mark_used v k f.below;
})

-- On a valid state `pmm_alloc` either finds every page used, and returns 0 and changes nothing, or
-- takes the lowest free page: it returns its address, sets its bit and no other, counts it as
-- used, and keeps the invariant.
pub pmm_alloc_lem :
    {p : Pmm}
    → IsValid p
    → (AllUsed p × (pmm_alloc p ≡ (0, p))) ⊎ ((k : ℕ) × Took p k (pmm_alloc p))
pmm_alloc_lem v = elim (pmm_alloc-cases v) [
  | inl full ↦ inl full
  | inr (k, f, e) ↦ inr (k, Took-of_cases v k f e)
]

-- With page 0 in use, the result 0 says exactly that no page is free.
pub pmm_alloc_zero_iff :
    {p : Pmm} → IsValid p → page_bit p 0 ≡ 1 → ((pmm_alloc p).0 ≡ 0) ↔ AllUsed p
pmm_alloc_zero_iff {p} v low = elim (pmm_alloc-cases v) [
  | inl (full, e) ↦ (λ z. full, λ _. rw e)
  | inr (k, f, e) ↦ (
    λ z. absurd (not_zero k f (rw e at z)),
    λ full. absurd (omega (arith, f.free, full k f.below)),
  )
]
  where
    not_zero : (k : ℕ) → FirstFree p k → k * page_size ≡ 0 → ⊥
    not_zero zero f z = omega (arith, f.free)
    not_zero (suc k) f z = omega arith
