-- ===== src/Pmm/Free.antt =====
-- `pmm_free`, and that it undoes `pmm_alloc`.
use lxtos.Prelude.{
  ℕ, ◌*◌, ◌/◌, ◌<◌, ◌≡◌, arith, if◌then◌else◌, ◌==◌, Bool-cases, inl, inr, leb, ltb, ◌&&◌,
}
use lxtos.Pmm.{Pmm, page_size, pmm_alloc, pmm_free}
use lxtos.Pmm.Valid.{IsValid, page_bit, page_bit-release, release-IsValid, release-mark_used}
use lxtos.Pmm.Alloc.{pmm_alloc-cases}

-- `pmm_free` of any address keeps the invariant, frees the page that holds the address if the
-- bitmap has one, and changes no other page.
pub pmm_free_lem :
    {p : Pmm} (phys : ℕ)
    → IsValid p
    → IsValid (pmm_free p phys)
      × ((j : ℕ)
          → page_bit (pmm_free p phys) j
            ≡ (if ltb (phys / page_size) p.total && j == phys / page_size then 0 else page_bit p j))
unfolding pmm_free
pmm_free_lem {p} phys v = elim (Bool-cases (leb p.total (phys / page_size))) [
  | inl e ↦ rw e (v, λ j. ground arith)
  | inr e ↦
      let h : phys / page_size < p.total = ground arith in
      rw e (release-IsValid v _ h, λ j. ground (arith, page_bit-release v (phys / page_size) h j))
]

-- Freeing the page that `pmm_alloc` has just returned gives back the state, bit for bit.
pub pmm_free-alloc :
    {p : Pmm} (i : ℕ)
    → IsValid p
    → i < p.total
    → page_bit p i ≡ 0
    → pmm_free (pmm_alloc p).1 (pmm_alloc p).0 ≡ p
unfolding pmm_free
pmm_free-alloc {p} i v h free = elim (pmm_alloc-cases v) [
  | inl (full, e) ↦ absurd (omega (arith, full i h))
  | inr (k, f, e) ↦
      let page : k * page_size / page_size ≡ k = omega arith in
      rw (e, page) (ground (arith, f.below, release-mark_used v k f.below f.free))
]
