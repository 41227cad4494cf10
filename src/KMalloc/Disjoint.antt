-- ===== src/KMalloc/Disjoint.antt =====
-- The memory that `kmalloc` of src/lib/kmalloc.c hands out is apart from all memory in use.
use lxtos.Prelude.{
  ℕ, ◌+◌, ◌-◌, ◌%◌, ◌^◌, ◌≤◌, ◌≡◌, some, List, [], ◌∷◌, ◌++◌, arith, ◌⊎◌, inl, inr, none-some,
  some-inj, sym, ◌∙◌,
}
use lxtos.KMalloc.{Heap, header, kmalloc, kmalloc_aligned}
use lxtos.KMalloc.Tiling.{IsValid, live, Apart, live_disjoint}
use lxtos.KMalloc.Alloc.{kmalloc_lem}

-- The `n` bytes at `p` share none with the pieces.
abbrev pub Clear : ℕ → ℕ → List (ℕ × ℕ) → Type 0
Clear p n [] = Unit {0}
Clear p n ((a, k) ∷ l) = ((a + k ≤ p) ⊎ (p + n ≤ a)) × Clear p n l

Clear-behind : (p n s e : ℕ) (l : List (ℕ × ℕ)) → Apart s e l → p + n ≤ s → Clear p n l
Clear-behind p n s e [] t h = tt
Clear-behind p n s e ((a, k) ∷ l) t h =
    (inr (omega (arith, t.0)), Clear-behind p n (a + k) e l t.2 (omega (arith, t.0)))

Apart-le : (s e : ℕ) (l : List (ℕ × ℕ)) → Apart s e l → s ≤ e
Apart-le s e [] t = t
Apart-le s e ((a, k) ∷ l) t = omega (arith, t.0, Apart-le (a + k) e l t.2)

-- A piece of such a list is inside, aligned, and apart from the others.
piece_lem :
    (s e p n size : ℕ) (xs ys : List (ℕ × ℕ))
    → Apart s e (xs ++ (p, size) ∷ ys)
    → n ≤ size
    → (p % 8 ≡ 0) × (s + header ≤ p) × (p + n ≤ e) × Clear p n (xs ++ ys)
piece_lem s e p n size [] ys t h = (
  t.1,
  t.0,
  omega (arith, Apart-le (p + size) e ys t.2),
  Clear-behind p n (p + size) e ys t.2 (omega arith),
)
piece_lem s e p n size ((a, k) ∷ xs) ys t h =
    let r = piece_lem (a + k) e p n size xs ys t.2 h in
    (r.0, omega (arith, t.0, r.1), r.2, (inl (omega (arith, r.1)), r.3))

same_extent :
    (h : Heap) (n : ℕ) → ((kmalloc h n).1.base ≡ h.base) × ((kmalloc h n).1.total ≡ h.total)
unfolding kmalloc kmalloc_aligned
same_extent h n = ground arith

-- In a valid heap, where kmalloc of up to 2^64 - 8 bytes returns an address, it is a multiple of 8, and the
-- bytes asked for lie there inside the heap, behind room for a header, and share none with the memory in use
-- before the call.
pub kmalloc_disjoint :
    {h : Heap} (n p : ℕ)
    → IsValid h
    → n ≤ 2 ^ 64 - 8
    → (kmalloc h n).0 ≡ some p
    → (p % 8 ≡ 0) × (h.base + header ≤ p) × (p + n ≤ h.base + h.total) × Clear p n (live h.blocks)
kmalloc_disjoint {h} n p v small runs = elim (kmalloc_lem n v small) [
  | inl (full, e) ↦ absurd (none-some (sym (λ i. (e i).0) ∙ runs))
  | inr (q, e, a) ↦
      let same : q ≡ p = some-inj (sym e ∙ runs) in
      let (base, total) = same_extent h n in
      let tiles = live_disjoint a.valid in
      let r =
        piece_lem (kmalloc h n).1.base ((kmalloc h n).1.base + (kmalloc h n).1.total) q n a.size
          a.before a.behind (rw a.new at tiles) a.enough in
      rw (← same, a.old) (r.0, omega (arith, r.1), omega (arith, r.2), r.3)
]
