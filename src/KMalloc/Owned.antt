-- ===== src/KMalloc/Owned.antt =====
-- Ownership of one piece of memory, and how the allocator's calls keep it.
use lxtos.Prelude.{
  ℕ, ◌+◌, ◌-◌, ◌^◌, ◌≤◌, ◌≡◌, ◌≢◌, refl, some, none, List, [], ◌∷◌, ◌++◌, arith, ap, ◌⊎◌, inl, inr,
}
use lxtos.KMalloc.{Heap, header, align8, kmalloc, kfree}
use lxtos.KMalloc.Tiling.{IsValid, live, Apart, live_disjoint}
use lxtos.KMalloc.Alloc.{NoFit, Allocated, kmalloc_lem}
use lxtos.KMalloc.Free.{kfree_lem}

-- A piece that starts at `a` is in the list.
abbrev pub Holds : ℕ → List (ℕ × ℕ) → Type 0
Holds a [] = ⊥
Holds a ((p, n) ∷ l) = (p ≡ a) ⊎ Holds a l

Holds-split :
    (a : ℕ) (l : List (ℕ × ℕ))
    → Holds a l
    → (before : List (ℕ × ℕ)) × (behind : List (ℕ × ℕ)) × (n : ℕ) × (l ≡ before ++ (a, n) ∷ behind)
Holds-split a [] h = elim h [ ]
Holds-split a ((p, n) ∷ l) (inl e) = ([], l, n, ap (λ k. (k, n) ∷ l) e)
Holds-split a ((p, n) ∷ l) (inr h) =
    let (before, behind, m, e) = Holds-split a l h in
    ((p, n) ∷ before, behind, m, ap (λ t. (p, n) ∷ t) e)

Holds-insert :
    (a : ℕ) (xs ys : List (ℕ × ℕ)) (y : ℕ × ℕ) → Holds a (xs ++ ys) → Holds a (xs ++ y ∷ ys)
Holds-insert a [] ys y h = inr h
Holds-insert a ((p, n) ∷ xs) ys y (inl e) = inl e
Holds-insert a ((p, n) ∷ xs) ys y (inr h) = inr (Holds-insert a xs ys y h)

Holds-new : (xs ys : List (ℕ × ℕ)) (p n : ℕ) → Holds p (xs ++ (p, n) ∷ ys)
Holds-new [] ys p n = inl refl
Holds-new ((q, m) ∷ xs) ys p n = inr (Holds-new xs ys p n)

Holds-remove :
    (a : ℕ) (xs ys : List (ℕ × ℕ)) (p n : ℕ)
    → p ≢ a
    → Holds a (xs ++ (p, n) ∷ ys)
    → Holds a (xs ++ ys)
Holds-remove a [] ys p n ne (inl e) = absurd (ne e)
Holds-remove a [] ys p n ne (inr h) = h
Holds-remove a ((q, m) ∷ xs) ys p n ne (inl e) = inl e
Holds-remove a ((q, m) ∷ xs) ys p n ne (inr h) = inr (Holds-remove a xs ys p n ne h)

Holds-above : (a s e : ℕ) (l : List (ℕ × ℕ)) → Apart s e l → Holds a l → s + header ≤ a
Holds-above a s e [] t h = elim h [ ]
Holds-above a s e ((p, n) ∷ l) t (inl q) = omega (arith, t.0)
Holds-above a s e ((p, n) ∷ l) t (inr h) = omega (arith, t.0, Holds-above a (p + n) e l t.2 h)

-- The pieces of a valid heap have distinct addresses.
Holds-ne :
    (a s e : ℕ) (xs ys : List (ℕ × ℕ)) (p n : ℕ)
    → Apart s e (xs ++ (p, n) ∷ ys)
    → Holds a (xs ++ ys)
    → p ≢ a
Holds-ne a s e [] ys p n t h = omega (arith, Holds-above a (p + n) e ys t.2 h)
Holds-ne a s e ((q, m) ∷ xs) ys p n t (inl d) =
    omega (arith, Holds-above p (q + m) e (xs ++ (p, n) ∷ ys) t.2 (Holds-new xs ys p n))
Holds-ne a s e ((q, m) ∷ xs) ys p n t (inr h) = Holds-ne a (q + m) e xs ys p n t.2 h

-- A successful `kmalloc`: the new piece is owned and is none of the old ones, which stay owned.
pub record Gained (h : Heap) (p : ℕ) (h' : Heap) : Type 0 where
  pub valid : IsValid h'
  pub owned : Holds p (live h'.blocks)
  pub fresh : (a : ℕ) → Holds a (live h.blocks) → p ≢ a
  pub kept : (a : ℕ) → Holds a (live h.blocks) → Holds a (live h'.blocks)

Gained-of : {h : Heap} {n p : ℕ} {h' : Heap} → Allocated h n p h' → Gained h p h'
Gained-of {h} {n} {p} {h'} a = record {
  valid = a.valid;
  owned = rw a.new (Holds-new a.before a.behind p a.size);
  fresh = λ q k.
      Holds-ne q h'.base (h'.base + h'.total) a.before a.behind p a.size
        (rw a.new at (live_disjoint a.valid)) (rw a.old at k);
  kept = λ q k. rw a.new (Holds-insert q a.before a.behind (p, a.size) (rw a.old at k));
}

pub kmalloc-Gained :
    {h : Heap} (n : ℕ)
    → IsValid h
    → n ≤ 2 ^ 64 - 8
    → (NoFit (align8 n) h.blocks × (kmalloc h n ≡ (none, h)))
      ⊎ ((p : ℕ) × (h' : Heap) × (kmalloc h n ≡ (some p, h')) × Gained h p h')
kmalloc-Gained {h} n v small = elim (kmalloc_lem n v small) [
  | inl (full, e) ↦ inl (full, e)
  | inr (p, e, a) ↦ inr (p, (kmalloc h n).1, (λ i. (e i, (kmalloc h n).1)), Gained-of a)
]

-- A `kfree` of an owned piece: it succeeds, and every other piece stays owned.
pub record Lost (h : Heap) (p : ℕ) (h' : Heap) : Type 0 where
  pub valid : IsValid h'
  pub kept : (a : ℕ) → p ≢ a → Holds a (live h.blocks) → Holds a (live h'.blocks)

pub kfree-Lost :
    {h : Heap} (p : ℕ)
    → IsValid h
    → Holds p (live h.blocks)
    → (h' : Heap) × (kfree h p ≡ some h') × Lost h p h'
kfree-Lost {h} p v k =
    let (before, behind, n, e) = Holds-split p (live h.blocks) k in
    let (h', runs, f) = kfree_lem before behind p n v e in
    (
      h',
      runs,
      record {
        valid = f.valid;
        kept = λ a ne q. rw f.rest (Holds-remove a before behind p n ne (rw e at q));
      },
    )
