-- ===== src/Fd/Table.antt =====
-- Descriptors are handed out lowest first, and each call changes one entry.
use lxtos.Prelude.{
  ℕ, zero, suc, ◌+◌, ◌<◌, ◌≡◌, ◌≢◌, refl, ap, sym, ◌∙◌, true, false, Option, none, some, [], ◌∷◌,
  leb, set, get_elem?, length, length-set, get_elem?-set_self, get_elem?-set_ne, replicate, arith,
  Bool-cases, Option-cases, none-some, some-inj, inl, inr, ◌⊎◌,
}
use lxtos.Prelude.Int.{ℤ, pos, negsuc}
use lxtos.Fs.{Ptr, minus_one}
use lxtos.Fd.{
  FdEntry, FdTable, fd_max, closed, opened, fd_table_init, alloc_from, alloc_fd, get_fd, free_fd,
}

-- Every entry is in use.
abbrev pub AllUsed : FdTable → Type 0
AllUsed [] = Unit {0}
AllUsed (e ∷ es) = (e.used ≡ true) × AllUsed es

-- Entry `k` is free, and every entry before it is in use.
abbrev pub LowestFree : FdTable → ℕ → Type 0
LowestFree [] k = ⊥
LowestFree (e ∷ es) zero = e.used ≡ false
LowestFree (e ∷ es) (suc k) = (e.used ≡ true) × LowestFree es k

-- Entries that are not in use are clear.
abbrev pub ClearFree : FdTable → Type 0
ClearFree [] = Unit {0}
ClearFree (e ∷ es) = (e.used ≡ false → e ≡ closed) × ClearFree es

pub record IsTable (t : FdTable) : Type 0 where
  pub size : length t ≡ fd_max
  pub clear : ClearFree t

LowestFree-lt : (t : FdTable) (k : ℕ) → LowestFree t k → k < length t
LowestFree-lt [] k l = elim l [ ]
LowestFree-lt (e ∷ es) zero l = omega arith
LowestFree-lt (e ∷ es) (suc k) l = omega (arith, LowestFree-lt es k l.1)

alloc_from-cases :
    (file : Option Ptr) (i : ℕ) (t : FdTable)
    → (AllUsed t × (alloc_from file i t ≡ (minus_one, t)))
      ⊎ ((k : ℕ) × LowestFree t k × (alloc_from file i t ≡ (pos (i + k), set t k (opened file))))
unfolding alloc_from
alloc_from-cases file i [] = inl (tt, refl)
alloc_from-cases file i (e ∷ es) = elim (Bool-cases e.used) [
  | inr q ↦
      let here : i ≡ i + 0 = omega arith in
      inr (0, q, rw q (ap (λ k. (pos k, opened file ∷ es)) here))
  | inl q ↦ elim (alloc_from-cases file (i + 1) es) [
    | inl (u, r) ↦ inl ((q, u), simp (q, r))
    | inr (k, l, r) ↦
        let next : i + 1 + k ≡ i + suc k = omega arith in
        inr (suc k, (q, l), simp (q, r) (ap (λ m. (pos m, e ∷ set es k (opened file))) next))
  ]
]

pub ClearFree-set :
    (t : FdTable) (k : ℕ) (e : FdEntry)
    → (e.used ≡ false → e ≡ closed)
    → ClearFree t
    → ClearFree (set t k e)
ClearFree-set [] k e h c = c
ClearFree-set (x ∷ es) zero e h c = (h, c.1)
ClearFree-set (x ∷ es) (suc k) e h c = (c.0, ClearFree-set es k e h c.1)

opened-clear : (file : Option Ptr) → (opened file).used ≡ false → opened file ≡ closed
opened-clear file e = cc

-- `alloc_fd` either finds every entry in use, and returns -1 and changes nothing, or opens the lowest
-- free entry for the node and returns its number; the table stays one of 64 entries whose free
-- entries are clear.
pub alloc_fd_lem :
    (t : FdTable) (file : Option Ptr)
    → IsTable t
    → (AllUsed t × (alloc_fd t file ≡ (minus_one, t)))
      ⊎ ((k : ℕ) × (k < fd_max)
          × LowestFree t k
          × (alloc_fd t file ≡ (pos k, set t k (opened file)))
          × IsTable (set t k (opened file)))
unfolding alloc_fd
alloc_fd_lem t file v = elim (alloc_from-cases file 0 t) [
  | inl r ↦ inl r
  | inr (k, l, r) ↦
      let below : k < fd_max = omega (arith, LowestFree-lt t k l, v.size) in
      let zero_add : 0 + k ≡ k = omega arith in
      inr (
        k,
        below,
        l,
        r ∙ ap (λ m. (pos m, set t k (opened file))) zero_add,
        record {
          size = length-set t k (opened file) ∙ v.size;
          clear = ClearFree-set t k (opened file) (opened-clear file) v.clear;
        },
      )
]

pos-inj : {k m : ℕ} → pos k ≡ pos m → k ≡ m
pos-inj e = cc

opened_failed : {k : ℕ} → minus_one ≡ pos k → ⊥
opened_failed e = cc

get_fd-set_ne :
    (t : FdTable) (k j : ℕ) (e : FdEntry) → k ≢ j → get_fd (set t k e) (pos j) ≡ get_fd t (pos j)
unfolding get_fd
get_fd-set_ne t k j e h = rw (get_elem?-set_ne t k j e h)

get_fd-opened :
    (t : FdTable) (i : ℕ) (file : Option Ptr)
    → i < length t
    → i < fd_max
    → get_fd (set t i (opened file)) (pos i) ≡ some i
unfolding get_fd
get_fd-opened t i file h below =
    let inside : leb fd_max i ≡ false = ground arith in
    rw (inside, get_elem?-set_self t i (opened file) h)

-- After a successful `alloc_fd` the number leads to its entry, which holds the node with offset 0, and
-- every other number leads where it did.
pub get_fd-alloc :
    (t : FdTable) (file : Option Ptr) (k : ℕ) (t' : FdTable)
    → IsTable t
    → alloc_fd t file ≡ (pos k, t')
    → (get_fd t' (pos k) ≡ some k)
      × (get_elem? t' k ≡ some (opened file))
      × ((j : ℕ) → k ≢ j → get_fd t' (pos j) ≡ get_fd t (pos j))
get_fd-alloc t file k t' v runs = elim (alloc_fd_lem t file v) [
  | inl (u, e) ↦ absurd (opened_failed (ap (λ (r : ℤ × FdTable). r.0) (sym e ∙ runs)))
  | inr (m, below, l, e, w) ↦
      let is_m : m ≡ k = pos-inj (ap (λ (r : ℤ × FdTable). r.0) (sym e ∙ runs)) in
      let is_t : set t m (opened file) ≡ t' = ap (λ (r : ℤ × FdTable). r.1) (sym e ∙ runs) in
      rw (sym is_m, sym is_t)
        (
          get_fd-opened t m file (LowestFree-lt t m l) below,
          get_elem?-set_self t m (opened file) (LowestFree-lt t m l),
          λ j h. get_fd-set_ne t m j (opened file) h,
        )
]

pub free_fd-IsTable : (t : FdTable) (fd : ℤ) → IsTable t → IsTable (free_fd t fd)
unfolding free_fd
free_fd-IsTable t (negsuc n) v = v
free_fd-IsTable t (pos i) v = elim (Bool-cases (leb fd_max i)) [
  | inl q ↦ rw q v
  | inr q ↦ rw q (record {
    size = length-set t i closed ∙ v.size;
    clear = ClearFree-set t i closed (λ e. refl) v.clear;
  })
]

get_fd-closed : (t : FdTable) (i : ℕ) → i < length t → get_fd (set t i closed) (pos i) ≡ none
unfolding get_fd
get_fd-closed t i h = elim (Bool-cases (leb fd_max i)) [
  | inl q ↦ rw q
  | inr q ↦ rw (q, get_elem?-set_self t i closed h)
]

-- After `free_fd` of any number, in range or not, that number leads nowhere, every other number leads
-- where it did, and the table stays one of 64 entries whose free entries are clear.
pub get_fd-free :
    (t : FdTable) (fd : ℤ)
    → IsTable t
    → (get_fd (free_fd t fd) fd ≡ none)
      × ((j : ℕ) → fd ≢ pos j → get_fd (free_fd t fd) (pos j) ≡ get_fd t (pos j))
      × IsTable (free_fd t fd)
unfolding free_fd get_fd
get_fd-free t (negsuc n) v = (refl, (λ j h. refl), v)
get_fd-free t (pos i) v = elim (Bool-cases (leb fd_max i)) [
  | inl q ↦ (rw q, (λ j h. rw q), free_fd-IsTable t (pos i) v)
  | inr q ↦ (
    rw (q, get_elem?-set_self t i closed (ground (arith, v.size))),
    (λ j h. rw q (get_fd-set_ne t i j closed (λ e. h (ap pos e)))),
    free_fd-IsTable t (pos i) v,
  )
]

set-undone :
    (t : FdTable) (k : ℕ) (e : FdEntry)
    → LowestFree t k
    → ClearFree t
    → set (set t k e) k closed ≡ t
set-undone [] k e l c = elim l [ ]
set-undone (x ∷ es) zero e l c = ap (λ y. y ∷ es) (sym (c.0 l))
set-undone (x ∷ es) (suc k) e l c = ap (λ ys. x ∷ ys) (set-undone es k e l.1 c.1)

-- Freeing the number that `alloc_fd` has just returned gives back the table.
pub free_fd-alloc :
    (t : FdTable) (file : Option Ptr) (k : ℕ) (t' : FdTable)
    → IsTable t
    → alloc_fd t file ≡ (pos k, t')
    → free_fd t' (pos k) ≡ t
unfolding free_fd
free_fd-alloc t file k t' v runs = elim (alloc_fd_lem t file v) [
  | inl (u, e) ↦ absurd (opened_failed (ap (λ (r : ℤ × FdTable). r.0) (sym e ∙ runs)))
  | inr (m, below, l, e, w) ↦
      let inside : leb fd_max m ≡ false = ground arith in
      let is_m : m ≡ k = pos-inj (ap (λ (r : ℤ × FdTable). r.0) (sym e ∙ runs)) in
      let is_t : set t m (opened file) ≡ t' = ap (λ (r : ℤ × FdTable). r.1) (sym e ∙ runs) in
      rw (sym is_m, sym is_t, inside) (set-undone t m (opened file) l v.clear)
]

ClearFree-replicate : (n : ℕ) → ClearFree (replicate n closed)
ClearFree-replicate zero = tt
ClearFree-replicate (suc n) = ((λ e. refl), ClearFree-replicate n)

closed_at :
    (n i : ℕ)
    → (get_elem? (replicate n closed) i ≡ none) ⊎ (get_elem? (replicate n closed) i ≡ some closed)
closed_at zero i = inl refl
closed_at (suc n) zero = inr refl
closed_at (suc n) (suc i) = closed_at n i

nothing_open : (fd : ℤ) → get_fd fd_table_init fd ≡ none
unfolding get_fd
nothing_open (negsuc n) = refl
nothing_open (pos i) = elim (Bool-cases (leb fd_max i)) [
  | inl q ↦ rw q
  | inr q ↦ elim (closed_at fd_max i) [ inl e ↦ rw (q, e) | inr e ↦ rw (q, e) ]
]

-- The table after `fd_table_init` has 64 entries, all clear, and no number leads to one.
pub fd_table_init_lem : IsTable fd_table_init × ((fd : ℤ) → get_fd fd_table_init fd ≡ none)
unfolding get_fd
fd_table_init_lem = (record { size = refl; clear = ClearFree-replicate fd_max }, nothing_open)

-- The entry that a number leads to is in use.
pub get_fd-used :
    (t : FdTable) (fd : ℤ) (i : ℕ) {e : FdEntry}
    → get_fd t fd ≡ some i
    → get_elem? t i ≡ some e
    → e.used ≡ true
unfolding get_fd
get_fd-used t (negsuc n) i r a = absurd (none-some r)
get_fd-used t (pos j) i r a = elim (Bool-cases (leb fd_max j)) [
  | inl q ↦ absurd (none-some (rw (q, get_fd) at r))
  | inr q ↦ elim (Option-cases (get_elem? t j)) [
    | inl z ↦ absurd (none-some (rw (q, z, get_fd) at r))
    | inr (x, z) ↦ elim (Bool-cases x.used) [
      | inr u ↦ absurd (none-some (rw (q, z, u, get_fd) at r))
      | inl u ↦
          let same : j ≡ i = some-inj (rw (q, z, u, get_fd) at r) in
          let is_e : x ≡ _ = some-inj (sym z ∙ ap (get_elem? t) same ∙ a) in
          ap (λ (y : FdEntry). y.used) (sym is_e) ∙ u
    ]
  ]
]
