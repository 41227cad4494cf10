-- ===== src/Tmpfs/Grow.antt =====
-- The growth of a file's buffer: allocation, move of the old bytes, release of the old buffer.
use lxtos.Prelude.{
  ℕ, ◌-◌, ◌≤◌, ◌<◌, ◌≡◌, ◌≢◌, ◌^◌, ap, sym, ◌∙◌, some, none, arith, length, replicate,
  length-replicate, take_all, Option, inl, inr, ◌⊎◌, true, false,
}
use lxtos.KString.{kmemcpy}
use lxtos.KString.Memory.{splice, kmemcpy-splice}
use lxtos.KMalloc.{Heap, align8, kmalloc, kfree}
use lxtos.KMalloc.Alloc.{NoFit}
use lxtos.KMalloc.Tiling.{live}
use lxtos.KMalloc.Tiling
use lxtos.KMalloc.Owned.{Holds, kmalloc-Gained, kfree-Lost}
use lxtos.Fs.{TmpfsData, Ptr, Node, State, Buffer, tmpfs, ◌>>=◌, heap_alloc, heap_free}
use lxtos.Fs.Store.{NodeAt, with_node, store_lem}
use lxtos.Tmpfs.{bytes_of, move_old, grow}
use lxtos.Tmpfs.Contents.{contents, IsWellSized, pad, splice_zeros}

-- The buffer of a file is a piece of the heap in use, and another address is not its.
abbrev pub OwnsBuffer : Option Buffer → Heap → Type 0
OwnsBuffer none h = Unit {0}
OwnsBuffer (some b) h = Holds b.addr (live h.blocks)

abbrev pub IsOther : ℕ → Option Buffer → Type 0
IsOther a none = Unit {0}
IsOther a (some b) = b.addr ≢ a

abbrev pub with_heap : State → Heap → State
with_heap s h = record s { heap = h }

pub heap_alloc-none :
    (s : State) (n : ℕ) → kmalloc s.heap n ≡ (none, s.heap) → heap_alloc n s ≡ some (none, s)
unfolding heap_alloc
heap_alloc-none s n e = rw (e, heap_alloc)

pub heap_alloc-some :
    (s : State) (n : ℕ) {a : ℕ} {h : Heap}
    → kmalloc s.heap n ≡ (some a, h)
    → heap_alloc n s ≡ some (some a, with_heap s h)
unfolding heap_alloc
heap_alloc-some s n e = rw (e, heap_alloc)

heap_free_lem :
    (s : State) (a : ℕ) {h : Heap}
    → kfree s.heap a ≡ some h
    → heap_free a s ≡ some (tt, with_heap s h)
unfolding heap_free
heap_free_lem s a e = rw (e, heap_free)

-- The old bytes are moved to the front of the cleared buffer, and the old buffer is freed.
record Moved (buf : Option Buffer) (s : State) (needed : ℕ) (a : ℕ) : Type 0 where
  heap : Heap
  runs :
      move_old buf (length (bytes_of buf)) (replicate needed 0) s
      ≡ some (pad (bytes_of buf) needed, with_heap s heap)
  valid : Tiling.IsValid heap
  owned : Holds a (live heap.blocks)
  kept : (q : ℕ) → IsOther q buf → Holds q (live s.heap.blocks) → Holds q (live heap.blocks)

module _ (s : State) (needed a : ℕ) (v : Tiling.IsValid s.heap)
    (own : Holds a (live s.heap.blocks)) where
  move_old-Moved :
      (buf : Option Buffer)
      → OwnsBuffer buf s.heap
      → IsOther a buf
      → length (bytes_of buf) ≤ needed
      → Moved buf s needed a
  unfolding move_old
  move_old-Moved none o other h = record {
    heap = s.heap;
    runs = let e : needed ≡ needed - 0 = omega arith in ap (λ m. some (replicate m 0, s)) e;
    valid = v;
    owned = own;
    kept = λ q n k. k;
  }
  move_old-Moved (some b) o other h =
      let (h', freed, lost) = kfree-Lost b.addr v o in
      let copied : kmemcpy (replicate needed 0) 0 b.bytes 0 (length b.bytes)
          ≡ some (pad b.bytes needed) =
        kmemcpy-splice (replicate needed 0) 0 b.bytes 0 (length b.bytes)
          (omega (arith, length-replicate {A = ℕ} needed 0)) (omega arith)
        ∙ ap some (
            ap (λ t. splice (replicate needed 0) 0 t)
              (take_all (length b.bytes) b.bytes (omega arith))
            ∙ splice_zeros b.bytes needed) in
      record {
        heap = h';
        runs = rw (copied, ◌>>=◌, heap_free_lem s b.addr freed, ◌>>=◌);
        valid = lost.valid;
        owned = lost.kept a other own;
        kept = λ q n k. lost.kept q n k;
      }

abbrev pub grown_data : TmpfsData → ℕ → ℕ → TmpfsData
grown_data d a needed = record d {
  buf = some (record { addr = a; bytes = pad (contents d) needed });
  buf_size = needed;
}

abbrev pub grown_node : Node → TmpfsData → ℕ → ℕ → Node
grown_node n d a needed = record n { fs_data = tmpfs (grown_data d a needed); size = needed }

pub record Grown (s : State) (p : Ptr) (n : Node) (d : TmpfsData) (needed : ℕ) : Type 0 where
  pub heap : Heap
  pub addr : ℕ
  pub runs :
      grow p n d needed s ≡ some (true, with_node (with_heap s heap) p (grown_node n d addr needed))
  pub valid : Tiling.IsValid heap
  pub owned : Holds addr (live heap.blocks)
  pub kept : (q : ℕ) → IsOther q d.buf → Holds q (live s.heap.blocks) → Holds q (live heap.blocks)
  pub fresh : (q : ℕ) → Holds q (live s.heap.blocks) → addr ≢ q

IsOther-of_fresh :
    (buf : Option Buffer) (h : Heap) (a : ℕ)
    → OwnsBuffer buf h
    → ((q : ℕ) → Holds q (live h.blocks) → a ≢ q)
    → IsOther a buf
IsOther-of_fresh none h a o f = tt
IsOther-of_fresh (some b) h a o f = λ e. f b.addr o (sym e)

owns_mono :
    (buf : Option Buffer) (h h' : Heap)
    → OwnsBuffer buf h
    → ((q : ℕ) → Holds q (live h.blocks) → Holds q (live h'.blocks))
    → OwnsBuffer buf h'
owns_mono none h h' o f = tt
owns_mono (some b) h h' o f = f b.addr o

-- The caller's facts about the file at `p`.
pub record IsFile (s : State) (p : Ptr) (n : Node) (d : TmpfsData) : Type 0 where
  pub at_p : NodeAt s p n
  pub is_tmpfs : n.fs_data ≡ tmpfs d
  pub sized : IsWellSized d
  pub size_eq : n.size ≡ d.buf_size
  pub heap_valid : Tiling.IsValid s.heap
  pub owns : OwnsBuffer d.buf s.heap

pub grow_lem :
    (s : State) (p : Ptr) (n : Node) (d : TmpfsData) (needed : ℕ)
    → IsFile s p n d
    → d.buf_size < needed
    → needed < 2 ^ 63
    → (NoFit (align8 needed) s.heap.blocks × (grow p n d needed s ≡ some (false, s)))
      ⊎ Grown s p n d needed
unfolding grow
grow_lem s p n d needed f more small = elim (kmalloc-Gained needed f.heap_valid (omega arith)) [
  | inl (full, e) ↦ inl (full, rw (heap_alloc-none s needed e, ◌>>=◌))
  | inr (a, h, e, g) ↦
      let s1 = with_heap s h in
      let m =
        move_old-Moved s1 needed a g.valid g.owned d.buf (owns_mono d.buf s.heap h f.owns g.kept)
          (IsOther-of_fresh d.buf s.heap a f.owns g.fresh) (omega (arith, f.sized)) in
      let moved : move_old d.buf d.buf_size (replicate needed 0) s1
          ≡ some (pad (contents d) needed, with_heap s m.heap) =
        rw f.sized m.runs in
      inr (record {
        heap = m.heap;
        addr = a;
        runs = rw (
          heap_alloc-some s needed e,
          ◌>>=◌,
          moved,
          ◌>>=◌,
          store_lem (with_heap s m.heap) p (grown_node n d a needed) f.at_p,
        );
        valid = m.valid;
        owned = m.owned;
        kept = λ q o k. m.kept q o (g.kept q k);
        fresh = g.fresh;
      })
]
