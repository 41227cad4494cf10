-- ===== src/Tmpfs/Write.antt =====
-- `tmpfs_write` lays the new bytes over the file.
use lxtos.Prelude.{
  ℕ, ◌+◌, ◌%◌, ◌≤◌, ◌<◌, ◌≡◌, ◌^◌, refl, ap, sym, ◌∙◌, some, List, arith, length, ltb, Bool-cases,
  inl, inr, ◌⊎◌, true, false, lt→ltb, ltb→lt, le→ltb_false,
}
use lxtos.Prelude.Int.{pos}
use lxtos.KString.Memory.{splice}
use lxtos.KMalloc.{align8}
use lxtos.KMalloc.Alloc.{NoFit}
use lxtos.Fs.{TmpfsData, Ptr, Node, State, minus_one, ◌>>=◌}
use lxtos.Fs.Store.{with_node, load_lem, with_node_ne}
use lxtos.Tmpfs.{tmpfs_write}
use lxtos.Tmpfs.Contents.{contents, pad_short}
use lxtos.Tmpfs.Grow.{with_heap, IsFile, grown_data, grown_node, grow_lem}
use lxtos.Tmpfs.Copy.{
  Wrote, new_data, new_node, copied-IsFile, copied-contents, copy_in_runs, grown-IsFile,
}
use lxtos.Tmpfs.Read.{tmpfs_of_lem}

-- The test of `tmpfs_write`, and what it does on each side.
write_in_place :
    (s : State) (p : Ptr) (n : Node) (d : TmpfsData) (src : List ℕ) (offset : ℕ)
    → IsFile s p n d
    → offset + length src < 2 ^ 63
    → offset + length src ≤ d.buf_size
    → (s' : State) × (tmpfs_write p src offset (length src) s ≡ some (pos (length src), s'))
      × Wrote s p n d offset src s'
unfolding tmpfs_write
write_in_place s p n d src offset f small room =
    let fits : ltb d.buf_size ((offset + length src) % 2 ^ 64) ≡ false =
      le→ltb_false _ _ (omega arith) in
    let inside : offset + length src ≤ length (contents d) = omega (arith, f.sized) in
    (
      with_node s p (new_node s p n d src offset),
      rw
          (
            load_lem s p f.at_p,
            ◌>>=◌,
            tmpfs_of_lem n f.is_tmpfs,
            ◌>>=◌,
            fits,
            copy_in_runs s p n d src offset f inside,
            ◌>>=◌,
          )
          (ap (λ k. some (k, with_node s p (new_node s p n d src offset))) (ground arith)),
      record {
        buf = (new_data s p n d src offset).buf;
        buf_size = d.buf_size;
        size = n.size;
        file = copied-IsFile s p n d src offset f inside;
        result =
            copied-contents s p n d src offset f inside
            ∙ ap (λ t. splice t offset src)
                (sym (pad_short (contents d) (offset + length src) inside));
        others = λ q h. with_node_ne s p q (new_node s p n d src offset) h;
        kept = λ q o k. k;
        same = refl;
      },
    )

write_grown :
    (s : State) (p : Ptr) (n : Node) (d : TmpfsData) (src : List ℕ) (offset : ℕ)
    → IsFile s p n d
    → offset + length src < 2 ^ 63
    → d.buf_size < offset + length src
    → (NoFit (align8 (offset + length src)) s.heap.blocks
        × (tmpfs_write p src offset (length src) s ≡ some (minus_one, s)))
      ⊎ ((s' : State) × (tmpfs_write p src offset (length src) s ≡ some (pos (length src), s'))
          × Wrote s p n d offset src s')
unfolding tmpfs_write
write_grown s p n d src offset f small more =
    let sum : (offset + length src) % 2 ^ 64 ≡ offset + length src = omega arith in
    let grows : ltb d.buf_size (offset + length src) ≡ true = lt→ltb _ _ more in
    elim (grow_lem s p n d (offset + length src) f more small) [
      | inl (full, e) ↦ inl (
        full,
        rw (load_lem s p f.at_p, ◌>>=◌, tmpfs_of_lem n f.is_tmpfs, ◌>>=◌, sum, grows, e, ◌>>=◌),
      )
      | inr g ↦
          let s1 = with_node (with_heap s g.heap) p (grown_node n d g.addr (offset + length src)) in
          let n1 = grown_node n d g.addr (offset + length src) in
          let d1 = grown_data d g.addr (offset + length src) in
          let f1 = grown-IsFile s p n d (offset + length src) f more g in
          let inside : offset + length src ≤ length (contents d1) = omega (arith, f1.sized) in
          inr (
            with_node s1 p (new_node s1 p n1 d1 src offset),
            rw
                (
                  load_lem s p f.at_p,
                  ◌>>=◌,
                  tmpfs_of_lem n f.is_tmpfs,
                  ◌>>=◌,
                  sum,
                  grows,
                  g.runs,
                  ◌>>=◌,
                  copy_in_runs s1 p n1 d1 src offset f1 inside,
                  ◌>>=◌,
                )
                (ap (λ k. some (k, with_node s1 p (new_node s1 p n1 d1 src offset)))
                  (ground arith)),
            record {
              buf = (new_data s1 p n1 d1 src offset).buf;
              buf_size = offset + length src;
              size = offset + length src;
              file = copied-IsFile s1 p n1 d1 src offset f1 inside;
              result = copied-contents s1 p n1 d1 src offset f1 inside;
              others = λ q h.
                  with_node_ne s1 p q (new_node s1 p n1 d1 src offset) h
                  ∙ with_node_ne (with_heap s g.heap) p q n1 h;
              kept = g.kept;
              same = refl;
            },
          )
    ]

-- A write to a file, at an offset and of a length whose sum is below 2^63, does not fault: either it needs a
-- larger buffer and no free block of the heap is large enough for it, and it returns -1 and changes nothing,
-- or it returns the length and leaves the file with the new bytes laid over it, with zeros between; then
-- nothing changes but the buffer and the sizes of the file and the heap, which stays valid and keeps what
-- else is in use.
pub tmpfs_write_lem :
    (s : State) (p : Ptr) (n : Node) (d : TmpfsData) (src : List ℕ) (offset : ℕ)
    → IsFile s p n d
    → offset + length src < 2 ^ 63
    → ((d.buf_size < offset + length src)
        × NoFit (align8 (offset + length src)) s.heap.blocks
        × (tmpfs_write p src offset (length src) s ≡ some (minus_one, s)))
      ⊎ ((s' : State) × (tmpfs_write p src offset (length src) s ≡ some (pos (length src), s'))
          × Wrote s p n d offset src s')
tmpfs_write_lem s p n d src offset f small =
    elim (Bool-cases (ltb d.buf_size (offset + length src))) [
      | inl more ↦
          let h = ltb→lt _ _ more in
          elim (write_grown s p n d src offset f small h) [
            | inl e ↦ inl (h, e.0, e.1)
            | inr r ↦ inr r
          ]
      | inr fits ↦ inr (write_in_place s p n d src offset f small (ground arith))
    ]
