-- ===== src/Tmpfs/Add.antt =====
-- `tmpfs_mkdir` and `tmpfs_mkfile`: a new node at the end of its directory.
use lxtos.Prelude.{
  ℕ, ◌-◌, ◌≤◌, ◌<◌, ◌≡◌, ◌≢◌, ◌^◌, refl, sym, ◌∙◌, some, none, List, [], ◌∷◌, ◌++◌, arith, length,
  leb, if◌then◌else◌, Option, Bool-cases, inl, inr, ◌⊎◌, get_elem?, is_some, get_elem?-append_last,
  get_elem?-append_left, get_elem?-lt,
}
use lxtos.KString.{CString, kstrcpy}
use lxtos.KMalloc.{Heap}
use lxtos.KMalloc.Tiling
use lxtos.KMalloc.Owned.{kmalloc-Gained}
use lxtos.Fs.{
  Ptr, Node, State, TmpfsData, tmpfs, tmpfs_dir_ops, tmpfs_file_ops, vfs_max_name, vfs_flag_dir,
  has_flag, ◌>>=◌, heap_alloc, new_node,
}
use lxtos.Fs.Store.{NodeAt, with_node, load_lem, store_lem, NodeAt-with_node, with_node_ne}
use lxtos.Tmpfs.{node_size, data_size, tmpfs_max_children, tmpfs_alloc_node, attach, add_child}
use lxtos.Tmpfs.Grow.{with_heap, heap_alloc-none, heap_alloc-some}
use lxtos.Tmpfs.Read.{tmpfs_of_lem}

-- An allocation gives some result and leaves a valid heap.
pub record Allocated (s : State) (size : ℕ) : Type 0 where
  pub result : Option ℕ
  pub heap : Heap
  pub runs : heap_alloc size s ≡ some (result, with_heap s heap)
  pub valid : Tiling.IsValid heap

pub heap_alloc-Allocated :
    (s : State) (size : ℕ) → Tiling.IsValid s.heap → size ≤ 2 ^ 64 - 8 → Allocated s size
heap_alloc-Allocated s size v h = elim (kmalloc-Gained size v h) [
  | inl (full, e) ↦ record {
    result = none;
    heap = s.heap;
    runs = heap_alloc-none s size e;
    valid = v;
  }
  | inr (a, h', e, g) ↦ record {
    result = some a;
    heap = h';
    runs = heap_alloc-some s size e;
    valid = g.valid;
  }
]

-- The node that `tmpfs_alloc_node` makes.
abbrev pub fresh_node : CString → ℕ → Node
fresh_node name flags = record {
  name = kstrcpy name vfs_max_name;
  flags = flags;
  size = 0;
  fs_data = tmpfs (record { buf = none; buf_size = 0; children = [] });
  ops = some (if has_flag flags vfs_flag_dir then tmpfs_dir_ops else tmpfs_file_ops);
  parent = none;
  mount = none;
}

abbrev appended : State → Heap → Node → State
appended s h n = record s { heap = h; nodes = s.nodes ++ n ∷ [] }

-- Both allocations succeed and there is a new node, or there is none.
record NewNode (s : State) (name : CString) (flags : ℕ) : Type 0 where
  heap : Heap
  valid : Tiling.IsValid heap
  runs :
      (tmpfs_alloc_node name flags s ≡ some (none, with_heap s heap))
      ⊎ (tmpfs_alloc_node name flags s
          ≡ some (some (length s.nodes), appended s heap (fresh_node name flags)))

tmpfs_alloc_node_lem :
    (s : State) (name : CString) (flags : ℕ) → Tiling.IsValid s.heap → NewNode s name flags
unfolding tmpfs_alloc_node new_node
tmpfs_alloc_node_lem s name flags v =
    let a = heap_alloc-Allocated s node_size v (omega arith) in
    let b = heap_alloc-Allocated (with_heap s a.heap) data_size a.valid (omega arith) in
    record {
      heap = b.heap;
      valid = b.valid;
      runs = elim (Bool-cases (is_some a.result)) [
        | inr q ↦ inl (rw (a.runs, ◌>>=◌, b.runs, ◌>>=◌, q))
        | inl q ↦ elim (Bool-cases (is_some b.result)) [
          | inr r ↦ inl (rw (a.runs, ◌>>=◌, b.runs, ◌>>=◌, q, r))
          | inl r ↦ inr (rw (a.runs, ◌>>=◌, b.runs, ◌>>=◌, q, r))
        ]
      ];
    }

-- A directory of the memory file system.
pub record IsDir (s : State) (p : Ptr) (n : Node) (d : TmpfsData) : Type 0 where
  pub at_p : NodeAt s p n
  pub is_tmpfs : n.fs_data ≡ tmpfs d

abbrev pub child_node : CString → ℕ → Ptr → Node
child_node name flags parent = record (fresh_node name flags) { parent = some parent }

abbrev pub parent_node : Node → TmpfsData → Ptr → Node
parent_node n d c = record n { fs_data = tmpfs (record d { children = d.children ++ c ∷ [] }) }

-- The state with the new node, and with the directory's entry for it.
abbrev pub attached : State → Heap → Ptr → Node → TmpfsData → CString → ℕ → State
attached s h p n d name flags =
    with_node
      (with_node (appended s h (fresh_node name flags)) (length s.nodes) (child_node name flags p))
      p (parent_node n d (length s.nodes))

module _ (s : State) (h : Heap) (p : Ptr) (n : Node) (d : TmpfsData) (name : CString) (flags : ℕ)
    (f : IsDir s p n d) where
  abbrev s1 : State
  s1 = appended s h (fresh_node name flags)

  abbrev s2 : State
  s2 = with_node s1 (length s.nodes) (child_node name flags p)

  new_at : NodeAt s1 (length s.nodes) (fresh_node name flags)
  new_at = get_elem?-append_last s.nodes (fresh_node name flags) (length s.nodes) refl

  not_new : (q : Ptr) {m : Node} → NodeAt s q m → length s.nodes ≢ q
  not_new q e = omega (arith, get_elem?-lt s.nodes q e)

  kept_at : (q : Ptr) {m : Node} → NodeAt s q m → NodeAt s2 q m
  kept_at q e =
      with_node_ne s1 (length s.nodes) q (child_node name flags p) (not_new q e)
      ∙ get_elem?-append_left s.nodes _ q (get_elem?-lt s.nodes q e)
      ∙ e

  attach_lem : attach p (length s.nodes) s1 ≡ some (tt, attached s h p n d name flags)
  unfolding attach
  attach_lem =
      rw
        (
          load_lem s1 (length s.nodes) new_at,
          ◌>>=◌,
          store_lem s1 (length s.nodes) (child_node name flags p) new_at,
          ◌>>=◌,
          load_lem s2 p (kept_at p f.at_p),
          ◌>>=◌,
          tmpfs_of_lem n f.is_tmpfs,
          ◌>>=◌,
        )
        (store_lem s2 p (parent_node n d (length s.nodes)) (kept_at p f.at_p))

  -- What stands in the new state: the child, the directory with one more entry, and all else as before.
  attached_child : NodeAt (attached s h p n d name flags) (length s.nodes) (child_node name flags p)
  attached_child =
      with_node_ne s2 p (length s.nodes) _ (λ e. not_new p f.at_p (sym e))
      ∙ NodeAt-with_node s1 (length s.nodes) (child_node name flags p) new_at

  attached_parent : NodeAt (attached s h p n d name flags) p (parent_node n d (length s.nodes))
  attached_parent = NodeAt-with_node s2 p (parent_node n d (length s.nodes)) (kept_at p f.at_p)

  attached_others :
      (q : Ptr) {m : Node} → p ≢ q → NodeAt s q m → NodeAt (attached s h p n d name flags) q m
  attached_others q ne e = with_node_ne s2 p q _ ne ∙ kept_at q e

-- What a successful `tmpfs_mkdir` or `tmpfs_mkfile` leaves.
pub record Added (s : State) (p : Ptr) (n : Node) (d : TmpfsData) (name : CString) (flags : ℕ)
    (c : Ptr) (s' : State) : Type 0 where
  pub unused : get_elem? s.nodes c ≡ none
  pub child : NodeAt s' c (child_node name flags p)
  pub parent : NodeAt s' p (parent_node n d c)
  pub others : (q : Ptr) (m : Node) → p ≢ q → NodeAt s q m → NodeAt s' q m
  pub valid : Tiling.IsValid s'.heap

pub past_end {ℓ} : {A : Type ℓ} (xs : List A) → get_elem? xs (length xs) ≡ none
past_end [] = refl
past_end (x ∷ xs) = past_end xs

-- Adding to a directory does not fault: it returns no node and leaves every node as it is, if the
-- directory is full or memory is exhausted, or adds one new node at the end of the directory.
pub add_child_lem :
    (s : State) (p : Ptr) (n : Node) (d : TmpfsData) (name : CString) (flags : ℕ)
    → IsDir s p n d
    → Tiling.IsValid s.heap
    → ((h : Heap) × (add_child p name flags s ≡ some (none, with_heap s h)) × Tiling.IsValid h)
      ⊎ ((length d.children < tmpfs_max_children)
          × ((c : Ptr) × (s' : State) × (add_child p name flags s ≡ some (some c, s'))
              × Added s p n d name flags c s'))
unfolding add_child
add_child_lem s p n d name flags f v =
    elim (Bool-cases (leb tmpfs_max_children (length d.children))) [
      | inl full ↦
          inl (s.heap, rw (load_lem s p f.at_p, ◌>>=◌, tmpfs_of_lem n f.is_tmpfs, ◌>>=◌, full), v)
      | inr room ↦
          let m = tmpfs_alloc_node_lem s name flags v in
          elim m.runs [
            | inl e ↦ inl (
              m.heap,
              rw (load_lem s p f.at_p, ◌>>=◌, tmpfs_of_lem n f.is_tmpfs, ◌>>=◌, room, e, ◌>>=◌),
              m.valid,
            )
            | inr e ↦ inr (
              ground arith,
              (
                length s.nodes,
                attached s m.heap p n d name flags,
                rw (
                  load_lem s p f.at_p,
                  ◌>>=◌,
                  tmpfs_of_lem n f.is_tmpfs,
                  ◌>>=◌,
                  room,
                  e,
                  ◌>>=◌,
                  attach_lem s m.heap p n d name flags f,
                  ◌>>=◌,
                ),
                record {
                  unused = past_end s.nodes;
                  child = attached_child s m.heap p n d name flags f;
                  parent = attached_parent s m.heap p n d name flags f;
                  others = λ q k ne at_q. attached_others s m.heap p n d name flags f q ne at_q;
                  valid = m.valid;
                },
              ),
            )
          ]
    ]
