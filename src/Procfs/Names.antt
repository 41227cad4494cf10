-- ===== src/Procfs/Names.antt =====
-- Adding a file to src/fs/procfs.c, and looking it up.
use lxtos.Prelude.{
  ◌<◌, ◌≡◌, refl, ap, subst, sym, ◌∙◌, some, none, [], ◌∷◌, ◌++◌, arith, length, Option, Bool-cases,
  inl, inr, ◌⊎◌, get_elem?, is_some, get_elem?-append_last, get_elem?-append_left, get_elem?-lt,
  leb, if◌then◌else◌, none-some, some-inj,
}
use lxtos.KString.{CString, kstrcpy}
use lxtos.KString.Compare.{IsText}
use lxtos.KString.Copy.{kstrcpy_short}
use lxtos.KMalloc.{Heap}
use lxtos.KMalloc.Tiling
use lxtos.Fs.{
  Ptr, Node, State, ProcFn, proc_file, procfs_file_ops, vfs_flag_file, vfs_max_name, ◌>>=◌,
  new_node,
}
use lxtos.Fs.Names.{same_name_refl}
use lxtos.Fs.Store.{NodeAt}
use lxtos.Tmpfs.{node_size, find_child}
use lxtos.Tmpfs.Grow.{with_heap}
use lxtos.Tmpfs.Add.{heap_alloc-Allocated, past_end}
use lxtos.Tmpfs.Names.{Absent, find_child_first, KeepsNames, Absent-keep}
use lxtos.Procfs.{procfs_max_entries, file_data_size, procfs_finddir, register_at, procfs_register}

abbrev pub file_node : Ptr → CString → Option ProcFn → Node
file_node root name fn = record {
  name = kstrcpy name vfs_max_name;
  flags = vfs_flag_file;
  size = 0;
  fs_data = proc_file fn;
  ops = some procfs_file_ops;
  parent = some root;
  mount = none;
}

abbrev registered : State → Heap → Ptr → CString → Option ProcFn → State
registered s h root name fn = record s {
  heap = h;
  nodes = s.nodes ++ file_node root name fn ∷ [];
  proc_entries = s.proc_entries ++ length s.nodes ∷ [];
}

-- Both allocations succeed and there is a new file, or there is none.
record NewFile (s : State) (root : Ptr) (name : CString) (fn : Option ProcFn) : Type 0 where
  heap : Heap
  valid : Tiling.IsValid heap
  runs :
      (register_at root s.proc_entries name fn s ≡ some (none, with_heap s heap))
      ⊎ (register_at root s.proc_entries name fn s
          ≡ some (some (length s.nodes), registered s heap root name fn))

register_at_lem :
    (s : State) (root : Ptr) (name : CString) (fn : Option ProcFn)
    → Tiling.IsValid s.heap
    → NewFile s root name fn
unfolding register_at new_node
register_at_lem s root name fn v =
    let a = heap_alloc-Allocated s node_size v (omega arith) in
    let b = heap_alloc-Allocated (with_heap s a.heap) file_data_size a.valid (omega arith) in
    record {
      heap = b.heap;
      valid = b.valid;
      runs = elim (Bool-cases (is_some a.result)) [
        | inr q ↦ inl (rw (a.runs, ◌>>=◌, b.runs, ◌>>=◌, q))
        | inl q ↦ elim (Bool-cases (is_some b.result)) [
          | inr r ↦ inl (rw (a.runs, ◌>>=◌, b.runs, ◌>>=◌, q, r))
          | inl r ↦ inr (rw (a.runs, ◌>>=◌, b.runs, ◌>>=◌, q, r))
        ]
      ];
    }

-- What a successful `procfs_register` leaves: one new node, at the end of the entries.
pub record Registered (s : State) (root : Ptr) (name : CString) (fn : Option ProcFn) (c : Ptr)
    (s' : State) : Type 0 where
  pub unused : get_elem? s.nodes c ≡ none
  pub file : NodeAt s' c (file_node root name fn)
  pub others : (q : Ptr) (m : Node) → NodeAt s q m → NodeAt s' q m
  pub entries : s'.proc_entries ≡ s.proc_entries ++ c ∷ []
  pub valid : Tiling.IsValid s'.heap

registered-Registered :
    (s : State) (h : Heap) (root : Ptr) (name : CString) (fn : Option ProcFn)
    → Tiling.IsValid h
    → Registered s root name fn (length s.nodes) (registered s h root name fn)
registered-Registered s h root name fn v = record {
  unused = past_end s.nodes;
  file = get_elem?-append_last s.nodes (file_node root name fn) (length s.nodes) refl;
  others = λ q m e. get_elem?-append_left s.nodes _ q (get_elem?-lt s.nodes q e) ∙ e;
  entries = refl;
  valid = v;
}

procfs_register_root :
    (s : State) (root : Ptr) (name : CString) (fn : Option ProcFn)
    → s.proc_root ≡ some root
    → procfs_register name fn s ≡ (
        if leb procfs_max_entries (length s.proc_entries)
        then some (none, s)
        else register_at root s.proc_entries name fn s)
unfolding procfs_register
procfs_register_root s root name fn r =
    ap
      (λ (o : Option Ptr). elim o [
        | none ↦ some (none, s)
        | some q ↦
            if leb procfs_max_entries (length s.proc_entries)
            then some (none, s)
            else register_at q s.proc_entries name fn s
      ])
      r

-- With a root, `procfs_register` does not fault: it returns no node and leaves nodes and entries as they
-- are, if there are 32 entries or memory is exhausted, or adds one new file at the end of the entries.
pub procfs_register_lem :
    (s : State) (root : Ptr) (name : CString) (fn : Option ProcFn)
    → s.proc_root ≡ some root
    → Tiling.IsValid s.heap
    → ((h : Heap) × (procfs_register name fn s ≡ some (none, with_heap s h)) × Tiling.IsValid h)
      ⊎ ((length s.proc_entries < procfs_max_entries)
          × ((c : Ptr) × (s' : State) × (procfs_register name fn s ≡ some (some c, s'))
              × Registered s root name fn c s'))
procfs_register_lem s root name fn r v =
    elim (Bool-cases (leb procfs_max_entries (length s.proc_entries))) [
      | inl full ↦ inl (s.heap, rw (procfs_register_root s root name fn r, full), v)
      | inr room ↦
          let m = register_at_lem s root name fn v in
          elim m.runs [
            | inl e ↦ inl (m.heap, rw (procfs_register_root s root name fn r, room) e, m.valid)
            | inr e ↦ inr (
              ground arith,
              (
                length s.nodes,
                registered s m.heap root name fn,
                rw (procfs_register_root s root name fn r, room) e,
                registered-Registered s m.heap root name fn m.valid,
              ),
            )
          ]
    ]

found_after :
    (s s' : State) (root : Ptr) (name : CString) (fn : Option ProcFn) (c : Ptr)
    → Absent s name s.proc_entries
    → IsText name
    → length name < vfs_max_name
    → Registered s root name fn c s'
    → procfs_finddir root name s' ≡ some (some c, s')
unfolding procfs_finddir
found_after s s' root name fn c absent text short a =
    let keeps : KeepsNames s s' = λ q n e. (n, a.others q n e, refl) in
    ap (λ l. find_child name l s') a.entries
    ∙ (find_child_first s' name s.proc_entries c []
        (Absent-keep s s' name s.proc_entries keeps absent)
        (
          file_node root name fn,
          a.file,
          rw (kstrcpy_short name vfs_max_name text short) (same_name_refl name),
        ))

-- Two runs of one call.
ran_twice :
    {r r' : Option Ptr} {t t' : State}
    → ◌≡◌ {A = Option (Option Ptr × State)} (some (r, t)) (some (r', t'))
    → (r ≡ r') × (t ≡ t')
ran_twice e = ground arith

-- A file that `procfs_register` has added, under a proper name of at most 255 bytes that no entry had, is
-- what a lookup of the name returns, and it holds the function it was registered with.
pub procfs_finddir-register :
    (s s' : State) (root : Ptr) (name : CString) (fn : Option ProcFn) (c : Ptr)
    → s.proc_root ≡ some root
    → Tiling.IsValid s.heap
    → Absent s name s.proc_entries
    → IsText name
    → length name < vfs_max_name
    → procfs_register name fn s ≡ some (some c, s')
    → (procfs_finddir root name s' ≡ some (some c, s')) × NodeAt s' c (file_node root name fn)
procfs_finddir-register s s' root name fn c r v absent text short runs =
    elim (procfs_register_lem s root name fn r v) [
      | inl (h, e, w) ↦ absurd (none-some (ran_twice (sym e ∙ runs)).0)
      | inr (room, (c', t, e, a)) ↦
          let same = ran_twice (sym e ∙ runs) in
          subst
            (λ u.
              (procfs_finddir root name u ≡ some (some c, u)) × NodeAt u c (file_node root name fn))
            same.1
            (subst
              (λ k.
                (procfs_finddir root name t ≡ some (some k, t))
                × NodeAt t k (file_node root name fn))
              (some-inj same.0) (found_after s t root name fn c' absent text short a, a.file))
    ]
