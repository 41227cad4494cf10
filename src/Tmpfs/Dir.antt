-- ===== src/Tmpfs/Dir.antt =====
-- Looking up, adding and unlinking names of a directory.
use lxtos.Prelude.{
  ℕ, ◌<◌, ◌≡◌, ◌≢◌, refl, ap, subst, sym, ◌∙◌, some, none, List, [], ◌∷◌, ◌++◌, arith, length,
  Option, Bool-cases, inl, inr, get_elem?, ◌==◌,
}
use lxtos.Prelude.{==_iff}
use lxtos.Prelude.Int.{pos}
use lxtos.KString.{CString}
use lxtos.KString.Compare.{IsText}
use lxtos.KString.Copy.{kstrcpy_short}
use lxtos.KMalloc.Tiling
use lxtos.Fs.{Ptr, Node, State, TmpfsData, tmpfs, vfs_max_name, ◌>>=◌, minus_one}
use lxtos.Fs.Names.{same_name_refl}
use lxtos.Fs.Store.{NodeAt, with_node, load_lem, store_lem, NodeAt-with_node, with_node_ne}
use lxtos.Tmpfs.{add_child, tmpfs_finddir, tmpfs_unlink}
use lxtos.Tmpfs.Read.{tmpfs_of_lem}
use lxtos.Tmpfs.Names.{
  Absent, Called, find_child-none, find_child_first, drop_child-none, drop_child_first, KeepsNames,
  Absent-keep, Absent-append,
}
use lxtos.Tmpfs.Add.{IsDir, Added, add_child_lem, child_node, parent_node}

same_node : {n m : Node} → ◌≡◌ {A = Option Node} (some n) (some m) → n ≡ m
same_node e = cc

-- A change of one node that keeps its name.
KeepsNames-of :
    (s s' : State) (p : Ptr) (n n' : Node)
    → NodeAt s p n
    → NodeAt s' p n'
    → n'.name ≡ n.name
    → ((q : Ptr) (m : Node) → p ≢ q → NodeAt s q m → NodeAt s' q m)
    → KeepsNames s s'
KeepsNames-of s s' p n n' at_p at_p' same others c m at_c = elim (Bool-cases (p == c)) [
  | inl q ↦
      let e : p ≡ c = (==_iff p c).0 q in
      let n_is_m : n ≡ m = same_node (sym at_p ∙ subst (λ k. NodeAt s k m) (sym e) at_c) in
      (n', subst (λ k. NodeAt s' k n') e at_p', same ∙ ap (λ (k : Node). k.name) n_is_m)
  | inr q ↦ (m, others c m (ground arith) at_c, refl)
]

module _ (s : State) (p : Ptr) (n : Node) (d : TmpfsData) (name : CString) (f : IsDir s p n d) where
  -- `tmpfs_finddir` returns the first child of that name, and changes nothing.
  pub tmpfs_finddir_first :
      (pre : List Ptr) (c : Ptr) (post : List Ptr)
      → d.children ≡ pre ++ c ∷ post
      → Absent s name pre
      → Called s name c
      → tmpfs_finddir p name s ≡ some (some c, s)
  unfolding tmpfs_finddir
  tmpfs_finddir_first pre c post e a m =
      rw (load_lem s p f.at_p, ◌>>=◌, tmpfs_of_lem n f.is_tmpfs, ◌>>=◌, e)
        (find_child_first s name pre c post a m)

  -- It returns no node where no child has the name.
  pub tmpfs_finddir-none : Absent s name d.children → tmpfs_finddir p name s ≡ some (none, s)
  unfolding tmpfs_finddir
  tmpfs_finddir-none a =
      rw (load_lem s p f.at_p, ◌>>=◌, tmpfs_of_lem n f.is_tmpfs, ◌>>=◌)
        (find_child-none s name d.children a)

module _ (s s' : State) (p : Ptr) (n : Node) (d : TmpfsData) (name : CString) (flags : ℕ)
    (c : Ptr) where
  Added-KeepsNames : IsDir s p n d → Added s p n d name flags c s' → KeepsNames s s'
  Added-KeepsNames f a = KeepsNames-of s s' p n (parent_node n d c) f.at_p a.parent refl a.others

  found_after :
      IsDir s p n d
      → Absent s name d.children
      → IsText name
      → length name < vfs_max_name
      → Added s p n d name flags c s'
      → tmpfs_finddir p name s' ≡ some (some c, s')
  found_after f absent text short a =
      tmpfs_finddir_first s' p (parent_node n d c) (record d { children = d.children ++ c ∷ [] })
        name (record { at_p = a.parent; is_tmpfs = refl }) d.children c [] refl
        (Absent-keep s s' name d.children (Added-KeepsNames f a) absent)
        (
          child_node name flags p,
          a.child,
          rw (kstrcpy_short name vfs_max_name text short) (same_name_refl name),
        )

-- Two runs of one call.
ran_twice :
    {r r' : Option Ptr} {t t' : State}
    → ◌≡◌ {A = Option (Option Ptr × State)} (some (r, t)) (some (r', t'))
    → (r ≡ r') × (t ≡ t')
ran_twice e = ground arith

same_ptr : {a b : Ptr} → ◌≡◌ {A = Option Ptr} (some a) (some b) → a ≡ b
same_ptr e = cc

no_child : {c : Ptr} → ◌≡◌ {A = Option Ptr} none (some c) → ⊥
no_child e = cc

-- A node that `tmpfs_mkdir` or `tmpfs_mkfile` (the flags tell which) has added, under a proper name
-- of at most 255 bytes that no child had, is what a lookup of the name in that directory returns.
pub tmpfs_finddir-add_child :
    (s s' : State) (p : Ptr) (n : Node) (d : TmpfsData) (name : CString) (flags : ℕ) (c : Ptr)
    → IsDir s p n d
    → Tiling.IsValid s.heap
    → Absent s name d.children
    → IsText name
    → length name < vfs_max_name
    → add_child p name flags s ≡ some (some c, s')
    → tmpfs_finddir p name s' ≡ some (some c, s')
tmpfs_finddir-add_child s s' p n d name flags c f v absent text short runs =
    elim (add_child_lem s p n d name flags f v) [
      | inl (h, e, w) ↦ absurd (no_child (ran_twice (sym e ∙ runs)).0)
      | inr (room, (c', t, e, a)) ↦
          let same = ran_twice (sym e ∙ runs) in
          subst (λ u. tmpfs_finddir p name u ≡ some (some c, u)) same.1
            (subst (λ k. tmpfs_finddir p name t ≡ some (some k, t)) (same_ptr same.0)
              (found_after s t p n d name flags c' f absent text short a))
    ]

abbrev unlinked_node : Node → TmpfsData → List Ptr → Node
unlinked_node n d cs = record n { fs_data = tmpfs (record d { children = cs }) }

-- What `tmpfs_unlink` leaves: the directory without that child, and every other node.
pub record Unlinked (s : State) (p : Ptr) (n : Node) (d : TmpfsData) (cs : List Ptr) (s' : State)
    : Type 0 where
  pub parent : NodeAt s' p (unlinked_node n d cs)
  pub others : (q : Ptr) → p ≢ q → get_elem? s'.nodes q ≡ get_elem? s.nodes q
  pub same_heap : s'.heap ≡ s.heap

-- `tmpfs_unlink` removes the first child of that name from the directory and returns 0; no other node
-- changes, and the heap keeps what the child occupies.
pub tmpfs_unlink_lem :
    (s : State) (p : Ptr) (n : Node) (d : TmpfsData) (name : CString) (pre : List Ptr) (c : Ptr)
    (post : List Ptr)
    → IsDir s p n d
    → d.children ≡ pre ++ c ∷ post
    → Absent s name pre
    → Called s name c
    → (s' : State) × (tmpfs_unlink p name s ≡ some (pos 0, s')) × Unlinked s p n d (pre ++ post) s'
unfolding tmpfs_unlink
tmpfs_unlink_lem s p n d name pre c post f e a m = (
  with_node s p (unlinked_node n d (pre ++ post)),
  rw (
    load_lem s p f.at_p,
    ◌>>=◌,
    tmpfs_of_lem n f.is_tmpfs,
    ◌>>=◌,
    e,
    drop_child_first s name pre c post a m,
    ◌>>=◌,
    store_lem s p (unlinked_node n d (pre ++ post)) f.at_p,
  ),
  record {
    parent = NodeAt-with_node s p (unlinked_node n d (pre ++ post)) f.at_p;
    others = λ q ne. with_node_ne s p q (unlinked_node n d (pre ++ post)) ne;
    same_heap = refl;
  },
)

-- Where no child has the name, `tmpfs_unlink` returns -1 and changes nothing.
pub tmpfs_unlink_none :
    (s : State) (p : Ptr) (n : Node) (d : TmpfsData) (name : CString)
    → IsDir s p n d
    → Absent s name d.children
    → tmpfs_unlink p name s ≡ some (minus_one, s)
unfolding tmpfs_unlink
tmpfs_unlink_none s p n d name f a = rw (
  load_lem s p f.at_p,
  ◌>>=◌,
  tmpfs_of_lem n f.is_tmpfs,
  ◌>>=◌,
  drop_child-none s name d.children a,
  ◌>>=◌,
)

-- Unlinking the only child of a name makes a lookup of the name fail.
pub tmpfs_finddir-unlink :
    (s : State) (p : Ptr) (n : Node) (d : TmpfsData) (name : CString) (pre : List Ptr) (c : Ptr)
    (post : List Ptr)
    → IsDir s p n d
    → d.children ≡ pre ++ c ∷ post
    → Absent s name pre
    → Called s name c
    → Absent s name post
    → (s' : State) × (tmpfs_unlink p name s ≡ some (pos 0, s'))
      × (tmpfs_finddir p name s' ≡ some (none, s'))
tmpfs_finddir-unlink s p n d name pre c post f e a m b =
    let (s', runs, u) = tmpfs_unlink_lem s p n d name pre c post f e a m in
    let keeps : KeepsNames s s' =
      KeepsNames-of s s' p n (unlinked_node n d (pre ++ post)) f.at_p u.parent refl
        (λ q k ne at_q. u.others q ne ∙ at_q) in
    (
      s',
      runs,
      tmpfs_finddir-none s' p (unlinked_node n d (pre ++ post))
          (record d { children = pre ++ post }) name (record { at_p = u.parent; is_tmpfs = refl })
          (Absent-keep s s' name (pre ++ post) keeps (Absent-append s name pre post a b)),
    )
