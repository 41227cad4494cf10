-- ===== src/Tmpfs/Names.antt =====
-- The loops over a directory's children, by what the children are called.
use lxtos.Prelude.{◌≡◌, refl, some, none, List, [], ◌∷◌, ◌++◌, true, false}
use lxtos.KString.{CString}
use lxtos.Fs.{Ptr, Node, State, ◌>>=◌, same_name}
use lxtos.Fs.Store.{NodeAt, load_lem}
use lxtos.Tmpfs.{find_child, drop_child}

-- Every pointer of the list is to a node, and none of the nodes is called `name`.
abbrev pub Absent : State → CString → List Ptr → Type 0
Absent s name [] = Unit {0}
Absent s name (c ∷ cs) =
    ((n : Node) × NodeAt s c n × (same_name n.name name ≡ false)) × Absent s name cs

-- The node at `c` is called `name`.
abbrev pub Called : State → CString → Ptr → Type 0
Called s name c = (n : Node) × NodeAt s c n × (same_name n.name name ≡ true)

module _ (s : State) (name : CString) where
  pub find_child-none : (cs : List Ptr) → Absent s name cs → find_child name cs s ≡ some (none, s)
  unfolding find_child
  find_child-none [] a = refl
  find_child-none (c ∷ cs) a = rw (load_lem s c a.0.1, ◌>>=◌, a.0.2) (find_child-none cs a.1)

  -- The first match is found.
  pub find_child_first :
      (pre : List Ptr) (c : Ptr) (post : List Ptr)
      → Absent s name pre
      → Called s name c
      → find_child name (pre ++ c ∷ post) s ≡ some (some c, s)
  unfolding find_child
  find_child_first [] c post a m = rw (load_lem s c m.1, ◌>>=◌, m.2)
  find_child_first (x ∷ pre) c post a m =
      rw (load_lem s x a.0.1, ◌>>=◌, a.0.2) (find_child_first pre c post a.1 m)

  pub drop_child-none : (cs : List Ptr) → Absent s name cs → drop_child name cs s ≡ some (none, s)
  unfolding drop_child
  drop_child-none [] a = refl
  drop_child-none (c ∷ cs) a = rw (load_lem s c a.0.1, ◌>>=◌, a.0.2, drop_child-none cs a.1, ◌>>=◌)

  -- The first match is dropped, and nothing else.
  pub drop_child_first :
      (pre : List Ptr) (c : Ptr) (post : List Ptr)
      → Absent s name pre
      → Called s name c
      → drop_child name (pre ++ c ∷ post) s ≡ some (some (pre ++ post), s)
  unfolding drop_child
  drop_child_first [] c post a m = rw (load_lem s c m.1, ◌>>=◌, m.2)
  drop_child_first (x ∷ pre) c post a m =
      rw (load_lem s x a.0.1, ◌>>=◌, a.0.2, drop_child_first pre c post a.1 m, ◌>>=◌)

-- The nodes of `s` are in `s'`, under the same names.
abbrev pub KeepsNames : State → State → Type 0
KeepsNames s s' =
    (c : Ptr) (n : Node) → NodeAt s c n → (m : Node) × NodeAt s' c m × (m.name ≡ n.name)

pub Absent-keep :
    (s s' : State) (name : CString) (cs : List Ptr)
    → KeepsNames s s'
    → Absent s name cs
    → Absent s' name cs
Absent-keep s s' name [] k a = tt
Absent-keep s s' name (c ∷ cs) k a =
    let (m, e, same) = k c a.0.0 a.0.1 in ((m, e, rw same a.0.2), Absent-keep s s' name cs k a.1)

pub Absent-append :
    (s : State) (name : CString) (xs ys : List Ptr)
    → Absent s name xs
    → Absent s name ys
    → Absent s name (xs ++ ys)
Absent-append s name [] ys a b = b
Absent-append s name (x ∷ xs) ys a b = (a.0, Absent-append s name xs ys a.1 b)
