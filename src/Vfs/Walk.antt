-- ===== src/Vfs/Walk.antt =====
-- `vfs_resolve` follows the names of a path from node to node, through the mount points.
use lxtos.Prelude.{
  ℕ, ◌≤◌, ◌≡◌, refl, ap, ◌∙◌, true, Option, none, some, List, [], ◌∷◌, ◌++◌, arith, length,
  take_all, Bool-cases, inl, inr, replicate, length-append,
}
use lxtos.KString.{CString}
use lxtos.Fs.{Ptr, OpsId, Node, State, M, pure, ◌>>=◌, vfs_flag_dir, has_flag, same_name}
use lxtos.Fs.Names.{same_name-eq}
use lxtos.Fs.Store.{NodeAt, load_lem}
use lxtos.Vfs.{VfsOps, slash, root_path, op_of, enter, walk, resolve_from, vfs_resolve}
use lxtos.Vfs.Paths.{AreNames, spell, names_of, spell-IsText, split_path-spell}

-- The node where a lookup goes on: the root of what is mounted on it, if something is.
abbrev pub through : Node → Ptr → Ptr
through m p = elim m.mount [ none ↦ p | some q ↦ q ]

module _ (ops : OpsId → VfsOps) where
  -- In the directory `p` the name leads to the node `q`.
  pub record Step (s : State) (p : Ptr) (name : CString) (q : Ptr) : Type 0 where
    pub dir : Node
    pub at_p : NodeAt s p dir
    pub is_dir : has_flag dir.flags vfs_flag_dir ≡ true
    pub find : Ptr → CString → M (Option Ptr)
    pub has_find : op_of ops (λ t. t.finddir) dir ≡ some find
    pub child : Ptr
    pub found : find p name s ≡ some (some child, s)
    pub node : Node
    pub at_child : NodeAt s child node
    pub goes_on : through node child ≡ q

  -- The names lead from the node `p` to the node `q`.
  abbrev pub Leads : State → Ptr → List CString → Ptr → Type 0
  Leads s p [] q = p ≡ q
  Leads s p (name ∷ names) q = (c : Ptr) × Step s p name c × Leads s c names q

  enter-Step :
      {s : State} {p q : Ptr} {name : CString}
      → Step s p name q
      → enter ops p name s ≡ some (some q, s)
  unfolding enter
  enter-Step {s} {p} t =
      rw
        (
          load_lem s p t.at_p,
          ◌>>=◌,
          t.is_dir,
          t.has_find,
          t.found,
          ◌>>=◌,
          load_lem s t.child t.at_child,
          ◌>>=◌,
        )
        (ap (λ k. some (some k, s)) t.goes_on)

  walk-Leads :
      (s : State) (p : Ptr) (names : List CString) (q : Ptr)
      → Leads s p names q
      → walk ops p names s ≡ some (some q, s)
  unfolding walk
  walk-Leads s p [] q e = ap (λ k. some (some k, s)) e
  walk-Leads s p (name ∷ names) q (c, t, l) = rw (enter-Step t, ◌>>=◌) (walk-Leads s c names q l)

  -- The rest of a walk, from where the first part of it led.
  abbrev pub walk_on : List CString → Option Ptr → M (Option Ptr)
  walk_on ys none = pure none
  walk_on ys (some q) = walk ops q ys

  -- The two walks agree behind their first round.
  walk_on-append :
      (xs ys : List CString)
      → ((s : State) (q : Ptr) → walk ops q (xs ++ ys) s ≡ (walk ops q xs >>= walk_on ys) s)
      → (m : Option (Option Ptr × State))
      → (elim m as (λ _. Option (Option Ptr × State)) [
        | none ↦ none
        | some (r, s) ↦ walk_on (xs ++ ys) r s
      ])
        ≡ (elim (elim m as (λ _. Option (Option Ptr × State)) [
          | none ↦ none
          | some (r, s) ↦ walk_on xs r s
        ])
            as (λ _. Option (Option Ptr × State)) [ none ↦ none | some (r, s) ↦ walk_on ys r s ])
  walk_on-append xs ys again none = refl
  walk_on-append xs ys again (some (none, s)) = refl
  walk_on-append xs ys again (some (some q, s)) = again s q

  -- Walking along two lists of names is walking along the first and, if it leads somewhere, from
  -- there along the second.
  pub walk-append :
      (s : State) (p : Ptr) (xs ys : List CString)
      → walk ops p (xs ++ ys) s ≡ (walk ops p xs >>= walk_on ys) s
  unfolding walk
  walk-append s p [] ys = refl
  walk-append s p (x ∷ xs) ys =
      walk_on-append xs ys (λ s' q. walk-append s' q xs ys) (enter ops p x s)

  -- The path that names no entry.
  only_root :
      (l : List (ℕ × CString)) (last : ℕ) (s : State) (p q : Ptr)
      → AreNames l
      → spell l last ≡ root_path
      → Leads s p (names_of l) q
      → p ≡ q
  only_root [] last s p q a e h = h
  only_root ((k, name) ∷ l) last s p q a e h = absurd (
      omega (
        arith,
        ap length e,
        length-append {0} (replicate k slash) (name ++ spell l last),
        length-append {0} name (spell l last),
        a.0.proper,
      ))

  -- A path of at most 32 proper names, each behind one or more slashes, resolves to the node that the
  -- names lead to from the root, where each lookup finds its node and nothing changes.
  pub vfs_resolve-Leads :
      (s : State) (root : Ptr) (l : List (ℕ × CString)) (last : ℕ) (q : Ptr)
      → s.vfs_root ≡ some root
      → AreNames l
      → length (names_of l) ≤ 32
      → Leads s root (names_of l) q
      → vfs_resolve ops (some (spell l last)) s ≡ some (some q, s)
  unfolding vfs_resolve resolve_from
  vfs_resolve-Leads s root l last q r a few h =
      elim (Bool-cases (same_name (spell l last) root_path)) [
        | inl e ↦
            let is_root : spell l last ≡ root_path =
              same_name-eq _ _ (spell-IsText l last a) (omega arith) e in
            ap (λ o. resolve_from ops (spell l last) o s) r
            ∙ rw e (ap (λ k. some (some k, s)) (only_root l last s root q a is_root h))
        | inr e ↦
            ap (λ o. resolve_from ops (spell l last) o s) r
            ∙ rw (e, split_path-spell l last 32 a, take_all 32 (names_of l) few)
                (walk-Leads s root (names_of l) q h)
      ]
