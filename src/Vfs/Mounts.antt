-- ===== src/Vfs/Mounts.antt =====
-- Mounting on a node and unmounting it.
use lxtos.Prelude.{
  ℕ, zero, suc, ◌≤◌, ◌<◌, ◌≡◌, refl, ap, ap₂, sym, ◌∙◌, Bool, true, false, Option, none, some, List,
  [], ◌∷◌, ◌++◌, arith, length, leb, set, get_elem?, Bool-cases, inl, inr, ◌⊎◌,
}
use lxtos.Prelude.Int.{pos}
use lxtos.KString.{CString, kstrcpy}
use lxtos.Fs.{
  Ptr, OpsId, Node, State, ◌>>=◌, vfs_flag_dir, vfs_flag_mountpt, vfs_max_path, vfs_max_mounts,
  has_flag, same_name, minus_one,
}
use lxtos.Fs.Flags.{set_mountpt, clear_mountpt, mountpt_laws, clear-set_mountpt}
use lxtos.Fs.Store.{NodeAt, with_node, load_lem, store_lem, NodeAt-with_node}
use lxtos.Vfs.{
  VfsOps, root_path, vfs_resolve, set_mount, mount_at, add_mount, vfs_mount, vfs_umount,
}

abbrev pub mounted : Node → Option Ptr → Node
mounted n fs_root = record n { mount = fs_root; flags = set_mountpt n.flags }

abbrev pub unmounted : Node → Node
unmounted n = record n { mount = none; flags = clear_mountpt n.flags }

abbrev pub with_entry : State → CString → Option Ptr → State
with_entry s path fs_root = record s {
  mount_table = s.mount_table ++ record { path = kstrcpy path vfs_max_path; root = fs_root } ∷ [];
}

-- A pointer that is NULL or leads to a node.
abbrev pub IsThere : State → Option Ptr → Type 0
IsThere s none = Unit {0}
IsThere s (some p) = (n : Node) × NodeAt s p n

-- The state with that node marked as a mount point.
abbrev pub marked : (s : State) → Option Ptr → (r : Option Ptr) → IsThere s r → State
marked s fs_root none there = s
marked s fs_root (some p) (n, at_p) = with_node s p (mounted n fs_root)

same_entry : {A : Type 0} {x y : A} → ◌≡◌ {A = Option A} (some x) (some y) → x ≡ y
same_entry e = cc

set_back :
    {A : Type 0} (xs : List A) (i : ℕ) (v : A) {x : A}
    → get_elem? xs i ≡ some x
    → set (set xs i v) i x ≡ xs
set_back [] i v e = refl
set_back (y ∷ xs) zero v e = ap (λ z. z ∷ xs) (sym (same_entry e))
set_back (y ∷ xs) (suc i) v e = ap (λ zs. y ∷ zs) (set_back xs i v e)

restored :
    (n : Node) (fs_root : Option Ptr)
    → n.flags < 64
    → n.mount ≡ none
    → has_flag n.flags vfs_flag_mountpt ≡ false
    → unmounted (mounted n fs_root) ≡ n
restored n fs_root small free unset =
    ap₂ (λ m f. record n { mount = m; flags = f }) (sym free)
      (clear-set_mountpt n.flags small unset)

unset_flag : {b : Bool} → b ≡ true → b ≡ false → ⊥
unset_flag e f = cc

module _ (ops : OpsId → VfsOps) where
  mount_at-marked :
      (s : State) (path : CString) (fs_root r : Option Ptr) (there : IsThere s r)
      → same_name path root_path ≡ false
      → vfs_resolve ops (some path) s ≡ some (r, s)
      → mount_at ops path fs_root s ≡ some (tt, marked s fs_root r there)
  unfolding mount_at set_mount
  mount_at-marked s path fs_root none there other leads = rw (other, leads, ◌>>=◌)
  mount_at-marked s path fs_root (some p) (n, at_p) other leads =
      rw (other, leads, ◌>>=◌, load_lem s p at_p, ◌>>=◌, store_lem s p (mounted n fs_root) at_p)

  -- On a path other than `/`, that resolves to a node or to none, `vfs_mount` either finds the table
  -- full, and returns -1 and changes nothing, or enters the mount into the table and returns 0: it
  -- marks the node of the path as a mount point of the new root and changes no other node, and on a
  -- path that leads nowhere it changes no node at all.
  pub vfs_mount_lem :
      (s : State) (path : CString) (fs_root r : Option Ptr) (there : IsThere s r)
      → same_name path root_path ≡ false
      → vfs_resolve ops (some path) s ≡ some (r, s)
      → ((vfs_max_mounts ≤ length s.mount_table)
          × (vfs_mount ops path fs_root s ≡ some (minus_one, s)))
        ⊎ ((length s.mount_table < vfs_max_mounts)
            × (vfs_mount ops path fs_root s
                ≡ some (pos 0, with_entry (marked s fs_root r there) path fs_root)))
  unfolding vfs_mount add_mount
  vfs_mount_lem s path fs_root r there other leads =
      elim (Bool-cases (leb vfs_max_mounts (length s.mount_table))) [
        | inl q ↦ inl (ground arith, rw q)
        | inr q ↦
            inr (ground arith, rw (q, mount_at-marked s path fs_root r there other leads, ◌>>=◌))
      ]

  -- `vfs_umount` of a mount point clears its mount and its flag and returns 0; of any other node, or
  -- of none, it returns -1 and changes nothing.
  pub vfs_umount_lem :
      (s : State) (p : Ptr) (n : Node)
      → NodeAt s p n
      → n.flags < 64
      → ((has_flag n.flags vfs_flag_mountpt ≡ true)
          × (vfs_umount ops (some p) s ≡ some (pos 0, with_node s p (unmounted n)))
          × (has_flag (unmounted n).flags vfs_flag_mountpt ≡ false)
          × (has_flag (unmounted n).flags vfs_flag_dir ≡ has_flag n.flags vfs_flag_dir))
        ⊎ ((has_flag n.flags vfs_flag_mountpt ≡ false)
            × (vfs_umount ops (some p) s ≡ some (minus_one, s)))
  unfolding vfs_umount
  vfs_umount_lem s p n at_p small = elim (Bool-cases (has_flag n.flags vfs_flag_mountpt)) [
    | inl q ↦
        let laws = mountpt_laws n.flags small in
        inl (
          q,
          rw (load_lem s p at_p, ◌>>=◌, q, store_lem s p (unmounted n) at_p),
          laws.is_clear,
          laws.clear_dir,
        )
    | inr q ↦ inr (q, rw (load_lem s p at_p, ◌>>=◌, q))
  ]

  -- Unmounting a node that `vfs_mount` has just marked, and that nothing was mounted on, gives back
  -- all nodes as they were before the mount; the table of mounts keeps its entry.
  pub vfs_umount-mount :
      (s : State) (path : CString) (fs_root : Option Ptr) (p : Ptr) (n : Node)
      → same_name path root_path ≡ false
      → vfs_resolve ops (some path) s ≡ some (some p, s)
      → length s.mount_table < vfs_max_mounts
      → NodeAt s p n
      → n.flags < 64
      → n.mount ≡ none
      → has_flag n.flags vfs_flag_mountpt ≡ false
      → (s' : State) × (vfs_mount ops path fs_root s ≡ some (pos 0, s'))
        × (vfs_umount ops (some p) s' ≡ some (pos 0, with_entry s path fs_root))
  vfs_umount-mount s path fs_root p n other leads room at_p small free unset =
      (with_entry (with_node s p (mounted n fs_root)) path fs_root, mounts, undo)
    where
      mounts :
          vfs_mount ops path fs_root s
          ≡ some (pos 0, with_entry (with_node s p (mounted n fs_root)) path fs_root)
      mounts = elim (vfs_mount_lem s path fs_root (some p) (n, at_p) other leads) [
        | inl (full, e) ↦ absurd (omega arith)
        | inr (less, e) ↦ e
      ]

      undo :
          vfs_umount ops (some p) (with_entry (with_node s p (mounted n fs_root)) path fs_root)
          ≡ some (pos 0, with_entry s path fs_root)
      undo =
          elim (vfs_umount_lem (with_entry (with_node s p (mounted n fs_root)) path fs_root) p
            (mounted n fs_root) (NodeAt-with_node s p (mounted n fs_root) at_p)
            (mountpt_laws n.flags small).set_small) [
              | inr (q, e) ↦ absurd (unset_flag (mountpt_laws n.flags small).is_set q)
              | inl (q, runs, a, b) ↦
                  runs
                  ∙ ap
                      (λ (xs : List Node).
                        some (pos 0, record (with_entry s path fs_root) { nodes = xs }))
                      (ap (λ m. set (set s.nodes p (mounted n fs_root)) p m)
                          (restored n fs_root small free unset)
                        ∙ set_back s.nodes p (mounted n fs_root) at_p)
            ]
