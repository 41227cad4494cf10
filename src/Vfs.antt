-- ===== src/Vfs.antt =====
-- The virtual file system, src/fs/vfs.c: paths, mount points and the calls through `ops`.
-- The tables of operations are a parameter: `ops` gives the table that an `ops` field points to.
pub mod Paths
pub mod Walk
pub mod Parent
pub mod Tables
pub mod Mounts
mod Tests
use lxtos.Prelude.{
  ℕ, zero, suc, ◌+◌, ◌-◌, Bool, true, false, Option, none, some, List, [], ◌∷◌, ◌++◌, ltb, leb,
  ◌==◌, if◌then◌else◌, length, take, drop,
}
use lxtos.Prelude.Int.{ℤ, pos, negsuc}
use lxtos.KString.{CString, kstrlen, kstrcpy}
use lxtos.Fs.{
  Ptr, OpsId, Node, Mount, State, M, pure, fault, ◌>>=◌, ◌>>◌, lift, load, store, vfs_flag_dir,
  vfs_flag_mountpt, vfs_max_name, vfs_max_path, vfs_max_mounts, has_flag, same_name, minus_one,
}
use lxtos.Fs.Flags.{set_mountpt, clear_mountpt}

-- `vfs_ops_t`; a field is `none` for NULL.
pub record VfsOps : Type 0 where
  pub read : Option (Ptr → ℕ → ℕ → M (ℤ × List ℕ))
  pub write : Option (Ptr → List ℕ → ℕ → ℕ → M ℤ)
  pub finddir : Option (Ptr → CString → M (Option Ptr))
  pub readdir : Option (Ptr → ℕ → M (Option Ptr))
  pub mkdir : Option (Ptr → CString → M (Option Ptr))
  pub mkfile : Option (Ptr → CString → M (Option Ptr))
  pub unlink : Option (Ptr → CString → M ℤ)

abbrev pub slash : ℕ
slash = b'/'

abbrev pub root_path : CString
root_path = slash ∷ []

-- `path` from the first byte on that is not a slash
unfoldable pub skip_slashes : CString → CString
skip_slashes [] = []
skip_slashes (c ∷ s) = elim (c == slash) [ true ↦ skip_slashes s | false ↦ c ∷ s ]

-- At most `room` bytes up to a slash, and what is behind them.
unfoldable pub component : ℕ → CString → CString × CString
component zero s = ([], s)
component (suc room) [] = ([], [])
component (suc room) (c ∷ s) =
    let (part, rest) = component room s in if c == slash then ([], c ∷ s) else (c ∷ part, rest)

-- The loop of `split_path`, with room for `max_parts` more; a part is never empty, since its first
-- byte is not a slash.
unfoldable pub parts_from : CString → ℕ → List CString
parts_from s zero = []
parts_from s (suc max_parts) = elim (skip_slashes s) [
  | [] ↦ []
  | c ∷ t ↦
      let (part, rest) = component (vfs_max_name - 1) (c ∷ t) in part ∷ parts_from rest max_parts
]

unfoldable pub split_path : CString → ℕ → List CString
split_path path max_parts = parts_from (take (kstrlen path) path) max_parts

-- The loop of `split_parent` that looks for the last slash.
unfoldable pub last_slash : CString → Option ℕ
last_slash [] = none
last_slash (c ∷ s) = elim (last_slash s) [
  | some i ↦ some (suc i)
  | none ↦ if c == slash then some 0 else none
]

-- The parent and the name; a parent that does not fit its array is a fault.
unfoldable pub parent_of : CString → Option ℕ → Option (CString × CString)
parent_of path none = some (root_path, kstrcpy path vfs_max_name)
parent_of path (some zero) = some (root_path, kstrcpy (drop 1 path) vfs_max_name)
parent_of path (some (suc i)) =
    if ltb (suc i) vfs_max_path
    then some (kstrcpy path (suc i + 1), kstrcpy (drop (suc i + 1) path) vfs_max_name)
    else none

unfoldable pub split_parent : CString → Option (CString × CString)
split_parent path = parent_of path (last_slash (take (kstrlen path) path))

module _ (ops : OpsId → VfsOps) where
  -- `node->ops->f`, or `none` if either pointer is NULL
  abbrev pub op_of {ℓ} : {A : Type ℓ} → (VfsOps → Option A) → Node → Option A
  op_of f n = elim n.ops [ none ↦ none | some o ↦ f (ops o) ]

  -- One round of the loop of `vfs_resolve`.
  unfoldable pub enter : Ptr → CString → M (Option Ptr)
  enter cur part = do
    n ← load cur
    if has_flag n.flags vfs_flag_dir
        then elim (op_of (λ t. t.finddir) n) [
          | none ↦ pure none
          | some finddir ↦ (do
            next ← finddir cur part
            elim next [
              | none ↦ pure none
              | some p ↦ (do m ← load p; pure (some (elim m.mount [ none ↦ p | some q ↦ q ])))
            ])
        ]
        else pure none

  unfoldable pub walk : Ptr → List CString → M (Option Ptr)
  walk cur [] = pure (some cur)
  walk cur (part ∷ parts) = do
    r ← enter cur part
    elim r [ none ↦ pure none | some p ↦ walk p parts ]

  -- `vfs_resolve` of a path, with `vfs_root`
  unfoldable pub resolve_from : CString → Option Ptr → M (Option Ptr)
  resolve_from path none = pure none
  resolve_from path (some root) =
      if same_name path root_path then pure (some root) else walk root (split_path path 32)

  unfoldable pub vfs_resolve : Option CString → M (Option Ptr)
  vfs_resolve none s = some (none, s)
  vfs_resolve (some path) s = resolve_from path s.vfs_root s

  unfoldable pub vfs_init : M (Unit {0})
  vfs_init s = some (tt, record s { mount_table = [] })

  -- `node->mount = fs_root; node->flags |= VFS_FLAG_MOUNTPT;`
  unfoldable pub set_mount : Ptr → Option Ptr → M (Unit {0})
  set_mount p fs_root = do
    n ← load p
    store p (record n { mount = fs_root; flags = set_mountpt n.flags })

  unfoldable pub mount_at : CString → Option Ptr → M (Unit {0})
  mount_at path fs_root =
      if same_name path root_path then (λ s. some (tt, record s { vfs_root = fs_root })) else (do
        r ← vfs_resolve (some path)
        elim r [ none ↦ pure tt | some p ↦ set_mount p fs_root ])

  unfoldable pub add_mount : CString → Option Ptr → M (Unit {0})
  add_mount path fs_root s = some (
    tt,
    record s {
      mount_table =
          s.mount_table ++ record { path = kstrcpy path vfs_max_path; root = fs_root } ∷ [];
    },
  )

  unfoldable pub vfs_mount : CString → Option Ptr → M ℤ
  vfs_mount path fs_root s =
      if leb vfs_max_mounts (length s.mount_table)
      then some (minus_one, s)
      else (do mount_at path fs_root; add_mount path fs_root; pure (pos 0)) s

  unfoldable pub vfs_umount : Option Ptr → M ℤ
  vfs_umount none = pure minus_one
  vfs_umount (some p) = do
    n ← load p
    if has_flag n.flags vfs_flag_mountpt
        then (do store p (record n { mount = none; flags = clear_mountpt n.flags }); pure (pos 0))
        else pure minus_one

  -- The calls through `ops`, with what they return for a missing node, table or function.
  unfoldable pub call {ℓ κ} :
      {A : Type ℓ} {B : Type κ} → (VfsOps → Option A) → B → (Ptr → A → M B) → Option Ptr → M B
  call f missing run none = pure missing
  call f missing run (some p) = do
    n ← load p
    elim (op_of f n) [ none ↦ pure missing | some g ↦ run p g ]

  unfoldable pub vnode_read : Option Ptr → ℕ → ℕ → M (ℤ × List ℕ)
  vnode_read node offset size =
      call (λ t. t.read) (minus_one, []) (λ p read. read p offset size) node

  unfoldable pub vnode_write : Option Ptr → List ℕ → ℕ → ℕ → M ℤ
  vnode_write node buf offset size =
      call (λ t. t.write) minus_one (λ p write. write p buf offset size) node

  unfoldable pub vnode_finddir : Option Ptr → CString → M (Option Ptr)
  vnode_finddir node name = call (λ t. t.finddir) none (λ p finddir. finddir p name) node

  unfoldable pub vnode_readdir : Option Ptr → ℕ → M (Option Ptr)
  vnode_readdir node index = call (λ t. t.readdir) none (λ p readdir. readdir p index) node

  unfoldable pub vfs_read : Option CString → ℕ → ℕ → M (ℤ × List ℕ)
  vfs_read path offset size = do node ← vfs_resolve path; vnode_read node offset size

  unfoldable pub vfs_write : Option CString → List ℕ → ℕ → ℕ → M ℤ
  vfs_write path buf offset size = do node ← vfs_resolve path; vnode_write node buf offset size

  -- `vfs_mkdir`, `vfs_mkfile` and `vfs_unlink` look up the parent and call it with the name.
  unfoldable pub in_parent {ℓ} :
      {B : Type ℓ} → (VfsOps → Option (Ptr → CString → M B)) → B → CString → M B
  in_parent f missing path = do
    r ← lift (split_parent path)
    dir ← vfs_resolve (some r.0)
    call f missing (λ p g. g p r.1) dir

  unfoldable pub vfs_mkdir : CString → M (Option Ptr)
  vfs_mkdir path = in_parent (λ t. t.mkdir) none path

  unfoldable pub vfs_mkfile : CString → M (Option Ptr)
  vfs_mkfile path = in_parent (λ t. t.mkfile) none path

  unfoldable pub vfs_unlink : CString → M ℤ
  vfs_unlink path = in_parent (λ t. t.unlink) minus_one path
