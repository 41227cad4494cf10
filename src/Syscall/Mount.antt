-- ===== src/Syscall/Mount.antt =====
-- Mounting and unmounting.
use lxtos.Prelude.{
  ℕ, zero, suc, ◌+◌, not, Option, none, some, List, [], ◌∷◌, ◌++◌, ltb, ◌==◌, if◌then◌else◌, take,
  drop, get_elem?,
}
use lxtos.Prelude.Int.{ℤ, pos, negsuc, ◌-ℤ◌}
use lxtos.KString.{CString, kstrlen, kstrcpy}
use lxtos.Fs.{
  Ptr, OpsId, ProcFn, mem_total, mem_free, heap_total, heap_free_size, cpu_vendor, cpu_model, M,
  lift, load, store, vfs_flag_mountpt, has_flag, same_name,
}
use lxtos.Vfs.{VfsOps, root_path, last_slash, op_of, vfs_mount}
use lxtos.Syscall.{K, pure, ◌>>=◌, ◌>>◌, on_fs, Reply, done, failed}
use lxtos.Fs.Flags.{clear_mountpt}
use lxtos.Tmpfs.{tmpfs_create}
use lxtos.Procfs.{procfs_create, procfs_register}
use lxtos.Syscall.Paths.{is_dir, resolve}

unfoldable pub register_all : List (CString × ProcFn) → M (Unit {0})
register_all [] s = some (tt, s)
register_all (f ∷ fns) s = elim (procfs_register f.0 (some f.1) s) [
  | none ↦ none
  | some (p, s') ↦ register_all fns s'
]

abbrev pub proc_files : List (CString × ProcFn)
proc_files =
    (b'm' ∷ b'e' ∷ b'm' ∷ b'_' ∷ b't' ∷ b'o' ∷ b't' ∷ b'a' ∷ b'l' ∷ [], mem_total)
    ∷ (b'm' ∷ b'e' ∷ b'm' ∷ b'_' ∷ b'f' ∷ b'r' ∷ b'e' ∷ b'e' ∷ [], mem_free)
    ∷ (b'h' ∷ b'e' ∷ b'a' ∷ b'p' ∷ b'_' ∷ b't' ∷ b'o' ∷ b't' ∷ b'a' ∷ b'l' ∷ [], heap_total)
    ∷ (b'h' ∷ b'e' ∷ b'a' ∷ b'p' ∷ b'_' ∷ b'f' ∷ b'r' ∷ b'e' ∷ b'e' ∷ [], heap_free_size)
    ∷ (b'c' ∷ b'p' ∷ b'u' ∷ b'_' ∷ b'v' ∷ b'e' ∷ b'n' ∷ b'd' ∷ b'o' ∷ b'r' ∷ [], cpu_vendor)
    ∷ (b'c' ∷ b'p' ∷ b'u' ∷ b'_' ∷ b'm' ∷ b'o' ∷ b'd' ∷ b'e' ∷ b'l' ∷ [], cpu_model)
    ∷ []

abbrev pub proc_type : CString
proc_type = b'p' ∷ b'r' ∷ b'o' ∷ b'c' ∷ []

abbrev pub tmpfs_type : CString
tmpfs_type = b't' ∷ b'm' ∷ b'p' ∷ b'f' ∷ b's' ∷ []

abbrev pub ext2_type : CString
ext2_type = b'e' ∷ b'x' ∷ b't' ∷ b'2' ∷ []

-- `source[i] - '0'`, with the NUL behind the string
abbrev pub digit_at : CString → ℕ → Option ℤ
digit_at source i = elim (get_elem? (source ++ 0 ∷ []) i) [
  | none ↦ none
  | some c ↦ some (pos c -ℤ pos b'0')
]

unfoldable pub mount_proc : K (Option Ptr)
mount_proc = do
  r ← on_fs procfs_create
  elim r [ none ↦ pure none | some p ↦ (do on_fs (register_all proc_files); pure (some p)) ]

-- The directory that holds the mount point, and its name there; `parent` has 256 bytes.
unfoldable pub umount_parent : CString → Option ℕ → Option (CString × CString)
umount_parent path none = some (root_path, path)
umount_parent path (some zero) = some (root_path, drop 1 path)
umount_parent path (some (suc i)) =
    if ltb (suc i) 256 then some (kstrcpy path (suc i + 1), drop (suc i + 1) path) else none

-- `target->mount = NULL; target->flags &= ~VFS_FLAG_MOUNTPT;` if it is a mount point
unfoldable pub unmount_node : Option Ptr → K Reply
unmount_node none = pure failed
unmount_node (some t) = do
  n ← on_fs (load t)
  if has_flag n.flags vfs_flag_mountpt
      then (do
        on_fs (store t (record n { mount = none; flags = clear_mountpt n.flags }))
        pure done)
      else pure failed

module _ (ops : OpsId → VfsOps) (ext2_mount : ℤ → ℤ → M (Option Ptr)) where
  -- The root of the file system to mount, by its type.
  unfoldable pub mount_root : CString → CString → K (Option Ptr)
  mount_root source fstype =
      if same_name fstype proc_type
      then mount_proc
      else if same_name fstype tmpfs_type
      then on_fs tmpfs_create
      else if same_name fstype ext2_type
      then (do
        bus ← on_fs (lift (digit_at source 0))
        drv ← on_fs (lift (digit_at source 2))
        on_fs (ext2_mount bus drv))
      else resolve ops source

  unfoldable pub sys_mount : CString → CString → CString → K Reply
  sys_mount source mountpoint fstype = do
    r ← resolve ops mountpoint
    elim r [
      | none ↦ pure failed
      | some target ↦ (do
        n ← on_fs (load target)
        if not (is_dir n) then pure failed else (do
          root ← mount_root source fstype
          elim root [
            | none ↦ pure failed
            | some p ↦ (do
              m ← on_fs (vfs_mount ops mountpoint (some p))
              pure (elim m [ pos i ↦ if i == 0 then done else failed | negsuc i ↦ failed ]))
          ]))
    ]

module _ (ops : OpsId → VfsOps) where
  unfoldable pub sys_umount : CString → K Reply
  sys_umount path = do
    names ← on_fs (lift (umount_parent path (last_slash (take (kstrlen path) path))))
    r ← resolve ops names.0
    elim r [
      | none ↦ pure failed
      | some p ↦ (do
        dir ← on_fs (load p)
        if not (is_dir dir) then pure failed else elim (op_of ops (λ t. t.finddir) dir) [
          | none ↦ pure failed
          | some finddir ↦ (do target ← on_fs (finddir p names.1); unmount_node target)
        ])
    ]
