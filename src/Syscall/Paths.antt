-- ===== src/Syscall/Paths.antt =====
-- The calls on a path.
use lxtos.Prelude.{
  ℕ, ◌%◌, ◌^◌, Bool, true, false, not, ltb, ◌==◌, Option, none, some, [], if◌then◌else◌,
}
use lxtos.Prelude.Int.{pos}
use lxtos.KString.{CString, kstrcpy}
use lxtos.Fs.{Ptr, OpsId, Node, load, vfs_flag_dir, has_flag, signed64}
use lxtos.Vfs.{
  VfsOps, vfs_resolve, vnode_read, vnode_write, vnode_readdir, vfs_mkdir, vfs_mkfile, vfs_unlink,
}
use lxtos.Syscall.{K, pure, ◌>>=◌, on_fs, Reply, done, failed}

-- A result that is 0 for a node and -1 for none.
abbrev pub node_result : Option Ptr → Reply
node_result none = failed
node_result (some p) = done

-- The size is passed on as an `int`: a negative one leaves an empty string, and `max - 1` of the lowest
-- overflows, a fault.
unfoldable pub sys_getcwd : ℕ → K Reply
sys_getcwd size k =
    let max = size % 2 ^ 32 in
    elim (max == 2 ^ 31) [
      | true ↦ none
      | false ↦ some ((pos 0, kstrcpy k.cwd (if ltb max (2 ^ 31) then max else 0)), k)
    ]

abbrev pub is_dir : Node → Bool
is_dir n = has_flag n.flags vfs_flag_dir

module _ (ops : OpsId → VfsOps) where
  abbrev pub resolve : CString → K (Option Ptr)
  resolve path = on_fs (vfs_resolve ops (some path))

  unfoldable pub sys_readdir : CString → ℕ → K Reply
  sys_readdir path idx = do
    r ← resolve path
    elim r [
      | none ↦ pure failed
      | some p ↦ (do
        dir ← on_fs (load p)
        if not (is_dir dir) then pure failed else (do
          e ← on_fs (vnode_readdir ops (some p) (idx % 2 ^ 32))
          elim e [
            | none ↦ pure failed
            | some q ↦ (do
              n ← on_fs (load q)
              pure (if is_dir n then pos 1 else pos 0, kstrcpy n.name 256))
          ]))
    ]

  unfoldable pub sys_mkdir : CString → K Reply
  sys_mkdir path = do r ← on_fs (vfs_mkdir ops path); pure (node_result r)

  unfoldable pub sys_mkfile : CString → K Reply
  sys_mkfile path = do r ← on_fs (vfs_mkfile ops path); pure (node_result r)

  unfoldable pub sys_rm : CString → K Reply
  sys_rm path = do r ← on_fs (vfs_unlink ops path); pure (r, [])

  -- `if (!node || (node->flags & VFS_FLAG_DIR)) return -1;`, and what follows for a file
  unfoldable pub with_file : CString → (Ptr → Node → K Reply) → K Reply
  with_file path run = do
    r ← resolve path
    elim r [
      | none ↦ pure failed
      | some p ↦ (do n ← on_fs (load p); if is_dir n then pure failed else run p n)
    ]

  unfoldable pub sys_read : CString → ℕ → K Reply
  sys_read path size = with_file path (λ p n. on_fs (vnode_read ops (some p) 0 size))

  unfoldable pub sys_fsize : CString → K Reply
  sys_fsize path = with_file path (λ p n. pure (signed64 n.size, []))

  unfoldable pub write_node : Option Ptr → CString → ℕ → K Reply
  write_node none data_in size = pure failed
  write_node (some p) data_in size = do
    n ← on_fs (load p)
    if is_dir n
        then pure failed
        else (do r ← on_fs (vnode_write ops (some p) data_in 0 size); pure (r, []))

  unfoldable pub sys_write : CString → CString → ℕ → K Reply
  sys_write path data_in size = do
    r ← resolve path
    elim r [
      | some p ↦ write_node (some p) data_in size
      | none ↦ (do made ← on_fs (vfs_mkfile ops path); write_node made data_in size)
    ]

  unfoldable pub sys_chdir : CString → K Reply
  sys_chdir path = do
    r ← resolve path
    elim r [
      | none ↦ pure failed
      | some p ↦ (do
        n ← on_fs (load p)
        if is_dir n then (λ k. some (done, record k { cwd = kstrcpy path 256 })) else pure failed)
    ]
