-- ===== src/Syscall/Descriptors.antt =====
-- The calls on file descriptors.
use lxtos.Prelude.{ℕ, ◌+◌, ◌%◌, ◌^◌, none, some, [], ltb, if◌then◌else◌, set, get_elem?}
use lxtos.Prelude.Int.{ℤ, pos, negsuc}
use lxtos.KString.{CString}
use lxtos.Fs.{OpsId, minus_one}
use lxtos.Vfs.{VfsOps, vnode_read, vnode_write}
use lxtos.Syscall.{K, pure, ◌>>=◌, ◌>>◌, on_fs, Reply, done, failed}
use lxtos.Fd.{FdEntry, alloc_fd, get_fd, free_fd}
use lxtos.Syscall.Paths.{with_file}

unfoldable pub sys_close : ℤ → K Reply
sys_close fd k = elim (get_fd k.fds fd) [
  | none ↦ some (failed, k)
  | some i ↦ some (done, record k { fds = free_fd k.fds fd })
]

-- `if (n > 0) e->offset += n;`
unfoldable pub advance : ℕ → FdEntry → ℤ → K (Unit {0})
advance i e (pos n) k =
    if ltb 0 n
    then some (tt, record k { fds = set k.fds i (record e { offset = (e.offset + n) % 2 ^ 64 }) })
    else some (tt, k)
advance i e (negsuc n) k = some (tt, k)

module _ (ops : OpsId → VfsOps) where
  unfoldable pub sys_open : CString → K Reply
  sys_open path = with_file ops path (λ p n k.
      let (fd, t) = alloc_fd k.fds (some p) in
      some ((elim fd [ pos i ↦ pos i | negsuc i ↦ minus_one ], []), record k { fds = t }))

  unfoldable pub sys_fread : ℤ → ℕ → K Reply
  sys_fread fd size k = elim (get_fd k.fds fd) [
    | none ↦ some (failed, k)
    | some i ↦ elim (get_elem? k.fds i) [
      | none ↦ none
      | some e ↦ (do r ← on_fs (vnode_read ops e.node e.offset size); advance i e r.0; pure r) k
    ]
  ]

  unfoldable pub sys_fwrite : ℤ → CString → ℕ → K Reply
  sys_fwrite fd data_in size k = elim (get_fd k.fds fd) [
    | none ↦ some (failed, k)
    | some i ↦ elim (get_elem? k.fds i) [
      | none ↦ none
      | some e ↦
          (do r ← on_fs (vnode_write ops e.node data_in e.offset size); advance i e r; pure (r, []))
            k
    ]
  ]
