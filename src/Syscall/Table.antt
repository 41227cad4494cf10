-- ===== src/Syscall/Table.antt =====
-- `syscall_dispatch` keeps the table of descriptors and the working directory well formed.
use lxtos.Prelude.{
  ℕ, ◌+◌, ◌%◌, ◌^◌, ◌≡◌, subst, ◌∙◌, Bool, true, false, not, Option, none, some, [], arith, ltb,
  get_elem?, length-set, Bool-cases, Option-cases, none-some, inl, inr,
}
use lxtos.Prelude.Int.{ℤ, pos, negsuc}
use lxtos.KString.{CString, kstrcpy}
use lxtos.KString.Copy.{length-kstrcpy}
use lxtos.Fs.{Ptr, OpsId, Node, load}
use lxtos.Fd.{FdEntry, FdTable, alloc_fd, get_fd}
use lxtos.Fd.Table.{IsTable, alloc_fd_lem, free_fd-IsTable, ClearFree-set, get_fd-used}
use lxtos.Vfs.{
  VfsOps, vfs_resolve, vnode_readdir, vfs_mkdir, vfs_mkfile, vfs_unlink, vnode_read, vnode_write,
}
use lxtos.Syscall.{Kernel, K, Reply, done, failed}
use lxtos.Syscall.Keeps.{
  IsKernel, Keeps, pure-Keeps, on_fs-Keeps, >>=-Keeps, after-Keeps, if-Keeps, option-Keeps,
  same_kernel,
}
use lxtos.Syscall.Paths.{
  is_dir, sys_readdir, sys_mkdir, sys_mkfile, sys_rm, with_file, sys_read, write_node, sys_write,
  sys_fsize, sys_chdir,
}
use lxtos.Syscall.Descriptors.{advance, sys_open, sys_close, sys_fread, sys_fwrite}

used_free : {b : Bool} → b ≡ true → b ≡ false → ⊥
used_free p q = ground arith

module _ (ops : OpsId → VfsOps) where
  pub sys_readdir-Keeps : (path : CString) (idx : ℕ) → Keeps (sys_readdir ops path idx)
  unfolding sys_readdir
  sys_readdir-Keeps path idx = after-Keeps (vfs_resolve ops (some path)) _ (λ r.
      option-Keeps r _ _ (pure-Keeps _) (λ p. after-Keeps (load p) _ (λ dir.
        if-Keeps (not (is_dir dir)) _ _ (pure-Keeps _) (
          after-Keeps (vnode_readdir ops (some p) (idx % 2 ^ 32)) _ (λ e.
            option-Keeps e _ _ (pure-Keeps _) (λ q. after-Keeps (load q) _ (λ n. pure-Keeps _)))))))

  pub with_file-Keeps :
      (path : CString) (run : Ptr → Node → K Reply)
      → ((p : Ptr) (n : Node) → Keeps (run p n))
      → Keeps (with_file ops path run)
  unfolding with_file
  with_file-Keeps path run h = after-Keeps (vfs_resolve ops (some path)) _ (λ r.
      option-Keeps r _ _ (pure-Keeps _)
        (λ p. after-Keeps (load p) _ (λ n. if-Keeps (is_dir n) _ _ (pure-Keeps _) (h p n))))

  pub sys_mkdir-Keeps : (path : CString) → Keeps (sys_mkdir ops path)
  unfolding sys_mkdir
  sys_mkdir-Keeps path = after-Keeps (vfs_mkdir ops path) _ (λ r. pure-Keeps _)

  pub sys_mkfile-Keeps : (path : CString) → Keeps (sys_mkfile ops path)
  unfolding sys_mkfile
  sys_mkfile-Keeps path = after-Keeps (vfs_mkfile ops path) _ (λ r. pure-Keeps _)

  pub sys_rm-Keeps : (path : CString) → Keeps (sys_rm ops path)
  unfolding sys_rm
  sys_rm-Keeps path = after-Keeps (vfs_unlink ops path) _ (λ r. pure-Keeps _)

  pub sys_read-Keeps : (path : CString) (size : ℕ) → Keeps (sys_read ops path size)
  unfolding sys_read
  sys_read-Keeps path size = with_file-Keeps path _ (λ p n. on_fs-Keeps _)

  pub sys_fsize-Keeps : (path : CString) → Keeps (sys_fsize ops path)
  unfolding sys_fsize
  sys_fsize-Keeps path = with_file-Keeps path _ (λ p n. pure-Keeps _)

  write_node-Keeps :
      (node : Option Ptr) (src : CString) (size : ℕ) → Keeps (write_node ops node src size)
  unfolding write_node
  write_node-Keeps none src size = pure-Keeps _
  write_node-Keeps (some p) src size = after-Keeps (load p) _ (λ n.
      if-Keeps (is_dir n) _ _ (pure-Keeps _)
        (after-Keeps (vnode_write ops (some p) src 0 size) _ (λ r. pure-Keeps _)))

  pub sys_write-Keeps : (path src : CString) (size : ℕ) → Keeps (sys_write ops path src size)
  unfolding sys_write
  sys_write-Keeps path src size = after-Keeps (vfs_resolve ops (some path)) _ (λ r.
      option-Keeps r _ _
        (after-Keeps (vfs_mkfile ops path) _ (λ made. write_node-Keeps made src size))
        (λ p. write_node-Keeps (some p) src size))

  chdir-Keeps :
      (path : CString) → Keeps {A = Reply} (λ k. some (done, record k { cwd = kstrcpy path 256 }))
  chdir-Keeps path = record {
    keep = λ k k' a v e.
        subst IsKernel (same_kernel e)
          (record { table = v.table; cwd_fits = length-kstrcpy path 256 (omega arith) });
  }

  pub sys_chdir-Keeps : (path : CString) → Keeps (sys_chdir ops path)
  unfolding sys_chdir
  sys_chdir-Keeps path = after-Keeps (vfs_resolve ops (some path)) _ (λ r.
      option-Keeps r _ _ (pure-Keeps _) (λ p.
        after-Keeps (load p) _ (λ n. if-Keeps (is_dir n) _ _ (chdir-Keeps path) (pure-Keeps _))))

  alloc_fd-IsTable : (t : FdTable) (file : Option Ptr) → IsTable t → IsTable (alloc_fd t file).1
  alloc_fd-IsTable t file v = elim (alloc_fd_lem t file v) [
    | inl (u, e) ↦ rw e v
    | inr (k, below, l, e, w) ↦ rw e w
  ]

  pub sys_open-Keeps : (path : CString) → Keeps (sys_open ops path)
  unfolding sys_open
  sys_open-Keeps path = with_file-Keeps path _ (λ p n. record {
    keep = λ k k' a v e.
        subst IsKernel (same_kernel e)
          (record { table = alloc_fd-IsTable k.fds (some p) v.table; cwd_fits = v.cwd_fits });
  })

  pub sys_close-Keeps : (fd : ℤ) → Keeps (sys_close fd)
  unfolding sys_close
  sys_close-Keeps fd = record {
    keep = λ k k' a v e. elim (Option-cases (get_fd k.fds fd)) [
      | inl q ↦ subst IsKernel (same_kernel (rw (q, sys_close) at e)) v
      | inr (i, q) ↦
          subst IsKernel (same_kernel (rw (q, sys_close) at e))
            (record { table = free_fd-IsTable k.fds fd v.table; cwd_fits = v.cwd_fits })
    ];
  }

  advance-Keeps : (i : ℕ) (e : FdEntry) (n : ℤ) → e.used ≡ true → Keeps (advance i e n)
  unfolding advance
  advance-Keeps i e (negsuc n) u = pure-Keeps tt
  advance-Keeps i e (pos n) u = record {
    keep = λ k k' a v r. elim (Bool-cases (ltb 0 n)) [
      | inr q ↦ subst IsKernel (same_kernel (rw (q, advance) at r)) v
      | inl q ↦
          let e' = record e { offset = (e.offset + n) % 2 ^ 64 } in
          subst IsKernel (same_kernel (rw (q, advance) at r)) (record {
            table = record {
              size = length-set k.fds i e' ∙ v.table.size;
              clear = ClearFree-set k.fds i e' (λ c. absurd (used_free u c)) v.table.clear;
            };
            cwd_fits = v.cwd_fits;
          })
    ];
  }

  -- A transfer through a descriptor: `run` with its entry.
  entry-Keeps :
      (fd : ℤ) (run : ℕ → FdEntry → K Reply) (k k' : Kernel) (a : Reply)
      → ((i : ℕ) (e : FdEntry) → e.used ≡ true → Keeps (run i e))
      → IsKernel k
      → ◌≡◌ {A = Option (Reply × Kernel)}
          (elim (get_fd k.fds fd) [
            | none ↦ some (failed, k)
            | some i ↦ elim (get_elem? k.fds i) [ none ↦ none | some e ↦ run i e k ]
          ])
          (some (a, k'))
      → IsKernel k'
  entry-Keeps fd run k k' a h v r = elim (Option-cases (get_fd k.fds fd)) [
    | inl q ↦ subst IsKernel (same_kernel (rw q at r)) v
    | inr (i, q) ↦ elim (Option-cases (get_elem? k.fds i)) [
      | inl z ↦ absurd (none-some (rw (q, z) at r))
      | inr (e, z) ↦ (h i e (get_fd-used k.fds fd i q z)).keep k k' a v (rw (q, z) at r)
    ]
  ]

  pub sys_fread-Keeps : (fd : ℤ) (size : ℕ) → Keeps (sys_fread ops fd size)
  unfolding sys_fread
  sys_fread-Keeps fd size = record {
    keep = λ k k' a v r.
        entry-Keeps fd _ k k' a
          (λ i e u.
            after-Keeps (vnode_read ops e.node e.offset size) _
              (λ b. >>=-Keeps (advance i e b.0) _ (advance-Keeps i e b.0 u) (λ c. pure-Keeps b)))
          v r;
  }

  pub sys_fwrite-Keeps : (fd : ℤ) (src : CString) (size : ℕ) → Keeps (sys_fwrite ops fd src size)
  unfolding sys_fwrite
  sys_fwrite-Keeps fd src size = record {
    keep = λ k k' a v r.
        entry-Keeps fd _ k k' a
          (λ i e u.
            after-Keeps (vnode_write ops e.node src e.offset size) _
              (λ b. >>=-Keeps (advance i e b) _ (advance-Keeps i e b u) (λ c. pure-Keeps (b, []))))
          v r;
  }
