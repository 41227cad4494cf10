-- ===== src/Syscall/Dispatch.antt =====
-- `syscall_dispatch` of src/kernel/syscall.c, and `elf_exec` of src/exec/elf.c.
use lxtos.Prelude.{ℕ, Option, none, List, [], ◌∷◌}
use lxtos.Prelude.Int.{ℤ}
use lxtos.KString.{CString}
use lxtos.Fs.{Ptr, OpsId, M}
use lxtos.Vfs.{VfsOps}
use lxtos.Syscall.{K, pure, ◌>>=◌, on_fs, Reply, failed}
use lxtos.Syscall.{sys_putchar, sys_puts, sys_getchar, sys_gets, sys_clear}
use lxtos.Syscall.Paths.{
  sys_readdir, sys_mkdir, sys_mkfile, sys_rm, sys_read, sys_write, sys_fsize, sys_chdir, sys_getcwd,
}
use lxtos.Syscall.Descriptors.{sys_open, sys_close, sys_fread, sys_fwrite}
use lxtos.Syscall.Mount.{sys_mount, sys_umount}

-- The calls with their arguments; `unknown n` is the number 22 + n, which no call has.
pub data Call : Type 0 where
  putchar : ℕ → Call
  puts : CString → Call
  getchar : Call
  exit : Call
  gets : ℕ → Call
  clear : Call
  readdir : CString → ℕ → Call
  mkdir : CString → Call
  mkfile : CString → Call
  rm : CString → Call
  read : CString → ℕ → Call
  write : CString → CString → ℕ → Call
  exec : CString → List CString → Call
  fsize : CString → Call
  chdir : CString → Call
  getcwd : ℕ → Call
  mount : CString → CString → CString → Call
  umount : CString → Call
  open_file : CString → Call
  close : ℤ → Call
  fread : ℤ → ℕ → Call
  fwrite : ℤ → CString → ℕ → Call
  unknown : ℕ → Call

-- "/bin/shell"
abbrev pub shell_path : CString
shell_path = b'/' ∷ b'b' ∷ b'i' ∷ b'n' ∷ b'/' ∷ b's' ∷ b'h' ∷ b'e' ∷ b'l' ∷ b'l' ∷ []

-- `for (;;) hlt`
abbrev pub halt {ℓ} : {A : Type ℓ} → K A
halt k = none

-- `elf_exec_argv` enters the program and comes back only where it fails: a run without a result is one that
-- does not come back.
module _ (elf_exec_argv : CString → List CString → M ℤ) where
  -- `elf_exec`
  unfoldable pub elf_exec : CString → M ℤ
  elf_exec path = elf_exec_argv path (path ∷ [])

  unfoldable pub sys_exit : K Reply
  sys_exit = do r ← on_fs (elf_exec shell_path); halt

  unfoldable pub sys_exec : CString → List CString → K Reply
  sys_exec path args = do r ← on_fs (elf_exec_argv path args); pure (r, [])

module _ (font : ℕ → ℕ → ℕ) (ops : OpsId → VfsOps) (ext2_mount : ℤ → ℤ → M (Option Ptr))
    (elf_exec_argv : CString → List CString → M ℤ) where
  unfoldable pub syscall_dispatch : Call → K Reply
  syscall_dispatch (putchar c) = sys_putchar font c
  syscall_dispatch (puts s) = sys_puts font s
  syscall_dispatch getchar = sys_getchar
  syscall_dispatch exit = sys_exit elf_exec_argv
  syscall_dispatch (gets max) = sys_gets font max
  syscall_dispatch clear = sys_clear
  syscall_dispatch (readdir path idx) = sys_readdir ops path idx
  syscall_dispatch (mkdir path) = sys_mkdir ops path
  syscall_dispatch (mkfile path) = sys_mkfile ops path
  syscall_dispatch (rm path) = sys_rm ops path
  syscall_dispatch (read path size) = sys_read ops path size
  syscall_dispatch (write path buf size) = sys_write ops path buf size
  syscall_dispatch (exec path args) = sys_exec elf_exec_argv path args
  syscall_dispatch (fsize path) = sys_fsize ops path
  syscall_dispatch (chdir path) = sys_chdir ops path
  syscall_dispatch (getcwd size) = sys_getcwd size
  syscall_dispatch (mount source mountpoint fstype) =
      sys_mount ops ext2_mount source mountpoint fstype
  syscall_dispatch (umount path) = sys_umount ops path
  syscall_dispatch (open_file path) = sys_open ops path
  syscall_dispatch (close fd) = sys_close fd
  syscall_dispatch (fread fd size) = sys_fread ops fd size
  syscall_dispatch (fwrite fd buf size) = sys_fwrite ops fd buf size
  syscall_dispatch (unknown n) = pure failed
