-- ===== src/Syscall/Tests.antt =====
-- The calls of the system at a concrete state, and their theorems there.
use lxtos.KString.{CString}
use lxtos.Prelude.{
  ℕ, ◌≡◌, refl, true, Option, none, some, List, [], ◌∷◌, ◌++◌, arith, length, replicate,
}
use lxtos.Prelude.Int.{ℤ, pos}
use lxtos.Keyboard.{initial_console}
use lxtos.KMalloc.{kmalloc_init}
use lxtos.Disk.{no_disks}
use lxtos.Fs.{minus_one, Ptr, OpsId, TmpfsData, tmpfs, Node, M, pure, tmpfs_file_ops, vfs_flag_file}
use lxtos.Fd.{FdEntry, closed, get_fd}
use lxtos.Tmpfs.Contents.{contents, read_at}
use lxtos.Vfs.{VfsOps, root_path}
use lxtos.Vfs.Tables.{file_table, with_tmpfs}
use lxtos.Syscall.{Kernel, failed}
use lxtos.Syscall.Descriptors.{sys_fread}
use lxtos.Syscall.Files.{IsOpen, sys_fread_twice}

abbrev ops : OpsId → VfsOps
ops = with_tmpfs (λ o. file_table)

abbrev no_ext2 : ℤ → ℤ → M (Option Ptr)
no_ext2 bus drive = pure none

abbrev no_program : CString → List CString → M ℤ
no_program path args = pure minus_one

abbrev font : ℕ → ℕ → ℕ
font c row = 0

abbrev text : TmpfsData
text = record {
  buf = some (record { addr = 4120; bytes = b'a' ∷ b'b' ∷ b'c' ∷ b'd' ∷ b'e' ∷ [] });
  buf_size = 5;
  children = [];
}

abbrev file : Node
file = record {
  name = b't' ∷ [];
  flags = vfs_flag_file;
  size = 5;
  fs_data = tmpfs text;
  ops = some tmpfs_file_ops;
  parent = none;
  mount = none;
}

-- Descriptor 0 is open on the file, behind its first byte.
abbrev entry : FdEntry
entry = record { node = some 0; offset = 1; used = true }

abbrev kernel : Kernel
kernel = record {
  fs = record {
    heap = kmalloc_init 4096 4096;
    pmm = record { bitmap = []; total = 0; used = 0; total_ram = 0 };
    console = initial_console [];
    nodes = file ∷ [];
    vfs_root = none;
    mount_table = [];
    proc_root = none;
    disks = no_disks;
    proc_entries = [];
  };
  fds = entry ∷ replicate 63 closed;
  cwd = root_path;
}

abbrev after_close : Kernel
after_close = record kernel { fds = closed ∷ replicate 63 closed }

leads : get_fd kernel.fds (pos 0) ≡ some 0
unfolding get_fd
leads = refl

entry-IsOpen : IsOpen ops kernel (pos 0) 0 entry 0 file text
entry-IsOpen = record {
  leads = leads;
  entry = refl;
  node = refl;
  at_p = refl;
  reads = refl;
  is_tmpfs = refl;
  sized = refl;
  small = omega arith;
}

reads : sys_fread ops (pos 5) 3 kernel ≡ some (failed, kernel)
unfolding sys_fread get_fd
reads = refl

sys_fread_twice_example :
    (xs : List ℕ) × (ys : List ℕ) × (k1 : Kernel) × (k2 : Kernel) × (sys_fread ops (pos 0) 2 kernel
      ≡ some ((pos (length xs), xs), k1))
    × (sys_fread ops (pos 0) 9 k1 ≡ some ((pos (length ys), ys), k2))
    × (xs ++ ys ≡ read_at (contents text) 1 11)
    × (k2.fs ≡ kernel.fs)
sys_fread_twice_example = sys_fread_twice ops kernel (pos 0) 0 entry 0 file text 2 9 entry-IsOpen
