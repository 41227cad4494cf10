-- ===== src/Procfs/Tests.antt =====
-- The reporting files at a concrete state, and their theorems there.
use lxtos.Prelude.{ℕ, ◌≡◌, refl, true, false, some, none, [], ◌∷◌, length, arith}
use lxtos.Prelude.Int.{pos}
use lxtos.KString.{CString, kstrcpy}
use lxtos.Keyboard.{initial_console}
use lxtos.KMalloc.{kmalloc, find_free, take_block, split, kmalloc_init}
use lxtos.KMalloc.Tiling
use lxtos.KMalloc.Tiling.{kmalloc_init-IsValid}
use lxtos.Digits.{kitoa, digits_of}
use lxtos.Disk.{no_disks}
use lxtos.Fs.{Node, State, proc_dir, mem_total, new_node, heap_alloc, procfs_dir_ops}
use lxtos.Fs.Store.{NodeAt}
use lxtos.Tmpfs.Contents.{read_at}
use lxtos.Procfs.{
  Registers, procfs_create, register_at, procfs_register, procfs_finddir, procfs_read, proc_text,
  proc_mem_total_read,
}
use lxtos.Procfs.Read.{procfs_read_lem}
use lxtos.Procfs.Names.{file_node, procfs_finddir-register}

abbrev cpuid : ℕ → Registers
cpuid leaf = record { eax = 13; ebx = 0x756E6547; ecx = 0x6C65746E; edx = 0x49656E69 }

abbrev root : Node
root = record {
  name = b'p' ∷ b'r' ∷ b'o' ∷ b'c' ∷ [];
  flags = 0x22;
  size = 0;
  fs_data = proc_dir;
  ops = some procfs_dir_ops;
  parent = none;
  mount = none;
}

-- 64 MB of memory.
abbrev empty : State
empty = record {
  heap = kmalloc_init 4096 4096;
  pmm = record { bitmap = []; total = 0; used = 0; total_ram = 67108864 };
  nodes = [];
  vfs_root = none;
  mount_table = [];
  proc_root = none;
  console = initial_console [];
  disks = no_disks;
  proc_entries = [];
}

abbrev total : CString
total = b't' ∷ b'o' ∷ b't' ∷ b'a' ∷ b'l' ∷ []

abbrev state : State
state = record empty { nodes = root ∷ []; proc_root = some 0 }

-- The state with the file.
abbrev added : State
added = record state {
  heap = record {
    base = 4096;
    total = 4096;
    blocks =
        record { addr = 4096; size = 304; free = false }
        ∷ record { addr = 4424; size = 8; free = false }
        ∷ record { addr = 4456; size = 3712; free = true }
        ∷ [];
  };
  nodes = root ∷ file_node 0 total (some mem_total) ∷ [];
  proc_entries = 1 ∷ [];
}

state-IsValid : Tiling.IsValid state.heap
state-IsValid =
    (kmalloc_init-IsValid 4096 4096 (omega arith) (omega arith) (omega arith) (omega arith)
      (omega arith) (omega arith)).0

creates : (s : State) × (procfs_create empty ≡ some (some 0, s))
unfolding procfs_create heap_alloc new_node kmalloc find_free take_block split kmalloc_init
creates = (_, refl)

adds : procfs_register total (some mem_total) state ≡ some (some 1, added)
unfolding procfs_register register_at heap_alloc new_node kmalloc find_free take_block split
    kmalloc_init kstrcpy
adds = refl

procfs_finddir-register_example :
    (procfs_finddir 0 total added ≡ some (some 1, added))
    × NodeAt added 1 (file_node 0 total (some mem_total))
procfs_finddir-register_example =
    procfs_finddir-register state added 0 total (some mem_total) 1 refl state-IsValid tt
      (omega arith) (omega arith) adds

text_run : proc_text cpuid mem_total added ≡ b'6' ∷ b'4' ∷ b' ' ∷ b'M' ∷ b'B' ∷ b'\n' ∷ []
unfolding proc_text proc_mem_total_read kitoa digits_of
text_run = refl

-- Two bytes at the end of the number.
procfs_read_example :
    procfs_read cpuid 1 1 2 added
    ≡ some (
      (
        pos (length (read_at (proc_text cpuid mem_total added) 1 2)),
        read_at (proc_text cpuid mem_total added) 1 2,
      ),
      added,
    )
procfs_read_example =
    procfs_read_lem cpuid added 1 (file_node 0 total (some mem_total)) mem_total 1 2 refl refl
