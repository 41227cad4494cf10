-- ===== src/Fs.antt =====
-- The state that the file systems share, and the functions on it: include/fs/vfs.h, the node data of
-- src/fs/tmpfs.c, and the variables of src/fs/vfs.c and src/fs/procfs.c.
-- A `vfs_node_t *` is the number of a node in the order of allocation: no code frees a node. The heap
-- of lib/kmalloc.c decides whether an allocation succeeds, and holds the buffers of files.
pub mod Store
pub mod Flags
pub mod Names
use lxtos.Prelude.{
  ℕ, suc, ◌+◌, ◌-◌, ◌^◌, Bool, true, false, not, Option, none, some, List, [], ◌∷◌, ◌++◌, ltb, ◌==◌,
  if◌then◌else◌, length, set, get_elem?, bit_and,
}
use lxtos.Prelude.Int.{ℤ, pos, negsuc}
use lxtos.KString.{CString, kstrcmp}
use lxtos.KMalloc.{Heap, kmalloc, kfree}
use lxtos.Pmm.{Pmm}
use lxtos.Keyboard.{Console}
use lxtos.Disk.{Disks}

abbrev pub Ptr : Type 0
Ptr = ℕ

-- The tables of operations that the kernel defines; an `ops` field points to one of them.
pub data OpsId : Type 0 where
  tmpfs_file_ops tmpfs_dir_ops console_ops : OpsId
  procfs_file_ops procfs_dir_ops ext2_file_ops ext2_dir_ops : OpsId

-- An allocated buffer: its address in the heap and its bytes.
pub record Buffer : Type 0 where
  pub addr : ℕ
  pub bytes : List ℕ

-- `tmpfs_data_t`; `children` are the first `child_count` entries of the array.
pub record TmpfsData : Type 0 where
  pub buf : Option Buffer
  pub buf_size : ℕ
  pub children : List Ptr

-- The functions that give the contents of the files of src/fs/procfs.c.
pub data ProcFn : Type 0 where
  mem cpu_vendor cpu_model mem_total heap_total heap_free_size mem_free : ProcFn

-- `ext2_fs_t`: nothing changes after `ext2_mount` has filled it in.
pub record Ext2Fs : Type 0 where
  pub bus : ℤ
  pub drive : ℤ
  pub block_size : ℕ
  pub inodes_per_group : ℕ
  pub blocks_per_group : ℕ
  pub inode_size : ℕ
  pub first_data_block : ℕ

-- `ext2_node_data_t`; the inode is the bytes of an `ext2_inode_t`.
pub record Ext2Data : Type 0 where
  pub fs : Ext2Fs
  pub ino_num : ℕ
  pub inode : List ℕ

-- `fs_data`: null, the data of a file system's node, or the directory data that src/fs/procfs.c shares.
pub data FsData : Type 0 where
  null_data proc_dir : FsData
  tmpfs : TmpfsData → FsData
  proc_file : Option ProcFn → FsData
  ext2 : Ext2Data → FsData

-- `vfs_node_t`
pub record Node : Type 0 where
  pub name : CString
  pub flags : ℕ
  pub size : ℕ
  pub fs_data : FsData
  pub ops : Option OpsId
  pub parent : Option Ptr
  pub mount : Option Ptr

-- `vfs_mount_t`
pub record Mount : Type 0 where
  pub path : CString
  pub root : Option Ptr

-- `mount_table` is its first `mount_count` entries, and `proc_entries` those of `proc_dir_data`.
pub record State : Type 0 where
  pub heap : Heap
  pub pmm : Pmm
  pub console : Console
  pub disks : Disks
  pub nodes : List Node
  pub vfs_root : Option Ptr
  pub mount_table : List Mount
  pub proc_root : Option Ptr
  pub proc_entries : List Ptr

-- A run over the state; `none` is a fault.
abbrev pub M {ℓ} : Type ℓ → Type ℓ
M A = State → Option (A × State)

abbrev pub pure {ℓ} : {A : Type ℓ} → A → M A
pure a s = some (a, s)

abbrev pub fault {ℓ} : {A : Type ℓ} → M A
fault s = none

infixl 5 ◌>>=◌ ◌>>◌
abbrev pub ◌>>=◌ {ℓ κ} : {A : Type ℓ} {B : Type κ} → M A → (A → M B) → M B
◌>>=◌ m f s = elim (m s) [ none ↦ none | some (a, s') ↦ f a s' ]

abbrev pub ◌>>◌ {ℓ} : {B : Type ℓ} → M (Unit {0}) → M B → M B
m >> k = m >>= λ _. k

abbrev pub lift {ℓ} : {A : Type ℓ} → Option A → M A
lift none s = none
lift (some a) s = some (a, s)

-- `*p`
unfoldable pub load : Ptr → M Node
load p s = elim (get_elem? s.nodes p) [ none ↦ none | some n ↦ some (n, s) ]

-- `*p = n`
unfoldable pub store : Ptr → Node → M (Unit {0})
store p n s =
    if ltb p (length s.nodes) then some (tt, record s { nodes = set s.nodes p n }) else none

-- The address of a new node with these contents.
unfoldable pub new_node : Node → M Ptr
new_node n s = some (length s.nodes, record s { nodes = s.nodes ++ n ∷ [] })

unfoldable pub heap_alloc : ℕ → M (Option ℕ)
heap_alloc size s = let (r, h) = kmalloc s.heap size in some (r, record s { heap = h })

unfoldable pub heap_free : ℕ → M (Unit {0})
heap_free a s = elim (kfree s.heap a) [ none ↦ none | some h ↦ some (tt, record s { heap = h }) ]

abbrev pub vfs_flag_file : ℕ
vfs_flag_file = 0x01

abbrev pub vfs_flag_dir : ℕ
vfs_flag_dir = 0x02

abbrev pub vfs_flag_mountpt : ℕ
vfs_flag_mountpt = 0x20

abbrev pub vfs_max_name : ℕ
vfs_max_name = 256

abbrev pub vfs_max_path : ℕ
vfs_max_path = 1024

abbrev pub vfs_max_mounts : ℕ
vfs_max_mounts = 16

-- `flags & f`, as a condition
unfoldable pub has_flag : ℕ → ℕ → Bool
has_flag flags f = not (bit_and flags f == 0)

-- `kstrcmp(a, b) == 0`
unfoldable pub same_name : CString → CString → Bool
same_name a b = elim (kstrcmp a b) [ pos n ↦ n == 0 | negsuc n ↦ false ]

-- A `uint64_t` as an `int64_t`, and the code's -1.
abbrev pub signed64 : ℕ → ℤ
signed64 n = if ltb n (2 ^ 63) then pos n else negsuc (2 ^ 64 - n - 1)

abbrev pub minus_one : ℤ
minus_one = negsuc 0
