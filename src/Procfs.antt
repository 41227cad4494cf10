-- ===== src/Procfs.antt =====
-- The files that report on the kernel, src/fs/procfs.c.
-- What `cpuid` answers is a parameter. A buffer that a function fills is the list of the bytes that it
-- has written, and its result is their number.
pub mod Texts
pub mod Read
pub mod Names
mod Tests
use lxtos.Prelude.{
  ℕ, zero, suc, ◌+◌, ◌-◌, ◌*◌, ◌/◌, ◌%◌, ◌^◌, Bool, true, false, Option, none, some, List, [], ◌∷◌,
  ◌++◌, ltb, leb, ◌==◌, if◌then◌else◌, length, get_elem?, take, drop, is_some,
}
use lxtos.Prelude.Int.{ℤ, pos, negsuc}
use lxtos.KString.{CString, kstrcpy}
use lxtos.KMalloc.{kmalloc_heap_size, kmalloc_free_size}
use lxtos.Pmm.{Pmm, page_size, pmm_free_pages, pmm_total_bytes}
use lxtos.Digits.{kitoa}
use lxtos.Fs.{
  Ptr, FsData, ProcFn, mem, cpu_vendor, cpu_model, mem_total, heap_total, heap_free_size, mem_free,
  null_data, proc_dir, tmpfs, proc_file, ext2, Node, State, M, pure, fault, ◌>>=◌, ◌>>◌, lift, load,
  new_node, heap_alloc, procfs_file_ops, procfs_dir_ops, vfs_flag_file, vfs_flag_dir,
  vfs_flag_mountpt, vfs_max_name,
}
use lxtos.Tmpfs.{find_child, node_size}

abbrev pub procfs_max_entries : ℕ
procfs_max_entries = 32

-- `sizeof(procfs_file_data_t)`
abbrev pub file_data_size : ℕ
file_data_size = 8

-- The four registers that `cpuid` leaves.
pub record Registers : Type 0 where
  pub eax : ℕ
  pub ebx : ℕ
  pub ecx : ℕ
  pub edx : ℕ

-- `kitoa` takes a `uint32_t`.
abbrev pub decimal : ℕ → CString
decimal n = kitoa (n % 2 ^ 32)

abbrev pub mb : CString
mb = b' ' ∷ b'M' ∷ b'B' ∷ b'\n' ∷ []

abbrev pub end_line : CString
end_line = b'\n' ∷ []

abbrev pub mem_total_label : CString
mem_total_label =
    b'm' ∷ b'e' ∷ b'm' ∷ b' ' ∷ b't' ∷ b'o' ∷ b't' ∷ b'a' ∷ b'l' ∷ b':' ∷ b' ' ∷ b' ' ∷ []

abbrev pub heap_total_label : CString
heap_total_label =
    b'h' ∷ b'e' ∷ b'a' ∷ b'p' ∷ b' ' ∷ b't' ∷ b'o' ∷ b't' ∷ b'a' ∷ b'l' ∷ b':' ∷ b' ' ∷ []

abbrev pub heap_free_label : CString
heap_free_label =
    b'h' ∷ b'e' ∷ b'a' ∷ b'p' ∷ b' ' ∷ b'f' ∷ b'r' ∷ b'e' ∷ b'e' ∷ b':' ∷ b' ' ∷ b' ' ∷ []

abbrev pub mem_free_label : CString
mem_free_label =
    b'm' ∷ b'e' ∷ b'm' ∷ b' ' ∷ b'f' ∷ b'r' ∷ b'e' ∷ b'e' ∷ b':' ∷ b' ' ∷ b' ' ∷ b' ' ∷ []

unfoldable pub proc_mem_total_read : State → CString
proc_mem_total_read s = decimal (pmm_total_bytes s.pmm / 1024 / 1024) ++ mb

unfoldable pub proc_heap_total_read : State → CString
proc_heap_total_read s = decimal (kmalloc_heap_size s.heap) ++ end_line

unfoldable pub proc_heap_free_read : State → CString
proc_heap_free_read s = decimal (kmalloc_free_size s.heap) ++ end_line

unfoldable pub proc_mem_read : State → CString
proc_mem_read s =
    mem_total_label
    ++ decimal (pmm_total_bytes s.pmm / 1024 / 1024)
    ++ mb
    ++ heap_total_label
    ++ decimal (kmalloc_heap_size s.heap)
    ++ end_line
    ++ heap_free_label
    ++ decimal (kmalloc_free_size s.heap)
    ++ end_line

unfoldable pub proc_mem_free_read : State → CString
proc_mem_free_read s =
    mem_free_label ++ decimal (pmm_free_pages s.pmm * page_size % 2 ^ 64 / (1024 * 1024)) ++ mb

-- The four bytes of a register, the lowest first.
abbrev pub reg_bytes : ℕ → CString
reg_bytes r = r % 256 ∷ r / 2 ^ 8 % 256 ∷ r / 2 ^ 16 % 256 ∷ r / 2 ^ 24 % 256 ∷ []

-- `for (i = 0; str[i]; i++)`, and with a bound on `i`
unfoldable pub until_nul : CString → CString
until_nul [] = []
until_nul (c ∷ s) = elim (c == 0) [ true ↦ [] | false ↦ c ∷ until_nul s ]

abbrev pub brand : Registers → CString
brand r = reg_bytes r.eax ++ reg_bytes r.ebx ++ reg_bytes r.ecx ++ reg_bytes r.edx

-- The range of a text that `procfs_read` copies; `tmp` has 4096 bytes.
unfoldable pub read_text : CString → ℕ → ℕ → Option (ℤ × List ℕ)
read_text text offset size =
    if ltb 4096 (length text)
    then none
    else if leb (length text) offset
    then some (pos 0, [])
    else (let avail = length text - offset in
        let to_read = if ltb size avail then size else avail in
        some (pos to_read, take to_read (drop offset text)))

-- `(procfs_file_data_t *)node->fs_data`
unfoldable pub proc_fn_of : Node → Option (Option ProcFn)
proc_fn_of n = elim n.fs_data [
  | null_data ↦ none
  | proc_dir ↦ none
  | tmpfs d ↦ none
  | proc_file f ↦ some f
  | ext2 d ↦ none
]

module _ (cpuid : ℕ → Registers) where
  unfoldable pub proc_cpu_vendor_read : CString
  proc_cpu_vendor_read =
      let r = cpuid 0 in
      until_nul (reg_bytes r.ebx ++ reg_bytes r.edx ++ reg_bytes r.ecx) ++ end_line

  unfoldable pub proc_cpu_model_read : CString
  proc_cpu_model_read =
      until_nul (brand (cpuid 0x80000002) ++ brand (cpuid 0x80000003) ++ brand (cpuid 0x80000004))
      ++ end_line

  -- `d->fn(tmp, sizeof(tmp))`
  unfoldable pub proc_text : ProcFn → State → CString
  proc_text mem s = proc_mem_read s
  proc_text cpu_vendor s = proc_cpu_vendor_read
  proc_text cpu_model s = proc_cpu_model_read
  proc_text mem_total s = proc_mem_total_read s
  proc_text heap_total s = proc_heap_total_read s
  proc_text heap_free_size s = proc_heap_free_read s
  proc_text mem_free s = proc_mem_free_read s

  unfoldable pub procfs_read : Ptr → ℕ → ℕ → M (ℤ × List ℕ)
  procfs_read p offset size s =
      (do
        n ← load p
        f ← lift (proc_fn_of n)
        elim f [
          | none ↦ pure (pos 0, [])
          | some fn ↦ lift (read_text (proc_text fn s) offset size)
        ])
        s

unfoldable pub procfs_finddir : Ptr → CString → M (Option Ptr)
procfs_finddir p name s = find_child name s.proc_entries s

-- `(int)index >= count`: an index from 2^31 on is a negative `int` and passes.
unfoldable pub procfs_readdir : Ptr → ℕ → M (Option Ptr)
procfs_readdir p index s =
    if ltb index (2 ^ 31) then some (get_elem? s.proc_entries index, s) else none

-- The variables of the file.
abbrev pub set_root : Option Ptr → M (Unit {0})
set_root r s = some (tt, record s { proc_root = r })

abbrev pub set_entries : List Ptr → M (Unit {0})
set_entries l s = some (tt, record s { proc_entries = l })

unfoldable pub procfs_create : M (Option Ptr)
procfs_create = do
  room ← heap_alloc node_size
  elim room [
    | none ↦ (do set_root none; pure none)
    | some a ↦ (do
      p ← new_node (record {
        name = kstrcpy (b'p' ∷ b'r' ∷ b'o' ∷ b'c' ∷ []) vfs_max_name;
        flags = vfs_flag_dir + vfs_flag_mountpt;
        size = 0;
        fs_data = proc_dir;
        ops = some procfs_dir_ops;
        parent = none;
        mount = none;
      })
      set_root (some p)
      set_entries []
      pure (some p))
  ]

-- Both allocations are made before either is checked.
unfoldable pub register_at : Ptr → List Ptr → CString → Option ProcFn → M (Option Ptr)
register_at root entries name fn = do
  node ← heap_alloc node_size
  room ← heap_alloc file_data_size
  if is_some node
      then (if is_some room
          then (do
            p ← new_node (record {
              name = kstrcpy name vfs_max_name;
              flags = vfs_flag_file;
              size = 0;
              fs_data = proc_file fn;
              ops = some procfs_file_ops;
              parent = some root;
              mount = none;
            })
            set_entries (entries ++ p ∷ [])
            pure (some p))
          else pure none)
      else pure none

unfoldable pub procfs_register : CString → Option ProcFn → M (Option Ptr)
procfs_register name fn s = elim s.proc_root [
  | none ↦ some (none, s)
  | some root ↦
      if leb procfs_max_entries (length s.proc_entries)
      then some (none, s)
      else register_at root s.proc_entries name fn s
]
