-- ===== src/Tmpfs/Tests.antt =====
-- The memory file system at a concrete state, and its theorems there.
use lxtos.Prelude.{◌<◌, ◌≡◌, refl, true, false, some, none, [], ◌∷◌, ◌⊎◌, inl, arith}
use lxtos.Prelude.Int.{pos, ◌-ℤ◌}
use lxtos.KString.{CString, kstrcmp, signed_char, kstrcpy, kmemcpy}
use lxtos.Keyboard.{initial_console}
use lxtos.KMalloc.Alloc.{NoFit}
use lxtos.KMalloc.{Heap, align8, kmalloc, find_free, take_block, split}
use lxtos.KMalloc.Tiling
use lxtos.Pmm.{Pmm}
use lxtos.Disk.{no_disks}
use lxtos.Fs.{
  Node, TmpfsData, tmpfs, State, tmpfs_dir_ops, tmpfs_file_ops, vfs_flag_dir, vfs_flag_file,
  minus_one, same_name, load, store, heap_alloc, new_node, has_flag,
}
use lxtos.Fs.Names.{same_name_refl}
use lxtos.Tmpfs.{
  tmpfs_of, tmpfs_read, copy_in, tmpfs_write, tmpfs_finddir, tmpfs_alloc_node, attach, add_child,
  tmpfs_unlink,
}
use lxtos.Tmpfs.Grow.{IsFile}
use lxtos.Tmpfs.Copy.{Wrote}
use lxtos.Tmpfs.Read.{tmpfs_read_lem}
use lxtos.Tmpfs.Write.{tmpfs_write_lem}
use lxtos.Tmpfs.ReadBack.{tmpfs_read-write}
use lxtos.Tmpfs.Names.{Absent, Called}
use lxtos.Tmpfs.Add.{IsDir}
use lxtos.Tmpfs.Dir.{Unlinked, tmpfs_finddir-add_child, tmpfs_unlink_lem}

-- 16 bytes in use, and the rest free.
abbrev heap : Heap
heap = record {
  base = 4096;
  total = 4096;
  blocks =
      record { addr = 4096; size = 16; free = false }
      ∷ record { addr = 4136; size = 4032; free = true }
      ∷ [];
}

abbrev pages : Pmm
pages = record { bitmap = []; total = 0; used = 0; total_ram = 0 }

heap-IsValid : Tiling.IsValid heap
heap-IsValid = omega arith

abbrev root_data : TmpfsData
root_data = record { buf = none; buf_size = 0; children = 1 ∷ 2 ∷ [] }

abbrev root : Node
root = record {
  name = b'/' ∷ [];
  flags = vfs_flag_dir;
  size = 0;
  fs_data = tmpfs root_data;
  ops = some tmpfs_dir_ops;
  parent = none;
  mount = none;
}

abbrev note_data : TmpfsData
note_data = record {
  buf = some (record { addr = 4120; bytes = b'o' ∷ b'n' ∷ b'e' ∷ [] });
  buf_size = 3;
  children = [];
}

abbrev file : CString → TmpfsData → Node
file name d = record {
  name = name;
  flags = vfs_flag_file;
  size = d.buf_size;
  fs_data = tmpfs d;
  ops = some tmpfs_file_ops;
  parent = some 0;
  mount = none;
}

abbrev log : CString
log = b'l' ∷ b'o' ∷ b'g' ∷ []

abbrev note : CString
note = b'n' ∷ b'o' ∷ b't' ∷ b'e' ∷ []

abbrev tmp : CString
tmp = b't' ∷ b'm' ∷ b'p' ∷ []

-- A directory with an empty file `log` and the file `note`.
abbrev state : State
state = record {
  heap = heap;
  nodes =
      root
      ∷ file log (record { buf = none; buf_size = 0; children = [] })
      ∷ file note note_data
      ∷ [];
  vfs_root = some 0;
  mount_table = [];
  pmm = pages;
  proc_root = none;
  console = initial_console [];
  disks = no_disks;
  proc_entries = [];
}

note-IsFile : IsFile state 2 (file note note_data) note_data
note-IsFile = record {
  at_p = refl;
  is_tmpfs = refl;
  sized = refl;
  size_eq = refl;
  heap_valid = heap-IsValid;
  owns = inl refl;
}

root-IsDir : IsDir state 0 root root_data
root-IsDir = record { at_p = refl; is_tmpfs = refl }

log_ne-note : same_name log note ≡ false
unfolding same_name kstrcmp signed_char ◌-ℤ◌
log_ne-note = refl

log_ne-tmp : same_name log tmp ≡ false
unfolding same_name kstrcmp signed_char ◌-ℤ◌
log_ne-tmp = refl

note_ne-tmp : same_name note tmp ≡ false
unfolding same_name kstrcmp signed_char ◌-ℤ◌
note_ne-tmp = refl

no_tmp : Absent state tmp (1 ∷ 2 ∷ [])
no_tmp = ((_, refl, log_ne-tmp), ((_, refl, note_ne-tmp), tt))

before_note : Absent state note (1 ∷ [])
before_note = ((_, refl, log_ne-note), tt)

Called-note : Called state note 2
Called-note = (file note note_data, refl, same_name_refl note)

tmpfs_read_example : tmpfs_read 2 1 8 state ≡ some ((pos 2, b'n' ∷ b'e' ∷ []), state)
tmpfs_read_example =
    tmpfs_read_lem state 2 (file note note_data) note_data 1 8 refl refl refl (omega arith)

tmpfs_write_example :
    ((3 < 4)
      × NoFit (align8 4) state.heap.blocks
      × (tmpfs_write 2 (b'x' ∷ b'y' ∷ []) 2 2 state ≡ some (minus_one, state)))
    ⊎ ((s' : State) × (tmpfs_write 2 (b'x' ∷ b'y' ∷ []) 2 2 state ≡ some (pos 2, s'))
        × Wrote state 2 (file note note_data) note_data 2 (b'x' ∷ b'y' ∷ []) s')
tmpfs_write_example =
    tmpfs_write_lem state 2 (file note note_data) note_data (b'x' ∷ b'y' ∷ []) 2 note-IsFile
      (omega arith)

-- `one` becomes `oxy`, in place.
abbrev written : State
written = record state {
  nodes =
      root
      ∷ file log (record { buf = none; buf_size = 0; children = [] })
      ∷ file note (record note_data {
        buf = some (record { addr = 4120; bytes = b'o' ∷ b'x' ∷ b'y' ∷ [] });
      })
      ∷ [];
}

writes : tmpfs_write 2 (b'x' ∷ b'y' ∷ []) 1 2 state ≡ some (pos 2, written)
unfolding tmpfs_write load tmpfs_of copy_in store kmemcpy
writes = refl

tmpfs_read-write_example : tmpfs_read 2 1 2 written ≡ some ((pos 2, b'x' ∷ b'y' ∷ []), written)
tmpfs_read-write_example =
    tmpfs_read-write state written 2 (file note note_data) note_data (b'x' ∷ b'y' ∷ []) 1
      note-IsFile (omega arith) (omega arith) writes

-- After `tmpfs_mkdir(root, "tmp")`.
abbrev added : State
added = record {
  heap = record {
    base = 4096;
    total = 4096;
    blocks =
        record { addr = 4096; size = 16; free = false }
        ∷ record { addr = 4136; size = 304; free = false }
        ∷ record { addr = 4464; size = 536; free = false }
        ∷ record { addr = 5024; size = 3144; free = true }
        ∷ [];
  };
  nodes =
      record root { fs_data = tmpfs (record root_data { children = 1 ∷ 2 ∷ 3 ∷ [] }) }
      ∷ file log (record { buf = none; buf_size = 0; children = [] })
      ∷ file note note_data
      ∷ record {
        name = tmp;
        flags = vfs_flag_dir;
        size = 0;
        fs_data = tmpfs (record { buf = none; buf_size = 0; children = [] });
        ops = some tmpfs_dir_ops;
        parent = some 0;
        mount = none;
      }
      ∷ [];
  vfs_root = some 0;
  mount_table = [];
  pmm = pages;
  proc_root = none;
  console = initial_console [];
  disks = no_disks;
  proc_entries = [];
}

adds : add_child 0 tmp vfs_flag_dir state ≡ some (some 3, added)
unfolding add_child load tmpfs_of tmpfs_alloc_node heap_alloc new_node attach store kmalloc
    find_free take_block split kstrcpy has_flag
adds = refl

tmpfs_finddir-add_child_example : tmpfs_finddir 0 tmp added ≡ some (some 3, added)
tmpfs_finddir-add_child_example =
    tmpfs_finddir-add_child state added 0 root root_data tmp vfs_flag_dir 3 root-IsDir heap-IsValid
      no_tmp (omega arith) (omega arith) adds

tmpfs_unlink_example :
    (s' : State) × (tmpfs_unlink 0 note state ≡ some (pos 0, s'))
    × Unlinked state 0 root root_data (1 ∷ []) s'
tmpfs_unlink_example =
    tmpfs_unlink_lem state 0 root root_data note (1 ∷ []) 2 [] root-IsDir refl before_note
      Called-note
