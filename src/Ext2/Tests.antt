-- ===== src/Ext2/Tests.antt =====
-- A directory of src/fs/ext2.c with `.` and `..`, and the theorems there.
use lxtos.Prelude.{
  ℕ, ◌+◌, ◌<◌, ◌≡◌, ◌≢◌, refl, none, some, List, [], ◌∷◌, ◌⊎◌, arith, length, replicate,
}
use lxtos.KString.{slice, CString}
use lxtos.Ext2.{le_value, le_bytes, get_le, ext2_read_block, ext2_write_block}
use lxtos.Ext2.Entries.{name_matches, entry_hit, lookup_from, add_from, nth_from}
use lxtos.Ext2.Directory.{DirEntry, encode_entry, encode, AllEntries, find_ino, lookup_from-encode}
use lxtos.Ext2.Found.{NoRoom, lookup_from-add_from}
use lxtos.Ext2.Blocks.{ext2_read_block-write}
use lxtos.Prelude.Int.{pos}
use lxtos.Prelude.{false, length-replicate}
use lxtos.Keyboard.{initial_console}
use lxtos.KMalloc.{kmalloc_init}
use lxtos.Fs.{Ext2Fs, State}

-- 44 bytes, with 20 to spare behind `..`.
abbrev entries : List DirEntry
entries =
    record { ino = 2; kind = 2; name = b'.' ∷ []; pad = replicate 3 0 }
    ∷ record { ino = 2; kind = 2; name = b'.' ∷ b'.' ∷ []; pad = replicate 22 0 }
    ∷ []

abbrev a_name : CString
a_name = b'a' ∷ []

entries-AllEntries : AllEntries entries
entries-AllEntries = omega arith

size_run : 44 ≡ length (encode entries)
unfolding encode encode_entry le_bytes
size_run = refl

no_a : lookup_from 45 (encode entries) 44 a_name 0 ≡ some 0
unfolding lookup_from entry_hit get_le slice le_value name_matches encode encode_entry le_bytes
no_a = refl

-- The second entry that is in use.
nth_run : nth_from 45 (encode entries) 44 1 0 0 ≡ some (some (2, 20, 2))
unfolding nth_from get_le slice le_value encode encode_entry le_bytes
nth_run = refl

lookup_from-encode_example :
    lookup_from 45 (encode entries) 44 (b'.' ∷ b'.' ∷ []) 0
    ≡ some (find_ino entries (b'.' ∷ b'.' ∷ []))
unfolding encode encode_entry le_bytes
lookup_from-encode_example =
    lookup_from-encode 45 (encode entries) 44 0 [] [] entries (b'.' ∷ b'.' ∷ []) (omega arith) refl
      refl refl (omega arith) entries-AllEntries (omega arith)

lookup_from-add_from_example :
    (NoRoom 1 entries × (add_from (44 + 1) (encode entries) 44 12 a_name 1 0 ≡ some none))
    ⊎ ((buf : List ℕ) × (add_from (44 + 1) (encode entries) 44 12 a_name 1 0 ≡ some (some buf))
        × (length buf ≡ 44)
        × (lookup_from (44 + 1) buf 44 a_name 0 ≡ some 12)
        × ((other : CString)
            → length other < 256
            → a_name ≢ other
            → lookup_from (44 + 1) buf 44 other 0
              ≡ lookup_from (44 + 1) (encode entries) 44 other 0))
lookup_from-add_from_example =
    lookup_from-add_from entries 44 12 a_name 1 entries-AllEntries size_run (omega arith)
      (omega arith) (omega arith) (omega arith) no_a

-- A drive that refuses nothing, and a file system of 1024 bytes to a block on it.
abbrev fs : Ext2Fs
fs = record {
  bus = pos 0;
  drive = pos 0;
  block_size = 1024;
  inodes_per_group = 8;
  blocks_per_group = 8;
  inode_size = 128;
  first_data_block = 1;
}

abbrev state : State
state = record {
  heap = kmalloc_init 4096 4096;
  pmm = record { bitmap = []; total = 0; used = 0; total_ram = 0 };
  console = initial_console [];
  disks = record { sectors = λ b v l. replicate 512 0; broken = λ b v l. false };
  nodes = [];
  vfs_root = none;
  mount_table = [];
  proc_root = none;
  proc_entries = [];
}

ext2_read_block-write_example :
    (s' : State) × (ext2_write_block fs 5 (replicate 1024 7) state ≡ some (pos 0, s'))
    × (ext2_read_block fs 5 (replicate 1024 0) s' ≡ some ((pos 0, replicate 1024 7), s'))
ext2_read_block-write_example =
    ext2_read_block-write fs 0 5 (replicate 1024 7) (replicate 1024 0) state refl refl
      (length-replicate {A = ℕ} 1024 7) (length-replicate {A = ℕ} 1024 0) (omega arith)
      (λ k h. refl)
