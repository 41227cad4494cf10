-- ===== src/Ext2/Nodes.antt =====
-- The nodes of src/fs/ext2.c, its tables of operations, and mounting.
use lxtos.Prelude.{
  ℕ, ◌+◌, ◌-◌, ◌*◌, ◌^◌, true, false, ◌&&◌, Option, none, some, List, [], ◌∷◌, ltb, leb, ◌==◌,
  if◌then◌else◌, replicate, is_some, bit_and, assert, min,
}
use lxtos.Prelude.Int.{ℤ}
use lxtos.KString.{slice, CString, kstrcpy, kmemset}
use lxtos.Fs.{
  Ptr, Ext2Fs, Ext2Data, null_data, proc_dir, tmpfs, proc_file, ext2, ext2_file_ops, ext2_dir_ops,
  Node, State, M, pure, ◌>>=◌, ◌>>◌, lift, load, store, new_node, heap_alloc, heap_free, minus_one,
  signed64, vfs_flag_dir, vfs_flag_file, vfs_max_name,
}
use lxtos.Tmpfs.{node_size}
use lxtos.Ext2.{
  u32, inode_bytes, get_le, put_le, with_buffer, on_stack, read_sector, ext2_write_block,
  ext2_read_inode, ext2_write_inode, ext2_alloc_inode, ext2_alloc_block, is_negative,
}
use lxtos.Ext2.Entries.{nth_from}
use lxtos.Ext2.Files.{
  at_mode, at_size, at_block, new_inode, with_dir, ext2_read_inode_data, ext2_dir_lookup,
  ext2_dir_add_entry, ext2_create_file, ext2_write_file,
}

-- `sizeof(ext2_node_data_t)` and `sizeof(ext2_fs_t)`
abbrev pub ext2_data_size : ℕ
ext2_data_size = 128

abbrev pub ext2_fs_size : ℕ
ext2_fs_size = 28

-- `(ext2_node_data_t *)node->fs_data`
unfoldable pub ext2_of : Node → Option Ext2Data
ext2_of n = elim n.fs_data [
  | null_data ↦ none
  | proc_dir ↦ none
  | tmpfs d ↦ none
  | proc_file f ↦ none
  | ext2 d ↦ some d
]

-- The node of an inode; both allocations are made before either is checked.
abbrev pub ext2_node : Ext2Fs → ℕ → List ℕ → ℕ → ℕ → Node
ext2_node fs ino_num inode size mode =
    let is_dir = bit_and mode 0xF000 == 0x4000 in
    record {
      name = [];
      flags = if is_dir then vfs_flag_dir else vfs_flag_file;
      size = size;
      fs_data = ext2 (record { fs = fs; ino_num = ino_num; inode = inode });
      ops = some (if is_dir then ext2_dir_ops else ext2_file_ops);
      parent = none;
      mount = none;
    }

-- Fields, each with its offset, its width and its value, written one after the other.
unfoldable pub put_fields : List (ℕ × ℕ × ℕ) → List ℕ → Option (List ℕ)
put_fields [] buf = some buf
put_fields ((at, width, v) ∷ fields) buf = elim (put_le buf at width v) [
  | none ↦ none
  | some buf' ↦ put_fields fields buf'
]

-- The entries `.` and `..` in the cleared block of a new directory
unfoldable pub dot_entries : Ext2Fs → ℕ → ℕ → List ℕ → Option (List ℕ)
dot_entries fs new_ino parent_ino buf = elim (kmemset buf 0 0 fs.block_size) [
  | none ↦ none
  | some cleared ↦
      put_fields
        ((0, 4, new_ino)
          ∷ (4, 2, 12)
          ∷ (6, 1, 1)
          ∷ (7, 1, 2)
          ∷ (8, 1, b'.')
          ∷ (12, 4, parent_ino)
          ∷ (16, 2, fs.block_size + (2 ^ 32 - 12))
          ∷ (18, 1, 2)
          ∷ (19, 1, 2)
          ∷ (20, 1, b'.')
          ∷ (21, 1, b'.')
          ∷ [])
        cleared
]

-- `fs` as the superblock says; a shift by 32 or more has no meaning.
unfoldable pub fs_of : ℤ → ℤ → List ℕ → M Ext2Fs
fs_of bus drive sb = do
  log ← lift (get_le sb 24 4)
  lift (assert (ltb log 32))
  inodes ← lift (get_le sb 40 4)
  blocks ← lift (get_le sb 32 4)
  rev ← lift (get_le sb 76 4)
  size ← lift (get_le sb 88 2)
  first ← lift (get_le sb 20 4)
  pure (record {
    bus = bus;
    drive = drive;
    block_size = u32 (1024 * 2 ^ log);
    inodes_per_group = inodes;
    blocks_per_group = blocks;
    inode_size = if leb 1 rev then size else 128;
    first_data_block = first;
  })

module _ (stale : State → ℕ → List ℕ) where
  unfoldable pub ext2_make_vnode : Ext2Fs → ℕ → M (Option Ptr)
  ext2_make_vnode fs ino_num = do
    d ← heap_alloc ext2_data_size
    n ← heap_alloc node_size
    elim (is_some d && is_some n) [
      | false ↦ pure none
      | true ↦ (do
        r ← ext2_read_inode stale fs ino_num (replicate inode_bytes 0)
        size ← lift (get_le r.1 at_size 4)
        mode ← lift (get_le r.1 at_mode 2)
        p ← new_node (ext2_node fs ino_num r.1 size mode)
        pure (some p))
    ]

  unfoldable pub ext2_vfs_read : Ptr → ℕ → ℕ → M (ℤ × List ℕ)
  ext2_vfs_read p offset size = do
    n ← load p
    d ← lift (ext2_of n)
    ext2_read_inode_data stale d.fs d.inode offset size

  unfoldable pub ext2_vfs_write : Ptr → List ℕ → ℕ → ℕ → M ℤ
  ext2_vfs_write p src offset size = do
    n ← load p
    d ← lift (ext2_of n)
    r ← ext2_write_file stale d.fs d.ino_num src (u32 size)
    elim (is_negative r) [
      | true ↦ pure minus_one
      | false ↦ (do
        inode ← lift (put_le d.inode at_size 4 size)
        store p (record n { fs_data = ext2 (record d { inode = inode }); size = size })
        pure (signed64 size))
    ]

  -- What follows the allocations of `ext2_vfs_mkdir`.
  unfoldable pub make_dir : Ext2Data → CString → ℕ → ℕ → M (Option Ptr)
  make_dir d name new_ino block = with_buffer stale d.fs.block_size (pure none) (λ b. do
    empty ← lift (new_inode 0x41ED 2 d.fs.block_size)
    inode ← lift (put_le empty at_block 4 block)
    buf ← lift (dot_entries d.fs new_ino d.ino_num b.bytes)
    w ← ext2_write_block d.fs block buf
    heap_free b.addr
    v ← ext2_write_inode stale d.fs new_ino inode
    unset ← on_stack stale inode_bytes
    dir ← ext2_read_inode stale d.fs d.ino_num unset
    r ← ext2_dir_add_entry stale d.fs dir.1 new_ino name 2
    ext2_make_vnode d.fs new_ino)

  unfoldable pub ext2_vfs_mkdir : Ptr → CString → M (Option Ptr)
  ext2_vfs_mkdir parent name = do
    n ← load parent
    d ← lift (ext2_of n)
    new_ino ← ext2_alloc_inode stale d.fs
    elim (new_ino == 0) [
      | true ↦ pure none
      | false ↦ (do
        block ← ext2_alloc_block stale d.fs
        elim (block == 0) [ true ↦ pure none | false ↦ make_dir d name new_ino block ])
    ]

  unfoldable pub ext2_vfs_finddir : Ptr → CString → M (Option Ptr)
  ext2_vfs_finddir p name = do
    n ← load p
    d ← lift (ext2_of n)
    ino ← ext2_dir_lookup stale d.fs d.inode name
    elim (ino == 0) [
      | true ↦ pure none
      | false ↦ (do
        r ← ext2_make_vnode d.fs ino
        elim r [
          | none ↦ pure none
          | some c ↦ (do
            child ← load c
            store c (record child { name = kstrcpy name vfs_max_name })
            pure (some c))
        ])
    ]

  -- The node of the entry found, with its name.
  unfoldable pub entry_node : Ext2Fs → List ℕ → Option (ℕ × ℕ × ℕ) → M (Option Ptr)
  entry_node fs buf none = pure none
  entry_node fs buf (some (ino, at, len)) = do
    r ← ext2_make_vnode fs ino
    elim r [
      | none ↦ pure none
      | some c ↦ (do
        child ← load c
        name ← lift (slice buf at (min len (vfs_max_name - 1)))
        store c (record child { name = name })
        pure (some c))
    ]

  unfoldable pub ext2_vfs_readdir : Ptr → ℕ → M (Option Ptr)
  ext2_vfs_readdir p index = do
    n ← load p
    d ← lift (ext2_of n)
    with_dir stale d.fs d.inode none (λ buf got. do
      found ← lift (nth_from (got + 1) buf got index 0 0)
      entry_node d.fs buf found)

  unfoldable pub ext2_vfs_mkfile : Ptr → CString → M (Option Ptr)
  ext2_vfs_mkfile parent name = do
    n ← load parent
    d ← lift (ext2_of n)
    new_ino ← ext2_create_file stale d.fs d.ino_num name
    elim (new_ino == 0) [ true ↦ pure none | false ↦ ext2_make_vnode d.fs new_ino ]

  -- Without memory for `fs` the writes go through NULL, a fault.
  unfoldable pub ext2_mount : ℤ → ℤ → M (Option Ptr)
  ext2_mount bus drive = do
    unset ← on_stack stale 1024
    r1 ← read_sector bus drive 2 unset 0
    r2 ← read_sector bus drive 3 r1.1 512
    magic ← lift (get_le r2.1 56 2)
    elim (magic == 0xEF53) [
      | false ↦ pure none
      | true ↦ (do
        room ← heap_alloc ext2_fs_size
        lift (assert (is_some room))
        fs ← fs_of bus drive r2.1
        ext2_make_vnode fs 2)
    ]
