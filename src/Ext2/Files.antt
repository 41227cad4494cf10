-- ===== src/Ext2/Files.antt =====
-- The contents of files and directories on the disk, src/fs/ext2.c.
-- The bytes that are read are returned with their number.
use lxtos.Prelude.{
  ℕ, zero, suc, ◌+◌, ◌-◌, ◌*◌, ◌/◌, ◌%◌, ◌^◌, true, false, Option, none, some, List, [], ◌++◌, ltb,
  leb, ◌==◌, if◌then◌else◌, length, take, replicate,
}
use lxtos.Prelude.Int.{ℤ, pos}
use lxtos.KString.{slice, CString, kstrlen, kmemcpy, kmemset}
use lxtos.Fs.{Ext2Fs, State, M, pure, fault, ◌>>=◌, ◌>>◌, lift, heap_free, minus_one, signed64}
use lxtos.Ext2.{
  u32, inode_bytes, get_le, put_le, nonzero, ext2_read_block, ext2_write_block, with_buffer,
  on_stack, ext2_read_inode, ext2_write_inode, ext2_alloc_inode, ext2_alloc_block, is_negative,
}
use lxtos.Ext2.Entries.{lookup_from, add_from}

-- Where `i_mode`, `i_size`, `i_links_count` and `i_block` stand in an inode.
abbrev pub at_mode : ℕ
at_mode = 0

abbrev pub at_size : ℕ
at_size = 4

abbrev pub at_links : ℕ
at_links = 26

abbrev pub at_block : ℕ
at_block = 40

-- The loop of `ext2_read_inode_data`; each round but the first starts a block, and the loop stops at the
-- thirteenth block. `offset + read` does not wrap, since it is below `end`.
unfoldable pub read_blocks : ℕ → Ext2Fs → List ℕ → ℕ → ℕ → List ℕ → List ℕ → M (List ℕ)
read_blocks zero fs ino offset end block out = fault
read_blocks (suc rounds) fs ino offset end block out = elim (ltb (offset + length out) end) [
  | false ↦ pure out
  | true ↦ (do
    nonzero fs.block_size
    let at = offset + length out
    let index = u32 (at / fs.block_size)
    let inner = at % fs.block_size
    elim (leb 12 index) [
      | true ↦ pure out
      | false ↦ (do
        number ← lift (get_le ino (at_block + 4 * index) 4)
        elim (number == 0) [
          | true ↦ pure out
          | false ↦ (do
            r ← ext2_read_block fs number block
            let avail = fs.block_size - inner
            let want = end - at
            part ← lift (slice r.1 inner (if ltb avail want then avail else want))
            read_blocks rounds fs ino offset end r.1 (out ++ part))
        ])
    ])
]

-- A cleared inode with its mode, its links and its size.
abbrev pub new_inode : ℕ → ℕ → ℕ → Option (List ℕ)
new_inode mode links size = elim (put_le (replicate inode_bytes 0) at_mode 2 mode) [
  | none ↦ none
  | some i1 ↦ elim (put_le i1 at_links 2 links) [ none ↦ none | some i2 ↦ put_le i2 at_size 4 size ]
]

-- `i_size ? i_size : block_size`
abbrev pub dir_size : Ext2Fs → ℕ → ℕ
dir_size fs i_size = if i_size == 0 then fs.block_size else i_size

module _ (stale : State → ℕ → List ℕ) where
  unfoldable pub ext2_read_inode_data : Ext2Fs → List ℕ → ℕ → ℕ → M (ℤ × List ℕ)
  ext2_read_inode_data fs ino offset size =
      with_buffer stale fs.block_size (pure (minus_one, [])) (λ b. do
        i_size ← lift (get_le ino at_size 4)
        let wanted = (offset + size) % 2 ^ 64
        let end = if ltb i_size wanted then i_size else wanted
        out ← read_blocks 13 fs ino offset end b.bytes []
        heap_free b.addr
        pure (signed64 (length out), out))

  -- A directory read into a buffer of its size, with what follows; `missing` if nothing can be read.
  unfoldable pub with_dir {ℓ} : {A : Type ℓ} → Ext2Fs → List ℕ → A → (List ℕ → ℕ → M A) → M A
  with_dir fs dir missing run = do
    i_size ← lift (get_le dir at_size 4)
    with_buffer stale (dir_size fs i_size) (pure missing) (λ b. do
      r ← ext2_read_inode_data fs dir 0 (dir_size fs i_size)
      elim (length r.1 == 0) [
        | true ↦ (do heap_free b.addr; pure missing)
        | false ↦ (do
          buf ← lift (kmemcpy b.bytes 0 r.1 0 (length r.1))
          a ← run buf (length r.1)
          heap_free b.addr
          pure a)
      ])

  unfoldable pub ext2_dir_lookup : Ext2Fs → List ℕ → CString → M ℕ
  ext2_dir_lookup fs dir name =
      with_dir fs dir 0
        (λ buf got. lift (lookup_from (got + 1) buf got (take (kstrlen name) name) 0))

  unfoldable pub ext2_dir_add_entry : Ext2Fs → List ℕ → ℕ → CString → ℕ → M ℤ
  ext2_dir_add_entry fs dir child name kind = do
    number ← lift (get_le dir at_block 4)
    with_buffer stale fs.block_size (pure minus_one) (λ b. do
      r ← ext2_read_block fs number b.bytes
      added ←
          lift
            (add_from (fs.block_size + 1) r.1 fs.block_size child (take (kstrlen name) name) kind 0)
      elim added [
        | none ↦ (do heap_free b.addr; pure minus_one)
        | some buf ↦ (do w ← ext2_write_block fs number buf; heap_free b.addr; pure (pos 0))
      ])

  unfoldable pub ext2_create_file : Ext2Fs → ℕ → CString → M ℕ
  ext2_create_file fs dir_ino name = do
    new_ino ← ext2_alloc_inode stale fs
    elim (new_ino == 0) [
      | true ↦ pure 0
      | false ↦ (do
        inode ← lift (new_inode 0x81A4 1 0)
        w ← ext2_write_inode stale fs new_ino inode
        unset ← on_stack stale inode_bytes
        dir ← ext2_read_inode stale fs dir_ino unset
        r ← ext2_dir_add_entry fs dir.1 new_ino name 1
        pure (if is_negative r then 0 else new_ino))
    ]

  -- The inode with a data block: its own, or a new one; `none` if the disk is full.
  unfoldable pub with_block : Ext2Fs → List ℕ → M (Option (List ℕ))
  with_block fs inode = do
    number ← lift (get_le inode at_block 4)
    elim (number == 0) [
      | false ↦ pure (some inode)
      | true ↦ (do
        new_block ← ext2_alloc_block stale fs
        elim (new_block == 0) [
          | true ↦ pure none
          | false ↦ (do inode' ← lift (put_le inode at_block 4 new_block); pure (some inode'))
        ])
    ]

  -- The block of a file is written, and then its inode.
  unfoldable pub write_first : Ext2Fs → ℕ → List ℕ → List ℕ → ℕ → M ℤ
  write_first fs ino_num inode src size = with_buffer stale fs.block_size (pure minus_one) (λ b. do
    cleared ← lift (kmemset b.bytes 0 0 fs.block_size)
    filled ← lift (kmemcpy cleared 0 src 0 size)
    number ← lift (get_le inode at_block 4)
    w ← ext2_write_block fs number filled
    heap_free b.addr
    inode' ← lift (put_le inode at_size 4 size)
    v ← ext2_write_inode stale fs ino_num inode'
    pure (pos 0))

  unfoldable pub ext2_write_file : Ext2Fs → ℕ → List ℕ → ℕ → M ℤ
  ext2_write_file fs ino_num src size = do
    unset ← on_stack stale inode_bytes
    r ← ext2_read_inode stale fs ino_num unset
    inode ← with_block fs r.1
    elim inode [ none ↦ pure minus_one | some i ↦ write_first fs ino_num i src size ]
