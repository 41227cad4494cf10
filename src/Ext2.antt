-- ===== src/Ext2.antt =====
-- The second file system of Linux, src/fs/ext2.c: blocks, inodes and the allocation of both.
-- A structure on the disk is its bytes, and a field of it a number of little-endian bytes in it; an access
-- behind the bytes is a fault. What memory holds before it is written, from kmalloc or on the stack, is the
-- parameter `stale` of state and size.
pub mod Bytes
pub mod Entries
pub mod Directory
pub mod Insert
pub mod Added
pub mod Found
pub mod Blocks
pub mod Files
pub mod Nodes
mod Tests
use lxtos.Prelude.{
  ℕ, zero, suc, ◌+◌, ◌-◌, ◌*◌, ◌/◌, ◌%◌, ◌^◌, Bool, true, false, not, Option, none, some, List, [],
  ◌∷◌, ltb, leb, ◌==◌, if◌then◌else◌, length, set, get_elem?, take, drop, assert, bit_or, bit_and,
}
use lxtos.Prelude.Int.{ℤ, pos, negsuc}
use lxtos.KString.{slice, kmemcpy}
use lxtos.Disk.{ata_read_sector, ata_write_sector}
use lxtos.Fs.{
  Ptr, Buffer, Ext2Fs, State, M, pure, fault, ◌>>=◌, ◌>>◌, lift, heap_alloc, heap_free, minus_one,
}

abbrev pub u32 : ℕ → ℕ
u32 n = n % 2 ^ 32

-- `sizeof(ext2_inode_t)` and `sizeof(ext2_bgd_t)`
abbrev pub inode_bytes : ℕ
inode_bytes = 116

abbrev pub bgd_bytes : ℕ
bgd_bytes = 32

-- The bytes of a field, the lowest first, and the number that they stand for.
unfoldable pub le_value : List ℕ → ℕ
le_value [] = 0
le_value (b ∷ bs) = b + 256 * le_value bs

unfoldable pub le_bytes : ℕ → ℕ → List ℕ
le_bytes zero v = []
le_bytes (suc width) v = v % 256 ∷ le_bytes width (v / 256)

-- The field of `width` bytes at `off`: reading and writing it.
unfoldable pub get_le : List ℕ → ℕ → ℕ → Option ℕ
get_le buf off width = elim (slice buf off width) [ none ↦ none | some bs ↦ some (le_value bs) ]

unfoldable pub put_le : List ℕ → ℕ → ℕ → ℕ → Option (List ℕ)
put_le buf off width v = kmemcpy buf off (le_bytes width v) 0 width

-- A division by zero is a fault.
abbrev pub nonzero : ℕ → M (Unit {0})
nonzero n = lift (assert (not (n == 0)))

-- `ata_read_sector` into `buf + pos`, and `ata_write_sector` from there
unfoldable pub read_sector : ℤ → ℤ → ℕ → List ℕ → ℕ → M (ℤ × List ℕ)
read_sector bus drive lba buf at s = elim (ata_read_sector bus drive lba s.disks) [
  | none ↦ none
  | some none ↦ some ((minus_one, buf), s)
  | some (some bytes) ↦ elim (kmemcpy buf at bytes 0 512) [
    | none ↦ none
    | some buf' ↦ some ((pos 0, buf'), s)
  ]
]

unfoldable pub write_sector : ℤ → ℤ → ℕ → List ℕ → ℕ → M ℤ
write_sector bus drive lba buf at s = elim (slice buf at 512) [
  | none ↦ none
  | some bytes ↦ elim (ata_write_sector bus drive lba bytes s.disks) [
    | none ↦ none
    | some none ↦ some (minus_one, s)
    | some (some d) ↦ some (pos 0, record s { disks = d })
  ]
]

-- `result < 0`
abbrev pub is_negative : ℤ → Bool
is_negative (pos n) = false
is_negative (negsuc n) = true

-- The loops over the sectors of a block, from sector `i` on; the buffer is returned with the result.
unfoldable pub read_sectors : Ext2Fs → ℕ → ℕ → ℕ → List ℕ → M (ℤ × List ℕ)
read_sectors fs lba i zero buf = pure (pos 0, buf)
read_sectors fs lba i (suc n) buf = do
  r ← read_sector fs.bus fs.drive (u32 (lba + i)) buf (i * 512)
  elim (is_negative r.0) [
    | true ↦ pure (minus_one, r.1)
    | false ↦ read_sectors fs lba (i + 1) n r.1
  ]

unfoldable pub write_sectors : Ext2Fs → ℕ → ℕ → ℕ → List ℕ → M ℤ
write_sectors fs lba i zero buf = pure (pos 0)
write_sectors fs lba i (suc n) buf = do
  r ← write_sector fs.bus fs.drive (u32 (lba + i)) buf (i * 512)
  elim (is_negative r) [ true ↦ pure minus_one | false ↦ write_sectors fs lba (i + 1) n buf ]

abbrev pub sectors_per_block : Ext2Fs → ℕ
sectors_per_block fs = fs.block_size / 512

unfoldable pub ext2_read_block : Ext2Fs → ℕ → List ℕ → M (ℤ × List ℕ)
ext2_read_block fs block buf =
    read_sectors fs (u32 (block * sectors_per_block fs)) 0 (sectors_per_block fs) buf

unfoldable pub ext2_write_block : Ext2Fs → ℕ → List ℕ → M ℤ
ext2_write_block fs block buf =
    write_sectors fs (u32 (block * sectors_per_block fs)) 0 (sectors_per_block fs) buf

-- The block of the group descriptors
abbrev pub bgd_block : Ext2Fs → ℕ
bgd_block fs = u32 (fs.first_data_block + 1)

-- `ino - 1`
abbrev pub ino_index : ℕ → ℕ
ino_index ino = (ino + (2 ^ 32 - 1)) % 2 ^ 32

-- The lowest bit of a byte that is 0, and the first byte that has one, with it.
unfoldable pub clear_bit : ℕ → ℕ → ℕ → Option ℕ
clear_bit b zero k = none
clear_bit b (suc n) k =
    let rest = clear_bit b n (k + 1) in if bit_and b (2 ^ k) == 0 then some k else rest

unfoldable pub free_bit : ℕ → Option ℕ
free_bit b = if b == 0xFF then none else clear_bit b 8 0

unfoldable pub find_clear : List ℕ → ℕ → ℕ → Option (Option (ℕ × ℕ))
find_clear bitmap zero i = some none
find_clear bitmap (suc n) i = elim (get_elem? bitmap i) [
  | none ↦ none
  | some b ↦ elim (free_bit b) [ some k ↦ some (some (i, k)) | none ↦ find_clear bitmap n (i + 1) ]
]

module _ (stale : State → ℕ → List ℕ) where
  -- `kmalloc(size)` with what follows if there is memory, and if not
  unfoldable pub with_buffer {ℓ} : {A : Type ℓ} → ℕ → M A → (Buffer → M A) → M A
  with_buffer size missing run = do
    r ← heap_alloc size
    elim r [ none ↦ missing | some a ↦ (λ s. run (record { addr = a; bytes = stale s size }) s) ]

  -- A variable of so many bytes on the stack
  unfoldable pub on_stack : ℕ → M (List ℕ)
  on_stack size s = some (stale s size, s)

  -- The block that holds an inode and its place there, which `ext2_read_inode` and `ext2_write_inode`
  -- compute alike; `none` without memory.
  unfoldable pub inode_place : Ext2Fs → ℕ → M (Option (ℕ × ℕ))
  inode_place fs ino = do
    nonzero fs.inodes_per_group
    with_buffer fs.block_size (pure none) (λ b. do
      bgd ← ext2_read_block fs (bgd_block fs) b.bytes
      table ← lift (get_le bgd.1 (ino_index ino / fs.inodes_per_group * bgd_bytes + 8) 4)
      heap_free b.addr
      nonzero fs.block_size
      let offset = u32 (ino_index ino % fs.inodes_per_group * fs.inode_size)
      pure (some (u32 (table + offset / fs.block_size), offset % fs.block_size)))

  unfoldable pub ext2_read_inode : Ext2Fs → ℕ → List ℕ → M (ℤ × List ℕ)
  ext2_read_inode fs ino out = do
    place ← inode_place fs ino
    elim place [
      | none ↦ pure (minus_one, out)
      | some p ↦ with_buffer fs.block_size (pure (minus_one, out)) (λ b. do
        r ← ext2_read_block fs p.0 b.bytes
        out' ← lift (kmemcpy out 0 r.1 p.1 inode_bytes)
        heap_free b.addr
        pure (pos 0, out'))
    ]

  unfoldable pub ext2_write_inode : Ext2Fs → ℕ → List ℕ → M ℤ
  ext2_write_inode fs ino inode = do
    place ← inode_place fs ino
    elim place [
      | none ↦ pure minus_one
      | some p ↦ with_buffer fs.block_size (pure minus_one) (λ b. do
        r ← ext2_read_block fs p.0 b.bytes
        block ← lift (kmemcpy r.1 p.1 inode 0 inode_bytes)
        w ← ext2_write_block fs p.0 block
        heap_free b.addr
        pure (pos 0))
    ]

  -- The bit set on the disk, and the count of free ones in the descriptor less one.
  unfoldable pub mark_bit : Ext2Fs → ℕ → List ℕ → ℕ → List ℕ → Option (ℕ × ℕ) → M (Unit {0})
  mark_bit fs count_field bgd block bitmap none = pure tt
  mark_bit fs count_field bgd block bitmap (some (i, k)) = do
    b ← lift (get_elem? bitmap i)
    w ← ext2_write_block fs block (set bitmap i (bit_or b (2 ^ k)))
    c ← lift (get_le bgd count_field 2)
    bgd' ← lift (put_le bgd count_field 2 (c + (2 ^ 16 - 1)))
    v ← ext2_write_block fs (bgd_block fs) bgd'
    pure tt

  -- What `ext2_alloc_inode` and `ext2_alloc_block` share: the first bit that is 0 among so many bytes of
  -- the bitmap that the field of the first group's descriptor points to.
  unfoldable pub alloc_bit : Ext2Fs → ℕ → ℕ → ℕ → M (Option (ℕ × ℕ))
  alloc_bit fs map_field count_field size = with_buffer fs.block_size (pure none) (λ g. do
    bgd ← ext2_read_block fs (bgd_block fs) g.bytes
    with_buffer fs.block_size (do heap_free g.addr; pure none)
        (λ m. do
          block ← lift (get_le bgd.1 map_field 4)
          bitmap ← ext2_read_block fs block m.bytes
          found ← lift (find_clear bitmap.1 size 0)
          mark_bit fs count_field bgd.1 block bitmap.1 found
          heap_free m.addr
          heap_free g.addr
          pure found))

  unfoldable pub ext2_alloc_inode : Ext2Fs → M ℕ
  ext2_alloc_inode fs = do
    r ← alloc_bit fs 4 14 (fs.inodes_per_group / 8)
    pure (elim r [ none ↦ 0 | some p ↦ u32 (p.0 * 8 + p.1 + 1) ])

  unfoldable pub ext2_alloc_block : Ext2Fs → M ℕ
  ext2_alloc_block fs = do
    r ← alloc_bit fs 0 12 (fs.blocks_per_group / 8)
    pure (elim r [ none ↦ 0 | some p ↦ u32 (fs.first_data_block + p.0 * 8 + p.1) ])
