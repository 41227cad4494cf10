-- ===== src/Ext2/Blocks.antt =====
-- Blocks of src/fs/ext2.c: what is written to a block is read from it.
use lxtos.Prelude.{
  ℕ, zero, suc, ◌+◌, ◌*◌, ◌^◌, ◌≤◌, ◌<◌, ◌≡◌, refl, sym, ap, ◌∙◌, false, some, List, arith, length,
  take, drop, ◌==◌, length-take, length-drop, take_all, Bool-cases, inl, inr,
}
use lxtos.Prelude.Int.{pos}
use lxtos.KString.{kmemcpy}
use lxtos.KString.Slices.{slice_at}
use lxtos.KString.Memory.{splice, kmemcpy-splice, length-splice, splice_prefix}
use lxtos.Disk.{Disks, bus_of, drive_of, lba28, ata_read_sector, ata_write_sector, with_sector}
use lxtos.Fs.{Ext2Fs, State, ◌>>=◌}
use lxtos.Ext2.{
  u32, read_sector, write_sector, read_sectors, write_sectors, sectors_per_block, ext2_read_block,
  ext2_write_block,
}

-- Sector `k` of a buffer.
abbrev part : List ℕ → ℕ → List ℕ
part buf k = take 512 (drop (k * 512) buf)

module _ (fs : Ext2Fs) (b : ℕ) (bus : bus_of fs.bus ≡ some b) (lba : ℕ) (buf : List ℕ) where
  -- The disks after `n` sectors from the `i`th on.
  written : ℕ → ℕ → Disks → Disks
  written i zero d = d
  written i (suc n) d =
      written (i + 1) n (with_sector b (drive_of fs.drive) (lba + i) (part buf i) d)

  written_broken :
      (i n : ℕ) (d : Disks) (k : ℕ)
      → (written i n d).broken b (drive_of fs.drive) k ≡ d.broken b (drive_of fs.drive) k
  unfolding written with_sector
  written_broken i zero d k = refl
  written_broken i (suc n) d k =
      written_broken (i + 1) n (with_sector b (drive_of fs.drive) (lba + i) (part buf i) d) k

  same_sector :
      (k : ℕ) (l : List ℕ) (d : Disks)
      → (with_sector b (drive_of fs.drive) k l d).sectors b (drive_of fs.drive) k ≡ l
  unfolding with_sector
  same_sector k l d = ground arith

  other_sector :
      (j k : ℕ) (l : List ℕ) (d : Disks)
      → k < j
      → (with_sector b (drive_of fs.drive) j l d).sectors b (drive_of fs.drive) k
        ≡ d.sectors b (drive_of fs.drive) k
  unfolding with_sector
  other_sector j k l d h = ground arith

  written_below :
      (i n : ℕ) (d : Disks) (k : ℕ)
      → k < lba + i
      → (written i n d).sectors b (drive_of fs.drive) k ≡ d.sectors b (drive_of fs.drive) k
  unfolding written
  written_below i zero d k h = refl
  written_below i (suc n) d k h =
      written_below (i + 1) n (with_sector b (drive_of fs.drive) (lba + i) (part buf i) d) k
        (omega arith)
      ∙ other_sector (lba + i) k (part buf i) d h

  written_at :
      (i n : ℕ) (d : Disks) (k : ℕ)
      → i ≤ k
      → k < i + n
      → (written i n d).sectors b (drive_of fs.drive) (lba + k) ≡ part buf k
  unfolding written
  written_at i zero d k p q = absurd (omega arith)
  written_at i (suc n) d k p q = elim (Bool-cases (i == k)) [
    | inl e ↦
        let same : i ≡ k = ground arith in
        ap
          (λ j.
            (written (i + 1) n (with_sector b (drive_of fs.drive) (lba + i) (part buf i) d)).sectors
              b (drive_of fs.drive) (lba + j))
          (sym same)
        ∙ written_below (i + 1) n (with_sector b (drive_of fs.drive) (lba + i) (part buf i) d)
            (lba + i) (omega arith)
        ∙ same_sector (lba + i) (part buf i) d
        ∙ ap (part buf) same
    | inr e ↦
        written_at (i + 1) n (with_sector b (drive_of fs.drive) (lba + i) (part buf i) d) k
          (ground arith) (omega arith)
  ]

  write_one :
      (i : ℕ) (s : State)
      → lba + i < 2 ^ 28
      → i * 512 + 512 ≤ length buf
      → s.disks.broken b (drive_of fs.drive) (lba + i) ≡ false
      → write_sector fs.bus fs.drive (u32 (lba + i)) buf (i * 512) s
        ≡ some (
          pos 0,
          record s { disks = with_sector b (drive_of fs.drive) (lba + i) (part buf i) s.disks },
        )
  unfolding write_sector ata_write_sector
  write_one i s small long ok =
      let place : lba28 (u32 (lba + i)) ≡ lba + i = omega arith in
      rw (slice_at buf (i * 512) 512 long, write_sector, ata_write_sector, bus, place, ok)

  write_sectors_lem :
      (i n : ℕ) (s : State)
      → lba + (i + n) ≤ 2 ^ 28
      → (i + n) * 512 ≤ length buf
      → ((k : ℕ) → i ≤ k → k < i + n → s.disks.broken b (drive_of fs.drive) (lba + k) ≡ false)
      → write_sectors fs lba i n buf s ≡ some (pos 0, record s { disks = written i n s.disks })
  unfolding write_sectors written with_sector
  write_sectors_lem i zero s small long ok = refl
  write_sectors_lem i (suc n) s small long ok =
      rw
        (
          write_sectors,
          ◌>>=◌,
          write_one i s (omega arith) (omega arith) (ok i (omega arith) (omega arith)),
        )
        (write_sectors_lem (i + 1) n
          (record s { disks = with_sector b (drive_of fs.drive) (lba + i) (part buf i) s.disks })
          (omega arith) (omega arith) (λ k p q. ok k (omega arith) (omega arith)))

  abbrev Holds : ℕ → ℕ → State → Type 0
  Holds i n s =
      (k : ℕ)
      → i ≤ k
      → k < i + n
      → (s.disks.sectors b (drive_of fs.drive) (lba + k) ≡ part buf k)
        × (s.disks.broken b (drive_of fs.drive) (lba + k) ≡ false)

  read_one :
      (i : ℕ) (cur : List ℕ) (s : State)
      → lba + i < 2 ^ 28
      → length cur ≡ length buf
      → i * 512 + 512 ≤ length buf
      → s.disks.sectors b (drive_of fs.drive) (lba + i) ≡ part buf i
      → s.disks.broken b (drive_of fs.drive) (lba + i) ≡ false
      → read_sector fs.bus fs.drive (u32 (lba + i)) cur (i * 512) s
        ≡ some ((pos 0, splice cur (i * 512) (part buf i)), s)
  unfolding read_sector ata_read_sector
  read_one i cur s small same long held ok =
      let place : lba28 (u32 (lba + i)) ≡ lba + i = omega arith in
      let width : length (part buf i) ≡ 512 =
        omega (arith, length-take 512 (drop (i * 512) buf), length-drop (i * 512) buf) in
      let copied : kmemcpy cur (i * 512) (part buf i) 0 512
          ≡ some (splice cur (i * 512) (part buf i)) =
        kmemcpy-splice cur (i * 512) (part buf i) 0 512 (omega arith) (omega arith)
        ∙ ap (λ t. some (splice cur (i * 512) t)) (take_all 512 (part buf i) (omega arith)) in
      rw (read_sector, ata_read_sector, bus, place, ok, held, copied)

  read_sectors_lem :
      (i n : ℕ) (cur : List ℕ) (s : State)
      → lba + (i + n) ≤ 2 ^ 28
      → (i + n) * 512 ≡ length buf
      → length cur ≡ length buf
      → take (i * 512) cur ≡ take (i * 512) buf
      → Holds i n s
      → read_sectors fs lba i n cur s ≡ some ((pos 0, buf), s)
  unfolding read_sectors
  read_sectors_lem i zero cur s small whole same agree held =
      ap (λ t. some ((pos 0, t), s))
        (sym (take_all (i * 512) cur (omega arith)) ∙ agree ∙ take_all (i * 512) buf (omega arith))
  read_sectors_lem i (suc n) cur s small whole same agree held =
      let now = held i (omega arith) (omega arith) in
      rw (read_sectors, ◌>>=◌, read_one i cur s (omega arith) same (omega arith) now.0 now.1)
        (read_sectors_lem (i + 1) n (splice cur (i * 512) (part buf i)) s (omega arith)
          (omega arith)
          (length-splice cur (i * 512) (part buf i)
              (omega (arith, length-take 512 (drop (i * 512) buf), length-drop (i * 512) buf))
            ∙ same)
          (let next : (i + 1) * 512 ≡ i * 512 + 512 = omega arith in
            rw next (splice_prefix cur buf (i * 512) 512 agree (omega arith) (omega arith)))
          (λ k p q. held k (omega arith) (omega arith)))

-- In a block of a drive that refuses none of its sectors, within the 2^28 sectors that can be addressed,
-- ext2_write_block of a buffer of the block's size succeeds, and ext2_read_block of the block, into any
-- buffer of that size, then returns the bytes that were written and changes nothing.
pub ext2_read_block-write :
    (fs : Ext2Fs) (b block : ℕ) (buf old : List ℕ) (s : State)
    → bus_of fs.bus ≡ some b
    → fs.block_size ≡ sectors_per_block fs * 512
    → length buf ≡ fs.block_size
    → length old ≡ fs.block_size
    → block * sectors_per_block fs + sectors_per_block fs ≤ 2 ^ 28
    → ((k : ℕ)
        → k < sectors_per_block fs
        → s.disks.broken b (drive_of fs.drive) (block * sectors_per_block fs + k) ≡ false)
    → (s' : State) × (ext2_write_block fs block buf s ≡ some (pos 0, s'))
      × (ext2_read_block fs block old s' ≡ some ((pos 0, buf), s'))
unfolding ext2_write_block ext2_read_block
ext2_read_block-write fs b block buf old s bus whole w o small ok =
    let n = sectors_per_block fs in
    let first : u32 (block * n) ≡ block * n = omega arith in
    let after = written fs b bus (block * n) buf 0 n s.disks in
    (
      record s { disks = after },
      ap (λ l. write_sectors fs l 0 n buf s) first
          ∙ write_sectors_lem fs b bus (block * n) buf 0 n s (omega arith) (omega arith)
              (λ k p q. ok k (omega arith)),
      ap (λ l. read_sectors fs l 0 n old (record s { disks = after })) first
          ∙ read_sectors_lem fs b bus (block * n) buf 0 n old (record s { disks = after })
              (omega arith) (omega arith) (omega arith) refl
              (λ k p q. (
                written_at fs b bus (block * n) buf 0 n s.disks k p q,
                written_broken fs b bus (block * n) buf 0 n s.disks (block * n + k)
                    ∙ ok k (omega arith),
              )),
    )
