-- ===== src/Disk.antt =====
-- The disks, src/drivers/ata.c: the sector that a transfer addresses.
-- What the drives hold and which sectors they refuse to transfer are the record `Disks`. The polling of a
-- drive's status, and what `ata_init` asks the drives, are left out: a drive that never gets ready is not
-- modelled.
use lxtos.Prelude.{
  ℕ, zero, suc, ◌+◌, ◌%◌, ◌^◌, Bool, true, ◌&&◌, List, [], Option, none, some, ◌==◌, if◌then◌else◌,
}
use lxtos.Prelude.Int.{ℤ, pos, negsuc}

-- By bus, drive and number of the sector.
pub record Disks : Type 0 where
  pub sectors : ℕ → ℕ → ℕ → List ℕ
  pub broken : ℕ → ℕ → ℕ → Bool

-- `bases[bus]`, an array of two
abbrev pub bus_of : ℤ → Option ℕ
bus_of (pos zero) = some 0
bus_of (pos (suc zero)) = some 1
bus_of (pos (suc (suc n))) = none
bus_of (negsuc n) = none

-- The bit 4 of the byte `0xE0 | (drive << 4) | ((lba >> 24) & 0x0F)`
abbrev pub drive_of : ℤ → ℕ
drive_of (pos n) = n % 2
drive_of (negsuc n) = (n + 1) % 2

-- The bits of the number that are sent to the drive.
abbrev pub lba28 : ℕ → ℕ
lba28 lba = lba % 2 ^ 28

-- The bytes that are read, or `none` inside if the drive reports an error.
unfoldable pub ata_read_sector : ℤ → ℤ → ℕ → Disks → Option (Option (List ℕ))
ata_read_sector bus drive lba d = elim (bus_of bus) [
  | none ↦ none
  | some b ↦ some (
      if d.broken b (drive_of drive) (lba28 lba)
      then none
      else some (d.sectors b (drive_of drive) (lba28 lba)))
]

-- The contents of one sector replaced.
unfoldable pub with_sector : ℕ → ℕ → ℕ → List ℕ → Disks → Disks
with_sector bus drive lba bytes d = record d {
  sectors = λ b v l. if b == bus && v == drive && l == lba then bytes else d.sectors b v l;
}

unfoldable pub ata_write_sector : ℤ → ℤ → ℕ → List ℕ → Disks → Option (Option Disks)
ata_write_sector bus drive lba bytes d = elim (bus_of bus) [
  | none ↦ none
  | some b ↦ some (
      if d.broken b (drive_of drive) (lba28 lba)
      then none
      else some (with_sector b (drive_of drive) (lba28 lba) bytes d))
]

-- Drives that answer nothing.
abbrev pub no_disks : Disks
no_disks = record { sectors = λ b v l. []; broken = λ b v l. true }
