-- ===== src/Fs/Flags.antt =====
-- The flags of a node, which are below 64: setting and clearing VFS_FLAG_MOUNTPT.
use lxtos.Prelude.{
  ℕ, ◌-◌, ◌^◌, ◌<◌, ◌≡◌, refl, Bool, true, false, not, ◌&&◌, arith, ◌==◌, ltb, bit_and, bit_or,
  if◌then◌else◌,
}
use lxtos.Prelude.Table.{all_below, table_entry, table_eq}
use lxtos.Fs.{has_flag, vfs_flag_dir, vfs_flag_mountpt}

-- `flags |= VFS_FLAG_MOUNTPT` and `flags &= ~VFS_FLAG_MOUNTPT` on a `uint32_t`
abbrev pub set_mountpt : ℕ → ℕ
set_mountpt flags = bit_or flags vfs_flag_mountpt

abbrev pub clear_mountpt : ℕ → ℕ
clear_mountpt flags = bit_and flags (2 ^ 32 - 1 - vfs_flag_mountpt)

abbrev same_bool : Bool → Bool → Bool
same_bool true b = b
same_bool false b = not b

same_bool-eq : (a b : Bool) → same_bool a b ≡ true → a ≡ b
same_bool-eq a b h = ground arith

flags_table :
    all_below 64 (λ f.
      has_flag (set_mountpt f) vfs_flag_mountpt
      && not (has_flag (clear_mountpt f) vfs_flag_mountpt)
      && same_bool (has_flag (set_mountpt f) vfs_flag_dir) (has_flag f vfs_flag_dir)
      && same_bool (has_flag (clear_mountpt f) vfs_flag_dir) (has_flag f vfs_flag_dir)
      && ltb (set_mountpt f) 64
      && ltb (clear_mountpt f) 64)
    ≡ true
unfolding all_below has_flag
flags_table = refl

clear_table :
    all_below 64
      (λ f. (if has_flag f vfs_flag_mountpt then f else clear_mountpt (set_mountpt f)) == f)
    ≡ true
unfolding all_below has_flag
clear_table = refl

-- What the flags of a node tell after the mount point bit is set or cleared.
pub record MountptLaws (f : ℕ) : Type 0 where
  pub is_set : has_flag (set_mountpt f) vfs_flag_mountpt ≡ true
  pub is_clear : has_flag (clear_mountpt f) vfs_flag_mountpt ≡ false
  pub set_dir : has_flag (set_mountpt f) vfs_flag_dir ≡ has_flag f vfs_flag_dir
  pub clear_dir : has_flag (clear_mountpt f) vfs_flag_dir ≡ has_flag f vfs_flag_dir
  pub set_small : set_mountpt f < 64
  pub clear_small : clear_mountpt f < 64

pub mountpt_laws : (f : ℕ) → f < 64 → MountptLaws f
mountpt_laws f h =
    let t = table_entry 64 _ f flags_table h in
    record {
      is_set = ground arith;
      is_clear = ground arith;
      set_dir = same_bool-eq _ _ (ground arith);
      clear_dir = same_bool-eq _ _ (ground arith);
      set_small = ground arith;
      clear_small = ground arith;
    }

pub clear-set_mountpt :
    (f : ℕ) → f < 64 → has_flag f vfs_flag_mountpt ≡ false → clear_mountpt (set_mountpt f) ≡ f
clear-set_mountpt f h e = ground (arith, table_eq 64 _ (λ y. y) f clear_table h)
