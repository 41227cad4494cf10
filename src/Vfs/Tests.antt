-- ===== src/Vfs/Tests.antt =====
-- The virtual file system at a concrete state, and its theorems there.
use lxtos.Prelude.{
  ◌≤◌, ◌<◌, ◌≡◌, refl, true, false, Option, none, some, List, [], ◌∷◌, ◌++◌, ◌⊎◌, arith,
}
use lxtos.Prelude.Int.{pos, ◌-ℤ◌}
use lxtos.KString.{CString, kstrcmp, signed_char, kstrlen}
use lxtos.Keyboard.{initial_console}
use lxtos.KMalloc.{kmalloc_init}
use lxtos.Disk.{no_disks}
use lxtos.Fs.{
  Ptr, OpsId, Node, tmpfs, State, tmpfs_dir_ops, vfs_flag_dir, vfs_flag_mountpt, vfs_max_mounts,
  has_flag, minus_one, same_name,
}
use lxtos.Fs.Names.{same_name_refl}
use lxtos.Fs.Store.{with_node}
use lxtos.Tmpfs.{tmpfs_finddir}
use lxtos.Tmpfs.Dir.{tmpfs_finddir_first}
use lxtos.Vfs.{
  VfsOps, slash, root_path, split_parent, skip_slashes, component, parts_from, split_path,
  vfs_resolve, vfs_mount, vfs_umount,
}
use lxtos.Vfs.Paths.{IsName, spell, split_path-spell}
use lxtos.Vfs.Walk.{Leads, vfs_resolve-Leads}
use lxtos.Vfs.Parent.{split_parent_lem}
use lxtos.Vfs.Tables.{file_table, with_tmpfs}
use lxtos.Vfs.Mounts.{mounted, with_entry, vfs_mount_lem, vfs_umount-mount}

abbrev ops : OpsId → VfsOps
ops = with_tmpfs (λ o. file_table)

abbrev mnt : CString
mnt = b'm' ∷ b'n' ∷ b't' ∷ []

abbrev dir : CString → List Ptr → Option Ptr → Node
dir name children parent = record {
  name = name;
  flags = vfs_flag_dir;
  size = 0;
  fs_data = tmpfs (record { buf = none; buf_size = 0; children = children });
  ops = some tmpfs_dir_ops;
  parent = parent;
  mount = none;
}

-- The root with the empty directory `mnt`, and the root of another file system.
abbrev state : State
state = record {
  heap = kmalloc_init 4096 4096;
  nodes = dir root_path (1 ∷ []) none ∷ dir mnt [] (some 0) ∷ dir root_path [] none ∷ [];
  vfs_root = some 0;
  mount_table = [];
  pmm = record { bitmap = []; total = 0; used = 0; total_ram = 0 };
  proc_root = none;
  console = initial_console [];
  disks = no_disks;
  proc_entries = [];
}

mnt-IsName : IsName mnt
mnt-IsName = record {
  proper = omega arith;
  plain = omega arith;
  short = omega arith;
  text = omega arith;
}

-- `//mnt/`
abbrev mnt_path : CString
mnt_path = spell ((1, mnt) ∷ []) 1

split_mnt :
    split_path (b'a' ∷ b'/' ∷ b'/' ∷ b'b' ∷ b'c' ∷ b'/' ∷ []) 32
    ≡ (b'a' ∷ []) ∷ (b'b' ∷ b'c' ∷ []) ∷ []
unfolding split_path parts_from skip_slashes component kstrlen
split_mnt = refl

has_mnt : tmpfs_finddir 0 mnt state ≡ some (some 1, state)
has_mnt =
    tmpfs_finddir_first state 0 (dir root_path (1 ∷ []) none)
      (record { buf = none; buf_size = 0; children = 1 ∷ [] }) mnt
      (record { at_p = refl; is_tmpfs = refl }) [] 1 [] refl tt
      (dir mnt [] (some 0), refl, same_name_refl mnt)

is_dir : has_flag vfs_flag_dir vfs_flag_dir ≡ true
unfolding has_flag
is_dir = refl

not_mounted : has_flag vfs_flag_dir vfs_flag_mountpt ≡ false
unfolding has_flag
not_mounted = refl

to_mnt : Leads ops state 0 (mnt ∷ []) 1
to_mnt = (
  1,
  record {
    dir = dir root_path (1 ∷ []) none;
    at_p = refl;
    is_dir = is_dir;
    find = tmpfs_finddir;
    has_find = refl;
    child = 1;
    found = has_mnt;
    node = dir mnt [] (some 0);
    at_child = refl;
    goes_on = refl;
  },
  refl,
)

split_path-spell_example : split_path mnt_path 32 ≡ mnt ∷ []
split_path-spell_example = split_path-spell ((1, mnt) ∷ []) 1 32 (mnt-IsName, tt)

vfs_resolve-Leads_example : vfs_resolve ops (some mnt_path) state ≡ some (some 1, state)
vfs_resolve-Leads_example =
    vfs_resolve-Leads ops state 0 ((1, mnt) ∷ []) 1 1 refl (mnt-IsName, tt) (omega arith) to_mnt

-- The same, as a lemma of the witnesses below.
resolves : vfs_resolve ops (some mnt_path) state ≡ some (some 1, state)
resolves =
    vfs_resolve-Leads ops state 0 ((1, mnt) ∷ []) 1 1 refl (mnt-IsName, tt) (omega arith) to_mnt

not_root : same_name mnt_path root_path ≡ false
unfolding same_name kstrcmp signed_char ◌-ℤ◌
not_root = refl

vfs_mount_example :
    ((vfs_max_mounts ≤ 0) × (vfs_mount ops mnt_path (some 2) state ≡ some (minus_one, state)))
    ⊎ ((0 < vfs_max_mounts)
        × (vfs_mount ops mnt_path (some 2) state
            ≡ some (
              pos 0,
              with_entry
                  (with_node state 1 (mounted (dir mnt [] (some 0)) (some 2)))
                  mnt_path
                  (some 2),
            )))
vfs_mount_example =
    vfs_mount_lem ops state mnt_path (some 2) (some 1) (dir mnt [] (some 0), refl) not_root resolves

vfs_umount-mount_example :
    (s' : State) × (vfs_mount ops mnt_path (some 2) state ≡ some (pos 0, s'))
    × (vfs_umount ops (some 1) s' ≡ some (pos 0, with_entry state mnt_path (some 2)))
vfs_umount-mount_example =
    vfs_umount-mount ops state mnt_path (some 2) 1 (dir mnt [] (some 0)) not_root resolves
      (omega arith) refl (omega arith) refl not_mounted

split_parent_example : split_parent (mnt ++ slash ∷ mnt) ≡ some (mnt, mnt)
split_parent_example = split_parent_lem mnt mnt (omega arith) (omega arith) mnt-IsName
