-- ===== src/Initramfs/Tests.antt =====
-- An archive with a file and the trailer, the theorem there, and runs of the routines.
use lxtos.Prelude.{◌≡◌, refl, some, none, [], ◌∷◌, length, replicate, arith}
use lxtos.Prelude.Int.{pos}
use lxtos.Keyboard.{initial_console}
use lxtos.KMalloc.{kmalloc_init}
use lxtos.Disk.{no_disks}
use lxtos.Fs.{Node, State, OpsId, pure, ◌>>◌, tmpfs, tmpfs_dir_ops, load}
use lxtos.Tmpfs.{tmpfs_of, find_child, tmpfs_finddir}
use lxtos.Vfs.{VfsOps, component, call, vnode_finddir}
use lxtos.Vfs.Tables.{with_tmpfs, dir_table}
use lxtos.Initramfs.{
  hex2u32, hex_digit, hex_from, trailer, basename, skip_dot, skip_slash, last_from, is_here, mkpath,
  mkpath_from, initramfs_unpack,
}
use lxtos.Initramfs.Layout.{CpioFile, IsFile, encode_file}
use lxtos.Initramfs.Unpack.{encode, install_all}
use lxtos.Initramfs.Archive.{initramfs_unpack-encode}

-- The directory that the archive is unpacked to.
abbrev root : Node
root = record {
  name = [];
  flags = 0x02;
  size = 0;
  fs_data = tmpfs (record { buf = none; buf_size = 0; children = [] });
  ops = some tmpfs_dir_ops;
  parent = none;
  mount = none;
}

abbrev state : State
state = record {
  heap = kmalloc_init 4096 4096;
  pmm = record { bitmap = []; total = 0; used = 0; total_ram = 0 };
  console = initial_console [];
  disks = no_disks;
  nodes = root ∷ [];
  vfs_root = some 0;
  mount_table = [];
  proc_root = none;
  proc_entries = [];
}

abbrev tables : OpsId → VfsOps
tables = with_tmpfs (λ o. dir_table)

-- A file `a` of two bytes, and the trailer.
abbrev file : CpioFile
file = record {
  ino = replicate 8 b'0';
  mode = 0x81A4;
  owner = replicate 32 b'0';
  devices = replicate 32 b'0';
  check = replicate 8 b'0';
  name = b'a' ∷ [];
  name_pad = [];
  content = b'h' ∷ b'i' ∷ [];
  data_pad = 0 ∷ 0 ∷ [];
}

abbrev last : CpioFile
last = record file { name = trailer; name_pad = 0 ∷ 0 ∷ 0 ∷ []; content = []; data_pad = [] }

file-IsFile : IsFile file
file-IsFile = record {
  ino_width = refl;
  mode_fits = omega arith;
  owner_width = refl;
  devices_width = refl;
  check_width = refl;
  is_text = omega arith;
  name_fits = omega arith;
  name_fill = refl;
  size_fits = omega arith;
  data_fill = refl;
}

last-IsFile : IsFile last
last-IsFile = record {
  ino_width = refl;
  mode_fits = omega arith;
  owner_width = refl;
  devices_width = refl;
  check_width = refl;
  is_text = omega arith;
  name_fits = omega arith;
  name_fill = refl;
  size_fits = omega arith;
  data_fill = refl;
}

hex_run : hex2u32 (b'0' ∷ b'0' ∷ b'0' ∷ b'0' ∷ b'8' ∷ b'1' ∷ b'a' ∷ b'4' ∷ []) ≡ 0x81A4
unfolding hex2u32 hex_from hex_digit
hex_run = refl

basename_run : basename (b'.' ∷ b'/' ∷ b'b' ∷ b'/' ∷ b'c' ∷ []) ≡ b'c' ∷ []
unfolding basename skip_dot last_from
basename_run = refl

-- A directory that does not exist is not created: its parent is returned in its place.
mkpath_missing : mkpath tables 0 (b'd' ∷ []) state ≡ some (some 0, state)
unfolding mkpath mkpath_from is_here skip_dot skip_slash component vnode_finddir call load tmpfs_of
    find_child tmpfs_finddir
mkpath_missing = refl

initramfs_unpack-encode_example :
    initramfs_unpack tables
      (encode (file ∷ []) (encode_file last []))
      (length (encode (file ∷ []) (encode_file last [])))
      0
      state
    ≡ (do install_all tables 0 (file ∷ []); pure (pos 0)) state
initramfs_unpack-encode_example =
    initramfs_unpack-encode tables 0 (file ∷ []) last [] state
      (file-IsFile, (λ e. absurd (ground arith)), tt) last-IsFile refl
