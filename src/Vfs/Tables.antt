-- ===== src/Vfs/Tables.antt =====
-- The tables of operations of src/fs/tmpfs.c, src/fs/procfs.c and src/fs/ext2.c, beside those of the other file systems.
use lxtos.Prelude.{ℕ, none, some, List}
use lxtos.Procfs.{Registers, procfs_finddir, procfs_readdir, procfs_read}
use lxtos.Fs.{
  OpsId, State, procfs_file_ops, procfs_dir_ops, tmpfs_file_ops, tmpfs_dir_ops, ext2_file_ops,
  ext2_dir_ops,
}
use lxtos.Ext2.Nodes.{
  ext2_vfs_read, ext2_vfs_write, ext2_vfs_finddir, ext2_vfs_readdir, ext2_vfs_mkfile,
  ext2_vfs_mkdir,
}
use lxtos.Tmpfs.{
  tmpfs_read, tmpfs_write, tmpfs_finddir, tmpfs_readdir, tmpfs_mkdir, tmpfs_mkfile, tmpfs_unlink,
}
use lxtos.Vfs.{VfsOps}

abbrev pub file_table : VfsOps
file_table = record {
  read = some tmpfs_read;
  write = some tmpfs_write;
  finddir = none;
  readdir = none;
  mkdir = none;
  mkfile = none;
  unlink = none;
}

abbrev pub dir_table : VfsOps
dir_table = record {
  read = none;
  write = none;
  finddir = some tmpfs_finddir;
  readdir = some tmpfs_readdir;
  mkdir = some tmpfs_mkdir;
  mkfile = some tmpfs_mkfile;
  unlink = some tmpfs_unlink;
}

-- The tables of src/fs/procfs.c.
abbrev pub procfs_dir_table : VfsOps
procfs_dir_table = record {
  read = none;
  write = none;
  finddir = some procfs_finddir;
  readdir = some procfs_readdir;
  mkdir = none;
  mkfile = none;
  unlink = none;
}

abbrev pub procfs_file_table : (ℕ → Registers) → VfsOps
procfs_file_table cpuid = record {
  read = some (procfs_read cpuid);
  write = none;
  finddir = none;
  readdir = none;
  mkdir = none;
  mkfile = none;
  unlink = none;
}

abbrev pub with_procfs : (ℕ → Registers) → (OpsId → VfsOps) → OpsId → VfsOps
with_procfs cpuid other procfs_file_ops = procfs_file_table cpuid
with_procfs cpuid other procfs_dir_ops = procfs_dir_table
with_procfs cpuid other o = other o

abbrev pub with_tmpfs : (OpsId → VfsOps) → OpsId → VfsOps
with_tmpfs other tmpfs_file_ops = file_table
with_tmpfs other tmpfs_dir_ops = dir_table
with_tmpfs other o = other o

-- The tables of src/fs/ext2.c.
abbrev pub ext2_file_table : (State → ℕ → List ℕ) → VfsOps
ext2_file_table stale = record {
  read = some (ext2_vfs_read stale);
  write = some (ext2_vfs_write stale);
  finddir = none;
  readdir = none;
  mkdir = none;
  mkfile = none;
  unlink = none;
}

abbrev pub ext2_dir_table : (State → ℕ → List ℕ) → VfsOps
ext2_dir_table stale = record {
  read = none;
  write = none;
  finddir = some (ext2_vfs_finddir stale);
  readdir = some (ext2_vfs_readdir stale);
  mkdir = some (ext2_vfs_mkdir stale);
  mkfile = some (ext2_vfs_mkfile stale);
  unlink = none;
}

abbrev pub with_ext2 : (State → ℕ → List ℕ) → (OpsId → VfsOps) → OpsId → VfsOps
with_ext2 stale other ext2_file_ops = ext2_file_table stale
with_ext2 stale other ext2_dir_ops = ext2_dir_table stale
with_ext2 stale other o = other o
