-- ===== src/Tmpfs.antt =====
-- The memory file system, src/fs/tmpfs.c.
-- A read returns its count with the bytes that it writes to the caller's buffer. The loop that clears
-- a new buffer is its first contents.
pub mod Contents
pub mod Read
pub mod Grow
pub mod Copy
pub mod Write
pub mod ReadBack
pub mod Names
pub mod Add
pub mod Dir
mod Tests
use lxtos.Prelude.{
  ℕ, zero, suc, ◌+◌, ◌-◌, ◌%◌, ◌^◌, Bool, true, false, ◌||◌, Option, none, some, List, [], ◌∷◌,
  ◌++◌, ltb, leb, ◌==◌, if◌then◌else◌, length, get_elem?, replicate, is_some,
}
use lxtos.Prelude.Int.{ℤ, pos, negsuc}
use lxtos.KString.{CString, kstrcpy, kmemcpy}
use lxtos.Fs.{
  Ptr, Buffer, TmpfsData, FsData, null_data, proc_dir, tmpfs, proc_file, ext2, Node, State, M, pure,
  fault, ◌>>=◌, ◌>>◌, lift, load, store, new_node, heap_alloc, heap_free, tmpfs_file_ops,
  tmpfs_dir_ops, vfs_flag_file, vfs_flag_dir, vfs_max_name, has_flag, same_name, signed64,
  minus_one,
}

abbrev pub tmpfs_max_children : ℕ
tmpfs_max_children = 64

-- `sizeof(vfs_node_t)` and `sizeof(tmpfs_data_t)`
abbrev pub node_size : ℕ
node_size = 304

abbrev pub data_size : ℕ
data_size = 536

-- `(tmpfs_data_t *)node->fs_data`
unfoldable pub tmpfs_of : Node → Option TmpfsData
tmpfs_of n = elim n.fs_data [
  | null_data ↦ none
  | proc_dir ↦ none
  | tmpfs d ↦ some d
  | proc_file f ↦ none
  | ext2 d ↦ none
]

abbrev pub bytes_of : Option Buffer → List ℕ
bytes_of none = []
bytes_of (some b) = b.bytes

-- What is copied out of a buffer of `buf_size` bytes.
unfoldable pub read_buf : Option Buffer → ℕ → ℕ → ℕ → Option (ℤ × List ℕ)
read_buf none buf_size offset size = some (pos 0, [])
read_buf (some b) buf_size offset size =
    if leb buf_size offset
    then some (pos 0, [])
    else (let avail = buf_size - offset in
        let to_read = if ltb size avail then size else avail in
        elim (kmemcpy (replicate to_read 0) 0 b.bytes offset to_read) [
          | none ↦ none
          | some out ↦ some (signed64 to_read, out)
        ])

unfoldable pub tmpfs_read : Ptr → ℕ → ℕ → M (ℤ × List ℕ)
tmpfs_read p offset size = do
  n ← load p
  d ← lift (tmpfs_of n)
  lift (read_buf d.buf d.buf_size offset size)

-- `if (d->buf) { kmemcpy(new_buf, d->buf, d->buf_size); kfree(d->buf); }` into the new bytes
unfoldable pub move_old : Option Buffer → ℕ → List ℕ → M (List ℕ)
move_old none buf_size new = pure new
move_old (some b) buf_size new = do
  copied ← lift (kmemcpy new 0 b.bytes 0 buf_size)
  heap_free b.addr
  pure copied

-- The growth of the buffer to `needed` bytes; `false` if memory is exhausted.
unfoldable pub grow : Ptr → Node → TmpfsData → ℕ → M Bool
grow p n d needed = do
  r ← heap_alloc needed
  elim r [
    | none ↦ pure false
    | some a ↦ (do
      bytes ← move_old d.buf d.buf_size (replicate needed 0)
      store p (record n {
        fs_data =
            tmpfs (record d { buf = some (record { addr = a; bytes = bytes }); buf_size = needed });
        size = needed;
      })
      pure true)
  ]

abbrev pub with_bytes : Option Buffer → List ℕ → Option Buffer
with_bytes none bytes = none
with_bytes (some b) bytes = some (record b { bytes = bytes })

-- `kmemcpy(d->buf + offset, buf, size)`
unfoldable pub copy_in : Ptr → List ℕ → ℕ → ℕ → M (Unit {0})
copy_in p src offset size = do
  n ← load p
  d ← lift (tmpfs_of n)
  bytes ← lift (kmemcpy (bytes_of d.buf) offset src 0 size)
  store p (record n { fs_data = tmpfs (record d { buf = with_bytes d.buf bytes }) })

unfoldable pub tmpfs_write : Ptr → List ℕ → ℕ → ℕ → M ℤ
tmpfs_write p src offset size = do
  n ← load p
  d ← lift (tmpfs_of n)
  let needed = (offset + size) % 2 ^ 64
  done ← (if ltb d.buf_size needed then grow p n d needed else pure true)
  if done then (do copy_in p src offset size; pure (signed64 size)) else pure minus_one

-- The loop over `children`: the first whose name is `name`.
unfoldable pub find_child : CString → List Ptr → M (Option Ptr)
find_child name [] = pure none
find_child name (c ∷ cs) = do
  n ← load c
  let rest = find_child name cs
  if same_name n.name name then pure (some c) else rest

unfoldable pub tmpfs_finddir : Ptr → CString → M (Option Ptr)
tmpfs_finddir p name = do n ← load p; d ← lift (tmpfs_of n); find_child name d.children

-- `(int)index >= d->child_count`: an index from 2^31 on is a negative `int` and passes.
unfoldable pub tmpfs_readdir : Ptr → ℕ → M (Option Ptr)
tmpfs_readdir p index = do
  n ← load p
  d ← lift (tmpfs_of n)
  if ltb index (2 ^ 31)
      then (if leb (length d.children) index
          then pure none
          else (do c ← lift (get_elem? d.children index); pure (some c)))
      else fault

-- Both allocations are made before either is checked.
unfoldable pub tmpfs_alloc_node : CString → ℕ → M (Option Ptr)
tmpfs_alloc_node name flags = do
  node ← heap_alloc node_size
  room ← heap_alloc data_size
  if is_some node
      then (if is_some room
          then (do
            p ← new_node (record {
              name = kstrcpy name vfs_max_name;
              flags = flags;
              size = 0;
              fs_data = tmpfs (record { buf = none; buf_size = 0; children = [] });
              ops = some (if has_flag flags vfs_flag_dir then tmpfs_dir_ops else tmpfs_file_ops);
              parent = none;
              mount = none;
            })
            pure (some p))
          else pure none)
      else pure none

-- `node->parent = parent; pd->children[pd->child_count++] = node;`
unfoldable pub attach : Ptr → Ptr → M (Unit {0})
attach parent child = do
  c ← load child
  store child (record c { parent = some parent })
  n ← load parent
  d ← lift (tmpfs_of n)
  store parent (record n { fs_data = tmpfs (record d { children = d.children ++ child ∷ [] }) })

-- What `tmpfs_mkdir` and `tmpfs_mkfile` share.
unfoldable pub add_child : Ptr → CString → ℕ → M (Option Ptr)
add_child parent name flags = do
  n ← load parent
  d ← lift (tmpfs_of n)
  if leb tmpfs_max_children (length d.children) then pure none else (do
    r ← tmpfs_alloc_node name flags
    elim r [ none ↦ pure none | some child ↦ (do attach parent child; pure (some child)) ])

unfoldable pub tmpfs_mkdir : Ptr → CString → M (Option Ptr)
tmpfs_mkdir parent name = add_child parent name vfs_flag_dir

unfoldable pub tmpfs_mkfile : Ptr → CString → M (Option Ptr)
tmpfs_mkfile parent name = add_child parent name vfs_flag_file

-- The children less the first whose name is `name`; `none` inside if there is none.
unfoldable pub drop_child : CString → List Ptr → M (Option (List Ptr))
drop_child name [] = pure none
drop_child name (c ∷ cs) = do
  n ← load c
  let later = drop_child name cs
  if same_name n.name name
      then pure (some cs)
      else (do r ← later; pure (elim r [ none ↦ none | some cs' ↦ some (c ∷ cs') ]))

unfoldable pub tmpfs_unlink : Ptr → CString → M ℤ
tmpfs_unlink parent name = do
  n ← load parent
  d ← lift (tmpfs_of n)
  r ← drop_child name d.children
  elim r [
    | none ↦ pure minus_one
    | some cs ↦ (do
      store parent (record n { fs_data = tmpfs (record d { children = cs }) })
      pure (pos 0))
  ]

unfoldable pub tmpfs_create : M (Option Ptr)
tmpfs_create = tmpfs_alloc_node (b'/' ∷ []) vfs_flag_dir
