-- ===== src/Ext2/Entries.antt =====
-- The entries of a directory of src/fs/ext2.c in the buffer that holds it.
-- An entry is at an offset: its inode in four bytes, its length in two, the length of its name and its type
-- in one each, and its name. The loops take fuel: `none` is a fault, or a loop that goes on without end
-- because the offset wraps.
use lxtos.Prelude.{
  ℕ, zero, suc, ◌+◌, ◌-◌, ◌*◌, ◌/◌, ◌%◌, ◌^◌, Bool, true, false, not, ◌&&◌, Option, none, some,
  List, [], ◌∷◌, ltb, leb, ◌==◌, if◌then◌else◌, length, drop, ◌>>=◌,
}
use lxtos.KString.{CString, kmemcpy}
use lxtos.Ext2.{u32, get_le, put_le}

-- `kstrncmp(de->name, name, namelen) == 0` for a name of `namelen` bytes
unfoldable pub name_matches : List ℕ → CString → Option Bool
name_matches buf [] = some true
name_matches [] (c ∷ name) = none
name_matches (a ∷ buf) (c ∷ name) = elim (a == c) [
  | true ↦ name_matches buf name
  | false ↦ some false
]

-- Whether the entry at `off` is in use and has the name.
unfoldable pub entry_hit : List ℕ → ℕ → CString → Option Bool
entry_hit buf off name = do
  ino ← get_le buf off 4
  len ← get_le buf (off + 6) 1
  if not (ino == 0) && len == length name % 256
      then name_matches (drop (off + 8) buf) name
      else some false

-- The loop of `ext2_dir_lookup`
unfoldable pub lookup_from : ℕ → List ℕ → ℕ → CString → ℕ → Option ℕ
lookup_from zero buf got name off = none
lookup_from (suc n) buf got name off = elim (leb (u32 (off + 8)) got) [
  | false ↦ some 0
  | true ↦ (do
    len ← get_le buf (off + 4) 2
    elim (len == 0) [
      | true ↦ some 0
      | false ↦ (do
        hit ← entry_hit buf off name
        elim hit [ true ↦ get_le buf off 4 | false ↦ lookup_from n buf got name (u32 (off + len)) ])
    ])
]

-- `(8 + n + 3) & ~3`
abbrev pub entry_size : ℕ → ℕ
entry_size n = (8 + n + 3) / 4 * 4

-- A new entry at `at`, of `left` bytes.
unfoldable pub put_new : List ℕ → ℕ → ℕ → ℕ → CString → ℕ → Option (List ℕ)
put_new buf at left child name kind = do
  b1 ← put_le buf at 4 child
  b2 ← put_le b1 (at + 4) 2 left
  b3 ← put_le b2 (at + 6) 1 (length name)
  b4 ← put_le b3 (at + 7) 1 kind
  kmemcpy b4 (at + 8) name 0 (length name % 256)

-- The entry at `off` cut to `real` bytes, and a new one behind it with the `left` bytes that it had more.
unfoldable pub put_entry : List ℕ → ℕ → ℕ → ℕ → ℕ → CString → ℕ → Option (List ℕ)
put_entry buf off real left child name kind = do
  cut ← put_le buf (off + 4) 2 real
  put_new cut (off + real) left child name kind

-- The loop of `ext2_dir_add_entry`; `none` inside if no entry has room.
unfoldable pub add_from : ℕ → List ℕ → ℕ → ℕ → CString → ℕ → ℕ → Option (Option (List ℕ))
add_from zero buf size child name kind off = none
add_from (suc n) buf size child name kind off = elim (leb (u32 (off + 8)) size) [
  | false ↦ some none
  | true ↦ (do
    len ← get_le buf (off + 4) 2
    elim (len == 0) [
      | true ↦ some none
      | false ↦ (do
        name_len ← get_le buf (off + 6) 1
        let real = entry_size name_len
        let left = (len + 2 ^ 16 - real) % 2 ^ 16
        elim (leb (entry_size (length name % 256)) left) [
          | true ↦ (do buf' ← put_entry buf off real left child name kind; some (some buf'))
          | false ↦ add_from n buf size child name kind (u32 (off + len))
        ])
    ])
]

-- The loop of `ext2_vfs_readdir`: the inode of entry number `index` in use, with where its name stands and
-- its length.
unfoldable pub nth_from : ℕ → List ℕ → ℕ → ℕ → ℕ → ℕ → Option (Option (ℕ × ℕ × ℕ))
nth_from zero buf got index off cur = none
nth_from (suc n) buf got index off cur = elim (leb (u32 (off + 8)) got) [
  | false ↦ some none
  | true ↦ (do
    len ← get_le buf (off + 4) 2
    elim (len == 0) [
      | true ↦ some none
      | false ↦ (do
        ino ← get_le buf off 4
        name_len ← get_le buf (off + 6) 1
        let counts = not (ino == 0) && ltb 0 name_len
        elim (counts && cur == index) [
          | true ↦ some (some (ino, off + 8, name_len))
          | false ↦
              nth_from n buf got index (u32 (off + len)) (if counts then u32 (cur + 1) else cur)
        ])
    ])
]
