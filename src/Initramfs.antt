-- ===== src/Initramfs.antt =====
-- The archive that the kernel starts with, src/fs/initramfs.c.
-- The archive is the list of its bytes, a pointer into it an offset, and reading behind its end a fault. The
-- tables of operations are a parameter. The string routines that the file defines for itself are those of
-- src/lib/kstring.c.
pub mod Hex
pub mod Layout
pub mod Unpack
pub mod Archive
mod Tests
use lxtos.Prelude.{
  ℕ, zero, suc, ◌+◌, ◌-◌, ◌*◌, ◌/◌, ◌%◌, ◌^◌, Bool, true, false, ◌&&◌, ◌||◌, Option, none, some,
  List, [], ◌∷◌, ltb, leb, ◌==◌, if◌then◌else◌, length, take, drop, bit_and,
}
use lxtos.Prelude.Int.{ℤ, pos, negsuc}
use lxtos.KString.{slice, CString, first, after, kstrncmp}
use lxtos.Fs.{Ptr, OpsId, M, pure, fault, ◌>>=◌, ◌>>◌, lift, vfs_max_name, vfs_max_path}
use lxtos.Vfs.{VfsOps, slash, component, call, vnode_finddir, vnode_write}

-- `sizeof(cpio_header_t)`
abbrev pub header_bytes : ℕ
header_bytes = 110

-- "070701" and "070702"
abbrev pub cpio_magic : CString
cpio_magic = b'0' ∷ b'7' ∷ b'0' ∷ b'7' ∷ b'0' ∷ b'1' ∷ []

abbrev pub cpio_magic_crc : CString
cpio_magic_crc = b'0' ∷ b'7' ∷ b'0' ∷ b'7' ∷ b'0' ∷ b'2' ∷ []

-- "TRAILER!!!"
abbrev pub trailer : CString
trailer = b'T' ∷ b'R' ∷ b'A' ∷ b'I' ∷ b'L' ∷ b'E' ∷ b'R' ∷ b'!' ∷ b'!' ∷ b'!' ∷ []

abbrev pub dot : ℕ
dot = b'.'

-- A digit in base 16; any other character is a 0.
unfoldable pub hex_digit : ℕ → ℕ
hex_digit c =
    if leb b'0' c && leb c b'9'
    then c - b'0'
    else if leb b'a' c && leb c b'f'
    then c - b'a' + 10
    else if leb b'A' c && leb c b'F'
    then c - b'A' + 10
    else 0

unfoldable pub hex_from : ℕ → List ℕ → ℕ
hex_from val [] = val
hex_from val (c ∷ s) = hex_from (val * 16 % 2 ^ 32 + hex_digit c) s

unfoldable pub hex2u32 : List ℕ → ℕ
hex2u32 s = hex_from 0 s

abbrev pub align4 : ℕ → ℕ
align4 x = (x + 3) / 4 * 4

-- The fields of the header that the code reads.
pub record CpioHeader : Type 0 where
  pub namesize : ℕ
  pub filesize : ℕ
  pub mode : ℕ

-- `kstrncmp(magic, m, 6) == 0`
unfoldable pub is_magic : List ℕ → CString → Bool
is_magic magic m = elim (kstrncmp magic m 6) [ pos n ↦ n == 0 | negsuc n ↦ false ]

-- The header at `off`; `none` inside without a magic number.
unfoldable pub read_header : List ℕ → ℕ → Option (Option CpioHeader)
read_header archive off = elim (slice archive off 6) [
  | none ↦ none
  | some magic ↦ elim (is_magic magic cpio_magic || is_magic magic cpio_magic_crc) [
    | false ↦ some none
    | true ↦ elim (slice archive (off + 94) 8) [
      | none ↦ none
      | some n ↦ elim (slice archive (off + 54) 8) [
        | none ↦ none
        | some f ↦ elim (slice archive (off + 14) 8) [
          | none ↦ none
          | some m ↦
              some (some (record { namesize = hex2u32 n; filesize = hex2u32 f; mode = hex2u32 m }))
        ]
      ]
    ]
  ]
]

-- `kstrcmp(name, s) == 0` for the name that the bytes begin with
unfoldable pub starts_name : List ℕ → CString → Option Bool
starts_name [] s = none
starts_name (a ∷ bytes) [] = some (a == 0)
starts_name (a ∷ bytes) (c ∷ s) = elim (a == c) [ true ↦ starts_name bytes s | false ↦ some false ]

-- The name that the bytes begin with.
unfoldable pub name_at : List ℕ → Option CString
name_at [] = none
name_at (c ∷ bytes) = elim (c == 0) [
  | true ↦ some []
  | false ↦ elim (name_at bytes) [ none ↦ none | some s ↦ some (c ∷ s) ]
]

-- `./` and `/` at the start are skipped.
unfoldable pub skip_dot : CString → CString
skip_dot path =
    if first path == dot && first (after path) == slash then after (after path) else path

unfoldable pub skip_slash : CString → CString
skip_slash path = if first path == slash then after path else path

-- What follows the last slash, or `last` without one.
unfoldable pub last_from : CString → CString → CString
last_from last [] = last
last_from last (c ∷ p) = last_from (if c == slash then p else last) p

unfoldable pub basename : CString → CString
basename path = last_from (skip_dot path) (skip_dot path)

-- The path is empty, or the directory itself.
unfoldable pub is_here : CString → Bool
is_here path = first path == 0 || first path == dot && first (after path) == 0

-- Where the contents of the file behind a header at `off` start, and where the next header stands.
abbrev pub data_at : ℕ → CpioHeader → ℕ
data_at off h = off + header_bytes + (align4 (header_bytes + h.namesize) - header_bytes)

abbrev pub next_at : ℕ → CpioHeader → ℕ
next_at off h = data_at off h + align4 h.filesize

module _ (ops : OpsId → VfsOps) where
  -- `mkpath`; each level shortens the path.
  unfoldable pub mkpath_from : ℕ → Ptr → CString → M (Option Ptr)
  mkpath_from zero root path = fault
  mkpath_from (suc n) root path =
      let path' = skip_slash (skip_dot path) in
      let (part, behind) = component (vfs_max_name - 1) path' in
      let rest = skip_slash behind in
      elim (is_here path || first path' == 0) [
        | true ↦ pure (some root)
        | false ↦ (do
          found ← vnode_finddir ops (some root) part
          elim found [
            | none ↦ elim (first rest == 0) [
              | true ↦ pure (some root)
              | false ↦ (do
                made ← call ops (λ t. t.mkdir) none (λ p mkdir. mkdir p part) (some root)
                elim made [ none ↦ pure none | some child ↦ mkpath_from n child rest ])
            ]
            | some child ↦ elim (first rest == 0) [
              | true ↦ pure (some child)
              | false ↦ mkpath_from n child rest
            ]
          ])
      ]

  unfoldable pub mkpath : Ptr → CString → M (Option Ptr)
  mkpath root path = mkpath_from (length path + 1) root path

  -- The directory of a file, given its path and the number of bytes of its name.
  unfoldable pub parent_dir : Ptr → CString → ℕ → M (Option Ptr)
  parent_dir root path base_len =
      let dlen = length path - base_len - 1 in
      elim (ltb base_len (length path) && (ltb 0 dlen && ltb dlen vfs_max_path)) [
        | true ↦ mkpath root (take dlen path)
        | false ↦ pure (some root)
      ]

  -- A file with its contents.
  unfoldable pub add_file : Ptr → CString → List ℕ → M (Unit {0})
  add_file root path content = do
    parent ← parent_dir root path (length (basename path))
    elim parent [
      | none ↦ pure tt
      | some dir ↦ (do
        made ← call ops (λ t. t.mkfile) none (λ p mkfile. mkfile p (basename path)) (some dir)
        elim made [
          | none ↦ pure tt
          | some node ↦ elim (ltb 0 (length content)) [
            | true ↦ (do r ← vnode_write ops (some node) content 0 (length content); pure tt)
            | false ↦ pure tt
          ]
        ])
    ]

  -- What the archive says of one name.
  unfoldable pub add_entry : Ptr → CString → ℕ → List ℕ → M (Unit {0})
  add_entry root name mode content =
      let clean = skip_slash (skip_dot name) in
      elim (bit_and mode 0xF000 == 0x4000) [
        | true ↦ (do r ← mkpath root clean; pure tt)
        | false ↦ add_file root clean content
      ]

  -- The entry with its header at `off`; a name that no NUL ends is a fault.
  unfoldable pub unpack_entry : List ℕ → Ptr → ℕ → CpioHeader → M (Unit {0})
  unpack_entry archive root off h = do
    here ← lift (starts_name (drop (off + header_bytes) archive) (dot ∷ []))
    elim (here || leb h.namesize 1) [
      | true ↦ pure tt
      | false ↦ (do
        name ← lift (name_at (drop (off + header_bytes) archive))
        content ← lift (slice archive (data_at off h) h.filesize)
        add_entry root name h.mode content)
    ]

  -- The loop of `initramfs_unpack`; each round but the last passes a header.
  unfoldable pub unpack_from : ℕ → List ℕ → ℕ → Ptr → ℕ → M (Unit {0})
  unpack_from zero archive size root off = fault
  unpack_from (suc n) archive size root off = elim (leb (off + header_bytes) size) [
    | false ↦ pure tt
    | true ↦ (do
      header ← lift (read_header archive off)
      elim header [
        | none ↦ pure tt
        | some h ↦ elim (ltb size (next_at off h)) [
          | true ↦ pure tt
          | false ↦ (do
            last ← lift (starts_name (drop (off + header_bytes) archive) trailer)
            elim last [
              | true ↦ pure tt
              | false ↦ (do
                unpack_entry archive root off h
                unpack_from n archive size root (next_at off h))
            ])
        ]
      ])
  ]

  unfoldable pub initramfs_unpack : List ℕ → ℕ → Ptr → M ℤ
  initramfs_unpack archive size root = do unpack_from (size + 1) archive size root 0; pure (pos 0)
