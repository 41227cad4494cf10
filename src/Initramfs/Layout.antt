-- ===== src/Initramfs/Layout.antt =====
-- An archive as cpio writes it, for src/fs/initramfs.c: each file is a header, the name with its NUL, and
-- the contents, both filled up to a multiple of four bytes.
use lxtos.Prelude.{
  ℕ, ◌+◌, ◌^◌, ◌<◌, ◌≡◌, refl, ◌∙◌, false, some, List, [], length-append, ◌∷◌, ◌++◌, arith, length,
  drop, ◌==◌, Bool-cases, inl, inr,
}
use lxtos.KString.{CString, slice}
use lxtos.KString.Compare.{IsText}
use lxtos.KString.Slices.{slice_skip, slice_head, drop_skip}
use lxtos.Ext2.Directory.{same_bytes}
use lxtos.Initramfs.{cpio_magic, header_bytes, align4, CpioHeader, starts_name, name_at}
use lxtos.Initramfs.Hex.{hex_text, length-hex_text}

-- A file of the archive, with the fields of its header that the code does not read, and its fillings.
pub record CpioFile : Type 0 where
  pub ino : List ℕ
  pub mode : ℕ
  pub owner : List ℕ
  pub devices : List ℕ
  pub check : List ℕ
  pub name : CString
  pub name_pad : List ℕ
  pub content : List ℕ
  pub data_pad : List ℕ

pub record IsFile (f : CpioFile) : Type 0 where
  pub ino_width : length f.ino ≡ 8
  pub mode_fits : f.mode < 2 ^ 32
  pub owner_width : length f.owner ≡ 32
  pub devices_width : length f.devices ≡ 32
  pub check_width : length f.check ≡ 8
  pub is_text : IsText f.name
  pub name_fits : length f.name + 1 < 2 ^ 32
  pub name_fill :
      header_bytes + length f.name + 1 + length f.name_pad
      ≡ align4 (header_bytes + (length f.name + 1))
  pub size_fits : length f.content < 2 ^ 32
  pub data_fill : length f.content + length f.data_pad ≡ align4 (length f.content)

-- The bytes of a file, with those of the archive behind it.
abbrev pub encode_body : CpioFile → List ℕ → List ℕ
encode_body f rest = f.name ++ (0 ∷ (f.name_pad ++ (f.content ++ (f.data_pad ++ rest))))

abbrev from_check : CpioFile → List ℕ → List ℕ
from_check f rest = f.check ++ encode_body f rest

abbrev from_namesize : CpioFile → List ℕ → List ℕ
from_namesize f rest = hex_text 8 (length f.name + 1) ++ from_check f rest

abbrev from_devices : CpioFile → List ℕ → List ℕ
from_devices f rest = f.devices ++ from_namesize f rest

abbrev from_size : CpioFile → List ℕ → List ℕ
from_size f rest = hex_text 8 (length f.content) ++ from_devices f rest

abbrev from_owner : CpioFile → List ℕ → List ℕ
from_owner f rest = f.owner ++ from_size f rest

abbrev from_mode : CpioFile → List ℕ → List ℕ
from_mode f rest = hex_text 8 f.mode ++ from_owner f rest

unfoldable pub encode_file : CpioFile → List ℕ → List ℕ
encode_file f rest = cpio_magic ++ (f.ino ++ from_mode f rest)

-- What the code reads of the header.
abbrev pub header_of : CpioFile → CpioHeader
header_of f = record { namesize = length f.name + 1; filesize = length f.content; mode = f.mode }

module _ (f : CpioFile) (v : IsFile f) (rest : List ℕ) where
  width : (n : ℕ) → length (hex_text 8 n) ≡ 8
  width n = length-hex_text 8 n

  pub file_magic : slice (encode_file f rest) 0 6 ≡ some cpio_magic
  unfolding encode_file
  file_magic = slice_head cpio_magic _ 6 refl

  pub file_mode : slice (encode_file f rest) 14 8 ≡ some (hex_text 8 f.mode)
  unfolding encode_file
  file_mode =
      slice_skip cpio_magic _ 14 8 8 refl
      ∙ slice_skip f.ino _ 8 8 0 (omega (arith, v.ino_width))
      ∙ slice_head (hex_text 8 f.mode) _ 8 (omega (arith, width f.mode))

  pub file_size : slice (encode_file f rest) 54 8 ≡ some (hex_text 8 (length f.content))
  unfolding encode_file
  file_size =
      slice_skip cpio_magic _ 54 8 48 refl
      ∙ slice_skip f.ino _ 48 8 40 (omega (arith, v.ino_width))
      ∙ slice_skip (hex_text 8 f.mode) _ 40 8 32 (omega (arith, width f.mode))
      ∙ slice_skip f.owner _ 32 8 0 (omega (arith, v.owner_width))
      ∙ slice_head (hex_text 8 (length f.content)) _ 8 (omega (arith, width (length f.content)))

  pub file_namesize : slice (encode_file f rest) 94 8 ≡ some (hex_text 8 (length f.name + 1))
  unfolding encode_file
  file_namesize =
      slice_skip cpio_magic _ 94 8 88 refl
      ∙ slice_skip f.ino _ 88 8 80 (omega (arith, v.ino_width))
      ∙ slice_skip (hex_text 8 f.mode) _ 80 8 72 (omega (arith, width f.mode))
      ∙ slice_skip f.owner _ 72 8 40 (omega (arith, v.owner_width))
      ∙ slice_skip (hex_text 8 (length f.content)) _ 40 8 32
          (omega (arith, width (length f.content)))
      ∙ slice_skip f.devices _ 32 8 0 (omega (arith, v.devices_width))
      ∙ slice_head (hex_text 8 (length f.name + 1)) _ 8 (omega (arith, width (length f.name + 1)))

  pub file_body : drop 110 (encode_file f rest) ≡ encode_body f rest
  unfolding encode_file
  file_body =
      drop_skip cpio_magic (f.ino ++ from_mode f rest) 110 104 refl
      ∙ drop_skip f.ino (from_mode f rest) 104 96 (omega (arith, v.ino_width))
      ∙ drop_skip (hex_text 8 f.mode) (from_owner f rest) 96 88 (omega (arith, width f.mode))
      ∙ drop_skip f.owner (from_size f rest) 88 56 (omega (arith, v.owner_width))
      ∙ drop_skip (hex_text 8 (length f.content)) (from_devices f rest) 56 48
          (omega (arith, width (length f.content)))
      ∙ drop_skip f.devices (from_namesize f rest) 48 16 (omega (arith, v.devices_width))
      ∙ drop_skip (hex_text 8 (length f.name + 1)) (from_check f rest) 16 8
          (omega (arith, width (length f.name + 1)))
      ∙ drop_skip f.check (encode_body f rest) 8 0 (omega (arith, v.check_width))

-- The name in front of its NUL.
pub starts_name-same :
    (n s rest : List ℕ)
    → IsText n
    → IsText s
    → starts_name (n ++ (0 ∷ rest)) s ≡ some (same_bytes n s)
unfolding starts_name same_bytes
starts_name-same [] [] rest p q = refl
starts_name-same [] (c ∷ s) rest p q = ground arith
starts_name-same (a ∷ n) [] rest p q = ground arith
starts_name-same (a ∷ n) (c ∷ s) rest p q = elim (Bool-cases (a == c)) [
  | inl e ↦ rw (e, starts_name) (starts_name-same n s rest p.2 q.2)
  | inr e ↦ rw (e, starts_name)
]

pub name_at_text : (n rest : List ℕ) → IsText n → name_at (n ++ (0 ∷ rest)) ≡ some n
unfolding name_at
name_at_text [] rest p = refl
name_at_text (a ∷ n) rest p =
    let nz : (a == 0) ≡ false = ground arith in rw (nz, name_at, name_at_text n rest p.2)

pub length-encode_file :
    (f : CpioFile)
    → IsFile f
    → (rest : List ℕ)
    → length (encode_file f rest)
      ≡ header_bytes
        + length f.name
        + 1
        + length f.name_pad
        + length f.content
        + length f.data_pad
        + length rest
unfolding encode_file
length-encode_file f v rest = omega (
  arith,
  v.ino_width,
  v.owner_width,
  v.devices_width,
  v.check_width,
  width f v rest f.mode,
  width f v rest (length f.content),
  width f v rest (length f.name + 1),
  length-append {0} f.ino (from_mode f rest),
  length-append {0} (hex_text 8 f.mode) (from_owner f rest),
  length-append {0} f.owner (from_size f rest),
  length-append {0} (hex_text 8 (length f.content)) (from_devices f rest),
  length-append {0} f.devices (from_namesize f rest),
  length-append {0} (hex_text 8 (length f.name + 1)) (from_check f rest),
  length-append {0} f.check (encode_body f rest),
  length-append {0} f.name (0 ∷ (f.name_pad ++ (f.content ++ (f.data_pad ++ rest)))),
  length-append {0} f.name_pad (f.content ++ (f.data_pad ++ rest)),
  length-append {0} f.content (f.data_pad ++ rest),
  length-append {0} f.data_pad rest,
)
