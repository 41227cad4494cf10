-- ===== src/Initramfs/Unpack.antt =====
-- Unpacking an archive, src/fs/initramfs.c: what cpio has written is what is read.
use lxtos.Prelude.{
  ℕ, ◌+◌, ◌≡◌, ◌≢◌, refl, sym, ap, ◌∙◌, true, false, ◌||◌, some, List, [], ◌∷◌, ◌++◌, arith, length,
  drop, leb, length-drop, Bool-cases, inl, inr,
}
use lxtos.KString.{CString, slice, kstrncmp, signed_char}
use lxtos.KString.Compare.{IsText}
use lxtos.KString.Slices.{slice-drop, slice_skip, slice_head, drop_skip, drop-drop}
use lxtos.Fs.{lift, Ptr, OpsId, State, M, pure, ◌>>=◌, ◌>>◌}
use lxtos.Vfs.{VfsOps}
use lxtos.Ext2.Directory.{same_bytes}
use lxtos.Initramfs.{
  cpio_magic, header_bytes, trailer, dot, data_at, next_at, starts_name, name_at, is_magic,
  read_header, add_entry, unpack_entry,
}
use lxtos.Initramfs.Hex.{hex2u32-hex_text}
use lxtos.Initramfs.Layout.{
  CpioFile, IsFile, encode_body, encode_file, header_of, length-encode_file, file_magic, file_mode,
  file_size, file_namesize, file_body, starts_name-same, name_at_text,
}

is_magic_cpio : is_magic cpio_magic cpio_magic ≡ true
unfolding is_magic kstrncmp signed_char
is_magic_cpio = refl

module _ (archive : List ℕ) (off : ℕ) (f : CpioFile) (v : IsFile f) (rest : List ℕ)
    (at : drop off archive ≡ encode_file f rest) where
  -- The file lies within the archive.
  pub within : next_at off (header_of f) + length rest ≡ length archive
  within = omega (
    arith,
    length-drop off archive,
    ap length at,
    length-encode_file f v rest,
    v.name_fill,
    v.data_fill,
  )

  field : (k n : ℕ) → slice archive (off + k) n ≡ slice (encode_file f rest) k n
  field k n = slice-drop archive off k n (omega (arith, within)) ∙ ap (λ t. slice t k n) at

  field_magic : slice archive off 6 ≡ some cpio_magic
  field_magic =
      let z : off ≡ off + 0 = omega arith in
      ap (λ o. slice archive o 6) z ∙ field 0 6 ∙ file_magic f v rest

  pub read_header_lem : read_header archive off ≡ some (some (header_of f))
  unfolding read_header
  read_header_lem = rw (
    read_header,
    field_magic,
    is_magic_cpio,
    field 94 8 ∙ file_namesize f v rest,
    field 54 8 ∙ file_size f v rest,
    field 14 8 ∙ file_mode f v rest,
    hex2u32-hex_text (length f.name + 1) v.name_fits,
    hex2u32-hex_text (length f.content) v.size_fits,
    hex2u32-hex_text f.mode v.mode_fits,
  )

  pub body_at : drop (off + header_bytes) archive ≡ encode_body f rest
  body_at = sym (drop-drop 110 off archive) ∙ ap (drop 110) at ∙ file_body f v rest

  content_at : slice archive (data_at off (header_of f)) (length f.content) ≡ some f.content
  content_at =
      let k = 1 + length f.name + length f.name_pad in
      let place : data_at off (header_of f) ≡ off + header_bytes + k = omega (arith, v.name_fill) in
      ap (λ o. slice archive o (length f.content)) place
      ∙ slice-drop archive (off + header_bytes) k (length f.content) (omega (arith, within))
      ∙ ap (λ t. slice t k (length f.content)) body_at
      ∙ slice_skip f.name (0 ∷ (f.name_pad ++ (f.content ++ (f.data_pad ++ rest)))) k
          (length f.content) (1 + length f.name_pad) (omega arith)
      ∙ slice_skip (0 ∷ f.name_pad) (f.content ++ (f.data_pad ++ rest)) (1 + length f.name_pad)
          (length f.content) 0 (omega arith)
      ∙ slice_head f.content (f.data_pad ++ rest) (length f.content) refl

  pub rest_at : drop (next_at off (header_of f)) archive ≡ rest
  rest_at =
      let a = 1 + length f.name_pad in
      let b = length f.content + length f.data_pad in
      let place : next_at off (header_of f) ≡ off + header_bytes + (length f.name + (a + b)) =
        omega (arith, v.name_fill, v.data_fill) in
      ap (λ o. drop o archive) place
      ∙ sym (drop-drop (length f.name + (a + b)) (off + header_bytes) archive)
      ∙ ap (drop (length f.name + (a + b))) body_at
      ∙ drop_skip f.name (0 ∷ (f.name_pad ++ (f.content ++ (f.data_pad ++ rest))))
          (length f.name + (a + b)) (a + b) refl
      ∙ drop_skip (0 ∷ f.name_pad) (f.content ++ (f.data_pad ++ rest)) (a + b) b (omega arith)
      ∙ drop_skip f.content (f.data_pad ++ rest) b (length f.data_pad) refl
      ∙ drop_skip f.data_pad rest (length f.data_pad) 0 (omega arith)

abbrev pub dot_name : CString
dot_name = dot ∷ []

-- The files of an archive, one after the other, and what follows.
unfoldable pub encode : List CpioFile → List ℕ → List ℕ
encode [] rest = rest
encode (f ∷ fs) rest = encode_file f (encode fs rest)

-- Files in front of the trailer.
abbrev pub AllFiles : List CpioFile → Type 0
AllFiles [] = Unit {0}
AllFiles (f ∷ fs) = IsFile f × (f.name ≢ trailer) × AllFiles fs

pub trailer-IsText : IsText trailer
trailer-IsText = omega arith

dot_name-IsText : IsText dot_name
dot_name-IsText = omega arith

module _ (ops : OpsId → VfsOps) (root : Ptr) where
  -- What one file of the archive asks for: nothing for the directory itself, or without a name.
  unfoldable pub install : CpioFile → M (Unit {0})
  install f = elim (same_bytes f.name dot_name || leb (length f.name + 1) 1) [
    | true ↦ pure tt
    | false ↦ add_entry ops root f.name f.mode f.content
  ]

  unfoldable pub install_all : List CpioFile → M (Unit {0})
  install_all [] = pure tt
  install_all (f ∷ fs) = do install f; install_all fs

  module _ (archive : List ℕ) (off : ℕ) (f : CpioFile) (v : IsFile f) (rest : List ℕ)
      (at : drop off archive ≡ encode_file f rest) where
    pub begins :
        (s : CString)
        → IsText s
        → starts_name (drop (off + header_bytes) archive) s ≡ some (same_bytes f.name s)
    begins s t =
        ap (λ b. starts_name b s) (body_at archive off f v rest at)
        ∙ starts_name-same f.name s (f.name_pad ++ (f.content ++ (f.data_pad ++ rest))) v.is_text t

    named : name_at (drop (off + header_bytes) archive) ≡ some f.name
    named =
        ap name_at (body_at archive off f v rest at)
        ∙ name_at_text f.name (f.name_pad ++ (f.content ++ (f.data_pad ++ rest))) v.is_text

    pub unpack_entry-install :
        (s : State) → unpack_entry ops archive root off (header_of f) s ≡ install f s
    unfolding unpack_entry install
    unpack_entry-install s =
        elim (Bool-cases (same_bytes f.name dot_name || leb (length f.name + 1) 1)) [
          | inl q ↦ rw (unpack_entry, install, begins dot_name dot_name-IsText, ◌>>=◌, lift, q)
          | inr q ↦ rw (
            unpack_entry,
            install,
            begins dot_name dot_name-IsText,
            ◌>>=◌,
            lift,
            q,
            named,
            ◌>>=◌,
            lift,
            content_at archive off f v rest at,
            ◌>>=◌,
            lift,
          )
        ]
