-- ===== src/Initramfs/Archive.antt =====
-- A whole archive, src/fs/initramfs.c.
use lxtos.Prelude.{
  ℕ, zero, suc, ◌+◌, ◌≤◌, ◌<◌, ◌≡◌, refl, ap, ◌∙◌, true, false, some, List, [], ◌∷◌, arith, length,
  drop, leb, ltb, Bool-cases, Option-cases, inl, inr,
}
use lxtos.Prelude.Int.{pos}
use lxtos.Fs.{Ptr, OpsId, State, M, pure, lift, ◌>>=◌, ◌>>◌}
use lxtos.Vfs.{VfsOps}
use lxtos.Ext2.Directory.{same_bytes}
use lxtos.Ext2.Found.{same_bytes-eq, same_bytes_refl}
use lxtos.Initramfs.{header_bytes, trailer, next_at, unpack_from, initramfs_unpack}
use lxtos.Initramfs.Layout.{CpioFile, IsFile, encode_file, header_of, length-encode_file}
use lxtos.Initramfs.Unpack.{
  within, read_header_lem, rest_at, encode, AllFiles, trailer-IsText, install, install_all, begins,
  unpack_entry-install,
}

-- What follows a step may be replaced by what does the same.
then_same {ℓ} :
    {B : Type ℓ} (m : M (Unit {0})) {k k' : M B}
    → ((s : State) → k s ≡ k' s)
    → (s : State) → (do m; k) s ≡ (do m; k') s
then_same m h s = elim (Option-cases (m s)) [
  | inl q ↦ rw (◌>>◌, ◌>>=◌, q)
  | inr ((u, s'), q) ↦ rw (◌>>◌, ◌>>=◌, q, h s')
]

module _ (ops : OpsId → VfsOps) (root : Ptr) where
  module _ (archive : List ℕ) (off : ℕ) (f : CpioFile) (v : IsFile f) (rest : List ℕ)
      (at : drop off archive ≡ encode_file f rest) where
    room : leb (off + header_bytes) (length archive) ≡ true
    room = ground (arith, within archive off f v rest at)

    fits : ltb (length archive) (next_at off (header_of f)) ≡ false
    fits = ground (arith, within archive off f v rest at)

    -- One round of the loop at a file, and at the trailer.
    unpack_step :
        (n : ℕ) (s : State)
        → same_bytes f.name trailer ≡ false
        → unpack_from ops (suc n) archive (length archive) root off s
          ≡ (do
            install ops root f
            unpack_from ops n archive (length archive) root (next_at off (header_of f)))
              s
    unfolding unpack_from
    unpack_step n s q = rw (
      room,
      unpack_from,
      read_header_lem archive off f v rest at,
      ◌>>=◌,
      lift,
      fits,
      begins ops root archive off f v rest at trailer trailer-IsText,
      ◌>>=◌,
      lift,
      q,
      unpack_entry-install ops root archive off f v rest at s,
    )

    unpack_stop :
        (n : ℕ) (s : State)
        → same_bytes f.name trailer ≡ true
        → unpack_from ops (suc n) archive (length archive) root off s ≡ some (tt, s)
    unfolding unpack_from
    unpack_stop n s q = rw (
      room,
      unpack_from,
      read_header_lem archive off f v rest at,
      ◌>>=◌,
      lift,
      fits,
      begins ops root archive off f v rest at trailer trailer-IsText,
      ◌>>=◌,
      lift,
      q,
    )

  unpack_from-encode :
      (fs : List CpioFile) (n : ℕ) (archive : List ℕ) (off : ℕ) (t : CpioFile) (post : List ℕ)
      (s : State)
      → length fs < n
      → drop off archive ≡ encode fs (encode_file t post)
      → AllFiles fs
      → IsFile t
      → t.name ≡ trailer
      → unpack_from ops n archive (length archive) root off s ≡ install_all ops root fs s
  unfolding encode install_all
  unpack_from-encode fs zero archive off t post s h at v w e = absurd (omega arith)
  unpack_from-encode [] (suc n) archive off t post s h at v w e =
      unpack_stop archive off t w post at n s
        (ap (λ m. same_bytes m trailer) e ∙ same_bytes_refl trailer)
  unpack_from-encode (f ∷ fs) (suc n) archive off t post s h at v w e =
      let rest = encode fs (encode_file t post) in
      let other : same_bytes f.name trailer ≡ false =
        elim (Bool-cases (same_bytes f.name trailer)) [
          | inl q ↦ absurd (v.1 (same_bytes-eq f.name trailer q))
          | inr q ↦ q
        ] in
      let next = rest_at archive off f v.0 rest at in
      unpack_step archive off f v.0 rest at n s other
      ∙ then_same (install ops root f)
          (λ s'.
            unpack_from-encode fs n archive (next_at off (header_of f)) t post s' (omega arith) next
              v.2 w e)
          s

length-le-encode :
    (fs : List CpioFile) (rest : List ℕ) → AllFiles fs → length fs ≤ length (encode fs rest)
unfolding encode
length-le-encode [] rest v = omega arith
length-le-encode (f ∷ fs) rest v =
    omega (arith, length-encode_file f v.0 (encode fs rest), length-le-encode fs rest v.2)

-- Unpacking an archive of files up to the trailer does what adding the files one after the other does, each
-- with its name, its mode and its contents, and returns 0; what stands behind the trailer makes no
-- difference.
pub initramfs_unpack-encode :
    (ops : OpsId → VfsOps) (root : Ptr) (fs : List CpioFile) (t : CpioFile) (post : List ℕ)
    (s : State)
    → AllFiles fs
    → IsFile t
    → t.name ≡ trailer
    → initramfs_unpack ops
        (encode fs (encode_file t post))
        (length (encode fs (encode_file t post)))
        root
        s
      ≡ (do install_all ops root fs; pure (pos 0)) s
unfolding initramfs_unpack
initramfs_unpack-encode ops root fs t post s v w e =
    let archive = encode fs (encode_file t post) in
    let loop =
      unpack_from-encode ops root fs (length archive + 1) archive 0 t post s
        (omega (arith, length-le-encode fs (encode_file t post) v)) refl v w e in
    rw (initramfs_unpack, ◌>>◌, ◌>>=◌, loop)
