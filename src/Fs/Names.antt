-- ===== src/Fs/Names.antt =====
-- Names are compared by `kstrcmp`.
use lxtos.Prelude.{◌≡◌, true, arith}
use lxtos.KString.{CString}
use lxtos.KString.Compare.{IsText, kstrcmp-eq, kstrcmp_refl}
use lxtos.Fs.{same_name}

pub same_name-eq : (a b : CString) → IsText a → IsText b → same_name a b ≡ true → a ≡ b
unfolding same_name
same_name-eq a b p q h = kstrcmp-eq a b p q (ground arith)

pub same_name_refl : (a : CString) → same_name a a ≡ true
unfolding same_name
same_name_refl a = rw (kstrcmp_refl a, same_name)
