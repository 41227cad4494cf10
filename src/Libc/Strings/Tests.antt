-- ===== src/Libc/Strings/Tests.antt =====
-- The string functions of the programs at concrete strings, and their theorems there.
use lxtos.Prelude.{◌≡◌, refl, some, [], ◌∷◌, replicate}
use lxtos.KString.{CString}
use lxtos.Libc.Strings.{strncpy, strncpy_at, memset}

abbrev rm : CString
rm = b'r' ∷ b'm' ∷ []

abbrev rmdir : CString
rmdir = b'r' ∷ b'm' ∷ b'd' ∷ b'i' ∷ b'r' ∷ []

strncpy_run : strncpy (replicate 6 7) rm 4 ≡ some (b'r' ∷ b'm' ∷ 0 ∷ 0 ∷ 7 ∷ 7 ∷ [])
unfolding strncpy strncpy_at memset
strncpy_run = refl
