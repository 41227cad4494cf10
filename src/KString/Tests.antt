-- ===== src/KString/Tests.antt =====
-- The routines at concrete strings and buffers, and the theorems there.
use lxtos.Prelude.{◌≡◌, refl, ◌↔◌, [], ◌∷◌, arith}
use lxtos.Prelude.Int.{pos, negsuc, ◌-ℤ◌}
use lxtos.KString.{CString, signed_char, kstrcmp, kstrcpy}
use lxtos.KString.Compare.{IsText, kstrcmp_zero_iff}

abbrev bin : CString
bin = b'b' ∷ b'i' ∷ b'n' ∷ []

abbrev bit : CString
bit = b'b' ∷ b'i' ∷ b't' ∷ []

bin-IsText : IsText bin
bin-IsText = omega arith

bit-IsText : IsText bit
bit-IsText = omega arith

compare_bytes : kstrcmp bin bit ≡ negsuc 5
unfolding kstrcmp signed_char ◌-ℤ◌
compare_bytes = refl

-- A byte above 127 is a negative `char`.
compare_signed : kstrcmp (200 ∷ []) (100 ∷ []) ≡ negsuc 155
unfolding kstrcmp signed_char ◌-ℤ◌
compare_signed = refl

copy_cut : kstrcpy bin 3 ≡ b'b' ∷ b'i' ∷ []
unfolding kstrcpy
copy_cut = refl

kstrcmp_zero_example : (kstrcmp bin bit ≡ pos 0) ↔ (bin ≡ bit)
kstrcmp_zero_example = kstrcmp_zero_iff bin bit bin-IsText bit-IsText
