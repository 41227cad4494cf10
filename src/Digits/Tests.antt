-- ===== src/Digits/Tests.antt =====
-- The numbers of the kernel at concrete values, and their theorems there.
use lxtos.Prelude.{◌≡◌, refl, [], ◌∷◌, arith}
use lxtos.Digits.{digits_of, kitoa, kputdec_text}
use lxtos.Digits.Kernel.{Spells, kputdec_lem}

kitoa_run : kitoa 4096 ≡ b'4' ∷ b'0' ∷ b'9' ∷ b'6' ∷ []
unfolding kitoa digits_of
kitoa_run = refl

kputdec_lem_example : Spells 10 20 18446744073709551615 (kputdec_text 18446744073709551615)
kputdec_lem_example = kputdec_lem 18446744073709551615 (omega arith)
