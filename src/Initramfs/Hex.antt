-- ===== src/Initramfs/Hex.antt =====
-- The numbers in the headers of an archive, src/fs/initramfs.c.
use lxtos.Prelude.{
  ℕ, zero, suc, ◌+◌, ◌-◌, ◌*◌, ◌/◌, ◌%◌, ◌^◌, ◌<◌, ◌≡◌, refl, sym, ◌∙◌, List, [], ◌∷◌, ◌++◌, arith,
  length, ltb, if◌then◌else◌, length-append,
}
use lxtos.Initramfs.{hex_digit, hex_from, hex2u32}

-- A digit as cpio writes it, and a number in `width` digits.
unfoldable pub hex_char : ℕ → ℕ
hex_char d = if ltb d 10 then b'0' + d else b'A' + (d - 10)

unfoldable pub hex_text : ℕ → ℕ → List ℕ
hex_text zero v = []
hex_text (suc width) v = hex_text width (v / 16) ++ hex_char (v % 16) ∷ []

pub length-hex_text : (width v : ℕ) → length (hex_text width v) ≡ width
unfolding hex_text
length-hex_text zero v = refl
length-hex_text (suc width) v = omega (
  arith,
  length-append {0} (hex_text width (v / 16)) (hex_char (v % 16) ∷ []),
  length-hex_text width (v / 16),
)

hex_digit-hex_char : (d : ℕ) → d < 16 → hex_digit (hex_char d) ≡ d
unfolding hex_digit hex_char
hex_digit-hex_char d h = ground arith

hex_from-append :
    (val : ℕ) (xs ys : List ℕ) → hex_from val (xs ++ ys) ≡ hex_from (hex_from val xs) ys
unfolding hex_from
hex_from-append val [] ys = refl
hex_from-append val (c ∷ xs) ys = hex_from-append (val * 16 % 2 ^ 32 + hex_digit c) xs ys

-- The number has at most so many digits.
abbrev FitsIn : ℕ → ℕ → Type 0
FitsIn zero v = v ≡ 0
FitsIn (suc width) v = FitsIn width (v / 16)

hex_from-hex_text : (width v : ℕ) → FitsIn width v → v < 2 ^ 32 → hex_from 0 (hex_text width v) ≡ v
unfolding hex_text hex_from
hex_from-hex_text zero v f h = sym f
hex_from-hex_text (suc width) v f h =
    hex_from-append 0 (hex_text width (v / 16)) (hex_char (v % 16) ∷ [])
    ∙ omega (
      arith,
      hex_from-hex_text width (v / 16) f (omega arith),
      hex_digit-hex_char (v % 16) (omega arith),
    )

-- hex2u32 of a 32-bit number in eight digits is the number.
pub hex2u32-hex_text : (v : ℕ) → v < 2 ^ 32 → hex2u32 (hex_text 8 v) ≡ v
unfolding hex2u32
hex2u32-hex_text v h = hex_from-hex_text 8 v (omega arith) h
