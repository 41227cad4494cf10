-- ===== src/Digits.antt =====
-- Numbers written in digits: src/lib/kitoa.c, and the numbers of src/console/kprint.c.
-- A text is the list of its bytes without the NUL. The loops write the last digit first; where the
-- code then copies in reverse, the model puts each digit in front.
pub mod Value
pub mod Kernel
mod Tests
use lxtos.Prelude.{
  ℕ, zero, suc, ◌+◌, ◌-◌, ◌/◌, ◌%◌, ◌^◌, List, [], ◌∷◌, ◌++◌, ltb, leb, ◌==◌, if◌then◌else◌,
}
use lxtos.Prelude.{true, false}
use lxtos.KString.{CString}

-- The tables of digits.
abbrev pub lower_digit : ℕ → ℕ
lower_digit d = if ltb d 10 then b'0' + d else b'a' + (d - 10)

abbrev pub upper_digit : ℕ → ℕ
upper_digit d = if ltb d 10 then b'0' + d else b'A' + (d - 10)

-- `while (n) { tmp[i++] = digits[n % base]; n /= base; }`, in front of `out`; each round at least
-- halves `n`, so that as many rounds as `n` has bits are enough.
unfoldable pub digits_of : ℕ → ℕ → ℕ → CString → CString
digits_of zero base n out = out
digits_of (suc rounds) base n out = elim (n == 0) [
  | true ↦ out
  | false ↦ digits_of rounds base (n / base) (lower_digit (n % base) ∷ out)
]

-- `kitoa` of a `uint32_t`
unfoldable pub kitoa : ℕ → CString
kitoa n = if n == 0 then b'0' ∷ [] else digits_of 32 10 n []

-- `while (i >= 0) { buf[i--] = hex[val & 0xF]; val >>= 4; }`
unfoldable pub hex_digits : ℕ → ℕ → CString → CString
hex_digits zero n out = out
hex_digits (suc rounds) n out = hex_digits rounds (n / 16) (upper_digit (n % 16) ∷ out)

unfoldable pub kitoa_hex : ℕ → CString
kitoa_hex n = hex_digits 16 n []

-- The texts that `kputhex` and `kputdec` print; the second has room for 20 digits.
unfoldable pub kputhex_text : ℕ → CString
kputhex_text n = b'0' ∷ b'x' ∷ hex_digits 16 n []

unfoldable pub dec_digits : ℕ → ℕ → CString → CString
dec_digits zero n out = out
dec_digits (suc room) n out = elim (ltb 0 n) [
  | true ↦ dec_digits room (n / 10) ((b'0' + n % 10) ∷ out)
  | false ↦ out
]

unfoldable pub kputdec_text : ℕ → CString
kputdec_text n = if n == 0 then b'0' ∷ [] else dec_digits 20 n []
