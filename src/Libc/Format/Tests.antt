-- ===== src/Libc/Format/Tests.antt =====
-- A formatted line at concrete arguments, cut at the end of a small buffer.
use lxtos.Prelude.{◌≡◌, refl, some, List, [], ◌∷◌, take, ◌-◌, arith}
use lxtos.Prelude.Int.{pos}
use lxtos.KString.{CString}
use lxtos.Digits.{digits_of, lower_digit}
use lxtos.Libc.Strings.{strlen, strlen_from}
use lxtos.Libc.Numbers.{utoa_buf, signed_text, itoa_buf}
use lxtos.Libc.Format.{Arg, string_arg, int_arg, spec_text, next_arg, snprintf}
use lxtos.Libc.Format.Render.{render, snprintf_lem}

-- `pid %d: %s`
abbrev fmt : CString
fmt = b'p' ∷ b'i' ∷ b'd' ∷ b' ' ∷ b'%' ∷ b'd' ∷ b':' ∷ b' ' ∷ b'%' ∷ b's' ∷ []

abbrev args : List Arg
args = int_arg (pos 12) ∷ string_arg (some (b'i' ∷ b'n' ∷ b'i' ∷ b't' ∷ [])) ∷ []

abbrev line : CString
line = b'p' ∷ b'i' ∷ b'd' ∷ b' ' ∷ b'1' ∷ b'2' ∷ b':' ∷ b' ' ∷ b'i' ∷ b'n' ∷ b'i' ∷ b't' ∷ []

snprintf_example : snprintf 11 fmt args ≡ some (take (11 - 1) line)
unfolding render spec_text next_arg strlen strlen_from itoa_buf signed_text utoa_buf digits_of
    lower_digit
snprintf_example = snprintf_lem 11 fmt args line (omega arith) (omega arith) refl
