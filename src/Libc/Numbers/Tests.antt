-- ===== src/Libc/Numbers/Tests.antt =====
-- The numbers of the programs at concrete values, and the round trip there.
use lxtos.Prelude.{◌≡◌, refl, some, [], ◌∷◌, ◌>>=◌, arith}
use lxtos.Prelude.Int.{negsuc}
use lxtos.Digits.{digits_of}
use lxtos.Libc.Numbers.{utoa_buf, signed_text, itoa, atoi}
use lxtos.Libc.Numbers.RoundTrip.{atoi-itoa}

itoa_run : itoa (negsuc 41) 10 ≡ some (b'-' ∷ b'4' ∷ b'2' ∷ [])
unfolding signed_text utoa_buf digits_of
itoa_run = refl

atoi-itoa_example : (itoa (negsuc 41) 10 >>= atoi) ≡ some (negsuc 41)
atoi-itoa_example = atoi-itoa (negsuc 41) (omega arith)
