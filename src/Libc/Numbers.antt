-- ===== src/Libc/Numbers.antt =====
-- The numbers of userspace/src/libc/stdlib.c and stdio.c.
pub mod RoundTrip
mod Tests
use lxtos.Prelude.{
  ℕ, zero, suc, ◌+◌, ◌-◌, ◌*◌, ◌^◌, Bool, true, false, ◌&&◌, Option, none, some, List, [], ◌∷◌, ltb,
  leb, ◌==◌, if◌then◌else◌, ◌>>=◌,
}
use lxtos.Prelude.Int.{ℤ, pos, negsuc, neg}
use lxtos.KString.{CString, first, after}
use lxtos.Digits.{digits_of}

-- `utoa_buf` of an `unsigned long`
unfoldable pub utoa_buf : ℕ → ℕ → CString
utoa_buf n base = if n == 0 then b'0' ∷ [] else digits_of 64 base n []

-- `itoa_buf` of a `long` and `itoa` of an `int`: numbers of `bits` bits. A negative number in another
-- base than ten, or one that has no negation, is an index before the table of digits: a fault.
unfoldable pub signed_text : ℕ → ℤ → ℕ → Option CString
signed_text bits (pos n) base = some (utoa_buf n base)
signed_text bits (negsuc n) base =
    if base == 10 && ltb (n + 1) (2 ^ (bits - 1))
    then some (b'-' ∷ digits_of 64 base (n + 1) [])
    else none

abbrev pub itoa_buf : ℤ → ℕ → Option CString
itoa_buf n base = signed_text 64 n base

abbrev pub itoa : ℤ → ℕ → Option CString
itoa n base = signed_text 32 n base

-- The loop of `atoi`; an overflow of the `int` is a fault.
unfoldable pub atoi_loop : ℕ → CString → Option ℕ
atoi_loop n [] = some n
atoi_loop n (c ∷ s) = elim (leb b'0' c && leb c b'9') [
  | true ↦
      let m = n * 10 + (c - b'0') in elim (ltb m (2 ^ 31)) [ true ↦ atoi_loop m s | false ↦ none ]
  | false ↦ some n
]

unfoldable pub atoi : CString → Option ℤ
atoi s =
    if first s == b'-'
    then (atoi_loop 0 (after s) >>= λ n. some (neg (pos n)))
    else (atoi_loop 0 s >>= λ n. some (pos n))
