-- ===== src/Libc/Format.antt =====
-- `snprintf` and `printf` of userspace/src/libc/stdio.c.
-- The variable arguments are a list of values with the types that `va_arg` asks for; a missing one or
-- one of another type is a fault. A text is what the code has written before the final NUL.
pub mod Render
mod Tests
use lxtos.Prelude.{
  ℕ, zero, suc, ◌+◌, ◌-◌, ◌%◌, ◌^◌, Bool, true, false, not, ◌||◌, Option, none, some, List, [], ◌∷◌,
  ◌++◌, ltb, leb, ◌==◌, if◌then◌else◌, length, take, ◌>>=◌,
}
use lxtos.Prelude.Int.{ℤ, pos, negsuc}
use lxtos.KString.{CString}
use lxtos.Libc.Strings.{strlen}
use lxtos.Libc.Numbers.{itoa_buf, utoa_buf}

pub data Arg : Type 0 where
  string_arg : Option CString → Arg
  int_arg : ℤ → Arg
  uint_arg : ℕ → Arg
  long_arg : ℤ → Arg
  ulong_arg : ℕ → Arg

-- The bytes before the NUL.
abbrev pub text_of : CString → CString
text_of s = take (strlen s) s

abbrev pub null_text : CString
null_text = b'(' ∷ b'n' ∷ b'u' ∷ b'l' ∷ b'l' ∷ b')' ∷ []

-- `(char)` of an `int`
abbrev pub char_of : ℤ → ℕ
char_of (pos n) = n % 256
char_of (negsuc n) = 255 - n % 256

-- The text of the conversions `s`, `d`, `u` and `x`.
unfoldable pub spec_text : ℕ → Arg → Option CString
spec_text c (string_arg none) = if c == b's' then some null_text else none
spec_text c (string_arg (some s)) = if c == b's' then some (text_of s) else none
spec_text c (int_arg n) = if c == b'd' then itoa_buf n 10 else none
spec_text c (uint_arg n) =
    if c == b'u' then some (utoa_buf n 10) else if c == b'x' then some (utoa_buf n 16) else none
spec_text c (long_arg n) = none
spec_text c (ulong_arg n) = none

-- The text after `%l`, by the byte that follows.
unfoldable pub long_text : ℕ → Arg → Option CString
long_text c (ulong_arg n) =
    if c == b'u' then some (utoa_buf n 10) else if c == b'x' then some (utoa_buf n 16) else none
long_text c (long_arg n) = if c == b'u' || c == b'x' then none else itoa_buf n 10
long_text c (string_arg s) = none
long_text c (int_arg n) = none
long_text c (uint_arg n) = none

abbrev pub is_spec : ℕ → Bool
is_spec c = c == b's' || c == b'd' || c == b'u' || c == b'x'

-- The next argument by `f`, with the arguments left.
unfoldable pub next_arg : (Arg → Option CString) → List Arg → Option (CString × List Arg)
next_arg f [] = none
next_arg f (a ∷ args) = f a >>= λ t. some (t, args)

unfoldable pub char_text : Arg → Option CString
char_text (int_arg n) = some (char_of n ∷ [])
char_text (string_arg s) = none
char_text (uint_arg n) = none
char_text (long_arg n) = none
char_text (ulong_arg n) = none

-- What `snprintf` writes for `%c` where `room` bytes, at least one, are left.
unfoldable pub directive : ℕ → ℕ → List Arg → Option (CString × List Arg)
directive room c args =
    if is_spec c
    then (next_arg (spec_text c) args >>= λ (t, rest). some (take room t, rest))
    else if c == b'c'
    then next_arg char_text args
    else if c == b'%'
    then some (b'%' ∷ [], args)
    else some (b'%' ∷ (if ltb 1 room then c ∷ [] else []), args)

-- The loop of `snprintf`. After a `%` at the end of the format it reads behind the NUL: a fault.
unfoldable pub snprintf_loop : CString → ℕ → List Arg → Option CString
snprintf_loop [] room args = some []
snprintf_loop (c ∷ []) room args =
    if room == 0 then some [] else if c == b'%' then none else some (c ∷ [])
snprintf_loop (c ∷ d ∷ p) room args = elim (room == 0) [
  | true ↦ some []
  | false ↦ elim (c == b'%') [
    | false ↦ (snprintf_loop (d ∷ p) (room - 1) args >>= λ u. some (c ∷ u))
    | true ↦
        (directive room d args >>= λ (t, rest).
        (snprintf_loop p (room - length t) rest >>= λ u. some (t ++ u)))
  ]
]

-- `buf` has `size` bytes; the final NUL needs one. With a size that is negative as an `int` the loop
-- does not run.
unfoldable pub snprintf : ℕ → CString → List Arg → Option CString
snprintf size fmt args =
    let n = size % 2 ^ 32 in
    if size == 0
    then none
    else snprintf_loop (text_of fmt) (if ltb n (2 ^ 31) then n - 1 else 0) args

-- What `printf` writes for `%c`, without `%l`; the second byte of an unknown conversion is written
-- with no look at the room.
unfoldable pub printf_directive : ℕ → ℕ → List Arg → Option (CString × List Arg)
printf_directive room c args =
    if is_spec c
    then (next_arg (spec_text c) args >>= λ (t, rest). some (take room t, rest))
    else if c == b'c'
    then next_arg char_text args
    else if c == b'%'
    then some (b'%' ∷ [], args)
    else some (b'%' ∷ c ∷ [], args)

unfoldable pub printf_loop : CString → ℕ → List Arg → Option CString
printf_loop [] room args = some []
printf_loop (c ∷ []) room args =
    if room == 0 then some [] else if c == b'%' then none else some (c ∷ [])
printf_loop (c ∷ d ∷ []) room args = elim (room == 0) [
  | true ↦ some []
  | false ↦ elim (c == b'%') [
    | false ↦ (printf_loop (d ∷ []) (room - 1) args >>= λ u. some (c ∷ u))
    | true ↦ elim (d == b'l') [
      | true ↦ none
      | false ↦ (printf_directive room d args >>= λ (t, rest). some t)
    ]
  ]
]
printf_loop (c ∷ d ∷ e ∷ p) room args = elim (room == 0) [
  | true ↦ some []
  | false ↦ elim (c == b'%') [
    | false ↦ (printf_loop (d ∷ e ∷ p) (room - 1) args >>= λ u. some (c ∷ u))
    | true ↦ elim (d == b'l') [
      | true ↦
          (next_arg (long_text e) args >>= λ (t, rest).
          (printf_loop p (room - length (take room t)) rest >>= λ u. some (take room t ++ u)))
      | false ↦
          (printf_directive room d args >>= λ (t, rest).
          (printf_loop (e ∷ p) (room - length t) rest >>= λ u. some (t ++ u)))
    ]
  ]
]

-- The text that `printf` passes on; `out` has 1024 bytes, and the final NUL needs one.
unfoldable pub printf : CString → List Arg → Option CString
printf fmt args =
    printf_loop (text_of fmt) 1023 args >>= λ t. if ltb (length t) 1024 then some t else none
