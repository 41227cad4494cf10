-- ===== src/Libc/Strings.antt =====
-- userspace/src/libc/string.c and userspace/src/ulib/string.c.
-- Strings and buffers are as in KString; these routines compare bytes as `unsigned char`.
pub mod Agree
pub mod Fill
mod Tests
use lxtos.Prelude.{
  ℕ, zero, suc, ◌+◌, ◌-◌, Bool, true, false, not, ◌&&◌, Option, none, some, List, [], ◌∷◌, ltb,
  ◌==◌, if◌then◌else◌, length, get_elem?, ◌>>=◌,
}
use lxtos.Prelude.Int.{ℤ, pos, negsuc, ◌-ℤ◌}
use lxtos.KString.{CString, first, after, put}

unfoldable pub strlen_from : ℕ → CString → ℕ
strlen_from n [] = n
strlen_from n (c ∷ s) = if c == 0 then n else strlen_from (n + 1) s

unfoldable pub strlen : CString → ℕ
unfolding strlen_from
strlen s = strlen_from 0 s

-- `(unsigned char)*a - (unsigned char)*b`
abbrev pub byte_diff : CString → CString → ℤ
byte_diff s t = pos (first s) -ℤ pos (first t)

unfoldable pub strcmp : CString → CString → ℤ
strcmp [] t = byte_diff [] t
strcmp (a ∷ s) t =
    let rest = strcmp s (after t) in
    if not (a == 0) && a == first t then rest else byte_diff (a ∷ s) t

unfoldable pub strncmp : CString → CString → ℕ → ℤ
strncmp s t zero = pos 0
strncmp s t (suc n) =
    let rest = strncmp (after s) (after t) n in
    if not (first s == 0) && first s == first t then rest else byte_diff s t

unfoldable pub u_strncmp : CString → CString → ℕ → ℤ
u_strncmp s t zero = pos 0
u_strncmp s t (suc n) =
    let rest = u_strncmp (after s) (after t) n in
    if first s == first t then (if first s == 0 then pos 0 else rest) else byte_diff s t

-- `dst` from position `d` on
unfoldable pub strcpy_at : List ℕ → ℕ → CString → Option (List ℕ)
strcpy_at dst d [] = put dst d 0
strcpy_at dst d (c ∷ s) =
    put dst d c >>= λ dst'. if c == 0 then some dst' else strcpy_at dst' (d + 1) s

unfoldable pub strcpy : List ℕ → CString → Option (List ℕ)
strcpy dst src = strcpy_at dst 0 src

-- The second loop of `strncpy`, and `memset`.
unfoldable pub memset : List ℕ → ℕ → ℕ → ℕ → Option (List ℕ)
memset dst d c zero = some dst
memset dst d c (suc n) = put dst d c >>= λ dst'. memset dst' (d + 1) c n

unfoldable pub strncpy_at : List ℕ → ℕ → CString → ℕ → Option (List ℕ)
strncpy_at dst d s zero = some dst
strncpy_at dst d [] (suc n) = memset dst d 0 (suc n)
strncpy_at dst d (c ∷ s) (suc n) =
    if c == 0 then memset dst d 0 (suc n) else (put dst d c >>= λ dst'. strncpy_at dst' (d + 1) s n)

unfoldable pub strncpy : List ℕ → CString → ℕ → Option (List ℕ)
strncpy dst src n = strncpy_at dst 0 src n

-- The string from the byte found on.
unfoldable pub strchr : CString → ℕ → Option CString
strchr [] c = none
strchr (a ∷ s) c =
    let rest = strchr s c in if a == 0 then none else if a == c then some (a ∷ s) else rest

unfoldable pub memcpy : List ℕ → ℕ → List ℕ → ℕ → ℕ → Option (List ℕ)
memcpy dst d src s zero = some dst
memcpy dst d src s (suc n) = do
  c ← get_elem? src s
  dst' ← put dst d c
  memcpy dst' (d + 1) src (s + 1) n

unfoldable pub memcmp : List ℕ → List ℕ → ℕ → Option ℤ
memcmp xs ys zero = some (pos 0)
memcmp [] ys (suc n) = none
memcmp (x ∷ xs) [] (suc n) = none
memcmp (x ∷ xs) (y ∷ ys) (suc n) =
    let rest = memcmp xs ys n in if x == y then rest else some (pos x -ℤ pos y)

-- `u_strlen` and `u_strcmp`
abbrev pub u_strlen : CString → ℕ
u_strlen s = strlen s

abbrev pub u_strcmp : CString → CString → ℤ
u_strcmp a b = strcmp a b

-- `u_strcpy`, as the string that it leaves
u_strcpy_from : CString → ℕ → CString
u_strcpy_from s zero = []
u_strcpy_from [] (suc room) = []
u_strcpy_from (c ∷ s) (suc room) = if c == 0 then [] else c ∷ u_strcpy_from s room

unfoldable pub u_strcpy : CString → ℕ → CString
unfolding u_strcpy_from
u_strcpy src max = u_strcpy_from src (max - 1)
