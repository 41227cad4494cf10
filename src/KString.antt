-- ===== src/KString.antt =====
-- The string and memory routines of src/lib/kstring.c.
-- A C string is the list of the bytes that a pointer leads to; reading at the list's end gives the
-- terminating NUL, and a NUL within the list ends the string there. A buffer is the list of its
-- bytes, and an access outside it is a fault.
pub mod Compare
pub mod Copy
pub mod Memory
pub mod Slices
mod Tests
use lxtos.Prelude.{
  ℕ, zero, suc, ◌+◌, ◌-◌, Bool, true, false, not, ◌&&◌, Option, none, some, List, [], ◌∷◌, ltb, leb,
  take, drop, ◌==◌, if◌then◌else◌, length, set, get_elem?, ◌>>=◌,
}
use lxtos.Prelude.Int.{ℤ, pos, negsuc, ◌-ℤ◌}

abbrev pub CString : Type 0
CString = List ℕ

-- `char` is signed: the number that a byte stands for.
unfoldable pub signed_char : ℕ → ℤ
signed_char c = if ltb c 128 then pos c else negsuc (255 - c)

kstrlen_from : ℕ → CString → ℕ
kstrlen_from n [] = n
kstrlen_from n (c ∷ s) = if c == 0 then n else kstrlen_from (n + 1) s

unfoldable pub kstrlen : CString → ℕ
unfolding kstrlen_from
kstrlen s = kstrlen_from 0 s

unfoldable pub kstrcmp : CString → CString → ℤ
kstrcmp [] [] = signed_char 0 -ℤ signed_char 0
kstrcmp [] (b ∷ t) = signed_char 0 -ℤ signed_char b
kstrcmp (a ∷ s) [] = signed_char a -ℤ signed_char 0
kstrcmp (a ∷ s) (b ∷ t) =
    let rest = kstrcmp s t in
    if not (a == 0) && not (b == 0) && a == b then rest else signed_char a -ℤ signed_char b

-- `*s` and `s + 1`
abbrev pub first : CString → ℕ
first [] = 0
first (c ∷ s) = c

abbrev pub after : CString → CString
after [] = []
after (c ∷ s) = s

unfoldable pub kstrncmp : CString → CString → ℕ → ℤ
kstrncmp s t zero = pos 0
kstrncmp s t (suc n) =
    let rest = kstrncmp (after s) (after t) n in
    if not (first s == first t)
    then signed_char (first s) -ℤ signed_char (first t)
    else if first s == 0
    then pos 0
    else rest

kstrcpy_from : CString → ℕ → CString
kstrcpy_from [] room = []
kstrcpy_from (c ∷ s) zero = []
kstrcpy_from (c ∷ s) (suc room) = if c == 0 then [] else c ∷ kstrcpy_from s room

-- The string that `dst` holds afterwards; its length and a NUL are what is written.
unfoldable pub kstrcpy : CString → ℕ → CString
unfolding kstrcpy_from
kstrcpy src max = kstrcpy_from src (max - 1)

-- `dst[i] = v`
abbrev pub put : List ℕ → ℕ → ℕ → Option (List ℕ)
put dst i v = if ltb i (length dst) then some (set dst i v) else none

-- `kmemcpy(dst + d, src + s, n)` between two buffers
unfoldable pub kmemcpy : List ℕ → ℕ → List ℕ → ℕ → ℕ → Option (List ℕ)
kmemcpy dst d src s zero = some dst
kmemcpy dst d src s (suc n) = do
  c ← get_elem? src s
  dst' ← put dst d c
  kmemcpy dst' (d + 1) src (s + 1) n

-- `kmemset(dst + d, v, n)`
unfoldable pub kmemset : List ℕ → ℕ → ℕ → ℕ → Option (List ℕ)
kmemset dst d v zero = some dst
kmemset dst d v (suc n) = do dst' ← put dst d v; kmemset dst' (d + 1) v n

-- `n` bytes from `off` on, read one by one.
unfoldable pub slice : List ℕ → ℕ → ℕ → Option (List ℕ)
slice buf off n = if leb (off + n) (length buf) then some (take n (drop off buf)) else none
