-- ===== src/KString/Copy.antt =====
-- What `kstrcpy` leaves in its destination.
use lxtos.Prelude.{
  ℕ, zero, suc, ◌+◌, ◌-◌, ◌≤◌, ◌<◌, ◌≡◌, refl, ◌∙◌, [], ◌∷◌, arith, length, take, take_all,
}
use lxtos.KString.{CString, kstrcpy_from, kstrcpy}
use lxtos.KString.Compare.{IsText}

kstrcpy_from-take : (s : CString) (n : ℕ) → IsText s → kstrcpy_from s n ≡ take n s
unfolding kstrcpy_from
kstrcpy_from-take [] zero t = refl
kstrcpy_from-take [] (suc n) t = refl
kstrcpy_from-take (c ∷ s) zero t = refl
kstrcpy_from-take (c ∷ s) (suc n) t = ground (arith, kstrcpy_from-take s n t.2)

-- The copy of a proper C string is the string, cut to one byte less than the size given.
pub kstrcpy-take : (s : CString) (max : ℕ) → IsText s → kstrcpy s max ≡ take (max - 1) s
unfolding kstrcpy
kstrcpy-take s max t = kstrcpy_from-take s (max - 1) t

pub kstrcpy_short : (s : CString) (max : ℕ) → IsText s → length s < max → kstrcpy s max ≡ s
kstrcpy_short s max t h = kstrcpy-take s max t ∙ take_all (max - 1) s (omega arith)

length-kstrcpy_from : (s : CString) (n : ℕ) → length (kstrcpy_from s n) ≤ n
unfolding kstrcpy_from
length-kstrcpy_from [] n = omega arith
length-kstrcpy_from (c ∷ s) zero = omega arith
length-kstrcpy_from (c ∷ s) (suc n) = ground (arith, length-kstrcpy_from s n)

-- With its NUL the copy fits a destination of `max` bytes, whatever the source holds.
pub length-kstrcpy : (s : CString) (max : ℕ) → 0 < max → length (kstrcpy s max) + 1 ≤ max
unfolding kstrcpy
length-kstrcpy s max h = omega (arith, length-kstrcpy_from s (max - 1))

kstrcpy_from-IsText : (s : CString) (n : ℕ) → IsText s → IsText (kstrcpy_from s n)
unfolding kstrcpy_from
kstrcpy_from-IsText [] n t = tt
kstrcpy_from-IsText (c ∷ s) zero t = tt
kstrcpy_from-IsText (c ∷ s) (suc n) t = ground (arith, kstrcpy_from-IsText s n t.2)

pub kstrcpy-IsText : (s : CString) (max : ℕ) → IsText s → IsText (kstrcpy s max)
unfolding kstrcpy
kstrcpy-IsText s max t = kstrcpy_from-IsText s (max - 1) t
