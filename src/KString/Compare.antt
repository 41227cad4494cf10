-- ===== src/KString/Compare.antt =====
-- What `kstrcmp` and `kstrncmp` decide, and what `kstrlen` measures.
use lxtos.Prelude.{ℕ, zero, suc, ◌+◌, ◌<◌, ◌≡◌, refl, sym, ◌≢◌, ◌↔◌, [], ◌∷◌, arith, length, take}
use lxtos.Prelude.Int.{pos, neg, ◌-ℤ◌, neg-sub, sub_self, sub-eq_zero}
use lxtos.KString.{CString, signed_char, kstrlen_from, kstrlen, kstrcmp, kstrncmp}

-- The bytes of a proper C string: no NUL before its end.
abbrev pub IsText : CString → Type 0
IsText [] = Unit {0}
IsText (c ∷ s) = (c ≢ 0) × (c < 256) × IsText s

kstrlen_from-length : (n : ℕ) (s : CString) → IsText s → kstrlen_from n s ≡ n + length s
unfolding kstrlen_from
kstrlen_from-length n [] t = omega arith
kstrlen_from-length n (c ∷ s) t = ground (arith, kstrlen_from-length (n + 1) s t.2)

pub kstrlen-length : (s : CString) → IsText s → kstrlen s ≡ length s
unfolding kstrlen
kstrlen-length s t = omega (arith, kstrlen_from-length 0 s t)

signed_char-inj : (a b : ℕ) → a < 256 → b < 256 → signed_char a ≡ signed_char b → a ≡ b
unfolding signed_char
signed_char-inj a b p q h = ground arith

pub diff-eq : (a b : ℕ) → a < 256 → b < 256 → signed_char a -ℤ signed_char b ≡ pos 0 → a ≡ b
diff-eq a b p q h = signed_char-inj a b p q (sub-eq_zero _ _ h)

pub kstrcmp-eq : (s t : CString) → IsText s → IsText t → kstrcmp s t ≡ pos 0 → s ≡ t
unfolding kstrcmp
kstrcmp-eq [] [] p q h = refl
kstrcmp-eq [] (b ∷ t) p q h = ground (arith, diff-eq 0 b)
kstrcmp-eq (a ∷ s) [] p q h = ground (arith, diff-eq a 0)
kstrcmp-eq (a ∷ s) (b ∷ t) p q h = ground (arith, kstrcmp-eq s t p.2 q.2, diff-eq a b)

pub kstrcmp_refl : (s : CString) → kstrcmp s s ≡ pos 0
unfolding kstrcmp
kstrcmp_refl [] = sub_self (signed_char 0)
kstrcmp_refl (a ∷ s) = ground (arith, kstrcmp_refl s, sub_self (signed_char a))

-- `kstrcmp` of two proper C strings is 0 exactly if they are equal.
pub kstrcmp_zero_iff : (s t : CString) → IsText s → IsText t → (kstrcmp s t ≡ pos 0) ↔ (s ≡ t)
kstrcmp_zero_iff s t p q = (kstrcmp-eq s t p q, λ e. rw e (kstrcmp_refl t))

-- Exchanging the arguments negates the result.
pub kstrcmp_swap : (s t : CString) → kstrcmp t s ≡ neg (kstrcmp s t)
unfolding kstrcmp
kstrcmp_swap [] [] = sym (neg-sub _ _)
kstrcmp_swap [] (b ∷ t) = sym (neg-sub _ _)
kstrcmp_swap (a ∷ s) [] = sym (neg-sub _ _)
kstrcmp_swap (a ∷ s) (b ∷ t) =
    ground (arith, kstrcmp_swap s t, neg-sub (signed_char a) (signed_char b))

pub kstrncmp-eq :
    (s t : CString) (n : ℕ) → IsText s → IsText t → kstrncmp s t n ≡ pos 0 → take n s ≡ take n t
unfolding kstrncmp
kstrncmp-eq s t zero p q h = refl
kstrncmp-eq [] [] (suc n) p q h = refl
kstrncmp-eq [] (b ∷ t) (suc n) p q h = ground (arith, diff-eq 0 b)
kstrncmp-eq (a ∷ s) [] (suc n) p q h = ground (arith, diff-eq a 0)
kstrncmp-eq (a ∷ s) (b ∷ t) (suc n) p q h = ground (arith, kstrncmp-eq s t n p.2 q.2, diff-eq a b)

kstrncmp_of_eq :
    (s t : CString) (n : ℕ) → IsText s → IsText t → take n s ≡ take n t → kstrncmp s t n ≡ pos 0
unfolding kstrncmp
kstrncmp_of_eq s t zero p q h = refl
kstrncmp_of_eq [] [] (suc n) p q h = refl
kstrncmp_of_eq [] (b ∷ t) (suc n) p q h = cc
kstrncmp_of_eq (a ∷ s) [] (suc n) p q h = cc
kstrncmp_of_eq (a ∷ s) (b ∷ t) (suc n) p q h = ground (arith, kstrncmp_of_eq s t n p.2 q.2)

-- `kstrncmp` of two proper C strings is 0 exactly if their first `n` bytes agree.
pub kstrncmp_zero_iff :
    (s t : CString) (n : ℕ) → IsText s → IsText t → (kstrncmp s t n ≡ pos 0) ↔ (take n s ≡ take n t)
kstrncmp_zero_iff s t n p q = (kstrncmp-eq s t n p q, kstrncmp_of_eq s t n p q)
