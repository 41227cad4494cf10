-- ===== src/Libc/Strings/Agree.antt =====
-- The user's comparisons against each other and against the kernel's.
use lxtos.Prelude.{
  ℕ, zero, suc, ◌+◌, ◌-◌, ◌≡◌, ◌↔◌, refl, sym, ◌∙◌, List, [], ◌∷◌, arith, take, some, length, ◌≤◌,
}
use lxtos.Prelude.Int.{pos, ◌-ℤ◌, sub-eq_zero, sub_self}
use lxtos.KString.{CString, first, after, kstrcmp, kstrcpy}
use lxtos.KString.Compare.{IsText, kstrcmp_zero_iff}
use lxtos.KString.Copy.{kstrcpy-take}
use lxtos.Libc.Strings.{
  strlen, strlen_from, strcmp, strncmp, u_strncmp, memcmp, u_strcpy, u_strcpy_from,
}

pos-inj : {a b : ℕ} → pos a ≡ pos b → a ≡ b
pos-inj e = cc

diff-eq : (a b : ℕ) → pos a -ℤ pos b ≡ pos 0 → a ≡ b
diff-eq a b e = pos-inj (sub-eq_zero (pos a) (pos b) e)

strcmp-eq : (s t : CString) → IsText s → IsText t → strcmp s t ≡ pos 0 → s ≡ t
unfolding strcmp
strcmp-eq [] [] p q h = refl
strcmp-eq [] (b ∷ t) p q h = ground (arith, diff-eq 0 b)
strcmp-eq (a ∷ s) [] p q h = ground (arith, diff-eq a 0)
strcmp-eq (a ∷ s) (b ∷ t) p q h = ground (arith, strcmp-eq s t p.2 q.2, diff-eq a b)

strcmp_refl : (s : CString) → strcmp s s ≡ pos 0
unfolding strcmp
strcmp_refl [] = sub_self (pos 0)
strcmp_refl (a ∷ s) = ground (arith, strcmp_refl s, sub_self (pos a))

-- On proper strings the `strcmp` of user programs is 0 exactly if the strings are equal, and so
-- exactly if the kernel's `kstrcmp` is 0.
pub strcmp_zero_iff :
    (s t : CString)
    → IsText s
    → IsText t
    → ((strcmp s t ≡ pos 0) ↔ (s ≡ t)) × ((strcmp s t ≡ pos 0) ↔ (kstrcmp s t ≡ pos 0))
strcmp_zero_iff s t p q =
    let k = kstrcmp_zero_iff s t p q in
    (
      (strcmp-eq s t p q, λ e. rw e (strcmp_refl t)),
      (λ e. k.1 (strcmp-eq s t p q e), λ e. rw (k.0 e) (strcmp_refl t)),
    )

-- `u_strncmp` and `strncmp` give the same result.
pub u_strncmp-strncmp : (s t : CString) (n : ℕ) → u_strncmp s t n ≡ strncmp s t n
unfolding u_strncmp strncmp
u_strncmp-strncmp s t zero = refl
u_strncmp-strncmp s t (suc n) =
    ground (arith, u_strncmp-strncmp (after s) (after t) n, sub_self (pos (first s)))

memcmp-eq : (xs ys : List ℕ) (n : ℕ) → memcmp xs ys n ≡ some (pos 0) → take n xs ≡ take n ys
unfolding memcmp
memcmp-eq xs ys zero h = refl
memcmp-eq [] ys (suc n) h = cc
memcmp-eq (x ∷ xs) [] (suc n) h = cc
memcmp-eq (x ∷ xs) (y ∷ ys) (suc n) h = ground (arith, memcmp-eq xs ys n, diff-eq x y)

memcmp_same :
    (xs ys : List ℕ) (n : ℕ) → n ≤ length xs → take n xs ≡ take n ys → memcmp xs ys n ≡ some (pos 0)
unfolding memcmp
memcmp_same xs ys zero h e = refl
memcmp_same [] ys (suc n) h e = absurd (omega arith)
memcmp_same (x ∷ xs) [] (suc n) h e = cc
memcmp_same (x ∷ xs) (y ∷ ys) (suc n) h e = ground (arith, memcmp_same xs ys n)

-- `memcmp` of two buffers of at least `n` bytes does not fault, and is 0 exactly if their first `n`
-- bytes agree.
pub memcmp_zero_iff :
    (xs ys : List ℕ) (n : ℕ)
    → n ≤ length xs
    → (memcmp xs ys n ≡ some (pos 0)) ↔ (take n xs ≡ take n ys)
memcmp_zero_iff xs ys n h = (memcmp-eq xs ys n, memcmp_same xs ys n h)

u_strcpy_from-take : (s : CString) (n : ℕ) → IsText s → u_strcpy_from s n ≡ take n s
unfolding u_strcpy_from
u_strcpy_from-take [] zero t = refl
u_strcpy_from-take [] (suc n) t = refl
u_strcpy_from-take (c ∷ s) zero t = refl
u_strcpy_from-take (c ∷ s) (suc n) t = ground (arith, u_strcpy_from-take s n t.2)

-- On a proper string the bounded copies of user programs and of the kernel leave the same string.
pub u_strcpy-kstrcpy : (s : CString) (max : ℕ) → IsText s → u_strcpy s max ≡ kstrcpy s max
unfolding u_strcpy
u_strcpy-kstrcpy s max t = u_strcpy_from-take s (max - 1) t ∙ sym (kstrcpy-take s max t)

strlen_from-length : (n : ℕ) (s : CString) → IsText s → strlen_from n s ≡ n + length s
unfolding strlen_from
strlen_from-length n [] t = omega arith
strlen_from-length n (c ∷ s) t = ground (arith, strlen_from-length (n + 1) s t.2)

pub strlen-length : (s : CString) → IsText s → strlen s ≡ length s
unfolding strlen
strlen-length s t = omega (arith, strlen_from-length 0 s t)
