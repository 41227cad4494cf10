-- ===== src/Libc/Strings/Fill.antt =====
-- What `strcpy`, `strncpy`, `memset` and `memcpy` leave in a buffer.
use native.Mathlib.Numerals.{add-one}
use lxtos.Prelude.{
  ℕ, zero, suc, ◌+◌, ◌-◌, ◌≤◌, ◌<◌, ◌≡◌, refl, ap, sym, ◌∙◌, false, some, none, List, [], ◌∷◌, ◌++◌,
  arith, length, ltb, take, replicate, set, length-set, lt→ltb, ◌==◌, ◌⊎◌, inl, inr, Bool-cases,
}
use lxtos.KString.{CString, kmemset}
use lxtos.KString.Compare.{IsText}
use lxtos.KString.Memory.{splice, splice-cons, splice-nil, kmemset-splice}
use lxtos.Libc.Strings.{strcpy_at, strcpy, memset, strncpy_at, strncpy}

memset-kmemset : (dst : List ℕ) (d c n : ℕ) → memset dst d c n ≡ kmemset dst d c n
unfolding memset kmemset
memset-kmemset dst d c zero = refl
memset-kmemset dst d c (suc n) = ground (arith, memset-kmemset (set dst d c) (d + 1) c n)

memset-splice :
    (dst : List ℕ) (d c n : ℕ)
    → d + n ≤ length dst
    → memset dst d c n ≡ some (splice dst d (replicate n c))
memset-splice dst d c n h = memset-kmemset dst d c n ∙ kmemset-splice dst d c n h

-- One byte written, and the rest behind it.
splice_put :
    (dst : List ℕ) (d c : ℕ) (new : List ℕ)
    → d < length dst
    → splice (set dst d c) (d + 1) new ≡ splice dst d (c ∷ new)
splice_put dst d c new h = rw (add-one d) (splice-cons dst d c new h)

strncpy_at-splice :
    (dst : List ℕ) (d : ℕ) (s : CString) (n : ℕ)
    → IsText s
    → d + n ≤ length dst
    → strncpy_at dst d s n ≡ some (splice dst d (take n s ++ replicate (n - length s) 0))
unfolding strncpy_at
strncpy_at-splice dst d [] zero t h = ap some (sym (splice-nil dst d))
strncpy_at-splice dst d (c ∷ s) zero t h =
    let e : 0 ≡ 0 - suc (length s) = omega arith in
    ap some (sym (splice-nil dst d) ∙ ap (λ k. splice dst d (replicate k 0)) e)
strncpy_at-splice dst d [] (suc n) t h =
    let e : suc n ≡ suc n - 0 = omega arith in
    memset-splice dst d 0 (suc n) h ∙ ap (λ k. some (splice dst d (replicate k 0))) e
strncpy_at-splice dst d (c ∷ s) (suc n) t h =
    let e : n - length s ≡ suc n - suc (length s) = omega arith in
    let q : (c == 0) ≡ false = ground arith in
    rw (q, lt→ltb d (length dst) (omega arith))
      (strncpy_at-splice (set dst d c) (d + 1) s n t.2 (omega (arith, length-set dst d c))
        ∙ ap some (
            splice_put dst d c (take n s ++ replicate (n - length s) 0) (omega arith)
            ∙ ap (λ k. splice dst d (c ∷ (take n s ++ replicate k 0))) e))

-- `strncpy` into a buffer of at least `n` bytes does not fault: it writes exactly `n` bytes, the first
-- bytes of the proper string and zeros behind it; a string of `n` bytes or more gets no NUL.
pub strncpy-splice :
    (dst : List ℕ) (src : CString) (n : ℕ)
    → IsText src
    → n ≤ length dst
    → strncpy dst src n ≡ some (splice dst 0 (take n src ++ replicate (n - length src) 0))
unfolding strncpy
strncpy-splice dst src n t h = strncpy_at-splice dst 0 src n t (omega arith)

strcpy_at-splice :
    (dst : List ℕ) (d : ℕ) (s : CString)
    → IsText s
    → d + length s < length dst
    → strcpy_at dst d s ≡ some (splice dst d (s ++ 0 ∷ []))
unfolding strcpy_at
strcpy_at-splice dst d [] t h =
    rw (lt→ltb d (length dst) (omega arith))
      (ap some (sym (splice-nil (set dst d 0) (d + 1)) ∙ splice_put dst d 0 [] (omega arith)))
strcpy_at-splice dst d (c ∷ s) t h =
    let q : (c == 0) ≡ false = ground arith in
    rw (lt→ltb d (length dst) (omega arith), q)
      (strcpy_at-splice (set dst d c) (d + 1) s t.2 (omega (arith, length-set dst d c))
        ∙ ap some (splice_put dst d c (s ++ 0 ∷ []) (omega arith)))

strcpy_at-none :
    (dst : List ℕ) (d : ℕ) (s : CString)
    → IsText s
    → length dst ≤ d + length s
    → strcpy_at dst d s ≡ none
unfolding strcpy_at
strcpy_at-none dst d [] t h = ground arith
strcpy_at-none dst d (c ∷ s) t h =
    ground (arith, strcpy_at-none (set dst d c) (d + 1) s t.2, length-set dst d c)

-- `strcpy` has no bound: into a buffer with room for the proper string and its NUL it writes just
-- these, and into a smaller one it faults.
pub strcpy_lem :
    (dst : List ℕ) (src : CString)
    → IsText src
    → ((strcpy dst src ≡ some (splice dst 0 (src ++ 0 ∷ []))) × (length src < length dst))
      ⊎ ((strcpy dst src ≡ none) × (length dst ≤ length src))
unfolding strcpy
strcpy_lem dst src t = elim (Bool-cases (ltb (length src) (length dst))) [
  | inl q ↦ inl (strcpy_at-splice dst 0 src t (ground arith), ground arith)
  | inr q ↦ inr (strcpy_at-none dst 0 src t (ground arith), ground arith)
]
