-- ===== src/KString/Memory.antt =====
-- What `kmemcpy` and `kmemset` leave in a buffer, and that they fault only out of bounds.
use lxtos.Prelude.{
  ℕ, zero, suc, ◌+◌, ◌≤◌, ◌<◌, ◌≡◌, refl, sym, ap, ◌∙◌, none, some, List, [], ◌∷◌, ◌++◌, arith,
  length, take, drop, set, replicate, Bool-cases, Option-cases, inl, inr, ltb→lt, length-append,
  length-take, length-drop, ltb, lt→ltb, length-set, get_elem?, get_elem?-some, take-nil,
  take-append_left, append_assoc,
}
use lxtos.KString.{kmemcpy, kmemset}
use native.Mathlib.Numerals.{add-one}

-- `new` laid over `old` from offset `d` on.
abbrev pub splice {ℓ} : {A : Type ℓ} → List A → ℕ → List A → List A
splice old d new = take d old ++ (new ++ drop (length new) (drop d old))

pub splice-cons {ℓ} :
    {A : Type ℓ} (old : List A) (d : ℕ) (c : A) (new : List A)
    → d < length old
    → splice (set old d c) (suc d) new ≡ splice old d (c ∷ new)
splice-cons [] d c new h = elim h [ ]
splice-cons (x ∷ old) zero c new h = refl
splice-cons (x ∷ old) (suc d) c new h = ap (λ t. x ∷ t) (splice-cons old d c new (omega arith))

drop-get {ℓ} :
    {A : Type ℓ} (xs : List A) (i : ℕ) {a : A}
    → get_elem? xs i ≡ some a
    → drop i xs ≡ a ∷ drop (i + 1) xs
drop-get [] i h = cc
drop-get (x ∷ xs) zero h = ground arith
drop-get (x ∷ xs) (suc i) {a} h = drop-get xs i h ∙ ap (λ n. a ∷ drop n (x ∷ xs)) shift
  where
    shift : suc (i + 1) ≡ suc i + 1
    shift = omega arith

pub splice-nil {ℓ} : {A : Type ℓ} (old : List A) (d : ℕ) → splice old d [] ≡ old
splice-nil [] zero = refl
splice-nil [] (suc d) = refl
splice-nil (x ∷ old) zero = refl
splice-nil (x ∷ old) (suc d) = ap (λ t. x ∷ t) (splice-nil old d)

pub length-splice {ℓ} :
    {A : Type ℓ} (old : List A) (d : ℕ) (new : List A)
    → d + length new ≤ length old
    → length (splice old d new) ≡ length old
length-splice old d new h = omega (
  arith,
  length-append {ℓ} (take d old) (new ++ drop (length new) (drop d old)),
  length-append {ℓ} new (drop (length new) (drop d old)),
  length-take {ℓ} d old,
  length-drop {ℓ} (length new) (drop d old),
  length-drop {ℓ} d old,
)

kmemcpy_step :
    (dst : List ℕ) (d : ℕ) (src : List ℕ) (s n : ℕ) {c : ℕ}
    → get_elem? src s ≡ some c
    → d < length dst
    → kmemcpy dst d src s (suc n) ≡ kmemcpy (set dst d c) (d + 1) src (s + 1) n
unfolding kmemcpy
kmemcpy_step dst d src s n e h = rw (e, lt→ltb d (length dst) h)

splice_step {ℓ} :
    {A : Type ℓ} (old : List A) (d : ℕ) (src : List A) (s n : ℕ) {c : A}
    → get_elem? src s ≡ some c
    → d < length old
    → splice (set old d c) (d + 1) (take n (drop (s + 1) src))
      ≡ splice old d (take (suc n) (drop s src))
splice_step old d src s n {c} e h =
    rw (drop-get src s e, add-one d) (splice-cons old d c (take n (drop (s + 1) src)) h)

-- Within bounds the copy does not fault, and lays the bytes over the destination.
pub kmemcpy-splice :
    (dst : List ℕ) (d : ℕ) (src : List ℕ) (s n : ℕ)
    → d + n ≤ length dst
    → s + n ≤ length src
    → kmemcpy dst d src s n ≡ some (splice dst d (take n (drop s src)))
unfolding kmemcpy
kmemcpy-splice dst d src s zero p q = ap some (sym (splice-nil dst d))
kmemcpy-splice dst d src s (suc n) p q =
    let (c, e) = get_elem?-some src s (omega arith) in
    kmemcpy_step dst d src s n e (omega arith)
    ∙ kmemcpy-splice (set dst d c) (d + 1) src (s + 1) n (omega (arith, length-set dst d c))
        (omega arith)
    ∙ ap some (splice_step dst d src s n e (omega arith))

-- A copy that leaves its destination faults.
pub kmemcpy_fault :
    (dst : List ℕ) (d : ℕ) (src : List ℕ) (s n : ℕ)
    → length dst ≤ d + n
    → kmemcpy dst d src s (suc n) ≡ none
unfolding kmemcpy
kmemcpy_fault dst d src s zero p = ground arith
kmemcpy_fault dst d src s (suc n) p = elim (Option-cases (get_elem? src s)) [
  | inl e ↦ rw e
  | inr (c, e) ↦ elim (Bool-cases (ltb d (length dst))) [
    | inl h ↦
        kmemcpy_step dst d src s (suc n) e (ltb→lt d (length dst) h)
        ∙ kmemcpy_fault (set dst d c) (d + 1) src (s + 1) n (omega (arith, length-set dst d c))
    | inr h ↦ rw (e, h)
  ]
]

-- `kmemset` fills its range and nothing else.
pub kmemset-splice :
    (dst : List ℕ) (d v n : ℕ)
    → d + n ≤ length dst
    → kmemset dst d v n ≡ some (splice dst d (replicate n v))
unfolding kmemset
kmemset-splice dst d v zero p = ap some (sym (splice-nil dst d))
kmemset-splice dst d v (suc n) p = rw (lt→ltb d (length dst) (omega arith)) (
    kmemset-splice (set dst d v) (d + 1) v n (omega (arith, length-set dst d v))
    ∙ ap some (rw (add-one d) (splice-cons dst d v (replicate n v) (omega arith))))

take-plus : (d n : ℕ) (xs : List ℕ) → take (d + n) xs ≡ take d xs ++ take n (drop d xs)
take-plus zero n xs = let e : zero + n ≡ n = omega arith in ap (λ k. take k xs) e
take-plus (suc d) n [] =
    let e : suc d + n ≡ suc (d + n) = omega arith in
    ap (λ k. take {A = ℕ} k []) e ∙ sym (take-nil ℕ n)
take-plus (suc d) n (x ∷ xs) =
    let e : suc d + n ≡ suc (d + n) = omega arith in
    ap (λ k. take k (x ∷ xs)) e ∙ ap (λ t. x ∷ t) (take-plus d n xs)

-- The next bytes copied extend what agrees.
pub splice_prefix :
    (cur buf : List ℕ) (d n : ℕ)
    → take d cur ≡ take d buf
    → d + n ≤ length cur
    → d + n ≤ length buf
    → take (d + n) (splice cur d (take n (drop d buf))) ≡ take (d + n) buf
splice_prefix cur buf d n agree p q =
    let new = take n (drop d buf) in
    ap (take (d + n)) (sym (append_assoc (take d cur) new (drop (length new) (drop d cur))))
    ∙ take-append_left (d + n) (take d cur ++ new) (drop (length new) (drop d cur)) (
        omega (
          arith,
          length-append {0} (take d cur) new,
          length-take d cur,
          length-take n (drop d buf),
          length-drop d buf,
        ))
    ∙ ap (λ t. t ++ new) agree
    ∙ sym (take-plus d n buf)
