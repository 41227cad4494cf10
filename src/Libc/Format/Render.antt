-- ===== src/Libc/Format/Render.antt =====
-- `snprintf` cuts the formatted text at the size of the buffer, and `printf` can leave its buffer.
use lxtos.Prelude.{
  ℕ, zero, suc, ◌-◌, ◌%◌, ◌^◌, ◌<◌, ◌≡◌, refl, ap, sym, ◌∙◌, true, false, Option, none, some, List,
  [], ◌∷◌, ◌++◌, ltb, ◌==◌, if◌then◌else◌, length, take, take-nil, arith, Bool-cases, inl, inr,
  ◌>>=◌, >>=-eq-some, some-inj, none-some,
}
use lxtos.KString.{CString}
use lxtos.Libc.Format.{
  Arg, string_arg, int_arg, uint_arg, long_arg, ulong_arg, text_of, spec_text, is_spec, next_arg,
  char_text, directive, snprintf_loop, snprintf,
}

-- The text of one conversion, at any length.
whole : ℕ → List Arg → Option (CString × List Arg)
whole c args =
    if is_spec c
    then next_arg (spec_text c) args
    else if c == b'c'
    then next_arg char_text args
    else some (b'%' ∷ (if c == b'%' then [] else c ∷ []), args)

-- The formatted text, at any length: the bytes of the format, and for each `%` and the byte behind it
-- the text of the conversion.
unfoldable pub render : CString → List Arg → Option CString
unfolding whole
render [] args = some []
render (c ∷ []) args = if c == b'%' then none else some (c ∷ [])
render (c ∷ d ∷ p) args = elim (c == b'%') [
  | false ↦ (render (d ∷ p) args >>= λ u. some (c ∷ u))
  | true ↦ (whole d args >>= λ (t, rest). (render p rest >>= λ u. some (t ++ u)))
]

take-append {ℓ} :
    {A : Type ℓ} (n : ℕ) (xs ys : List A)
    → take n xs ++ take (n - length (take n xs)) ys ≡ take n (xs ++ ys)
take-append {A = A} zero xs ys = let e : 0 - 0 ≡ 0 = omega arith in ap (λ k. take k ys) e
take-append (suc n) [] ys = let e : suc n - 0 ≡ suc n = omega arith in ap (λ k. take k ys) e
take-append (suc n) (x ∷ xs) ys =
    let e : suc n - suc (length (take n xs)) ≡ n - length (take n xs) = omega arith in
    ap (λ k. x ∷ (take n xs ++ take k ys)) e ∙ ap (λ t. x ∷ t) (take-append n xs ys)

next_arg-char :
    (args : List Arg) {t : CString} {rest : List Arg} (room : ℕ)
    → next_arg char_text args ≡ some (t, rest)
    → take (suc room) t ≡ t
unfolding next_arg char_text
next_arg-char [] room e = cc
next_arg-char (string_arg s ∷ args) room e = cc
next_arg-char (int_arg n ∷ args) room e = ground (arith, take-nil ℕ room)
next_arg-char (uint_arg n ∷ args) room e = cc
next_arg-char (long_arg n ∷ args) room e = cc
next_arg-char (ulong_arg n ∷ args) room e = cc

one_more : (c room : ℕ) → (if ltb 1 (suc room) then c ∷ [] else []) ≡ take room (c ∷ [])
one_more c zero = refl
one_more c (suc room) =
    let q : ltb 1 (suc (suc room)) ≡ true = ground arith in rw (q, take-nil ℕ room)

pair_of :
    {t u : CString} {args rest : List Arg}
    → ◌≡◌ {A = Option (CString × List Arg)} (some (t, args)) (some (u, rest))
    → (t ≡ u) × (args ≡ rest)
pair_of e = ground arith

directive-whole :
    (room c : ℕ) (args rest : List Arg) (t : CString)
    → whole c args ≡ some (t, rest)
    → directive (suc room) c args ≡ some (take (suc room) t, rest)
unfolding whole directive
directive-whole room c args rest t e = elim (Bool-cases (is_spec c)) [
  | inl q ↦ rw (q, rw q at e)
  | inr q ↦ elim (Bool-cases (c == b'c')) [
    | inl r ↦
        let f : next_arg char_text args ≡ some (t, rest) = rw (q, r) at e in
        rw (q, r, f) (ap (λ u. some (u, rest)) (sym (next_arg-char args room f)))
    | inr r ↦ elim (Bool-cases (c == b'%')) [
      | inl z ↦
          let f = pair_of (rw (q, r, z) at e) in
          rw (q, r, z, ← f.0, ← f.1) (ap (λ u. some (b'%' ∷ u, args)) (sym (take-nil ℕ room)))
      | inr z ↦
          let f = pair_of (rw (q, r, z) at e) in
          rw (q, r, z, ← f.0, ← f.1) (ap (λ u. some (b'%' ∷ u, args)) (one_more c room))
    ]
  ]
]

nonzero : (n : ℕ) → (suc n == 0) ≡ false
nonzero n = ground arith

snprintf_loop-render :
    (fmt : CString) (room : ℕ) (args : List Arg) (t : CString)
    → render fmt args ≡ some t
    → snprintf_loop fmt room args ≡ some (take room t)
unfolding render snprintf_loop
snprintf_loop-render [] room args t e =
    ap some (sym (take-nil ℕ room) ∙ ap (λ u. take room u) (some-inj e))
snprintf_loop-render (c ∷ []) zero args t e = refl
snprintf_loop-render (c ∷ []) (suc room) args t e = elim (Bool-cases (c == b'%')) [
  | inl q ↦ absurd (none-some (rw q at e))
  | inr q ↦
      let same : c ∷ [] ≡ t = some-inj (rw q at e) in
      rw (nonzero room, q, ← same) (ap (λ u. some (c ∷ u)) (sym (take-nil ℕ room)))
]
snprintf_loop-render (c ∷ d ∷ p) zero args t e = refl
snprintf_loop-render (c ∷ d ∷ p) (suc room) args t e = elim (Bool-cases (c == b'%')) [
  | inr q ↦
      let (u, runs, same) =
        >>=-eq-some (render (d ∷ p) args) (λ u. some (c ∷ u)) (rw (q, render) at e) in
      let less : suc room - 1 ≡ room = omega arith in
      rw (nonzero room, q, less, snprintf_loop-render (d ∷ p) room args u runs, snprintf_loop)
        (ap (λ v. some (take (suc room) v)) (some-inj same))
  | inl q ↦
      let (r, here, e') =
        >>=-eq-some (whole d args) (λ (v, rest). (render p rest >>= λ u. some (v ++ u)))
          (rw (q, render) at e) in
      let (u, runs, same) = >>=-eq-some (render p r.1) (λ u. some (r.0 ++ u)) e' in
      let left : ℕ = suc room - length (take (suc room) r.0) in
      rw
        (
          nonzero room,
          q,
          snprintf_loop,
          directive-whole room d args r.1 r.0 here,
          snprintf_loop-render p left r.1 u runs,
        )
        (ap some (take-append (suc room) r.0 u ∙ ap (λ v. take (suc room) v) (some-inj same)))
]

-- Where the formatted text exists, `snprintf` into a buffer of at least one byte, and fewer than 2^31,
-- does not fault, and writes the text cut to one byte less than the size.
pub snprintf_lem :
    (size : ℕ) (fmt : CString) (args : List Arg) (t : CString)
    → 0 < size
    → size < 2 ^ 31
    → render (text_of fmt) args ≡ some t
    → snprintf size fmt args ≡ some (take (size - 1) t)
unfolding snprintf
snprintf_lem size fmt args t h small e =
    let q : (size == 0) ≡ false = ground arith in
    let same : size % 2 ^ 32 ≡ size = omega arith in
    let fits : ltb size (2 ^ 31) ≡ true = ground arith in
    rw (q, same, fits) (snprintf_loop-render (text_of fmt) (size - 1) args t e)
