-- ===== src/Libc/Numbers/RoundTrip.antt =====
-- `atoi` reads back what `itoa` writes.
use lxtos.Prelude.{
  ℕ, ◌+◌, ◌-◌, ◌*◌, ◌^◌, ◌≤◌, ◌<◌, ◌≡◌, refl, ap, sym, ◌∙◌, true, false, ◌&&◌, some, [], ◌∷◌, ltb,
  leb, ◌==◌, ◌>>=◌, arith, Bool-cases, inl, inr,
}
use lxtos.Prelude.Int.{ℤ, pos, negsuc, neg}
use lxtos.KString.{CString, first}
use lxtos.Digits.{digits_of, lower_digit}
use lxtos.Digits.Value.{digit_value, value, AreDigits, digits_of-value, digits_of-AreDigits}
use lxtos.Libc.Numbers.{utoa_buf, signed_text, itoa, atoi_loop, atoi}

le-value : (s : CString) (n : ℕ) → n ≤ value 10 n s
le-value [] n = omega arith
le-value (c ∷ s) n = omega (arith, le-value s (n * 10 + digit_value c))

is_digit :
    (c : ℕ)
    → c ≡ lower_digit (digit_value c)
    → digit_value c < 10
    → (b'0' ≤ c) × (c ≤ b'9') × (digit_value c ≡ c - b'0')
is_digit c e h = ground arith

atoi_loop-value :
    (s : CString) (n : ℕ)
    → AreDigits 10 s
    → value 10 n s < 2 ^ 31
    → atoi_loop n s ≡ some (value 10 n s)
unfolding atoi_loop
atoi_loop-value [] n d h = refl
atoi_loop-value (c ∷ s) n d h =
    let (lo, hi, same) = is_digit c d.0 d.1 in
    let m : n * 10 + digit_value c ≡ n * 10 + (c - b'0') = ap (λ k. n * 10 + k) same in
    let digit : (leb b'0' c && leb c b'9') ≡ true = ground arith in
    let fits : ltb (n * 10 + (c - b'0')) (2 ^ 31) ≡ true =
      ground (arith, le-value s (n * 10 + digit_value c), m) in
    rw (digit, fits, atoi_loop, ← m) (atoi_loop-value s (n * 10 + digit_value c) d.2 h)

text-AreDigits : (n : ℕ) → AreDigits 10 (digits_of 64 10 n [])
text-AreDigits n = digits_of-AreDigits 10 (omega arith) (omega arith) 64 n [] tt

text_value : (n : ℕ) → n < 2 ^ 64 → value 10 0 (digits_of 64 10 n []) ≡ n
text_value n h = digits_of-value 10 (omega arith) (omega arith) 64 n [] h

reads_back : (n : ℕ) → n < 2 ^ 31 → atoi_loop 0 (digits_of 64 10 n []) ≡ some n
reads_back n h =
    let v = text_value n (omega arith) in
    atoi_loop-value (digits_of 64 10 n []) 0 (text-AreDigits n) (omega (arith, v)) ∙ ap some v

no_sign : (s : CString) → AreDigits 10 s → (first s == b'-') ≡ false
no_sign [] d = refl
no_sign (c ∷ s) d = let (lo, hi, same) = is_digit c d.0 d.1 in ground arith

atoi-itoa_pos : (n : ℕ) → n < 2 ^ 31 → (itoa (pos n) 10 >>= atoi) ≡ some (pos n)
unfolding signed_text utoa_buf atoi atoi_loop
atoi-itoa_pos n h = elim (Bool-cases (n == 0)) [
  | inl q ↦ let e : 0 ≡ n = ground arith in rw (sym e)
  | inr q ↦ rw (q, no_sign (digits_of 64 10 n []) (text-AreDigits n), reads_back n h)
]

abbrev pub magnitude : ℤ → ℕ
magnitude (pos n) = n
magnitude (negsuc n) = n + 1

-- `atoi` of what `itoa` writes in base ten is the number, for every `int` but the smallest; neither
-- faults there.
pub atoi-itoa : (n : ℤ) → magnitude n < 2 ^ 31 → (itoa n 10 >>= atoi) ≡ some n
unfolding signed_text atoi
atoi-itoa (pos n) h = atoi-itoa_pos n h
atoi-itoa (negsuc n) h =
    let fits : ltb (n + 1) (2 ^ 31) ≡ true = ground arith in
    let same : neg (pos (n + 1)) ≡ negsuc n = ground arith in
    rw (fits, reads_back (n + 1) h) (ap some same)
