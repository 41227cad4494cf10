-- ===== src/Digits/Kernel.antt =====
-- What `kitoa`, `kitoa_hex`, `kputdec` and `kputhex` write.
use native.Mathlib.Nat.{pow-zero}
use lxtos.Prelude.{
  ℕ, zero, suc, ◌+◌, ◌*◌, ◌/◌, ◌%◌, ◌^◌, ◌≤◌, ◌<◌, ◌≡◌, ◌≢◌, refl, ap, sym, ◌∙◌, true, false, [],
  ◌∷◌, ltb, ◌==◌, arith, Bool-cases, inl, inr, length, ◌⊎◌,
}
use lxtos.KString.{CString, first}
use lxtos.Digits.{
  lower_digit, upper_digit, digits_of, kitoa, hex_digits, kitoa_hex, dec_digits, kputdec_text,
  kputhex_text,
}
use lxtos.Digits.Value.{
  digit_value, value, AreDigits, upper_digit-value, digits_of-value, digits_of-AreDigits,
  digits_of-rounds, length-digits_of, first-digits_of,
}

-- A text spells the number in the base, in at most `room` digits and with no leading zero.
pub record Spells (base room n : ℕ) (s : CString) : Type 0 where
  pub digits : AreDigits base s
  pub reads : value base 0 s ≡ n
  pub fits : length s ≤ room
  pub lead : (n ≡ 0) ⊎ (first s ≢ b'0')

-- `kitoa` of a 32-bit number spells it in decimal, in at most 10 digits and with no leading zero.
pub kitoa_lem : (n : ℕ) → n < 2 ^ 32 → Spells 10 10 n (kitoa n)
unfolding kitoa
kitoa_lem n h = elim (Bool-cases (n == 0)) [
  | inl q ↦
      let e : 0 ≡ n = ground arith in
      rw q (record {
        digits = (refl, omega arith, tt);
        reads = e;
        fits = omega arith;
        lead = inl (sym e);
      })
  | inr q ↦ rw q (record {
    digits = digits_of-AreDigits 10 (omega arith) (omega arith) 32 n [] tt;
    reads = digits_of-value 10 (omega arith) (omega arith) 32 n [] h;
    fits = omega (arith, length-digits_of 10 (omega arith) (omega arith) 32 10 n [] (omega arith));
    lead = inr (first-digits_of 10 (omega arith) (omega arith) 32 n [] (ground arith) h);
  })
]

dec_digits-digits_of :
    (room rounds n : ℕ) (out : CString)
    → n < 10 ^ room
    → n < 2 ^ rounds
    → dec_digits room n out ≡ digits_of rounds 10 n out
unfolding dec_digits digits_of
dec_digits-digits_of zero rounds n out h g =
    let e : n ≡ 0 = omega (arith, pow-zero 10) in
    rw e
      (digits_of-rounds 10 (omega arith) (omega arith) 0 rounds 0 out (omega arith) (omega arith))
dec_digits-digits_of (suc room) zero n out h g =
    let q : ltb 0 n ≡ false = ground arith in rw (q, dec_digits)
dec_digits-digits_of (suc room) (suc rounds) n out h g = elim (Bool-cases (n == 0)) [
  | inl z ↦ let q : ltb 0 n ≡ false = ground arith in rw (z, q, dec_digits, digits_of)
  | inr z ↦
      let q : ltb 0 n ≡ true = ground arith in
      let d : lower_digit (n % 10) ≡ b'0' + n % 10 = ground arith in
      rw (z, q, dec_digits, digits_of, d)
        (dec_digits-digits_of room rounds (n / 10) ((b'0' + n % 10) ∷ out) (omega arith)
          (omega arith))
]

-- `kputdec` of any 64-bit number prints it in decimal, with no leading zero, and the 20 digits that it
-- has room for are enough.
pub kputdec_lem : (n : ℕ) → n < 2 ^ 64 → Spells 10 20 n (kputdec_text n)
unfolding kputdec_text
kputdec_lem n h = elim (Bool-cases (n == 0)) [
  | inl q ↦
      let e : 0 ≡ n = ground arith in
      rw q (record {
        digits = (refl, omega arith, tt);
        reads = e;
        fits = omega arith;
        lead = inl (sym e);
      })
  | inr q ↦
      rw (q, dec_digits-digits_of 20 64 n [] (omega arith) h)
        (record {
          digits = digits_of-AreDigits 10 (omega arith) (omega arith) 64 n [] tt;
          reads = digits_of-value 10 (omega arith) (omega arith) 64 n [] h;
          fits =
              omega
                (arith, length-digits_of 10 (omega arith) (omega arith) 64 20 n [] (omega arith));
          lead = inr (first-digits_of 10 (omega arith) (omega arith) 64 n [] (ground arith) h);
        })
]

-- `kputdec` and `kitoa` print a 32-bit number alike.
pub kputdec-kitoa : (n : ℕ) → n < 2 ^ 32 → kputdec_text n ≡ kitoa n
unfolding kputdec_text kitoa
kputdec-kitoa n h = elim (Bool-cases (n == 0)) [
  | inl q ↦ rw q
  | inr q ↦ rw q (dec_digits-digits_of 20 32 n [] (omega arith) h)
]

hex_digits-value :
    (rounds n : ℕ) (out : CString)
    → n < 16 ^ rounds
    → value 16 0 (hex_digits rounds n out) ≡ value 16 n out
unfolding hex_digits
hex_digits-value zero n out h =
    let e : 0 ≡ n = omega (arith, pow-zero 16) in ap (λ m. value 16 m out) e
hex_digits-value (suc rounds) n out h =
    let step : n / 16 * 16 + digit_value (upper_digit (n % 16)) ≡ n =
      omega (arith, upper_digit-value (n % 16) (omega arith)) in
    hex_digits-value rounds (n / 16) (upper_digit (n % 16) ∷ out) (omega arith)
    ∙ ap (λ m. value 16 m out) step

length-hex_digits :
    (rounds n : ℕ) (out : CString) → length (hex_digits rounds n out) ≡ rounds + length out
unfolding hex_digits
length-hex_digits zero n out = omega arith
length-hex_digits (suc rounds) n out =
    omega (arith, length-hex_digits rounds (n / 16) (upper_digit (n % 16) ∷ out))

-- `kitoa_hex` of any 64-bit number writes exactly 16 digits that stand for it, and `kputhex` prints the
-- same behind `0x`.
pub kitoa_hex_lem :
    (n : ℕ)
    → n < 2 ^ 64
    → (value 16 0 (kitoa_hex n) ≡ n)
      × (length (kitoa_hex n) ≡ 16)
      × (kputhex_text n ≡ b'0' ∷ b'x' ∷ kitoa_hex n)
unfolding kitoa_hex kputhex_text
kitoa_hex_lem n h = (hex_digits-value 16 n [] (omega arith), length-hex_digits 16 n [], refl)
