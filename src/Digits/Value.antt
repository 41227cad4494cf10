-- ===== src/Digits/Value.antt =====
-- The number that a text of digits stands for, and the loop that writes it.
use native.Mathlib.Nat.{div-lt_iff_lt-mul, div-add-mod', pow-suc, pow-zero}
use lxtos.Prelude.{
  ℕ, zero, suc, ◌+◌, ◌-◌, ◌*◌, ◌/◌, ◌%◌, ◌^◌, ◌≤◌, ◌<◌, ◌≡◌, ◌≢◌, refl, ap, subst, sym, ◌∙◌, true,
  false, [], ◌∷◌, leb, ◌==◌, if◌then◌else◌, arith, Bool-cases, inl, inr, length,
}
use lxtos.KString.{CString, first}
use lxtos.Digits.{lower_digit, upper_digit, digits_of}

-- What a byte counts as a digit.
abbrev pub digit_value : ℕ → ℕ
digit_value c = if leb c b'9' then c - b'0' else if leb c b'F' then c - b'A' + 10 else c - b'a' + 10

-- The number that `s` stands for behind the digits of `n`.
abbrev pub value : ℕ → ℕ → CString → ℕ
value base n [] = n
value base n (c ∷ s) = value base (n * base + digit_value c) s

-- Each byte is one of the 16 digits, in small letters, and below the base.
abbrev pub AreDigits : ℕ → CString → Type 0
AreDigits base [] = Unit {0}
AreDigits base (c ∷ s) =
    (c ≡ lower_digit (digit_value c)) × (digit_value c < base) × AreDigits base s

pub lower_digit-value : (d : ℕ) → d < 16 → digit_value (lower_digit d) ≡ d
lower_digit-value d h = ground arith

pub upper_digit-value : (d : ℕ) → d < 16 → digit_value (upper_digit d) ≡ d
upper_digit-value d h = ground arith

zero_lt : (rounds : ℕ) → 0 < 2 ^ rounds
zero_lt zero = omega arith
zero_lt (suc rounds) = grind (arith, zero_lt rounds)

module _ (base : ℕ) (two : 2 ≤ base) (sixteen : base ≤ 16) where
  rem_lt : (n : ℕ) → n % base < base
  rem_lt n = grind arith

  quot_lt : (rounds n : ℕ) → n < 2 ^ suc rounds → n / base < 2 ^ rounds
  quot_lt rounds n h = (div-lt_iff_lt-mul (omega arith)).1 (grind arith)

  -- The digits in front of `out` read as the number, followed by `out`.
  pub digits_of-value :
      (rounds n : ℕ) (out : CString)
      → n < 2 ^ rounds
      → value base 0 (digits_of rounds base n out) ≡ value base n out
  unfolding digits_of
  digits_of-value zero n out h = let e : 0 ≡ n = omega arith in ap (λ m. value base m out) e
  digits_of-value (suc rounds) n out h = elim (Bool-cases (n == 0)) [
    | inl q ↦ let e : 0 ≡ n = ground arith in rw (q, digits_of) (ap (λ m. value base m out) e)
    | inr q ↦
        let step : n / base * base + digit_value (lower_digit (n % base)) ≡ n =
          ap (λ d. n / base * base + d) (lower_digit-value (n % base) (omega (arith, rem_lt n)))
          ∙ div-add-mod' n base in
        rw (q, digits_of)
          (digits_of-value rounds (n / base) (lower_digit (n % base) ∷ out) (quot_lt rounds n h)
            ∙ ap (λ m. value base m out) step)
  ]

  pub digits_of-AreDigits :
      (rounds n : ℕ) (out : CString)
      → AreDigits base out
      → AreDigits base (digits_of rounds base n out)
  unfolding digits_of
  digits_of-AreDigits zero n out h = h
  digits_of-AreDigits (suc rounds) n out h = elim (Bool-cases (n == 0)) [
    | inl q ↦ rw (q, digits_of) h
    | inr q ↦
        let same : digit_value (lower_digit (n % base)) ≡ n % base =
          lower_digit-value (n % base) (omega (arith, rem_lt n)) in
        rw (q, digits_of)
          (digits_of-AreDigits rounds (n / base) (lower_digit (n % base) ∷ out)
            (ap lower_digit (sym same), omega (arith, same, rem_lt n), h))
  ]

  -- Every number of rounds that is enough gives the same digits.
  pub digits_of-rounds :
      (k m n : ℕ) (out : CString)
      → n < 2 ^ k
      → n < 2 ^ m
      → digits_of k base n out ≡ digits_of m base n out
  unfolding digits_of
  digits_of-rounds zero zero n out h g = refl
  digits_of-rounds zero (suc m) n out h g =
      let q : (n == 0) ≡ true = ground arith in rw (q, digits_of)
  digits_of-rounds (suc k) zero n out h g =
      let q : (n == 0) ≡ true = ground arith in rw (q, digits_of)
  digits_of-rounds (suc k) (suc m) n out h g = elim (Bool-cases (n == 0)) [
    | inl q ↦ rw (q, digits_of)
    | inr q ↦
        rw (q, digits_of)
          (digits_of-rounds k m (n / base) (lower_digit (n % base) ∷ out) (quot_lt k n h)
            (quot_lt m n g))
  ]

  power_lt : (k n : ℕ) → n < base ^ suc k → n / base < base ^ k
  power_lt k n h = (div-lt_iff_lt-mul (omega arith)).1 (subst (λ t. n < t) (pow-suc base k) h)

  -- A number below the `k`-th power of the base has at most `k` digits.
  pub length-digits_of :
      (rounds k n : ℕ) (out : CString)
      → n < base ^ k
      → length (digits_of rounds base n out) ≤ k + length out
  unfolding digits_of
  length-digits_of zero k n out h = omega arith
  length-digits_of (suc rounds) zero n out h =
      let q : (n == 0) ≡ true = ground (arith, pow-zero base) in rw (q, digits_of) (omega arith)
  length-digits_of (suc rounds) (suc k) n out h = elim (Bool-cases (n == 0)) [
    | inl q ↦ rw (q, digits_of) (omega arith)
    | inr q ↦
        rw (q, digits_of)
          (omega (
            arith,
            length-digits_of rounds k (n / base) (lower_digit (n % base) ∷ out) (power_lt k n h),
          ))
  ]

  zero_quot : (r : ℕ) → 0 * base + r ≡ r
  zero_quot r = grind arith

  lead_digit : (n : ℕ) → 0 < n → n / base ≡ 0 → lower_digit (n % base) ≢ b'0'
  lead_digit n pos none =
      let small : n ≡ n % base =
        sym (div-add-mod' n base) ∙ ap (λ q. q * base + n % base) none ∙ zero_quot (n % base) in
      ground (arith, small, rem_lt n)

  -- There is no leading zero.
  pub first-digits_of :
      (rounds n : ℕ) (out : CString)
      → 0 < n
      → n < 2 ^ rounds
      → first (digits_of rounds base n out) ≢ b'0'
  unfolding digits_of
  first-digits_of zero n out pos h = absurd (omega arith)
  first-digits_of (suc rounds) n out pos h =
      let q : (n == 0) ≡ false = ground arith in
      let step : first (digits_of rounds base (n / base) (lower_digit (n % base) ∷ out)) ≢ b'0' =
        elim (Bool-cases (n / base == 0)) [
          | inl z ↦
              let none : n / base ≡ 0 = ground arith in
              let stop : digits_of rounds base 0 (lower_digit (n % base) ∷ out)
                  ≡ lower_digit (n % base) ∷ out =
                digits_of-rounds rounds 0 0 (lower_digit (n % base) ∷ out) (zero_lt rounds)
                  (omega arith) in
              rw (none, stop) (lead_digit n pos none)
          | inr z ↦
              first-digits_of rounds (n / base) (lower_digit (n % base) ∷ out) (ground arith)
                (quot_lt rounds n h)
        ] in
      rw (q, digits_of) step
