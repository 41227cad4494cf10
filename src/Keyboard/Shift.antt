-- ===== src/Keyboard/Shift.antt =====
-- The modifier keys after some scan codes, src/drivers/keyboard.c.
use lxtos.Prelude.{
  ℕ, ◌≡◌, ◌≢◌, refl, ap, Bool, true, false, ◌||◌, List, [], ◌∷◌, ◌++◌, arith, ◌==◌, if◌then◌else◌,
  inl, inr, ◌⊎◌,
}
use lxtos.Keyboard.{sc_lshift, sc_rshift, sc_lshift_r, sc_rshift_r, sc_lctrl, sc_lctrl_r}

-- A modifier key counts as held from the last press or release of either of its two keys on.
abbrev pub held : ℕ → ℕ → ℕ → ℕ → List ℕ → Bool → Bool
held press press' release release' [] was = was
held press press' release release' (sc ∷ codes) was = held press press' release release' codes (
    if sc == press || sc == press'
    then true
    else if sc == release || sc == release'
    then false
    else was)

abbrev pub shift_after : List ℕ → Bool → Bool
shift_after codes was = held sc_lshift sc_rshift sc_lshift_r sc_rshift_r codes was

abbrev pub ctrl_after : List ℕ → Bool → Bool
ctrl_after codes was = held sc_lctrl sc_lctrl sc_lctrl_r sc_lctrl_r codes was

-- No press or release of a shift key.
abbrev pub NoShift : List ℕ → Type 0
NoShift [] = Unit {0}
NoShift (sc ∷ codes) =
    (sc ≢ sc_lshift) × (sc ≢ sc_rshift) × (sc ≢ sc_lshift_r) × (sc ≢ sc_rshift_r) × NoShift codes

-- What the last press or release of a shift key among the codes leaves behind, or `was` without one.
abbrev pub Press : ℕ → Bool → Type 0
Press sc b =
    (((sc ≡ sc_lshift) ⊎ (sc ≡ sc_rshift)) × (b ≡ true))
    ⊎ (((sc ≡ sc_lshift_r) ⊎ (sc ≡ sc_rshift_r)) × (b ≡ false))

abbrev pub Shifted : List ℕ → Bool → Bool → Type 0
Shifted codes was b =
    (NoShift codes × (b ≡ was))
    ⊎ ((xs : List ℕ) × (sc : ℕ) × (ys : List ℕ) × (codes ≡ xs ++ sc ∷ ys) × NoShift ys × Press sc b)

shift_cases :
    (sc : ℕ) (was b : Bool)
    → b ≡ shift_after (sc ∷ []) was
    → Press sc b
      ⊎ ((sc ≢ sc_lshift) × (sc ≢ sc_rshift) × (sc ≢ sc_lshift_r) × (sc ≢ sc_rshift_r) × (b ≡ was))
shift_cases sc was b e = ground arith

pub shift_after-Shifted : (codes : List ℕ) (was : Bool) → Shifted codes was (shift_after codes was)
shift_after-Shifted [] was = inl (tt, refl)
shift_after-Shifted (sc ∷ codes) was =
    elim (shift_after-Shifted codes (shift_after (sc ∷ []) was)) [
      | inl (none, e) ↦ elim (shift_cases sc was (shift_after (sc ∷ codes) was) e) [
        | inl press ↦ inr ([], sc, codes, refl, none, press)
        | inr (a, b, c, d, same) ↦ inl ((a, b, c, d, none), same)
      ]
      | inr (xs, last, ys, e, none, press) ↦
          inr (sc ∷ xs, last, ys, ap (λ l. sc ∷ l) e, none, press)
    ]
