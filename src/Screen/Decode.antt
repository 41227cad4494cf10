-- ===== src/Screen/Decode.antt =====
-- The terminal's decoder: multi-byte characters, src/drivers/framebuffer.c.
use lxtos.Prelude.{
  ℕ, suc, ◌-◌, ◌*◌, ◌%◌, ◌^◌, ◌≤◌, ◌<◌, ◌≡◌, ap, sym, ◌∙◌, bit_and, bit_or, true, false, ◌||◌, [],
  ◌∷◌, arith, ltb, leb, ◌==◌, if◌then◌else◌, length, Bool-cases, inl, inr,
}
use lxtos.KString.{CString}
use lxtos.Screen.{Screen, fb_putchar_cursor, utf8_byte, fb_putchar_cursor_utf8}

-- The bytes given to the terminal one by one.
abbrev pub feed : (ℕ → ℕ → ℕ) → CString → Screen → Screen
feed font [] s = s
feed font (c ∷ text) s = feed font text (fb_putchar_cursor_utf8 font c s)

-- How many bytes follow the first byte of a character, and the bits that this one gives.
abbrev pub followers : ℕ → ℕ
followers b = if leb 0xF0 b then 3 else if leb 0xE0 b then 2 else 1

abbrev pub lead_bits : ℕ → ℕ
lead_bits b =
    if leb 0xF0 b then bit_and b 0x07 else if leb 0xE0 b then bit_and b 0x0F else bit_and b 0x1F

-- The code point with the bits of the bytes that follow, and the character drawn for it.
abbrev pub code_point : ℕ → CString → ℕ
code_point cp [] = cp
code_point cp (c ∷ cs) = code_point (bit_or (cp * 64 % 2 ^ 32) (bit_and c 0x3F)) cs

abbrev pub shown : ℕ → ℕ
shown cp = if ltb cp 128 then cp else b'?'

abbrev pub AreFollowers : CString → Type 0
AreFollowers [] = Unit {0}
AreFollowers (c ∷ cs) = (0x80 ≤ c) × (c < 0xC0) × AreFollowers cs

module _ (font : ℕ → ℕ → ℕ) where
  follower_step :
      (s : Screen) (c : ℕ)
      → s.esc_state ≡ 0
      → 0x80 ≤ c
      → c < 0xC0
      → 0 < s.utf8_left
      → fb_putchar_cursor_utf8 font c s ≡ (
          let cp = bit_or (s.utf8_cp * 64 % 2 ^ 32) (bit_and c 0x3F) in
          let s' = record s { utf8_cp = cp; utf8_left = s.utf8_left - 1 } in
          if s.utf8_left == 1 then fb_putchar_cursor font (shown cp) s' else s')
  unfolding fb_putchar_cursor_utf8 utf8_byte
  follower_step s c text lo hi left =
      let a : (s.esc_state == 1 || s.esc_state == 2) ≡ false = ground arith in
      let b : (c == 0x1B) ≡ false = ground arith in
      let d : ltb c 0x80 ≡ false = ground arith in
      let e : leb 0xF0 c ≡ false = ground arith in
      let f : leb 0xE0 c ≡ false = ground arith in
      let g : leb 0xC0 c ≡ false = ground arith in
      let h : (s.utf8_left == 0) ≡ false = ground arith in rw (a, b, d, e, f, g, h)

  followers_lem :
      (c : ℕ) (cs : CString) (s : Screen)
      → s.esc_state ≡ 0
      → AreFollowers (c ∷ cs)
      → s.utf8_left ≡ suc (length cs)
      → feed font (c ∷ cs) s
        ≡ fb_putchar_cursor font
            (shown (code_point s.utf8_cp (c ∷ cs)))
            (record s { utf8_cp = code_point s.utf8_cp (c ∷ cs); utf8_left = 0 })
  followers_lem c [] s text a left =
      let last : (s.utf8_left == 1) ≡ true = ground arith in
      let none : s.utf8_left - 1 ≡ 0 = omega arith in
      simp (follower_step s c text a.0 a.1 (omega arith), last, none)
  followers_lem c (d ∷ cs) s text a left =
      let more : (s.utf8_left == 1) ≡ false = ground arith in
      let less : s.utf8_left - 1 ≡ suc (length cs) = omega arith in
      let cp = bit_or (s.utf8_cp * 64 % 2 ^ 32) (bit_and c 0x3F) in
      ap (feed font (d ∷ cs)) (follower_step s c text a.0 a.1 (omega arith) ∙ simp more)
      ∙ followers_lem d cs (record s { utf8_cp = cp; utf8_left = s.utf8_left - 1 }) text a.2 less

  lead_step :
      (s : Screen) (b : ℕ)
      → s.esc_state ≡ 0
      → 0xC0 ≤ b
      → fb_putchar_cursor_utf8 font b s
        ≡ record s { utf8_cp = lead_bits b; utf8_left = followers b }
  unfolding fb_putchar_cursor_utf8 utf8_byte
  lead_step s b text lo =
      let p : (s.esc_state == 1 || s.esc_state == 2) ≡ false = ground arith in
      let q : (b == 0x1B) ≡ false = ground arith in
      let r : ltb b 0x80 ≡ false = ground arith in
      let t : leb 0xC0 b ≡ true = ground arith in
      elim (Bool-cases (leb 0xF0 b)) [
        | inl u ↦ rw (p, q, r, u)
        | inr u ↦ elim (Bool-cases (leb 0xE0 b)) [
          | inl v ↦ rw (p, q, r, u, v)
          | inr v ↦ rw (p, q, r, u, v, t)
        ]
      ]

  -- In plain text a first byte of a multi-byte character and the bytes that belong to it draw one
  -- character, `?` if the code point is none of ASCII.
  pub feed_character :
      (s : Screen) (b c : ℕ) (cs : CString)
      → s.esc_state ≡ 0
      → 0xC0 ≤ b
      → AreFollowers (c ∷ cs)
      → suc (length cs) ≡ followers b
      → feed font (b ∷ c ∷ cs) s
        ≡ fb_putchar_cursor font
            (shown (code_point (lead_bits b) (c ∷ cs)))
            (record s { utf8_cp = code_point (lead_bits b) (c ∷ cs); utf8_left = 0 })
  feed_character s b c cs text lo a n =
      ap (feed font (c ∷ cs)) (lead_step s b text lo)
      ∙ followers_lem c cs (record s { utf8_cp = lead_bits b; utf8_left = followers b }) text a
          (sym n)
