-- ===== src/Screen/Color.antt =====
-- The terminal's colour sequences, src/drivers/framebuffer.c.
use lxtos.Prelude.{
  ℕ, ◌+◌, ◌-◌, ◌*◌, ◌%◌, ◌^◌, ◌≤◌, ◌<◌, ◌≡◌, refl, ap, sym, subst, ◌∙◌, true, false, ◌&&◌, ◌||◌,
  List, [], ◌∷◌, ◌++◌, arith, ltb, leb, ◌==◌, if◌then◌else◌, length, length-append, append_assoc,
  append-nil,
}
use native.Mathlib.Nat.{pow-suc}
use lxtos.KString.{CString}
use lxtos.Screen.{Screen, ansi_codes, handle_ansi, escape, fb_putchar_cursor_utf8}
use lxtos.Screen.Decode.{feed}

-- Digits and semicolons.
abbrev pub AreCodes : CString → Type 0
AreCodes [] = Unit {0}
AreCodes (c ∷ cs) = ((leb b'0' c && leb c b'9' || c == b';') ≡ true) × AreCodes cs

module _ (font : ℕ → ℕ → ℕ) where
  feed-append :
      (xs ys : CString) (s : Screen) → feed font (xs ++ ys) s ≡ feed font ys (feed font xs s)
  feed-append [] ys s = refl
  feed-append (x ∷ xs) ys s = feed-append xs ys (fb_putchar_cursor_utf8 font x s)

  code_step :
      (s : Screen) (c : ℕ)
      → s.esc_state ≡ 2
      → (leb b'0' c && leb c b'9' || c == b';') ≡ true
      → length s.esc_buf < 15
      → fb_putchar_cursor_utf8 font c s ≡ record s { esc_buf = s.esc_buf ++ c ∷ [] }
  unfolding fb_putchar_cursor_utf8 escape
  code_step s c state code room =
      let p : (s.esc_state == 1 || s.esc_state == 2) ≡ true = ground arith in
      let q : (s.esc_state == 1) ≡ false = ground arith in
      let r : ltb (length s.esc_buf) 15 ≡ true = ground arith in rw (p, q, code, r)

  codes_lem :
      (cs : CString) (s : Screen)
      → s.esc_state ≡ 2
      → AreCodes cs
      → length s.esc_buf + length cs ≤ 15
      → feed font cs s ≡ record s { esc_buf = s.esc_buf ++ cs }
  codes_lem [] s state a h = ap (λ b. record s { esc_buf = b }) (sym (append-nil s.esc_buf))
  codes_lem (c ∷ cs) s state a h =
      ap (feed font cs) (code_step s c state a.0 (omega arith))
      ∙ codes_lem cs (record s { esc_buf = s.esc_buf ++ c ∷ [] }) state a.1
          (omega (arith, length-append {0} s.esc_buf (c ∷ [])))
      ∙ ap (λ b. record s { esc_buf = b }) (append_assoc s.esc_buf (c ∷ []) cs)

  end_step :
      (s : Screen)
      → s.esc_state ≡ 2
      → fb_putchar_cursor_utf8 font b'm' s
        ≡ record s { term_fg = ansi_codes s.esc_buf 0 s.term_fg; esc_state = 0 }
  unfolding fb_putchar_cursor_utf8 escape handle_ansi
  end_step s state =
      let p : (s.esc_state == 1 || s.esc_state == 2) ≡ true = ground arith in
      let q : (s.esc_state == 1) ≡ false = ground arith in rw (p, q)

  start_step :
      (s : Screen)
      → s.esc_state ≡ 0
      → feed font (0x1B ∷ b'[' ∷ []) s ≡ record s { esc_state = 2; esc_buf = [] }
  unfolding fb_putchar_cursor_utf8 escape
  start_step s text =
      let p : (s.esc_state == 1 || s.esc_state == 2) ≡ false = ground arith in simp p

-- What a text of digits stands for: the digit in front counts as many tens as digits follow.
abbrev pub decimal : CString → ℕ
decimal [] = 0
decimal (c ∷ s) = (c - b'0') * 10 ^ length s + decimal s

abbrev pub AreDigits : CString → Type 0
AreDigits [] = Unit {0}
AreDigits (c ∷ s) = (b'0' ≤ c) × (c ≤ b'9') × AreDigits s

-- The codes of a sequence: each is digits, none or more, that stand for an `int`.
abbrev pub AreNumbers : List CString → Type 0
AreNumbers [] = Unit {0}
AreNumbers (d ∷ ds) = AreDigits d × (decimal d < 2 ^ 31) × AreNumbers ds

-- The codes with semicolons between.
abbrev pub separate : CString → List CString → CString
separate d [] = d
separate d (e ∷ ds) = d ++ b';' ∷ separate e ds

-- The codes that set a colour, with it.
abbrev pub palette : List (ℕ × ℕ)
palette =
    (0, 0xFFFFFF)
    ∷ (30, 0x000000)
    ∷ (31, 0xFF3333)
    ∷ (32, 0x33FF33)
    ∷ (33, 0xFFFF33)
    ∷ (34, 0x3399FF)
    ∷ (35, 0xFF33FF)
    ∷ (36, 0x33FFFF)
    ∷ (37, 0xFFFFFF)
    ∷ []

abbrev pub color_of : List (ℕ × ℕ) → ℕ → ℕ → ℕ
color_of [] code fg = fg
color_of ((k, color) ∷ colors) code fg = if code == k then color else color_of colors code fg

-- The foreground after the codes, one after the other; a code without a colour changes nothing.
abbrev pub colored : List CString → ℕ → ℕ
colored [] fg = fg
colored (d ∷ ds) fg = colored ds (color_of palette (decimal d) fg)

abbrev horner : ℕ → CString → ℕ
horner code [] = code
horner code (c ∷ s) = horner (code * 10 + (c - b'0')) s

horner-decimal : (code : ℕ) (d : CString) → horner code d ≡ code * 10 ^ length d + decimal d
horner-decimal code [] = omega arith
horner-decimal code (c ∷ d) =
    let tens : 10 ^ length {A = ℕ} (c ∷ d) ≡ 10 ^ length d * 10 = pow-suc 10 (length d) in
    let p = 10 ^ length d in
    let rest : (code * 10 + (c - b'0')) * p ≡ code * (p * 10) + (c - b'0') * p = grind arith in
    horner-decimal (code * 10 + (c - b'0')) d ∙ rw tens (omega (arith, rest))

horner-le : (code : ℕ) (d : CString) → code ≤ horner code d
horner-le code [] = omega arith
horner-le code (c ∷ d) = omega (arith, horner-le (code * 10 + (c - b'0')) d)

digits_run :
    (d rest : CString) (code fg : ℕ)
    → AreDigits d
    → horner code d < 2 ^ 31
    → ansi_codes (d ++ rest) code fg ≡ ansi_codes rest (horner code d) fg
unfolding ansi_codes
digits_run [] rest code fg a h = refl
digits_run (c ∷ d) rest code fg a h =
    let other : (c == b';') ≡ false = ground arith in
    let next = code * 10 + (c - b'0') in
    let fits : next % 2 ^ 32 ≡ next = omega (arith, horner-le next d) in
    rw (other, ansi_codes, fits) (digits_run d rest next fg a.2 h)

number_run :
    (d rest : CString) (fg : ℕ)
    → AreDigits d
    → decimal d < 2 ^ 31
    → ansi_codes (d ++ rest) 0 fg ≡ ansi_codes rest (decimal d) fg
number_run d rest fg a h =
    let value : horner 0 d ≡ decimal d = horner-decimal 0 d ∙ omega arith in
    digits_run d rest 0 fg a (omega arith) ∙ ap (λ n. ansi_codes rest n fg) value

ansi_codes-separate :
    (d : CString) (ds : List CString) (fg : ℕ)
    → AreNumbers (d ∷ ds)
    → ansi_codes (separate d ds) 0 fg ≡ colored (d ∷ ds) fg
unfolding ansi_codes
ansi_codes-separate d [] fg a =
    ap (λ t. ansi_codes t 0 fg) (sym (append-nil d)) ∙ number_run d [] fg a.0 a.1
ansi_codes-separate d (e ∷ ds) fg a =
    number_run d (b';' ∷ separate e ds) fg a.0 a.1
    ∙ ansi_codes-separate e ds (color_of palette (decimal d) fg) a.2

digits-AreCodes : (d rest : CString) → AreDigits d → AreCodes rest → AreCodes (d ++ rest)
digits-AreCodes [] rest a r = r
digits-AreCodes (c ∷ d) rest a r = (ground arith, digits-AreCodes d rest a.2 r)

separate-AreCodes :
    (d : CString) (ds : List CString) → AreNumbers (d ∷ ds) → AreCodes (separate d ds)
separate-AreCodes d [] a = subst AreCodes (append-nil d) (digits-AreCodes d [] a.0 tt)
separate-AreCodes d (e ∷ ds) a =
    digits-AreCodes d (b';' ∷ separate e ds) a.0 (refl, separate-AreCodes e ds a.2)

module _ (font : ℕ → ℕ → ℕ) where
  -- In plain text the sequence ESC `[`, codes with semicolons between, `m`, where the codes take up to 15
  -- bytes and each stands for a number below 2^31, sets the foreground to the colours of the codes, one after
  -- the other, a code without a colour changing nothing, and draws nothing.
  pub feed_color :
      (s : Screen) (d : CString) (ds : List CString)
      → s.esc_state ≡ 0
      → AreNumbers (d ∷ ds)
      → length (separate d ds) ≤ 15
      → feed font (0x1B ∷ b'[' ∷ (separate d ds ++ b'm' ∷ [])) s
        ≡ record s { term_fg = colored (d ∷ ds) s.term_fg; esc_state = 0; esc_buf = separate d ds }
  feed_color s d ds text a h =
      let s2 = record s { esc_state = 2; esc_buf = [] } in
      let cs = separate d ds in
      ap (feed font (cs ++ b'm' ∷ [])) (start_step font s text)
      ∙ feed-append font cs (b'm' ∷ []) s2
      ∙ ap (feed font (b'm' ∷ []))
          (codes_lem font cs s2 refl (separate-AreCodes d ds a) (omega arith))
      ∙ end_step font (record s2 { esc_buf = cs }) refl
      ∙ ap (λ fg. record s { term_fg = fg; esc_state = 0; esc_buf = cs })
          (ansi_codes-separate d ds s.term_fg a)
