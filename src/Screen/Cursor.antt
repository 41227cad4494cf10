-- ===== src/Screen/Cursor.antt =====
-- Every byte that the terminal takes keeps the cursor and the escape buffer within bounds.
use lxtos.Prelude.{
  ℕ, ◌+◌, ◌-◌, ◌*◌, ◌%◌, ◌^◌, ◌≤◌, ◌<◌, ◌≡◌, refl, ap₂, subst, sym, ◌∙◌, bit_and, ◌&&◌, ◌||◌, [],
  ◌∷◌, ◌++◌, arith, ltb, leb, ◌==◌, if◌then◌else◌, length, length-append, Bool-cases, inl, inr,
}
use lxtos.KString.{CString}
use lxtos.Screen.{
  Screen, cell_width, cell_height, fb_newline, handle_ansi, fb_putchar, fb_putchar_cursor, escape,
  utf8_byte, fb_putchar_cursor_utf8, each_byte, kputs,
}
use lxtos.Screen.Inside.{frame_size, IsFrame, SameFrom, fb_putchar-Drawn, fb_scroll-Drawn}

-- A terminal with a cursor at a cell that the screen shows whole, and with its buffers in bounds.
pub record IsTerm (s : Screen) : Type 0 where
  pub frame : IsFrame s
  pub narrow : s.width < 2 ^ 31
  pub low : s.height < 2 ^ 31
  pub scale_pos : 0 < s.scale
  pub scale_max : s.scale ≤ 4
  pub column : s.cursor_x + 8 * s.scale ≤ s.width
  pub line : s.cursor_y + 16 * s.scale ≤ s.height
  pub escape_fits : length s.esc_buf ≤ 15
  pub utf8_bound : s.utf8_left ≤ 3

-- The same frame buffer, with other bytes at most inside it.
pub record SameFrame (s t : Screen) : Type 0 where
  pub width : t.width ≡ s.width
  pub height : t.height ≡ s.height
  pub pitch : t.pitch ≡ s.pitch
  pub pixel_bytes : t.pixel_bytes ≡ s.pixel_bytes
  pub scale : t.scale ≡ s.scale
  pub outside : SameFrom (frame_size s) s.memory t.memory

pub Kept : Screen → Screen → Type 0
Kept s t = IsTerm t × SameFrame s t

abbrev at_start : Screen → Screen
at_start s = record s { cursor_x = 0 }

-- A screen with the same frame buffer but for bytes inside it, and a cursor within bounds.
Kept-with :
    (s : Screen) (m : ℕ → ℕ) (x y cp left fg state : ℕ) (buf : CString)
    → IsTerm (at_start s)
    → SameFrom (frame_size s) s.memory m
    → x + 8 * s.scale ≤ s.width
    → y + 16 * s.scale ≤ s.height
    → length buf ≤ 15
    → left ≤ 3
    → Kept s (record s {
      memory = m;
      cursor_x = x;
      cursor_y = y;
      utf8_cp = cp;
      utf8_left = left;
      term_fg = fg;
      esc_state = state;
      esc_buf = buf;
    })
unfolding Kept
Kept-with s m x y cp left fg state buf t same col row esc utf = (
  record {
    frame = record { row_fits = t.frame.row_fits; three = t.frame.three; four = t.frame.four };
    narrow = t.narrow;
    low = t.low;
    scale_pos = t.scale_pos;
    scale_max = t.scale_max;
    column = col;
    line = row;
    escape_fits = esc;
    utf8_bound = utf;
  },
  record {
    width = refl;
    height = refl;
    pitch = refl;
    pixel_bytes = refl;
    scale = refl;
    outside = same;
  },
)

IsTerm-at_start : {s : Screen} → IsTerm s → IsTerm (at_start s)
IsTerm-at_start {s} t = record {
  frame = record { row_fits = t.frame.row_fits; three = t.frame.three; four = t.frame.four };
  narrow = t.narrow;
  low = t.low;
  scale_pos = t.scale_pos;
  scale_max = t.scale_max;
  column = omega (arith, t.column);
  line = t.line;
  escape_fits = t.escape_fits;
  utf8_bound = t.utf8_bound;
}

fb_newline-Kept : (s : Screen) (bg : ℕ) → IsTerm (at_start s) → Kept s (fb_newline bg s)
unfolding fb_newline
fb_newline-Kept s bg t =
    let ch : cell_height s ≡ 16 * s.scale = omega (arith, t.scale_max) in
    let y : (s.cursor_y + cell_height s) % 2 ^ 32 ≡ s.cursor_y + 16 * s.scale =
      omega (arith, ch, t.line, t.low) in
    elim (Bool-cases (ltb s.height ((s.cursor_y + 16 * s.scale + cell_height s) % 2 ^ 32))) [
      | inl q ↦
          let s' = record s { cursor_x = 0; cursor_y = s.cursor_y + 16 * s.scale } in
          let frame : IsFrame s' = record {
            row_fits = t.frame.row_fits;
            three = t.frame.three;
            four = t.frame.four;
          } in
          let (m, e, same) = fb_scroll-Drawn s' bg frame t.low (omega (arith, ch, t.line)) in
          let back : (s.cursor_y + 16 * s.scale + 2 ^ 32 - cell_height s) % 2 ^ 32 ≡ s.cursor_y =
            omega (arith, ch, t.line, t.low) in
          rw (y, q, e, back)
            (Kept-with s m 0 s.cursor_y s.utf8_cp s.utf8_left s.term_fg s.esc_state s.esc_buf t same
              t.column t.line t.escape_fits t.utf8_bound)
      | inr q ↦
          rw (y, q)
            (Kept-with s s.memory 0 (s.cursor_y + 16 * s.scale) s.utf8_cp s.utf8_left s.term_fg
              s.esc_state s.esc_buf t (λ i h. refl) t.column (ground (arith, ch, t.line, t.low))
              t.escape_fits t.utf8_bound)
    ]

Kept-trans : (s t u : Screen) → Kept s t → Kept t u → Kept s u
unfolding Kept
Kept-trans s t u (p, a) (q, b) = (
  q,
  record {
    width = b.width ∙ a.width;
    height = b.height ∙ a.height;
    pitch = b.pitch ∙ a.pitch;
    pixel_bytes = b.pixel_bytes ∙ a.pixel_bytes;
    scale = b.scale ∙ a.scale;
    outside = λ i h.
        b.outside i (subst (λ k. k ≤ i) (ap₂ (λ x y. x * y) (sym a.height) (sym a.pitch)) h)
        ∙ a.outside i h;
  },
)

Kept-IsTerm : (s t : Screen) → Kept s t → IsTerm t
unfolding Kept
Kept-IsTerm s t k = k.0

fb_newline-at_start : (s : Screen) (bg : ℕ) → fb_newline bg s ≡ fb_newline bg (at_start s)
unfolding fb_newline
fb_newline-at_start s bg = refl

same-Kept : (s : Screen) → IsTerm s → Kept s s
same-Kept s t =
    Kept-with s s.memory s.cursor_x s.cursor_y s.utf8_cp s.utf8_left s.term_fg s.esc_state s.esc_buf
      (IsTerm-at_start t) (λ i h. refl) t.column t.line t.escape_fits t.utf8_bound

module _ (font : ℕ → ℕ → ℕ) where
  -- The glyph at the cursor, and the cursor moved on, to the next line at the end of this one.
  advance-Kept :
      (s : Screen) (c : ℕ)
      → IsTerm s
      → Kept s (
          let drawn = fb_putchar font s.cursor_x s.cursor_y c s.term_fg s.term_bg s in
          let s' = record drawn { cursor_x = (s.cursor_x + cell_width s) % 2 ^ 32 } in
          if ltb (s.width % 2 ^ 32) ((s'.cursor_x + cell_width s) % 2 ^ 32)
          then fb_newline s.term_bg s'
          else s')
  advance-Kept s c t =
      let (m, e, same) =
        fb_putchar-Drawn font s s.cursor_x s.cursor_y c s.term_fg s.term_bg t.frame in
      let cw : cell_width s ≡ 8 * s.scale = omega (arith, t.scale_max) in
      let x : (s.cursor_x + 8 * s.scale) % 2 ^ 32 ≡ s.cursor_x + 8 * s.scale =
        omega (arith, t.column, t.narrow) in
      let s' = record s { memory = m; cursor_x = s.cursor_x + 8 * s.scale } in
      rw (e, cw, x)
        (elim (Bool-cases
          (ltb (s.width % 2 ^ 32) ((s.cursor_x + 8 * s.scale + 8 * s.scale) % 2 ^ 32))) [
            | inl q ↦
                let start =
                  Kept-with s m 0 s.cursor_y s.utf8_cp s.utf8_left s.term_fg s.esc_state s.esc_buf
                    (IsTerm-at_start t) same (omega (arith, t.column)) t.line t.escape_fits
                    t.utf8_bound in
                rw (q, fb_newline-at_start s' s.term_bg)
                  (Kept-trans s (at_start s') _ start
                    (fb_newline-Kept (at_start s') s.term_bg (Kept-IsTerm s (at_start s') start)))
            | inr q ↦ rw q (
                Kept-with s m (s.cursor_x + 8 * s.scale) s.cursor_y s.utf8_cp s.utf8_left s.term_fg
                  s.esc_state s.esc_buf (IsTerm-at_start t) same
                  (ground (arith, t.column, t.narrow, t.scale_max)) t.line t.escape_fits
                  t.utf8_bound)
          ])

  fb_putchar_cursor-Kept : (s : Screen) (c : ℕ) → IsTerm s → Kept s (fb_putchar_cursor font c s)
  unfolding fb_putchar_cursor
  fb_putchar_cursor-Kept s c t = elim (Bool-cases (c == b'\n')) [
    | inl q ↦ rw q (fb_newline-Kept s s.term_bg (IsTerm-at_start t))
    | inr q ↦ elim (Bool-cases (c == 8)) [
      | inl r ↦ elim (Bool-cases (leb (cell_width s) s.cursor_x)) [
        | inl z ↦
            let s' = record s { cursor_x = s.cursor_x - cell_width s } in
            let frame : IsFrame s' = record {
              row_fits = t.frame.row_fits;
              three = t.frame.three;
              four = t.frame.four;
            } in
            let (m, e, same) =
              fb_putchar-Drawn font s' s'.cursor_x s.cursor_y b' ' s.term_fg s.term_bg frame in
            rw (q, r, z, e)
              (Kept-with s m (s.cursor_x - cell_width s) s.cursor_y s.utf8_cp s.utf8_left s.term_fg
                s.esc_state s.esc_buf (IsTerm-at_start t) same (omega (arith, t.column)) t.line
                t.escape_fits t.utf8_bound)
        | inr z ↦ rw (q, r, z) (same-Kept s t)
      ]
      | inr r ↦ rw (q, r) (advance-Kept s c t)
    ]
  ]

  -- A change of the decoder's fields alone, in bounds.
  decoder-Kept :
      (s : Screen) (cp left fg state : ℕ) (buf : CString)
      → IsTerm s
      → length buf ≤ 15
      → left ≤ 3
      → Kept s (record s {
        utf8_cp = cp;
        utf8_left = left;
        term_fg = fg;
        esc_state = state;
        esc_buf = buf;
      })
  decoder-Kept s cp left fg state buf t h k =
      Kept-with s s.memory s.cursor_x s.cursor_y cp left fg state buf (IsTerm-at_start t)
        (λ i h. refl) t.column t.line h k

  escape-Kept : (s : Screen) (byte : ℕ) → IsTerm s → Kept s (escape font byte s)
  unfolding escape handle_ansi
  escape-Kept s byte t = elim (Bool-cases (s.esc_state == 1)) [
    | inl q ↦ elim (Bool-cases (byte == b'[')) [
      | inl r ↦
          simp (q, r)
            (decoder-Kept s s.utf8_cp s.utf8_left s.term_fg 2 [] t (omega arith) t.utf8_bound)
      | inr r ↦
          simp (q, r)
            (decoder-Kept s s.utf8_cp s.utf8_left s.term_fg 0 s.esc_buf t t.escape_fits
              t.utf8_bound)
    ]
    | inr q ↦ elim (Bool-cases (leb b'0' byte && leb byte b'9' || byte == b';')) [
      | inl r ↦ elim (Bool-cases (ltb (length s.esc_buf) 15)) [
        | inl z ↦
            rw (q, r, z)
              (decoder-Kept s s.utf8_cp s.utf8_left s.term_fg s.esc_state (s.esc_buf ++ byte ∷ []) t
                (ground (arith, length-append {0} s.esc_buf (byte ∷ []))) t.utf8_bound)
        | inr z ↦ rw (q, r, z) (same-Kept s t)
      ]
      | inr r ↦ elim (Bool-cases (byte == b'm')) [
        | inl z ↦
            rw (q, r, z)
              (decoder-Kept s s.utf8_cp s.utf8_left _ 0 s.esc_buf t t.escape_fits t.utf8_bound)
        | inr z ↦
            rw (q, r, z)
              (decoder-Kept s s.utf8_cp s.utf8_left s.term_fg 0 s.esc_buf t t.escape_fits
                t.utf8_bound)
      ]
    ]
  ]

  -- A character drawn after a change of the decoder's fields.
  decoded-Kept :
      (s : Screen) (cp left c : ℕ)
      → IsTerm s
      → left ≤ 3
      → Kept s (fb_putchar_cursor font c (record s { utf8_cp = cp; utf8_left = left }))
  decoded-Kept s cp left c t h =
      let s' = record s { utf8_cp = cp; utf8_left = left } in
      let k = decoder-Kept s cp left s.term_fg s.esc_state s.esc_buf t t.escape_fits h in
      Kept-trans s s' _ k (fb_putchar_cursor-Kept s' c (Kept-IsTerm s s' k))

  lead-Kept :
      (s : Screen) (cp left : ℕ)
      → IsTerm s
      → left ≤ 3
      → Kept s (record s { utf8_cp = cp; utf8_left = left })
  lead-Kept s cp left t h = decoder-Kept s cp left s.term_fg s.esc_state s.esc_buf t t.escape_fits h

  utf8_byte-Kept : (s : Screen) (b : ℕ) → IsTerm s → Kept s (utf8_byte font b s)
  unfolding utf8_byte
  utf8_byte-Kept s b t = elim (Bool-cases (ltb b 0x80)) [
    | inl q ↦ rw q (decoded-Kept s s.utf8_cp 0 b t (omega arith))
    | inr q ↦ elim (Bool-cases (leb 0xF0 b)) [
      | inl r ↦ rw (q, r) (lead-Kept s (bit_and b 0x07) 3 t (omega arith))
      | inr r ↦ elim (Bool-cases (leb 0xE0 b)) [
        | inl z ↦ rw (q, r, z) (lead-Kept s (bit_and b 0x0F) 2 t (omega arith))
        | inr z ↦ elim (Bool-cases (leb 0xC0 b)) [
          | inl w ↦ rw (q, r, z, w) (lead-Kept s (bit_and b 0x1F) 1 t (omega arith))
          | inr w ↦ elim (Bool-cases (s.utf8_left == 0)) [
            | inl v ↦ rw (q, r, z, w, v) (same-Kept s t)
            | inr v ↦ elim (Bool-cases (s.utf8_left == 1)) [
              | inl u ↦
                  rw (q, r, z, w, v, u)
                    (decoded-Kept s _ (s.utf8_left - 1) _ t (omega (arith, t.utf8_bound)))
              | inr u ↦
                  rw (q, r, z, w, v, u)
                    (lead-Kept s _ (s.utf8_left - 1) t (omega (arith, t.utf8_bound)))
            ]
          ]
        ]
      ]
    ]
  ]

  -- Whatever byte comes next, text or escape sequence, valid or not, the terminal stays well formed:
  -- the cursor at a cell that the screen shows whole, at most 15 bytes in the escape buffer; and no
  -- byte outside the frame buffer changes.
  pub fb_putchar_cursor_utf8-Kept :
      (s : Screen) (byte : ℕ) → IsTerm s → Kept s (fb_putchar_cursor_utf8 font byte s)
  unfolding fb_putchar_cursor_utf8
  fb_putchar_cursor_utf8-Kept s byte t = elim (Bool-cases (s.esc_state == 1 || s.esc_state == 2)) [
    | inl q ↦ rw q (escape-Kept s byte t)
    | inr q ↦ elim (Bool-cases (byte == 0x1B)) [
      | inl r ↦
          simp (q, r)
            (decoder-Kept s s.utf8_cp s.utf8_left s.term_fg 1 s.esc_buf t t.escape_fits
              t.utf8_bound)
      | inr r ↦ rw (q, r) (utf8_byte-Kept s byte t)
    ]
  ]

  -- A text keeps what each of its bytes keeps.
  each_byte-Kept :
      (put : ℕ → Screen → Screen)
      → ((s : Screen) (c : ℕ) → IsTerm s → Kept s (put c s))
      → (text : CString) (s : Screen) → IsTerm s
      → Kept s (each_byte font put text s)
  unfolding each_byte
  each_byte-Kept put keeps [] s t = same-Kept s t
  each_byte-Kept put keeps (c ∷ text) s t = elim (Bool-cases (c == 0)) [
    | inl q ↦ rw (q, each_byte) (same-Kept s t)
    | inr q ↦
        rw (q, each_byte)
          (Kept-trans s (put c s) _ (keeps s c t)
            (each_byte-Kept put keeps text (put c s) (Kept-IsTerm s (put c s) (keeps s c t))))
  ]

  -- So does `kputs` of any text.
  pub kputs-Kept : (s : Screen) (text : CString) → IsTerm s → Kept s (kputs font text s)
  unfolding kputs
  kputs-Kept s text t = each_byte-Kept (fb_putchar_cursor font) fb_putchar_cursor-Kept text s t
