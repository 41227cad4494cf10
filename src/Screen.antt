-- ===== src/Screen.antt =====
-- The terminal on the frame buffer, src/drivers/framebuffer.c, and src/console/kprint.c.
-- The static variables are the fields of `Screen`; the frame buffer is a function from offsets to
-- bytes. The font of src/console/font.c is a parameter: `font c row` is a row of eight dots.
pub mod Cursor
pub mod Inside
pub mod Decode
pub mod Color
mod Tests
use lxtos.Prelude.{
  ℕ, zero, suc, ◌+◌, ◌-◌, ◌*◌, ◌/◌, ◌%◌, ◌^◌, bit_and, bit_or, Bool, true, false, ◌&&◌, ◌||◌, List,
  [], ◌∷◌, ◌++◌, ltb, leb, ◌==◌, if◌then◌else◌, length,
}
use lxtos.KString.{CString}
use lxtos.Digits.{kputhex_text, kputdec_text}

pub record Screen : Type 0 where
  pub memory : ℕ → ℕ
  pub width : ℕ
  pub height : ℕ
  pub pitch : ℕ
  pub pixel_bytes : ℕ
  pub cursor_x : ℕ
  pub cursor_y : ℕ
  pub scale : ℕ
  pub utf8_cp : ℕ
  pub utf8_left : ℕ
  pub term_fg : ℕ
  pub term_bg : ℕ
  pub esc_state : ℕ
  pub esc_buf : CString

-- The static variables at the start; no code reads `memory` before `fb_init` sets it.
abbrev pub initial_screen : Screen
initial_screen = record {
  memory = λ i. 0;
  width = 0;
  height = 0;
  pitch = 0;
  pixel_bytes = 0;
  cursor_x = 0;
  cursor_y = 0;
  scale = 1;
  utf8_cp = 0;
  utf8_left = 0;
  term_fg = 0xFFFFFF;
  term_bg = 0x0D0D1A;
  esc_state = 0;
  esc_buf = [];
}

-- `fb_init`
unfoldable pub fb_init : Screen → (ℕ → ℕ) → ℕ → ℕ → ℕ → ℕ → Screen
fb_init s memory width height pitch bpp = record s {
  memory = memory;
  width = width;
  height = height;
  pitch = pitch;
  pixel_bytes = bpp / 8;
}

abbrev pub poke : ℕ → ℕ → (ℕ → ℕ) → ℕ → ℕ
poke at v memory i = if i == at then v else memory i

abbrev pub color_byte : ℕ → ℕ → ℕ
color_byte color k = color / 2 ^ (8 * k) % 256

-- The bytes of one pixel from offset `at` on.
abbrev pub put_color : ℕ → ℕ → ℕ → (ℕ → ℕ) → ℕ → ℕ
put_color bytes at color m =
    let three =
      poke (at + 2) (color_byte color 2)
        (poke (at + 1) (color_byte color 1) (poke at (color_byte color 0) m)) in
    if bytes == 4 then poke (at + 3) 255 three else three

unfoldable pub fb_putpixel : ℕ → ℕ → ℕ → Screen → Screen
fb_putpixel x y color s = if leb s.width x || leb s.height y then s else record s {
  memory = put_color s.pixel_bytes (y * s.pitch + x * s.pixel_bytes % 2 ^ 32) color s.memory;
}

-- `for (i = from; ...; i++)`, with `rounds` rounds left
unfoldable pub for_up {ℓ} : {S : Type ℓ} → ℕ → ℕ → (ℕ → S → S) → S → S
for_up zero from body s = s
for_up (suc rounds) from body s = for_up rounds (from + 1) body (body from s)

unfoldable pub fb_fill : ℕ → Screen → Screen
fb_fill color s = for_up s.height 0 (λ y. for_up s.width 0 (λ x. fb_putpixel x y color)) s

abbrev pub font_width : ℕ
font_width = 8

abbrev pub font_height : ℕ
font_height = 16

-- One row of dots; `col` runs over its columns.
unfoldable pub put_row : ℕ → ℕ → ℕ → ℕ → ℕ → ℕ → Screen → Screen
put_row x y row bits fg bg s =
    for_up font_width 0
      (λ col.
        let color = if bits / 2 ^ (7 - col) % 2 == 0 then bg else fg in
        for_up s.scale 0 (λ sy. for_up s.scale 0 (λ sx.
          fb_putpixel ((x + col * s.scale + sx) % 2 ^ 32) ((y + row * s.scale + sy) % 2 ^ 32)
            color)))
      s

-- `dst[...] = src[...]` for one row of the screen
unfoldable pub copy_bytes : ℕ → ℕ → ℕ → (ℕ → ℕ) → ℕ → ℕ
copy_bytes count to from m = for_up count 0 (λ col m'. poke (to + col) (m' (from + col)) m') m

unfoldable pub fill_row : ℕ → ℕ → ℕ → ℕ → (ℕ → ℕ) → ℕ → ℕ
fill_row count bytes at color m = for_up count 0 (λ col. put_color bytes (at + col * bytes) color) m

abbrev pub cell_width : Screen → ℕ
cell_width s = font_width * s.scale % 2 ^ 32

abbrev pub cell_height : Screen → ℕ
cell_height s = font_height * s.scale % 2 ^ 32

unfoldable pub fb_scroll : ℕ → Screen → Screen
fb_scroll bg s =
    let ch = cell_height s in
    let rows = (s.height + 2 ^ 64 - ch) % 2 ^ 64 in
    let moved =
      for_up rows 0
        (λ row. copy_bytes (s.width * s.pixel_bytes) (row * s.pitch) (ch * s.pitch + row * s.pitch))
        s.memory in
    record s {
      memory =
          for_up (s.height - rows) rows (λ row. fill_row s.width s.pixel_bytes (row * s.pitch) bg)
            moved;
    }

unfoldable pub fb_newline : ℕ → Screen → Screen
fb_newline bg s =
    let ch = cell_height s in
    let y = (s.cursor_y + ch) % 2 ^ 32 in
    let s' = record s { cursor_x = 0; cursor_y = y } in
    if ltb s.height ((y + ch) % 2 ^ 32)
    then record (fb_scroll bg s') { cursor_y = (y + 2 ^ 32 - ch) % 2 ^ 32 }
    else s'

-- `case 0: ... case 37: ...` of `handle_ansi`: the new foreground
abbrev pub ansi_color : ℕ → ℕ → ℕ
ansi_color fg code =
    if code == 0
    then 0xFFFFFF
    else if code == 30
    then 0x000000
    else if code == 31
    then 0xFF3333
    else if code == 32
    then 0x33FF33
    else if code == 33
    then 0xFFFF33
    else if code == 34
    then 0x3399FF
    else if code == 35
    then 0xFF33FF
    else if code == 36
    then 0x33FFFF
    else if code == 37
    then 0xFFFFFF
    else fg

-- The loop of `handle_ansi`, up to the NUL at the end; the fifteen digits of a code can exceed an
-- `int`, and the model lets it wrap.
unfoldable pub ansi_codes : CString → ℕ → ℕ → ℕ
ansi_codes [] code fg = ansi_color fg code
ansi_codes (c ∷ s) code fg = elim (c == b';') [
  | true ↦ ansi_codes s 0 (ansi_color fg code)
  | false ↦ ansi_codes s ((code * 10 + (c - b'0')) % 2 ^ 32) fg
]

unfoldable pub handle_ansi : Screen → Screen
handle_ansi s = record s { term_fg = ansi_codes s.esc_buf 0 s.term_fg }

module _ (font : ℕ → ℕ → ℕ) where
  -- A byte from 128 on is drawn as `?`.
  unfoldable pub fb_putchar : ℕ → ℕ → ℕ → ℕ → ℕ → Screen → Screen
  fb_putchar x y c fg bg s =
      let glyph = if leb 128 c then b'?' else c in
      for_up font_height 0 (λ row. put_row x y row (font glyph row) fg bg) s

  unfoldable pub fb_putchar_cursor : ℕ → Screen → Screen
  fb_putchar_cursor c s =
      let cw = cell_width s in
      if c == b'\n'
      then fb_newline s.term_bg s
      else if c == 8
      then (if leb cw s.cursor_x
          then fb_putchar (s.cursor_x - cw) s.cursor_y b' ' s.term_fg s.term_bg
              (record s { cursor_x = s.cursor_x - cw })
          else s)
      else (let drawn = fb_putchar s.cursor_x s.cursor_y c s.term_fg s.term_bg s in
          let s' = record drawn { cursor_x = (s.cursor_x + cw) % 2 ^ 32 } in
          if ltb (s.width % 2 ^ 32) ((s'.cursor_x + cw) % 2 ^ 32)
          then fb_newline s.term_bg s'
          else s')

  -- A byte behind ESC, by `esc_state`.
  unfoldable pub escape : ℕ → Screen → Screen
  escape byte s =
      if s.esc_state == 1
      then (if byte == b'['
          then record s { esc_state = 2; esc_buf = [] }
          else record s { esc_state = 0 })
      else if leb b'0' byte && leb byte b'9' || byte == b';'
      then (if ltb (length s.esc_buf) 15 then record s { esc_buf = s.esc_buf ++ byte ∷ [] } else s)
      else if byte == b'm'
      then record (handle_ansi s) { esc_state = 0 }
      else record s { esc_state = 0 }

  -- A byte of text, by its range.
  unfoldable pub utf8_byte : ℕ → Screen → Screen
  utf8_byte b s =
      if ltb b 0x80
      then fb_putchar_cursor b (record s { utf8_left = 0 })
      else if leb 0xF0 b
      then record s { utf8_cp = bit_and b 0x07; utf8_left = 3 }
      else if leb 0xE0 b
      then record s { utf8_cp = bit_and b 0x0F; utf8_left = 2 }
      else if leb 0xC0 b
      then record s { utf8_cp = bit_and b 0x1F; utf8_left = 1 }
      else if s.utf8_left == 0
      then s
      else (let cp = bit_or (s.utf8_cp * 64 % 2 ^ 32) (bit_and b 0x3F) in
          let s' = record s { utf8_cp = cp; utf8_left = s.utf8_left - 1 } in
          if s.utf8_left == 1 then fb_putchar_cursor (if ltb cp 128 then cp else b'?') s' else s')

  unfoldable pub fb_putchar_cursor_utf8 : ℕ → Screen → Screen
  fb_putchar_cursor_utf8 byte s =
      if s.esc_state == 1 || s.esc_state == 2
      then escape byte s
      else if byte == 0x1B
      then record s { esc_state = 1 }
      else utf8_byte byte s

  -- `while (*s) f(*s++, ...)`
  unfoldable pub each_byte : (ℕ → Screen → Screen) → CString → Screen → Screen
  each_byte put [] s = s
  each_byte put (c ∷ text) s = elim (c == 0) [ true ↦ s | false ↦ each_byte put text (put c s) ]

  unfoldable pub kputs : CString → Screen → Screen
  kputs text s = each_byte fb_putchar_cursor text s

  unfoldable pub kputhex : ℕ → Screen → Screen
  kputhex n s = kputs (kputhex_text n) s

  unfoldable pub kputdec : ℕ → Screen → Screen
  kputdec n s = kputs (kputdec_text n) s
