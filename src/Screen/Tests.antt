-- ===== src/Screen/Tests.antt =====
-- A small screen, and the theorems on the terminal there.
use lxtos.Prelude.{ℕ, ◌≡◌, refl, [], ◌∷◌, ◌++◌, arith}
use lxtos.Screen.{Screen, ansi_codes, fb_putchar_cursor, fb_putchar_cursor_utf8}
use lxtos.Screen.Cursor.{IsTerm, Kept, fb_putchar_cursor_utf8-Kept}
use lxtos.Screen.Decode.{feed, lead_bits, code_point, shown, feed_character}
use lxtos.Screen.Color.{separate, colored, feed_color}

abbrev screen : Screen
screen = record {
  memory = λ i. 7;
  width = 16;
  height = 32;
  pitch = 64;
  pixel_bytes = 4;
  cursor_x = 8;
  cursor_y = 16;
  scale = 1;
  utf8_cp = 0;
  utf8_left = 0;
  term_fg = 0xFFFFFF;
  term_bg = 0x0D0D1A;
  esc_state = 0;
  esc_buf = [];
}

abbrev block : ℕ → ℕ → ℕ
block c row = 255

screen-IsTerm : IsTerm screen
screen-IsTerm = record {
  frame = record { row_fits = omega arith; three = omega arith; four = omega arith };
  narrow = omega arith;
  low = omega arith;
  scale_pos = omega arith;
  scale_max = omega arith;
  column = omega arith;
  line = omega arith;
  escape_fits = omega arith;
  utf8_bound = omega arith;
}

-- A character at the last cell of the last line scrolls the screen.
fb_putchar_cursor_utf8-Kept_example : Kept screen (fb_putchar_cursor_utf8 block b'A' screen)
fb_putchar_cursor_utf8-Kept_example = fb_putchar_cursor_utf8-Kept block screen b'A' screen-IsTerm

-- The first two bytes of an euro sign are 0xE2 and 0x82.
feed_character_example :
    feed block (0xE2 ∷ 0x82 ∷ 0xAC ∷ []) screen
    ≡ fb_putchar_cursor block
        (shown (code_point (lead_bits 0xE2) (0x82 ∷ 0xAC ∷ [])))
        (record screen { utf8_cp = code_point (lead_bits 0xE2) (0x82 ∷ 0xAC ∷ []); utf8_left = 0 })
feed_character_example =
    feed_character block screen 0xE2 0x82 (0xAC ∷ []) refl (omega arith)
      (omega arith, omega arith, (omega arith, omega arith, tt)) refl

-- Red, and then the code 4, which has no colour.
feed_color_example :
    feed block (0x1B ∷ b'[' ∷ (separate (b'3' ∷ b'1' ∷ []) ((b'4' ∷ []) ∷ []) ++ b'm' ∷ [])) screen
    ≡ record screen {
      term_fg = colored ((b'3' ∷ b'1' ∷ []) ∷ (b'4' ∷ []) ∷ []) 0xFFFFFF;
      esc_state = 0;
      esc_buf = b'3' ∷ b'1' ∷ b';' ∷ b'4' ∷ [];
    }
feed_color_example =
    feed_color block screen (b'3' ∷ b'1' ∷ []) ((b'4' ∷ []) ∷ []) refl (omega arith) (omega arith)

green : ansi_codes (b'3' ∷ b'2' ∷ []) 0 0xFFFFFF ≡ 0x33FF33
unfolding ansi_codes
green = refl
