-- ===== src/Keyboard/Tests.antt =====
-- The keyboard at concrete scan codes, and its theorems there.
use lxtos.Prelude.{ℕ, ◌≡◌, ◌≢◌, refl, some, Bool, true, false, [], ◌∷◌, arith}
use lxtos.Screen.{Screen}
use lxtos.Keyboard.{Console, zoom_in, char_step, key_step, getchar_loop, kb_getchar, key_char}
use lxtos.Keyboard.Zoom.{IsRoomy, kb_getchar-IsRoomy}
use lxtos.Keyboard.Keys.{Typed, kb_getchar-Typed, kb_getchar-returns}

abbrev screen : Screen
screen = record {
  memory = λ i. 7;
  width = 64;
  height = 64;
  pitch = 256;
  pixel_bytes = 4;
  cursor_x = 8;
  cursor_y = 16;
  scale = 1;
  utf8_cp = 0;
  utf8_left = 0;
  term_fg = 0xFFFFFF;
  term_bg = 0x0D0D1A;
  esc_state = 0;
  esc_buf = [];
}

screen-IsRoomy : IsRoomy screen
screen-IsRoomy = record {
  term = record {
    frame = record { row_fits = omega arith; three = omega arith; four = omega arith };
    narrow = omega arith;
    low = omega arith;
    scale_pos = omega arith;
    scale_max = omega arith;
    column = omega arith;
    line = omega arith;
    escape_fits = omega arith;
    utf8_bound = omega arith;
  };
  wide = omega arith;
  tall = omega arith;
}

-- Ctrl held, `=` pressed, ctrl released, shift held, `a` pressed and released.
abbrev typing : Console
typing = record {
  shift_held = false;
  ctrl_held = false;
  screen = screen;
  input = 0x1D ∷ 0x0D ∷ 0x9D ∷ 0x2A ∷ 0x1E ∷ 0x9E ∷ [];
}

abbrev typed : Console
typed = record { shift_held = true; ctrl_held = false; screen = zoom_in screen; input = 0x9E ∷ [] }

typing_run : kb_getchar typing ≡ some (b'A', typed)
unfolding kb_getchar getchar_loop key_step char_step
typing_run = refl

kb_getchar-IsRoomy_example : IsRoomy (zoom_in screen)
kb_getchar-IsRoomy_example = kb_getchar-IsRoomy typing typed b'A' screen-IsRoomy typing_run

kb_getchar-Typed_example : Typed typing.input typing b'A' typed
kb_getchar-Typed_example = kb_getchar-Typed typing typed b'A' typing_run

z_key : (shift : Bool) → key_char shift 0x2C ≢ 0
z_key true = λ e. ground arith
z_key false = λ e. ground arith

kb_getchar-returns_example :
    (c : ℕ) × (k : Console) × (kb_getchar (record typing { input = 0x2A ∷ 0x2C ∷ [] })
      ≡ some (c, k))
kb_getchar-returns_example =
    kb_getchar-returns (0x2A ∷ []) [] 0x2C (record typing { input = 0x2A ∷ 0x2C ∷ [] }) refl
      (omega arith) z_key refl
