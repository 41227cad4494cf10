-- ===== src/Keyboard.antt =====
-- The keyboard, src/drivers/keyboard.c: scan codes, the modifier keys, and the size of the font.
-- The scan codes that the controller delivers from now on are a list; `none` is a wait for more.
pub mod Zoom
pub mod Shift
pub mod Keys
mod Tests
use lxtos.Prelude.{
  ℕ, zero, suc, ◌+◌, ◌-◌, ◌^◌, Bool, true, false, ◌&&◌, ◌||◌, Option, none, some, List, [], ◌∷◌,
  ◌++◌, ltb, leb, ◌==◌, if◌then◌else◌, get_or, bit_and, not,
}
use lxtos.Screen.{Screen, initial_screen, fb_fill}

abbrev pub sc_lshift : ℕ
sc_lshift = 0x2A

abbrev pub sc_rshift : ℕ
sc_rshift = 0x36

abbrev pub sc_lshift_r : ℕ
sc_lshift_r = 0xAA

abbrev pub sc_rshift_r : ℕ
sc_rshift_r = 0xB6

abbrev pub sc_lctrl : ℕ
sc_lctrl = 0x1D

abbrev pub sc_lctrl_r : ℕ
sc_lctrl_r = 0x9D

abbrev pub color_bg : ℕ
color_bg = 0x0D0D1A

-- The tables up to the last key that is not 0.
abbrev pub scancode_map : List ℕ
scancode_map =
    0 ∷ 27 ∷ b'1' ∷ b'2' ∷ b'3' ∷ b'4' ∷ b'5' ∷ b'6' ∷ b'7' ∷ b'8' ∷ b'9' ∷ b'0' ∷ b'-' ∷ b'=' ∷ 8
    ∷ 9 ∷ b'q' ∷ b'w' ∷ b'e' ∷ b'r' ∷ b't' ∷ b'y' ∷ b'u' ∷ b'i' ∷ b'o' ∷ b'p' ∷ b'[' ∷ b']' ∷ 10 ∷ 0
    ∷ b'a' ∷ b's' ∷ b'd' ∷ b'f' ∷ b'g' ∷ b'h' ∷ b'j' ∷ b'k' ∷ b'l' ∷ b';' ∷ 39 ∷ b'`' ∷ 0 ∷ 92
    ∷ b'z' ∷ b'x' ∷ b'c' ∷ b'v' ∷ b'b' ∷ b'n' ∷ b'm' ∷ b',' ∷ b'.' ∷ b'/' ∷ 0 ∷ b'*' ∷ 0 ∷ b' ' ∷ []

abbrev pub scancode_map_shift : List ℕ
scancode_map_shift =
    0 ∷ 27 ∷ b'!' ∷ b'@' ∷ b'#' ∷ b'$' ∷ b'%' ∷ b'^' ∷ b'&' ∷ b'*' ∷ b'(' ∷ b')' ∷ b'_' ∷ b'+' ∷ 8
    ∷ 9 ∷ b'Q' ∷ b'W' ∷ b'E' ∷ b'R' ∷ b'T' ∷ b'Y' ∷ b'U' ∷ b'I' ∷ b'O' ∷ b'P' ∷ b'{' ∷ b'}' ∷ 10 ∷ 0
    ∷ b'A' ∷ b'S' ∷ b'D' ∷ b'F' ∷ b'G' ∷ b'H' ∷ b'J' ∷ b'K' ∷ b'L' ∷ b':' ∷ 34 ∷ b'~' ∷ 0 ∷ b'|'
    ∷ b'Z' ∷ b'X' ∷ b'C' ∷ b'V' ∷ b'B' ∷ b'N' ∷ b'M' ∷ b'<' ∷ b'>' ∷ b'?' ∷ 0 ∷ b'*' ∷ 0 ∷ b' ' ∷ []

-- `shift_held`, `ctrl_held`, the screen, and the scan codes to come.
pub record Console : Type 0 where
  pub shift_held : Bool
  pub ctrl_held : Bool
  pub screen : Screen
  pub input : List ℕ

abbrev pub initial_console : List ℕ → Console
initial_console codes = record {
  shift_held = false;
  ctrl_held = false;
  screen = initial_screen;
  input = codes;
}

-- The clearing behind a change of the font's size.
unfoldable pub clear_screen : Screen → Screen
clear_screen s = record (fb_fill color_bg s) { cursor_x = 0; cursor_y = 0 }

unfoldable pub zoom_in : Screen → Screen
zoom_in s = clear_screen (if ltb s.scale 4 then record s { scale = s.scale + 1 } else s)

unfoldable pub zoom_out : Screen → Screen
zoom_out s = clear_screen (if ltb 1 s.scale then record s { scale = s.scale - 1 } else s)

abbrev pub key_char : Bool → ℕ → ℕ
key_char shift sc = if shift then get_or scancode_map_shift sc 0 else get_or scancode_map sc 0

-- What the character behind a scan code does, if any is there, and the character returned.
unfoldable pub char_step : ℕ → Console → Option ℕ × Console
char_step c k =
    if c == 0
    then (none, k)
    else if k.ctrl_held && (c == b'=' || c == b'+')
    then (none, record k { screen = zoom_in k.screen })
    else if k.ctrl_held && c == b'-'
    then (none, record k { screen = zoom_out k.screen })
    else (some c, k)

-- What one scan code does, with the character that it returns.
unfoldable pub key_step : ℕ → Console → Option ℕ × Console
key_step sc k =
    if sc == sc_lshift || sc == sc_rshift
    then (none, record k { shift_held = true })
    else if sc == sc_lshift_r || sc == sc_rshift_r
    then (none, record k { shift_held = false })
    else if sc == sc_lctrl
    then (none, record k { ctrl_held = true })
    else if sc == sc_lctrl_r
    then (none, record k { ctrl_held = false })
    else if leb 128 sc
    then (none, k)
    else char_step (key_char k.shift_held sc) k

-- The loop of `kb_getchar` over the scan codes to come.
unfoldable pub getchar_loop : List ℕ → Console → Option (ℕ × Console)
getchar_loop [] k = none
getchar_loop (sc ∷ rest) k = elim (key_step sc k).0 [
  | none ↦ getchar_loop rest (key_step sc k).1
  | some c ↦ some (c, record (key_step sc k).1 { input = rest })
]

unfoldable pub kb_getchar : Console → Option (ℕ × Console)
kb_getchar k = getchar_loop k.input k
