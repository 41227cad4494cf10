-- ===== src/Console.antt =====
-- The console as a file, src/drivers/console.c.
pub mod Line
mod Tests
use lxtos.Prelude.{
  ℕ, zero, suc, Bool, true, false, ◌&&◌, Option, none, some, List, [], ◌∷◌, ltb, leb, ◌==◌,
  if◌then◌else◌, length, take,
}
use lxtos.Prelude.Int.{ℤ, pos, negsuc}
use lxtos.KString.{CString}
use lxtos.Screen.{Screen, fb_putchar_cursor_utf8}
use lxtos.Keyboard.{Console, clear_screen, kb_getchar}
use lxtos.Fs.{
  Ptr, Node, State, M, fault, ◌>>=◌, ◌>>◌, pure, load, store, signed64, console_ops, vfs_flag_file,
}

-- The loop of `console_read` over the buffer.
unfoldable pub read_keys : ℕ → Console → Option (CString × Console)
read_keys zero k = some ([], k)
read_keys (suc size) k = elim (kb_getchar k) [
  | none ↦ none
  | some (c, k') ↦ elim (c == b'\n') [
    | true ↦ some (c ∷ [], k')
    | false ↦ elim (read_keys size k') [ none ↦ none | some (line, k2) ↦ some (c ∷ line, k2) ]
  ]
]

unfoldable pub console_read : Ptr → ℕ → ℕ → M (ℤ × List ℕ)
console_read p offset size s = elim (read_keys size s.console) [
  | none ↦ none
  | some (line, k) ↦ some ((signed64 (length line), line), record s { console = k })
]

-- `in[0] == '\x1b' && ...`
unfoldable pub is_clear : List ℕ → Bool
is_clear (a ∷ b ∷ c ∷ d ∷ src) = a == 0x1B && b == b'[' && c == b'2' && d == b'J'
is_clear src = false

-- A change of the screen.
abbrev pub on_screen : (Screen → Screen) → State → State
on_screen f s = record s { console = record s.console { screen = f s.console.screen } }

-- The file's own call.
module _ (font : ℕ → ℕ → ℕ) where
  unfoldable pub write_bytes : List ℕ → Screen → Screen
  write_bytes [] s = s
  write_bytes (c ∷ src) s = write_bytes src (fb_putchar_cursor_utf8 font c s)

  unfoldable pub console_write : Ptr → List ℕ → ℕ → ℕ → M ℤ
  console_write p src offset size s =
      if leb 4 size && is_clear src
      then some (signed64 size, on_screen clear_screen s)
      else if ltb (length src) size
      then none
      else some (signed64 size, on_screen (write_bytes (take size src)) s)

-- `console_init_node`
unfoldable pub console_init_node : Ptr → M (Unit {0})
console_init_node p = do
  n ← load p
  store p (record n { flags = vfs_flag_file; ops = some console_ops })
