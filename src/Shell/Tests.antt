-- ===== src/Shell/Tests.antt =====
-- Lines of the shell.
use lxtos.Prelude.{◌≡◌, refl, some, [], ◌∷◌, take, arith}
use lxtos.Prelude.Int.{◌-ℤ◌}
use lxtos.Libc.Strings.{strlen, strlen_from, strcmp}
use lxtos.Shell.{
  skip_spaces, until, word_of, parse_from, parse, exec_path, join, with_slash, u_resolve_path, pwd,
  is_word, command_of, line_command,
}
use lxtos.Shell.Words.{quoted, plain, spell, words_of, parse-spell}

-- `  'a b' c ` is two words.
parse-spell_example :
    parse (spell (quoted 2 (b'a' ∷ b' ' ∷ b'b' ∷ []) ∷ plain 1 b'c' [] ∷ []) 1) 16
    ≡ take 16 (words_of (quoted 2 (b'a' ∷ b' ' ∷ b'b' ∷ []) ∷ plain 1 b'c' [] ∷ []))
parse-spell_example =
    parse-spell (quoted 2 (b'a' ∷ b' ' ∷ b'b' ∷ []) ∷ plain 1 b'c' [] ∷ []) 1 16 (omega arith)
      (omega arith)

line_run : line_command (b' ' ∷ b'p' ∷ b'w' ∷ b'd' ∷ []) ≡ pwd
unfolding line_command parse strlen strlen_from parse_from skip_spaces word_of until command_of
    is_word strcmp ◌-ℤ◌
line_run = refl

exec_run : exec_path (b'l' ∷ b's' ∷ []) ≡ some (b'/' ∷ b'b' ∷ b'i' ∷ b'n' ∷ b'/' ∷ b'l' ∷ b's' ∷ [])
unfolding exec_path
exec_run = refl

resolve_run :
    u_resolve_path (b'/' ∷ b't' ∷ []) (b'a' ∷ []) 256 ≡ some (b'/' ∷ b't' ∷ b'/' ∷ b'a' ∷ [])
unfolding u_resolve_path with_slash join
resolve_run = refl
