-- ===== src/Shell.antt =====
-- The shell, userspace/src/bin/shell/main.c: the words of a line, what a line asks for, and the path and
-- arguments that a command is run with; with `u_resolve_path` of userspace/include/ulib/path.h.
-- The words are lists of their own: the NULs that `parse` writes into the line are their ends.
pub mod Words
mod Tests
use lxtos.Prelude.{
  ℕ, zero, suc, ◌+◌, ◌-◌, Bool, true, false, ◌&&◌, ◌||◌, Option, none, some, List, [], ◌∷◌, ◌++◌,
  ltb, ◌==◌, if◌then◌else◌, length, take, get_elem?,
}
use lxtos.Prelude.Int.{pos, negsuc}
use lxtos.KString.{CString, first, after}
use lxtos.Libc.Strings.{strlen, strcmp, u_strcpy}

abbrev pub space : ℕ
space = b' '

abbrev pub quote : ℕ
quote = b'\''

-- `MAX_PATH`, and the entries of `argv` in `main`
abbrev pub max_path : ℕ
max_path = 256

abbrev pub max_args : ℕ
max_args = 16

unfoldable pub skip_spaces : CString → CString
skip_spaces [] = []
skip_spaces (c ∷ s) = let rest = skip_spaces s in if c == space then rest else c ∷ s

-- What stands before the first `stop`, and the string from there on.
unfoldable pub until : ℕ → CString → CString × CString
until stop [] = ([], [])
until stop (c ∷ s) =
    let (word, rest) = until stop s in if c == stop then ([], c ∷ s) else (c ∷ word, rest)

-- The next word: what follows a quote up to the next one, or what stands before the next space.
unfoldable pub word_of : ℕ → CString → CString × CString
word_of c s = elim (c == quote) [ true ↦ until quote s | false ↦ until space (c ∷ s) ]

-- The loop of `parse`, with room for so many words more.
unfoldable pub parse_from : ℕ → CString → List CString
parse_from zero s = []
parse_from (suc room) s = elim (skip_spaces s) [
  | [] ↦ []
  | c ∷ rest ↦ (word_of c rest).0 ∷ parse_from room (after (word_of c rest).1)
]

unfoldable pub parse : CString → ℕ → List CString
parse line max = parse_from max (take (strlen line) line)

-- "/bin/"
abbrev pub bin_path : CString
bin_path = b'/' ∷ b'b' ∷ b'i' ∷ b'n' ∷ b'/' ∷ []

-- The path in `try_exec`; a name that does not fit the array is a fault where `strcpy` copies it.
unfoldable pub exec_path : CString → Option CString
exec_path name =
    if first name == b'/' || first name == b'.' && first (after name) == b'/'
    then (if ltb (length name) max_path then some name else none)
    else some (bin_path ++ take (max_path - 1 - length bin_path) name)

-- `child_argv`: the path and at most 14 arguments
unfoldable pub child_args : CString → List CString → List CString
child_args path args = path ∷ take 14 args

-- `u_resolve_path`, given what `sys_getcwd` has written; the slash may overrun the buffer, a fault.
unfoldable pub join : CString → CString → ℕ → Option CString
join dir input max =
    if ltb (length dir) max then some (dir ++ take (max - 1 - length dir) input) else none

unfoldable pub with_slash : CString → CString
with_slash dir = elim (get_elem? dir (length dir - 1)) [
  | none ↦ dir
  | some c ↦
      if ltb 1 (length dir) && (if c == b'/' then false else true) then dir ++ b'/' ∷ [] else dir
]

unfoldable pub u_resolve_path : CString → CString → ℕ → Option CString
u_resolve_path cwd input max =
    if first input == b'/' then some (u_strcpy input max) else join (with_slash cwd) input max

-- What a line asks the shell to do.
pub data Command : Type 0 where
  nothing exit clear help pwd : Command
  cd : Option CString → Command
  run : CString → List CString → Command

-- `!strcmp(argv[0], word)`
unfoldable pub is_word : CString → CString → Bool
is_word s word = elim (strcmp s word) [ pos n ↦ n == 0 | negsuc n ↦ false ]

unfoldable pub first_arg : List CString → Option CString
first_arg [] = none
first_arg (a ∷ args) = some a

-- The chain of tests in `main`.
unfoldable pub command_of : List CString → Command
command_of [] = nothing
command_of (name ∷ args) =
    if is_word name (b'e' ∷ b'x' ∷ b'i' ∷ b't' ∷ [])
    then exit
    else if is_word name (b'c' ∷ b'l' ∷ b'e' ∷ b'a' ∷ b'r' ∷ [])
    then clear
    else if is_word name (b'h' ∷ b'e' ∷ b'l' ∷ b'p' ∷ [])
    then help
    else if is_word name (b'p' ∷ b'w' ∷ b'd' ∷ [])
    then pwd
    else if is_word name (b'c' ∷ b'd' ∷ [])
    then cd (first_arg args)
    else run name args

-- One line of input.
unfoldable pub line_command : CString → Command
line_command line = command_of (parse line max_args)
