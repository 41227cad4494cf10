-- ===== src/Syscall.antt =====
-- The calls of the system, src/kernel/syscall.c.
-- A call is a value with the arguments that its case of `syscall_dispatch` takes from the registers; a
-- pointer to a string is the string. A reply is the result as a signed number, with the bytes that the
-- case writes to the program's buffer; a call that does not come back has none.
-- The font, the tables of operations, `ext2_mount` and `elf_exec_argv` are parameters.
pub mod Paths
pub mod Descriptors
pub mod Mount
pub mod Dispatch
pub mod Files
pub mod Keeps
pub mod Table
pub mod Invariant
mod Tests
use lxtos.Prelude.{
  ℕ, zero, suc, ◌+◌, ◌-◌, ◌%◌, ◌^◌, Bool, true, false, not, ◌&&◌, ◌||◌, Option, none, some, List,
  [], ◌∷◌, ◌++◌, ltb, leb, ◌==◌, if◌then◌else◌, length, take, drop, set, get_elem?,
}
use lxtos.Prelude.Int.{ℤ, pos, negsuc, ◌-ℤ◌}
use lxtos.KString.{CString, first, kstrlen, kstrcpy}
use lxtos.Screen.{Screen, fb_putchar_cursor, fb_putchar_cursor_utf8, each_byte}
use lxtos.Keyboard.{Console, clear_screen, kb_getchar}
use lxtos.Fs.{
  Ptr, OpsId, ProcFn, mem_total, mem_free, heap_total, heap_free_size, cpu_vendor, cpu_model, Node,
  State, M, lift, load, store, vfs_flag_dir, vfs_flag_mountpt, has_flag, same_name, signed64,
  minus_one,
}
use lxtos.Fs.Flags.{clear_mountpt}
use lxtos.Tmpfs.{tmpfs_create}
use lxtos.Procfs.{procfs_create, procfs_register}
use lxtos.Console.{on_screen}
use lxtos.Fd.{FdEntry, FdTable, alloc_fd, get_fd, free_fd}
use lxtos.Vfs.{
  VfsOps, root_path, last_slash, op_of, vfs_resolve, vfs_mount, vnode_read, vnode_write,
  vnode_readdir, vfs_mkdir, vfs_mkfile, vfs_unlink,
}

-- The file systems' state, `fd_table` and `kernel_cwd`.
pub record Kernel : Type 0 where
  pub fs : State
  pub fds : FdTable
  pub cwd : CString

abbrev pub K {ℓ} : Type ℓ → Type ℓ
K A = Kernel → Option (A × Kernel)

abbrev pub pure {ℓ} : {A : Type ℓ} → A → K A
pure a k = some (a, k)

infixl 5 ◌>>=◌ ◌>>◌
abbrev pub ◌>>=◌ {ℓ κ} : {A : Type ℓ} {B : Type κ} → K A → (A → K B) → K B
◌>>=◌ m f k = elim (m k) [ none ↦ none | some (a, k') ↦ f a k' ]

abbrev pub ◌>>◌ {ℓ κ} : {A : Type κ} {B : Type ℓ} → K A → K B → K B
m >> l = m >>= λ _. l

-- A run of a file system.
abbrev pub on_fs {ℓ} : {A : Type ℓ} → M A → K A
on_fs m k = elim (m k.fs) [ none ↦ none | some (a, s) ↦ some (a, record k { fs = s }) ]

-- The result and what is written to the program's buffer.
abbrev pub Reply : Type 0
Reply = ℤ × CString

abbrev pub done : Reply
done = (pos 0, [])

abbrev pub failed : Reply
failed = (minus_one, [])

abbrev pub draw : (Screen → Screen) → K Reply
draw f k = some (done, record k { fs = on_screen f k.fs })

-- A change of the console's screen alone.
abbrev pub show : (Screen → Screen) → Console → Console
show f c = record c { screen = f c.screen }

module _ (font : ℕ → ℕ → ℕ) where
  unfoldable pub sys_putchar : ℕ → K Reply
  sys_putchar c = draw (fb_putchar_cursor font (c % 256))

  unfoldable pub sys_puts : CString → K Reply
  sys_puts s = draw (each_byte font (fb_putchar_cursor_utf8 font) s)

  -- The loop of `SYS_GETS`, with `line` in the buffer so far; each round takes a scan code at least.
  unfoldable pub gets_loop : ℕ → ℕ → CString → Console → Option (CString × Console)
  gets_loop zero limit line c = if leb limit (length line) then some (line, c) else none
  gets_loop (suc rounds) limit line c = elim (leb limit (length line)) [
    | true ↦ some (line, c)
    | false ↦ elim (kb_getchar c) [
      | none ↦ none
      | some (b, c') ↦ elim (b == b'\n') [
        | true ↦ some (line, show (fb_putchar_cursor font b'\n') c')
        | false ↦ elim (b == 8) [
          | false ↦ gets_loop rounds limit (line ++ b ∷ []) (show (fb_putchar_cursor font b) c')
          | true ↦ elim (ltb 0 (length line)) [
            | false ↦ gets_loop rounds limit line c'
            | true ↦
                gets_loop rounds limit (take (length line - 1) line)
                  (show (fb_putchar_cursor font 8) c')
          ]
        ]
      ]
    ]
  ]

  -- `max - 1` wraps for `max` 0.
  unfoldable pub sys_gets : ℕ → K Reply
  sys_gets max k =
      let c = k.fs.console in
      elim (gets_loop (length c.input + 1) ((max + 2 ^ 64 - 1) % 2 ^ 64) [] c) [
        | none ↦ none
        | some (line, c') ↦
            some ((signed64 (length line), line), record k { fs = record k.fs { console = c' } })
      ]

unfoldable pub sys_getchar : K Reply
sys_getchar k = elim (kb_getchar k.fs.console) [
  | none ↦ none
  | some (b, c) ↦ some ((pos b, []), record k { fs = record k.fs { console = c } })
]

unfoldable pub sys_clear : K Reply
sys_clear = draw clear_screen
