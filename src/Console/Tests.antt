-- ===== src/Console/Tests.antt =====
-- The console as a file at concrete scan codes, and its theorem there.
use lxtos.Prelude.{◌≡◌, refl, none, some, [], ◌∷◌, arith, length}
use lxtos.Prelude.Int.{pos}
use lxtos.KString.{CString}
use lxtos.Keyboard.{Console, initial_console, char_step, key_step, getchar_loop, kb_getchar}
use lxtos.KMalloc.{kmalloc_init}
use lxtos.Disk.{no_disks}
use lxtos.Fs.{State}
use lxtos.Console.{read_keys, console_read}
use lxtos.Console.Line.{IsLine, console_read-IsLine}

abbrev state : Console → State
state k = record {
  heap = kmalloc_init 4096 4096;
  pmm = record { bitmap = []; total = 0; used = 0; total_ram = 0 };
  console = k;
  nodes = [];
  vfs_root = none;
  mount_table = [];
  proc_root = none;
  disks = no_disks;
  proc_entries = [];
}

-- The keys `a`, enter and `b`.
abbrev keys : Console
keys = initial_console (0x1E ∷ 0x1C ∷ 0x30 ∷ [])

abbrev line : CString
line = b'a' ∷ b'\n' ∷ []

abbrev left : State
left = state (record keys { input = 0x30 ∷ [] })

reads : console_read 0 0 8 (state keys) ≡ some ((pos 2, line), left)
unfolding console_read read_keys kb_getchar getchar_loop key_step char_step
reads = refl

console_read-IsLine_example : IsLine 8 line × (pos 2 ≡ pos (length line))
console_read-IsLine_example =
    console_read-IsLine 0 0 8 (state keys) left (pos 2) line (omega arith) reads
