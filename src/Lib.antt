-- ===== src/Lib.antt =====
-- The lxtos kernel: its memory management, its strings, its file systems, its terminal and its calls.
--
-- Program. The physical memory manager hands out pages, the heap hands out pieces of memory to the
-- rest of the kernel, and the file systems keep their nodes and the contents of their files there. A
-- program asks for files, directories and the terminal by a call of the system, which goes through
-- the table of descriptors and the virtual file system to one of the file systems or the console.
--
-- Files:
-- * KString models src/lib/kstring.c. A C string is the list of its bytes up to the NUL, a stretch of
--   memory is the list of its bytes, and an access out of bounds is a fault (`none`).
-- * Pmm models src/mm/pmm.c: the static variables are the record `Pmm`, and each function takes the
--   record and returns the new one. Arithmetic on `uint64_t` wraps.
-- * KMalloc models src/lib/kmalloc.c: the chain of headers is the list `blocks`, each header with its
--   address. `kfree` of an address in front of which no header stands is a fault.
-- * Fs models what the file systems share: the nodes of include/fs/vfs.h by number, the heap, and the
--   variables of src/fs/vfs.c, with a monad of state and faults.
-- * Tmpfs models src/fs/tmpfs.c over that state. Its children prove reading, growing, writing,
--   adding, looking up and unlinking.
-- * Vfs models src/fs/vfs.c. The tables of operations are a parameter; Vfs/Tables has those of the
--   memory file system, of procfs and of ext2. A path is split, walked through the mount points,
--   mounted on and unmounted.
-- * Procfs models src/fs/procfs.c: the files that report on the machine; what the processor says of
--   itself is a parameter.
-- * Ext2 models src/fs/ext2.c over the bytes of the disk: a structure is its bytes, a field a
--   little-endian number in it. Its child Blocks has the blocks on the disk; Directory what a lookup
--   of a name finds, Insert and Added what adding an entry does to the bytes, and Found the two
--   together.
-- * Disk models the sectors that src/drivers/ata.c reads and writes.
-- * Initramfs models src/fs/initramfs.c: the archive is the list of its bytes. Its children have the
--   numbers of a header, the layout of a file as cpio writes it, and the unpacking of one.
-- * Console models src/drivers/console.c, the terminal as a file.
-- * Syscall models src/kernel/syscall.c: a call is a value with its arguments, a reply the result
--   with the bytes that are written for the program.
-- * Fd models src/kernel/fd.c: the table is a list of 64 entries, a pointer into it a position.
-- * Digits models src/lib/kitoa.c and the numbers of src/console/kprint.c, as texts.
-- * Libc models userspace/src/libc/string.c, userspace/src/ulib/string.c, and the numbers and formats of
--   userspace/src/libc/stdlib.c and userspace/src/libc/stdio.c; the variable arguments are a list.
-- * Shell models the lines and commands of userspace/src/bin/shell/main.c, and
--   userspace/include/ulib/path.h.
-- * Screen models src/drivers/framebuffer.c and the printing of src/console/kprint.c: the frame buffer
--   is a function from offsets to bytes, the font a parameter.
-- * Keyboard models src/drivers/keyboard.c: the scan codes to come are a list.
-- * Prelude has the names, Boolean tests, lists, integers and tables that the others share.
--
-- Fuel. The loops of `pmm_alloc`, `pmm_alloc_n` and `pmm_init` recurse on the number of rounds that
-- the bound of the loop leaves: `total` for `pmm_alloc`, and `total + 1` for `pmm_alloc_n`, whose
-- index grows by one until `i + n` exceeds `total`. The digits of a number of `n` bits need at most `n`
-- rounds, since each at least halves it; `for_up` counts the rounds of a loop with a bound. The line
-- that SYS_GETS and the console read takes one round for each scan code to come, and one more: without
-- a code left the kernel waits, which is `none`. `read_blocks` has 13 rounds, since a file has 12
-- blocks. The loops over a directory of ext2 have one round more than it has bytes: an entry of a
-- well-formed directory has at least 8. `unpack_from` has one more than the archive has bytes, each
-- round but the last passing a header, and `mkpath` one more than the path, which each level
-- shortens. `parse` counts the words that there is room for. All other loops recurse on a list.
--
-- Parameters, for what is outside of the sources: the font, what the processor answers about itself,
-- what the drives hold and refuse (`Disks`), and what memory holds before it is written (`stale`).
-- The dispatcher of the calls takes `ext2_mount`, which Ext2 has, and `elf_exec_argv`, which is not
-- modelled: it changes what the file systems share, and comes back only where it fails. Page tables
-- are in no state.
--
-- Not modelled: src/exec but for `elf_exec`, src/mm/vmm.c, src/kernel/kapi.c and
-- src/kernel/main.c, the bitmap of the font, the polling of the drives and `ata_init`, the processor
-- support, and under userspace the wrappers of system calls, the loop of the shell and the other
-- programs. What `pmm_init` prints is left out.
pub mod Prelude
pub mod KString
pub mod Digits
pub mod Pmm
pub mod KMalloc
pub mod Disk
pub mod Fs
pub mod Tmpfs
pub mod Fd
pub mod Console
pub mod Ext2
pub mod Vfs
pub mod Syscall
pub mod Initramfs
pub mod Procfs
pub mod Libc
pub mod Shell
pub mod Screen
pub mod Keyboard
