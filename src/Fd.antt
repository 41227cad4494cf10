-- ===== src/Fd.antt =====
-- The table of file descriptors, src/kernel/fd.c.
-- A `fd_entry_t *` into the table is the position of the entry.
pub mod Table
mod Tests
use lxtos.Prelude.{
  ℕ, zero, suc, ◌+◌, Bool, true, false, Option, none, some, List, [], ◌∷◌, leb, if◌then◌else◌, set,
  get_elem?, replicate,
}
use lxtos.Prelude.Int.{ℤ, pos, negsuc}
use lxtos.Fs.{Ptr, minus_one}

abbrev pub fd_max : ℕ
fd_max = 64

-- `fd_entry_t`
pub record FdEntry : Type 0 where
  pub node : Option Ptr
  pub offset : ℕ
  pub used : Bool

-- `fd_table`
abbrev pub FdTable : Type 0
FdTable = List FdEntry

-- An entry as `fd_table_init` and `free_fd` leave it, and as `alloc_fd` does.
abbrev pub closed : FdEntry
closed = record { node = none; offset = 0; used = false }

abbrev pub opened : Option Ptr → FdEntry
opened file = record { node = file; offset = 0; used = true }

abbrev pub fd_table_init : FdTable
fd_table_init = replicate fd_max closed

-- The loop of `alloc_fd` over the entries from number `i` on.
alloc_from : Option Ptr → ℕ → FdTable → ℤ × FdTable
alloc_from file i [] = (minus_one, [])
alloc_from file i (e ∷ es) =
    let (fd, es') = alloc_from file (i + 1) es in
    if e.used then (fd, e ∷ es') else (pos i, opened file ∷ es)

unfoldable pub alloc_fd : FdTable → Option Ptr → ℤ × FdTable
unfolding alloc_from
alloc_fd t file = alloc_from file 0 t

unfoldable pub get_fd : FdTable → ℤ → Option ℕ
get_fd t (negsuc n) = none
get_fd t (pos i) =
    if leb fd_max i
    then none
    else elim (get_elem? t i) [ none ↦ none | some e ↦ if e.used then some i else none ]

unfoldable pub free_fd : FdTable → ℤ → FdTable
free_fd t (negsuc n) = t
free_fd t (pos i) = if leb fd_max i then t else set t i closed
