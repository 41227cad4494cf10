-- ===== src/Fd/Tests.antt =====
-- The table of descriptors at a concrete state, and its theorems there.
use lxtos.Prelude.{true, false, ℕ, ◌<◌, ◌≡◌, ◌≢◌, refl, none, some, ◌∷◌, ◌⊎◌, set, replicate}
use lxtos.Prelude.Int.{pos}
use lxtos.Fs.{minus_one}
use lxtos.Fd.{FdTable, fd_max, closed, opened, alloc_from, alloc_fd, get_fd, free_fd}
use lxtos.Fd.Table.{AllUsed, LowestFree, IsTable, alloc_fd_lem, get_fd-free, fd_table_init_lem}

-- Number 0 is open for the node 7.
abbrev table : FdTable
table = opened (some 7) ∷ replicate 63 closed

used_entry : true ≡ false → ⊥
used_entry e = cc

table-IsTable : IsTable table
table-IsTable = record {
  size = refl;
  clear = ((λ e. absurd (used_entry e)), fd_table_init_lem.0.clear.1);
}

alloc_second : alloc_fd table (some 9) ≡ (pos 1, set table 1 (opened (some 9)))
unfolding alloc_fd alloc_from
alloc_second = refl

free_outside : free_fd table (pos 64) ≡ table
unfolding free_fd
free_outside = refl

alloc_fd_example :
    (AllUsed table × (alloc_fd table (some 9) ≡ (minus_one, table)))
    ⊎ ((k : ℕ) × (k < fd_max)
        × LowestFree table k
        × (alloc_fd table (some 9) ≡ (pos k, set table k (opened (some 9))))
        × IsTable (set table k (opened (some 9))))
alloc_fd_example = alloc_fd_lem table (some 9) table-IsTable

get_fd-free_example :
    (get_fd (free_fd table (pos 0)) (pos 0) ≡ none)
    × ((j : ℕ) → pos 0 ≢ pos j → get_fd (free_fd table (pos 0)) (pos j) ≡ get_fd table (pos j))
    × IsTable (free_fd table (pos 0))
get_fd-free_example = get_fd-free table (pos 0) table-IsTable
