-- ===== src/Prelude/Table.antt =====
-- Facts about the bits of small numbers, checked at every value.
use lxtos.Prelude.Tests.{◌==◌, ==_iff}
use Prim.Native.Nat.{ℕ, zero, suc, ◌<◌}
use mathlib.Core.Path.{◌≡◌}
use mathlib.Core.Bool.{Bool, true, ◌&&◌}
use native.Mathlib.Omega.{arith}

-- The table of a test: its values at 0, ..., bound - 1.
unfoldable pub all_below : ℕ → (ℕ → Bool) → Bool
all_below zero test = true
all_below (suc k) test = test k && all_below k test

pub table_entry :
    (bound : ℕ) (test : ℕ → Bool) (k : ℕ) → all_below bound test ≡ true → k < bound → test k ≡ true
unfolding all_below
table_entry zero test k full inside = absurd (omega (arith, inside))
table_entry (suc m) test k full inside = ground (arith, table_entry m test k)

-- An equation between two functions on small numbers, from its table.
pub table_eq :
    (n : ℕ) (f g : ℕ → ℕ) (x : ℕ) → all_below n (λ y. f y == g y) ≡ true → x < n → f x ≡ g x
table_eq n f g x h lt = (==_iff (f x) (g x)).0 (table_entry n (λ y. f y == g y) x h lt)
